-- ===== src/Vm/Engine.antt =====
-- neo/VM/ExecutionEngine.py, neo/VM/ExecutionContext.py, VMState.py and VMFault.py: the state of the
-- engine, and what it takes from outside.
pub mod Monad
pub mod Stacks
pub mod Limits
pub mod Contexts
pub mod Bounds
pub mod ItemCount

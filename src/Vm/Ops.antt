-- ===== src/Vm/Ops.antt =====
-- neo/VM/ExecutionEngine.py, ExecuteInstruction: one definition for each branch of the chain on the
-- opcode. `c` refers to the context that executes, `ins` is its instruction.
pub mod Push
pub mod Flow
pub mod Stack
pub mod Splice
pub mod Numeric
pub mod Crypto
pub mod Multisig
pub mod Arithmetic
pub mod Collections
pub mod Isolation

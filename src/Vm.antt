-- ===== src/Vm.antt =====
-- neo/VM: the stack machine.
pub mod OpCode
pub mod Instruction
pub mod RandomAccessStack
pub mod StackItem
pub mod State
pub mod Engine
pub mod Ops
pub mod Execute
pub mod ScriptBuilder
pub mod Control
pub mod Safety
pub mod TestHost
mod Tests

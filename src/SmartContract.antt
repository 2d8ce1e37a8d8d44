-- ===== src/SmartContract.antt =====
-- neo/SmartContract: the interop services by name and the engine that charges for instructions.
pub mod Registrations
pub mod InteropService
pub mod ApplicationEngine
mod Tests

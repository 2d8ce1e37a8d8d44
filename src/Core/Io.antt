-- ===== src/Core/Io.antt =====
-- neo/Core/IO: reading and writing of streams of bytes.
pub mod Hex
pub mod BinaryWriter
pub mod BinaryReader
pub mod RoundTrip
pub mod Streams
pub mod Trips

-- ===== src/Maestro.antt =====
-- The Maestro protocol: src/orchestration/maestro.
pub mod Command
pub mod Msgpack
pub mod Note
pub mod Assign
pub mod Deserialize
pub mod Message
pub mod Encode
pub mod Reads
pub mod Headers
pub mod Decode
pub mod RoundTrip
pub mod Hostile
pub mod Sheet
pub mod Easy
pub mod Player
pub mod Notify
pub mod Serialize

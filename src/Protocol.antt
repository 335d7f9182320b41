-- ===== src/Protocol.antt =====
-- src/shared: what client and server send one another.
pub mod Identifiers
pub mod Json
pub mod Command
pub mod Message
pub mod Response
pub mod ArrayStrings

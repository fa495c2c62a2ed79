-- ===== src/Network/Protocol.antt =====
-- src/network/protocol: messages as JSON text.
pub mod Json
pub mod Commands
pub mod Codec
pub mod Lobby
pub mod Game

-- ===== src/Network.antt =====
-- The wire protocol and what stands behind it on the server and on the client: src/network.
pub mod Protocol
pub mod Input
pub mod ClientGameSync
pub mod Queues
pub mod Server

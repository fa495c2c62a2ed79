-- ===== src/Online.antt =====
-- Players on their way into a game and out of it: src/online.
pub mod Matchmaking
pub mod DisconnectManager
pub mod Table
pub mod SessionManager

-- ===== src/App.antt =====
-- src/app: the loop of a running game.
pub mod Dispatch
pub mod GameLoop

-- ===== src/Engine.antt =====
-- src/engine: the game around the board.
pub mod MoveLog
pub mod GameEngine
pub mod Invariant
pub mod Effects
pub mod Requests
pub mod Advance
pub mod Safety
pub mod History
pub mod Verdict
pub mod Scores

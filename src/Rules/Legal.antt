-- ===== src/Rules/Legal.antt =====
-- The moves that the rules describe, and `canMove` and `validateMove` against them.
mod Reach
mod Slides
mod Pawns
mod Moves
pub use Reach.*
pub use Moves.*

-- ===== src/Model.antt =====
-- src/model: pieces, squares and the board.
pub mod Piece
pub mod Position
pub mod Board

-- ===== src/Io/BoardPrinter.antt =====
-- src/io/board_printer.cpp: the board as text.
pub mod Rows
pub mod Words
pub mod Tokens
pub mod RoundTrip
use kong_fu_chess.Prelude.{
  ℕ, zero, suc, pos, ltb, Bool, true, false, List, [], ◌∷◌, ◌++◌, Result, ok, ◌>>=◌, if◌then◌else◌,
}
use kong_fu_chess.Model.Piece.{
  Color, white, black, PieceType, empty, king, queen, rook, bishop, knight, pawn, Piece, is_empty,
}
use kong_fu_chess.Model.Position.{square}
use kong_fu_chess.Model.Board.{Board, rows, cols, cell}
use kong_fu_chess.Io.Text.{Text}

abbrev pub color_to_char : Color → ℕ
color_to_char white = b'w'
color_to_char black = b'b'

abbrev pub piece_type_to_char : PieceType → ℕ
piece_type_to_char king = b'K'
piece_type_to_char queen = b'Q'
piece_type_to_char rook = b'R'
piece_type_to_char bishop = b'B'
piece_type_to_char knight = b'N'
piece_type_to_char pawn = b'P'
piece_type_to_char empty = b'.'

abbrev pub piece_to_token : Piece → Text
piece_to_token p =
    if is_empty p then b'.' ∷ [] else color_to_char p.color ∷ piece_type_to_char p.kind ∷ []

-- The space before each column but the first.
abbrev pub separator : ℕ → Text
separator zero = []
separator (suc col) = b' ' ∷ []

-- The loop over the columns, `n` of which are left from `col` on.
unfoldable pub print_cols : Board → ℕ → ℕ → ℕ → Result Text
print_cols b row col zero = ok []
print_cols b row col (suc n) = do
  piece ← cell b (square (pos row) (pos col))
  rest ← print_cols b row (suc col) n
  ok (separator col ++ (piece_to_token piece ++ rest))

-- The loop over the rows.
unfoldable pub print_rows : Board → ℕ → ℕ → Result Text
unfolding print_cols
print_rows b row zero = ok []
print_rows b row (suc n) = do
  line ← print_cols b row 0 (cols b)
  rest ← print_rows b (suc row) n
  ok (line ++ b'\n' ∷ rest)

unfoldable pub print : Board → Result Text
unfolding print_rows
print b = print_rows b 0 (rows b)

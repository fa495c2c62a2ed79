-- ===== src/Model/Board.antt =====
-- src/model/board.h and board.cpp: a vector of rows. `operator[]` outside a row is undefined
-- behaviour, here `err out_of_range`.
pub mod Laws
pub mod View
pub mod Outside
use kong_fu_chess.Prelude.{
  ℕ, ℤ, pos, negsuc, pos_part, ltb, ltb_ℤ, not, Bool, ◌&&◌, List, [], ◌∷◌, ◌++◌, length, get_elem?,
  set, Result, ok, err, out_of_range, or_range, ◌>>=◌,
}
use kong_fu_chess.Model.Piece.{Piece, empty_piece}
use kong_fu_chess.Model.Position.{Position}

pub record Board : Type 0 where
  pub grid : List (List Piece)

abbrev pub clear : Board
clear = record { grid = [] }

abbrev pub add_row : Board → List Piece → Board
add_row b row = record { grid = b.grid ++ row ∷ [] }

abbrev first_length : List (List Piece) → ℕ
first_length [] = 0
first_length (row ∷ rows) = length row

unfoldable pub rows : Board → ℕ
rows b = length b.grid

unfoldable pub cols : Board → ℕ
cols b = first_length b.grid

unfoldable pub in_bounds : Board → Position → Bool
in_bounds b p =
    not (ltb_ℤ p.row (pos 0))
    && not (ltb_ℤ p.col (pos 0))
    && ltb (pos_part p.row) (rows b)
    && ltb (pos_part p.col) (cols b)

-- `v[i]` with an `int` index: a negative one is far out of range as a `size_t`.
abbrev at {ℓ} : {A : Type ℓ} → List A → ℤ → Result A
at xs (pos i) = or_range (get_elem? xs i)
at xs (negsuc i) = err out_of_range

unfoldable pub cell : Board → Position → Result Piece
cell b p = do row ← at b.grid p.row; at row p.col

-- The assignment `cell(pos) = piece`.
unfoldable pub put : Board → Position → Piece → Result Board
put b p piece = do
  row ← at b.grid p.row
  _ ← at row p.col
  ok (record { grid = set b.grid (pos_part p.row) (set row (pos_part p.col) piece) })

unfoldable pub move_piece : Board → Position → Position → Result Board
move_piece b from to = do piece ← cell b from; moved ← put b to piece; put moved from empty_piece

unfoldable pub remove_piece_at : Board → Position → Result Board
remove_piece_at b p = put b p empty_piece

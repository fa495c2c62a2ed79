-- ===== src/Rules/Legal/Reach.antt =====
-- The rules of the pieces in words of squares, apart from the code that tests them.
use kong_fu_chess.Prelude.{ℕ, ◌≤◌, ◌<◌, ℤ, pos, negsuc, ◌+ℤ◌, ◌-ℤ◌, abs, true, false, ◌≡◌, ◌≢◌, ◌⊎◌}
use kong_fu_chess.Model.Piece.{
  Color, white, black, PieceType, empty, king, queen, rook, bishop, knight, pawn, Piece, is_empty,
}
use kong_fu_chess.Model.Position.{Position, square}
use kong_fu_chess.Model.Board.{Board, rows, in_bounds}
use kong_fu_chess.Model.Board.Laws.{piece_at}
use kong_fu_chess.Rules.Path.{ClearFrom}

abbrev pub rows_apart : Position → Position → ℕ
rows_apart from to = abs (to.row -ℤ from.row)

abbrev pub cols_apart : Position → Position → ℕ
cols_apart from to = abs (to.col -ℤ from.col)

-- A piece that an enemy of `c` owns.
abbrev pub IsEnemy : Color → Piece → Type 0
IsEnemy c p = (is_empty p ≡ false) × (p.color ≢ c)

abbrev pub Slides : Board → Position → Position → Type 0 → Type 0
Slides b from to Line = Line × ClearFrom b from to 1

abbrev pub Straight : Position → Position → Type 0
Straight from to = (from.row ≡ to.row) ⊎ (from.col ≡ to.col)

abbrev pub Diagonal : Position → Position → Type 0
Diagonal from to = (rows_apart from to ≡ cols_apart from to) × (0 < rows_apart from to)

-- White pawns start on the last row but one and go to lower rows, black ones start on the second
-- row and go to higher rows.
abbrev pub ahead : Color → ℤ
ahead white = negsuc 0
ahead black = pos 1

abbrev pub far_ahead : Color → ℤ
far_ahead white = negsuc 1
far_ahead black = pos 2

abbrev pub pawn_row : Board → Color → ℤ
pawn_row b white = pos (rows b) -ℤ pos 2
pawn_row b black = pos 1

pub data PawnReaches (b : Board) (from to : Position) (p : Piece) : Type 0 where
  advance :
      to.row ≡ from.row +ℤ ahead p.color
      → to.col ≡ from.col
      → is_empty (piece_at b to) ≡ true
      → PawnReaches b from to p
  double_advance :
      to.row ≡ from.row +ℤ far_ahead p.color
      → to.col ≡ from.col
      → p.has_moved ≡ false
      → from.row ≡ pawn_row b p.color
      → is_empty (piece_at b (square (from.row +ℤ ahead p.color) from.col)) ≡ true
      → is_empty (piece_at b to) ≡ true
      → PawnReaches b from to p
  capture :
      to.row ≡ from.row +ℤ ahead p.color
      → cols_apart from to ≡ 1
      → IsEnemy p.color (piece_at b to)
      → PawnReaches b from to p

-- Where a piece of a kind may go, its own colour on the target aside.
abbrev pub Reaches : Board → Position → Position → Piece → PieceType → Type 0
Reaches b from to p empty = ⊥
Reaches b from to p king = (rows_apart from to ≤ 1) × (cols_apart from to ≤ 1)
Reaches b from to p queen =
    Slides b from to (Straight from to) ⊎ Slides b from to (Diagonal from to)
Reaches b from to p rook = Slides b from to (Straight from to)
Reaches b from to p bishop = Slides b from to (Diagonal from to)
Reaches b from to p knight =
    (rows_apart from to ≡ 1) × (cols_apart from to ≡ 2)
    ⊎ (rows_apart from to ≡ 2) × (cols_apart from to ≡ 1)
Reaches b from to p pawn = PawnReaches b from to p

-- The move of the piece on `from` to `to` is one of the game.
pub record IsLegal (b : Board) (from to : Position) : Type 0 where
  pub moves : from ≢ to
  pub from_in : in_bounds b from ≡ true
  pub to_in : in_bounds b to ≡ true
  pub reaches : Reaches b from to (piece_at b from) (piece_at b from).kind
  pub lands : (is_empty (piece_at b to) ≡ true) ⊎ IsEnemy (piece_at b from).color (piece_at b to)

-- ===== src/Rules/Movement.antt =====
-- src/rules/movement/piece_movement.h and piece_movements.cpp. The subclasses of `PieceMovement`
-- are the constructors of a data type, `nullptr` is `none`.
use kong_fu_chess.Prelude.{
  leb, ◌==◌, ℤ, pos, negsuc, ◌+ℤ◌, ◌-ℤ◌, ◌==ℤ◌, abs, Bool, true, false, not, ◌&&◌, ◌||◌, Option,
  none, some, Result, ok, ◌>>=◌, if◌then◌else◌,
}
use kong_fu_chess.Model.Piece.{
  Color, white, black, PieceType, empty, king, queen, rook, bishop, knight, pawn, Piece, is_empty,
  is_friendly,
}
use kong_fu_chess.Model.Position.{Position, square}
use kong_fu_chess.Model.Board.{Board, rows, cell}
use kong_fu_chess.Rules.Helpers.{can_slide_straight, can_slide_diagonal}

pub data PieceMovement : Type 0 where
  king_movement queen_movement rook_movement bishop_movement knight_movement : PieceMovement
  pawn_movement : PieceMovement

abbrev pub movement_for : PieceType → Option PieceMovement
movement_for king = some king_movement
movement_for queen = some queen_movement
movement_for rook = some rook_movement
movement_for bishop = some bishop_movement
movement_for knight = some knight_movement
movement_for pawn = some pawn_movement
movement_for empty = none

unfoldable pub king_can_move : Position → Position → Bool
king_can_move from to =
    let dr = abs (to.row -ℤ from.row) in
    let dc = abs (to.col -ℤ from.col) in leb dr 1 && leb dc 1 && (not (dr == 0) || not (dc == 0))

unfoldable pub queen_can_move : Board → Position → Position → Result Bool
queen_can_move board from to = do
  straight ← can_slide_straight board from to
  if straight then ok true else can_slide_diagonal board from to

unfoldable pub knight_can_move : Position → Position → Bool
knight_can_move from to =
    let dr = abs (to.row -ℤ from.row) in
    let dc = abs (to.col -ℤ from.col) in (dr == 1) && (dc == 2) || (dr == 2) && (dc == 1)

abbrev pub forward : Color → ℤ
forward white = negsuc 0
forward black = pos 1

-- `2 * forwardDr`.
abbrev pub double_forward : Color → ℤ
double_forward white = negsuc 1
double_forward black = pos 2

abbrev pub home_rank : Board → Color → ℤ
home_rank board white = pos (rows board) -ℤ pos 2
home_rank board black = pos 1

-- The double step: `destination` is what stands on `to`.
unfoldable pub pawn_double_step : Board → Position → Piece → Piece → Result Bool
pawn_double_step board from piece destination =
    if piece.has_moved
    then ok false
    else if not (from.row ==ℤ home_rank board piece.color)
    then ok false
    else (cell board (square (from.row +ℤ forward piece.color) from.col) >>= λ between.
        ok (is_empty between && is_empty destination))

unfoldable pub pawn_step : Board → Position → Position → Piece → Piece → Result Bool
pawn_step board from to piece destination =
    let dr = to.row -ℤ from.row in
    let dc = to.col -ℤ from.col in
    if (dr ==ℤ forward piece.color) && (dc ==ℤ pos 0)
    then ok (is_empty destination)
    else if (dr ==ℤ double_forward piece.color) && (dc ==ℤ pos 0)
    then pawn_double_step board from piece destination
    else if (dr ==ℤ forward piece.color) && (abs dc == 1)
    then ok (not (is_empty destination) && not (is_friendly destination piece.color))
    else ok false

unfoldable pub pawn_can_move : Board → Position → Position → Piece → Result Bool
pawn_can_move board from to piece = cell board to >>= pawn_step board from to piece

unfoldable pub movement_can_move : PieceMovement → Board → Position → Position → Piece → Result Bool
movement_can_move king_movement board from to piece = ok (king_can_move from to)
movement_can_move queen_movement board from to piece = queen_can_move board from to
movement_can_move rook_movement board from to piece = can_slide_straight board from to
movement_can_move bishop_movement board from to piece = can_slide_diagonal board from to
movement_can_move knight_movement board from to piece = ok (knight_can_move from to)
movement_can_move pawn_movement board from to piece = pawn_can_move board from to piece

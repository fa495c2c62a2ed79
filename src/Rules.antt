-- ===== src/Rules.antt =====
-- src/rules/piece_rules.cpp and rule_engine.cpp: which move a piece may make. A board reference
-- that the code binds is a read of the board here.
pub mod Helpers
pub mod Path
pub mod Legal
pub mod Movement
use package.kong_fu_chess.Prelude.{
  ℕ, ltb, Bool, true, false, not, ◌&&◌, ◌||◌, Option, none, some, Result, ok, err, ◌>>=◌,
  if◌then◌else◌,
}
use package.kong_fu_chess.Model.Piece.{Piece, is_empty, is_friendly}
use package.kong_fu_chess.Model.Position.{Position, position_eq}
use package.kong_fu_chess.Model.Board.{Board, in_bounds, cell}
use Movement.{PieceMovement, movement_for, movement_can_move}

-- `movement == nullptr || !movement->canMove(...)`, negated.
unfoldable pub allows : Option PieceMovement → Board → Position → Position → Piece → Result Bool
allows none board from to piece = ok false
allows (some movement) board from to piece = movement_can_move movement board from to piece

-- The last part of `canMove`: the move is refused on a friendly destination.
unfoldable pub lands : Board → Position → Piece → Bool → Result Bool
lands board to piece false = ok false
lands board to piece true = do
  destination ← cell board to
  ok (if not (is_empty destination) && is_friendly destination piece.color then false else true)

-- The part of `canMove` behind the checks of the squares.
unfoldable pub judge : Board → Position → Position → Piece → Result Bool
judge board from to piece =
    if is_empty piece
    then ok false
    else (allows (movement_for piece.kind) board from to piece >>= lands board to piece)

unfoldable pub can_move : Board → Position → Position → Result Bool
can_move board from to =
    if position_eq from to
    then ok false
    else if not (in_bounds board from) || not (in_bounds board to)
    then ok false
    else (cell board from >>= judge board from to)

-- The part of `validateMove` behind the checks of the squares.
unfoldable pub validate_piece : Board → Position → Position → Piece → Result Bool
validate_piece board from to piece =
    if is_empty piece
    then ok false
    else if ltb 0 piece.move_cooldown_remaining_ms
    then ok false
    else can_move board from to

unfoldable pub validate_move : Board → Position → Position → Result Bool
validate_move board from to =
    if not (in_bounds board from) || not (in_bounds board to)
    then ok false
    else (cell board from >>= validate_piece board from to)

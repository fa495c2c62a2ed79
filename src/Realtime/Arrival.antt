-- ===== src/Realtime/Arrival.antt =====
-- The arrival of one move, in src/realtime/real_time_arbiter.cpp. The board, the squares reached
-- in this tick and the resolutions are the state that the C++ function takes by reference.
pub mod Effects
pub mod Frame
use kong_fu_chess.Prelude.{
  ℕ, ◌+◌, ℤ, pos, ◌-ℤ◌, ◌==ℤ◌, any, Bool, true, false, not, ◌&&◌, ◌||◌, List, [], ◌∷◌, ◌++◌, Result,
  ok, ◌>>=◌, if◌then◌else◌,
}
use kong_fu_chess.Model.Piece.{
  Color, white, black, PieceType, empty, queen, pawn, Piece, color_eq, type_eq, is_empty,
  is_friendly, promote, mark_moved,
}
use kong_fu_chess.Model.Position.{Position, position_eq}
use kong_fu_chess.Model.Board.{Board, rows, in_bounds, cell, put, move_piece, remove_piece_at}
use kong_fu_chess.Realtime.Motion.{MotionType, jump, motion_type_eq, Motion}
use kong_fu_chess.Realtime.Resolution.{
  CompletedMoveEvent, JumpCaptureEvent, MoveResolution, completed_move, jump_capture,
}

abbrev pub is_jump_active_at : List Motion → Position → Bool
is_jump_active_at motions p =
    any (λ m. motion_type_eq m.type jump && position_eq m.source p) motions

abbrev pub square_arrived_this_tick : List Position → Position → Bool
square_arrived_this_tick arrived p = any (λ s. position_eq s p) arrived

abbrev pub last_row : Board → Color → ℤ
last_row board white = pos 0
last_row board black = pos (rows board) -ℤ pos 1

unfoldable pub promote_pawn_if_eligible : Board → Position → Result Board
promote_pawn_if_eligible board p = cell board p >>= λ piece.
    if not (type_eq piece.kind pawn)
    then ok board
    else if p.row ==ℤ last_row board piece.color
    then put board p (promote piece queen)
    else ok board

abbrev pub motion_arrival_ms : Motion → ℕ
motion_arrival_ms m = m.started_at_ms + m.duration_ms

pub record Tick : Type 0 where
  pub board : Board
  pub arrived : List Position
  pub resolutions : List MoveResolution

abbrev pub jump_capture_event : Motion → Piece → JumpCaptureEvent
jump_capture_event m jumper = record {
  timestamp_ms = pos (motion_arrival_ms m);
  jump_square = m.destination;
  jumper_type = jumper.kind;
  jumper_color = jumper.color;
  victim_type = m.piece_type;
  victim_color = m.piece_color;
  victim_from = m.source;
  victim_to = m.destination;
}

abbrev pub completed_move_event : Motion → Piece → CompletedMoveEvent
completed_move_event m destination = record {
  timestamp_ms = pos (motion_arrival_ms m);
  piece_type = m.piece_type;
  piece_color = m.piece_color;
  from = m.source;
  to = m.destination;
  captured_type = if not (is_empty destination) then destination.kind else empty;
  captured_color = if not (is_empty destination) then destination.color else white;
}

-- `destination` is the piece found on the target; an airborne one takes the mover.
unfoldable pub jump_captures : Motion → Piece → Tick → Result Tick
jump_captures m jumper s = do
  board ← remove_piece_at s.board m.source
  ok (record s {
    board = board;
    resolutions = s.resolutions ++ jump_capture (jump_capture_event m jumper) ∷ [];
  })

-- The mover loses a tie for a square that was reached in the same tick.
unfoldable pub loses_tie : Motion → Tick → Result Tick
loses_tie m s = do board ← remove_piece_at s.board m.source; ok (record s { board = board })

unfoldable pub mark_pawn : Board → Position → Result Board
mark_pawn board p = cell board p >>= λ arrived.
    if type_eq arrived.kind pawn then put board p (mark_moved arrived) else ok board

unfoldable pub completes : Motion → Piece → Tick → Result Tick
completes m destination s = do
  moved ← move_piece s.board m.source m.destination
  marked ← mark_pawn moved m.destination
  board ← promote_pawn_if_eligible marked m.destination
  ok (record {
    board = board;
    arrived = s.arrived ++ m.destination ∷ [];
    resolutions = s.resolutions ++ completed_move (completed_move_event m destination) ∷ [];
  })

-- The part of `resolveMoveArrival` behind the check of the mover.
unfoldable pub meets : List Motion → Motion → Tick → Piece → Piece → Result Tick
meets active m s mover destination =
    if not (is_empty destination) && is_friendly destination mover.color
    then ok s
    else if not (is_empty destination) && is_jump_active_at active m.destination
    then jump_captures m destination s
    else if not (is_empty destination) && square_arrived_this_tick s.arrived m.destination
    then loses_tie m s
    else completes m destination s

-- The piece that set out is no longer on its source.
abbrev pub is_gone : Motion → Piece → Bool
is_gone m mover =
    is_empty mover
    || not (type_eq mover.kind m.piece_type)
    || not (color_eq mover.color m.piece_color)

unfoldable pub arrives : List Motion → Motion → Tick → Piece → Result Tick
arrives active m s mover =
    if is_gone m mover then ok s else (cell s.board m.destination >>= meets active m s mover)

unfoldable pub resolve_move_arrival : List Motion → Motion → Tick → Result Tick
resolve_move_arrival active m s =
    if not (in_bounds s.board m.source)
    then ok s
    else (cell s.board m.source >>= arrives active m s)

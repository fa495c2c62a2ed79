-- ===== src/Engine/Scores.antt =====
-- The log that `processMoveResolutions` writes.
use kong_fu_chess.Prelude.{ℕ, ◌+◌, List, [], ◌∷◌, if◌then◌else◌, ◌≡◌, arith}
use kong_fu_chess.Model.Piece.{Color, white, black, color_eq}
use kong_fu_chess.Realtime.Resolution.{
  CompletedMoveEvent, JumpCaptureEvent, MoveResolution, completed_move, jump_capture,
}
use kong_fu_chess.Engine.MoveLog.{
  MoveLog, capture_value, add_capture_score, record_completed_move, record_jump_capture,
}
use kong_fu_chess.Engine.GameEngine.{GameEngine, process_resolution, process_move_resolutions}

-- What a resolution is worth to a side: an empty capture and a king are worth nothing.
abbrev pub worth : Color → MoveResolution → ℕ
worth side (completed_move e) =
    if color_eq e.piece_color side then capture_value e.captured_type else 0
worth side (jump_capture e) =
    if color_eq e.jumper_color side then capture_value e.victim_type else 0

abbrev pub total_worth : Color → List MoveResolution → ℕ
total_worth side [] = 0
total_worth side (r ∷ rs) = worth side r + total_worth side rs

-- What a log holds for a side.
abbrev pub score : Color → MoveLog → ℕ
score white log = log.white_score
score black log = log.black_score

record_completed-score :
    (side : Color) (log : MoveLog) (e : CompletedMoveEvent)
    → score side (record_completed_move log e) ≡ score side log + worth side (completed_move e)
unfolding record_completed_move add_capture_score
record_completed-score white log e = ground arith
record_completed-score black log e = ground arith

record_jump-score :
    (side : Color) (log : MoveLog) (e : JumpCaptureEvent)
    → score side (record_jump_capture log e) ≡ score side log + worth side (jump_capture e)
unfolding record_jump_capture add_capture_score
record_jump-score white log e = ground arith
record_jump-score black log e = ground arith

resolution-score :
    (side : Color) (e : GameEngine) (r : MoveResolution)
    → score side (process_resolution e r).move_log ≡ score side e.move_log + worth side r
resolution-score side e (completed_move c) = record_completed-score side e.move_log c
resolution-score side e (jump_capture j) = record_jump-score side e.move_log j

-- After the resolutions of a tick each side's score has grown by the values of the pieces that its
-- moves and its jumps took, whatever their order.
pub process_move_resolutions-score :
    (side : Color) (e : GameEngine) (rs : List MoveResolution)
    → score side (process_move_resolutions e rs).move_log
      ≡ score side e.move_log + total_worth side rs
unfolding process_move_resolutions
process_move_resolutions-score side e [] = omega arith
process_move_resolutions-score side e (r ∷ rs) = omega (
  arith,
  process_move_resolutions-score side (process_resolution e r) rs,
  resolution-score side e r,
)

-- ===== src/Tests/Engine.antt =====
-- The calls of the engine while the king and the rook are under way.
use kong_fu_chess.Prelude.{◌≡◌, refl, Returns, ◌∷◌, [], ok, some, ◌+◌, List}
use kong_fu_chess.Model.Piece.{white, empty_piece}
use kong_fu_chess.Model.Board.{cell}
use kong_fu_chess.Model.Board.Laws.{piece_at}
use kong_fu_chess.Realtime.Resolution.{MoveResolution, jump_capture, completed_move}
use kong_fu_chess.Realtime.Arrival.{resolve_move_arrival, jump_capture_event, completed_move_event}
use kong_fu_chess.Realtime.Arbiter.{start_tick}
use kong_fu_chess.Engine.GameEngine.{
  new_engine, request_move, request_jump, advance, find_winner, process_move_resolutions,
}
use kong_fu_chess.Engine.Invariant.{Evolves, IsOver}
use kong_fu_chess.Engine.Requests.{
  Requested, JumpRequested, request_move-Requested, request_jump-JumpRequested,
}
use kong_fu_chess.Engine.Safety.{advance-Evolves}
use kong_fu_chess.Engine.History.{
  Call, moves, jumps, ticks, premoves, run, Remains, run-new_engine, run-IsOver,
}
use kong_fu_chess.Engine.Verdict.{king_shot_down_wins}
use kong_fu_chess.Engine.Scores.{score, total_worth, process_move_resolutions-score}
use kong_fu_chess.Tests.Boards.{
  on, small, small-IsRect, king_step, in_the_air, engine, engine-IsValid, ended_engine,
  king_step-Travels, king_step-Meets,
}

request_move-Requested_example :
    Returns (Requested engine (on 2 0) (on 0 0)) (request_move engine (on 2 0) (on 0 0))
request_move-Requested_example = request_move-Requested engine (on 2 0) (on 0 0) engine-IsValid

request_jump-JumpRequested_example :
    Returns (JumpRequested engine (on 2 0)) (request_jump engine (on 2 0))
request_jump-JumpRequested_example = request_jump-JumpRequested engine (on 2 0) engine-IsValid

advance-Evolves_example : Returns (Evolves engine) (advance engine 1000)
advance-Evolves_example = advance-Evolves engine 1000 engine-IsValid

abbrev history : List Call
history =
    moves (on 2 0) (on 0 0) ∷ jumps (on 1 2) ∷ premoves (on 2 0) (on 0 0) (on 0 2) ∷ ticks 2500 ∷ []

run-new_engine_example : Returns (Remains (new_engine small)) (run (new_engine small) history)
run-new_engine_example = run-new_engine small history small-IsRect

run-IsOver_example : Returns (IsOver ended_engine) (run ended_engine history)
run-IsOver_example =
    run-IsOver ended_engine history engine-IsValid (refl, (refl, (refl, (refl, tt)))) refl

king_shot_down_wins_example :
    (find_winner small in_the_air (king_step ∷ []) ≡ ok (some (piece_at small (on 1 2)).color))
    × Returns
        (λ t.
          (piece_at t.board (on 1 2) ≡ empty_piece)
          × (piece_at t.board (on 0 2) ≡ piece_at small (on 0 2))
          × (t.resolutions
              ≡ jump_capture (jump_capture_event king_step (piece_at small (on 0 2))) ∷ []))
        (resolve_move_arrival in_the_air king_step (start_tick small))
unfolding piece_at cell
king_shot_down_wins_example =
    king_shot_down_wins engine king_step [] engine-IsValid king_step-Travels refl refl
      king_step-Meets refl tt

abbrev resolutions : List MoveResolution
unfolding piece_at cell
resolutions =
    jump_capture (jump_capture_event king_step (piece_at small (on 0 2)))
    ∷ completed_move (completed_move_event king_step (piece_at small (on 0 2)))
    ∷ []

process_move_resolutions-score_example :
    score white (process_move_resolutions engine resolutions).move_log
    ≡ score white engine.move_log + total_worth white resolutions
process_move_resolutions-score_example = process_move_resolutions-score white engine resolutions

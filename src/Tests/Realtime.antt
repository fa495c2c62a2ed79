-- ===== src/Tests/Realtime.antt =====
-- A tick in which the king arrives and the rook is in the air.
use kong_fu_chess.Prelude.{◌≡◌, refl, Returns}
use mathlib.Core.List.{Perm}
use kong_fu_chess.Model.Board.{in_bounds, cell, rows, cols}
use kong_fu_chess.Model.Board.Laws.{piece_at}
use kong_fu_chess.Model.Board.View.{Shows, Shows-self}
use kong_fu_chess.Realtime.Arrival.{resolve_move_arrival}
use kong_fu_chess.Realtime.Arrival.Effects.{Arrives, resolve_move_arrival-Arrives}
use kong_fu_chess.Realtime.Arrival.Frame.{resolve_move_arrival-spares_friends}
use kong_fu_chess.Realtime.Arbiter.{
  start_tick, decrease_all_cooldowns, land_jumps, advance_time, sort_motions,
}
use kong_fu_chess.Realtime.Arbiter.Cooldown.{rested_for, decrease_all_cooldowns-Shows}
use kong_fu_chess.Realtime.Arbiter.Landing.{landing, land_jumps-Shows}
use kong_fu_chess.Realtime.Arbiter.Advance.{Advances, advance_time-Advances}
use kong_fu_chess.Realtime.Arbiter.Order.{IsSorted, sort_motions_lem}
use kong_fu_chess.Tests.Boards.{
  on, small, small-IsRect, king_step, in_the_air, engine, in_the_air-IsPlaced, king_step-Travels,
  apart,
}

resolve_move_arrival-Arrives_example :
    Returns
      (Arrives in_the_air king_step (start_tick small))
      (resolve_move_arrival in_the_air king_step (start_tick small))
resolve_move_arrival-Arrives_example =
    resolve_move_arrival-Arrives in_the_air king_step (start_tick small) small-IsRect
      king_step-Travels.0 king_step-Travels.1 king_step-Travels.2

-- The white rook stands aside when the king arrives.
resolve_move_arrival-spares_friends_example :
    Returns
      (λ t. piece_at t.board (on 2 0) ≡ piece_at small (on 2 0))
      (resolve_move_arrival in_the_air king_step (start_tick small))
unfolding in_bounds rows cols piece_at cell
resolve_move_arrival-spares_friends_example =
    resolve_move_arrival-spares_friends in_the_air king_step (start_tick small) (on 2 0)
      small-IsRect king_step-Travels.0 king_step-Travels.1 king_step-Travels.2 refl
      (apart (on 1 2) (on 2 0) refl) refl refl

decrease_all_cooldowns-Shows_example :
    Returns
      (Shows small (λ q. rested_for 100 (piece_at small q)))
      (decrease_all_cooldowns small 100)
decrease_all_cooldowns-Shows_example = decrease_all_cooldowns-Shows small 100 small-IsRect

land_jumps-Shows_example :
    Returns
      (Shows small (landing 2000 in_the_air (piece_at small)))
      (land_jumps 2000 in_the_air small)
land_jumps-Shows_example =
    land_jumps-Shows small 2000 in_the_air small (piece_at small) (Shows-self small small-IsRect)

advance_time-Advances_example :
    Returns (Advances engine.arbiter 1000 small) (advance_time engine.arbiter 1000 small)
advance_time-Advances_example =
    advance_time-Advances engine.arbiter 1000 small small-IsRect in_the_air-IsPlaced

sort_motions_lem_example :
    IsSorted (sort_motions in_the_air) × Perm (sort_motions in_the_air) in_the_air
sort_motions_lem_example = sort_motions_lem in_the_air

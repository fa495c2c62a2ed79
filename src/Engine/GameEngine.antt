-- ===== src/Engine/GameEngine.antt =====
-- src/engine/game_engine.h and game_engine.cpp. A method returns the new engine; it is an error
-- where the C++ code would read or write off the board. `event_bus` is `none` for a null pointer,
-- and holds the events published so far; a subscriber does not call back into the engine.
use kong_fu_chess.Prelude.{
  pos, ℕ, suc, ◌+◌, ◌*◌, ◌==◌, ltb, any, filter, Bool, true, false, not, ◌&&◌, ◌||◌, Option, none,
  some, List, [], ◌∷◌, ◌++◌, Result, ok, ◌>>=◌, if◌then◌else◌,
}
use kong_fu_chess.Model.Piece.{
  Color, king, type_eq, Piece, is_empty, is_friendly, set_move_cooldown,
}
use kong_fu_chess.Model.Position.{Position, no_position, position_eq}
use kong_fu_chess.Model.Board.{Board, in_bounds, cell, put}
use kong_fu_chess.Rules.{validate_move}
use kong_fu_chess.Rules.Helpers.{distance}
use kong_fu_chess.Realtime.Motion.{move, jump, motion_type_eq, Motion}
use kong_fu_chess.Realtime.Resolution.{MoveResolution, completed_move, jump_capture}
use kong_fu_chess.Realtime.Arrival.{is_jump_active_at}
use kong_fu_chess.Realtime.Arbiter.{
  Arbiter, new_arbiter, add_motion, Advanced, completing_moves, advance_time,
}
use kong_fu_chess.Events.GameEvent.{
  GameEvent, move_completed, jump_captured, game_ended, move_started, jump_started,
}
use kong_fu_chess.Engine.MoveLog.{MoveLog, new_log, record_completed_move, record_jump_capture}

abbrev pub move_duration_ms : ℕ
move_duration_ms = 1000

abbrev pub jump_duration_ms : ℕ
jump_duration_ms = 2000

abbrev pub move_cooldown_ms : ℕ
move_cooldown_ms = 1000

pub record Premove : Type 0 where
  pub from : Position
  pub to : Position

-- `std::map` from the row and column of a square, one entry to a key.
abbrev pub Premoves : Type 0
Premoves = List (Position × Premove)

abbrev pub find_premove : Premoves → Position → Option Premove
find_premove [] key = none
find_premove ((k, p) ∷ rest) key = if position_eq k key then some p else find_premove rest key

abbrev pub erase_premove : Premoves → Position → Premoves
erase_premove premoves key = filter (λ e. not (position_eq e.0 key)) premoves

pub record GameEngine : Type 0 where
  pub board : Board
  pub arbiter : Arbiter
  pub move_log : MoveLog
  pub is_game_over : Bool
  pub winner : Option Color
  pub premoves : Premoves
  pub next_motion_id : ℕ
  pub event_bus : Option (List GameEvent)

abbrev pub new_engine : Board → GameEngine
new_engine board = record {
  board = board;
  arbiter = new_arbiter;
  move_log = new_log;
  is_game_over = false;
  winner = none;
  premoves = [];
  next_motion_id = 0;
  event_bus = none;
}

abbrev pub reset : GameEngine → GameEngine
reset e = record e {
  arbiter = new_arbiter;
  next_motion_id = 0;
  premoves = [];
  is_game_over = false;
  winner = none;
  move_log = new_log;
}

abbrev pub apply_remote_game_ended : GameEngine → Color → GameEngine
apply_remote_game_ended e winner = record e { is_game_over = true; winner = some winner }

abbrev pub active_motions : GameEngine → List Motion
active_motions e = e.arbiter.active_motions

abbrev pub elapsed_ms : GameEngine → ℕ
elapsed_ms e = e.arbiter.elapsed_ms

abbrev pub post : GameEvent → Option (List GameEvent) → Option (List GameEvent)
post event none = none
post event (some events) = some (events ++ event ∷ [])

-- `if (event_bus_ != nullptr) event_bus_->publish(event)`.
abbrev pub publish : GameEngine → GameEvent → GameEngine
publish e event = record e { event_bus = post event e.event_bus }

abbrev pub is_busy_at : GameEngine → Position → Bool
is_busy_at e p = any (λ m. position_eq m.source p) (active_motions e)

abbrev pub is_active_move_start_tick : GameEngine → Position → Bool
is_active_move_start_tick e from =
    any
      (λ m.
        motion_type_eq m.type move
        && position_eq m.source from
        && (m.started_at_ms == elapsed_ms e))
      (active_motions e)

abbrev pub first_move_destination : List Motion → Position → Option Position
first_move_destination [] from = none
first_move_destination (m ∷ ms) from =
    if motion_type_eq m.type move && position_eq m.source from
    then some m.destination
    else first_move_destination ms from

abbrev pub get_active_move_destination : GameEngine → Position → Option Position
get_active_move_destination e from = first_move_destination (active_motions e) from

abbrev pub is_some {ℓ} : {A : Type ℓ} → Option A → Bool
is_some none = false
is_some (some a) = true

abbrev pub has_premove_at : GameEngine → Position → Bool
has_premove_at e source = is_some (find_premove e.premoves source)

abbrev pub queue_premove : GameEngine → Position → Position → Position → GameEngine
queue_premove e key from to = record e {
  premoves = (key, record { from = from; to = to }) ∷ erase_premove e.premoves key;
}

abbrev pub clear_premove_at : GameEngine → Position → GameEngine
clear_premove_at e source = record e { premoves = erase_premove e.premoves source }

abbrev pub new_move : GameEngine → Position → Position → Piece → Motion
new_move e from to piece = record {
  motion_id = e.next_motion_id;
  source = from;
  destination = to;
  type = move;
  started_at_ms = elapsed_ms e;
  duration_ms = distance from to * move_duration_ms;
  piece_type = piece.kind;
  piece_color = piece.color;
}

-- The move that has been validated is put in flight.
abbrev pub start_move : GameEngine → Position → Position → Piece → GameEngine
start_move e from to piece =
    publish
      (record e {
        arbiter = add_motion e.arbiter (new_move e from to piece);
        next_motion_id = suc e.next_motion_id;
      })
      (move_started (record {
        timestamp_ms = pos (elapsed_ms e);
        piece_type = piece.kind;
        piece_color = piece.color;
        from = from;
        to = to;
      }))

unfoldable pub launch : GameEngine → Position → Position → Bool → Result (GameEngine × Bool)
launch e from to false = ok (e, false)
launch e from to true = do piece ← cell e.board from; ok (start_move e from to piece, true)

unfoldable pub request_move : GameEngine → Position → Position → Result (GameEngine × Bool)
request_move e from to =
    if e.is_game_over
    then ok (e, false)
    else if is_busy_at e from
    then ok (e, false)
    else (validate_move e.board from to >>= launch e from to)

abbrev pub new_jump : GameEngine → Position → Piece → Motion
new_jump e p piece = record {
  motion_id = e.next_motion_id;
  source = p;
  destination = no_position;
  type = jump;
  started_at_ms = elapsed_ms e;
  duration_ms = jump_duration_ms;
  piece_type = piece.kind;
  piece_color = piece.color;
}

abbrev pub start_jump : GameEngine → Position → Piece → GameEngine
start_jump e p piece =
    publish
      (record e {
        arbiter = add_motion e.arbiter (new_jump e p piece);
        next_motion_id = suc e.next_motion_id;
      })
      (jump_started (record {
        timestamp_ms = pos (elapsed_ms e);
        piece_type = piece.kind;
        piece_color = piece.color;
        square = p;
      }))

unfoldable pub request_jump : GameEngine → Position → Result (GameEngine × Bool)
request_jump e p =
    if e.is_game_over
    then ok (e, false)
    else if not (in_bounds e.board p)
    then ok (e, false)
    else (cell e.board p >>= λ piece. ok (
        if is_empty piece || ltb 0 piece.jump_cooldown_remaining_ms || is_busy_at e p
        then (e, false)
        else (start_jump e p piece, true)))

abbrev pub process_resolution : GameEngine → MoveResolution → GameEngine
process_resolution e (completed_move c) =
    publish (record e { move_log = record_completed_move e.move_log c }) (move_completed c)
process_resolution e (jump_capture j) =
    publish (record e { move_log = record_jump_capture e.move_log j }) (jump_captured j)

unfoldable pub process_move_resolutions : GameEngine → List MoveResolution → GameEngine
process_move_resolutions e [] = e
process_move_resolutions e (r ∷ rs) = process_move_resolutions (process_resolution e r) rs

-- The bodies of `tryExecutePremove` and of what it calls: whether the move starts is not used.
unfoldable pub replay : GameEngine → Position → Position → Bool → Result GameEngine
replay e arrival to false = ok e
replay e arrival to true = do (e', started) ← request_move e arrival to; ok e'

unfoldable pub execute_premove : GameEngine → Position → Premove → Result GameEngine
execute_premove e arrival premove =
    if not (position_eq premove.from arrival)
    then ok e
    else (validate_move e.board arrival premove.to >>= replay e arrival premove.to)

unfoldable pub try_execute_premove : GameEngine → Position → Position → Result GameEngine
try_execute_premove e move_source arrival = elim (find_premove e.premoves move_source) [
  | none ↦ ok e
  | some premove ↦ execute_premove (clear_premove_at e move_source) arrival premove
]

abbrev pub end_game : GameEngine → Color → GameEngine
end_game e winner =
    publish (record e { is_game_over = true; winner = some winner }) (game_ended winner)

-- Whether the completing move of `mover` to `target` ends the game.
abbrev pub takes_king : Piece → Piece → Bool
takes_king mover target =
    not (is_empty target) && type_eq target.kind king && not (is_friendly target mover.color)

abbrev pub king_meets_jump : List Motion → Motion → Piece → Bool
king_meets_jump active m mover = is_jump_active_at active m.destination && type_eq mover.kind king

-- The loop of `checkGameOverFromCompletingMoves`; `some winner` is the call of `endGame`.
unfoldable pub find_winner : Board → List Motion → List Motion → Result (Option Color)
find_winner board active [] = ok none
find_winner board active (m ∷ ms) =
    let rest = find_winner board active ms in
    if not (motion_type_eq m.type move)
    then rest
    else (cell board m.source >>= λ mover.
        if is_empty mover
        then rest
        else (cell board m.destination >>= λ target.
            if takes_king mover target
            then ok (some mover.color)
            else if king_meets_jump active m mover
            then ok (some mover.color)
            else rest))

abbrev pub ended_by : GameEngine → Option Color → GameEngine
ended_by e none = e
ended_by e (some winner) = end_game e winner

unfoldable pub check_game_over : GameEngine → List Motion → Result GameEngine
check_game_over e completing =
    if e.is_game_over
    then ok e
    else (find_winner e.board (active_motions e) completing >>= λ found. ok (ended_by e found))

-- One round of `processPremovesAfterAdvance`.
unfoldable pub premove_round : GameEngine → Motion → Result GameEngine
premove_round e m =
    if not (motion_type_eq m.type move)
    then ok e
    else (cell e.board m.source >>= λ source_cell.
        cell e.board m.destination >>= λ destination_cell.
        if not (is_empty source_cell)
        then ok (clear_premove_at e m.source)
        else if is_empty destination_cell
        then ok (clear_premove_at e m.source)
        else try_execute_premove e m.source m.destination)

unfoldable pub premove_rounds : GameEngine → List Motion → Result GameEngine
premove_rounds e [] = ok e
premove_rounds e (m ∷ ms) = premove_round e m >>= λ e'. premove_rounds e' ms

unfoldable pub process_premoves_after_advance : GameEngine → List Motion → Result GameEngine
process_premoves_after_advance e completing =
    if e.is_game_over then ok e else premove_rounds e completing

-- One round of `applyCooldownAfterArrivals`.
unfoldable pub cool_arrival : GameEngine → Motion → Result GameEngine
cool_arrival e m =
    if not (motion_type_eq m.type move)
    then ok e
    else if not (in_bounds e.board m.destination)
    then ok e
    else (cell e.board m.destination >>= λ piece.
        if is_empty piece
        then ok e
        else if is_busy_at e m.destination
        then ok e
        else (put e.board m.destination (set_move_cooldown piece move_cooldown_ms) >>= λ board.
            ok (record e { board = board })))

unfoldable pub apply_cooldown_after_arrivals : GameEngine → List Motion → Result GameEngine
apply_cooldown_after_arrivals e [] = ok e
apply_cooldown_after_arrivals e (m ∷ ms) =
    cool_arrival e m >>= λ e'. apply_cooldown_after_arrivals e' ms

-- What `advanceTime` does behind the call of the arbiter.
unfoldable pub settle : GameEngine → List Motion → Advanced → Result GameEngine
settle e completing r = do
  let logged =
      process_move_resolutions (record e { board = r.board; arbiter = r.arbiter }) r.resolutions
  premoved ← process_premoves_after_advance logged completing
  apply_cooldown_after_arrivals premoved completing

unfoldable pub advance : GameEngine → ℕ → Result GameEngine
advance e ms = do
  let completing = completing_moves (active_motions e) (elapsed_ms e + ms)
  checked ← check_game_over e completing
  advanced ← advance_time checked.arbiter ms checked.board
  settle checked completing advanced

-- ===== src/Network/ClientGameSync.antt =====
-- src/network/client_game_sync.h and client_game_sync.cpp: what a client does with a message of the
-- server about the game.
pub mod Idle
pub mod Sync
use kong_fu_chess.Prelude.{
  ℕ, zero, suc, ◌+◌, leb, ◌||◌, ◌&&◌, Bool, true, false, not, Option, none, some, List, [], ◌∷◌,
  Result, ok, err, out_of_fuel, ◌>>=◌, if◌then◌else◌,
}
use kong_fu_chess.Model.Piece.{Color, color_eq, PieceType, type_eq, is_empty}
use kong_fu_chess.Model.Position.{Position}
use kong_fu_chess.Model.Board.{Board, in_bounds, cell}
use kong_fu_chess.Realtime.Motion.{Motion}
use kong_fu_chess.Io.Text.{Text}
use kong_fu_chess.Events.GameEvent.{GameEvent}
use kong_fu_chess.Events.GameEvent
use kong_fu_chess.Engine.GameEngine.{
  GameEngine, active_motions, is_busy_at, request_move, request_jump, advance,
  apply_remote_game_ended,
}
use kong_fu_chess.Network.Protocol.Game.{parse_server_game_event}

abbrev pub sync_frame_ms : ℕ
sync_frame_ms = 16

abbrev pub max_sync_advance_ms : ℕ
max_sync_advance_ms = 12000

-- `pieceAt`.
unfoldable pub shows : Board → Position → PieceType → Color → Result Bool
shows b square type color =
    if not (in_bounds b square)
    then ok false
    else (cell b square >>= λ piece.
        ok (not (is_empty piece) && type_eq piece.kind type && color_eq piece.color color))

abbrev pub is_idle : List Motion → Bool
is_idle [] = true
is_idle (m ∷ ms) = false

-- The loop of `advanceUntilIdle` on fuel: one unit for each frame and one for the last test.
unfoldable pub until_idle : ℕ → GameEngine → ℕ → Result GameEngine
until_idle zero e advanced_ms = err out_of_fuel
until_idle (suc fuel) e advanced_ms =
    if is_idle (active_motions e) || leb max_sync_advance_ms advanced_ms
    then ok e
    else (advance e sync_frame_ms >>= λ e'. until_idle fuel e' (advanced_ms + sync_frame_ms))

-- 750 frames are 12000 ms.
abbrev pub advance_until_idle : GameEngine → Result GameEngine
advance_until_idle e = until_idle 751 e 0

abbrev pub start_move : GameEngine → Position → Position → Result GameEngine
start_move e from to = request_move e from to >>= λ r. ok r.0

abbrev pub start_jump : GameEngine → Position → Result GameEngine
start_jump e square = request_jump e square >>= λ r. ok r.0

-- What follows a request: the clock runs on if it was taken.
abbrev pub caught_up : GameEngine × Bool → Result GameEngine
caught_up (e, true) = advance_until_idle e
caught_up (e, false) = ok e

unfoldable pub sync_completed_move :
    GameEngine → Position → Position → PieceType → Color → Result GameEngine
sync_completed_move e from to type color = shows e.board to type color >>= λ there.
    if there && not (is_busy_at e from)
    then ok e
    else if is_busy_at e from || is_busy_at e to
    then ok e
    else (request_move e from to >>= caught_up)

unfoldable pub sync_jump_capture : GameEngine → Position → Result GameEngine
sync_jump_capture e jump_square =
    if is_busy_at e jump_square then ok e else (request_jump e jump_square >>= caught_up)

abbrev pub applied : Result GameEngine → Result (GameEngine × Bool)
applied r = r >>= λ e. ok (e, true)

-- `applyMessage` behind the parser, by the alternative of the event.
unfoldable pub apply_event : GameEngine → Option GameEvent → Result (GameEngine × Bool)
apply_event e none = ok (e, false)
apply_event e (some (GameEvent.game_started g)) = ok (e, false)
apply_event e (some (GameEvent.move_started m)) = applied (start_move e m.from m.to)
apply_event e (some (GameEvent.jump_started j)) = applied (start_jump e j.square)
apply_event e (some (GameEvent.move_completed m)) =
    applied (sync_completed_move e m.from m.to m.piece_type m.piece_color)
apply_event e (some (GameEvent.jump_captured j)) = applied (sync_jump_capture e j.jump_square)
apply_event e (some (GameEvent.game_ended winner)) = ok (apply_remote_game_ended e winner, true)

unfoldable pub apply_message : Text → GameEngine → Result (GameEngine × Bool)
unfolding apply_event
apply_message json e = apply_event e (parse_server_game_event json)

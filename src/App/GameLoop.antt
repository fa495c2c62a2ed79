-- ===== src/App/GameLoop.antt =====
-- src/app/game_loop.cpp: one frame of the loop, from the messages of the server to the engine's
-- clock. The tick of the server before it and the drawing behind it are not part of the frame here.
pub mod Plays
pub mod Hears
pub mod Frame
use kong_fu_chess.Prelude.{
  ℕ, ℤ, Bool, true, false, Option, none, some, List, [], ◌∷◌, Result, ok, ◌>>=◌, if◌then◌else◌,
}
use kong_fu_chess.Io.Text.{Text}
use kong_fu_chess.Events.GameEvent.{GameEvent}
use kong_fu_chess.Events.GameEvent
use kong_fu_chess.Online.SessionManager.{SessionManager}
use kong_fu_chess.Engine.GameEngine.{GameEngine, apply_remote_game_ended, advance}
use kong_fu_chess.Network.Protocol.Commands.{ClientCommand, move_command, jump_command}
use kong_fu_chess.Network.Protocol.Lobby.{ServerMessageType, parse_server_message_type}
use kong_fu_chess.Network.Protocol.Game.{parse_server_game_event}
use kong_fu_chess.Network.Queues.Commands.{QueuedCommand, CommandQueue}
use kong_fu_chess.Network.Queues.Commands
use kong_fu_chess.Network.Queues.Messages.{ClientMessageQueue}
use kong_fu_chess.Network.Queues.Messages
use kong_fu_chess.Network.Input.{handle_move_text, handle_jump_text}
use kong_fu_chess.Network.ClientGameSync
use kong_fu_chess.View.DisconnectOverlay.{DisconnectOverlay, update_countdown}
use kong_fu_chess.View.DisconnectOverlay

abbrev pub frame_ms : ℕ
frame_ms = 16

-- One round of the loop in `processNetworkCommands`; the answer of a request is not used.
unfoldable pub run_command : SessionManager → GameEngine → ℕ → ClientCommand → Result GameEngine
run_command s e id (move_command from to) = handle_move_text s e id from to >>= λ r. ok r.0
run_command s e id (jump_command square) = handle_jump_text s e id square >>= λ r. ok r.0
run_command s e id _ = ok e

unfoldable pub run_commands : SessionManager → GameEngine → List QueuedCommand → Result GameEngine
run_commands s e [] = ok e
run_commands s e (q ∷ qs) = run_command s e q.connection_id q.command >>= λ e'. run_commands s e' qs

-- `applyGameEndedMessage` behind the parser.
abbrev pub end_once : GameEngine → Option GameEvent → GameEngine
end_once e (some (GameEvent.game_ended winner)) =
    if e.is_game_over then e else apply_remote_game_ended e winner
end_once e _ = e

abbrev pub apply_game_ended_message : Text → GameEngine → GameEngine
apply_game_ended_message json e = end_once e (parse_server_game_event json)

abbrev pub is_end : ServerMessageType → Bool
is_end ServerMessageType.game_ended = true
is_end _ = false

abbrev pub is_absence : ServerMessageType → Bool
is_absence ServerMessageType.player_disconnected = true
is_absence ServerMessageType.player_reconnected = true
is_absence _ = false

-- One round of the loop in `processServerMessages`, by the kind of the message.
unfoldable pub take_message :
    Bool
    → ℤ
    → Text
    → ServerMessageType
    → GameEngine × DisconnectOverlay
    → Result (GameEngine × DisconnectOverlay)
take_message host now json kind (e, o) =
    if is_end kind
    then ok (apply_game_ended_message json e, DisconnectOverlay.apply_message o now json)
    else if is_absence kind
    then ok (e, DisconnectOverlay.apply_message o now json)
    else if host
    then ok (e, o)
    else (ClientGameSync.apply_message json e >>= λ r. ok (r.0, o))

-- The loop; `clock` is what the steady clock says when so many messages are still to come.
unfoldable pub process_server_messages :
    Bool
    → (List Text → ℤ)
    → List Text
    → GameEngine × DisconnectOverlay
    → Result (GameEngine × DisconnectOverlay)
process_server_messages host clock [] s = ok s
process_server_messages host clock (json ∷ rest) s =
    take_message host (clock rest) json (parse_server_message_type json) s >>= λ s'.
    process_server_messages host clock rest s'

pub record Loop : Type 0 where
  pub engine : GameEngine
  pub overlay : DisconnectOverlay
  pub messages : ClientMessageQueue
  pub commands : CommandQueue

-- The commands of remote players, on the host only.
unfoldable pub process_network_commands :
    Bool → SessionManager → GameEngine → CommandQueue → Result (GameEngine × CommandQueue)
unfolding run_commands
process_network_commands false s e commands = ok (e, commands)
process_network_commands true s e commands =
    let drained = Commands.drain commands [] in
    run_commands s e drained.1 >>= λ e'. ok (e', drained.0)

unfoldable pub frame : Bool → SessionManager → (List Text → ℤ) → ℤ → Loop → Result Loop
unfolding process_server_messages process_network_commands
frame host s clock now l = do
  let drained = Messages.drain l.messages []
  told ← process_server_messages host clock drained.1 (l.engine, l.overlay)
  moved ← process_network_commands host s told.0 l.commands
  engine ← advance moved.0 frame_ms
  ok (record {
    engine = engine;
    overlay = update_countdown told.1 now;
    messages = drained.0;
    commands = moved.1;
  })

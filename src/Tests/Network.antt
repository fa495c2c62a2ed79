-- ===== src/Tests/Network.antt =====
-- Commands and events as text, a remote player's requests, and a client that follows a server.
use kong_fu_chess.Prelude.{
  none, ℕ, ◌<◌, pos, ◌≡◌, ◌≢◌, refl, some, List, ◌∷◌, ◌++◌, [], Returns, arith,
}
use kong_fu_chess.Model.Piece.{white, rook}
use kong_fu_chess.Io.Text.{Text, codes}
use kong_fu_chess.Io.Algebraic.{algebraic_to_position}
use kong_fu_chess.Events.GameEvent.{GameEvent}
use kong_fu_chess.Online.SessionManager.{SessionManager, roster_session}
use kong_fu_chess.Engine.Invariant.{IsValid}
use kong_fu_chess.Network.Protocol.Commands.{ClientCommand, parse_client_message}
use kong_fu_chess.Network.Protocol.Commands.RoundTrip.{serialize_command, parse-serialize}
use kong_fu_chess.Network.Protocol.Game.{parse_server_game_event, serialize_server_event}
use kong_fu_chess.Network.Protocol.Game.Values.{OnChessboard}
use kong_fu_chess.Network.Protocol.Game.RoundTrip.{IsSent, parse-serialize_event, black_named_white}
use kong_fu_chess.Network.Queues.Commands.{QueuedCommand, no_commands}
use kong_fu_chess.Network.Queues.Messages.{no_messages}
use kong_fu_chess.Network.Queues.Order.{
  QueueCall, pushes, drains, pushed, deliver, command_fifo, message_fifo, deliver-pushed,
}
use kong_fu_chess.Network.Input.{handle_move_text}
use kong_fu_chess.Network.Input.Ownership.{Moved, handle_move_text-Moved}
use kong_fu_chess.Network.ClientGameSync.{advance_until_idle, apply_message}
use kong_fu_chess.Network.ClientGameSync.Idle.{Rests, advance_until_idle-Rests}
use kong_fu_chess.Network.ClientGameSync.Sync.{Applied, apply_message-Applied}
use kong_fu_chess.Tests.Boards.{on, engine, engine-IsValid}

abbrev e2 : Text
e2 = codes "e2"

abbrev e4 : Text
e4 = codes "e4"

abbrev command : ClientCommand
command = ClientCommand.move_command e2 e4

not_empty : e2 ≢ []
not_empty e = cc

e4_not_empty : e4 ≢ []
e4_not_empty e = cc

parse-serialize_example : parse_client_message (serialize_command command) ≡ some command
parse-serialize_example =
    parse-serialize command (omega arith, not_empty, refl, omega arith, e4_not_empty)

on_chessboard : (row col : ℕ) → row < 8 → col < 8 → OnChessboard (on row col)
on_chessboard row col h k = record {
  row = row;
  col = col;
  row_lt = h;
  col_lt = k;
  is_square = refl;
}

abbrev rook_started : GameEvent
rook_started = GameEvent.move_started (record {
  timestamp_ms = pos 250;
  piece_type = rook;
  piece_color = white;
  from = on 2 0;
  to = on 0 0;
})

rook_started-IsSent : IsSent rook_started
rook_started-IsSent = record {
  time = record { number = 250; fits = omega arith; is_pos = refl };
  real = λ e. cc;
  from_on = on_chessboard 2 0 (omega arith) (omega arith);
  to_on = on_chessboard 0 0 (omega arith) (omega arith);
}

parse-serialize_event_example :
    parse_server_game_event (serialize_server_event rook_started) ≡ some rook_started
parse-serialize_event_example = parse-serialize_event rook_started rook_started-IsSent

black_named_white_example :
    parse_server_game_event (
      serialize_server_event (
        GameEvent.game_started
          (record { white_user = codes "black"; black_user = codes "ada"; port = pos 8080 })))
    ≡ none
black_named_white_example = black_named_white (codes "ada") (pos 8080)

-- White is connected.
abbrev session : SessionManager
session = record (roster_session (codes "ada") (codes "bob") (pos 8080)) {
  connection_colors = (1, white) ∷ [];
}

handle_move_text-Moved_example :
    Returns
      (Moved session engine 1
        (algebraic_to_position (codes "a6"))
        (algebraic_to_position (codes "a8")))
      (handle_move_text session engine 1 (codes "a6") (codes "a8"))
handle_move_text-Moved_example =
    handle_move_text-Moved session engine 1 (codes "a6") (codes "a8") engine-IsValid

advance_until_idle-Rests_example : Returns (Rests 750 engine) (advance_until_idle engine)
advance_until_idle-Rests_example = advance_until_idle-Rests engine engine-IsValid

apply_message-Applied_example :
    Returns
      (λ r.
        IsValid r.0
        × Applied engine (parse_server_game_event (serialize_server_event rook_started)) r)
      (apply_message (serialize_server_event rook_started) engine)
apply_message-Applied_example =
    apply_message-Applied (serialize_server_event rook_started) engine engine-IsValid

abbrev command_calls : List (QueueCall QueuedCommand)
command_calls =
    pushes (record { connection_id = 1; command = command })
    ∷ drains []
    ∷ pushes (record { connection_id = 2; command = ClientCommand.join_queue_command })
    ∷ []

abbrev message_calls : List (QueueCall Text)
message_calls = pushes e2 ∷ pushes e4 ∷ drains (e2 ∷ []) ∷ pushes e2 ∷ []

deliver-pushed_example :
    ((deliver command_fifo no_commands command_calls).1
        ++ (deliver command_fifo no_commands command_calls).0.pending
      ≡ pushed command_calls)
    × ((deliver message_fifo no_messages message_calls).1
          ++ (deliver message_fifo no_messages message_calls).0.pending
        ≡ pushed message_calls)
deliver-pushed_example = deliver-pushed command_calls message_calls

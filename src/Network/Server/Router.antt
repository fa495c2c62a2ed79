-- ===== src/Network/Server/Router.antt =====
-- src/network/server/message_router.cpp. The number of a connection comes from the socket library,
-- as text that may not be a number.
use kong_fu_chess.Prelude.{ℕ, ℤ, Option, none, some}
use kong_fu_chess.Model.Piece.{Color}
use kong_fu_chess.Io.Text.{Text, codes}
use kong_fu_chess.Online.SessionManager.{color_for}
use kong_fu_chess.Network.Protocol.Commands.{
  ClientCommand, login_command, join_queue_command, leave_queue_command, parse_client_message,
}
use kong_fu_chess.Network.Protocol.Lobby.{serialize_error_message}
use kong_fu_chess.Network.Queues.Commands.{push}
use kong_fu_chess.Network.Server.{Server, send_text, register_client}
use kong_fu_chess.Network.Server.Queue.{handle_join_queue, handle_leave_queue}
use kong_fu_chess.Network.Server.Disconnect.{handle_disconnect}
use kong_fu_chess.Network.Server.Login.{handle_login}

-- The kinds of `WebSocketMessage` that the router tells apart: `other` stands for binary messages
-- and all other types.
pub data Message : Type 0 where
  opens closes other : Message
  says : Text → Message

-- A command of the game, from a connection with this colour.
abbrev pub queue_command : Server → ℕ → ℕ → ClientCommand → Option Color → Server
queue_command s id socket command none =
    send_text s socket (serialize_error_message (codes "Not authenticated"))
queue_command s id socket command (some color) = record s {
  commands = push (record { connection_id = id; command = command }) s.commands;
}

unfoldable pub dispatch : (Text → Option ℤ) → Server → ℤ → ℕ → ℕ → Option ClientCommand → Server
dispatch rating s now id socket none =
    send_text s socket (serialize_error_message (codes "Invalid message"))
dispatch rating s now id socket (some (login_command username)) = handle_login s id socket username
dispatch rating s now id socket (some join_queue_command) = handle_join_queue rating s now id socket
dispatch rating s now id socket (some leave_queue_command) = handle_leave_queue s id socket
dispatch rating s now id socket (some command) =
    queue_command s id socket command (color_for s.session id)

unfoldable pub handle_client_message :
    (Text → Option ℤ) → Server → ℤ → Option ℕ → ℕ → Message → Server
unfolding dispatch
handle_client_message rating s now none socket message = s
handle_client_message rating s now (some id) socket opens = register_client s id socket
handle_client_message rating s now (some id) socket closes = handle_disconnect s id now
handle_client_message rating s now (some id) socket other = s
handle_client_message rating s now (some id) socket (says text) =
    dispatch rating s now id socket (parse_client_message text)

-- ===== src/Network/Server/Login.antt =====
-- src/network/server/login_handler.cpp.
use kong_fu_chess.Prelude.{ℕ, Option, none, some, if◌then◌else◌}
use kong_fu_chess.Model.Piece.{Color}
use kong_fu_chess.Io.Text.{Text, codes}
use kong_fu_chess.Events.GameEvent
use kong_fu_chess.Online.SessionManager.{
  SessionManager, AuthResult, accepted, unknown_user, slot_full, already_connected, authenticate,
  reconnect, color_for, roster_snapshot,
}
use kong_fu_chess.Online.DisconnectManager.{is_in_grace, on_reconnect}
use kong_fu_chess.Network.Protocol.Codec.{color_label}
use kong_fu_chess.Network.Protocol.Lobby.{
  serialize_error_message, serialize_login_ok, serialize_player_reconnected,
}
use kong_fu_chess.Network.Protocol.Game.{serialize_server_event}
use kong_fu_chess.Network.Server.{Server, send_text, broadcast}

abbrev pub auth_error_message : AuthResult → Text
auth_error_message unknown_user = codes "Unknown username"
auth_error_message slot_full = codes "Session full"
auth_error_message already_connected = codes "Username already connected"
auth_error_message accepted = codes "Login accepted"

abbrev pub fail_login : Server → ℕ → AuthResult → Server
fail_login s socket result =
    send_text s socket (serialize_error_message (auth_error_message result))

-- The end of a return, by the colour of the connection.
abbrev pub welcome_back : Server → ℕ → Option Color → Server
welcome_back s socket none = send_text s socket (serialize_error_message (codes "Reconnect failed"))
welcome_back s socket (some color) =
    send_text (send_text s socket (serialize_login_ok (color_label color))) socket
      (serialize_server_event (GameEvent.game_started (roster_snapshot s.session)))

abbrev pub come_back : Server → ℕ → ℕ → Text → SessionManager × AuthResult → Server
come_back s id socket username (session, accepted) =
    let back = record s {
      session = session;
      disconnects = (on_reconnect s.disconnects username).0;
    } in
    welcome_back (broadcast back (serialize_player_reconnected username)) socket
      (color_for session id)
come_back s id socket username (session, result) =
    fail_login (record s { session = session }) socket result

abbrev pub welcome : Server → ℕ → Option Color → Server
welcome s socket none = send_text s socket (serialize_login_ok (codes "none"))
welcome s socket (some color) = send_text s socket (serialize_login_ok (color_label color))

abbrev pub come_in : Server → ℕ → ℕ → SessionManager × AuthResult → Server
come_in s id socket (session, accepted) =
    welcome (record s { session = session }) socket (color_for session id)
come_in s id socket (session, result) = fail_login (record s { session = session }) socket result

unfoldable pub handle_login : Server → ℕ → ℕ → Text → Server
handle_login s id socket username =
    if is_in_grace s.disconnects username
    then come_back s id socket username (reconnect s.session id username)
    else come_in s id socket (authenticate s.session id username)

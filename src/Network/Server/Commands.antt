-- ===== src/Network/Server/Commands.antt =====
-- Which commands reach the game.
use kong_fu_chess.Prelude.{
  ℕ, ℤ, Bool, true, false, ◌&&◌, Bool-cases, inl, inr, Option, none, some, List, [], ◌∷◌, ◌++◌,
  append-nil, if◌then◌else◌, ◌≡◌, ◌∙◌, refl, sym,
}
use kong_fu_chess.Model.Piece.{Color}
use kong_fu_chess.Io.Text.{Text, codes}
use kong_fu_chess.Online.Table.{find}
use kong_fu_chess.Online.SessionManager.{
  SessionManager, AuthResult, accepted, unknown_user, slot_full, already_connected, color_for,
  username_for, id_eq, begin_match, authenticate, reconnect,
}
use kong_fu_chess.Online.DisconnectManager.{is_in_grace, on_reconnect}
use kong_fu_chess.Online.Matchmaking.{QueueEntry, MatchResult, enqueue}
use kong_fu_chess.Engine.GameEngine.{is_some}
use kong_fu_chess.Network.Protocol.Commands.{
  ClientCommand, login_command, move_command, jump_command, join_queue_command, leave_queue_command,
  parse_client_message,
}
use kong_fu_chess.Network.Protocol.Lobby.{
  serialize_match_found, serialize_queue_joined, serialize_player_reconnected,
}
use kong_fu_chess.Network.Queues.Commands.{QueuedCommand, push}
use kong_fu_chess.Network.Server.{Server, send_text, broadcast, send_if, send_to_connection}
use kong_fu_chess.Network.Server.Queue.{
  notify_match, enter_queue, plays_already, join_as, leave_as, is_in_game, or_default,
}
use kong_fu_chess.Network.Server.Disconnect.{leave_game, handle_disconnect}
use kong_fu_chess.Network.Server.Login.{welcome_back, come_back, welcome, come_in, handle_login}
use kong_fu_chess.Network.Server.Router.{
  Message, opens, closes, other, says, queue_command, dispatch, handle_client_message,
}

-- The commands that are pushed for the game.
abbrev pub pending : Server → List QueuedCommand
pending s = s.commands.pending

abbrev pub is_play : ClientCommand → Bool
is_play (move_command from to) = true
is_play (jump_command square) = true
is_play _ = false

-- What a message adds to the commands: a move or a jump of a connection that has a colour.
abbrev pub admitted_command : Server → ℕ → Option ClientCommand → List QueuedCommand
admitted_command s id none = []
admitted_command s id (some command) =
    if is_play command && is_some (color_for s.session id)
    then record { connection_id = id; command = command } ∷ []
    else []

abbrev pub admitted : Server → Option ℕ → Message → List QueuedCommand
admitted s (some id) (says text) = admitted_command s id (parse_client_message text)
admitted s _ _ = []

pending-send_if :
    (s : Server) (socket : Option ℕ) (json : Text) → pending (send_if s socket json) ≡ pending s
pending-send_if s none json = refl
pending-send_if s (some socket) json = refl

pending-notify_match :
    (s : Server) (m : Option MatchResult) → pending (notify_match s m) ≡ pending s
unfolding notify_match
pending-notify_match s none = refl
pending-notify_match s (some m) =
    let begun = record s { session = begin_match s.session m } in
    let to_white = serialize_match_found (codes "white") m.black.username s.port in
    let told = send_to_connection begun m.white.connection_id to_white in
    pending-send_if told (find id_eq told.clients m.black.connection_id)
      (serialize_match_found (codes "black") m.white.username s.port)
    ∙ pending-send_if begun (find id_eq s.clients m.white.connection_id) to_white

pending-join_as :
    (rating : Text → Option ℤ) (s : Server) (now : ℤ) (id socket : ℕ) (user : Option Text)
    → pending (join_as rating s now id socket user) ≡ pending s
unfolding join_as enter_queue
pending-join_as rating s now id socket none = refl
pending-join_as rating s now id socket (some username) =
    elim (Bool-cases (plays_already s.session id)) [
      | inl busy ↦ rw busy refl
      | inr free ↦
          let entry : QueueEntry = record {
            connection_id = id;
            username = username;
            elo = or_default (rating username);
            enqueued_at = now;
          } in
          let r = enqueue s.matchmaking entry in
          rw free (
            pending-notify_match
              (send_text (record s { matchmaking = r.0 }) socket serialize_queue_joined) r.1)
    ]

pending-leave_as :
    (s : Server) (id socket : ℕ) (user : Option Text)
    → pending (leave_as s id socket user) ≡ pending s
pending-leave_as s id socket none = refl
pending-leave_as s id socket (some username) = refl

pending-leave_game :
    (s : Server) (id : ℕ) (now : ℤ) (user : Option Text) (color : Option Color)
    → pending (leave_game s id now user color) ≡ pending s
unfolding leave_game
pending-leave_game s id now none color = refl
pending-leave_game s id now (some user) none = refl
pending-leave_game s id now (some user) (some color) = refl

pending-handle_disconnect :
    (s : Server) (id : ℕ) (now : ℤ) → pending (handle_disconnect s id now) ≡ pending s
unfolding handle_disconnect
pending-handle_disconnect s id now = elim (Bool-cases (is_in_game s.session.phase)) [
  | inl playing ↦
      rw playing (pending-leave_game s id now (username_for s.session id) (color_for s.session id))
  | inr waiting ↦ rw waiting refl
]

pending-welcome_back :
    (s : Server) (socket : ℕ) (color : Option Color)
    → pending (welcome_back s socket color) ≡ pending s
pending-welcome_back s socket none = refl
pending-welcome_back s socket (some color) = refl

pending-welcome :
    (s : Server) (socket : ℕ) (color : Option Color) → pending (welcome s socket color) ≡ pending s
pending-welcome s socket none = refl
pending-welcome s socket (some color) = refl

pending-come_back :
    (s : Server) (id socket : ℕ) (username : Text) (r : SessionManager × AuthResult)
    → pending (come_back s id socket username r) ≡ pending s
pending-come_back s id socket username (session, accepted) =
    let back = record s {
      session = session;
      disconnects = (on_reconnect s.disconnects username).0;
    } in
    pending-welcome_back (broadcast back (serialize_player_reconnected username)) socket
      (color_for session id)
pending-come_back s id socket username (session, unknown_user) = refl
pending-come_back s id socket username (session, slot_full) = refl
pending-come_back s id socket username (session, already_connected) = refl

pending-come_in :
    (s : Server) (id socket : ℕ) (r : SessionManager × AuthResult)
    → pending (come_in s id socket r) ≡ pending s
pending-come_in s id socket (session, accepted) =
    pending-welcome (record s { session = session }) socket (color_for session id)
pending-come_in s id socket (session, unknown_user) = refl
pending-come_in s id socket (session, slot_full) = refl
pending-come_in s id socket (session, already_connected) = refl

pending-handle_login :
    (s : Server) (id socket : ℕ) (username : Text)
    → pending (handle_login s id socket username) ≡ pending s
unfolding handle_login
pending-handle_login s id socket username = elim (Bool-cases (is_in_grace s.disconnects username)) [
  | inl away ↦ rw away (pending-come_back s id socket username (reconnect s.session id username))
  | inr new ↦ rw new (pending-come_in s id socket (authenticate s.session id username))
]

pending-queue_command :
    (s : Server) (id socket : ℕ) (command : ClientCommand) (color : Option Color)
    → pending (queue_command s id socket command color)
      ≡ pending s
        ++ (if is_some color then record { connection_id = id; command = command } ∷ [] else [])
unfolding push
pending-queue_command s id socket command none = sym (append-nil (pending s))
pending-queue_command s id socket command (some color) = refl

pending-dispatch :
    (rating : Text → Option ℤ) (s : Server) (now : ℤ) (id socket : ℕ)
    (command : Option ClientCommand)
    → pending (dispatch rating s now id socket command) ≡ pending s ++ admitted_command s id command
unfolding dispatch
pending-dispatch rating s now id socket none = sym (append-nil (pending s))
pending-dispatch rating s now id socket (some (login_command u)) =
    pending-handle_login s id socket u ∙ sym (append-nil (pending s))
pending-dispatch rating s now id socket (some join_queue_command) =
    pending-join_as rating s now id socket (username_for s.session id)
    ∙ sym (append-nil (pending s))
pending-dispatch rating s now id socket (some leave_queue_command) =
    pending-leave_as s id socket (username_for s.session id) ∙ sym (append-nil (pending s))
pending-dispatch rating s now id socket (some (move_command from to)) =
    pending-queue_command s id socket (move_command from to) (color_for s.session id)
pending-dispatch rating s now id socket (some (jump_command square)) =
    pending-queue_command s id socket (jump_command square) (color_for s.session id)

-- Whatever arrives on a socket, the commands that wait for the game grow by one in one case only,
-- and by that command at the end: a text that is a move or a jump, from a connection that has a
-- colour. Logins, the queue, openings, closings and unreadable messages leave them as they are.
pub pending-handle_client_message :
    (rating : Text → Option ℤ) (s : Server) (now : ℤ) (id : Option ℕ) (socket : ℕ)
    (message : Message)
    → pending (handle_client_message rating s now id socket message)
      ≡ pending s ++ admitted s id message
unfolding handle_client_message
pending-handle_client_message rating s now none socket message = sym (append-nil (pending s))
pending-handle_client_message rating s now (some id) socket opens = sym (append-nil (pending s))
pending-handle_client_message rating s now (some id) socket closes =
    pending-handle_disconnect s id now ∙ sym (append-nil (pending s))
pending-handle_client_message rating s now (some id) socket other = sym (append-nil (pending s))
pending-handle_client_message rating s now (some id) socket (says text) =
    pending-dispatch rating s now id socket (parse_client_message text)

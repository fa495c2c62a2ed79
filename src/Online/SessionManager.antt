-- ===== src/Online/SessionManager.antt =====
-- src/online/session_manager.h and session_manager.cpp. A method returns the new manager; each one
-- holds the mutex for its whole body, so calls are sequential.
pub mod Roster
use kong_fu_chess.Prelude.{
  ℤ, ℕ, ◌==◌, leb, length, Bool, true, false, not, ◌&&◌, Option, none, some, List, [], ◌∷◌,
  if◌then◌else◌,
}
use kong_fu_chess.Model.Piece.{Color, white, black}
use kong_fu_chess.Io.Text.{Text, text_eq}
use kong_fu_chess.Events.GameEvent.{GameStarted}
use kong_fu_chess.Online.Table.{find, erase, assign}
use kong_fu_chess.Online.Matchmaking.{MatchResult}

abbrev pub max_players : ℕ
max_players = 2

pub data AuthResult : Type 0 where
  accepted unknown_user slot_full already_connected : AuthResult

pub data SessionPhase : Type 0 where
  lobby in_game : SessionPhase

pub record SessionManager : Type 0 where
  pub phase : SessionPhase
  pub fixed_roster : Bool
  pub white_username : Text
  pub black_username : Text
  pub port : ℤ
  pub connection_colors : List (ℕ × Color)
  pub connection_usernames : List (ℕ × Text)
  pub username_connections : List (Text × ℕ)
  pub reserved_colors : List (Text × Color)

abbrev pub id_eq : ℕ → ℕ → Bool
id_eq a b = a == b

abbrev pub lobby_session : ℤ → SessionManager
lobby_session port = record {
  phase = lobby;
  fixed_roster = false;
  white_username = [];
  black_username = [];
  port = port;
  connection_colors = [];
  connection_usernames = [];
  username_connections = [];
  reserved_colors = [];
}

abbrev pub roster_session : Text → Text → ℤ → SessionManager
roster_session white_username black_username port = record (lobby_session port) {
  phase = in_game;
  fixed_roster = true;
  white_username = white_username;
  black_username = black_username;
}

abbrev pub expected_color_for_username : SessionManager → Text → Option Color
expected_color_for_username s username =
    if text_eq username s.white_username
    then some white
    else if text_eq username s.black_username
    then some black
    else none

-- The two assignments that make a connection and a user name belong together.
abbrev pub bind : SessionManager → ℕ → Text → SessionManager
bind s id username = record s {
  connection_usernames = assign id_eq s.connection_usernames id username;
  username_connections = assign text_eq s.username_connections username id;
}

abbrev pub paint : SessionManager → ℕ → Color → SessionManager
paint s id color = record s { connection_colors = assign id_eq s.connection_colors id color }

-- `authenticateLobby` for a name with no reserved slot, by what the connection is known as.
unfoldable pub enter_lobby : SessionManager → ℕ → Text → Option Text → SessionManager × AuthResult
enter_lobby s id username (some known) =
    (s, if text_eq known username then accepted else already_connected)
enter_lobby s id username none = elim (find text_eq s.username_connections username) [
  | some other ↦ (s, already_connected)
  | none ↦ (bind s id username, accepted)
]

abbrev pub is_blank : Text → Bool
is_blank [] = true
is_blank (c ∷ cs) = false

unfoldable pub authenticate_lobby : SessionManager → ℕ → Text → SessionManager × AuthResult
authenticate_lobby s id username =
    if is_blank username
    then (s, unknown_user)
    else elim (find text_eq s.reserved_colors username) [
      | some color ↦ (s, accepted)
      | none ↦ enter_lobby s id username (find id_eq s.connection_usernames id)
    ]

-- A connection that has a colour already.
abbrev pub is_own : Option ℕ → ℕ → AuthResult
is_own (some other) id = if other == id then accepted else already_connected
is_own none id = already_connected

-- The part of `authenticate` behind the test of the connection.
unfoldable pub take_slot :
    SessionManager → ℕ → Text → Color → Option ℕ → SessionManager × AuthResult
take_slot s id username color (some other) = (s, already_connected)
take_slot s id username color none =
    if leb max_players (length s.connection_colors)
    then (s, slot_full)
    else (bind (paint s id color) id username, accepted)

unfoldable pub authenticate_expected :
    SessionManager → ℕ → Text → Option Color → SessionManager × AuthResult
authenticate_expected s id username none = (s, unknown_user)
authenticate_expected s id username (some color) = elim (find id_eq s.connection_colors id) [
  | some painted ↦ (s, is_own (find text_eq s.username_connections username) id)
  | none ↦ take_slot s id username color (find text_eq s.username_connections username)
]

unfoldable pub authenticate : SessionManager → ℕ → Text → SessionManager × AuthResult
unfolding authenticate_lobby authenticate_expected
authenticate s id username =
    if not s.fixed_roster
    then authenticate_lobby s id username
    else authenticate_expected s id username (expected_color_for_username s username)

unfoldable pub begin_match : SessionManager → MatchResult → SessionManager
begin_match s m =
    let t = record s {
      white_username = m.white.username;
      black_username = m.black.username;
      phase = in_game;
      fixed_roster = true;
      reserved_colors = [];
    } in
    let p = paint (paint t m.white.connection_id white) m.black.connection_id black in
    bind (bind p m.white.connection_id m.white.username) m.black.connection_id m.black.username

abbrev pub unbind : SessionManager → ℕ → Option Text → SessionManager
unbind s id none = s
unbind s id (some username) = record s {
  username_connections = erase text_eq s.username_connections username;
  connection_usernames = erase id_eq s.connection_usernames id;
}

abbrev pub unpaint : SessionManager → ℕ → SessionManager
unpaint s id = record s { connection_colors = erase id_eq s.connection_colors id }

unfoldable pub disconnect : SessionManager → ℕ → SessionManager
disconnect s id = unpaint (unbind s id (find id_eq s.connection_usernames id)) id

unfoldable pub reserve_disconnected_slot : SessionManager → ℕ → Text → Color → SessionManager
reserve_disconnected_slot s id username color =
    let t = record s { reserved_colors = assign text_eq s.reserved_colors username color } in
    unpaint (unbind t id (find id_eq s.connection_usernames id)) id

-- An older connection under the returning name is dropped.
abbrev pub drop_older : SessionManager → ℕ → Option ℕ → SessionManager
drop_older s id none = s
drop_older s id (some other) =
    if other == id
    then s
    else unpaint (record s { connection_usernames = erase id_eq s.connection_usernames other })
        other

abbrev pub seat : SessionManager → ℕ → Text → Color → SessionManager
seat s id username color =
    let t =
      bind (paint (drop_older s id (find text_eq s.username_connections username)) id color) id
        username in
    record t { reserved_colors = erase text_eq t.reserved_colors username }

-- `reconnect`, by the colour that is reserved for the name.
abbrev pub give_back : SessionManager → ℕ → Text → Option Color → SessionManager × AuthResult
give_back s id username none = (s, unknown_user)
give_back s id username (some color) = (seat s id username color, accepted)

unfoldable pub reconnect : SessionManager → ℕ → Text → SessionManager × AuthResult
reconnect s id username = give_back s id username (find text_eq s.reserved_colors username)

abbrev pub reset_to_lobby : SessionManager → SessionManager
reset_to_lobby s = lobby_session s.port

abbrev pub color_for : SessionManager → ℕ → Option Color
color_for s id = find id_eq s.connection_colors id

abbrev pub color_for_username : SessionManager → Text → Option Color
color_for_username s username = elim (find text_eq s.reserved_colors username) [
  | some color ↦ some color
  | none ↦ expected_color_for_username s username
]

abbrev pub username_for : SessionManager → ℕ → Option Text
username_for s id = find id_eq s.connection_usernames id

abbrev pub is_ready : SessionManager → Bool
is_ready s = length s.connection_colors == max_players

abbrev pub roster_snapshot : SessionManager → GameStarted
roster_snapshot s = record {
  white_user = s.white_username;
  black_user = s.black_username;
  port = s.port;
}

-- ===== src/Network/Server/Return.antt =====
-- A player who loses the connection and logs in again in time.
use kong_fu_chess.Prelude.{
  ℕ, ℤ, false, Bool-cases, inl, inr, Option, none, some, List, [], ◌∷◌, ◌++◌, append_assoc, ◌≡◌,
  ◌∙◌, refl, ap, sym, subst,
}
use kong_fu_chess.Model.Piece.{Color}
use kong_fu_chess.Io.Text.{Text, text_eq}
use kong_fu_chess.Events.GameEvent
use kong_fu_chess.Events.GameEvent.{GameStarted}
use kong_fu_chess.Online.Table.{find}
use kong_fu_chess.Online.SessionManager.{
  SessionManager, id_eq, in_game, drop_older, seat, color_for, username_for, roster_snapshot,
}
use kong_fu_chess.Online.SessionManager.Roster.{id_self, reserved_now, reconnect-seat, colorless}
use kong_fu_chess.Online.DisconnectManager.{is_in_grace, on_reconnect}
use kong_fu_chess.Online.DisconnectManager.Grace.{on_disconnect-starts, on_reconnect-ends}
use kong_fu_chess.Network.Protocol.Codec.{color_label}
use kong_fu_chess.Network.Protocol.Lobby.{serialize_login_ok, serialize_player_reconnected}
use kong_fu_chess.Network.Protocol.Game.{serialize_server_event}
use kong_fu_chess.Network.Server.{Server, broadcast}
use kong_fu_chess.Network.Server.Disconnect.{grace_entry, keep_slot, leave_game, handle_disconnect}
use kong_fu_chess.Network.Server.Absence.{
  Awaits, Meanwhile, all_happen, AllPermit, roster-reserve, all_happen-Awaits,
}
use kong_fu_chess.Network.Server.Login.{welcome_back, come_back, handle_login}

-- The player is in the game of the roster again, at the socket of the new connection.
pub record IsBack (roster : GameStarted) (id socket : ℕ) (user : Text) (color : Color) (s : Server)
    : Type 0 where
  pub colored : color_for s.session id ≡ some color
  pub named : username_for s.session id ≡ some user
  pub settled : is_in_grace s.disconnects user ≡ false
  pub same_game : roster_snapshot s.session ≡ roster
  pub earlier : List (ℕ × Text)
  pub told :
      s.sent
      ≡ earlier
        ++ (socket, serialize_login_ok (color_label color))
          ∷ (socket, serialize_server_event (GameEvent.game_started roster))
          ∷ []

roster-drop_older :
    (s : SessionManager) (id : ℕ) (older : Option ℕ)
    → roster_snapshot (drop_older s id older) ≡ roster_snapshot s
roster-drop_older s id none = refl
roster-drop_older s id (some other) = elim (Bool-cases (id_eq other id)) [
  | inl same ↦ rw same refl
  | inr older ↦ rw older refl
]

roster-seat :
    (s : SessionManager) (id : ℕ) (user : Text) (color : Color)
    → roster_snapshot (seat s id user color) ≡ roster_snapshot s
roster-seat s id user color = roster-drop_older s id (find text_eq s.username_connections user)

color_for-seat :
    (s : SessionManager) (id : ℕ) (user : Text) (color : Color)
    → color_for (seat s id user color) id ≡ some color
color_for-seat s id user color = rw (id_self id) refl

username_for-seat :
    (s : SessionManager) (id : ℕ) (user : Text) (color : Color)
    → username_for (seat s id user color) id ≡ some user
username_for-seat s id user color = rw (id_self id) refl

-- A login at a server that awaits the player.
module _ (s : Server) (again socket : ℕ) (user : Text) (color : Color) (roster : GameStarted)
    (w : Awaits user color roster s) where
  abbrev seated : SessionManager
  seated = seat s.session again user color

  -- The server when the others have been told.
  abbrev announced : Server
  announced =
      broadcast (record s { session = seated; disconnects = (on_reconnect s.disconnects user).0 })
        (serialize_player_reconnected user)

  logs_in : handle_login s again socket user ≡ welcome_back announced socket (some color)
  unfolding handle_login
  logs_in = rw w.away (
      ap (come_back s again socket user) (reconnect-seat s.session again user color w.reserved)
      ∙ ap (welcome_back announced socket) (color_for-seat s.session again user color))

  roster_kept : roster_snapshot seated ≡ roster
  roster_kept = roster-seat s.session again user color ∙ w.same_game

  welcomed : IsBack roster again socket user color (welcome_back announced socket (some color))
  welcomed = record {
    colored = color_for-seat s.session again user color;
    named = username_for-seat s.session again user color;
    settled = (on_reconnect-ends s.disconnects user).0;
    same_game = roster_kept;
    earlier = announced.sent;
    told =
        append_assoc announced.sent ((socket, serialize_login_ok (color_label color)) ∷ [])
          ((socket, serialize_server_event (GameEvent.game_started (roster_snapshot seated))) ∷ [])
        ∙ ap
            (λ g.
              announced.sent
              ++ (socket, serialize_login_ok (color_label color))
                ∷ (socket, serialize_server_event (GameEvent.game_started g))
                ∷ [])
            roster_kept;
  }

  login-IsBack : IsBack roster again socket user color (handle_login s again socket user)
  login-IsBack = subst (IsBack roster again socket user color) (sym logs_in) welcomed

module _ (s : Server) (id : ℕ) (now : ℤ) (user : Text) (color : Color) where
  disconnects_to :
      s.session.phase ≡ in_game
      → username_for s.session id ≡ some user
      → color_for s.session id ≡ some color
      → handle_disconnect s id now ≡ keep_slot s id now user color
  unfolding handle_disconnect leave_game
  disconnects_to playing named colored = rw (playing, named, colored) refl

  slot_kept : Awaits user color (roster_snapshot s.session) (keep_slot s id now user color)
  slot_kept = record {
    reserved = reserved_now s.session id user color;
    away = on_disconnect-starts s.disconnects (grace_entry id now user color);
    same_game = roster-reserve s.session id user color;
  }

  -- A player of a running game whose connection closes has no colour there any more; the colour is
  -- reserved for his name, whose grace period begins. Both stay so while other connections, not of
  -- this name, end and the clock ticks, as long as at no tick the grace period of anybody is over.
  -- If the name logs in then, on the same connection or on another one, it has its colour back there
  -- and its grace period ends; the names of the two players are what they were, and the last two
  -- messages that the new socket gets are the login with that colour and the roster.
  pub handle_login-IsBack :
      (ms : List Meanwhile) (again socket : ℕ)
      → s.session.phase ≡ in_game
      → username_for s.session id ≡ some user
      → color_for s.session id ≡ some color
      → AllPermit user (handle_disconnect s id now) ms
      → (color_for (handle_disconnect s id now).session id ≡ none)
        × Awaits user color (roster_snapshot s.session) (all_happen (handle_disconnect s id now) ms)
        × IsBack
            (roster_snapshot s.session)
            again
            socket
            user
            color
            (handle_login (all_happen (handle_disconnect s id now) ms) again socket user)
  handle_login-IsBack ms again socket playing named colored permitted =
      let gone = disconnects_to playing named colored in
      let roster = roster_snapshot s.session in
      let kept : Awaits user color roster (handle_disconnect s id now) =
        subst (Awaits user color roster) (sym gone) slot_kept in
      let still =
        all_happen-Awaits user color roster ms (handle_disconnect s id now) permitted kept in
      (
        ap (λ t. color_for t.session id) gone ∙ colorless s.session id user color,
        still,
        login-IsBack (all_happen (handle_disconnect s id now) ms) again socket user color roster
            still,
      )

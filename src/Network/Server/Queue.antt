-- ===== src/Network/Server/Queue.antt =====
-- src/network/server/queue_handler.cpp. The ratings come from the user store, a parameter.
use kong_fu_chess.Prelude.{
  ℕ, ℤ, pos, Bool, true, false, ◌&&◌, ◌||◌, Option, none, some, List, [], ◌∷◌, if◌then◌else◌,
}
use kong_fu_chess.Io.Text.{Text, codes}
use kong_fu_chess.Events.GameEvent
use kong_fu_chess.Online.SessionManager.{
  SessionManager, SessionPhase, lobby, in_game, begin_match, username_for, color_for, is_ready,
  roster_snapshot,
}
use kong_fu_chess.Online.Matchmaking.{QueueEntry, MatchResult, enqueue, remove, tick}
use kong_fu_chess.Engine.GameEngine.{is_some}
use kong_fu_chess.Network.Protocol.Lobby.{
  serialize_error_message, serialize_queue_joined, serialize_queue_left, serialize_queue_timeout,
  serialize_match_found,
}
use kong_fu_chess.Network.Server.{Server, send_text, publish, send_to_connection}

abbrev pub queue_timeout_message : Text
queue_timeout_message = codes "No opponent found within 60 seconds."

abbrev pub default_elo : ℤ
default_elo = pos 1200

abbrev pub is_in_game : SessionPhase → Bool
is_in_game in_game = true
is_in_game lobby = false

-- `notifyMatch`, if there is a match.
unfoldable pub notify_match : Server → Option MatchResult → Server
notify_match s none = s
notify_match s (some m) =
    let begun = record s { session = begin_match s.session m } in
    let told =
      send_to_connection begun m.white.connection_id
        (serialize_match_found (codes "white") m.black.username s.port) in
    let both =
      send_to_connection told m.black.connection_id
        (serialize_match_found (codes "black") m.white.username s.port) in
    publish both (GameEvent.game_started (roster_snapshot both.session))

abbrev pub or_default : Option ℤ → ℤ
or_default none = default_elo
or_default (some elo) = elo

-- The part of `handleJoinQueue` behind its guards.
unfoldable pub enter_queue : Server → QueueEntry → ℕ → Server
unfolding notify_match
enter_queue s entry socket =
    let r = enqueue s.matchmaking entry in
    notify_match (send_text (record s { matchmaking = r.0 }) socket serialize_queue_joined) r.1

abbrev pub plays_already : SessionManager → ℕ → Bool
plays_already s id = is_in_game s.phase && (is_some (color_for s id) || is_ready s)

unfoldable pub join_as : (Text → Option ℤ) → Server → ℤ → ℕ → ℕ → Option Text → Server
unfolding enter_queue
join_as rating s now id socket none =
    send_text s socket (serialize_error_message (codes "Not authenticated"))
join_as rating s now id socket (some username) =
    if plays_already s.session id
    then send_text s socket (serialize_error_message (codes "Already in game"))
    else enter_queue s
        (record {
          connection_id = id;
          username = username;
          elo = or_default (rating username);
          enqueued_at = now;
        })
        socket

abbrev pub handle_join_queue : (Text → Option ℤ) → Server → ℤ → ℕ → ℕ → Server
handle_join_queue rating s now id socket =
    join_as rating s now id socket (username_for s.session id)

abbrev pub remove_from_queue : Server → ℕ → Server
remove_from_queue s id = record s { matchmaking = (remove s.matchmaking id).0 }

abbrev pub leave_as : Server → ℕ → ℕ → Option Text → Server
leave_as s id socket none = send_text s socket (serialize_error_message (codes "Not authenticated"))
leave_as s id socket (some username) =
    send_text (remove_from_queue s id) socket serialize_queue_left

abbrev pub handle_leave_queue : Server → ℕ → ℕ → Server
handle_leave_queue s id socket = leave_as s id socket (username_for s.session id)

-- The loop over the entries that have waited too long.
abbrev pub tell_expired : Server → List QueueEntry → Server
tell_expired s [] = s
tell_expired s (w ∷ ws) =
    tell_expired
      (send_to_connection s w.connection_id (serialize_queue_timeout queue_timeout_message)) ws

abbrev pub tick_queue_timeouts : Server → ℤ → Server
tick_queue_timeouts s now =
    let r = tick s.matchmaking now in tell_expired (record s { matchmaking = r.0 }) r.1

-- ===== src/Network/Server/Faults.antt =====
-- Two sequences of calls after which the server is in a state that it does not mean to reach.
use kong_fu_chess.Prelude.{
  ℕ, ℤ, ltb_ℤ, ◌-ℤ◌, true, false, List, ◌≢◌, Option, none, some, [], ◌∷◌, ◌++◌, ◌≡◌, ◌∙◌, refl, ap,
  sym, subst, arith,
}
use kong_fu_chess.Model.Piece.{Color, white, black}
use kong_fu_chess.Io.Text.{Text, codes}
use kong_fu_chess.Events.GameEvent
use kong_fu_chess.Online.Table.{find}
use kong_fu_chess.Online.SessionManager.{
  SessionManager, id_eq, lobby, in_game, color_for, username_for, begin_match,
}
use kong_fu_chess.Online.SessionManager.Roster.{id_self}
use kong_fu_chess.Online.Matchmaking.{
  QueueEntry, MatchResult, MatchmakingQueue, enqueue, take_eligible, is_eligible,
}
use kong_fu_chess.Online.DisconnectManager.{DisconnectGraceEntry, opponent, tick, tick_entries}
use kong_fu_chess.Network.Protocol.Lobby.{serialize_match_found, serialize_queue_joined}
use kong_fu_chess.Network.Server.{Server, send_text, send_if, send_to_connection}
use kong_fu_chess.Network.Server.Queue.{
  notify_match, enter_queue, join_as, handle_join_queue, or_default,
}
use kong_fu_chess.Network.Server.Disconnect.{tick_grace}

-- Nobody is known in the session and no game is on.
abbrev pub InLobby : SessionManager → Type 0
InLobby t =
    (t.phase ≡ lobby)
    × (t.fixed_roster ≡ false)
    × (t.white_username ≡ [])
    × (t.black_username ≡ [])
    × (t.connection_colors ≡ [])
    × (t.connection_usernames ≡ [])
    × (t.username_connections ≡ [])
    × (t.reserved_colors ≡ [])

-- The game is ended for the winner, the session reset, and these grace periods are left.
pub record Concludes (s t : Server) (winner : Color) (left : List DisconnectGraceEntry)
    : Type 0 where
  pub told : t.published ≡ s.published ++ GameEvent.game_ended winner ∷ []
  pub reset : InLobby t.session
  pub waiting : t.disconnects.grace_entries ≡ left

opponent_other : (c d : Color) → c ≢ d → opponent c ≡ d
opponent_other white white ne = elim (ne refl) [ ]
opponent_other white black ne = refl
opponent_other black white ne = refl
opponent_other black black ne = elim (ne refl) [ ]

-- A tick at which the first grace period is over.
tick_grace-Concludes :
    (s : Server) (over : DisconnectGraceEntry) (left : List DisconnectGraceEntry) (now : ℤ)
    → s.disconnects.grace_entries ≡ over ∷ left
    → ltb_ℤ now over.grace_until ≡ false
    → Concludes s (tick_grace s now) (opponent over.color) left
unfolding tick_grace tick tick_entries
tick_grace-Concludes s over left now entries up =
    rw (entries, up)
      (record {
        told = refl;
        reset = (refl, refl, refl, refl, refl, refl, refl, refl);
        waiting = refl;
      })

-- If the grace periods of the two players are over, two ticks at that time end the game twice: the
-- first one announces that the second player has won, the second one that the first player has,
-- and both put the session back to the empty lobby.
pub tick_grace-twice :
    (s : Server) (first second : DisconnectGraceEntry) (now : ℤ)
    → first.color ≢ second.color
    → s.disconnects.grace_entries ≡ first ∷ second ∷ []
    → ltb_ℤ now first.grace_until ≡ false
    → ltb_ℤ now second.grace_until ≡ false
    → Concludes s (tick_grace s now) second.color (second ∷ [])
      × Concludes (tick_grace s now) (tick_grace (tick_grace s now) now) first.color []
tick_grace-twice s first second now ne both up up' =
    let once = tick_grace-Concludes s first (second ∷ []) now both up in
    let twice = tick_grace-Concludes (tick_grace s now) second [] now once.waiting up' in
    (
      subst (λ w. Concludes s (tick_grace s now) w (second ∷ []))
          (opponent_other first.color second.color ne) once,
      subst (λ w. Concludes (tick_grace s now) (tick_grace (tick_grace s now) now) w [])
          (opponent_other second.color first.color (λ e. ne (sym e))) twice,
    )

same_rating : (range : ℕ) (a b : QueueEntry) → a.elo ≡ b.elo → is_eligible range a b ≡ true
unfolding ◌-ℤ◌
same_rating range a b h = ground (arith, h)

-- The queue before and behind the two calls.
enqueue-nil :
    (q : MatchmakingQueue) (entry : QueueEntry)
    → q.queue ≡ []
    → enqueue q entry ≡ (record q { queue = entry ∷ [] }, none)
unfolding enqueue take_eligible
enqueue-nil q entry h = rw h refl

enqueue-one :
    (q : MatchmakingQueue) (w entry : QueueEntry)
    → w.elo ≡ entry.elo
    → enqueue (record q { queue = w ∷ [] }) entry
      ≡ (record q { queue = [] }, some (record { white = w; black = entry }))
unfolding enqueue take_eligible
enqueue-one q w entry h = rw (same_rating q.elo_match_range w entry h) refl

session-send_if :
    (s : Server) (socket : Option ℕ) (json : Text) → (send_if s socket json).session ≡ s.session
session-send_if s none json = refl
session-send_if s (some socket) json = refl

session-notify_match :
    (s : Server) (m : MatchResult) → (notify_match s (some m)).session ≡ begin_match s.session m
unfolding notify_match
session-notify_match s m =
    let begun = record s { session = begin_match s.session m } in
    let to_white = serialize_match_found (codes "white") m.black.username s.port in
    let told = send_to_connection begun m.white.connection_id to_white in
    session-send_if told (find id_eq told.clients m.black.connection_id)
      (serialize_match_found (codes "black") m.white.username s.port)
    ∙ session-send_if begun (find id_eq s.clients m.white.connection_id) to_white

module _ (rating : Text → Option ℤ) (id socket : ℕ) (user : Text) where
  abbrev entry_at : ℤ → QueueEntry
  entry_at now = record {
    connection_id = id;
    username = user;
    elo = or_default (rating user);
    enqueued_at = now;
  }

  -- The guards let a player pass who is known and in the lobby.
  enters :
      (s : Server) (now : ℤ)
      → s.session.phase ≡ lobby
      → username_for s.session id ≡ some user
      → handle_join_queue rating s now id socket ≡ enter_queue s (entry_at now) socket
  unfolding join_as
  enters s now waiting known = rw known (rw waiting refl)

  first_call :
      (s : Server) (now : ℤ)
      → s.matchmaking.queue ≡ []
      → enter_queue s (entry_at now) socket
        ≡ send_text
            (record s { matchmaking = record s.matchmaking { queue = entry_at now ∷ [] } })
            socket
            serialize_queue_joined
  unfolding enter_queue notify_match
  first_call s now empty = rw (enqueue-nil s.matchmaking (entry_at now) empty) refl

  second_call :
      (s : Server) (now later : ℤ)
      → (enter_queue
          (record s { matchmaking = record s.matchmaking { queue = entry_at now ∷ [] } })
          (entry_at later)
          socket).session
        ≡ begin_match s.session (record { white = entry_at now; black = entry_at later })
  unfolding enter_queue
  second_call s now later = rw (enqueue-one s.matchmaking (entry_at now) (entry_at later) refl) (
      session-notify_match
        (send_text (record s { matchmaking = record s.matchmaking { queue = [] } }) socket
          serialize_queue_joined)
        (record { white = entry_at now; black = entry_at later }))

  -- What the session holds of a game that a player plays against himself.
  abbrev pub PlaysHimself : SessionManager → Type 0
  PlaysHimself t =
      (t.phase ≡ in_game)
      × (t.white_username ≡ user)
      × (t.black_username ≡ user)
      × (color_for t id ≡ some black)

  begun :
      (t : SessionManager) (now later : ℤ)
      → PlaysHimself (begin_match t (record { white = entry_at now; black = entry_at later }))
  unfolding begin_match
  begun t now later = (refl, refl, refl, rw (id_self id) refl)

  -- A player in the lobby who joins the empty queue twice is matched with himself: the second call
  -- begins a game in which both players have his name and his connection has the colour black.
  pub handle_join_queue-twice :
      (s : Server) (now later : ℤ)
      → s.session.phase ≡ lobby
      → username_for s.session id ≡ some user
      → s.matchmaking.queue ≡ []
      → PlaysHimself
          (handle_join_queue rating
            (handle_join_queue rating s now id socket)
            later
            id
            socket).session
  handle_join_queue-twice s now later waiting known empty =
      let told = send_text s socket serialize_queue_joined in
      let first = record told {
        matchmaking = record s.matchmaking { queue = entry_at now ∷ [] };
      } in
      let step : handle_join_queue rating s now id socket ≡ first =
        enters s now waiting known ∙ first_call s now empty in
      let both : (handle_join_queue rating first later id socket).session
          ≡ begin_match s.session (record { white = entry_at now; black = entry_at later }) =
        ap (λ t. t.session) (enters first later waiting known) ∙ second_call told now later in
      subst PlaysHimself
        (sym (ap (λ t. (handle_join_queue rating t later id socket).session) step ∙ both))
        (begun s.session now later)

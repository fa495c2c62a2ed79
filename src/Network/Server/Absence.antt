-- ===== src/Network/Server/Absence.antt =====
-- What a player who has lost the connection in a game finds kept while others come and go.
use kong_fu_chess.Prelude.{
  ℕ, ℤ, ltb_ℤ, All, true, false, Bool-cases, inl, inr, Option, none, some, List, [], ◌∷◌, ◌≡◌, ◌∙◌,
  refl, sym, subst, ap,
}
use kong_fu_chess.Model.Piece.{Color}
use kong_fu_chess.Io.Text.{Text, text_eq}
use kong_fu_chess.Events.GameEvent.{GameStarted}
use kong_fu_chess.Online.Table.{find, assign}
use kong_fu_chess.Online.SessionManager.{
  SessionManager, id_eq, unbind, disconnect, color_for, username_for, reserve_disconnected_slot,
  roster_snapshot,
}
use kong_fu_chess.Online.SessionManager.Roster.{unbind-reserved, reserved_other}
use kong_fu_chess.Online.DisconnectManager.{is_in_grace}
use kong_fu_chess.Online.DisconnectManager.Keeps.{on_disconnect-keeps, tick_quiet}
use kong_fu_chess.Network.Server.{Server}
use kong_fu_chess.Network.Server.Queue.{is_in_game}
use kong_fu_chess.Network.Server.Disconnect.{
  grace_entry, keep_slot, forget, leave_game, handle_disconnect, conclude, tick_grace,
}

-- The grace period of the name runs, its colour is reserved, and the game is that of the roster.
pub record Awaits (user : Text) (color : Color) (roster : GameStarted) (s : Server) : Type 0 where
  pub reserved : find text_eq s.session.reserved_colors user ≡ some color
  pub away : is_in_grace s.disconnects user ≡ true
  pub same_game : roster_snapshot s.session ≡ roster

-- What may happen before the player is back: a tick of the clock, and the end of a connection.
pub data Meanwhile : Type 0 where
  tick_at : ℤ → Meanwhile
  leaves : ℕ → ℤ → Meanwhile

abbrev pub happens : Server → Meanwhile → Server
happens s (tick_at now) = tick_grace s now
happens s (leaves id now) = handle_disconnect s id now

abbrev pub all_happen : Server → List Meanwhile → Server
all_happen s [] = s
all_happen s (m ∷ ms) = all_happen (happens s m) ms

-- No grace period is over at the tick, and the connection that ends is not one of this name.
abbrev pub Permits : Text → Server → Meanwhile → Type 0
Permits user s (tick_at now) = All (λ e. ltb_ℤ now e.grace_until ≡ true) s.disconnects.grace_entries
Permits user s (leaves id now) =
    (other : Text) → username_for s.session id ≡ some other → text_eq other user ≡ false

abbrev pub AllPermit : Text → Server → List Meanwhile → Type 0
AllPermit user s [] = Unit {0}
AllPermit user s (m ∷ ms) = Permits user s m × AllPermit user (happens s m) ms

roster-unbind :
    (s : SessionManager) (id : ℕ) (user : Option Text)
    → roster_snapshot (unbind s id user) ≡ roster_snapshot s
roster-unbind s id none = refl
roster-unbind s id (some user) = refl

pub roster-reserve :
    (s : SessionManager) (id : ℕ) (user : Text) (color : Color)
    → roster_snapshot (reserve_disconnected_slot s id user color) ≡ roster_snapshot s
unfolding reserve_disconnected_slot
roster-reserve s id user color =
    roster-unbind (record s { reserved_colors = assign text_eq s.reserved_colors user color }) id
      (find id_eq s.connection_usernames id)

module _ (user : Text) (color : Color) (roster : GameStarted) where
  tick_grace-Awaits :
      (s : Server) (now : ℤ)
      → All (λ e. ltb_ℤ now e.grace_until ≡ true) s.disconnects.grace_entries
      → Awaits user color roster s
      → Awaits user color roster (tick_grace s now)
  unfolding tick_grace
  tick_grace-Awaits s now quiet w =
      subst (λ r. Awaits user color roster (conclude (record s { disconnects = r.0 }) r.1))
        (sym (tick_quiet s.disconnects now quiet)) w

  forget-Awaits :
      (s : Server) (id : ℕ) → Awaits user color roster s → Awaits user color roster (forget s id)
  unfolding disconnect
  forget-Awaits s id w =
      let known = find id_eq s.session.connection_usernames id in
      record {
        reserved = ap (λ l. find text_eq l user) (unbind-reserved s.session id known) ∙ w.reserved;
        away = w.away;
        same_game = roster-unbind s.session id known ∙ w.same_game;
      }

  keep_slot-Awaits :
      (s : Server) (id : ℕ) (now : ℤ) (other : Text) (its : Color)
      → text_eq other user ≡ false
      → Awaits user color roster s
      → Awaits user color roster (keep_slot s id now other its)
  keep_slot-Awaits s id now other its far w = record {
    reserved = reserved_other s.session id other user its far ∙ w.reserved;
    away = on_disconnect-keeps s.disconnects (grace_entry id now other its) user w.away;
    same_game = roster-reserve s.session id other its ∙ w.same_game;
  }

  leave_game-Awaits :
      (s : Server) (id : ℕ) (now : ℤ) (known : Option Text) (its : Option Color)
      → ((other : Text) → known ≡ some other → text_eq other user ≡ false)
      → Awaits user color roster s
      → Awaits user color roster (leave_game s id now known its)
  unfolding leave_game
  leave_game-Awaits s id now (some other) (some its) far w =
      keep_slot-Awaits s id now other its (far other refl) w
  leave_game-Awaits s id now (some other) none far w = forget-Awaits s id w
  leave_game-Awaits s id now none its far w = forget-Awaits s id w

  handle_disconnect-Awaits :
      (s : Server) (id : ℕ) (now : ℤ)
      → Permits user s (leaves id now)
      → Awaits user color roster s
      → Awaits user color roster (handle_disconnect s id now)
  unfolding handle_disconnect
  handle_disconnect-Awaits s id now far w = elim (Bool-cases (is_in_game s.session.phase)) [
    | inl playing ↦
        simp playing
          (leave_game-Awaits s id now (username_for s.session id) (color_for s.session id) far w)
    | inr idle ↦ simp idle (forget-Awaits s id w)
  ]

  -- The player is awaited until a grace period is over.
  pub all_happen-Awaits :
      (ms : List Meanwhile) (s : Server)
      → AllPermit user s ms
      → Awaits user color roster s
      → Awaits user color roster (all_happen s ms)
  all_happen-Awaits [] s p w = w
  all_happen-Awaits (tick_at now ∷ ms) s p w =
      all_happen-Awaits ms (tick_grace s now) p.1 (tick_grace-Awaits s now p.0 w)
  all_happen-Awaits (leaves id now ∷ ms) s p w =
      all_happen-Awaits ms (handle_disconnect s id now) p.1
        (handle_disconnect-Awaits s id now p.0 w)

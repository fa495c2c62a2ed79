-- ===== src/Online/DisconnectManager/Grace.antt =====
-- A grace period starts, is cut short by the player's return, or runs out.
use kong_fu_chess.Prelude.{
  any, filter, ℤ, ltb_ℤ, All, Bool, true, false, not, Bool-cases, Option, none, some, List, [], ◌∷◌,
  ◌++◌, ◌≡◌, ◌≢◌, refl, ap, inl, inr, arith,
}
use kong_fu_chess.Model.Piece.{Color, white, black}
use kong_fu_chess.Io.Text.{Text, text_eq, text_eq_self, text_eq-≡}
use kong_fu_chess.Online.DisconnectManager.{
  DisconnectGraceEntry, DisconnectManager, is_of, overwrite, is_in_grace, on_disconnect, find_entry,
  grace_entry_for, on_reconnect, opponent, tick_entries, tick,
}

overwrite-find_self :
    (es : List DisconnectGraceEntry) (entry : DisconnectGraceEntry)
    → any (is_of entry.username) es ≡ true
    → find_entry (overwrite entry es) entry.username ≡ some entry
overwrite-find_self [] entry h = cc
overwrite-find_self (e ∷ es) entry h = elim (Bool-cases (is_of entry.username e)) [
  | inl same ↦ rw (same, text_eq_self entry.username)
  | inr other ↦ rw (other, other) (overwrite-find_self es entry (ground arith))
]

overwrite-find_other :
    (es : List DisconnectGraceEntry) (entry : DisconnectGraceEntry) (user : Text)
    → text_eq entry.username user ≡ false
    → find_entry (overwrite entry es) user ≡ find_entry es user
overwrite-find_other [] entry user far = refl
overwrite-find_other (e ∷ es) entry user far = elim (Bool-cases (is_of entry.username e)) [
  | inl same ↦
      let past : text_eq e.username user ≡ false =
        rw (text_eq-≡ e.username entry.username same) far in
      rw (same, far, past)
  | inr other ↦ rw (other, overwrite-find_other es entry user far)
]

-- After a disconnection the manager finds the new entry for its user, whether or not it had an
-- older one, and what it had for any other user.
pub on_disconnect-find :
    (m : DisconnectManager) (entry : DisconnectGraceEntry) (user : Text)
    → text_eq entry.username user ≡ false
    → (grace_entry_for (on_disconnect m entry) entry.username ≡ some entry)
      × (grace_entry_for (on_disconnect m entry) user ≡ grace_entry_for m user)
unfolding on_disconnect
on_disconnect-find m entry user far = elim (Bool-cases (is_in_grace m entry.username)) [
  | inl known ↦ rw known (
    overwrite-find_self m.grace_entries entry known,
    overwrite-find_other m.grace_entries entry user far,
  )
  | inr unknown ↦ rw unknown (rw (text_eq_self entry.username), rw far)
]

opponent-≢ : (c : Color) → opponent c ≢ c
opponent-≢ white h = cc
opponent-≢ black h = cc

-- `over` is the first entry whose time is up, and `left` are the others.
pub record Expired (now : ℤ) (es : List DisconnectGraceEntry) (winner : Color)
    (left : List DisconnectGraceEntry) : Type 0 where
  pub ahead : List DisconnectGraceEntry
  pub over : DisconnectGraceEntry
  pub behind : List DisconnectGraceEntry
  pub whole : es ≡ ahead ++ over ∷ behind
  pub others : left ≡ ahead ++ behind
  pub running : All (λ e. ltb_ℤ now e.grace_until ≡ true) ahead
  pub is_up : ltb_ℤ now over.grace_until ≡ false
  pub beaten : winner ≢ over.color

abbrev pub Ticks : ℤ → List DisconnectGraceEntry → List DisconnectGraceEntry → Option Color → Type 0
Ticks now es left none = All (λ e. ltb_ℤ now e.grace_until ≡ true) es × (left ≡ es)
Ticks now es left (some winner) = Expired now es winner left

pass :
    (now : ℤ) (e : DisconnectGraceEntry) (es left : List DisconnectGraceEntry) (w : Option Color)
    → ltb_ℤ now e.grace_until ≡ true
    → Ticks now es left w
    → Ticks now (e ∷ es) (e ∷ left) w
pass now e es left none runs t = ((runs, t.0), ap (λ l. e ∷ l) t.1)
pass now e es left (some winner) runs t = record {
  ahead = e ∷ t.ahead;
  over = t.over;
  behind = t.behind;
  whole = ap (λ l. e ∷ l) t.whole;
  others = ap (λ l. e ∷ l) t.others;
  running = (runs, t.running);
  is_up = t.is_up;
  beaten = t.beaten;
}

tick_entries-Ticks :
    (now : ℤ) (es : List DisconnectGraceEntry)
    → Ticks now es (tick_entries now es).0 (tick_entries now es).1
unfolding tick_entries
tick_entries-Ticks now [] = (tt, refl)
tick_entries-Ticks now (e ∷ es) = elim (Bool-cases (ltb_ℤ now e.grace_until)) [
  | inr up ↦ rw up (record {
    ahead = [];
    over = e;
    behind = es;
    whole = refl;
    others = refl;
    running = tt;
    is_up = up;
    beaten = opponent-≢ e.color;
  })
  | inl runs ↦ rw runs (pass now e es _ _ runs (tick_entries-Ticks now es))
]

-- `tick` declares a winner just when some grace period is up: it has the colour that the first
-- such player in the map's order has not, that player's entry is dropped, and every other entry stays.
pub tick-Ticks :
    (m : DisconnectManager) (now : ℤ)
    → Ticks now m.grace_entries (tick m now).0.grace_entries (tick m now).1
unfolding tick
tick-Ticks m now = tick_entries-Ticks now m.grace_entries

any-filter-not :
    (t : DisconnectGraceEntry → Bool) (es : List DisconnectGraceEntry)
    → any t (filter (λ e. not (t e)) es) ≡ false
any-filter-not t [] = refl
any-filter-not t (e ∷ es) = ground (arith, any-filter-not t es)

-- A return ends the player's grace period, and says whether there was one.
pub on_reconnect-ends :
    (m : DisconnectManager) (user : Text)
    → (is_in_grace (on_reconnect m user).0 user ≡ false)
      × ((on_reconnect m user).1 ≡ is_in_grace m user)
unfolding on_reconnect
on_reconnect-ends m user = (any-filter-not (is_of user) m.grace_entries, refl)

overwrite-is_in :
    (es : List DisconnectGraceEntry) (entry : DisconnectGraceEntry)
    → any (is_of entry.username) es ≡ true
    → any (is_of entry.username) (overwrite entry es) ≡ true
overwrite-is_in [] entry h = cc
overwrite-is_in (e ∷ es) entry h = elim (Bool-cases (is_of entry.username e)) [
  | inl same ↦ rw (same, text_eq_self entry.username)
  | inr other ↦ rw (other, other) (overwrite-is_in es entry (ground arith))
]

-- A disconnection starts a grace period.
pub on_disconnect-starts :
    (m : DisconnectManager) (entry : DisconnectGraceEntry)
    → is_in_grace (on_disconnect m entry) entry.username ≡ true
unfolding on_disconnect
on_disconnect-starts m entry = elim (Bool-cases (is_in_grace m entry.username)) [
  | inl known ↦ rw known (overwrite-is_in m.grace_entries entry known)
  | inr unknown ↦ rw unknown (rw (text_eq_self entry.username) refl)
]

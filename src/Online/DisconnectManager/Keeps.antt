-- ===== src/Online/DisconnectManager/Keeps.antt =====
-- What a disconnection and a tick leave of the grace periods of others.
use kong_fu_chess.Prelude.{
  any, ℤ, ltb_ℤ, All, true, Bool-cases, none, List, [], ◌∷◌, ◌||◌, ◌≡◌, ◌∙◌, refl, ap, sym, inl,
  inr,
}
use kong_fu_chess.Io.Text.{Text, text_eq-≡}
use kong_fu_chess.Online.DisconnectManager.{
  DisconnectGraceEntry, DisconnectManager, is_of, overwrite, is_in_grace, on_disconnect,
  tick_entries, tick,
}

overwrite-keeps :
    (es : List DisconnectGraceEntry) (entry : DisconnectGraceEntry) (user : Text)
    → any (is_of user) es ≡ true
    → any (is_of user) (overwrite entry es) ≡ true
overwrite-keeps [] entry user h = cc
overwrite-keeps (e ∷ es) entry user h = elim (Bool-cases (is_of entry.username e)) [
  | inl same ↦ rw same (rw (← text_eq-≡ e.username entry.username same) h)
  | inr other ↦ rw other (elim (Bool-cases (is_of user e)) [
    | inl found ↦ rw found refl
    | inr far ↦
        rw far (overwrite-keeps es entry user (sym (ap (λ b. b || any (is_of user) es) far) ∙ h))
  ])
]

-- A disconnection leaves the grace periods that run.
pub on_disconnect-keeps :
    (m : DisconnectManager) (entry : DisconnectGraceEntry) (user : Text)
    → is_in_grace m user ≡ true
    → is_in_grace (on_disconnect m entry) user ≡ true
unfolding on_disconnect
on_disconnect-keeps m entry user h = elim (Bool-cases (is_in_grace m entry.username)) [
  | inl known ↦ rw known (overwrite-keeps m.grace_entries entry user h)
  | inr unknown ↦
      rw unknown
        (elim (Bool-cases (is_of user entry)) [ inl found ↦ rw found refl | inr far ↦ rw far h ])
]

tick_entries_quiet :
    (now : ℤ) (es : List DisconnectGraceEntry)
    → All (λ e. ltb_ℤ now e.grace_until ≡ true) es
    → tick_entries now es ≡ (es, none)
unfolding tick_entries
tick_entries_quiet now [] k = refl
tick_entries_quiet now (e ∷ es) k = rw (k.0, tick_entries_quiet now es k.1) refl

-- No grace period is over, so a tick changes nothing.
pub tick_quiet :
    (m : DisconnectManager) (now : ℤ)
    → All (λ e. ltb_ℤ now e.grace_until ≡ true) m.grace_entries
    → tick m now ≡ (m, none)
unfolding tick
tick_quiet m now h =
    ap (λ r. (record m { grace_entries = r.0 }, r.1)) (tick_entries_quiet now m.grace_entries h)

-- ===== src/Online/SessionManager/Roster.antt =====
-- A player whose slot is reserved comes back to it.
use kong_fu_chess.Prelude.{
  ℕ, true, false, Option, none, some, ◌≡◌, refl, sym, subst, ap, ◌∙◌, arith,
}
use kong_fu_chess.Model.Piece.{Color}
use kong_fu_chess.Io.Text.{Text, text_eq, text_eq_self, text_eq-≡}
use kong_fu_chess.Online.Table.{find, assign, find-erase_self, find-erase_other}
use kong_fu_chess.Online.SessionManager.{
  SessionManager, AuthResult, accepted, unknown_user, id_eq, reserve_disconnected_slot, unbind,
  give_back, seat, reconnect, color_for, username_for,
}

id_trans : (a b c : ℕ) → id_eq a b ≡ true → id_eq a c ≡ id_eq b c
id_trans a b c h = ground arith

pub id_self : (a : ℕ) → id_eq a a ≡ true
id_self a = ground arith

pub unbind-reserved :
    (s : SessionManager) (id : ℕ) (t : Option Text)
    → (unbind s id t).reserved_colors ≡ s.reserved_colors
unbind-reserved s id none = refl
unbind-reserved s id (some u) = refl

text_trans : (a b c : Text) → text_eq a b ≡ true → text_eq a c ≡ text_eq b c
text_trans a b c h = ap (λ z. text_eq z c) (text_eq-≡ a b h)

pub reserved_now :
    (s : SessionManager) (old : ℕ) (username : Text) (color : Color)
    → find text_eq (reserve_disconnected_slot s old username color).reserved_colors username
      ≡ some color
unfolding reserve_disconnected_slot
reserved_now s old username color =
    ap (λ l. find text_eq l username)
      (unbind-reserved
        (record s { reserved_colors = assign text_eq s.reserved_colors username color }) old
        (find id_eq s.connection_usernames old))
    ∙ rw (text_eq_self username)

-- A slot that is kept for another name.
pub reserved_other :
    (s : SessionManager) (old : ℕ) (other username : Text) (color : Color)
    → text_eq other username ≡ false
    → find text_eq (reserve_disconnected_slot s old other color).reserved_colors username
      ≡ find text_eq s.reserved_colors username
unfolding reserve_disconnected_slot
reserved_other s old other username color far =
    ap (λ l. find text_eq l username)
      (unbind-reserved (record s { reserved_colors = assign text_eq s.reserved_colors other color })
        old (find id_eq s.connection_usernames old))
    ∙ rw far (find-erase_other text_eq text_trans s.reserved_colors other username far)

pub colorless :
    (s : SessionManager) (old : ℕ) (username : Text) (color : Color)
    → color_for (reserve_disconnected_slot s old username color) old ≡ none
unfolding reserve_disconnected_slot
colorless s old username color = find-erase_self id_eq id_trans _ old

pub reconnect-seat :
    (s : SessionManager) (id : ℕ) (username : Text) (color : Color)
    → find text_eq s.reserved_colors username ≡ some color
    → reconnect s id username ≡ (seat s id username color, accepted)
unfolding reconnect
reconnect-seat s id username color h = ap (give_back s id username) h

reconnect-none :
    (s : SessionManager) (id : ℕ) (username : Text)
    → find text_eq s.reserved_colors username ≡ none
    → reconnect s id username ≡ (s, unknown_user)
unfolding reconnect
reconnect-none s id username h = ap (give_back s id username) h

-- What a return is when a slot is reserved.
abbrev pub Returned : ℕ → ℕ → Text → Color → SessionManager × AuthResult → Type 0
Returned new again username color r =
    (r.1 ≡ accepted)
    × (color_for r.0 new ≡ some color)
    × (username_for r.0 new ≡ some username)
    × (reconnect r.0 again username ≡ (r.0, unknown_user))

-- A connection whose slot has been reserved has no colour any more. When its user comes back, on
-- that connection or on another one, the return is accepted, the new connection has the reserved
-- colour and the user's name, and the reservation is used up: a second return is not accepted.
pub reconnect-reserved :
    (s : SessionManager) (old new again : ℕ) (username : Text) (color : Color)
    → (color_for (reserve_disconnected_slot s old username color) old ≡ none)
      × Returned new again username color
          (reconnect (reserve_disconnected_slot s old username color) new username)
reconnect-reserved s old new again username color =
    let r = reserve_disconnected_slot s old username color in
    (
      colorless s old username color,
      subst (Returned new again username color)
          (sym (reconnect-seat r new username color (reserved_now s old username color)))
          (
            refl,
            rw (id_self new),
            rw (id_self new),
            reconnect-none (seat r new username color) again username
                (find-erase_self text_eq text_trans _ username),
          ),
    )

-- ===== src/Online/DisconnectManager.antt =====
-- src/online/disconnect_manager.h and disconnect_manager.cpp. The entries stand in the order in
-- which the unordered map iterates; a new key goes to the front, an old one keeps its place.
pub mod Grace
pub mod Keeps
use kong_fu_chess.Prelude.{
  ℕ, ◌==◌, ltb_ℤ, ℤ, any, Bool, true, false, not, ◌&&◌, Option, none, some, List, [], ◌∷◌,
  if◌then◌else◌, filter,
}
use kong_fu_chess.Model.Piece.{Color, white, black, color_eq}
use kong_fu_chess.Io.Text.{Text, text_eq}

pub record DisconnectGraceEntry : Type 0 where
  pub username : Text
  pub color : Color
  pub connection_id : ℕ
  pub disconnected_at : ℤ
  pub grace_until : ℤ

pub record DisconnectManager : Type 0 where
  pub grace_ms : ℕ
  pub grace_entries : List DisconnectGraceEntry

-- The map's key is the entry's user name.
abbrev pub is_of : Text → DisconnectGraceEntry → Bool
is_of username e = text_eq e.username username

abbrev pub overwrite : DisconnectGraceEntry → List DisconnectGraceEntry → List DisconnectGraceEntry
overwrite entry [] = []
overwrite entry (e ∷ es) = if is_of entry.username e then entry ∷ es else e ∷ overwrite entry es

abbrev pub is_in_grace : DisconnectManager → Text → Bool
is_in_grace m username = any (is_of username) m.grace_entries

unfoldable pub on_disconnect : DisconnectManager → DisconnectGraceEntry → DisconnectManager
on_disconnect m entry = record m {
  grace_entries =
      if is_in_grace m entry.username
      then overwrite entry m.grace_entries
      else entry ∷ m.grace_entries;
}

abbrev pub find_entry : List DisconnectGraceEntry → Text → Option DisconnectGraceEntry
find_entry [] username = none
find_entry (e ∷ es) username = if is_of username e then some e else find_entry es username

abbrev pub grace_entry_for : DisconnectManager → Text → Option DisconnectGraceEntry
grace_entry_for m username = find_entry m.grace_entries username

unfoldable pub on_reconnect : DisconnectManager → Text → DisconnectManager × Bool
on_reconnect m username = (
  record m { grace_entries = filter (λ e. not (is_of username e)) m.grace_entries },
  is_in_grace m username,
)

abbrev pub is_over : ℤ → DisconnectGraceEntry → Bool
is_over now e = not (ltb_ℤ now e.grace_until)

abbrev pub opponent : Color → Color
opponent white = black
opponent black = white

-- The loop of `tick`: the entries that stay, and the winner over the first one that is over.
unfoldable pub tick_entries :
    ℤ → List DisconnectGraceEntry → List DisconnectGraceEntry × Option Color
tick_entries now [] = ([], none)
tick_entries now (e ∷ es) =
    let rest = tick_entries now es in
    if is_over now e then (es, some (opponent e.color)) else (e ∷ rest.0, rest.1)

unfoldable pub tick : DisconnectManager → ℤ → DisconnectManager × Option Color
tick m now = let r = tick_entries now m.grace_entries in (record m { grace_entries = r.0 }, r.1)

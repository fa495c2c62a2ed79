-- ===== src/View/DisconnectOverlay.antt =====
-- src/view/disconnect_overlay.h and disconnect_overlay.cpp: the countdown that a player sees while
-- the other one is away. Time points are those of the steady clock, in nanoseconds.
pub mod Countdown
use kong_fu_chess.Prelude.{
  ℕ, ◌-◌, ◌*◌, ◌/◌, ◌%◌, ◌^◌, ltb, ◌==◌, ℤ, pos, negsuc, pos_part, abs, ◌+ℤ◌, ◌-ℤ◌, Bool, true,
  false, not, ◌&&◌, Option, none, some, [], if◌then◌else◌,
}
use kong_fu_chess.Io.Text.{Text}
use kong_fu_chess.Network.Protocol.Lobby.{
  ServerMessageType, parse_server_message_type, PlayerDisconnectedMessage,
  parse_player_disconnected_message,
}

pub record DisconnectOverlay : Type 0 where
  pub active : Bool
  pub disconnected_username : Text
  pub seconds_remaining : ℤ
  pub grace_until : ℤ

abbrev pub no_overlay : DisconnectOverlay
no_overlay = record {
  active = false;
  disconnected_username = [];
  seconds_remaining = pos 0;
  grace_until = pos 0;
}

-- Nanoseconds of a whole number of seconds.
abbrev pub nanoseconds : ℤ → ℤ
nanoseconds (pos n) = pos (n * 1000000000)
nanoseconds s = pos 0 -ℤ pos (abs s * 1000000000)

abbrev pub start : ℤ → Text → ℤ → DisconnectOverlay
start now username grace_seconds = record {
  active = true;
  disconnected_username = username;
  seconds_remaining = grace_seconds;
  grace_until = now +ℤ nanoseconds grace_seconds;
}

abbrev pub clear : DisconnectOverlay → DisconnectOverlay
clear o = record o { active = false; disconnected_username = []; seconds_remaining = pos 0 }

-- The conversion from an `int64_t` that is not negative to a 32-bit `int`.
abbrev pub low_word : ℕ → ℤ
low_word n =
    let word = n % 2 ^ 32 in if ltb word (2 ^ 31) then pos word else negsuc (2 ^ 32 - word - 1)

-- The whole seconds that are left, none behind the end, as an `int`.
unfoldable pub seconds_left : ℤ → ℤ → ℤ
seconds_left grace_until now = low_word (pos_part (grace_until -ℤ now) / 1000000000)

abbrev pub is_zero : ℤ → Bool
is_zero (pos n) = n == 0
is_zero _ = false

abbrev pub counted : DisconnectOverlay → ℤ → DisconnectOverlay
counted o seconds = record o { seconds_remaining = seconds; active = not (is_zero seconds) }

unfoldable pub update_countdown : DisconnectOverlay → ℤ → DisconnectOverlay
unfolding seconds_left
update_countdown o now = if not o.active then o else counted o (seconds_left o.grace_until now)

abbrev pub started : DisconnectOverlay → ℤ → Option PlayerDisconnectedMessage → DisconnectOverlay
started o now none = o
started o now (some m) = start now m.username m.grace_seconds

unfoldable pub apply_kind : DisconnectOverlay → ℤ → ServerMessageType → Text → DisconnectOverlay
apply_kind o now ServerMessageType.player_disconnected json =
    started o now (parse_player_disconnected_message json)
apply_kind o now ServerMessageType.player_reconnected json = clear o
apply_kind o now ServerMessageType.game_ended json = clear o
apply_kind o now _ json = o

unfoldable pub apply_message : DisconnectOverlay → ℤ → Text → DisconnectOverlay
unfolding apply_kind
apply_message o now json = apply_kind o now (parse_server_message_type json) json

-- ===== src/Online/Matchmaking.antt =====
-- src/online/matchmaking/matchmaking_queue.h and matchmaking_queue.cpp. A method returns the new
-- queue. Time points are counted in the ticks of the steady clock, one nanosecond each.
pub mod Order
use kong_fu_chess.Prelude.{
  ℕ, ◌*◌, ◌==◌, leb, ltb_ℤ, ℤ, pos, abs, ◌-ℤ◌, any, Bool, true, false, not, Option, none, some,
  List, [], ◌∷◌, ◌++◌, if◌then◌else◌,
}
use kong_fu_chess.Io.Text.{Text}

pub record QueueEntry : Type 0 where
  pub connection_id : ℕ
  pub username : Text
  pub elo : ℤ
  pub enqueued_at : ℤ

pub record MatchResult : Type 0 where
  pub white : QueueEntry
  pub black : QueueEntry

pub record MatchmakingQueue : Type 0 where
  pub elo_match_range : ℕ
  pub queue_timeout_ms : ℕ
  pub queue : List QueueEntry

abbrev pub is_eligible : ℕ → QueueEntry → QueueEntry → Bool
is_eligible range a b = leb (abs (a.elo -ℤ b.elo)) range

-- The waiting entries with the loop's outcome: the first eligible one is taken out.
unfoldable pub take_eligible :
    ℕ → List QueueEntry → QueueEntry → Option (QueueEntry × List QueueEntry)
take_eligible range [] entry = none
take_eligible range (w ∷ ws) entry =
    let rest = take_eligible range ws entry in
    if is_eligible range w entry
    then some (w, ws)
    else elim rest [ none ↦ none | some (found, left) ↦ some (found, w ∷ left) ]

abbrev pub answer :
    MatchmakingQueue
    → QueueEntry
    → Option (QueueEntry × List QueueEntry)
    → MatchmakingQueue × Option MatchResult
answer q entry none = (record q { queue = q.queue ++ entry ∷ [] }, none)
answer q entry (some (w, left)) =
    (record q { queue = left }, some (record { white = w; black = entry }))

unfoldable pub enqueue : MatchmakingQueue → QueueEntry → MatchmakingQueue × Option MatchResult
enqueue q entry = answer q entry (take_eligible q.elo_match_range q.queue entry)

-- `find_if` with the erasure of what it finds; without a find the list stays.
unfoldable pub erase_connection : ℕ → List QueueEntry → List QueueEntry
erase_connection id [] = []
erase_connection id (w ∷ ws) = if w.connection_id == id then ws else w ∷ erase_connection id ws

abbrev pub contains : MatchmakingQueue → ℕ → Bool
contains q id = any (λ w. w.connection_id == id) q.queue

unfoldable pub remove : MatchmakingQueue → ℕ → MatchmakingQueue × Bool
unfolding erase_connection
remove q id =
    (record q { queue = erase_connection id q.queue }, any (λ w. w.connection_id == id) q.queue)

abbrev pub is_due : MatchmakingQueue → ℤ → QueueEntry → Bool
is_due q now w = not (ltb_ℤ (now -ℤ w.enqueued_at) (pos (q.queue_timeout_ms * 1000000)))

-- The loop of `tick`: what stays, and what has waited too long.
unfoldable pub tick_loop :
    (QueueEntry → Bool) → List QueueEntry → List QueueEntry → List QueueEntry × List QueueEntry
tick_loop due [] expired = ([], expired)
tick_loop due (w ∷ ws) expired =
    let gone = tick_loop due ws (expired ++ w ∷ []) in
    let stayed = tick_loop due ws expired in if due w then gone else (w ∷ stayed.0, stayed.1)

unfoldable pub tick : MatchmakingQueue → ℤ → MatchmakingQueue × List QueueEntry
tick q now = let r = tick_loop (is_due q now) q.queue [] in (record q { queue = r.0 }, r.1)

-- ===== src/Online/Matchmaking/Order.antt =====
-- Who is matched with whom, and who waits.
use kong_fu_chess.Prelude.{
  ℕ, ◌==◌, All, All-append, All-filter, filter, Bool, true, false, not, Bool-cases, Option, none,
  some, List, [], ◌∷◌, ◌++◌, append_assoc, append-nil, ℤ, ◌≡◌, refl, ap, sym, subst, ◌∙◌, inl, inr,
}
use kong_fu_chess.Online.Matchmaking.{
  QueueEntry, MatchResult, MatchmakingQueue, is_eligible, answer, take_eligible, enqueue,
  erase_connection, remove, is_due, tick_loop, tick,
}

-- No entry can be matched with one behind it.
abbrev pub Unmatched : ℕ → List QueueEntry → Type 0
Unmatched range [] = Unit {0}
Unmatched range (w ∷ ws) = All (λ v. is_eligible range w v ≡ false) ws × Unmatched range ws

abbrev pub Waits : ℕ → QueueEntry → QueueEntry → Type 0
Waits range entry w = is_eligible range w entry ≡ false

-- `w` is the first of the entries that may play against `entry`, and `left` are the others.
pub record Taken (range : ℕ) (ws : List QueueEntry) (entry w : QueueEntry) (left : List QueueEntry)
    : Type 0 where
  pub ahead : List QueueEntry
  pub behind : List QueueEntry
  pub whole : ws ≡ ahead ++ w ∷ behind
  pub others : left ≡ ahead ++ behind
  pub refused : All (Waits range entry) ahead
  pub accepted : is_eligible range w entry ≡ true

abbrev pub Takes : ℕ → List QueueEntry → QueueEntry → Option (QueueEntry × List QueueEntry) → Type 0
Takes range ws entry none = All (Waits range entry) ws
Takes range ws entry (some (w, left)) = Taken range ws entry w left

skip :
    (range : ℕ) (w : QueueEntry) (ws : List QueueEntry) (entry : QueueEntry)
    (r : Option (QueueEntry × List QueueEntry))
    → is_eligible range w entry ≡ false
    → Takes range ws entry r
    → Takes range
        (w ∷ ws)
        entry
        (elim r [ none ↦ none | some (found, left) ↦ some (found, w ∷ left) ])
skip range w ws entry none refused h = (refused, h)
skip range w ws entry (some (found, left)) refused t = record {
  ahead = w ∷ t.ahead;
  behind = t.behind;
  whole = ap (λ l. w ∷ l) t.whole;
  others = ap (λ l. w ∷ l) t.others;
  refused = (refused, t.refused);
  accepted = t.accepted;
}

take_eligible-Takes :
    (range : ℕ) (ws : List QueueEntry) (entry : QueueEntry)
    → Takes range ws entry (take_eligible range ws entry)
unfolding take_eligible
take_eligible-Takes range [] entry = tt
take_eligible-Takes range (w ∷ ws) entry = elim (Bool-cases (is_eligible range w entry)) [
  | inl passes ↦ rw passes (record {
    ahead = [];
    behind = ws;
    whole = refl;
    others = refl;
    refused = tt;
    accepted = passes;
  })
  | inr fails ↦ rw fails (skip range w ws entry _ fails (take_eligible-Takes range ws entry))
]

Unmatched-snoc :
    (range : ℕ) (ws : List QueueEntry) (entry : QueueEntry)
    → All (Waits range entry) ws
    → Unmatched range ws
    → Unmatched range (ws ++ entry ∷ [])
Unmatched-snoc range [] entry h u = (tt, tt)
Unmatched-snoc range (w ∷ ws) entry h u =
    (All-append _ ws (entry ∷ []) u.0 (h.0, tt), Unmatched-snoc range ws entry h.1 u.1)

All-drop {κ} :
    {A : Type 0} (P : A → Type κ) (xs : List A) (y : A) (ys : List A)
    → All P (xs ++ y ∷ ys)
    → All P (xs ++ ys)
All-drop P [] y ys h = h.1
All-drop P (x ∷ xs) y ys h = (h.0, All-drop P xs y ys h.1)

Unmatched-drop :
    (range : ℕ) (xs : List QueueEntry) (y : QueueEntry) (ys : List QueueEntry)
    → Unmatched range (xs ++ y ∷ ys)
    → Unmatched range (xs ++ ys)
Unmatched-drop range [] y ys u = u.1
Unmatched-drop range (x ∷ xs) y ys u = (All-drop _ xs y ys u.0, Unmatched-drop range xs y ys u.1)

-- What a call of `enqueue` does to the queue, and whom it returns.
abbrev pub Enqueued : MatchmakingQueue → QueueEntry → MatchmakingQueue → Option MatchResult → Type 0
Enqueued q entry q' none =
    All (Waits q.elo_match_range entry) q.queue × (q' ≡ record q { queue = q.queue ++ entry ∷ [] })
Enqueued q entry q' (some m) =
    (m.black ≡ entry)
    × Taken q.elo_match_range q.queue entry m.white q'.queue
    × (q' ≡ record q { queue = q'.queue })

-- `enqueue` matches the new player, as black, with the first waiting one in range, who is white
-- and leaves the queue; the others keep their order. Nobody is matched only if nobody is in
-- range, and then the new player waits at the end. If no two of the waiting players could be
-- matched before the call, none can be after it.
pub enqueue-Enqueued :
    (q : MatchmakingQueue) (entry : QueueEntry)
    → Unmatched q.elo_match_range q.queue
    → Enqueued q entry (enqueue q entry).0 (enqueue q entry).1
      × Unmatched q.elo_match_range (enqueue q entry).0.queue
unfolding enqueue
enqueue-Enqueued q entry u =
    found (take_eligible q.elo_match_range q.queue entry)
      (take_eligible-Takes q.elo_match_range q.queue entry)
  where
    found :
        (r : Option (QueueEntry × List QueueEntry))
        → Takes q.elo_match_range q.queue entry r
        → Enqueued q entry (answer q entry r).0 (answer q entry r).1
          × Unmatched q.elo_match_range (answer q entry r).0.queue
    found none h = ((h, refl), Unmatched-snoc q.elo_match_range q.queue entry h u)
    found (some (w, left)) t = (
      (refl, t, refl),
      rw t.others (Unmatched-drop q.elo_match_range t.ahead w t.behind (rw (← t.whole) u)),
    )

tick_loop-eq :
    (due : QueueEntry → Bool) (ws expired : List QueueEntry)
    → tick_loop due ws expired ≡ (filter (λ w. not (due w)) ws, expired ++ filter due ws)
unfolding tick_loop
tick_loop-eq due [] expired = rw (append-nil expired)
tick_loop-eq due (w ∷ ws) expired = elim (Bool-cases (due w)) [
  | inl passes ↦ rw passes (
      tick_loop-eq due ws (expired ++ w ∷ [])
      ∙ ap (λ l. (filter (λ v. not (due v)) ws, l)) (append_assoc expired (w ∷ []) (filter due ws)))
  | inr fails ↦ rw (fails, tick_loop-eq due ws expired)
]

Unmatched-filter :
    (range : ℕ) (t : QueueEntry → Bool) (ws : List QueueEntry)
    → Unmatched range ws
    → Unmatched range (filter t ws)
Unmatched-filter range t [] u = tt
Unmatched-filter range t (w ∷ ws) u = elim (Bool-cases (t w)) [
  | inl passes ↦ rw passes (All-filter _ t ws u.0, Unmatched-filter range t ws u.1)
  | inr fails ↦ rw fails (Unmatched-filter range t ws u.1)
]

-- `tick` returns exactly the players whose time is up, and leaves exactly the others, both in the
-- order of their arrival.
pub tick-eq :
    (q : MatchmakingQueue) (now : ℤ)
    → tick q now ≡ (
      record q { queue = filter (λ w. not (is_due q now w)) q.queue },
      filter (is_due q now) q.queue,
    )
unfolding tick
tick-eq q now = rw (tick_loop-eq (is_due q now) q.queue [])

All-erase :
    (P : QueueEntry → Type 0) (id : ℕ) (ws : List QueueEntry)
    → All P ws
    → All P (erase_connection id ws)
unfolding erase_connection
All-erase P id [] h = tt
All-erase P id (w ∷ ws) h = elim (Bool-cases (w.connection_id == id)) [
  | inl passes ↦ rw passes h.1
  | inr fails ↦ rw fails (h.0, All-erase P id ws h.1)
]

Unmatched-erase :
    (range id : ℕ) (ws : List QueueEntry)
    → Unmatched range ws
    → Unmatched range (erase_connection id ws)
unfolding erase_connection
Unmatched-erase range id [] u = tt
Unmatched-erase range id (w ∷ ws) u = elim (Bool-cases (w.connection_id == id)) [
  | inl passes ↦ rw passes u.1
  | inr fails ↦ rw fails (All-erase _ id ws u.0, Unmatched-erase range id ws u.1)
]

-- The calls that the lobby makes.
pub data QueueCall : Type 0 where
  enqueue_call : QueueEntry → QueueCall
  remove_call : ℕ → QueueCall
  tick_call : ℤ → QueueCall

abbrev pub call : MatchmakingQueue → QueueCall → MatchmakingQueue
call q (enqueue_call entry) = (enqueue q entry).0
call q (remove_call id) = (remove q id).0
call q (tick_call now) = (tick q now).0

abbrev pub calls : MatchmakingQueue → List QueueCall → MatchmakingQueue
calls q [] = q
calls q (c ∷ cs) = calls (call q c) cs

abbrev pub NobodyLeft : MatchmakingQueue → Type 0
NobodyLeft q = Unmatched q.elo_match_range q.queue

answer-range :
    (q : MatchmakingQueue) (entry : QueueEntry) (r : Option (QueueEntry × List QueueEntry))
    → (answer q entry r).0.elo_match_range ≡ q.elo_match_range
answer-range q entry none = refl
answer-range q entry (some (w, left)) = refl

call-NobodyLeft : (q : MatchmakingQueue) (c : QueueCall) → NobodyLeft q → NobodyLeft (call q c)
unfolding remove enqueue
call-NobodyLeft q (enqueue_call entry) u =
    rw (answer-range q entry (take_eligible q.elo_match_range q.queue entry))
      (enqueue-Enqueued q entry u).1
call-NobodyLeft q (remove_call id) u = Unmatched-erase q.elo_match_range id q.queue u
call-NobodyLeft q (tick_call now) u =
    subst (λ r. NobodyLeft r.0) (sym (tick-eq q now))
      (Unmatched-filter q.elo_match_range (λ w. not (is_due q now w)) q.queue u)

-- After any calls on an empty queue no player waits who could be matched with one who came later.
pub calls-NobodyLeft :
    (q : MatchmakingQueue) (cs : List QueueCall) → q.queue ≡ [] → NobodyLeft (calls q cs)
calls-NobodyLeft q cs empty = all q cs (rw empty tt)
  where
    all : (q : MatchmakingQueue) (cs : List QueueCall) → NobodyLeft q → NobodyLeft (calls q cs)
    all q [] u = u
    all q (c ∷ cs) u = all (call q c) cs (call-NobodyLeft q c u)

-- ===== src/View/DisconnectOverlay/Countdown.antt =====
-- The countdown stays between the length of the grace period and 0.
use kong_fu_chess.Prelude.{
  ℕ, ◌*◌, ◌/◌, ◌%◌, ◌^◌, ◌≤◌, ◌<◌, ◌==◌, ltb, ℤ, pos, pos_part, ◌+ℤ◌, ◌-ℤ◌, ◌≤ℤ◌, true, not, ◌≡◌,
  refl, arith,
}
use kong_fu_chess.Io.Text.{Text}
use kong_fu_chess.View.DisconnectOverlay.{low_word, start, seconds_left, update_countdown}

-- The nanoseconds that are left are no more than there were.
left_over :
    (n : ℕ) (began now : ℤ)
    → began ≤ℤ now
    → pos_part ((began +ℤ pos (n * 1000000000)) -ℤ now) ≤ n * 1000000000
unfolding ◌+ℤ◌ ◌-ℤ◌
left_over n began now h = ground arith

whole_seconds : (d n : ℕ) → d ≤ n * 1000000000 → d / 1000000000 ≤ n
whole_seconds d n h = omega arith

low_word_small : (k : ℕ) → k < 2 ^ 31 → low_word k ≡ pos k
low_word_small k h =
    let word : k % 2 ^ 32 ≡ k = omega arith in
    let below : ltb k (2 ^ 31) ≡ true = ground arith in rw word (rw below refl)

-- The countdown of a grace period of `n` seconds, `n` an `int`, that began before `now`: what it
-- shows is the number of whole seconds that are left, which is at most `n` and not negative, and
-- it is active just while that is not 0.
pub update_countdown-bounds :
    (user : Text) (n : ℕ) (began now : ℤ)
    → n < 2 ^ 31
    → began ≤ℤ now
    → (let left = pos_part ((began +ℤ pos (n * 1000000000)) -ℤ now) / 1000000000 in
        ((update_countdown (start began user (pos n)) now).seconds_remaining ≡ pos left)
        × (left ≤ n)
        × ((update_countdown (start began user (pos n)) now).active ≡ not (left == 0)))
unfolding update_countdown seconds_left
update_countdown-bounds user n began now fits later =
    let left = pos_part ((began +ℤ pos (n * 1000000000)) -ℤ now) / 1000000000 in
    let few : left ≤ n = whole_seconds _ n (left_over n began now later) in
    let same = low_word_small left (omega arith) in rw same (refl, few, refl)

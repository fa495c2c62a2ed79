-- ===== src/Rules/Path/Walk.antt =====
-- One coordinate of a sliding piece, step by step.
use kong_fu_chess.Prelude.{
  ℕ, zero, suc, ◌+◌, ◌≤◌, ◌<◌, ℤ, pos, negsuc, pos_part, neg_part, ◌+ℤ◌, ◌-ℤ◌, abs, +ℤ_parts,
  -ℤ_parts, eq_of_parts, parts_apart, ◌≡◌, ◌≢◌, ◌⊎◌, refl, inl, inr, arith, ap,
}
use kong_fu_chess.Rules.Helpers.{sign}

unfoldable pub walk : ℤ → ℤ → ℕ → ℤ
walk a s zero = a
walk a s (suc k) = walk a s k +ℤ s

ruleset ints = (arith, +ℤ_parts, -ℤ_parts, eq_of_parts)

walk_up :
    (a : ℤ) (k : ℕ)
    → pos_part (walk a (pos 1) k) + neg_part a ≡ neg_part (walk a (pos 1) k) + pos_part a + k
unfolding walk
walk_up a zero = omega arith
walk_up a (suc k) = omega (arith, +ℤ_parts (walk a (pos 1) k) (pos 1), walk_up a k)

walk_down :
    (a : ℤ) (k : ℕ)
    → pos_part (walk a (negsuc 0) k) + neg_part a + k ≡ neg_part (walk a (negsuc 0) k) + pos_part a
unfolding walk
walk_down a zero = omega arith
walk_down a (suc k) = omega (arith, +ℤ_parts (walk a (negsuc 0) k) (negsuc 0), walk_down a k)

walk_still : (a : ℤ) (k : ℕ) → walk a (pos 0) k ≡ a
unfolding walk
walk_still a zero = refl
walk_still a (suc k) = omega (
  arith,
  +ℤ_parts (walk a (pos 0) k) (pos 0),
  eq_of_parts (walk a (pos 0) k +ℤ pos 0) a,
  ap pos_part (walk_still a k),
  ap neg_part (walk_still a k),
)

-- The sign of a difference, by the order of its operands.
sign_cases :
    (a b : ℤ)
    → (sign (b -ℤ a) ≡ pos 1)
        × (0 < abs (b -ℤ a))
        × (pos_part a + neg_part b + abs (b -ℤ a) ≡ pos_part b + neg_part a)
      ⊎ (sign (b -ℤ a) ≡ negsuc 0)
        × (0 < abs (b -ℤ a))
        × (pos_part b + neg_part a + abs (b -ℤ a) ≡ pos_part a + neg_part b)
      ⊎ (sign (b -ℤ a) ≡ pos 0) × (a ≡ b) × (abs (b -ℤ a) ≡ 0)
unfolding sign ◌-ℤ◌
sign_cases a b = ground arith

-- The walk from `a` to `b` is over after as many steps as they are apart, and not before.
pub walk_arrives : (a b : ℤ) (k : ℕ) → k ≡ abs (b -ℤ a) → walk a (sign (b -ℤ a)) k ≡ b
walk_arrives a b k h = elim (sign_cases a b) [
  | inl (e, lt, f) ↦ rw e (omega (arith, walk_up a k, eq_of_parts (walk a (pos 1) k) b))
  | inr (inl (e, lt, f)) ↦ rw e (omega (arith, walk_down a k, eq_of_parts (walk a (negsuc 0) k) b))
  | inr (inr (e, f, z)) ↦ rw (e, walk_still) f
]

pub walk_early : (a b : ℤ) (k : ℕ) → k < abs (b -ℤ a) → walk a (sign (b -ℤ a)) k ≢ b
walk_early a b k h e = elim (sign_cases a b) [
  | inl (s, lt, f) ↦
      let there = rw s at e in omega (arith, walk_up a k, ap pos_part there, ap neg_part there)
  | inr (inl (s, lt, f)) ↦
      let there = rw s at e in omega (arith, walk_down a k, ap pos_part there, ap neg_part there)
  | inr (inr (s, f, z)) ↦ omega arith
]

-- A coordinate that does not change.
pub walk_level : (a b : ℤ) (k : ℕ) → abs (b -ℤ a) ≡ 0 → walk a (sign (b -ℤ a)) k ≡ b
walk_level a b k h = elim (sign_cases a b) [
  | inl (e, up, f) ↦ absurd (omega arith)
  | inr (inl (e, down, f)) ↦ absurd (omega arith)
  | inr (inr (e, f, z)) ↦ rw (e, walk_still) f
]

-- Between two coordinates on the board the walk stays on it.
pub walk_range :
    (a b : ℤ) (k n : ℕ)
    → k ≤ abs (b -ℤ a)
    → neg_part a ≡ 0
    → neg_part b ≡ 0
    → pos_part a < n
    → pos_part b < n
    → (neg_part (walk a (sign (b -ℤ a)) k) ≡ 0) × (pos_part (walk a (sign (b -ℤ a)) k) < n)
walk_range a b k n h a0 b0 an bn = elim (sign_cases a b) [
  | inl (e, lt, f) ↦ rw e (
      omega
        (arith, walk_up a k, parts_apart (walk a (pos 1) k), -ℤ_parts b a, parts_apart (b -ℤ a)))
  | inr (inl (e, lt, f)) ↦ rw e (omega (arith, walk_down a k, parts_apart (walk a (negsuc 0) k)))
  | inr (inr (e, f, z)) ↦ rw (e, walk_still) (omega arith)
]

-- ===== src/Realtime/Arbiter/Order.antt =====
-- The order in which moves arrive.
use kong_fu_chess.Prelude.{
  ◌<◌, ◌≤◌, ◌⊎◌, All, All-weaken, true, false, Bool-cases, List, [], ◌∷◌, ◌≡◌, inl, inr, arith,
}
use mathlib.Core.List.{Perm}
use mathlib.Core.List.Perm
use kong_fu_chess.Realtime.Motion.{Motion}
use kong_fu_chess.Realtime.Arbiter.{motion_less, insert_motion, sort_motions}
use kong_fu_chess.Realtime.Arbiter.Advance.{insert_motion-All}

-- The first motion started earlier or, at the same time, has no greater number.
abbrev pub Precedes : Motion → Motion → Type 0
Precedes m n =
    (m.started_at_ms < n.started_at_ms)
    ⊎ ((m.started_at_ms ≡ n.started_at_ms) × (m.motion_id ≤ n.motion_id))

-- Every motion precedes all later ones.
abbrev pub IsSorted : List Motion → Type 0
IsSorted [] = Unit {0}
IsSorted (m ∷ ms) = All (Precedes m) ms × IsSorted ms

less-Precedes : (a b : Motion) → motion_less a b ≡ true → Precedes a b
unfolding motion_less
less-Precedes a b h = ground arith

not_less-Precedes : (a b : Motion) → motion_less b a ≡ false → Precedes a b
unfolding motion_less
not_less-Precedes a b h = ground arith

Precedes-trans : (a b c : Motion) → Precedes a b → Precedes b c → Precedes a c
Precedes-trans a b c h k = ground arith

insert_motion-IsSorted :
    (m : Motion) (ms : List Motion) → IsSorted ms → IsSorted (insert_motion m ms)
unfolding insert_motion
insert_motion-IsSorted m [] s = (tt, tt)
insert_motion-IsSorted m (n ∷ ns) s = elim (Bool-cases (motion_less n m)) [
  | inl less ↦
      rw less
        (insert_motion-All _ m ns (less-Precedes n m less) s.0, insert_motion-IsSorted m ns s.1)
  | inr not_less ↦ rw not_less (
      let first = not_less-Precedes m n not_less in
      ((first, All-weaken _ _ ns (λ k h. Precedes-trans m n k first h) s.0), s))
]

insert_motion-perm : (m : Motion) (ms : List Motion) → Perm (insert_motion m ms) (m ∷ ms)
unfolding insert_motion
insert_motion-perm m [] = Perm.refl _
insert_motion-perm m (n ∷ ns) = elim (Bool-cases (motion_less n m)) [
  | inl less ↦ rw less (Perm.trans (Perm.cons n (insert_motion-perm m ns)) (Perm.swap m n ns))
  | inr not_less ↦ rw not_less (Perm.refl _)
]

sort_motions-perm : (ms : List Motion) → Perm (sort_motions ms) ms
unfolding sort_motions
sort_motions-perm [] = Perm.refl _
sort_motions-perm (m ∷ ms) =
    Perm.trans (insert_motion-perm m (sort_motions ms)) (Perm.cons m (sort_motions-perm ms))

sort_motions-IsSorted : (ms : List Motion) → IsSorted (sort_motions ms)
unfolding sort_motions
sort_motions-IsSorted [] = tt
sort_motions-IsSorted (m ∷ ms) = insert_motion-IsSorted m _ (sort_motions-IsSorted ms)

-- The order of arrival is a permutation of the completing moves in which every later move started
-- later or, if it started at the same time, has no smaller number.
pub sort_motions_lem : (ms : List Motion) → IsSorted (sort_motions ms) × Perm (sort_motions ms) ms
sort_motions_lem ms = (sort_motions-IsSorted ms, sort_motions-perm ms)

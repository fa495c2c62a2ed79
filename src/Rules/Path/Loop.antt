-- ===== src/Rules/Path/Loop.antt =====
-- The loop of `isPathClear` along an aligned pair of squares.
use kong_fu_chess.Prelude.{
  ℕ, zero, suc, ◌+◌, ◌-◌, ◌≤◌, ◌<◌, ℤ, pos_part, neg_part, ◌-ℤ◌, abs, true, false, Returns,
  Bool-cases, ℕ_discrete, ◌≡◌, ◌≢◌, ◌↔◌, ◌⊎◌, refl, inl, inr, ap, sym, arith,
}
use kong_fu_chess.Model.Piece.{is_empty}
use kong_fu_chess.Model.Position.{Position, square, position_eq_iff, position_eq-false}
use kong_fu_chess.Model.Board.{Board, rows, cols, in_bounds}
use kong_fu_chess.Model.Board.Laws.{IsRect, piece_at, in_bounds_iff, cell-in_bounds}
use kong_fu_chess.Rules.Helpers.{sign, distance, path_loop, is_path_clear}
use kong_fu_chess.Rules.Path.Walk.{walk, walk_arrives, walk_early, walk_level, walk_range}

-- The square after `k` steps from `from` towards `to`.
unfoldable pub along : Position → Position → ℕ → Position
along from to k =
    square (walk from.row (sign (to.row -ℤ from.row)) k)
      (walk from.col (sign (to.col -ℤ from.col)) k)

-- Two different squares of a row, a column or a diagonal.
pub record Aligned (from to : Position) : Type 0 where
  pub apart : 0 < distance from to
  pub by_row : (abs (to.row -ℤ from.row) ≡ 0) ⊎ (abs (to.row -ℤ from.row) ≡ distance from to)
  pub by_col : (abs (to.col -ℤ from.col) ≡ 0) ⊎ (abs (to.col -ℤ from.col) ≡ distance from to)

-- Every square strictly between the two, from step `k` on, is empty.
abbrev pub ClearFrom : Board → Position → Position → ℕ → Type 0
ClearFrom b from to k =
    (j : ℕ) → k ≤ j → j < distance from to → is_empty (piece_at b (along from to j)) ≡ true

module _ (from to : Position) (aligned : Aligned from to) where
  coordinate_end :
      (a b : ℤ) (d : ℕ) → (abs (b -ℤ a) ≡ 0) ⊎ (abs (b -ℤ a) ≡ d) → walk a (sign (b -ℤ a)) d ≡ b
  coordinate_end a b d (inl level) = walk_level a b d level
  coordinate_end a b d (inr whole) = walk_arrives a b d (sym whole)

  along_end : along from to (distance from to) ≡ to
  unfolding along
  along_end =
      let r = coordinate_end from.row to.row (distance from to) aligned.by_row in
      let c = coordinate_end from.col to.col (distance from to) aligned.by_col in cc

  along_early : (k : ℕ) → k < distance from to → along from to k ≢ to
  unfolding along
  along_early k h e = elim aligned.by_row [
    | inr whole ↦ walk_early from.row to.row k (omega arith) (ap (λ p. p.row) e)
    | inl level ↦ walk_early from.col to.col k (omega arith) (ap (λ p. p.col) e)
  ]

  coordinate_range :
      (a b : ℤ) (d k n : ℕ)
      → (abs (b -ℤ a) ≡ 0) ⊎ (abs (b -ℤ a) ≡ d)
      → k ≤ d
      → (neg_part a ≡ 0) × (pos_part a < n)
      → (neg_part b ≡ 0) × (pos_part b < n)
      → (neg_part (walk a (sign (b -ℤ a)) k) ≡ 0) × (pos_part (walk a (sign (b -ℤ a)) k) < n)
  coordinate_range a b d k n (inl level) h ha hb = rw (walk_level a b k level) hb
  coordinate_range a b d k n (inr whole) h ha hb =
      walk_range a b k n (omega arith) ha.0 hb.0 ha.1 hb.1

  module _ (b : Board) (rect : IsRect b) (from_in : in_bounds b from ≡ true)
      (to_in : in_bounds b to ≡ true) where
    along_inside : (k : ℕ) → k ≤ distance from to → in_bounds b (along from to k) ≡ true
    unfolding along
    along_inside k h =
        let f = (in_bounds_iff b from).0 from_in in
        let t = (in_bounds_iff b to).0 to_in in
        let r =
          coordinate_range from.row to.row (distance from to) k (rows b) aligned.by_row h (f.0, f.2)
            (t.0, t.2) in
        let c =
          coordinate_range from.col to.col (distance from to) k (cols b) aligned.by_col h (f.1, f.3)
            (t.1, t.3) in
        (in_bounds_iff b _).1 (r.0, c.0, r.1, c.1)

    -- The loop entered at the square of step `k`.
    abbrev LoopClear : ℕ → ℕ → Type 0
    LoopClear fuel k =
        Returns (λ clear. (clear ≡ true) ↔ ClearFrom b from to k)
          (path_loop fuel b (sign (to.row -ℤ from.row)) (sign (to.col -ℤ from.col)) to
            (along from to k).row (along from to k).col)

    path_loop_end : (k : ℕ) → k ≡ distance from to → LoopClear zero k
    unfolding path_loop
    path_loop_end k h = record {
      out = true;
      returns = rw ((position_eq_iff (along from to k) to).1 (rw h along_end));
      holds = (λ _ j lo hi. absurd (omega arith), λ _. refl);
    }

    path_loop_round :
        (fuel k : ℕ) → k < distance from to → LoopClear fuel (suc k) → LoopClear (suc fuel) k
    unfolding path_loop
    path_loop_round fuel k h rest =
        let not_yet = position_eq-false (along from to k) to (along_early k h) in
        let here = cell-in_bounds b (along from to k) rect (along_inside k (omega arith)) in
        elim (Bool-cases (is_empty (piece_at b (along from to k)))) [
          | inl free ↦ record {
            out = rest.out;
            returns = rw (not_yet, here, free) (unfold along walk in rest.returns);
            holds = (
              λ e j lo hi. elim (ℕ_discrete k j) [
                | yes same ↦ rw (← same) free
                | no far ↦ rest.holds.0 e j (omega arith) hi
              ],
              λ all. rest.holds.1 (λ j lo hi. all j (omega arith) hi),
            );
          }
          | inr taken ↦ record {
            out = false;
            returns = rw (not_yet, here, taken);
            holds = (λ e. cc, λ all. cc (all k (omega arith) h));
          }
        ]

    path_loop-Returns : (fuel k : ℕ) → k + fuel ≡ distance from to → LoopClear fuel k
    path_loop-Returns zero k h = path_loop_end k (omega arith)
    path_loop-Returns (suc fuel) k h =
        path_loop_round fuel k (omega arith) (path_loop-Returns fuel (suc k) (omega arith))

    -- Between two different squares of a rectangular board on one row, column or diagonal, the loop
    -- of `isPathClear` ends within the fuel and reads no square off the board; it answers whether
    -- every square strictly between them is empty.
    pub is_path_clear-Returns :
        Returns (λ clear. (clear ≡ true) ↔ ClearFrom b from to 1) (is_path_clear b from to)
    unfolding is_path_clear along walk
    is_path_clear-Returns =
        path_loop-Returns (distance from to - 1) 1 (omega (arith, aligned.apart))

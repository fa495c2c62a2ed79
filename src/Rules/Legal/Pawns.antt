-- ===== src/Rules/Legal/Pawns.antt =====
-- `PawnMovement::canMove` against the three ways of a pawn.
use kong_fu_chess.Prelude.{
  ℕ, ◌<◌, ℤ, pos, ◌+ℤ◌, ◌-ℤ◌, ◌==ℤ◌, ==ℤ_iff, -ℤ_parts, parts_apart, pos_part, neg_part, ap, Bool,
  true, false, Bool-cases, Decides, ◌≡◌, ◌≢◌, ◌↔◌, inl, inr, arith, ◌==◌, ==_iff, &&_iff, refuted,
  ◌&&◌, not,
}
use kong_fu_chess.Model.Piece.{Color, Piece, is_empty, is_friendly}
use kong_fu_chess.Model.Position.{Position, square}
use kong_fu_chess.Model.Board.{Board, in_bounds, rows}
use kong_fu_chess.Model.Board.Laws.{IsRect, piece_at, cell-in_bounds, in_bounds_iff}
use kong_fu_chess.Rules.Movement.{
  forward, double_forward, home_rank, pawn_can_move, pawn_step, pawn_double_step,
}
use kong_fu_chess.Rules.Legal.Reach.{
  cols_apart, PawnReaches, advance, double_advance, capture, IsEnemy,
}

-- A tested difference, as a sum.
sub_eq_iff : (a b d : ℤ) → ((b -ℤ a) ==ℤ d ≡ true) ↔ (b ≡ a +ℤ d)
unfolding ◌-ℤ◌ ◌+ℤ◌
sub_eq_iff a b d = (ground arith, ground arith)

enemy_iff :
    (p : Piece) (c : Color) → (not (is_empty p) && not (is_friendly p c) ≡ true) ↔ IsEnemy c p
enemy_iff p c = (ground arith, ground arith)

between_row :
    (c : Color) (a : ℤ) (n : ℕ)
    → (neg_part a ≡ 0) × (pos_part a < n)
    → (neg_part (a +ℤ double_forward c) ≡ 0) × (pos_part (a +ℤ double_forward c) < n)
    → (neg_part (a +ℤ forward c) ≡ 0) × (pos_part (a +ℤ forward c) < n)
unfolding ◌+ℤ◌
between_row c a n h k = ground arith

module _ (b : Board) (from to : Position) (p : Piece) (rect : IsRect b)
    (from_in : in_bounds b from ≡ true) (to_in : in_bounds b to ≡ true) where
  abbrev between : Position
  between = square (from.row +ℤ forward p.color) from.col

  -- The square that a double step passes lies between two squares of the board.
  between_in : to.row ≡ from.row +ℤ double_forward p.color → in_bounds b between ≡ true
  between_in e =
      let f = (in_bounds_iff b from).0 from_in in
      let t = (in_bounds_iff b to).0 to_in in
      let r = between_row p.color from.row (rows b) (f.0, f.2) (rw (← e) (t.0, t.2)) in
      (in_bounds_iff b between).1 (r.0, f.1, r.1, f.3)

  -- What a double step asks for beside its length.
  abbrev DoubleStep : Type 0
  DoubleStep =
      (p.has_moved ≡ false)
      × (from.row ≡ home_rank b p.color)
      × (is_empty (piece_at b between) ≡ true)
      × (is_empty (piece_at b to) ≡ true)

  pawn_double_step-Decides :
      to.row ≡ from.row +ℤ double_forward p.color
      → Decides DoubleStep (pawn_double_step b from p (piece_at b to))
  unfolding pawn_double_step
  pawn_double_step-Decides e =
      let seen = cell-in_bounds b between rect (between_in e) in
      elim (Bool-cases p.has_moved) [
        | inl moved ↦ record { out = false; returns = rw moved; holds = (λ q. cc, λ d. cc d.0) }
        | inr fresh ↦ elim (Bool-cases (from.row ==ℤ home_rank b p.color)) [
          | inr away ↦ record {
            out = false;
            returns = rw (fresh, away);
            holds = (λ q. cc, λ d. cc ((==ℤ_iff from.row (home_rank b p.color)).1 d.1));
          }
          | inl home ↦ record {
            out = is_empty (piece_at b between) && is_empty (piece_at b to);
            returns = rw (fresh, home, seen);
            holds = (
              λ q.
                  let both = (&&_iff _ _).0 q in
                  (fresh, (==ℤ_iff from.row (home_rank b p.color)).0 home, both.0, both.1),
              λ d. (&&_iff _ _).1 (d.2, d.3),
            );
          }
        ]
      ]

  sub_level_iff : (a c : ℤ) → ((c -ℤ a) ==ℤ pos 0 ≡ true) ↔ (c ≡ a)
  unfolding ◌-ℤ◌
  sub_level_iff a c = (ground arith, ground arith)

  step_test :
      (d : ℤ)
      → (((to.row -ℤ from.row) ==ℤ d) && ((to.col -ℤ from.col) ==ℤ pos 0) ≡ true)
        ↔ ((to.row ≡ from.row +ℤ d) × (to.col ≡ from.col))
  step_test d = (
    λ e.
        let both = (&&_iff ((to.row -ℤ from.row) ==ℤ d) ((to.col -ℤ from.col) ==ℤ pos 0)).0 e in
        ((sub_eq_iff from.row to.row d).0 both.0, (sub_level_iff from.col to.col).0 both.1),
    λ f.
        (&&_iff ((to.row -ℤ from.row) ==ℤ d) ((to.col -ℤ from.col) ==ℤ pos 0)).1
          ((sub_eq_iff from.row to.row d).1 f.0, (sub_level_iff from.col to.col).1 f.1),
  )

  capture_test :
      (d : ℤ)
      → (((to.row -ℤ from.row) ==ℤ d) && (cols_apart from to == 1) ≡ true)
        ↔ ((to.row ≡ from.row +ℤ d) × (cols_apart from to ≡ 1))
  capture_test d = (
    λ e.
        let both = (&&_iff ((to.row -ℤ from.row) ==ℤ d) (cols_apart from to == 1)).0 e in
        ((sub_eq_iff from.row to.row d).0 both.0, (==_iff (cols_apart from to) 1).0 both.1),
    λ f.
        (&&_iff ((to.row -ℤ from.row) ==ℤ d) (cols_apart from to == 1)).1
          ((sub_eq_iff from.row to.row d).1 f.0, (==_iff (cols_apart from to) 1).1 f.1),
  )

  -- A step within a column is no capture.
  not_sideways : to.col ≡ from.col → cols_apart from to ≢ 1
  not_sideways e h = omega (
    arith,
    -ℤ_parts to.col from.col,
    ap pos_part e,
    ap neg_part e,
    parts_apart (to.col -ℤ from.col),
  )

  advancing :
      to.col ≡ from.col
      → to.row ≡ from.row +ℤ forward p.color
      → (is_empty (piece_at b to) ≡ true) ↔ PawnReaches b from to p
  advancing c r = (advance r c, back)
    where
      back : PawnReaches b from to p → is_empty (piece_at b to) ≡ true
      back (advance _ _ free) = free
      back (double_advance _ _ _ _ _ free) = free
      back (capture _ side _) = absurd (not_sideways c side)

  advancing_twice :
      to.col ≡ from.col
      → to.row ≡ from.row +ℤ double_forward p.color
      → ¬ ((to.row ≡ from.row +ℤ forward p.color) × (to.col ≡ from.col))
      → DoubleStep ↔ PawnReaches b from to p
  advancing_twice c r no_step = (λ d. double_advance r c d.0 d.1 d.2 d.3, back)
    where
      back : PawnReaches b from to p → DoubleStep
      back (advance row col free) = absurd (no_step (row, col))
      back (double_advance _ _ fresh home passes free) = (fresh, home, passes, free)
      back (capture _ side _) = absurd (not_sideways c side)

  capturing :
      cols_apart from to ≡ 1
      → to.row ≡ from.row +ℤ forward p.color
      → IsEnemy p.color (piece_at b to) ↔ PawnReaches b from to p
  capturing c r = (capture r c, back)
    where
      back : PawnReaches b from to p → IsEnemy p.color (piece_at b to)
      back (advance _ col _) = absurd (not_sideways col c)
      back (double_advance _ col _ _ _ _) = absurd (not_sideways col c)
      back (capture _ _ enemy) = enemy

  abbrev one_ahead : Bool
  one_ahead = ((to.row -ℤ from.row) ==ℤ forward p.color) && ((to.col -ℤ from.col) ==ℤ pos 0)

  abbrev two_ahead : Bool
  two_ahead = ((to.row -ℤ from.row) ==ℤ double_forward p.color) && ((to.col -ℤ from.col) ==ℤ pos 0)

  abbrev aside : Bool
  aside = ((to.row -ℤ from.row) ==ℤ forward p.color) && (cols_apart from to == 1)

  stuck : one_ahead ≡ false → two_ahead ≡ false → aside ≡ false → ¬ PawnReaches b from to p
  stuck na nb nc (advance row col _) = refuted one_ahead (step_test _) na (row, col)
  stuck na nb nc (double_advance row col _ _ _ _) = refuted two_ahead (step_test _) nb (row, col)
  stuck na nb nc (capture row side _) = refuted aside (capture_test _) nc (row, side)

  -- Behind the first test of the code.
  not_one_ahead :
      one_ahead ≡ false → Decides (PawnReaches b from to p) (pawn_step b from to p (piece_at b to))
  unfolding pawn_step
  not_one_ahead na = elim (Bool-cases two_ahead) [
    | inl twice ↦
        let f = (step_test (double_forward p.color)).0 twice in
        let means = advancing_twice f.1 f.0 (refuted one_ahead (step_test (forward p.color)) na) in
        let d = pawn_double_step-Decides f.0 in
        record {
          out = d.out;
          returns = rw (na, twice) d.returns;
          holds = (λ q. means.0 (d.holds.0 q), λ r. d.holds.1 (means.1 r));
        }
    | inr nb ↦ elim (Bool-cases aside) [
      | inl c ↦
          let f = (capture_test (forward p.color)).0 c in
          let means = capturing f.1 f.0 in
          let enemy = enemy_iff (piece_at b to) p.color in
          record {
            out = not (is_empty (piece_at b to)) && not (is_friendly (piece_at b to) p.color);
            returns = rw (na, nb, c);
            holds = (λ q. means.0 (enemy.0 q), λ r. enemy.1 (means.1 r));
          }
      | inr nc ↦ record {
        out = false;
        returns = rw (na, nb, nc);
        holds = (λ q. cc, λ r. absurd (stuck na nb nc r));
      }
    ]
  ]

  pub pawn_can_move-Decides : Decides (PawnReaches b from to p) (pawn_can_move b from to p)
  unfolding pawn_can_move pawn_step
  pawn_can_move-Decides = rw (cell-in_bounds b to rect to_in) (elim (Bool-cases one_ahead) [
    | inl a ↦
        let f = (step_test (forward p.color)).0 a in
        record { out = is_empty (piece_at b to); returns = rw a; holds = advancing f.1 f.0 }
    | inr na ↦ not_one_ahead na
  ])

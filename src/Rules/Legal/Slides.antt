-- ===== src/Rules/Legal/Slides.antt =====
-- Rook, bishop and queen: a line with empty squares between its ends.
use kong_fu_chess.Prelude.{
  ◌<◌, ℤ, ◌-ℤ◌, -ℤ_parts, parts_apart, eq_of_parts, abs, pos_part, neg_part, ap, Bool, true, false,
  ℕ_discrete, ok, Decides, if◌then◌else◌, ◌≡◌, ◌≢◌, ◌↔◌, ◌⊎◌, refl, inl, inr, arith,
}
use kong_fu_chess.Model.Position.{Position}
use kong_fu_chess.Model.Board.{Board, in_bounds}
use kong_fu_chess.Model.Board.Laws.{IsRect}
use kong_fu_chess.Rules.Helpers.{
  is_straight_move, is_diagonal_move, is_path_clear, can_slide_straight, can_slide_diagonal,
}
use kong_fu_chess.Rules.Path.{Aligned, is_path_clear-Returns}
use kong_fu_chess.Rules.Legal.Reach.{Slides, Straight, Diagonal}

-- A difference is zero exactly between equal integers.
abs-sub_zero : (a b : ℤ) → (abs (b -ℤ a) ≡ 0) ↔ (a ≡ b)
abs-sub_zero a b = (
  λ h. omega (arith, -ℤ_parts b a, eq_of_parts a b),
  λ e. omega (arith, -ℤ_parts b a, parts_apart (b -ℤ a), ap pos_part e, ap neg_part e),
)

abs-sub_pos : (a b : ℤ) → a ≢ b → 0 < abs (b -ℤ a)
abs-sub_pos a b ne = elim (ℕ_discrete (abs (b -ℤ a)) 0) [
  | yes z ↦ absurd (ne ((abs-sub_zero a b).0 z))
  | no nz ↦ omega arith
]

-- Different squares differ in a coordinate.
pub apart_somewhere :
    (from to : Position)
    → from ≢ to
    → (0 < abs (to.row -ℤ from.row)) ⊎ (0 < abs (to.col -ℤ from.col))
apart_somewhere from to ne = elim (ℕ_discrete (abs (to.row -ℤ from.row)) 0) [
  | no far ↦ inl (omega arith)
  | yes level ↦
      inr (abs-sub_pos from.col to.col (λ e. ne (cc ((abs-sub_zero from.row to.row).0 level, e))))
]

is_straight_move_iff : (from to : Position) → (is_straight_move from to ≡ true) ↔ Straight from to
is_straight_move_iff from to = (ground arith, ground arith)

is_diagonal_move_iff : (from to : Position) → (is_diagonal_move from to ≡ true) ↔ Diagonal from to
is_diagonal_move_iff from to = (ground arith, ground arith)

Straight-Aligned : (from to : Position) → from ≢ to → Straight from to → Aligned from to
Straight-Aligned from to ne (inl same) =
    let level = (abs-sub_zero from.row to.row).1 same in
    let far = abs-sub_pos from.col to.col (λ e. ne (cc)) in
    record { apart = omega arith; by_row = inl level; by_col = inr (omega arith) }
Straight-Aligned from to ne (inr same) =
    let level = (abs-sub_zero from.col to.col).1 same in
    let far = abs-sub_pos from.row to.row (λ e. ne (cc)) in
    record { apart = omega arith; by_row = inr (omega arith); by_col = inl level }

Diagonal-Aligned : (from to : Position) → Diagonal from to → Aligned from to
Diagonal-Aligned from to line = record {
  apart = omega arith;
  by_row = inr (omega arith);
  by_col = inr (omega arith);
}

module _ (b : Board) (from to : Position) (rect : IsRect b) (from_in : in_bounds b from ≡ true)
    (to_in : in_bounds b to ≡ true) where
  slide :
      (line : Bool) {Line : Type 0}
      → ((line ≡ true) ↔ Line)
      → (Line → Aligned from to)
      → Decides (Slides b from to Line) (if line then is_path_clear b from to else ok false)
  slide true l aligned =
      let path = is_path_clear-Returns from to (aligned (l.0 refl)) b rect from_in to_in in
      record {
        out = path.out;
        returns = path.returns;
        holds = (λ e. (l.0 refl, path.holds.0 e), λ s. path.holds.1 s.1);
      }
  slide false l aligned = record { out = false; returns = refl; holds = (λ e. cc, λ s. l.1 s.0) }

  pub can_slide_straight-Decides :
      from ≢ to → Decides (Slides b from to (Straight from to)) (can_slide_straight b from to)
  unfolding can_slide_straight
  can_slide_straight-Decides ne =
      slide (is_straight_move from to) (is_straight_move_iff from to) (Straight-Aligned from to ne)

  pub can_slide_diagonal-Decides :
      Decides (Slides b from to (Diagonal from to)) (can_slide_diagonal b from to)
  unfolding can_slide_diagonal
  can_slide_diagonal-Decides =
      slide (is_diagonal_move from to) (is_diagonal_move_iff from to) (Diagonal-Aligned from to)

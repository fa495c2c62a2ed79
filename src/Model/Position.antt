-- ===== src/Model/Position.antt =====
-- src/model/position.h. The default position, row and column -1, stands for "no square".
use kong_fu_chess.Prelude.{
  ℤ, negsuc, false, ◌≢◌, Bool-cases, inl, inr, Bool, true, ◌&&◌, ◌==ℤ◌, ◌≡◌, ◌↔◌, arith,
}

pub record Position : Type 0 where
  pub row : ℤ
  pub col : ℤ

abbrev pub no_position : Position
no_position = record { row = negsuc 0; col = negsuc 0 }

abbrev pub square : ℤ → ℤ → Position
square r c = record { row = r; col = c }

abbrev pub position_eq : Position → Position → Bool
position_eq p q = (p.row ==ℤ q.row) && (p.col ==ℤ q.col)

pub position_eq_iff : (p q : Position) → (position_eq p q ≡ true) ↔ (p ≡ q)
position_eq_iff p q = (ground arith, ground arith)

pub position_eq-false : (p q : Position) → p ≢ q → position_eq p q ≡ false
position_eq-false p q ne = elim (Bool-cases (position_eq p q)) [
  | inl e ↦ absurd (ne ((position_eq_iff p q).0 e))
  | inr e ↦ e
]

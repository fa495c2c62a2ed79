-- ===== src/Model/Piece.antt =====
-- src/model/piece.h. Milliseconds are natural numbers: every duration that the program hands to a
-- piece is one.
use kong_fu_chess.Prelude.{
  ◌≡◌, ◌↔◌, arith, ℕ, ◌-◌, Bool, true, false, ◌&&◌, not, ltb, if◌then◌else◌,
}

pub data Color : Type 0 where
  white black : Color

pub data PieceType : Type 0 where
  empty king queen rook bishop knight pawn : PieceType

-- The defaulted `==` of the two enumerations.
abbrev pub color_eq : Color → Color → Bool
color_eq white white = true
color_eq black black = true
color_eq _ _ = false

abbrev pub type_eq : PieceType → PieceType → Bool
type_eq empty empty = true
type_eq king king = true
type_eq queen queen = true
type_eq rook rook = true
type_eq bishop bishop = true
type_eq knight knight = true
type_eq pawn pawn = true
type_eq _ _ = false

pub record Piece : Type 0 where
  pub kind : PieceType
  pub color : Color
  pub move_cooldown_remaining_ms : ℕ
  pub jump_cooldown_remaining_ms : ℕ
  pub move_cooldown_total_ms : ℕ
  pub jump_cooldown_total_ms : ℕ
  pub has_moved : Bool

-- `Piece(type, color)`, with the default member initialisers.
abbrev pub new_piece : PieceType → Color → Piece
new_piece t c = record {
  kind = t;
  color = c;
  move_cooldown_remaining_ms = 0;
  jump_cooldown_remaining_ms = 0;
  move_cooldown_total_ms = 0;
  jump_cooldown_total_ms = 0;
  has_moved = false;
}

-- `Piece::empty()`.
abbrev pub empty_piece : Piece
empty_piece = new_piece empty white

abbrev pub is_empty : Piece → Bool
is_empty p = type_eq p.kind empty

abbrev pub is_friendly : Piece → Color → Bool
is_friendly p c = not (is_empty p) && color_eq p.color c

abbrev pub promote : Piece → PieceType → Piece
promote p t = record p { kind = t }

abbrev pub set_move_cooldown : Piece → ℕ → Piece
set_move_cooldown p ms = record p { move_cooldown_remaining_ms = ms; move_cooldown_total_ms = ms }

abbrev pub set_jump_cooldown : Piece → ℕ → Piece
set_jump_cooldown p ms = record p { jump_cooldown_remaining_ms = ms; jump_cooldown_total_ms = ms }

-- One counter of `decreaseCooldown`.
abbrev pub count_down : ℕ → ℕ → ℕ
count_down remaining ms = if ltb ms remaining then remaining - ms else 0

abbrev pub decrease_cooldown : Piece → ℕ → Piece
decrease_cooldown p ms = record p {
  move_cooldown_remaining_ms = count_down p.move_cooldown_remaining_ms ms;
  jump_cooldown_remaining_ms = count_down p.jump_cooldown_remaining_ms ms;
}

abbrev pub mark_moved : Piece → Piece
mark_moved p = record p { has_moved = true }

pub color_eq_iff : (a b : Color) → (color_eq a b ≡ true) ↔ (a ≡ b)
color_eq_iff a b = (ground arith, ground arith)

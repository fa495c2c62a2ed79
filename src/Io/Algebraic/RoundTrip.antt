-- ===== src/Io/Algebraic/RoundTrip.antt =====
-- Notation and squares of the usual board.
use kong_fu_chess.Prelude.{ℕ, ◌+◌, ◌-◌, ◌%◌, ◌<◌, pos, ◌-ℤ◌, [], ◌∷◌, ◌≡◌, ◌∙◌, ap, arith}
use kong_fu_chess.Model.Position.{square}
use kong_fu_chess.Io.Text.{digits_onto, decimal, to_string}
use kong_fu_chess.Io.Algebraic.{position_to_algebraic, algebraic_to_position}

decimal-digit : (n : ℕ) → n < 10 → decimal n ≡ (b'0' + n) ∷ []
unfolding decimal digits_onto
decimal-digit n h = ground arith

rank_lem : (row : ℕ) → row < 8 → to_string (pos 8 -ℤ pos row) ≡ (b'0' + (8 - row)) ∷ []
unfolding to_string ◌-ℤ◌
rank_lem row h = ground (arith, decimal-digit (8 - row) (omega arith))

file_lem : (col : ℕ) → col < 8 → (b'a' + col) % 256 ≡ b'a' + col
file_lem col h = omega arith

pub written :
    (row col : ℕ)
    → row < 8
    → col < 8
    → position_to_algebraic (square (pos row) (pos col)) ≡ (b'a' + col) ∷ (b'0' + (8 - row)) ∷ []
unfolding position_to_algebraic
written row col r c = rw (rank_lem row r, file_lem col c) (ground arith)

read :
    (row col : ℕ)
    → row < 8
    → col < 8
    → algebraic_to_position ((b'a' + col) ∷ (b'0' + (8 - row)) ∷ []) ≡ square (pos row) (pos col)
unfolding algebraic_to_position ◌-ℤ◌
read row col r c = ground arith

-- The notation of a square of an 8 by 8 board is read back as that square.
pub algebraic_to_position-position_to_algebraic :
    (row col : ℕ)
    → row < 8
    → col < 8
    → algebraic_to_position (position_to_algebraic (square (pos row) (pos col)))
      ≡ square (pos row) (pos col)
algebraic_to_position-position_to_algebraic row col r c =
    ap algebraic_to_position (written row col r c) ∙ read row col r c

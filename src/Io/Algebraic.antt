-- ===== src/Io/Algebraic.antt =====
-- src/io/algebraic.cpp: squares in algebraic notation, row 0 being rank 8.
pub mod RoundTrip
use kong_fu_chess.Prelude.{
  ◌+◌, ◌-◌, ◌%◌, ltb, pos, ◌-ℤ◌, ltb_ℤ, pos_part, ◌||◌, [], ◌∷◌, if◌then◌else◌,
}
use kong_fu_chess.Model.Position.{Position, no_position, square}
use kong_fu_chess.Io.Text.{Text, to_string}

-- A column beyond 255 wraps in the `char`; the codes are those of an unsigned byte.
unfoldable pub position_to_algebraic : Position → Text
unfolding to_string
position_to_algebraic p =
    if ltb_ℤ p.row (pos 0) || ltb_ℤ p.col (pos 0)
    then b'?' ∷ b'?' ∷ []
    else ((b'a' + pos_part p.col) % 256) ∷ to_string (pos 8 -ℤ p.row)

unfoldable pub algebraic_to_position : Text → Position
algebraic_to_position (file ∷ rank ∷ []) =
    if ltb file b'a' || ltb b'h' file || ltb rank b'1' || ltb b'8' rank
    then no_position
    else square (pos 8 -ℤ pos (rank - b'0')) (pos (file - b'a'))
algebraic_to_position _ = no_position

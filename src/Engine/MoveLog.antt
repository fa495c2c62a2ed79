-- ===== src/Engine/MoveLog.antt =====
-- src/engine/move_log.h and move_log.cpp.
use kong_fu_chess.Prelude.{
  ℤ, pos, negsuc, zero, suc, ℕ, ◌+◌, ◌/◌, ◌%◌, ltb, Bool, not, List, [], ◌∷◌, ◌++◌, if◌then◌else◌,
}
use kong_fu_chess.Model.Piece.{
  Color, white, black, PieceType, empty, king, queen, rook, bishop, knight, pawn, type_eq,
}
use kong_fu_chess.Realtime.Resolution.{CompletedMoveEvent, JumpCaptureEvent}
use kong_fu_chess.Io.Text.{Text, to_string, two_wide}
use kong_fu_chess.Io.Algebraic.{position_to_algebraic}

pub record MoveLogEntry : Type 0 where
  pub timestamp_ms : ℤ
  pub text : Text

pub record MoveLog : Type 0 where
  pub entries : List MoveLogEntry
  pub white_score : ℕ
  pub black_score : ℕ

abbrev pub new_log : MoveLog
new_log = record { entries = []; white_score = 0; black_score = 0 }

abbrev pub capture_value : PieceType → ℕ
capture_value pawn = 1
capture_value knight = 3
capture_value bishop = 3
capture_value rook = 5
capture_value queen = 9
capture_value king = 0
capture_value empty = 0

-- `/` and `%` of C++: the quotient is cut towards 0, and the remainder has the sign of the dividend.
abbrev negated : ℕ → ℤ
negated zero = pos 0
negated (suc n) = negsuc n

abbrev pub quot : ℤ → ℕ → ℤ
quot (pos n) k = pos (n / k)
quot (negsuc n) k = negated (suc n / k)

abbrev pub rem : ℤ → ℕ → ℤ
rem (pos n) k = pos (n % k)
rem (negsuc n) k = negated (suc n % k)

unfoldable pub format_elapsed_mmss : ℤ → Text
unfolding to_string two_wide
format_elapsed_mmss timestamp_ms =
    let total_seconds = quot timestamp_ms 1000 in
    two_wide (to_string (quot total_seconds 60))
    ++ (b':' ∷ two_wide (to_string (rem total_seconds 60)))

abbrev pub color_char : Color → ℕ
color_char white = b'w'
color_char black = b'b'

abbrev pub type_char : PieceType → ℕ
type_char king = b'K'
type_char queen = b'Q'
type_char rook = b'R'
type_char bishop = b'B'
type_char knight = b'N'
type_char pawn = b'P'
type_char empty = b'?'

abbrev pub piece_label : PieceType → Color → Text
piece_label t c = color_char c ∷ type_char t ∷ []

abbrev scored : MoveLog → Color → ℕ → MoveLog
scored log white points = record log { white_score = log.white_score + points }
scored log black points = record log { black_score = log.black_score + points }

unfoldable pub add_capture_score : MoveLog → Color → PieceType → MoveLog
add_capture_score log scorer victim_type =
    let points = capture_value victim_type in
    if not (ltb 0 points) then log else scored log scorer points

abbrev space : ℕ
space = b' '

abbrev arrow : Text
arrow = b'-' ∷ b'>' ∷ []

abbrev completed_text : CompletedMoveEvent → Text
completed_text e =
    format_elapsed_mmss e.timestamp_ms
    ++ (space ∷ piece_label e.piece_type e.piece_color
        ++ (space ∷ position_to_algebraic e.from ++ (arrow ++ position_to_algebraic e.to)))

abbrev captures_piece : CompletedMoveEvent → Bool
captures_piece e = not (type_eq e.captured_type empty)

unfoldable pub record_completed_move : MoveLog → CompletedMoveEvent → MoveLog
record_completed_move log e =
    let text =
      if captures_piece e
      then completed_text e ++ (space ∷ b'x' ∷ piece_label e.captured_type e.captured_color)
      else completed_text e in
    let l = if captures_piece e then add_capture_score log e.piece_color e.captured_type else log in
    record l { entries = l.entries ++ record { timestamp_ms = e.timestamp_ms; text = text } ∷ [] }

abbrev jump_text : JumpCaptureEvent → Text
jump_text e =
    format_elapsed_mmss e.timestamp_ms
    ++ (space ∷ piece_label e.jumper_type e.jumper_color
        ++ (b' '
              ∷ b'j'
              ∷ b'u'
              ∷ b'm'
              ∷ b'p'
              ∷ b' '
              ∷ b'x'
              ∷ b' '
              ∷ piece_label e.victim_type e.victim_color
            ++ (space ∷ position_to_algebraic e.victim_from
                ++ (arrow
                    ++ (position_to_algebraic e.victim_to
                        ++ (b' ' ∷ b'@' ∷ position_to_algebraic e.jump_square))))))

unfoldable pub record_jump_capture : MoveLog → JumpCaptureEvent → MoveLog
record_jump_capture log e =
    let l = add_capture_score log e.jumper_color e.victim_type in
    record l {
      entries = l.entries ++ record { timestamp_ms = e.timestamp_ms; text = jump_text e } ∷ [];
    }

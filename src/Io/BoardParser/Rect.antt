-- ===== src/Io/BoardParser/Rect.antt =====
-- Whatever the text, the board that is read is rectangular.
use kong_fu_chess.Prelude.{
  ltb, ◌==◌, Bool, false, not, ◌&&◌, ◌||◌, Bool-cases, All-append, Option, none, some, List, [],
  ◌∷◌, ◌++◌, length, ◌≡◌, refl, subst, inl, inr, arith,
}
use kong_fu_chess.Model.Piece.{Piece}
use kong_fu_chess.Model.Board.{Board, rows, cols, clear}
use kong_fu_chess.Model.Board.Laws.{IsRect}
use kong_fu_chess.Io.Text.{Text, codes, text_eq}
use kong_fu_chess.Io.Lines.{is_nil}
use kong_fu_chess.Io.BoardParser.{
  ParseResult, Step, stop, read_on, grow, parse_line, parse_lines, parse_from_input, trim_line,
}

abbrev of : List (List Piece) → Board
of g = record { grid = g }

-- A row that fits a board whose rows are alike.
of-IsRect :
    (g : List (List Piece)) (row : List Piece)
    → IsRect (of g)
    → ltb 0 (rows (of g)) && not (length row == cols (of g)) ≡ false
    → IsRect (of (g ++ row ∷ []))
unfolding rows cols
of-IsRect [] row rect fits = (refl, tt)
of-IsRect (first ∷ g) row rect fits =
    All-append (λ r. length r ≡ length first) (first ∷ g) (row ∷ []) rect (ground arith, tt)

abbrev board_of : Step → Board
board_of (stop result b) = b
board_of (read_on inside b) = b

grow-IsRect : (b : Board) (row : Option (List Piece)) → IsRect b → IsRect (board_of (grow b row))
grow-IsRect b none rect = rect
grow-IsRect b (some []) rect = rect
grow-IsRect b (some (p ∷ ps)) rect =
    elim (Bool-cases (ltb 0 (rows b) && not (length (p ∷ ps) == cols b))) [
      | inl differs ↦ rw differs rect
      | inr fits ↦ rw fits (of-IsRect b.grid (p ∷ ps) rect fits)
    ]

parse_line-IsRect :
    (line : Text) (inside : Bool) (b : Board)
    → IsRect b
    → IsRect (board_of (parse_line line inside b))
unfolding parse_line
parse_line-IsRect line inside b rect = elim (Bool-cases (text_eq line (codes "Board:"))) [
  | inl board ↦ rw board rect
  | inr other ↦ elim (Bool-cases (text_eq line (codes "Commands:"))) [
    | inl commands ↦ rw (other, commands) rect
    | inr row ↦ elim (Bool-cases (not inside || is_nil line)) [
      | inl skipped ↦ rw (other, row, skipped) rect
      | inr read ↦ rw (other, row, read) (grow-IsRect b _ rect)
    ]
  ]
]

pub data StepCases (s : Step) : Type 0 where
  stops : (result : ParseResult) (b : Board) → s ≡ stop result b → StepCases s
  reads_on : (inside : Bool) (b : Board) → s ≡ read_on inside b → StepCases s

pub step_cases : (s : Step) → StepCases s
step_cases (stop result b) = stops result b refl
step_cases (read_on inside b) = reads_on inside b refl

pub parse_lines-stop :
    (l : Text) (ls : List Text) (inside : Bool) (b : Board) (result : ParseResult) (b' : Board)
    → parse_line (trim_line l) inside b ≡ stop result b'
    → parse_lines (l ∷ ls) inside b ≡ (result, b', ls)
unfolding parse_lines
parse_lines-stop l ls inside b result b' e = rw (parse_lines, e) refl

pub parse_lines-read_on :
    (l : Text) (ls : List Text) (inside : Bool) (b : Board) (inside' : Bool) (b' : Board)
    → parse_line (trim_line l) inside b ≡ read_on inside' b'
    → parse_lines (l ∷ ls) inside b ≡ parse_lines ls inside' b'
unfolding parse_lines
parse_lines-read_on l ls inside b inside' b' e = rw (parse_lines, e) refl

parse_lines-IsRect :
    (input : List Text) (inside : Bool) (b : Board)
    → IsRect b
    → IsRect (parse_lines input inside b).1
unfolding parse_lines
parse_lines-IsRect [] inside b rect = rect
parse_lines-IsRect (l ∷ ls) inside b rect =
    let next = parse_line-IsRect (trim_line l) inside b rect in
    elim (step_cases (parse_line (trim_line l) inside b)) [
      | stops result b' e ↦
          rw (parse_lines-stop l ls inside b result b' e) (subst (λ s. IsRect (board_of s)) e next)
      | reads_on inside' b' e ↦
          rw (parse_lines-read_on l ls inside b inside' b' e)
            (parse_lines-IsRect ls inside' b' (subst (λ s. IsRect (board_of s)) e next))
    ]

-- Whatever the lines, the board that `parseFromInput` leaves is rectangular, also behind an error.
pub parse_from_input-IsRect : (input : List Text) → IsRect (parse_from_input input).1
parse_from_input-IsRect input = parse_lines-IsRect input false clear tt

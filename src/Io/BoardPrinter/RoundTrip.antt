-- ===== src/Io/BoardPrinter/RoundTrip.antt =====
-- A board that is printed and parsed again.
use kong_fu_chess.Prelude.{
  ℕ, suc, ◌<◌, ltb, ◌==◌, All, true, false, not, ◌&&◌, some, List, [], ◌∷◌, ◌++◌, map, append_assoc,
  append-nil, length, Returns, ◌≡◌, refl, ap, ◌∙◌, sym, subst, arith,
}
use kong_fu_chess.Model.Piece.{Piece, is_empty}
use kong_fu_chess.Model.Board.{Board, rows, cols}
use kong_fu_chess.Model.Board.Laws.{IsRect}
use kong_fu_chess.Io.Text.{Text, codes}
use kong_fu_chess.Io.Lines.{lines}
use kong_fu_chess.Io.BoardParser.{
  parsed, read_on, trim_line, parse_row, grow, parse_line, parse_lines, parse_from_input,
}
use kong_fu_chess.Io.BoardParser.Rect.{parse_lines-read_on}
use kong_fu_chess.Io.BoardPrinter.{piece_to_token, print}
use kong_fu_chess.Io.BoardPrinter.Rows.{behind, row_text, grid_text, print-grid_text}
use kong_fu_chess.Io.BoardPrinter.Words.{
  trim_line-spaced, words-spaced, lines-line, one_line-spaced,
}
use kong_fu_chess.Io.BoardPrinter.Tokens.{
  fresh, tokens-IsWord, not_board, not_commands, not_nil, parse_row-tokens,
}

abbrev of : List (List Piece) → Board
of g = record { grid = g }

abbrev pub fresh_rows : List (List Piece) → List (List Piece)
fresh_rows g = map (map fresh) g

length-fresh : (row : List Piece) → length (map fresh row) ≡ length row
length-fresh [] = refl
length-fresh (p ∷ row) = ap suc (length-fresh row)

-- A board with rows of length `n`, if it has rows.
abbrev Fits : List (List Piece) → ℕ → Type 0
Fits [] n = Unit {0}
Fits (row ∷ g) n = length row ≡ n

grow-fresh :
    (g : List (List Piece)) (p : Piece) (ps : List Piece)
    → Fits g (length (p ∷ ps))
    → grow (of g) (some (p ∷ ps)) ≡ read_on true (of (g ++ (p ∷ ps) ∷ []))
unfolding rows cols
grow-fresh [] p ps h = refl
grow-fresh (row ∷ g) p ps h =
    let same : ltb 0 (suc (length g)) && not (length (p ∷ ps) == length row) ≡ false =
      ground arith in
    rw same refl

Fits-append :
    (g : List (List Piece)) (row : List Piece) (n : ℕ)
    → Fits g n
    → length row ≡ n
    → Fits (g ++ row ∷ []) n
Fits-append [] row n h e = e
Fits-append (first ∷ g) row n h e = h

parse_line-row_text :
    (g : List (List Piece)) (p : Piece) (row : List Piece)
    → Fits g (length (p ∷ row))
    → parse_line (trim_line (row_text (p ∷ row))) true (of g)
      ≡ read_on true (of (g ++ map fresh (p ∷ row) ∷ []))
unfolding parse_line
parse_line-row_text g p row fits =
    let t = piece_to_token p in
    let ts = map piece_to_token row in
    let h = tokens-IsWord (p ∷ row) in
    let rest = behind ts in
    rw (trim_line-spaced t ts h) (
      rw
        (
          not_board (is_empty p) p.color p.kind rest,
          not_commands (is_empty p) p.color p.kind rest,
          not_nil (is_empty p) p.color p.kind rest,
        )
        (ap (grow (of g)) (ap parse_row (words-spaced t ts h) ∙ parse_row-tokens (p ∷ row))
          ∙ grow-fresh g (fresh p) (map fresh row)
              (subst (Fits g) (sym (length-fresh (p ∷ row))) fits)))

parse_lines-grid_text :
    (g below : List (List Piece)) (n : ℕ)
    → 0 < n
    → All (λ row. length row ≡ n) below
    → Fits g n
    → parse_lines (lines (grid_text below)) true (of g) ≡ (parsed, of (g ++ fresh_rows below), [])
unfolding parse_lines
parse_lines-grid_text g [] n some_cols rect fits =
    ap (λ g'. (parsed, of g', [])) (sym (append-nil g))
parse_lines-grid_text g ([] ∷ below) n some_cols rect fits = absurd (omega (arith, rect.0))
parse_lines-grid_text g ((p ∷ row) ∷ below) n some_cols rect fits =
    let here = map fresh (p ∷ row) in
    let split =
      lines-line (row_text (p ∷ row)) (grid_text below)
        (one_line-spaced (map piece_to_token (p ∷ row)) (tokens-IsWord (p ∷ row))) in
    let step = parse_line-row_text g p row (subst (Fits g) (sym rect.0) fits) in
    let rest =
      parse_lines-grid_text (g ++ here ∷ []) below n some_cols rect.1
        (Fits-append g here n fits (length-fresh (p ∷ row) ∙ rect.0)) in
    ap (λ ls. parse_lines ls true (of g)) split
    ∙ parse_lines-read_on (row_text (p ∷ row)) (lines (grid_text below)) true (of g) true
        (of (g ++ here ∷ [])) step
    ∙ rest
    ∙ ap (λ g'. (parsed, of g', [])) (append_assoc g (here ∷ []) (fresh_rows below))

-- The text of a board as the parser takes it, behind the line `Board:`.
abbrev pub board_section : Text → Text
board_section text = codes "Board:\n" ++ text

-- A rectangular board with columns is printed without an access off it, and the parser reads the
-- text behind the line `Board:` as the same board, its pieces as new ones: their types, colours and
-- squares are kept, their cooldowns and whether they have moved are forgotten.
pub parse_from_input-print :
    (b : Board)
    → IsRect b
    → 0 < cols b
    → Returns
        (λ text.
          parse_from_input (lines (board_section text))
          ≡ (parsed, record { grid = fresh_rows b.grid }, []))
        (print b)
unfolding parse_lines parse_line
parse_from_input-print b rect some_cols = record {
  out = grid_text b.grid;
  returns = print-grid_text b rect;
  holds = parse_lines-grid_text [] b.grid (cols b) some_cols rect tt;
}

-- ===== src/Io/BoardPrinter/Rows.antt =====
-- The text of a board, row by row.
use kong_fu_chess.Prelude.{
  ℕ, suc, ◌+◌, pos, All, List, [], ◌∷◌, ◌++◌, length, get_elem?, some, ok, ◌≡◌, refl, ap, ◌∙◌, sym,
  arith, map,
}
use kong_fu_chess.Model.Piece.{Piece}
use kong_fu_chess.Model.Position.{square}
use kong_fu_chess.Model.Board.{Board, rows, cols, cell}
use kong_fu_chess.Model.Board.Laws.{IsRect}
use kong_fu_chess.Io.Text.{Text}
use kong_fu_chess.Io.BoardPrinter.{piece_to_token, print_cols, print_rows, print}

-- Words, each behind a space.
abbrev pub behind : List Text → Text
behind [] = []
behind (t ∷ ts) = b' ' ∷ (t ++ behind ts)

abbrev pub spaced : List Text → Text
spaced [] = []
spaced (t ∷ ts) = t ++ behind ts

abbrev pub row_text : List Piece → Text
row_text row = spaced (map piece_to_token row)

abbrev pub grid_text : List (List Piece) → Text
grid_text [] = []
grid_text (row ∷ g) = row_text row ++ b'\n' ∷ grid_text g

-- A list read on from an index.
abbrev From {ℓ} : {A : Type ℓ} → List A → ℕ → List A → Type ℓ
From xs n rest = (i j : ℕ) → j ≡ n + i → get_elem? xs j ≡ get_elem? rest i

From-all {ℓ} : {A : Type ℓ} (xs : List A) → From xs 0 xs
From-all xs i j e = ap (get_elem? xs) (omega arith)

From-next {ℓ} :
    {A : Type ℓ} (xs : List A) (n : ℕ) (a : A) (rest : List A)
    → From xs n (a ∷ rest)
    → From xs (suc n) rest
From-next xs n a rest h i j e = h (suc i) j (omega arith)

module _ (b : Board) (r : ℕ) (line : List Piece) (at_row : get_elem? b.grid r ≡ some line) where
  cell_there :
      (c : ℕ) (p : Piece) (suf : List Piece)
      → From line c (p ∷ suf)
      → cell b (square (pos r) (pos c)) ≡ ok p
  unfolding cell
  cell_there c p suf h = rw (at_row, h 0 c (omega arith)) refl

  -- The columns behind some first ones, each with its space.
  print_cols-behind :
      (c : ℕ) (suf : List Piece)
      → From line (suc c) suf
      → print_cols b r (suc c) (length suf) ≡ ok (behind (map piece_to_token suf))
  unfolding print_cols
  print_cols-behind c [] h = refl
  print_cols-behind c (p ∷ suf) h =
      rw (cell_there (suc c) p suf h)
        (rw (print_cols-behind (suc c) suf (From-next line (suc c) p suf h)) refl)

  print_cols-first :
      (suf : List Piece) → From line 0 suf → print_cols b r 0 (length suf) ≡ ok (row_text suf)
  unfolding print_cols
  print_cols-first [] h = refl
  print_cols-first (p ∷ suf) h =
      rw (cell_there 0 p suf h) (rw (print_cols-behind 0 suf (From-next line 0 p suf h)) refl)

-- The rows from one on.
print_rows-grid_text :
    (b : Board) (r : ℕ) (below : List (List Piece))
    → From b.grid r below
    → All (λ row. length row ≡ cols b) below
    → print_rows b r (length below) ≡ ok (grid_text below)
unfolding print_rows
print_rows-grid_text b r [] h rect = refl
print_rows-grid_text b r (row ∷ below) h rect =
    let there : get_elem? b.grid r ≡ some row = h 0 r (omega arith) in
    let line : print_cols b r 0 (cols b) ≡ ok (row_text row) =
      ap (print_cols b r 0) (sym rect.0) ∙ print_cols-first b r row there row (From-all row) in
    rw line (rw (print_rows-grid_text b (suc r) below (From-next b.grid r row below h) rect.1) refl)

-- A rectangular board is printed row by row.
pub print-grid_text : (b : Board) → IsRect b → print b ≡ ok (grid_text b.grid)
unfolding print rows
print-grid_text b rect = print_rows-grid_text b 0 b.grid (From-all b.grid) rect

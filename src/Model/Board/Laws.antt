-- ===== src/Model/Board/Laws.antt =====
-- A rectangular board read and written by square: inside the bounds every access is defined.
use kong_fu_chess.Prelude.{
  ℕ, pos, pos_part, neg_part, ◌↔◌, ◌<◌, true, List, [], ◌∷◌, length, get_elem?, set, All,
  All-get_elem?, All-set, get_elem?_in, get_elem?-set_self, get_elem?-set_ne, length-set, some, ok,
  from_ok, or_range, ℕ_discrete, zero, suc, ◌⊎◌, ◌≡◌, ◌≢◌, refl, ap, arith, inl, inr, sym, ◌∙◌,
}
use kong_fu_chess.Model.Piece.{Piece, empty_piece}
use kong_fu_chess.Model.Position.{Position, square}
use kong_fu_chess.Model.Board.{Board, first_length, rows, cols, in_bounds, cell, put}

-- Every row is as long as the first.
abbrev pub IsRect : Board → Type 0
IsRect b = All (λ row. length row ≡ cols b) b.grid

-- The piece on a square, and the board with a square overwritten, where these are defined.
unfoldable pub piece_at : Board → Position → Piece
piece_at b p = from_ok empty_piece (cell b p)

unfoldable pub replace : Board → Position → Piece → Board
replace b p x = from_ok b (put b p x)

pub record SameShape (b b' : Board) : Type 0 where
  pub rows_eq : rows b' ≡ rows b
  pub cols_eq : cols b' ≡ cols b

pub SameShape-refl : (b : Board) → SameShape b b
SameShape-refl b = record { rows_eq = refl; cols_eq = refl }

pub SameShape-trans : {b c d : Board} → SameShape b c → SameShape c d → SameShape b d
SameShape-trans h k = record { rows_eq = k.rows_eq ∙ h.rows_eq; cols_eq = k.cols_eq ∙ h.cols_eq }

pub in_bounds-SameShape :
    {b b' : Board} → SameShape b b' → (p : Position) → in_bounds b' p ≡ in_bounds b p
unfolding in_bounds
in_bounds-SameShape h p = rw (h.rows_eq, h.cols_eq)

-- A square on the board, by its coordinates.
pub record Inside (b : Board) (p : Position) : Type 0 where
  pub r : ℕ
  pub c : ℕ
  pub is_square : p ≡ square (pos r) (pos c)
  pub row_lt : r < rows b
  pub col_lt : c < cols b

pub in_bounds-Inside : (b : Board) (p : Position) → in_bounds b p ≡ true → Inside b p
unfolding in_bounds
in_bounds-Inside b p h = record {
  r = pos_part p.row;
  c = pos_part p.col;
  is_square = ground arith;
  row_lt = ground arith;
  col_lt = ground arith;
}

-- The bounds as an order on the parts of the coordinates.
pub in_bounds_iff :
    (b : Board) (p : Position)
    → (in_bounds b p ≡ true) ↔ (
        (neg_part p.row ≡ 0)
        × (neg_part p.col ≡ 0)
        × (pos_part p.row < rows b)
        × (pos_part p.col < cols b))
unfolding in_bounds
in_bounds_iff b p = (ground arith, ground arith)

-- A row of the grid, with its length.
row_of :
    (b : Board) (r : ℕ)
    → IsRect b
    → r < rows b
    → (row : List Piece) × (get_elem? b.grid r ≡ some row) × (length row ≡ cols b)
unfolding rows
row_of b r h lt =
    let found = get_elem?_in b.grid r lt in
    (found.0, found.1, All-get_elem? (λ row. length row ≡ cols b) b.grid r h found.1)

first_length-set :
    (g : List (List Piece)) (r : ℕ) (line row : List Piece)
    → get_elem? g r ≡ some line
    → length row ≡ length line
    → first_length (set g r row) ≡ first_length g
first_length-set [] r line row e h = refl
first_length-set (x ∷ g) zero line row e h = ground arith
first_length-set (x ∷ g) (suc r) line row e h = refl

module _ (b : Board) (r c : ℕ) (rect : IsRect b) (hr : r < rows b) (hc : c < cols b) where
  line : (row : List Piece) × (get_elem? b.grid r ≡ some row) × (length row ≡ cols b)
  line = row_of b r rect hr

  entry : (x : Piece) × (get_elem? line.0 c ≡ some x)
  entry = get_elem?_in line.0 c (rw line.2 hc)

  cell-square : cell b (square (pos r) (pos c)) ≡ ok entry.0
  unfolding cell
  cell-square = rw (line.1, entry.1)

  -- What a write leaves.
  written : Piece → Board
  written x = record { grid = set b.grid r (set line.0 c x) }

  put-square : (x : Piece) → put b (square (pos r) (pos c)) x ≡ ok (written x)
  unfolding put written
  put-square x = rw (line.1, entry.1)

  cols-written : (x : Piece) → cols (written x) ≡ cols b
  unfolding cols written
  cols-written x = first_length-set b.grid r line.0 _ line.1 (length-set line.0 c x)

  rows-written : (x : Piece) → rows (written x) ≡ rows b
  unfolding rows written
  rows-written x = length-set b.grid r _

  written-IsRect : (x : Piece) → IsRect (written x)
  written-IsRect x =
      rw (cols-written x)
        (unfold written in All-set _ b.grid r rect (length-set line.0 c x ∙ line.2))

  cell-written_self : (x : Piece) → cell (written x) (square (pos r) (pos c)) ≡ ok x
  unfolding cell written
  cell-written_self x =
      rw (get_elem?-set_self b.grid r (set line.0 c x) (unfold rows in hr))
        (rw (get_elem?-set_self line.0 c x (rw line.2 hc)))

  cell-written_ne :
      (x : Piece) (r' c' : ℕ)
      → r' < rows b
      → c' < cols b
      → (r ≢ r') ⊎ (c ≢ c')
      → cell (written x) (square (pos r') (pos c')) ≡ cell b (square (pos r') (pos c'))
  unfolding cell written
  cell-written_ne x r' c' h k ne = elim (ℕ_discrete r r') [
    | no apart ↦ rw (get_elem?-set_ne b.grid (set line.0 c x) apart)
    | yes same ↦ rw (← same) (
        rw (get_elem?-set_self b.grid r (set line.0 c x) (unfold rows in hr)) (
          rw line.1 (
            ap or_range (
              get_elem?-set_ne line.0 x
                (elim ne [ inl far ↦ absurd (far same) | inr far ↦ far ])))))
  ]

squares_apart :
    (r c r' c' : ℕ) → square (pos r) (pos c) ≢ square (pos r') (pos c') → (r ≢ r') ⊎ (c ≢ c')
squares_apart r c r' c' ne = elim (ℕ_discrete r r') [
  | no far ↦ inl far
  | yes same ↦ inr (λ e. ne (cc))
]

module _ (b : Board) (p : Position) (rect : IsRect b) (inside : in_bounds b p ≡ true) where
  at_square : Inside b p
  at_square = in_bounds-Inside b p inside

  open at_square use {r, c, is_square, row_lt, col_lt}

  -- Inside the bounds of a rectangular board an access is defined.
  pub cell-in_bounds : cell b p ≡ ok (piece_at b p)
  unfolding piece_at
  cell-in_bounds = rw is_square (rw (cell-square b r c rect row_lt col_lt))

  put-eq-written : (x : Piece) → put b p x ≡ ok (written b r c rect row_lt col_lt x)
  put-eq-written x = ap (λ s. put b s x) is_square ∙ put-square b r c rect row_lt col_lt x

  replace-eq-written : (x : Piece) → replace b p x ≡ written b r c rect row_lt col_lt x
  unfolding replace
  replace-eq-written x = ap (from_ok b) (put-eq-written x)

  pub put-in_bounds : (x : Piece) → put b p x ≡ ok (replace b p x)
  put-in_bounds x = put-eq-written x ∙ ap ok (sym (replace-eq-written x))

  pub replace-SameShape : (x : Piece) → SameShape b (replace b p x)
  replace-SameShape x = rw (replace-eq-written x) (record {
    rows_eq = rows-written b r c rect row_lt col_lt x;
    cols_eq = cols-written b r c rect row_lt col_lt x;
  })

  pub replace-IsRect : (x : Piece) → IsRect (replace b p x)
  replace-IsRect x = rw (replace-eq-written x) (written-IsRect b r c rect row_lt col_lt x)

  -- A read after a write.
  pub piece_at-replace_self : (x : Piece) → piece_at (replace b p x) p ≡ x
  unfolding piece_at
  piece_at-replace_self x = rw (replace-eq-written x) (
      ap (from_ok empty_piece) (
        ap (cell (written b r c rect row_lt col_lt x)) is_square
        ∙ cell-written_self b r c rect row_lt col_lt x))

  pub piece_at-replace_ne :
      (x : Piece) (q : Position)
      → in_bounds b q ≡ true
      → p ≢ q
      → piece_at (replace b p x) q ≡ piece_at b q
  unfolding piece_at
  piece_at-replace_ne x q h ne =
      let i = in_bounds-Inside b q h in
      rw (replace-eq-written x) (
        rw i.is_square (
          ap (from_ok empty_piece) (
            cell-written_ne b r c rect row_lt col_lt x i.r i.c i.row_lt i.col_lt
              (squares_apart r c i.r i.c (λ e. ne (is_square ∙ e ∙ sym i.is_square))))))

-- ===== src/Model/Board/Outside.antt =====
-- An access off a rectangular board is undefined behaviour, whatever the square.
use kong_fu_chess.Prelude.{
  ℕ, ◌≤◌, ltb_ℤ, ℤ, pos, negsuc, true, false, Option-cases, List, length, get_elem?, get_elem?_out,
  All-get_elem?, none, some, err, out_of_range, ◌≡◌, refl, inl, inr, ◌⊎◌, arith,
}
use kong_fu_chess.Model.Piece.{Piece}
use kong_fu_chess.Model.Position.{Position, square}
use kong_fu_chess.Model.Board.{Board, rows, cols, in_bounds, cell}
use kong_fu_chess.Model.Board.Laws.{IsRect}

-- A coordinate pair that fails the bounds.
beyond :
    (b : Board) (r c : ℕ)
    → in_bounds b (square (pos r) (pos c)) ≡ false
    → (rows b ≤ r) ⊎ (cols b ≤ c)
unfolding in_bounds
beyond b r c h = ground arith

beyond_column :
    (b : Board) (r c : ℕ) (row : List Piece)
    → IsRect b
    → cols b ≤ c
    → get_elem? b.grid r ≡ some row
    → get_elem? row c ≡ none
beyond_column b r c row rect h e =
    get_elem?_out row c
      (omega (arith, All-get_elem? (λ line. length line ≡ cols b) b.grid r rect e))

cell_beyond :
    (b : Board) (r c : ℕ)
    → IsRect b
    → (rows b ≤ r) ⊎ (cols b ≤ c)
    → cell b (square (pos r) (pos c)) ≡ err out_of_range
unfolding cell
cell_beyond b r c rect (inl h) = rw (get_elem?_out b.grid r (unfold rows in h))
cell_beyond b r c rect (inr h) = elim (Option-cases (get_elem? b.grid r)) [
  | inl missing ↦ rw missing
  | inr (row, found) ↦ rw (found, beyond_column b r c row rect h found)
]

cell_off_at :
    (b : Board) (r c : ℤ)
    → IsRect b
    → in_bounds b (square r c) ≡ false
    → cell b (square r c) ≡ err out_of_range
cell_off_at b (pos r) (pos c) rect off = cell_beyond b r c rect (beyond b r c off)
cell_off_at b (pos r) (negsuc c) rect off =
    unfold cell in
    elim (Option-cases (get_elem? b.grid r)) [
      | inl missing ↦ rw missing
      | inr (row, found) ↦ rw found
    ]
cell_off_at b (negsuc r) c rect off = unfold cell in refl

pub cell_off :
    (b : Board) (p : Position) → IsRect b → in_bounds b p ≡ false → cell b p ≡ err out_of_range
cell_off b p = cell_off_at b p.row p.col

-- A square of the board has no negative row.
pub in_bounds-row : (b : Board) (p : Position) → in_bounds b p ≡ true → ltb_ℤ p.row (pos 0) ≡ false
unfolding in_bounds
in_bounds-row b p h = ground arith

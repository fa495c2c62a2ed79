-- ===== src/Input/BoardMapper.antt =====
-- src/input/board_mapper.cpp.
use kong_fu_chess.Prelude.{
  ℕ, ◌+◌, ◌*◌, ◌/◌, ◌≤◌, ◌<◌, ℤ, pos, negsuc, pos_part, ◌-ℤ◌, ltb_ℤ, ◌||◌, if◌then◌else◌, ◌≡◌, ◌↔◌,
  arith,
}
use kong_fu_chess.Model.Position.{Position, no_position, square}

abbrev pub click_cell_size : ℕ
click_cell_size = 100

abbrev pub board_origin_x : ℕ
board_origin_x = 11

abbrev pub board_origin_y : ℕ
board_origin_y = 14

unfoldable pub cell_index : ℤ → ℕ → ℤ
cell_index pixel origin =
    let adjusted = pixel -ℤ pos origin in
    if ltb_ℤ adjusted (pos 0) then negsuc 0 else pos (pos_part adjusted / click_cell_size)

unfoldable pub to_position : ℤ → ℤ → Position
to_position x y =
    if ltb_ℤ x (pos 0) || ltb_ℤ y (pos 0)
    then no_position
    else (let row = cell_index y board_origin_y in
        let col = cell_index x board_origin_x in
        if ltb_ℤ row (pos 0) || ltb_ℤ col (pos 0) then no_position else square row col)

-- The pixel lies in the cell of the index, counted from the origin.
abbrev pub InCell : ℕ → ℕ → ℕ → Type 0
InCell pixel origin index =
    (origin + index * click_cell_size ≤ pixel) × (pixel < origin + (index + 1) * click_cell_size)

cell_index_lem :
    (pixel origin index : ℕ) → InCell pixel origin index → cell_index (pos pixel) origin ≡ pos index
unfolding cell_index ◌-ℤ◌
cell_index_lem pixel origin index h = ground arith

cell_index_cases :
    (pixel origin index : ℕ) → cell_index (pos pixel) origin ≡ pos index → InCell pixel origin index
unfolding cell_index ◌-ℤ◌
cell_index_cases pixel origin index e = ground arith

to_position-square :
    (x y row col : ℕ)
    → to_position (pos x) (pos y) ≡ square (pos row) (pos col)
    → (cell_index (pos x) board_origin_x ≡ pos col) × (cell_index (pos y) board_origin_y ≡ pos row)
unfolding to_position
to_position-square x y row col e = ground arith

-- A pixel of the window is mapped to the square in whose drawn cell it lies, and to no other.
pub to_position_iff :
    (x y row col : ℕ)
    → (to_position (pos x) (pos y) ≡ square (pos row) (pos col))
      ↔ (InCell x board_origin_x col × InCell y board_origin_y row)
unfolding to_position
to_position_iff x y row col = (
  λ e.
      let f = to_position-square x y row col e in
      (cell_index_cases x board_origin_x col f.0, cell_index_cases y board_origin_y row f.1),
  λ h.
      rw (cell_index_lem x board_origin_x col h.0, cell_index_lem y board_origin_y row h.1)
        (ground arith),
)

-- ===== src/Rules/Helpers.antt =====
-- src/rules/movement/movement_helpers.cpp: the squares that a sliding piece passes.
use kong_fu_chess.Prelude.{
  ℕ, zero, suc, max, ℤ, pos, negsuc, ◌+ℤ◌, ◌-ℤ◌, ◌-◌, ◌==ℤ◌, ltb_ℤ, abs, ◌==◌, Bool, true, false,
  not, ◌&&◌, ◌||◌, Result, ok, err, out_of_fuel, ◌>>=◌, if◌then◌else◌,
}
use kong_fu_chess.Model.Piece.{is_empty}
use kong_fu_chess.Model.Position.{Position, square}
use kong_fu_chess.Model.Board.{Board, cell}

unfoldable pub sign : ℤ → ℤ
sign delta = if ltb_ℤ (pos 0) delta then pos 1 else if ltb_ℤ delta (pos 0) then negsuc 0 else pos 0

-- `std::max(std::abs(dr), std::abs(dc))`.
abbrev pub distance : Position → Position → ℕ
distance from to = max (abs (to.row -ℤ from.row)) (abs (to.col -ℤ from.col))

-- The loop of `isPathClear` at row `r` and column `c`.
unfoldable pub path_loop : ℕ → Board → ℤ → ℤ → Position → ℤ → ℤ → Result Bool
path_loop zero board step_r step_c to r c =
    if (r ==ℤ to.row) && (c ==ℤ to.col) then ok true else err out_of_fuel
path_loop (suc fuel) board step_r step_c to r c =
    let rest = path_loop fuel board step_r step_c to (r +ℤ step_r) (c +ℤ step_c) in
    if (r ==ℤ to.row) && (c ==ℤ to.col)
    then ok true
    else (cell board (square r c) >>= λ piece. if is_empty piece then rest else ok false)

-- The squares strictly between are one fewer than the steps, so as many rounds are enough.
unfoldable pub is_path_clear : Board → Position → Position → Result Bool
is_path_clear board from to =
    let step_r = sign (to.row -ℤ from.row) in
    let step_c = sign (to.col -ℤ from.col) in
    path_loop (distance from to - 1) board step_r step_c to (from.row +ℤ step_r)
      (from.col +ℤ step_c)

abbrev pub is_straight_move : Position → Position → Bool
is_straight_move from to = (from.row ==ℤ to.row) || (from.col ==ℤ to.col)

abbrev pub is_diagonal_move : Position → Position → Bool
is_diagonal_move from to =
    let dr = to.row -ℤ from.row in
    let dc = to.col -ℤ from.col in (abs dr == abs dc) && not (dr ==ℤ pos 0)

unfoldable pub can_slide_straight : Board → Position → Position → Result Bool
unfolding is_path_clear
can_slide_straight board from to =
    if is_straight_move from to then is_path_clear board from to else ok false

unfoldable pub can_slide_diagonal : Board → Position → Position → Result Bool
unfolding is_path_clear
can_slide_diagonal board from to =
    if is_diagonal_move from to then is_path_clear board from to else ok false

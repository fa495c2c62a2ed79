-- ===== src/Tests/Rules.antt =====
-- Moves on the small board.
use kong_fu_chess.Prelude.{◌-ℤ◌, arith, ◌↔◌, ◌≡◌, true, refl, Returns, Decides, inl, inr}
use kong_fu_chess.Model.Board.{in_bounds, rows, cols}
use kong_fu_chess.Model.Board.Laws.{piece_at}
use kong_fu_chess.Rules.{can_move, validate_move}
use kong_fu_chess.Rules.Helpers.{is_path_clear}
use kong_fu_chess.Rules.Path.{ClearFrom, Aligned, is_path_clear-Returns}
use kong_fu_chess.Rules.Legal.{IsLegal, can_move-Decides, validate_move-Decides}
use kong_fu_chess.Tests.Boards.{on, small, small-IsRect}

can_move-Decides_example :
    Decides (IsLegal small (on 2 0) (on 0 0)) (can_move small (on 2 0) (on 0 0))
can_move-Decides_example = can_move-Decides small (on 2 0) (on 0 0) small-IsRect

validate_move-Decides_example :
    Decides
      (IsLegal small (on 1 2) (on 0 2) × ((piece_at small (on 1 2)).move_cooldown_remaining_ms ≡ 0))
      (validate_move small (on 1 2) (on 0 2))
validate_move-Decides_example = validate_move-Decides small (on 1 2) (on 0 2) small-IsRect

rook_line : Aligned (on 2 0) (on 0 0)
unfolding ◌-ℤ◌
rook_line = record { apart = omega arith; by_row = inr refl; by_col = inl refl }

is_path_clear-Returns_example :
    Returns
      (λ clear. (clear ≡ true) ↔ ClearFrom small (on 2 0) (on 0 0) 1)
      (is_path_clear small (on 2 0) (on 0 0))
unfolding in_bounds rows cols
is_path_clear-Returns_example =
    is_path_clear-Returns (on 2 0) (on 0 0) rook_line small small-IsRect refl refl

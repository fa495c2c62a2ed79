-- ===== src/Tests/Input.antt =====
-- Clicks on the window.
use kong_fu_chess.Prelude.{
  pos, ◌≡◌, ◌↔◌, ◌-ℤ◌, refl, Returns, true, false, some, none, inr, err, out_of_range,
}
use kong_fu_chess.Model.Piece.{white}
use kong_fu_chess.Model.Board.{in_bounds, rows, cols}
use kong_fu_chess.Input.BoardMapper.{
  to_position, cell_index, InCell, board_origin_x, board_origin_y, to_position_iff,
}
use kong_fu_chess.Input.Controller.{Play, handle_click, handle_jump}
use kong_fu_chess.Input.Controller.Safety.{IsPlayable, Handles}
use kong_fu_chess.Input.Controller.Handlers.{
  handle_click-Handles, handle_jump-Handles, handle_jump_off,
}
use kong_fu_chess.App.Dispatch.{remote_controller, remote_move-IsMoveSafe, remote_jump-IsJumpSafe}
use kong_fu_chess.Tests.Boards.{on, small-IsRect, engine, engine-IsValid}

-- A player of a match, not the host, all of whose requests are sent.
abbrev play : Play
play = record {
  controller = record (remote_controller (λ _ _. true) (λ _. true) false) {
    selected_square = on 2 0;
  };
  engine = engine;
}

play-IsPlayable : IsPlayable play
unfolding in_bounds rows cols
play-IsPlayable = record {
  moves = remote_move-IsMoveSafe (λ _ _. true) false;
  jumps = remote_jump-IsJumpSafe (λ _. true) false;
  valid = engine-IsValid;
  selects = inr refl;
}

to_position_iff_example :
    (to_position (pos 250) (pos 30) ≡ on 0 2)
    ↔ (InCell 250 board_origin_x 2 × InCell 30 board_origin_y 0)
to_position_iff_example = to_position_iff 250 30 0 2

handle_click-Handles_example :
    Returns (Handles play) (handle_click play (pos 250) (pos 30) (some white))
handle_click-Handles_example =
    handle_click-Handles play (pos 250) (pos 30) (some white) play-IsPlayable

handle_jump-Handles_example :
    Returns (Handles play) (handle_jump play (pos 50) (pos 230) (some white))
unfolding to_position cell_index in_bounds rows cols ◌-ℤ◌
handle_jump-Handles_example =
    handle_jump-Handles play (pos 50) (pos 230) (some white) play-IsPlayable (inr refl)

handle_jump_off_example : handle_jump play (pos 700) (pos 30) none ≡ err out_of_range
unfolding to_position cell_index in_bounds rows cols ◌-ℤ◌
handle_jump_off_example = handle_jump_off play (pos 700) (pos 30) none small-IsRect refl refl

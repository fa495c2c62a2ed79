-- ===== src/Tests/Boards.antt =====
-- A small position: the white king next to a black rook that jumps, and a white rook behind.
use kong_fu_chess.Prelude.{
  ℕ, pos, All, List, [], ◌∷◌, true, false, some, ◌≡◌, ◌≢◌, refl, arith, refuted,
}
use kong_fu_chess.Model.Piece.{
  white, black, color_eq, color_eq_iff, king, rook, empty_piece, new_piece,
}
use kong_fu_chess.Model.Position.{Position, square, no_position, position_eq, position_eq_iff}
use kong_fu_chess.Model.Board.{Board, cols, rows, in_bounds, cell}
use kong_fu_chess.Model.Board.Laws.{IsRect, piece_at}
use kong_fu_chess.Realtime.Motion.{Motion, move, jump}
use kong_fu_chess.Realtime.Arbiter.{start_tick}
use kong_fu_chess.Realtime.Arbiter.Advance.{Travels, IsPlaced}
use kong_fu_chess.Realtime.Arrival.Effects.{Meets}
use kong_fu_chess.Engine.GameEngine.{GameEngine, new_engine}
use kong_fu_chess.Engine.Invariant.{IsValid}

abbrev pub on : ℕ → ℕ → Position
on row col = square (pos row) (pos col)

abbrev pub small : Board
small = record {
  grid =
      (new_piece king black ∷ empty_piece ∷ new_piece rook black ∷ [])
      ∷ (empty_piece ∷ empty_piece ∷ new_piece king white ∷ [])
      ∷ (new_piece rook white ∷ empty_piece ∷ empty_piece ∷ [])
      ∷ [];
}

pub small-IsRect : IsRect small
unfolding cols
small-IsRect = (refl, (refl, (refl, tt)))

abbrev pub king_step : Motion
king_step = record {
  motion_id = 1;
  source = on 1 2;
  destination = on 0 2;
  type = move;
  started_at_ms = 0;
  duration_ms = 1000;
  piece_type = king;
  piece_color = white;
}

abbrev pub rook_jump : Motion
rook_jump = record {
  motion_id = 0;
  source = on 0 2;
  destination = no_position;
  type = jump;
  started_at_ms = 0;
  duration_ms = 2000;
  piece_type = rook;
  piece_color = black;
}

abbrev pub in_the_air : List Motion
in_the_air = rook_jump ∷ king_step ∷ []

abbrev pub engine : GameEngine
engine = record (new_engine small) {
  arbiter = record { active_motions = in_the_air; elapsed_ms = 0 };
  next_motion_id = 2;
}

pub apart : (p q : Position) → position_eq p q ≡ false → p ≢ q
apart p q e = refuted (position_eq p q) (position_eq_iff p q) e

pub king_step-Travels : Travels small king_step
unfolding in_bounds rows cols
king_step-Travels = (refl, refl, apart (on 1 2) (on 0 2) refl)

pub in_the_air-IsPlaced : All (IsPlaced small) in_the_air
in_the_air-IsPlaced = (λ e. cc, (λ e. king_step-Travels, tt))

pub engine-IsValid : IsValid engine
engine-IsValid = record {
  rect = small-IsRect;
  placed = in_the_air-IsPlaced;
  fresh = (omega arith, (omega arith, tt));
  lone = ((apart (on 0 2) (on 1 2) refl, tt), (tt, tt));
}

pub king_step-Meets : Meets in_the_air king_step (start_tick small)
unfolding piece_at cell
king_step-Meets = (refl, refl, refuted (color_eq black white) (color_eq_iff black white) refl)

-- The game that black has won.
abbrev pub ended_engine : GameEngine
ended_engine = record engine { is_game_over = true; winner = some black }

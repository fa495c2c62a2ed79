-- ===== src/Realtime/Arbiter.antt =====
-- `RealTimeArbiter` of src/realtime/real_time_arbiter.cpp.
pub mod Cooldown
pub mod Landing
pub mod Advance
pub mod Order
use kong_fu_chess.Prelude.{
  ℕ, zero, suc, ◌+◌, ltb, ◌==◌, pos, filter, Bool, true, false, not, ◌&&◌, List, [], ◌∷◌, ◌++◌,
  Result, ok, ◌>>=◌, if◌then◌else◌,
}
use kong_fu_chess.Model.Piece.{Piece, is_empty, set_jump_cooldown, decrease_cooldown}
use kong_fu_chess.Model.Position.{square}
use kong_fu_chess.Model.Board.{Board, rows, cols, in_bounds, cell, put}
use kong_fu_chess.Realtime.Motion.{MotionType, move, jump, Motion, is_expired_of}
use kong_fu_chess.Realtime.Resolution.{MoveResolution}
use kong_fu_chess.Realtime.Arrival.{Tick, resolve_move_arrival}

abbrev pub jump_cooldown_ms : ℕ
jump_cooldown_ms = 2000

-- The inner loop of `decreaseAllCooldowns`, with `left` columns to go.
unfoldable pub cool_cols : ℕ → ℕ → ℕ → ℕ → Board → Result Board
cool_cols ms row zero col board = ok board
cool_cols ms row (suc left) col board = do
  piece ← cell board (square (pos row) (pos col))
  cooled ← put board (square (pos row) (pos col)) (decrease_cooldown piece ms)
  cool_cols ms row left (col + 1) cooled

unfoldable pub cool_rows : ℕ → ℕ → ℕ → Board → Result Board
cool_rows ms zero row board = ok board
cool_rows ms (suc left) row board = do
  cooled ← cool_cols ms row (cols board) 0 board
  cool_rows ms left (row + 1) cooled

unfoldable pub decrease_all_cooldowns : Board → ℕ → Result Board
decrease_all_cooldowns board ms = cool_rows ms (rows board) 0 board

unfoldable pub motion_less : Motion → Motion → Bool
motion_less a b =
    if not (a.started_at_ms == b.started_at_ms)
    then ltb a.started_at_ms b.started_at_ms
    else ltb a.motion_id b.motion_id

-- `std::sort` by `motionLess`, as insertion: a motion goes before the first one that is not less.
-- Motions have distinct identifiers, so the sorted order is the only one.
unfoldable pub insert_motion : Motion → List Motion → List Motion
insert_motion m [] = m ∷ []
insert_motion m (n ∷ ns) = if motion_less n m then n ∷ insert_motion m ns else m ∷ n ∷ ns

unfoldable pub sort_motions : List Motion → List Motion
sort_motions [] = []
sort_motions (m ∷ ms) = insert_motion m (sort_motions ms)

unfoldable pub resolve_all : List Motion → List Motion → Tick → Result Tick
resolve_all active [] s = ok s
resolve_all active (m ∷ ms) s = resolve_move_arrival active m s >>= resolve_all active ms

abbrev pub remove_expired_motions : List Motion → MotionType → ℕ → List Motion
remove_expired_motions motions t now = filter (λ m. not (is_expired_of t now m)) motions

-- One round of the loop over the landing jumps.
unfoldable pub land_jump : ℕ → Motion → Board → Result Board
land_jump now m board =
    if not (is_expired_of jump now m)
    then ok board
    else if not (in_bounds board m.source)
    then ok board
    else (cell board m.source >>= λ piece.
        if is_empty piece
        then ok board
        else put board m.source (set_jump_cooldown piece jump_cooldown_ms))

unfoldable pub land_jumps : ℕ → List Motion → Board → Result Board
land_jumps now [] board = ok board
land_jumps now (m ∷ ms) board = land_jump now m board >>= land_jumps now ms

pub record Arbiter : Type 0 where
  pub active_motions : List Motion
  pub elapsed_ms : ℕ

abbrev pub new_arbiter : Arbiter
new_arbiter = record { active_motions = []; elapsed_ms = 0 }

abbrev pub add_motion : Arbiter → Motion → Arbiter
add_motion a m = record a { active_motions = a.active_motions ++ m ∷ [] }

-- The arbiter, the board and the returned resolutions.
pub record Advanced : Type 0 where
  pub arbiter : Arbiter
  pub board : Board
  pub resolutions : List MoveResolution

abbrev pub completing_moves : List Motion → ℕ → List Motion
completing_moves motions now = filter (is_expired_of move now) motions

-- The state in which the first move arrives.
abbrev pub start_tick : Board → Tick
start_tick board = record { board = board; arrived = []; resolutions = [] }

-- What is left to do once the moves have arrived.
unfoldable pub finish_tick : ℕ → List Motion → Tick → Result Advanced
finish_tick now motions s = do
  board ← land_jumps now motions s.board
  ok (record {
    arbiter = record { active_motions = remove_expired_motions motions jump now; elapsed_ms = now };
    board = board;
    resolutions = s.resolutions;
  })

unfoldable pub advance_cooled : ℕ → List Motion → List Motion → Board → Result Advanced
advance_cooled now active [] board = finish_tick now active (start_tick board)
advance_cooled now active (m ∷ ms) board = do
  s ← resolve_all active (sort_motions (m ∷ ms)) (start_tick board)
  finish_tick now (remove_expired_motions active move now) s

unfoldable pub advance_time : Arbiter → ℕ → Board → Result Advanced
advance_time a ms board = do
  cooled ← decrease_all_cooldowns board ms
  let now = a.elapsed_ms + ms
  advance_cooled now a.active_motions (completing_moves a.active_motions now) cooled

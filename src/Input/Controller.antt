-- ===== src/Input/Controller.antt =====
-- src/input/controller.h and controller.cpp. A dispatch function has a reference to the engine and
-- may change it: it takes the engine and gives the new one with its answer. `sent` lists the calls
-- that were made of the dispatch functions.
pub mod Safety
pub mod Handlers
use kong_fu_chess.Prelude.{
  ℕ, ℤ, pos, ltb_ℤ, Bool, true, false, not, ◌&&◌, ◌||◌, Option, none, some, List, [], ◌∷◌, ◌++◌,
  Result, ok, ◌>>=◌, if◌then◌else◌,
}
use kong_fu_chess.Model.Piece.{Color, color_eq, Piece, is_empty}
use kong_fu_chess.Model.Position.{Position, no_position}
use kong_fu_chess.Model.Board.{in_bounds, cell}
use kong_fu_chess.Rules.{validate_move}
use kong_fu_chess.Engine.GameEngine
use kong_fu_chess.Engine.GameEngine.{
  GameEngine, is_busy_at, is_active_move_start_tick, get_active_move_destination, queue_premove,
}
use kong_fu_chess.Input.BoardMapper.{to_position}

pub data Dispatched : Type 0 where
  move_sent : Position → Position → Dispatched
  jump_sent : Position → Dispatched

-- `MoveDispatch` and `JumpDispatch`, `none` for an empty function.
abbrev pub MoveDispatch : Type 0
MoveDispatch = Option (GameEngine → Position → Position → Result (GameEngine × Bool))

abbrev pub JumpDispatch : Type 0
JumpDispatch = Option (GameEngine → Position → Result (GameEngine × Bool))

pub record Controller : Type 0 where
  pub move_dispatch : MoveDispatch
  pub jump_dispatch : JumpDispatch
  pub selected_square : Position
  pub sent : List Dispatched

-- The controller and the engine that a handler is given and leaves.
pub record Play : Type 0 where
  pub controller : Controller
  pub engine : GameEngine

abbrev pub new_controller : Controller
new_controller = record {
  move_dispatch = none;
  jump_dispatch = none;
  selected_square = no_position;
  sent = [];
}

abbrev pub set_dispatch : Controller → MoveDispatch → JumpDispatch → Controller
set_dispatch c move_dispatch jump_dispatch = record c {
  move_dispatch = move_dispatch;
  jump_dispatch = jump_dispatch;
}

abbrev pub has_selection : Controller → Bool
has_selection c = not (ltb_ℤ c.selected_square.row (pos 0))

abbrev pub select : Play → Position → Play
select s p = record s { controller = record (s.controller) { selected_square = p } }

abbrev pub clear_selection : Play → Play
clear_selection s = select s no_position

abbrev pub can_control_piece : Piece → Option Color → Bool
can_control_piece piece none = true
can_control_piece piece (some color) = not (is_empty piece) && color_eq piece.color color

abbrev pub record_sent : Play → Dispatched → Play
record_sent s d = record s {
  controller = record (s.controller) { sent = s.controller.sent ++ d ∷ [] };
}

unfoldable pub dispatch_move : MoveDispatch → Play → Position → Position → Result (Play × Bool)
dispatch_move (some dispatch) s from to = do
  r ← dispatch s.engine from to
  ok (record (record_sent s (move_sent from to)) { engine = r.0 }, r.1)
dispatch_move none s from to = do
  r ← GameEngine.request_move s.engine from to
  ok (record s { engine = r.0 }, r.1)

unfoldable pub request_move : Play → Position → Position → Result (Play × Bool)
unfolding dispatch_move
request_move s from to = dispatch_move s.controller.move_dispatch s from to

unfoldable pub dispatch_jump : JumpDispatch → Play → Position → Result (Play × Bool)
dispatch_jump (some dispatch) s p = do
  r ← dispatch s.engine p
  ok (record (record_sent s (jump_sent p)) { engine = r.0 }, r.1)
dispatch_jump none s p = do
  r ← GameEngine.request_jump s.engine p
  ok (record s { engine = r.0 }, r.1)

unfoldable pub request_jump : Play → Position → Result (Play × Bool)
unfolding dispatch_jump
request_jump s p = dispatch_jump s.controller.jump_dispatch s p

abbrev pub with_premove : Play → Position → Option Position → Play
with_premove s clicked none = s
with_premove s clicked (some destination) = record s {
  engine = queue_premove s.engine s.controller.selected_square destination clicked;
}

-- The selected piece is under way.
unfoldable pub click_while_busy : Play → Position → Play
click_while_busy s clicked =
    let selected = s.controller.selected_square in
    clear_selection (
      if is_active_move_start_tick s.engine selected
      then with_premove s clicked (get_active_move_destination s.engine selected)
      else s)

-- The last two blocks of `handleClick`, given what `validateMove` says.
unfoldable pub click_move : Play → Position → Piece → Bool → Result Play
click_move s clicked clicked_piece valid =
    let selected = s.controller.selected_square in
    if is_empty clicked_piece
    then (if valid
        then (request_move s selected clicked >>= λ r. ok (clear_selection r.0))
        else ok (clear_selection s))
    else if not valid
    then ok s
    else (request_move s selected clicked >>= λ r. ok (if r.1 then clear_selection r.0 else r.0))

-- `handleClick` with a selection, whose piece is `selected_piece`.
unfoldable pub click_selected : Play → Position → Option Color → Piece → Piece → Result Play
click_selected s clicked player_color clicked_piece selected_piece =
    let selected = s.controller.selected_square in
    if not (can_control_piece selected_piece player_color)
    then ok (clear_selection s)
    else if not (is_empty clicked_piece) && color_eq clicked_piece.color selected_piece.color
    then (if not (can_control_piece clicked_piece player_color)
        then ok s
        else ok (select s clicked))
    else if is_busy_at s.engine selected
    then ok (click_while_busy s clicked)
    else (validate_move s.engine.board selected clicked >>= click_move s clicked clicked_piece)

-- `handleClick` on a square of the board, on which `clicked_piece` stands.
unfoldable pub click_square : Play → Position → Option Color → Piece → Result Play
click_square s clicked player_color clicked_piece =
    if not (has_selection s.controller)
    then ok (
        if is_empty clicked_piece || not (can_control_piece clicked_piece player_color)
        then s
        else select s clicked)
    else (cell s.engine.board s.controller.selected_square
        >>= click_selected s clicked player_color clicked_piece)

-- `handleClick` in a game that is not over.
unfoldable pub click_at : Play → Position → Option Color → Result Play
click_at s clicked player_color =
    if ltb_ℤ clicked.row (pos 0) || not (in_bounds s.engine.board clicked)
    then ok (if has_selection s.controller then clear_selection s else s)
    else (cell s.engine.board clicked >>= click_square s clicked player_color)

unfoldable pub handle_click : Play → ℤ → ℤ → Option Color → Result Play
handle_click s x y player_color =
    if s.engine.is_game_over then ok s else click_at s (to_position x y) player_color

unfoldable pub jump_from : Play → Position → Option Color → Piece → Result Play
jump_from s p player_color piece =
    if not (can_control_piece piece player_color)
    then ok s
    else (request_jump s p >>= λ r. ok (if r.1 then clear_selection r.0 else r.0))

unfoldable pub handle_jump : Play → ℤ → ℤ → Option Color → Result Play
handle_jump s x y player_color =
    let p = to_position x y in
    if ltb_ℤ p.row (pos 0) then ok s else (cell s.engine.board p >>= jump_from s p player_color)

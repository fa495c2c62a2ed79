-- ===== src/Network/Input.antt =====
-- src/network/network_input.h and network_input.cpp: commands of a remote player. The handler's
-- two references are the session and the engine that every function takes.
pub mod Ownership
pub mod Safety
use kong_fu_chess.Prelude.{
  ℕ, ltb_ℤ, pos, ◌||◌, Bool, true, false, not, Option, none, some, Result, ok, ◌>>=◌, if◌then◌else◌,
}
use kong_fu_chess.Model.Piece.{Color, color_eq, is_empty}
use kong_fu_chess.Model.Position.{Position}
use kong_fu_chess.Model.Board.{in_bounds, cell}
use kong_fu_chess.Io.Text.{Text}
use kong_fu_chess.Io.Algebraic.{algebraic_to_position}
use kong_fu_chess.Online.SessionManager.{SessionManager, AuthResult, authenticate, color_for}
use kong_fu_chess.Engine.GameEngine.{GameEngine, request_move, request_jump}

abbrev pub handle_login : SessionManager → ℕ → Text → SessionManager × AuthResult
handle_login s id username = authenticate s id username

-- `canControlSquare` behind the test that the connection has a colour.
unfoldable pub owns : GameEngine → Position → Option Color → Result Bool
owns e square none = ok false
owns e square (some color) =
    if not (in_bounds e.board square)
    then ok false
    else (cell e.board square >>= λ piece.
        ok (if is_empty piece then false else color_eq piece.color color))

abbrev pub can_control_square : SessionManager → GameEngine → ℕ → Position → Result Bool
can_control_square s e id square = owns e square (color_for s id)

-- A request that is made if the connection may make it.
abbrev pub guarded : GameEngine → Result (GameEngine × Bool) → Bool → Result (GameEngine × Bool)
guarded e request true = request
guarded e request false = ok (e, false)

unfoldable pub handle_move :
    SessionManager → GameEngine → ℕ → Position → Position → Result (GameEngine × Bool)
handle_move s e id from to = can_control_square s e id from >>= guarded e (request_move e from to)

unfoldable pub handle_jump : SessionManager → GameEngine → ℕ → Position → Result (GameEngine × Bool)
handle_jump s e id square = can_control_square s e id square >>= guarded e (request_jump e square)

-- The overloads that take squares as text.
unfoldable pub handle_move_text :
    SessionManager → GameEngine → ℕ → Text → Text → Result (GameEngine × Bool)
handle_move_text s e id from to =
    let from_pos = algebraic_to_position from in
    let to_pos = algebraic_to_position to in
    if ltb_ℤ from_pos.row (pos 0) || ltb_ℤ to_pos.row (pos 0)
    then ok (e, false)
    else handle_move s e id from_pos to_pos

unfoldable pub handle_jump_text :
    SessionManager → GameEngine → ℕ → Text → Result (GameEngine × Bool)
handle_jump_text s e id square =
    let square_pos = algebraic_to_position square in
    if ltb_ℤ square_pos.row (pos 0) then ok (e, false) else handle_jump s e id square_pos

-- ===== src/Network/Input/Safety.antt =====
-- A remote player's requests and the engine's invariant.
use kong_fu_chess.Prelude.{
  ℕ, pos, ltb_ℤ, ok, if◌then◌else◌, Bool, true, false, ◌||◌, Returns, Result, refl,
}
use kong_fu_chess.Model.Position.{Position}
use kong_fu_chess.Io.Text.{Text}
use kong_fu_chess.Io.Algebraic.{algebraic_to_position}
use kong_fu_chess.Online.SessionManager.{SessionManager}
use kong_fu_chess.Engine.GameEngine.{GameEngine, request_move, request_jump}
use kong_fu_chess.Engine.Invariant.{IsValid, Evolves, Evolves-refl}
use kong_fu_chess.Engine.Requests.{request_move-Evolves, request_jump-Evolves}
use kong_fu_chess.Network.Input.{handle_move, handle_jump, handle_move_text, handle_jump_text}
use kong_fu_chess.Network.Input.Ownership.{guarded-Returns}

module _ (s : SessionManager) (e : GameEngine) (id : ℕ) where
  -- A remote player's requests leave a valid engine, on a board of the same shape.
  handle_move-Evolves :
      (from to : Position) → IsValid e → Returns (λ r. Evolves e r.0) (handle_move s e id from to)
  unfolding handle_move
  handle_move-Evolves from to v =
      guarded-Returns s e id from (request_move e from to) (λ r. Evolves e r.0) v
        (λ c. request_move-Evolves e from to v) (λ foreign. Evolves-refl e v)

  handle_jump-Evolves :
      (square : Position) → IsValid e → Returns (λ r. Evolves e r.0) (handle_jump s e id square)
  unfolding handle_jump
  handle_jump-Evolves square v =
      guarded-Returns s e id square (request_jump e square) (λ r. Evolves e r.0) v
        (λ c. request_jump-Evolves e square v) (λ foreign. Evolves-refl e v)

  unreadable_or :
      (t : Bool) (m : Result (GameEngine × Bool))
      → IsValid e
      → Returns (λ r. Evolves e r.0) m
      → Returns (λ r. Evolves e r.0) (if t then ok (e, false) else m)
  unreadable_or true m v r = record { out = (e, false); returns = refl; holds = Evolves-refl e v }
  unreadable_or false m v r = r

  pub handle_move_text-Evolves :
      (from to : Text) → IsValid e → Returns (λ r. Evolves e r.0) (handle_move_text s e id from to)
  unfolding handle_move_text
  handle_move_text-Evolves from to v =
      let p = algebraic_to_position from in
      let q = algebraic_to_position to in
      unreadable_or (ltb_ℤ p.row (pos 0) || ltb_ℤ q.row (pos 0)) _ v (handle_move-Evolves p q v)

  pub handle_jump_text-Evolves :
      (square : Text) → IsValid e → Returns (λ r. Evolves e r.0) (handle_jump_text s e id square)
  unfolding handle_jump_text
  handle_jump_text-Evolves square v =
      let p = algebraic_to_position square in
      unreadable_or (ltb_ℤ p.row (pos 0)) _ v (handle_jump-Evolves p v)

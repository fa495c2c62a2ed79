-- ===== src/App/Dispatch.antt =====
-- src/app/application.cpp: the dispatch functions of a player of a match. The client is the library
-- side of the network: `send` is the answer of its `sendMove` or `sendJump`.
use kong_fu_chess.Prelude.{
  Bool, true, false, not, Bool-cases, some, Result, ok, ◌>>=◌, if◌then◌else◌, Returns, Returns-bind,
  refl, inl, inr,
}
use kong_fu_chess.Model.Position.{Position}
use kong_fu_chess.Engine.GameEngine.{GameEngine, request_move, request_jump}
use kong_fu_chess.Engine.Invariant.{IsValid, Evolves, Evolves-refl}
use kong_fu_chess.Engine.Requests.{request_move-Evolves, request_jump-Evolves}
use kong_fu_chess.Input.Controller.{Controller, set_dispatch, new_controller}
use kong_fu_chess.Input.Controller.Safety.{IsMoveSafe, IsJumpSafe}

-- Behind a request that has been sent: a client makes it of its own engine too, and does not use
-- the answer.
abbrev ask_engine : Bool → GameEngine → Result (GameEngine × Bool) → Result (GameEngine × Bool)
ask_engine true e request = ok (e, true)
ask_engine false e request = request >>= λ r. ok (r.0, true)

unfoldable pub remote_move :
    (Position → Position → Bool)
    → Bool
    → GameEngine
    → Position
    → Position
    → Result (GameEngine × Bool)
remote_move send is_server_host e from to =
    if not (send from to)
    then ok (e, false)
    else ask_engine is_server_host e (request_move e from to)

unfoldable pub remote_jump :
    (Position → Bool) → Bool → GameEngine → Position → Result (GameEngine × Bool)
remote_jump send is_server_host e square =
    if not (send square) then ok (e, false) else ask_engine is_server_host e (request_jump e square)

-- The controller of a match.
abbrev pub remote_controller : (Position → Position → Bool) → (Position → Bool) → Bool → Controller
remote_controller send_move send_jump is_server_host =
    set_dispatch new_controller (some (remote_move send_move is_server_host))
      (some (remote_jump send_jump is_server_host))

ask_engine-Evolves :
    (host : Bool) (e : GameEngine) (request : Result (GameEngine × Bool))
    → IsValid e
    → Returns (λ r. Evolves e r.0) request
    → Returns (λ r. Evolves e r.0) (ask_engine host e request)
ask_engine-Evolves true e request v h = record {
  out = (e, true);
  returns = refl;
  holds = Evolves-refl e v;
}
ask_engine-Evolves false e request v h =
    Returns-bind _ _ _ _ h (λ r k. record { out = (r.0, true); returns = refl; holds = k })

-- The dispatch functions keep every engine valid, whatever is sent, on the host and elsewhere.
pub remote_move-IsMoveSafe :
    (send : Position → Position → Bool) (host : Bool) → IsMoveSafe (some (remote_move send host))
unfolding remote_move
remote_move-IsMoveSafe send host e from to v = elim (Bool-cases (send from to)) [
  | inl sent ↦ rw sent (ask_engine-Evolves host e _ v (request_move-Evolves e from to v))
  | inr lost ↦ rw lost (record { out = (e, false); returns = refl; holds = Evolves-refl e v })
]

pub remote_jump-IsJumpSafe :
    (send : Position → Bool) (host : Bool) → IsJumpSafe (some (remote_jump send host))
unfolding remote_jump
remote_jump-IsJumpSafe send host e square v = elim (Bool-cases (send square)) [
  | inl sent ↦ rw sent (ask_engine-Evolves host e _ v (request_jump-Evolves e square v))
  | inr lost ↦ rw lost (record { out = (e, false); returns = refl; holds = Evolves-refl e v })
]

-- ===== src/Engine/History.antt =====
-- The calls that clients make of an engine, in any order.
use kong_fu_chess.Prelude.{
  ℕ, All, List, [], ◌∷◌, Result, ok, Returns, Returns-bind, Returns-weaken, ◌>>=◌, ◌≡◌, ◌∙◌, refl,
  Bool, true, false,
}
use kong_fu_chess.Model.Piece.{Color}
use kong_fu_chess.Model.Position.{Position}
use kong_fu_chess.Model.Board.{Board}
use kong_fu_chess.Model.Board.Laws.{IsRect, SameShape, SameShape-refl, SameShape-trans}
use kong_fu_chess.Engine.GameEngine.{
  GameEngine, new_engine, reset, apply_remote_game_ended, queue_premove, request_move, request_jump,
  advance,
}
use kong_fu_chess.Engine.Invariant.{IsValid, IsOver, Evolves}
use kong_fu_chess.Engine.Requests.{request_move-Evolves, request_jump-Evolves}
use kong_fu_chess.Engine.Safety.{advance-Evolves}

pub data Call : Type 0 where
  moves : Position → Position → Call
  jumps : Position → Call
  premoves : Position → Position → Position → Call
  ticks : ℕ → Call
  resets : Call
  remote_ends : Color → Call

-- A call, with the Boolean result of a request dropped.
unfoldable pub call : GameEngine → Call → Result GameEngine
call e (moves from to) = request_move e from to >>= λ r. ok r.0
call e (jumps p) = request_jump e p >>= λ r. ok r.0
call e (premoves key from to) = ok (queue_premove e key from to)
call e (ticks ms) = advance e ms
call e resets = ok (reset e)
call e (remote_ends winner) = ok (apply_remote_game_ended e winner)

unfoldable pub run : GameEngine → List Call → Result GameEngine
run e [] = ok e
run e (c ∷ cs) = call e c >>= λ e'. run e' cs

-- What survives every call, also those that restart or end the game.
pub record Remains (e e' : GameEngine) : Type 0 where
  pub shape : SameShape e.board e'.board
  pub valid : IsValid e'

Evolves-Remains : (e e' : GameEngine) → Evolves e e' → Remains e e'
Evolves-Remains e e' h = record { shape = h.shape; valid = h.valid }

call-Remains : (e : GameEngine) (c : Call) → IsValid e → Returns (Remains e) (call e c)
unfolding call
call-Remains e (moves from to) v =
    Returns-bind _ _ _ _ (request_move-Evolves e from to v)
      (λ r h. record { out = r.0; returns = refl; holds = Evolves-Remains e r.0 h })
call-Remains e (jumps p) v =
    Returns-bind _ _ _ _ (request_jump-Evolves e p v)
      (λ r h. record { out = r.0; returns = refl; holds = Evolves-Remains e r.0 h })
call-Remains e (premoves key from to) v = record {
  out = queue_premove e key from to;
  returns = refl;
  holds = record { shape = SameShape-refl e.board; valid = v };
}
call-Remains e (ticks ms) v =
    Returns-weaken _ _ _ (advance-Evolves e ms v) (λ e' h. Evolves-Remains e e' h)
call-Remains e resets v = record {
  out = reset e;
  returns = refl;
  holds = record {
    shape = SameShape-refl e.board;
    valid = record { rect = v.rect; placed = tt; fresh = tt; lone = tt };
  };
}
call-Remains e (remote_ends winner) v = record {
  out = apply_remote_game_ended e winner;
  returns = refl;
  holds = record { shape = SameShape-refl e.board; valid = v };
}

run-Remains : (e : GameEngine) (cs : List Call) → IsValid e → Returns (Remains e) (run e cs)
unfolding run
run-Remains e [] v = record {
  out = e;
  returns = refl;
  holds = record { shape = SameShape-refl e.board; valid = v };
}
run-Remains e (c ∷ cs) v = Returns-bind _ _ _ _ (call-Remains e c v) λ e' h.
    Returns-weaken _ _ _ (run-Remains e' cs h.valid)
      (λ e'' k. record { shape = SameShape-trans h.shape k.shape; valid = k.valid })

-- A game on any rectangular board survives every history of calls, with any squares and times as
-- arguments: no call reads or writes off the board, and the engine stays valid on a board of the
-- same size.
pub run-new_engine :
    (b : Board) (cs : List Call)
    → IsRect b
    → Returns (Remains (new_engine b)) (run (new_engine b) cs)
run-new_engine b cs rect =
    run-Remains (new_engine b) cs (record { rect = rect; placed = tt; fresh = tt; lone = tt })

-- A call of a local client: all but the reset and the end that a server announces.
abbrev pub is_play : Call → Bool
is_play resets = false
is_play (remote_ends c) = false
is_play _ = true

play-IsOver :
    (e : GameEngine) (c : Call)
    → IsValid e
    → is_play c ≡ true
    → e.is_game_over ≡ true
    → Returns (λ e'. Evolves e e' × IsOver e e') (call e c)
unfolding call
play-IsOver e (moves from to) v p over =
    Returns-bind _ _ _ _ (request_move-Evolves e from to v)
      (λ r h. record { out = r.0; returns = refl; holds = (h, h.final over) })
play-IsOver e (jumps p') v p over =
    Returns-bind _ _ _ _ (request_jump-Evolves e p' v)
      (λ r h. record { out = r.0; returns = refl; holds = (h, h.final over) })
play-IsOver e (premoves key from to) v p over = record {
  out = queue_premove e key from to;
  returns = refl;
  holds =
      (record { shape = SameShape-refl e.board; valid = v; final = λ o. (o, refl) }, (over, refl));
}
play-IsOver e (ticks ms) v p over =
    Returns-weaken _ _ _ (advance-Evolves e ms v) (λ e' h. (h, h.final over))
play-IsOver e resets v p over = cc
play-IsOver e (remote_ends c) v p over = cc

-- A game that is over stays over, with its winner, through every history of requests, premoves and
-- ticks.
pub run-IsOver :
    (e : GameEngine) (cs : List Call)
    → IsValid e
    → All (λ c. is_play c ≡ true) cs
    → e.is_game_over ≡ true
    → Returns (IsOver e) (run e cs)
unfolding run
run-IsOver e [] v p over = record { out = e; returns = refl; holds = (over, refl) }
run-IsOver e (c ∷ cs) v p over = Returns-bind _ _ _ _ (play-IsOver e c v p.0 over) λ e' h.
    Returns-weaken _ _ _ (run-IsOver e' cs h.0.valid p.1 h.1.0) (λ e'' k. (k.0, k.1 ∙ h.1.1))

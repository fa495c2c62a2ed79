-- ===== src/Input/Controller/Safety.antt =====
-- The handlers of the mouse, from a valid engine and a selection on its board.
use kong_fu_chess.Prelude.{
  pos, ltb_ℤ, Bool, true, false, none, some, Result, ok, Returns, Returns-bind, ◌>>=◌,
  if◌then◌else◌, ◌≡◌, ◌⊎◌, refl, ◌∙◌, inl, inr,
}
use kong_fu_chess.Model.Position.{Position}
use kong_fu_chess.Model.Board.{Board, in_bounds}
use kong_fu_chess.Model.Board.Laws.{SameShape, in_bounds-SameShape}
use kong_fu_chess.Engine.GameEngine.{GameEngine}
use kong_fu_chess.Engine.Invariant.{IsValid, Evolves, Evolves-refl}
use kong_fu_chess.Engine.Requests.{request_move-Evolves, request_jump-Evolves}
use kong_fu_chess.Input.Controller.{
  MoveDispatch, JumpDispatch, Play, move_sent, jump_sent, record_sent, dispatch_move, dispatch_jump,
  clear_selection, request_move, request_jump,
}

-- The selected square, if there is one, is on the board.
abbrev pub Selects : Board → Position → Type 0
Selects b p = (ltb_ℤ p.row (pos 0) ≡ true) ⊎ (in_bounds b p ≡ true)

-- A dispatch function, if there is one, takes every valid engine to a valid one with a board of the
-- same size, and leaves a game that is over as it ended.
abbrev pub IsMoveSafe : MoveDispatch → Type 0
IsMoveSafe none = Unit {0}
IsMoveSafe (some dispatch) =
    (e : GameEngine) (from to : Position)
    → IsValid e
    → Returns (λ r. Evolves e r.0) (dispatch e from to)

abbrev pub IsJumpSafe : JumpDispatch → Type 0
IsJumpSafe none = Unit {0}
IsJumpSafe (some dispatch) =
    (e : GameEngine) (p : Position) → IsValid e → Returns (λ r. Evolves e r.0) (dispatch e p)

pub record IsPlayable (s : Play) : Type 0 where
  pub moves : IsMoveSafe s.controller.move_dispatch
  pub jumps : IsJumpSafe s.controller.jump_dispatch
  pub valid : IsValid s.engine
  pub selects : Selects s.engine.board s.controller.selected_square

-- The dispatch functions are the same.
abbrev IsWired : Play → Play → Type 0
IsWired s s' =
    (s'.controller.move_dispatch ≡ s.controller.move_dispatch)
    × (s'.controller.jump_dispatch ≡ s.controller.jump_dispatch)

-- A handler leaves a playable state, and an engine that its requests may have changed.
pub record Handles (s s' : Play) : Type 0 where
  pub engine : Evolves s.engine s'.engine
  pub wired : IsWired s s'
  pub selects : Selects s'.engine.board s'.controller.selected_square

pub Handles-refl : (s : Play) → IsPlayable s → Handles s s
Handles-refl s p = record {
  engine = Evolves-refl s.engine p.valid;
  wired = (refl, refl);
  selects = p.selects;
}

pub Handles-clear : (s s' : Play) → Handles s s' → Handles s (clear_selection s')
Handles-clear s s' h = record { engine = h.engine; wired = h.wired; selects = inl refl }

-- So it is playable again.
pub Handles-IsPlayable : (s s' : Play) → IsPlayable s → Handles s s' → IsPlayable s'
Handles-IsPlayable s s' p h = record {
  moves = rw h.wired.0 p.moves;
  jumps = rw h.wired.1 p.jumps;
  valid = h.engine.valid;
  selects = h.selects;
}

Selects-SameShape : (b b' : Board) (p : Position) → SameShape b b' → Selects b p → Selects b' p
Selects-SameShape b b' p s (inl off) = inl off
Selects-SameShape b b' p s (inr on) = inr (in_bounds-SameShape s p ∙ on)

-- What a request leaves: its engine, and the selection as it was.
pub record Requests (s s' : Play) : Type 0 where
  pub engine : Evolves s.engine s'.engine
  pub wired : IsWired s s'
  pub kept : s'.controller.selected_square ≡ s.controller.selected_square

Requests-Handles : (s s' : Play) → IsPlayable s → Requests s s' → Handles s s'
Requests-Handles s s' p r = record {
  engine = r.engine;
  wired = r.wired;
  selects = rw r.kept (Selects-SameShape s.engine.board s'.engine.board _ r.engine.shape p.selects);
}

dispatch_move-Requests :
    (d : MoveDispatch) (s : Play) (from to : Position)
    → IsMoveSafe d
    → IsPlayable s
    → Returns (λ r. Requests s r.0) (dispatch_move d s from to)
unfolding dispatch_move
dispatch_move-Requests (some dispatch) s from to safe p =
    Returns-bind _ _ _ _ (safe s.engine from to p.valid) (λ r h. record {
      out = (record (record_sent s (move_sent from to)) { engine = r.0 }, r.1);
      returns = refl;
      holds = record { engine = h; wired = (refl, refl); kept = refl };
    })
dispatch_move-Requests none s from to safe p =
    Returns-bind _ _ _ _ (request_move-Evolves s.engine from to p.valid) (λ r h. record {
      out = (record s { engine = r.0 }, r.1);
      returns = refl;
      holds = record { engine = h; wired = (refl, refl); kept = refl };
    })

dispatch_jump-Requests :
    (d : JumpDispatch) (s : Play) (q : Position)
    → IsJumpSafe d
    → IsPlayable s
    → Returns (λ r. Requests s r.0) (dispatch_jump d s q)
unfolding dispatch_jump
dispatch_jump-Requests (some dispatch) s q safe p =
    Returns-bind _ _ _ _ (safe s.engine q p.valid) (λ r h. record {
      out = (record (record_sent s (jump_sent q)) { engine = r.0 }, r.1);
      returns = refl;
      holds = record { engine = h; wired = (refl, refl); kept = refl };
    })
dispatch_jump-Requests none s q safe p =
    Returns-bind _ _ _ _ (request_jump-Evolves s.engine q p.valid) (λ r h. record {
      out = (record s { engine = r.0 }, r.1);
      returns = refl;
      holds = record { engine = h; wired = (refl, refl); kept = refl };
    })

pub request_move-Requests :
    (s : Play) (from to : Position)
    → IsPlayable s
    → Returns (λ r. Requests s r.0) (request_move s from to)
unfolding request_move
request_move-Requests s from to p =
    dispatch_move-Requests s.controller.move_dispatch s from to p.moves p

pub request_jump-Requests :
    (s : Play) (q : Position) → IsPlayable s → Returns (λ r. Requests s r.0) (request_jump s q)
unfolding request_jump
request_jump-Requests s q p = dispatch_jump-Requests s.controller.jump_dispatch s q p.jumps p

-- A request, after which the selection is cleared if its answer says so.
pub after_request :
    (s : Play) (t : Bool → Bool) (m : Result (Play × Bool))
    → IsPlayable s
    → Returns (λ r. Requests s r.0) m
    → Returns (Handles s) (m >>= λ r. ok (if t r.1 then clear_selection r.0 else r.0))
after_request s t m p returned = Returns-bind _ _ _ _ returned λ r h. record {
  out = if t r.1 then clear_selection r.0 else r.0;
  returns = refl;
  holds = cleared (t r.1) r.0 (Requests-Handles s r.0 p h);
}
  where
    cleared :
        (b : Bool) (s' : Play) → Handles s s' → Handles s (if b then clear_selection s' else s')
    cleared true s' h = Handles-clear s s' h
    cleared false s' h = h

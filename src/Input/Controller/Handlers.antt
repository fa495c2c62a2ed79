-- ===== src/Input/Controller/Handlers.antt =====
-- `handleClick` and `handleJump`: where they are safe, and where the second one is not.
use kong_fu_chess.Prelude.{
  ℤ, pos, ltb_ℤ, Bool, true, false, not, ◌&&◌, ◌||◌, Bool-cases, Option, none, some, Result, ok,
  err, out_of_range, Returns, ◌>>=◌, if◌then◌else◌, ◌≡◌, refl, ap, ◌∙◌, inl, inr,
}
use kong_fu_chess.Model.Piece.{Color, Piece, is_empty, color_eq}
use kong_fu_chess.Model.Position.{Position}
use kong_fu_chess.Model.Board.{in_bounds}
use kong_fu_chess.Model.Board.Laws.{IsRect, piece_at, SameShape-refl, cell-in_bounds}
use kong_fu_chess.Model.Board.Outside.{cell_off, in_bounds-row}
use kong_fu_chess.Rules.Legal.{validate_move-Decides}
use kong_fu_chess.Engine.GameEngine.{
  is_busy_at, is_active_move_start_tick, get_active_move_destination,
}
use kong_fu_chess.Engine.Invariant.{Evolves-refl}
use kong_fu_chess.Input.BoardMapper.{to_position}
use kong_fu_chess.Input.Controller.{
  Play, has_selection, select, clear_selection, can_control_piece, with_premove, request_move,
  click_while_busy, click_move, click_selected, click_square, click_at, handle_click, jump_from,
  handle_jump,
}
use kong_fu_chess.Input.Controller.Safety.{
  Requests, Selects, IsPlayable, Handles, Handles-refl, Handles-clear, request_move-Requests,
  request_jump-Requests, after_request,
}

or_true : (t : Bool) → (t || true) ≡ true
or_true true = refl
or_true false = refl

done : (s s' : Play) (m : Result Play) → m ≡ ok s' → Handles s s' → Returns (Handles s) m
done s s' m e h = record { out = s'; returns = e; holds = h }

click_move-Handles :
    (s : Play) (q : Position) (piece : Piece) (valid : Bool)
    → IsPlayable s
    → Returns (Handles s) (click_move s q piece valid)
unfolding click_move
click_move-Handles s q piece valid p =
    let asked = request_move-Requests s s.controller.selected_square q p in
    elim (Bool-cases (is_empty piece)) [
      | inl free ↦ rw free (by_validity valid asked)
      | inr taken ↦ rw taken (strike valid asked)
    ]
  where
    by_validity :
        (v : Bool)
        → Returns (λ r. Requests s r.0) (request_move s s.controller.selected_square q)
        → Returns (Handles s) (
            if v
            then (request_move s s.controller.selected_square q >>= λ r. ok (clear_selection r.0))
            else ok (clear_selection s))
    by_validity true asked = after_request s (λ _. true) _ p asked
    by_validity false asked = done s _ _ refl (Handles-clear s s (Handles-refl s p))

    strike :
        (v : Bool)
        → Returns (λ r. Requests s r.0) (request_move s s.controller.selected_square q)
        → Returns (Handles s) (
            if not v
            then ok s
            else (request_move s s.controller.selected_square q >>= λ r.
                ok (if r.1 then clear_selection r.0 else r.0)))
    strike true asked = after_request s (λ b. b) _ p asked
    strike false asked = done s _ _ refl (Handles-refl s p)

with_premove-Handles :
    (s : Play) (q : Position) (d : Option Position) → IsPlayable s → Handles s (with_premove s q d)
with_premove-Handles s q none p = Handles-refl s p
with_premove-Handles s q (some d) p = record {
  engine = record {
    shape = SameShape-refl s.engine.board;
    valid = p.valid;
    final = λ over. (over, refl);
  };
  wired = (refl, refl);
  selects = p.selects;
}

click_while_busy-Handles :
    (s : Play) (q : Position) → IsPlayable s → Handles s (click_while_busy s q)
unfolding click_while_busy
click_while_busy-Handles s q p =
    elim (Bool-cases (is_active_move_start_tick s.engine s.controller.selected_square)) [
      | inl starting ↦ rw starting (
          Handles-clear s _ (
            with_premove-Handles s q
              (get_active_move_destination s.engine s.controller.selected_square) p))
      | inr later ↦ rw later (Handles-clear s s (Handles-refl s p))
    ]

click_selected-Handles :
    (s : Play) (q : Position) (color : Option Color) (piece selected : Piece)
    → IsPlayable s
    → in_bounds s.engine.board q ≡ true
    → Returns (Handles s) (click_selected s q color piece selected)
unfolding click_selected
click_selected-Handles s q color piece selected p on =
    elim (Bool-cases (can_control_piece selected color)) [
      | inr foreign ↦ done s _ _ (rw foreign) (Handles-clear s s (Handles-refl s p))
      | inl own ↦ elim (Bool-cases (not (is_empty piece) && color_eq piece.color selected.color)) [
        | inl friend ↦ elim (Bool-cases (can_control_piece piece color)) [
          | inr foreign ↦ done s s _ (rw (own, friend, foreign)) (Handles-refl s p)
          | inl mine ↦ done s (select s q) _ (rw (own, friend, mine)) (record {
            engine = Evolves-refl s.engine p.valid;
            wired = (refl, refl);
            selects = inr on;
          })
        ]
        | inr target ↦ elim (Bool-cases (is_busy_at s.engine s.controller.selected_square)) [
          | inl busy ↦
              done s (click_while_busy s q) _ (rw (own, target, busy))
                (click_while_busy-Handles s q p)
          | inr idle ↦
              let d =
                validate_move-Decides s.engine.board s.controller.selected_square q p.valid.rect in
              let m = click_move-Handles s q piece d.out p in
              done s m.out _ (rw (own, target, idle, d.returns) m.returns) m.holds
        ]
      ]
    ]

click_square-Handles :
    (s : Play) (q : Position) (color : Option Color) (piece : Piece)
    → IsPlayable s
    → in_bounds s.engine.board q ≡ true
    → Returns (Handles s) (click_square s q color piece)
unfolding click_square
click_square-Handles s q color piece p on = elim p.selects [
  | inl nothing ↦ elim (Bool-cases (is_empty piece || not (can_control_piece piece color))) [
    | inl ignored ↦ done s s _ (rw (nothing, ignored)) (Handles-refl s p)
    | inr taken ↦
        done s (select s q) _ (rw (nothing, taken)) (record {
          engine = Evolves-refl s.engine p.valid;
          wired = (refl, refl);
          selects = inr on;
        })
  ]
  | inr there ↦
      let selected = s.controller.selected_square in
      let c = click_selected-Handles s q color piece (piece_at s.engine.board selected) p on in
      done s c.out _
        (rw
          (
            in_bounds-row s.engine.board selected there,
            cell-in_bounds s.engine.board selected p.valid.rect there,
          )
          c.returns)
        c.holds
]

unselected-Handles :
    (s : Play)
    → IsPlayable s
    → Handles s (if has_selection s.controller then clear_selection s else s)
unselected-Handles s p = elim (Bool-cases (has_selection s.controller)) [
  | inl held ↦ rw held (Handles-clear s s (Handles-refl s p))
  | inr free ↦ rw free (Handles-refl s p)
]

click_at-Handles :
    (s : Play) (q : Position) (color : Option Color)
    → IsPlayable s
    → Returns (Handles s) (click_at s q color)
unfolding click_at
click_at-Handles s q color p = elim (Bool-cases (in_bounds s.engine.board q)) [
  | inr off ↦ done s _ _ (rw (off, or_true (ltb_ℤ q.row (pos 0)))) (unselected-Handles s p)
  | inl on ↦
      let c = click_square-Handles s q color (piece_at s.engine.board q) p on in
      done s c.out _
        (rw (in_bounds-row s.engine.board q on, on, cell-in_bounds s.engine.board q p.valid.rect on)
          c.returns)
        c.holds
]

-- From a valid engine, with a selection that is on its board or none, and dispatch functions, if
-- any, that keep valid engines valid, the size of their boards and the end of a game, a click on any
-- pixel, by either player or by both, reads no square off the board. The engine and the selection
-- are so again, and the dispatch functions are the same.
pub handle_click-Handles :
    (s : Play) (x y : ℤ) (color : Option Color)
    → IsPlayable s
    → Returns (Handles s) (handle_click s x y color)
unfolding handle_click
handle_click-Handles s x y color p =
    let c = click_at-Handles s (to_position x y) color p in
    elim (Bool-cases s.engine.is_game_over) [
      | inl over ↦
          done s s _ (ap (λ b. if b then ok s else click_at s (to_position x y) color) over)
            (Handles-refl s p)
      | inr playing ↦
          done s c.out _
            (ap (λ b. if b then ok s else click_at s (to_position x y) color) playing ∙ c.returns)
            c.holds
    ]

jump_from-Handles :
    (s : Play) (q : Position) (color : Option Color) (piece : Piece)
    → IsPlayable s
    → Returns (Handles s) (jump_from s q color piece)
unfolding jump_from
jump_from-Handles s q color piece p = elim (Bool-cases (can_control_piece piece color)) [
  | inr foreign ↦ done s s _ (rw foreign) (Handles-refl s p)
  | inl own ↦ rw own (after_request s (λ b. b) _ p (request_jump-Requests s q p))
]

-- From a valid engine, with a selection that is on its board or none, and dispatch functions, if
-- any, that keep valid engines valid, the size of their boards and the end of a game, a jump request
-- on a pixel that is on the board, or left of or above it, reads no square off the board, for either
-- player or both. The engine and the selection are so again, and the dispatch functions are the
-- same.
pub handle_jump-Handles :
    (s : Play) (x y : ℤ) (color : Option Color)
    → IsPlayable s
    → Selects s.engine.board (to_position x y)
    → Returns (Handles s) (handle_jump s x y color)
unfolding handle_jump
handle_jump-Handles s x y color p (inl off) = done s s _ (rw off) (Handles-refl s p)
handle_jump-Handles s x y color p (inr on) =
    let q = to_position x y in
    let j = jump_from-Handles s q color (piece_at s.engine.board q) p in
    done s j.out _
      (rw (in_bounds-row s.engine.board q on, cell-in_bounds s.engine.board q p.valid.rect on)
        j.returns)
      j.holds

-- `handleJump` reads the board before anything has tested the bounds: a jump on a pixel right of or
-- below the board leaves defined behaviour, in every state and for every player.
pub handle_jump_off :
    (s : Play) (x y : ℤ) (color : Option Color)
    → IsRect s.engine.board
    → ltb_ℤ (to_position x y).row (pos 0) ≡ false
    → in_bounds s.engine.board (to_position x y) ≡ false
    → handle_jump s x y color ≡ err out_of_range
unfolding handle_jump
handle_jump_off s x y color rect low off = rw (low, cell_off s.engine.board _ rect off)

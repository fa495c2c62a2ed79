-- ===== src/Network/Input/Ownership.antt =====
-- What a remote player can do: move and jump with the pieces of the own colour, by the rules.
use kong_fu_chess.Prelude.{
  ℕ, pos, ltb_ℤ, Bool, true, false, ◌||◌, Bool-cases, Returns, Returns-weaken, Option, none, some,
  Result, ◌>>=◌, ◌≡◌, ◌∙◌, refl, ap, sym, inl, inr, arith, refuted, Decides,
}
use kong_fu_chess.Model.Piece.{Color, color_eq, color_eq_iff, is_empty}
use kong_fu_chess.Model.Position.{Position}
use kong_fu_chess.Model.Board.{in_bounds}
use kong_fu_chess.Model.Board.Laws.{piece_at, cell-in_bounds}
use kong_fu_chess.Io.Text.{Text}
use kong_fu_chess.Io.Algebraic.{algebraic_to_position}
use kong_fu_chess.Online.SessionManager.{SessionManager, color_for}
use kong_fu_chess.Engine.GameEngine.{GameEngine, start_move, start_jump, request_move, request_jump}
use kong_fu_chess.Engine.Effects.{StartsMove, StartsJump}
use kong_fu_chess.Engine.Invariant.{IsValid}
use kong_fu_chess.Engine.Requests.{
  MayMove, MayJump, Requested, JumpRequested, request_move-Requested, request_jump-JumpRequested,
}
use kong_fu_chess.Network.Input.{
  owns, can_control_square, guarded, handle_move, handle_jump, handle_move_text, handle_jump_text,
}

-- A piece of this colour, if there is one, stands on the square.
pub record IsOwn (e : GameEngine) (square : Position) (color : Option Color) : Type 0 where
  pub inside : in_bounds e.board square ≡ true
  pub stands : is_empty (piece_at e.board square) ≡ false
  pub own : color ≡ some (piece_at e.board square).color

pub owns-Decides :
    (e : GameEngine) (square : Position) (color : Option Color)
    → IsValid e
    → Decides (IsOwn e square color) (owns e square color)
unfolding owns
owns-Decides e square none v = record {
  out = false;
  returns = refl;
  holds = (λ h. cc, λ h. cc h.own);
}
owns-Decides e square (some color) v = elim (Bool-cases (in_bounds e.board square)) [
  | inr off ↦ record { out = false; returns = rw off; holds = (λ h. cc, λ h. cc h.inside) }
  | inl inside ↦
      let piece = piece_at e.board square in
      let there = cell-in_bounds e.board square v.rect inside in
      elim (Bool-cases (is_empty piece)) [
        | inl nothing ↦ record {
          out = false;
          returns = rw (inside, there) (rw nothing);
          holds = (λ h. cc, λ h. cc h.stands);
        }
        | inr stands ↦ record {
          out = color_eq piece.color color;
          returns = rw (inside, there) (rw stands);
          holds = (
            λ h. record {
              inside = inside;
              stands = stands;
              own = ap some (sym ((color_eq_iff piece.color color).0 h));
            },
            λ h. (color_eq_iff piece.color color).1 (cc h.own),
          );
        }
      ]
]

module _ (s : SessionManager) (e : GameEngine) (id : ℕ) where
  -- The player behind the connection has a piece on the square.
  abbrev pub Controls : Position → Type 0
  Controls square = IsOwn e square (color_for s id)

  pub data Moved (from to : Position) (r : GameEngine × Bool) : Type 0 where
    accepted :
        Controls from
        → MayMove e from to
        → r ≡ (start_move e from to (piece_at e.board from), true)
        → StartsMove e from to r.0
        → Moved from to r
    refused : ¬ (Controls from × MayMove e from to) → r ≡ (e, false) → Moved from to r

  pub data Jumped (square : Position) (r : GameEngine × Bool) : Type 0 where
    accepted :
        Controls square
        → MayJump e square
        → r ≡ (start_jump e square (piece_at e.board square), true)
        → StartsJump e square r.0
        → Jumped square r
    refused : ¬ (Controls square × MayJump e square) → r ≡ (e, false) → Jumped square r

  Requested-Moved :
      (from to : Position) (r : GameEngine × Bool)
      → Controls from
      → Requested e from to r
      → Moved from to r
  Requested-Moved from to r c (Requested.accepted m same started) = Moved.accepted c m same started
  Requested-Moved from to r c (Requested.refused no_move same) =
      Moved.refused (λ h. no_move h.1) same

  JumpRequested-Jumped :
      (square : Position) (r : GameEngine × Bool)
      → Controls square
      → JumpRequested e square r
      → Jumped square r
  JumpRequested-Jumped square r c (JumpRequested.accepted m same started) =
      Jumped.accepted c m same started
  JumpRequested-Jumped square r c (JumpRequested.refused no_jump same) =
      Jumped.refused (λ h. no_jump h.1) same

  -- A guarded request: its own outcome to the owner, nothing to others.
  pub guarded-Returns :
      (square : Position) (request : Result (GameEngine × Bool)) (P : GameEngine × Bool → Type 0)
      → IsValid e
      → (Controls square → Returns P request)
      → ((¬ Controls square) → P (e, false))
      → Returns P (can_control_square s e id square >>= guarded e request)
  guarded-Returns square request P v mine theirs =
      let d = owns-Decides e square (color_for s id) v in
      elim (Bool-cases d.out) [
        | inl own ↦
            let r = mine (d.holds.0 own) in
            record { out = r.out; returns = rw (d.returns, own) r.returns; holds = r.holds }
        | inr foreign ↦ record {
          out = (e, false);
          returns = rw (d.returns, foreign);
          holds = theirs (refuted d.out d.holds foreign);
        }
      ]

  handle_move-Moved :
      (from to : Position) → IsValid e → Returns (Moved from to) (handle_move s e id from to)
  unfolding handle_move
  handle_move-Moved from to v =
      guarded-Returns from (request_move e from to) (Moved from to) v
        (λ c.
          Returns-weaken _ _ _ (request_move-Requested e from to v)
            (λ r h. Requested-Moved from to r c h))
        (λ foreign. Moved.refused (λ h. foreign h.0) refl)

  handle_jump-Jumped :
      (square : Position) → IsValid e → Returns (Jumped square) (handle_jump s e id square)
  unfolding handle_jump
  handle_jump-Jumped square v =
      guarded-Returns square (request_jump e square) (Jumped square) v
        (λ c.
          Returns-weaken _ _ _ (request_jump-JumpRequested e square v)
            (λ r h. JumpRequested-Jumped square r c h))
        (λ foreign. Jumped.refused (λ h. foreign h.0) refl)

  -- A square with a negative row is not on the board.
  row_in : (p : Position) → in_bounds e.board p ≡ true → ltb_ℤ p.row (pos 0) ≡ false
  unfolding in_bounds
  row_in p h = ground arith

  -- A remote player's move, its squares given as text: from a valid engine it reads no square off
  -- the board. If the texts name squares, the piece on the first has the colour of the player's
  -- connection, and the engine would take the move, then the move is put in flight; in every other
  -- case nothing changes and the answer is false.
  pub handle_move_text-Moved :
      (from to : Text)
      → IsValid e
      → Returns
          (Moved (algebraic_to_position from) (algebraic_to_position to))
          (handle_move_text s e id from to)
  unfolding handle_move_text
  handle_move_text-Moved from to v =
      let p = algebraic_to_position from in
      let q = algebraic_to_position to in
      elim (Bool-cases (ltb_ℤ p.row (pos 0) || ltb_ℤ q.row (pos 0))) [
        | inl unreadable ↦ record {
          out = (e, false);
          returns = rw unreadable;
          holds =
              Moved.refused
                (λ h. cc (
                  ap (λ t. t || ltb_ℤ q.row (pos 0)) (row_in p h.1.legal.from_in)
                  ∙ row_in q h.1.legal.to_in))
                refl;
        }
        | inr readable ↦
            let r = handle_move-Moved p q v in
            record { out = r.out; returns = rw readable r.returns; holds = r.holds }
      ]

  -- A remote player's jump, the square given as text: from a valid engine it reads no square off
  -- the board. If the text names a square, the piece there has the colour of the player's
  -- connection, and the engine would take the jump, then the jump is put in flight; in every other
  -- case nothing changes and the answer is false.
  pub handle_jump_text-Jumped :
      (square : Text)
      → IsValid e
      → Returns (Jumped (algebraic_to_position square)) (handle_jump_text s e id square)
  unfolding handle_jump_text
  handle_jump_text-Jumped square v =
      let p = algebraic_to_position square in
      elim (Bool-cases (ltb_ℤ p.row (pos 0))) [
        | inl unreadable ↦ record {
          out = (e, false);
          returns = rw unreadable;
          holds = Jumped.refused (λ h. cc (row_in p h.1.inside)) refl;
        }
        | inr readable ↦
            let r = handle_jump-Jumped p v in
            record { out = r.out; returns = rw readable r.returns; holds = r.holds }
      ]

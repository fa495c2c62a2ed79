-- ===== src/Engine/Requests.antt =====
-- `requestMove` and `requestJump`: when they put a motion in flight, and what else they leave.
use kong_fu_chess.Prelude.{
  ℕ, ltb, any, All, List, [], ◌∷◌, ◌≢◌, Bool, true, false, ◌||◌, Bool-cases, Returns,
  Returns-weaken, ◌≡◌, ◌↔◌, refl, inl, inr, arith, refuted,
}
use kong_fu_chess.Model.Piece.{is_empty}
use kong_fu_chess.Model.Position.{Position, position_eq, position_eq_iff, position_eq-false}
use kong_fu_chess.Realtime.Motion.{Motion}
use kong_fu_chess.Model.Board.{in_bounds}
use kong_fu_chess.Model.Board.Laws.{piece_at, cell-in_bounds, SameShape-refl}
use kong_fu_chess.Rules.Legal.{IsLegal, validate_move-Decides}
use kong_fu_chess.Engine.GameEngine.{
  GameEngine, active_motions, is_busy_at, start_move, start_jump, launch, request_move,
  request_jump,
}
use kong_fu_chess.Engine.Effects.{StartsMove, StartsJump, start_move_lem, start_jump_lem}
use kong_fu_chess.Engine.Invariant.{IsValid, Sound-snoc, Evolves, Evolves-refl}

is_busy_at_iff :
    (e : GameEngine) (p : Position)
    → (is_busy_at e p ≡ false) ↔ All (λ m. m.source ≢ p) e.arbiter.active_motions
is_busy_at_iff e p = (apart e.arbiter.active_motions, free e.arbiter.active_motions)
  where
    apart :
        (ms : List Motion)
        → any (λ m. position_eq m.source p) ms ≡ false
        → All (λ m. m.source ≢ p) ms
    apart [] h = tt
    apart (m ∷ ms) h = elim (Bool-cases (position_eq m.source p)) [
      | inl here ↦ absurd (ground arith)
      | inr far ↦ (λ same. cc (far, (position_eq_iff m.source p).1 same), apart ms (ground arith))
    ]

    free :
        (ms : List Motion)
        → All (λ m. m.source ≢ p) ms
        → any (λ m. position_eq m.source p) ms ≡ false
    free [] h = refl
    free (m ∷ ms) h = rw (position_eq-false m.source p h.0) (free ms h.1)

-- The move is legal, and its piece neither rests nor is under way, in a game that is not over.
pub record MayMove (e : GameEngine) (from to : Position) : Type 0 where
  pub playing : e.is_game_over ≡ false
  pub idle : All (λ m. m.source ≢ from) e.arbiter.active_motions
  pub legal : IsLegal e.board from to
  pub rested : (piece_at e.board from).move_cooldown_remaining_ms ≡ 0

pub data Requested (e : GameEngine) (from to : Position) (r : GameEngine × Bool) : Type 0 where
  accepted :
      MayMove e from to
      → r ≡ (start_move e from to (piece_at e.board from), true)
      → StartsMove e from to r.0
      → Requested e from to r
  refused : ¬ MayMove e from to → r ≡ (e, false) → Requested e from to r

-- From a valid engine `requestMove` reads no square off the board. If the game is on, the square
-- is not busy, the move is legal and the piece has no move cooldown left, it returns true and adds
-- one motion behind the others: a move of that piece between the two squares that starts now, has
-- the next number and takes one second for each square of the longer distance. A bus, if there is
-- one, gets the event of that start, and all else stays. In every other case `requestMove` changes
-- nothing and returns false.
pub request_move-Requested :
    (e : GameEngine) (from to : Position)
    → IsValid e
    → Returns (Requested e from to) (request_move e from to)
unfolding request_move launch
request_move-Requested e from to v = elim (Bool-cases e.is_game_over) [
  | inl over ↦ record {
    out = (e, false);
    returns = rw over;
    holds = refused (λ m. cc m.playing) refl;
  }
  | inr playing ↦ elim (Bool-cases (is_busy_at e from)) [
    | inl busy ↦ record {
      out = (e, false);
      returns = rw (playing, busy);
      holds = refused (λ m. cc ((is_busy_at_iff e from).1 m.idle)) refl;
    }
    | inr idle ↦
        let d = validate_move-Decides e.board from to v.rect in
        elim (Bool-cases d.out) [
          | inl yes_move ↦
              let may = d.holds.0 yes_move in
              record {
                out = (start_move e from to (piece_at e.board from), true);
                returns =
                    rw (playing, idle, d.returns, yes_move)
                      (rw (cell-in_bounds e.board from v.rect may.0.from_in));
                holds =
                    accepted
                      (record {
                        playing = playing;
                        idle = (is_busy_at_iff e from).0 idle;
                        legal = may.0;
                        rested = may.1;
                      })
                      refl (start_move_lem e from to);
              }
          | inr no_move ↦ record {
            out = (e, false);
            returns = rw (playing, idle, d.returns, no_move);
            holds = refused (λ m. refuted d.out d.holds no_move (m.legal, m.rested)) refl;
          }
        ]
  ]
]

Requested-Evolves :
    (e : GameEngine) (from to : Position) (r : GameEngine × Bool)
    → IsValid e
    → Requested e from to r
    → Evolves e r.0
Requested-Evolves e from to r v (refused _ same) = rw same (Evolves-refl e v)
Requested-Evolves e from to r v (accepted m same started) = rw same (record {
  shape = SameShape-refl e.board;
  valid =
      Sound-snoc e.board (active_motions e) e.next_motion_id _ v ((is_busy_at_iff e from).1 m.idle)
        refl (λ is_move. (m.legal.from_in, m.legal.to_in, m.legal.moves));
  final = λ over. (over, refl);
})

pub request_move-Evolves :
    (e : GameEngine) (from to : Position)
    → IsValid e
    → Returns (λ r. Evolves e r.0) (request_move e from to)
request_move-Evolves e from to v =
    Returns-weaken _ _ _ (request_move-Requested e from to v)
      (λ r h. Requested-Evolves e from to r v h)

-- A piece stands on the square, neither landed just now nor under way, in a game that is not over.
pub record MayJump (e : GameEngine) (p : Position) : Type 0 where
  pub playing : e.is_game_over ≡ false
  pub inside : in_bounds e.board p ≡ true
  pub stands : is_empty (piece_at e.board p) ≡ false
  pub rested : (piece_at e.board p).jump_cooldown_remaining_ms ≡ 0
  pub idle : All (λ m. m.source ≢ p) e.arbiter.active_motions

pub data JumpRequested (e : GameEngine) (p : Position) (r : GameEngine × Bool) : Type 0 where
  accepted :
      MayJump e p
      → r ≡ (start_jump e p (piece_at e.board p), true)
      → StartsJump e p r.0
      → JumpRequested e p r
  refused : ¬ MayJump e p → r ≡ (e, false) → JumpRequested e p r

-- The three tests of the code before a jump.
free_iff :
    (t : Bool) (n : ℕ) (u : Bool)
    → (t || ltb 0 n || u ≡ false) ↔ ((t ≡ false) × (n ≡ 0) × (u ≡ false))
free_iff t n u = (ground arith, ground arith)

-- From a valid engine `requestJump` reads no square off the board. If the game is on, the square is
-- on the board, not empty and not busy, and its piece has no jump cooldown left, it returns true
-- and adds one motion behind the others: a jump of that piece that starts now, has the next number,
-- has no destination on any board and takes two seconds. A bus, if there is one, gets the event of that start,
-- and all else stays. In every other case `requestJump` changes nothing and returns false.
pub request_jump-JumpRequested :
    (e : GameEngine) (p : Position) → IsValid e → Returns (JumpRequested e p) (request_jump e p)
unfolding request_jump
request_jump-JumpRequested e p v = elim (Bool-cases e.is_game_over) [
  | inl over ↦ record {
    out = (e, false);
    returns = rw over;
    holds = JumpRequested.refused (λ m. cc m.playing) refl;
  }
  | inr playing ↦ elim (Bool-cases (in_bounds e.board p)) [
    | inr off ↦ record {
      out = (e, false);
      returns = rw (playing, off);
      holds = JumpRequested.refused (λ m. cc m.inside) refl;
    }
    | inl inside ↦
        let piece = piece_at e.board p in
        elim (Bool-cases
          (is_empty piece || ltb 0 piece.jump_cooldown_remaining_ms || is_busy_at e p)) [
            | inl held ↦ record {
              out = (e, false);
              returns = rw (playing, inside, cell-in_bounds e.board p v.rect inside) (rw held);
              holds =
                  JumpRequested.refused
                    (λ m. cc (
                      (free_iff _ piece.jump_cooldown_remaining_ms _).1
                        (m.stands, m.rested, (is_busy_at_iff e p).1 m.idle)))
                    refl;
            }
            | inr free ↦
                let tests = (free_iff _ piece.jump_cooldown_remaining_ms _).0 free in
                record {
                  out = (start_jump e p piece, true);
                  returns = rw (playing, inside, cell-in_bounds e.board p v.rect inside) (rw free);
                  holds =
                      JumpRequested.accepted
                        (record {
                          playing = playing;
                          inside = inside;
                          stands = tests.0;
                          rested = tests.1;
                          idle = (is_busy_at_iff e p).0 tests.2;
                        })
                        refl (start_jump_lem e p);
                }
          ]
  ]
]

pub request_jump-Evolves :
    (e : GameEngine) (p : Position) → IsValid e → Returns (λ r. Evolves e r.0) (request_jump e p)
request_jump-Evolves e p v =
    Returns-weaken _ _ _ (request_jump-JumpRequested e p v) (λ r h. evolves r h)
  where
    evolves : (r : GameEngine × Bool) → JumpRequested e p r → Evolves e r.0
    evolves r (JumpRequested.refused _ same) = rw same (Evolves-refl e v)
    evolves r (JumpRequested.accepted m same started) = rw same (record {
      shape = SameShape-refl e.board;
      valid =
          Sound-snoc e.board (active_motions e) e.next_motion_id _ v ((is_busy_at_iff e p).1 m.idle)
            refl (λ is_move. cc);
      final = λ over. (over, refl);
    })

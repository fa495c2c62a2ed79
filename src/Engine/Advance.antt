-- ===== src/Engine/Advance.antt =====
-- `GameEngine::advanceTime` part by part: each returns, and leaves a valid engine.
use kong_fu_chess.Prelude.{
  any, All, true, false, not, ◌&&◌, ◌||◌, Bool-cases, Option-cases, Option, none, some, List, [],
  ◌∷◌, ok, Returns, Returns-weaken, if◌then◌else◌, ◌≡◌, refl, ◌∙◌, inl, inr, arith,
}
use kong_fu_chess.Model.Piece.{Color, king, type_eq, color_eq, is_empty}
use kong_fu_chess.Model.Position.{Position, position_eq}
use kong_fu_chess.Model.Board.{Board}
use kong_fu_chess.Model.Board.Laws.{IsRect, piece_at, SameShape-refl, cell-in_bounds}
use kong_fu_chess.Rules.Legal.{validate_move-Decides}
use kong_fu_chess.Realtime.Motion.{jump, move, motion_type_eq, Motion}
use kong_fu_chess.Realtime.Resolution.{MoveResolution, completed_move, jump_capture}
use kong_fu_chess.Realtime.Arbiter.Advance.{Travels}
use kong_fu_chess.Engine.GameEngine.{
  GameEngine, Premove, active_motions, process_resolution, process_move_resolutions,
  execute_premove, replay, try_execute_premove, clear_premove_at, find_premove, find_winner,
  check_game_over, premove_round, ended_by,
}
use kong_fu_chess.Engine.Invariant.{IsValid, IsOver, Evolves, Evolves-refl}
use kong_fu_chess.Engine.Requests.{request_move-Evolves}

-- Two engines with one board, the same motions and the same next number.
pub record SamePlay (e e' : GameEngine) : Type 0 where
  pub board : e'.board ≡ e.board
  pub arbiter : e'.arbiter ≡ e.arbiter
  pub next : e'.next_motion_id ≡ e.next_motion_id
  pub final : e.is_game_over ≡ true → IsOver e e'

pub SamePlay-IsValid : (e e' : GameEngine) → SamePlay e e' → IsValid e → IsValid e'
SamePlay-IsValid e e' s v = rw (s.board, s.arbiter, s.next) v

pub SamePlay-trans : (d e f : GameEngine) → SamePlay d e → SamePlay e f → SamePlay d f
SamePlay-trans d e f h k = record {
  board = k.board ∙ h.board;
  arbiter = k.arbiter ∙ h.arbiter;
  next = k.next ∙ h.next;
  final = λ over. let mid = h.final over in let last = k.final mid.0 in (last.0, last.1 ∙ mid.1);
}

process_resolution-SamePlay :
    (e : GameEngine) (r : MoveResolution) → SamePlay e (process_resolution e r)
process_resolution-SamePlay e (completed_move c) = record {
  board = refl;
  arbiter = refl;
  next = refl;
  final = λ over. (over, refl);
}
process_resolution-SamePlay e (jump_capture j) = record {
  board = refl;
  arbiter = refl;
  next = refl;
  final = λ over. (over, refl);
}

pub process_move_resolutions-SamePlay :
    (e : GameEngine) (rs : List MoveResolution) → SamePlay e (process_move_resolutions e rs)
unfolding process_move_resolutions
process_move_resolutions-SamePlay e [] = record {
  board = refl;
  arbiter = refl;
  next = refl;
  final = λ over. (over, refl);
}
process_move_resolutions-SamePlay e (r ∷ rs) =
    SamePlay-trans e (process_resolution e r) _ (process_resolution-SamePlay e r)
      (process_move_resolutions-SamePlay (process_resolution e r) rs)

-- A completing move decides the game for its mover if an enemy king stands on its target, or if the
-- mover is a king and a jump is active on the target.
abbrev pub verdict : Board → List Motion → Motion → Option Color
verdict b active m =
    let mover = piece_at b m.source in
    let target = piece_at b m.destination in
    if motion_type_eq m.type move
      && not (is_empty mover)
      && (type_eq target.kind king && not (color_eq target.color mover.color)
          || any (λ n. motion_type_eq n.type jump && position_eq n.source m.destination) active
            && type_eq mover.kind king)
    then some mover.color
    else none

abbrev pub first_verdict : Board → List Motion → List Motion → Option Color
first_verdict b active [] = none
first_verdict b active (m ∷ ms) = elim (verdict b active m) [
  | some winner ↦ some winner
  | none ↦ first_verdict b active ms
]

-- The search for a winner takes the first completing move that decides the game.
pub find_winner-eq :
    (b : Board) (active ms : List Motion)
    → IsRect b
    → All (Travels b) ms
    → find_winner b active ms ≡ ok (first_verdict b active ms)
unfolding find_winner
find_winner-eq b active [] rect h = refl
find_winner-eq b active (m ∷ ms) rect h =
    rw
      (
        cell-in_bounds b m.source rect h.0.0,
        cell-in_bounds b m.destination rect h.0.1,
        find_winner-eq b active ms rect h.1,
      )
      (ground arith)

ended_by-SamePlay :
    (e : GameEngine) (w : Option Color) → e.is_game_over ≡ false → SamePlay e (ended_by e w)
ended_by-SamePlay e none playing = record {
  board = refl;
  arbiter = refl;
  next = refl;
  final = λ over. (over, refl);
}
ended_by-SamePlay e (some w) playing = record {
  board = refl;
  arbiter = refl;
  next = refl;
  final = λ over. cc;
}

pub check_game_over-SamePlay :
    (e : GameEngine) (ms : List Motion)
    → IsValid e
    → All (Travels e.board) ms
    → Returns (SamePlay e) (check_game_over e ms)
unfolding check_game_over
check_game_over-SamePlay e ms v h = elim (Bool-cases e.is_game_over) [
  | inl over ↦ record {
    out = e;
    returns = rw over;
    holds = record { board = refl; arbiter = refl; next = refl; final = λ over. (over, refl) };
  }
  | inr playing ↦
      let w = first_verdict e.board (active_motions e) ms in
      record {
        out = ended_by e w;
        returns = rw (playing, find_winner-eq e.board (active_motions e) ms v.rect h);
        holds = ended_by-SamePlay e w playing;
      }
]

clear_premove-Evolves :
    (e : GameEngine) (p : Position) → IsValid e → Evolves e (clear_premove_at e p)
clear_premove-Evolves e p v = record {
  shape = SameShape-refl e.board;
  valid = v;
  final = λ over. (over, refl);
}

execute_premove-Evolves :
    (e : GameEngine) (arrival : Position) (p : Premove)
    → IsValid e
    → Returns (Evolves e) (execute_premove e arrival p)
unfolding execute_premove replay
execute_premove-Evolves e arrival p v = elim (Bool-cases (position_eq p.from arrival)) [
  | inr other ↦ record { out = e; returns = rw other; holds = Evolves-refl e v }
  | inl here ↦
      let d = validate_move-Decides e.board arrival p.to v.rect in
      elim (Bool-cases d.out) [
        | inr no_move ↦ record {
          out = e;
          returns = rw (here, d.returns, no_move);
          holds = Evolves-refl e v;
        }
        | inl may ↦
            let r = request_move-Evolves e arrival p.to v in
            record {
              out = r.out.0;
              returns = rw (here, d.returns, may) (rw r.returns);
              holds = r.holds;
            }
      ]
]

try_execute_premove-Evolves :
    (e : GameEngine) (source arrival : Position)
    → IsValid e
    → Returns (Evolves e) (try_execute_premove e source arrival)
unfolding try_execute_premove
try_execute_premove-Evolves e source arrival v =
    elim (Option-cases (find_premove e.premoves source)) [
      | inl absent ↦ record {
        out = e;
        returns = rw (absent, try_execute_premove);
        holds = Evolves-refl e v;
      }
      | inr (p, found) ↦
          rw (found, try_execute_premove)
            (Returns-weaken _ _ _ (execute_premove-Evolves (clear_premove_at e source) arrival p v)
              (λ e' h. record { shape = h.shape; valid = h.valid; final = h.final }))
    ]

pub premove_round-Evolves :
    (e : GameEngine) (m : Motion)
    → IsValid e
    → Travels e.board m
    → Returns (Evolves e) (premove_round e m)
unfolding premove_round
premove_round-Evolves e m v h =
    let here = cell-in_bounds e.board m.source v.rect h.0 in
    let there = cell-in_bounds e.board m.destination v.rect h.1 in
    let cleared = clear_premove-Evolves e m.source v in
    elim (Bool-cases (motion_type_eq m.type move)) [
      | inr other ↦ record { out = e; returns = rw other; holds = Evolves-refl e v }
      | inl is_move ↦ elim (Bool-cases (is_empty (piece_at e.board m.source))) [
        | inr stayed ↦ record {
          out = clear_premove_at e m.source;
          returns = rw (is_move, here, there, stayed);
          holds = cleared;
        }
        | inl left ↦ elim (Bool-cases (is_empty (piece_at e.board m.destination))) [
          | inl lost ↦ record {
            out = clear_premove_at e m.source;
            returns = rw (is_move, here, there, left, lost);
            holds = cleared;
          }
          | inr arrived ↦
              let t = try_execute_premove-Evolves e m.source m.destination v in
              record {
                out = t.out;
                returns = rw (is_move, here, there, left, arrived) t.returns;
                holds = t.holds;
              }
        ]
      ]
    ]

-- ===== src/Engine/Safety.antt =====
-- `GameEngine::advanceTime` as a whole, and every history of calls.
use kong_fu_chess.Prelude.{
  ℕ, ◌+◌, All, All-weaken, All-filter, All-filter_test, Bool-cases, &&_iff, List, [], ◌∷◌, Result,
  ok, Returns, ◌>>=◌, if◌then◌else◌, ◌≡◌, refl, ap, ◌∙◌, inl, inr,
}
use kong_fu_chess.Model.Piece.{is_empty, set_move_cooldown}
use kong_fu_chess.Model.Board.{Board}
use kong_fu_chess.Model.Board.Laws.{piece_at, SameShape-refl, cell-in_bounds}
use kong_fu_chess.Model.Board.View.{Shows-self, put-Shows}
use kong_fu_chess.Realtime.Motion.{move, motion_type_eq, Motion, is_expired}
use kong_fu_chess.Realtime.Arbiter.{Advanced, completing_moves}
use kong_fu_chess.Realtime.Arbiter.Advance.{
  Travels, IsPlaced, Travels-SameShape, Advances, advance_time-Advances,
}
use kong_fu_chess.Engine.GameEngine.{
  GameEngine, move_cooldown_ms, active_motions, elapsed_ms, is_busy_at, process_move_resolutions,
  premove_round, premove_rounds, process_premoves_after_advance, cool_arrival,
  apply_cooldown_after_arrivals, settle, advance,
}
use kong_fu_chess.Engine.Invariant.{
  IsValid, Lone-filter, IsPlaced-SameShape, Evolves, Evolves-refl, Evolves-trans,
}
use kong_fu_chess.Engine.Advance.{
  SamePlay, SamePlay-IsValid, process_move_resolutions-SamePlay, check_game_over-SamePlay,
  premove_round-Evolves,
}

Travels-Evolves :
    (e e' : GameEngine) (ms : List Motion)
    → Evolves e e'
    → All (Travels e.board) ms
    → All (Travels e'.board) ms
Travels-Evolves e e' ms s =
    All-weaken _ _ ms (λ m t. Travels-SameShape e.board e'.board m s.shape t)

-- A loop over the completing moves, each round of which evolves the engine.
loop-Evolves :
    (round : GameEngine → Motion → Result GameEngine)
    (loop : GameEngine → List Motion → Result GameEngine)
    → ((e : GameEngine) → loop e [] ≡ ok e)
    → ((e : GameEngine) (m : Motion) (ms : List Motion)
        → loop e (m ∷ ms) ≡ (round e m >>= λ e'. loop e' ms))
    → ((e : GameEngine) (m : Motion)
        → IsValid e
        → Travels e.board m
        → Returns (Evolves e) (round e m))
    → (e : GameEngine) (ms : List Motion) → IsValid e
    → All (Travels e.board) ms
    → Returns (Evolves e) (loop e ms)
loop-Evolves round loop stop step one e [] v h = record {
  out = e;
  returns = stop e;
  holds = Evolves-refl e v;
}
loop-Evolves round loop stop step one e (m ∷ ms) v h =
    let first = one e m v h.0 in
    let rest =
      loop-Evolves round loop stop step one first.out ms first.holds.valid
        (Travels-Evolves e first.out ms first.holds h.1) in
    record {
      out = rest.out;
      returns = step e m ms ∙ rw first.returns rest.returns;
      holds = Evolves-trans e first.out rest.out first.holds rest.holds;
    }

premove_rounds-Evolves :
    (e : GameEngine) (ms : List Motion)
    → IsValid e
    → All (Travels e.board) ms
    → Returns (Evolves e) (premove_rounds e ms)
unfolding premove_rounds
premove_rounds-Evolves =
    loop-Evolves premove_round premove_rounds (λ e. refl) (λ e m ms. refl) premove_round-Evolves

process_premoves-Evolves :
    (e : GameEngine) (ms : List Motion)
    → IsValid e
    → All (Travels e.board) ms
    → Returns (Evolves e) (process_premoves_after_advance e ms)
unfolding process_premoves_after_advance
process_premoves-Evolves e ms v h = elim (Bool-cases e.is_game_over) [
  | inl over ↦ record { out = e; returns = rw over; holds = Evolves-refl e v }
  | inr playing ↦
      let r = premove_rounds-Evolves e ms v h in
      record {
        out = r.out;
        returns = ap (λ over. if over then ok e else premove_rounds e ms) playing ∙ r.returns;
        holds = r.holds;
      }
]

cool_arrival-Evolves :
    (e : GameEngine) (m : Motion)
    → IsValid e
    → Travels e.board m
    → Returns (Evolves e) (cool_arrival e m)
unfolding cool_arrival
cool_arrival-Evolves e m v h =
    let piece = piece_at e.board m.destination in
    let there = cell-in_bounds e.board m.destination v.rect h.1 in
    let write =
      put-Shows e.board e.board _ (Shows-self e.board v.rect) m.destination h.1
        (set_move_cooldown piece move_cooldown_ms) in
    elim (Bool-cases (motion_type_eq m.type move)) [
      | inr other ↦ record { out = e; returns = rw other; holds = Evolves-refl e v }
      | inl is_move ↦ elim (Bool-cases (is_empty piece)) [
        | inl nothing ↦ record {
          out = e;
          returns = rw (is_move, h.1, there, nothing);
          holds = Evolves-refl e v;
        }
        | inr stands ↦ elim (Bool-cases (is_busy_at e m.destination)) [
          | inl busy ↦ record {
            out = e;
            returns = rw (is_move, h.1, there, stands, busy);
            holds = Evolves-refl e v;
          }
          | inr idle ↦ record {
            out = record e { board = write.out };
            returns = rw (is_move, h.1, there, stands, idle, write.returns);
            holds = record {
              shape = write.holds.shape;
              valid = record {
                rect = write.holds.rect;
                placed = IsPlaced-SameShape e.board write.out _ write.holds.shape v.placed;
                fresh = v.fresh;
                lone = v.lone;
              };
              final = λ over. (over, refl);
            };
          }
        ]
      ]
    ]

apply_cooldown-Evolves :
    (e : GameEngine) (ms : List Motion)
    → IsValid e
    → All (Travels e.board) ms
    → Returns (Evolves e) (apply_cooldown_after_arrivals e ms)
unfolding apply_cooldown_after_arrivals
apply_cooldown-Evolves =
    loop-Evolves cool_arrival apply_cooldown_after_arrivals (λ e. refl) (λ e m ms. refl)
      cool_arrival-Evolves

SamePlay-Evolves : (e e' : GameEngine) → SamePlay e e' → IsValid e → Evolves e e'
SamePlay-Evolves e e' s v = record {
  shape = rw s.board (SameShape-refl e.board);
  valid = SamePlay-IsValid e e' s v;
  final = s.final;
}

-- The engine between the arbiter and the log.
abbrev arrived : GameEngine → Advanced → GameEngine
arrived e r = record e { board = r.board; arbiter = r.arbiter }

arrived-IsValid :
    (e : GameEngine) (ms : ℕ) (r : Advanced)
    → IsValid e
    → Advances e.arbiter ms e.board r
    → IsValid (arrived e r)
arrived-IsValid e ms r v a = rw a.pending (record {
  rect = a.keeps.rect;
  placed = All-filter _ _ _ (IsPlaced-SameShape e.board r.board _ a.keeps.shape v.placed);
  fresh = All-filter _ _ _ v.fresh;
  lone = Lone-filter _ _ v.lone;
})

settle-Evolves :
    (e : GameEngine) (ms : ℕ) (completing : List Motion) (r : Advanced)
    → IsValid e
    → All (Travels e.board) completing
    → Advances e.arbiter ms e.board r
    → Returns (Evolves e) (settle e completing r)
unfolding settle
settle-Evolves e ms completing r v h a =
    let e1 = arrived e r in
    let v1 = arrived-IsValid e ms r v a in
    let first : Evolves e e1 = record {
      shape = a.keeps.shape;
      valid = v1;
      final = λ over. (over, refl);
    } in
    let e2 = process_move_resolutions e1 r.resolutions in
    let logged = SamePlay-Evolves e1 e2 (process_move_resolutions-SamePlay e1 r.resolutions) v1 in
    let second = Evolves-trans e e1 e2 first logged in
    let p =
      process_premoves-Evolves e2 completing logged.valid
        (Travels-Evolves e e2 completing second h) in
    let third = Evolves-trans e e2 p.out second p.holds in
    let c =
      apply_cooldown-Evolves p.out completing p.holds.valid
        (Travels-Evolves e p.out completing third h) in
    record {
      out = c.out;
      returns = rw p.returns c.returns;
      holds = Evolves-trans e p.out c.out third c.holds;
    }

-- The moves that run out by `now` travel.
completing-Travels :
    (b : Board) (active : List Motion) (now : ℕ)
    → All (IsPlaced b) active
    → All (Travels b) (completing_moves active now)
completing-Travels b active now =
    All-filter_test _ _ _ active (λ m t p. p ((&&_iff _ (is_expired m now)).0 t).0)

-- From a valid engine `advanceTime` returns for every span of time: no access leaves the board, no
-- loop runs out of fuel, and the engine it leaves is valid, on a board of the same size.
pub advance-Evolves : (e : GameEngine) (ms : ℕ) → IsValid e → Returns (Evolves e) (advance e ms)
unfolding advance
advance-Evolves e ms v =
    let completing = completing_moves (active_motions e) (elapsed_ms e + ms) in
    let h = completing-Travels e.board (active_motions e) (elapsed_ms e + ms) v.placed in
    let c = check_game_over-SamePlay e completing v h in
    let first = SamePlay-Evolves e c.out c.holds v in
    let t =
      advance_time-Advances c.out.arbiter ms c.out.board first.valid.rect first.valid.placed in
    let s =
      settle-Evolves c.out ms completing t.out first.valid
        (Travels-Evolves e c.out completing first h) t.holds in
    record {
      out = s.out;
      returns = rw (c.returns, t.returns) s.returns;
      holds = Evolves-trans e c.out s.out first s.holds;
    }

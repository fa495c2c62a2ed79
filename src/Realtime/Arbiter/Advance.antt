-- ===== src/Realtime/Arbiter/Advance.antt =====
-- `RealTimeArbiter::advanceTime` as a whole.
use kong_fu_chess.Prelude.{
  ℕ, ◌+◌, filter, All, All-filter_test, All-weaken, filter-filter, filter_none, true, false, not,
  Bool-cases, &&_iff, List, [], ◌∷◌, Returns, Returns-bind, Returns-weaken, if◌then◌else◌, ◌≡◌, ◌≢◌,
  refl, sym, ap, ◌∙◌, inl, inr, arith,
}
use kong_fu_chess.Model.Board.{Board, in_bounds}
use kong_fu_chess.Model.Board.Laws.{
  IsRect, SameShape, SameShape-refl, SameShape-trans, in_bounds-SameShape,
}
use kong_fu_chess.Model.Board.View.{Shows-self}
use kong_fu_chess.Realtime.Motion.{move, jump, motion_type_eq, Motion, is_expired, is_expired_of}
use kong_fu_chess.Realtime.Arrival.{Tick}
use kong_fu_chess.Realtime.Arrival.Effects.{resolve_move_arrival-Arrives}
use kong_fu_chess.Realtime.Arrival.Frame.{Arrives-IsRect, Arrives-SameShape}
use kong_fu_chess.Realtime.Arbiter.{
  Arbiter, Advanced, sort_motions, insert_motion, motion_less, resolve_all, completing_moves,
  start_tick, finish_tick, advance_cooled, advance_time, remove_expired_motions,
}
use kong_fu_chess.Realtime.Arbiter.Cooldown.{decrease_all_cooldowns-Shows}
use kong_fu_chess.Realtime.Arbiter.Landing.{land_jumps-Shows}

-- A move goes between two different squares of the board.
abbrev pub Travels : Board → Motion → Type 0
Travels b m =
    (in_bounds b m.source ≡ true) × (in_bounds b m.destination ≡ true) × (m.source ≢ m.destination)

abbrev pub IsPlaced : Board → Motion → Type 0
IsPlaced b m = motion_type_eq m.type move ≡ true → Travels b m

pub Travels-SameShape : (b b' : Board) (m : Motion) → SameShape b b' → Travels b m → Travels b' m
Travels-SameShape b b' m s t =
    (in_bounds-SameShape s m.source ∙ t.0, in_bounds-SameShape s m.destination ∙ t.1, t.2)

pub insert_motion-All :
    (P : Motion → Type 0) (m : Motion) (ms : List Motion)
    → P m
    → All P ms
    → All P (insert_motion m ms)
unfolding insert_motion
insert_motion-All P m [] p h = (p, tt)
insert_motion-All P m (n ∷ ns) p h = elim (Bool-cases (motion_less n m)) [
  | inl less ↦ rw less (h.0, insert_motion-All P m ns p h.1)
  | inr not_less ↦ rw not_less (p, h)
]

pub sort_motions-All : (P : Motion → Type 0) (ms : List Motion) → All P ms → All P (sort_motions ms)
unfolding sort_motions
sort_motions-All P [] h = tt
sort_motions-All P (m ∷ ms) h = insert_motion-All P m _ h.0 (sort_motions-All P ms h.1)

-- The board stays rectangular and keeps its size.
pub record Keeps (b b' : Board) : Type 0 where
  pub rect : IsRect b'
  pub shape : SameShape b b'

resolve_all-Keeps :
    (active ms : List Motion) (s : Tick)
    → IsRect s.board
    → All (Travels s.board) ms
    → Returns (λ t. Keeps s.board t.board) (resolve_all active ms s)
unfolding resolve_all
resolve_all-Keeps active [] s rect h = record {
  out = s;
  returns = refl;
  holds = record { rect = rect; shape = SameShape-refl s.board };
}
resolve_all-Keeps active (m ∷ ms) s rect h =
    let first = resolve_move_arrival-Arrives active m s rect h.0.0 h.0.1 h.0.2 in
    let shape = Arrives-SameShape active m s first.out first.holds in
    let rest =
      resolve_all-Keeps active ms first.out (Arrives-IsRect active m s first.out rect first.holds)
        (All-weaken _ _ ms (λ n t. Travels-SameShape s.board first.out.board n shape t) h.1) in
    record {
      out = rest.out;
      returns = rw first.returns rest.returns;
      holds = record { rect = rest.holds.rect; shape = SameShape-trans shape rest.holds.shape };
    }

-- The motions that are still under way.
abbrev pub in_flight : List Motion → ℕ → List Motion
in_flight motions now = filter (λ m. not (is_expired m now)) motions

either_type :
    (now : ℕ) (m : Motion)
    → not (is_expired m now)
      ≡ (if not (is_expired_of move now m) then not (is_expired_of jump now m) else false)
either_type now m = ground arith

removed-in_flight :
    (now : ℕ) (ms : List Motion)
    → remove_expired_motions (remove_expired_motions ms move now) jump now ≡ in_flight ms now
removed-in_flight now ms = filter-filter _ _ _ ms (either_type now)

-- What `advanceTime` promises beside the arrivals themselves.
pub record Advances (a : Arbiter) (ms : ℕ) (b : Board) (r : Advanced) : Type 0 where
  pub keeps : Keeps b r.board
  pub clock : r.arbiter.elapsed_ms ≡ a.elapsed_ms + ms
  pub pending : r.arbiter.active_motions ≡ in_flight a.active_motions (a.elapsed_ms + ms)

finish_tick-Returns :
    (now : ℕ) (motions : List Motion) (b : Board) (s : Tick)
    → Keeps b s.board
    → Returns
        (λ r.
          Keeps b r.board
          × (r.arbiter.elapsed_ms ≡ now)
          × (r.arbiter.active_motions ≡ remove_expired_motions motions jump now))
        (finish_tick now motions s)
unfolding finish_tick
finish_tick-Returns now motions b s k =
    let landed = land_jumps-Shows s.board now motions s.board _ (Shows-self s.board k.rect) in
    record {
      out = record {
        arbiter = record {
          active_motions = remove_expired_motions motions jump now;
          elapsed_ms = now;
        };
        board = landed.out;
        resolutions = s.resolutions;
      };
      returns = rw landed.returns;
      holds = (
        record { rect = landed.holds.rect; shape = SameShape-trans k.shape landed.holds.shape },
        refl,
        refl,
      );
    }

advance_cooled-Returns :
    (now : ℕ) (active moves : List Motion) (b cooled : Board)
    → moves ≡ completing_moves active now
    → Keeps b cooled
    → All (Travels cooled) moves
    → Returns
        (λ r.
          Keeps b r.board
          × (r.arbiter.elapsed_ms ≡ now)
          × (r.arbiter.active_motions ≡ in_flight active now))
        (advance_cooled now active moves cooled)
unfolding advance_cooled
advance_cooled-Returns now active [] b cooled e k h =
    Returns-weaken _ _ _ (finish_tick-Returns now active b (start_tick cooled) k) λ r f. (
      f.0,
      f.1,
      f.2
          ∙ ap (λ l. remove_expired_motions l jump now) (sym (filter_none _ active (sym e)))
          ∙ removed-in_flight now active,
    )
advance_cooled-Returns now active (m ∷ ms) b cooled e k h =
    Returns-bind _ _ _ _
      (resolve_all-Keeps active (sort_motions (m ∷ ms)) (start_tick cooled) k.rect
        (sort_motions-All _ (m ∷ ms) h))
      λ s kept.
        Returns-weaken _ _ _
          (finish_tick-Returns now (remove_expired_motions active move now) b s
            (record { rect = kept.rect; shape = SameShape-trans k.shape kept.shape }))
          λ r f. (f.0, f.1, f.2 ∙ removed-in_flight now active)

-- On a rectangular board, with every move in flight between two different squares of it,
-- `advanceTime` reads and writes no square off the board; it keeps the board's shape, moves the
-- clock on by `ms`, and keeps exactly the motions that have not run out.
pub advance_time-Advances :
    (a : Arbiter) (ms : ℕ) (b : Board)
    → IsRect b
    → All (IsPlaced b) a.active_motions
    → Returns (Advances a ms b) (advance_time a ms b)
unfolding advance_time
advance_time-Advances a ms b rect placed =
    Returns-bind _ _ _ _ (decrease_all_cooldowns-Shows b ms rect) λ cooled v.
      Returns-weaken _ _ _
        (advance_cooled-Returns (a.elapsed_ms + ms) a.active_motions _ b cooled refl
          (record { rect = v.rect; shape = v.shape })
          (All-filter_test _ _ _ a.active_motions
            (λ m t p. Travels-SameShape b cooled m v.shape (p ((&&_iff _ (is_expired m _)).0 t).0))
            placed))
        λ r f. record { keeps = f.0; clock = f.1; pending = f.2 }

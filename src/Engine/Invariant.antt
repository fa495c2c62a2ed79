-- ===== src/Engine/Invariant.antt =====
-- What holds of an engine between two calls, and that every call returns with it.
use kong_fu_chess.Prelude.{
  ℕ, suc, ◌<◌, any, filter, All, All-weaken, All-filter, All-append, Bool, true, false, Bool-cases,
  List, [], ◌∷◌, ◌++◌, ◌≡◌, ◌≢◌, refl, ◌∙◌, inl, inr, arith, refuted,
}
use kong_fu_chess.Model.Position.{position_eq, position_eq_iff}
use kong_fu_chess.Model.Board.{Board}
use kong_fu_chess.Model.Board.Laws.{IsRect, SameShape, SameShape-refl, SameShape-trans}
use kong_fu_chess.Realtime.Motion.{Motion}
use kong_fu_chess.Realtime.Arbiter.Advance.{IsPlaced, Travels-SameShape}
use kong_fu_chess.Engine.GameEngine.{GameEngine, active_motions}

-- No two motions start on one square.
abbrev pub Lone : List Motion → Type 0
Lone [] = Unit {0}
Lone (m ∷ ms) = All (λ n. m.source ≢ n.source) ms × Lone ms

pub record Sound (b : Board) (active : List Motion) (next : ℕ) : Type 0 where
  pub rect : IsRect b
  pub placed : All (IsPlaced b) active
  pub fresh : All (λ m. m.motion_id < next) active
  pub lone : Lone active

-- The board is rectangular, every move in flight goes between two different squares of it, no two
-- motions start on one square, and every number in use is below the next one.
abbrev pub IsValid : GameEngine → Type 0
IsValid e = Sound e.board (active_motions e) e.next_motion_id

pub Lone-filter : (t : Motion → Bool) (ms : List Motion) → Lone ms → Lone (filter t ms)
Lone-filter t [] h = tt
Lone-filter t (m ∷ ms) h = elim (Bool-cases (t m)) [
  | inl stays ↦ rw stays (All-filter _ t ms h.0, Lone-filter t ms h.1)
  | inr goes ↦ rw goes (Lone-filter t ms h.1)
]

-- A motion from a square where none starts.
Lone-snoc :
    (ms : List Motion) (m : Motion)
    → any (λ n. position_eq n.source m.source) ms ≡ false
    → Lone ms
    → Lone (ms ++ m ∷ [])
Lone-snoc [] m idle h = (tt, tt)
Lone-snoc (n ∷ ns) m idle h =
    let here : position_eq n.source m.source ≡ false = ground arith in
    let rest : any (λ n. position_eq n.source m.source) ns ≡ false = ground arith in
    (
      All-append _ ns (m ∷ []) h.0
          (refuted (position_eq n.source m.source) (position_eq_iff n.source m.source) here, tt),
      Lone-snoc ns m rest h.1,
    )

pub IsPlaced-SameShape :
    (b b' : Board) (ms : List Motion) → SameShape b b' → All (IsPlaced b) ms → All (IsPlaced b') ms
IsPlaced-SameShape b b' ms s =
    All-weaken (IsPlaced b) (IsPlaced b') ms (λ m p t. Travels-SameShape b b' m s (p t))

-- One more motion, from a square that is not busy.
pub Sound-snoc :
    (b : Board) (ms : List Motion) (next : ℕ) (m : Motion)
    → Sound b ms next
    → any (λ n. position_eq n.source m.source) ms ≡ false
    → m.motion_id ≡ next
    → IsPlaced b m
    → Sound b (ms ++ m ∷ []) (suc next)
Sound-snoc b ms next m s idle number placed = record {
  rect = s.rect;
  placed = All-append _ ms (m ∷ []) s.placed (placed, tt);
  fresh =
      All-append _ ms (m ∷ [])
        (All-weaken _ (λ n. n.motion_id < suc next) ms (λ n h. omega arith) s.fresh)
        (omega arith, tt);
  lone = Lone-snoc ms m idle s.lone;
}

-- The game is over, with the winner that it had.
abbrev pub IsOver : GameEngine → GameEngine → Type 0
IsOver e e' = (e'.is_game_over ≡ true) × (e'.winner ≡ e.winner)

-- The call ended on a board of the same shape, in a valid engine; a game that was over stays so.
pub record Evolves (e e' : GameEngine) : Type 0 where
  pub shape : SameShape e.board e'.board
  pub valid : IsValid e'
  pub final : e.is_game_over ≡ true → IsOver e e'

pub Evolves-refl : (e : GameEngine) → IsValid e → Evolves e e
Evolves-refl e v = record {
  shape = SameShape-refl e.board;
  valid = v;
  final = λ over. (over, refl);
}

pub Evolves-trans : (d e f : GameEngine) → Evolves d e → Evolves e f → Evolves d f
Evolves-trans d e f h k = record {
  shape = SameShape-trans h.shape k.shape;
  valid = k.valid;
  final = λ over. let mid = h.final over in let last = k.final mid.0 in (last.0, last.1 ∙ mid.1);
}

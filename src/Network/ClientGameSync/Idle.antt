-- ===== src/Network/ClientGameSync/Idle.antt =====
-- The loop that runs the clock until nothing is under way.
use kong_fu_chess.Prelude.{
  ℕ, zero, suc, ◌+◌, ◌*◌, ◌≤◌, ◌<◌, leb, ◌||◌, ◌⊎◌, inl, inr, Bool, true, false, Bool-cases, List,
  [], ◌∷◌, Returns, ok, ◌≡◌, ◌≢◌, refl, sym, ◌∙◌, ap, arith,
}
use kong_fu_chess.Realtime.Motion.{Motion}
use kong_fu_chess.Engine.GameEngine.{GameEngine, active_motions, advance}
use kong_fu_chess.Engine.Invariant.{IsValid, Evolves, Evolves-refl, Evolves-trans}
use kong_fu_chess.Engine.Safety.{advance-Evolves}
use kong_fu_chess.Engine.History.{Call, ticks, call, run}
use kong_fu_chess.Network.ClientGameSync.{
  sync_frame_ms, max_sync_advance_ms, is_idle, until_idle, advance_until_idle,
}

abbrev pub frames : ℕ → List Call
frames zero = []
frames (suc n) = ticks sync_frame_ms ∷ frames n

-- The engine has come to rest after some frames, or has run for as many as are allowed, and no
-- frame began with no motion in flight.
pub record Rests (limit : ℕ) (e e' : GameEngine) : Type 0 where
  pub rounds : ℕ
  pub at_most : rounds ≤ limit
  pub is_run : run e (frames rounds) ≡ ok e'
  pub busy :
      (k : ℕ) (e1 : GameEngine) → k < rounds → run e (frames k) ≡ ok e1 → active_motions e1 ≢ []
  pub rests : (active_motions e' ≡ []) ⊎ (rounds ≡ limit)
  pub evolves : Evolves e e'

is_idle-nil : (ms : List Motion) → is_idle ms ≡ true → ms ≡ []
is_idle-nil [] h = refl
is_idle-nil (m ∷ ms) h = cc

-- The engine as it is, at the end of the loop.
stop :
    (limit : ℕ) (e : GameEngine)
    → IsValid e
    → (active_motions e ≡ []) ⊎ (0 ≡ limit)
    → Rests limit e e
unfolding run
stop limit e v h = record {
  rounds = 0;
  at_most = omega arith;
  is_run = refl;
  busy = λ k e1 h. absurd (omega (arith, h));
  rests = h;
  evolves = Evolves-refl e v;
}

-- One frame more, in front.
frame :
    (limit : ℕ) (e e' e'' : GameEngine)
    → active_motions e ≢ []
    → advance e sync_frame_ms ≡ ok e'
    → Evolves e e'
    → Rests limit e' e''
    → Rests (suc limit) e e''
unfolding run call
frame limit e e' e'' moving step h k = record {
  rounds = suc k.rounds;
  at_most = omega (arith, k.at_most);
  is_run = rw step k.is_run;
  busy = earlier;
  rests = elim k.rests [ inl idle ↦ inl idle | inr all ↦ inr (ap suc all) ];
  evolves = Evolves-trans e e' e'' h k.evolves;
}
  where
    earlier :
        (n : ℕ) (e1 : GameEngine)
        → n < suc k.rounds
        → run e (frames n) ≡ ok e1
        → active_motions e1 ≢ []
    earlier zero e1 less at_e1 = λ gone. moving cc
    earlier (suc n) e1 less at_e1 =
        let same : run e (frames (suc n)) ≡ run e' (frames n) = rw step refl in
        k.busy n e1 (omega (arith, less)) (sym same ∙ at_e1)

-- The test of the loop.
over :
    (ms : List Motion) (limit advanced_ms : ℕ)
    → advanced_ms + sync_frame_ms * limit ≡ max_sync_advance_ms
    → (is_idle ms || leb max_sync_advance_ms advanced_ms) ≡ true
    → (ms ≡ []) ⊎ (0 ≡ limit)
over [] limit advanced_ms time h = inl refl
over (m ∷ ms) zero advanced_ms time h = inr refl
over (m ∷ ms) (suc limit) advanced_ms time h = absurd (ground arith)

not_over :
    (ms : List Motion) (advanced_ms : ℕ)
    → advanced_ms + sync_frame_ms * 0 ≡ max_sync_advance_ms
    → (is_idle ms || leb max_sync_advance_ms advanced_ms) ≡ true
not_over ms advanced_ms time = ground arith

still_moving : (ms : List Motion) (t : Bool) → (is_idle ms || t) ≡ false → ms ≢ []
still_moving [] t h = cc
still_moving (m ∷ ms) t h = cc

until_idle-Rests :
    (limit : ℕ) (e : GameEngine) (advanced_ms : ℕ)
    → advanced_ms + sync_frame_ms * limit ≡ max_sync_advance_ms
    → IsValid e
    → Returns (Rests limit e) (until_idle (suc limit) e advanced_ms)
unfolding until_idle
until_idle-Rests zero e advanced_ms time v =
    let ends = not_over (active_motions e) advanced_ms time in
    record { out = e; returns = rw ends; holds = stop zero e v (inr refl) }
until_idle-Rests (suc limit) e advanced_ms time v =
    elim (Bool-cases (is_idle (active_motions e) || leb max_sync_advance_ms advanced_ms)) [
      | inl ends ↦ record {
        out = e;
        returns = rw ends;
        holds = stop (suc limit) e v (over (active_motions e) (suc limit) advanced_ms time ends);
      }
      | inr runs ↦
          let step = advance-Evolves e sync_frame_ms v in
          let rest =
            until_idle-Rests limit step.out (advanced_ms + sync_frame_ms) (omega arith)
              step.holds.valid in
          record {
            out = rest.out;
            returns = rw runs (rw step.returns rest.returns);
            holds =
                frame limit e step.out rest.out (still_moving (active_motions e) _ runs)
                  step.returns step.holds rest.holds;
          }
    ]

-- From a valid engine the loop returns: it is a run of the clock in at most 750 frames of 16 ms,
-- which are 12 seconds. Every one of its frames begins with some motion in flight, and it ends with
-- none in flight or after all 750 frames.
pub advance_until_idle-Rests :
    (e : GameEngine) → IsValid e → Returns (Rests 750 e) (advance_until_idle e)
advance_until_idle-Rests e v = until_idle-Rests 750 e 0 refl v

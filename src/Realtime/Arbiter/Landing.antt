-- ===== src/Realtime/Arbiter/Landing.antt =====
-- The loop over the landing jumps: a piece that stands where a jump ends cools down.
use kong_fu_chess.Prelude.{
  ℕ, ◌+◌, leb, any, Bool, true, not, ◌&&◌, Bool-cases, List, [], ◌∷◌, Returns, if◌then◌else◌, ◌≡◌,
  ◌≢◌, if_not, refl, ap, ◌∙◌, inl, inr, arith,
}
use kong_fu_chess.Model.Piece.{is_empty, set_jump_cooldown}
use kong_fu_chess.Model.Position.{Position, position_eq, position_eq_iff, position_eq-false}
use kong_fu_chess.Model.Board.{Board, in_bounds}
use kong_fu_chess.Model.Board.Laws.{in_bounds-SameShape}
use kong_fu_chess.Model.Board.View.{View, update, Shows, Shows-eq, cell-Shows, put_if-Shows}
use kong_fu_chess.Realtime.Motion.{jump, motion_type_eq, Motion, is_expired_of}
use kong_fu_chess.Realtime.Arbiter.{jump_cooldown_ms, land_jump, land_jumps}

-- A jump that has run its time now started on the square.
abbrev pub jump_ends_at : ℕ → List Motion → Position → Bool
jump_ends_at now motions q =
    any
      (λ m.
        motion_type_eq m.type jump
        && leb (m.started_at_ms + m.duration_ms) now
        && position_eq m.source q)
      motions

abbrev pub landing : ℕ → List Motion → View → View
landing now motions f q =
    if jump_ends_at now motions q && not (is_empty (f q))
    then record (f q) { jump_cooldown_remaining_ms = 2000; jump_cooldown_total_ms = 2000 }
    else f q

module _ (b : Board) (now : ℕ) where
  no_landing :
      (m : Motion) (f : View) (q : Position) → m.source ≢ q → f q ≡ landing now (m ∷ []) f q
  no_landing m f q far = rw (position_eq-false m.source q far) (ground arith)

  landing_once :
      (m : Motion) (f : View) (q : Position)
      → is_expired_of jump now m ≡ true
      → update f m.source
          (if not (is_empty (f m.source))
            then set_jump_cooldown (f m.source) jump_cooldown_ms
            else f m.source)
          q
        ≡ landing now (m ∷ []) f q
  landing_once m f q ends = elim (Bool-cases (position_eq m.source q)) [
    | inl here ↦ rw (ends, here) (rw ((position_eq_iff m.source q).0 here))
    | inr far ↦ rw (ends, far)
  ]

  land_jump-Shows :
      (m : Motion) (b' : Board) (f : View)
      → Shows b f b'
      → Returns (Shows b (landing now (m ∷ []) f)) (land_jump now m b')
  unfolding land_jump
  land_jump-Shows m b' f s = elim (Bool-cases (is_expired_of jump now m)) [
    | inr later ↦ record {
      out = b';
      returns = rw later;
      holds = Shows-eq b b' _ _ (λ q h. rw later) s;
    }
    | inl ends ↦ elim (Bool-cases (in_bounds b m.source)) [
      | inr off ↦ record {
        out = b';
        returns = rw (ends, in_bounds-SameShape s.shape m.source, off);
        holds = Shows-eq b b' _ _ (λ q h. no_landing m f q (λ e. cc (ap (in_bounds b) e))) s;
      }
      | inl inside ↦
          let put =
            put_if-Shows b b' f s m.source inside (not (is_empty (f m.source)))
              (set_jump_cooldown (f m.source) jump_cooldown_ms) in
          record {
            out = put.out;
            returns =
                rw
                  (
                    ends,
                    in_bounds-SameShape s.shape m.source,
                    inside,
                    cell-Shows b b' f s m.source inside,
                  )
                  (if_not (is_empty (f m.source)) _ _ ∙ put.returns);
            holds = Shows-eq b put.out _ _ (λ q h. landing_once m f q ends) put.holds;
          }
    ]
  ]

  landing_then :
      (m : Motion) (ms : List Motion) (f : View) (q : Position)
      → landing now ms (landing now (m ∷ []) f) q ≡ landing now (m ∷ ms) f q
  landing_then m ms f q = ground arith

  -- From a board whose pieces are known, the loop over the landing jumps accesses no square off the
  -- board; each piece on a square where a jump ends now gets the jump cooldown of two seconds, once or more often
  -- alike, and every other square stays as it was.
  pub land_jumps-Shows :
      (ms : List Motion) (b' : Board) (f : View)
      → Shows b f b'
      → Returns (Shows b (landing now ms f)) (land_jumps now ms b')
  unfolding land_jumps
  land_jumps-Shows [] b' f s = record {
    out = b';
    returns = refl;
    holds = Shows-eq b b' _ _ (λ q h. refl) s;
  }
  land_jumps-Shows (m ∷ ms) b' f s =
      let first = land_jump-Shows m b' f s in
      let rest = land_jumps-Shows ms first.out _ first.holds in
      record {
        out = rest.out;
        returns = rw first.returns rest.returns;
        holds = Shows-eq b rest.out _ _ (λ q h. landing_then m ms f q) rest.holds;
      }

-- ===== src/Realtime/Arbiter/Cooldown.antt =====
-- `decreaseAllCooldowns` reaches every piece once.
use kong_fu_chess.Prelude.{
  ℕ, zero, suc, ◌+◌, ◌-◌, ◌<◌, ltb, ◌==◌, pos, pos_part, neg_part, Bool, true, false, ◌&&◌, ◌||◌,
  Bool-cases, Returns, Returns-weaken, if◌then◌else◌, ◌≡◌, refl, subst, inl, inr, arith,
}
use kong_fu_chess.Model.Piece.{Piece, count_down, decrease_cooldown}
use kong_fu_chess.Model.Position.{Position, square, position_eq, position_eq_iff}
use kong_fu_chess.Model.Board.{Board, rows, cols, in_bounds}
use kong_fu_chess.Model.Board.Laws.{IsRect, piece_at, in_bounds_iff}
use kong_fu_chess.Model.Board.View.{
  View, update, Shows, Shows-self, Shows-eq, cell-Shows, put-Shows,
}
use kong_fu_chess.Realtime.Arbiter.{cool_cols, cool_rows, decrease_all_cooldowns}

-- The square lies before column `c` of row `r`, in reading order.
abbrev before : ℕ → ℕ → Position → Bool
before r c q = ltb (pos_part q.row) r || (pos_part q.row == r) && ltb (pos_part q.col) c

-- Before that square every cooldown has been lowered.
abbrev cooled_before : ℕ → View → ℕ → ℕ → View
cooled_before ms f r c q = if before r c q then decrease_cooldown (f q) ms else f q

before_here : (r c : ℕ) → before r c (square (pos r) (pos c)) ≡ false
before_here r c = ground arith

before_next : (r c : ℕ) → before r (c + 1) (square (pos r) (pos c)) ≡ true
before_next r c = ground arith

before_start : (q : Position) → before 0 0 q ≡ false
before_start q = ground arith

before_end : (n : ℕ) (q : Position) → pos_part q.row < n → before n 0 q ≡ true
before_end n q h = ground arith

before_far :
    (r c : ℕ) (q : Position)
    → neg_part q.row ≡ 0
    → neg_part q.col ≡ 0
    → position_eq (square (pos r) (pos c)) q ≡ false
    → before r c q ≡ before r (c + 1) q
before_far r c q h k ne = ground arith

module _ (b : Board) (ms : ℕ) (f : View) where
  cool_cell :
      (r c : ℕ) (q : Position)
      → in_bounds b q ≡ true
      → update
          (cooled_before ms f r c)
          (square (pos r) (pos c))
          (decrease_cooldown (cooled_before ms f r c (square (pos r) (pos c))) ms)
          q
        ≡ cooled_before ms f r (c + 1) q
  cool_cell r c q h = elim (Bool-cases (position_eq (square (pos r) (pos c)) q)) [
    | inl here ↦
        let same = (position_eq_iff (square (pos r) (pos c)) q).0 here in
        rw here (rw (before_here r c) (rw (← same) (rw (before_next r c))))
    | inr far ↦ let i = (in_bounds_iff b q).0 h in rw (far, before_far r c q i.0 i.1 far)
  ]

  row_done :
      (r : ℕ) (q : Position)
      → in_bounds b q ≡ true
      → cooled_before ms f r (cols b) q ≡ cooled_before ms f (r + 1) 0 q
  row_done r q h = let i = (in_bounds_iff b q).0 h in ground arith

  cool_cols-Shows :
      (r left c : ℕ) (b' : Board)
      → c + left ≡ cols b
      → r < rows b
      → Shows b (cooled_before ms f r c) b'
      → Returns (Shows b (cooled_before ms f r (cols b))) (cool_cols ms r left c b')
  unfolding cool_cols
  cool_cols-Shows r zero c b' e h s = record {
    out = b';
    returns = refl;
    holds = subst (λ k. Shows b (cooled_before ms f r k) b') (omega arith) s;
  }
  cool_cols-Shows r (suc left) c b' e h s =
      let here = square (pos r) (pos c) in
      let inside = (in_bounds_iff b here).1 (refl, refl, h, omega arith) in
      let step =
        put-Shows b b' _ s here inside (decrease_cooldown (cooled_before ms f r c here) ms) in
      let rest =
        cool_cols-Shows r left (c + 1) step.out (omega arith) h
          (Shows-eq b step.out _ _ (λ q k. cool_cell r c q k) step.holds) in
      record {
        out = rest.out;
        returns = rw (cell-Shows b b' _ s here inside, step.returns) rest.returns;
        holds = rest.holds;
      }

  cool_rows-Shows :
      (left r : ℕ) (b' : Board)
      → r + left ≡ rows b
      → Shows b (cooled_before ms f r 0) b'
      → Returns (Shows b (cooled_before ms f (rows b) 0)) (cool_rows ms left r b')
  unfolding cool_rows
  cool_rows-Shows zero r b' e s = record {
    out = b';
    returns = refl;
    holds = subst (λ k. Shows b (cooled_before ms f k 0) b') (omega arith) s;
  }
  cool_rows-Shows (suc left) r b' e s =
      let row = cool_cols-Shows r (cols b) 0 b' (omega arith) (omega arith) s in
      let rest =
        cool_rows-Shows left (r + 1) row.out (omega arith)
          (Shows-eq b row.out _ _ (λ q k. row_done r q k) row.holds) in
      record {
        out = rest.out;
        returns = rw (s.shape.cols_eq, row.returns) rest.returns;
        holds = rest.holds;
      }

-- The piece after a time: neither cooldown goes below 0, where the difference stops.
abbrev pub rested_for : ℕ → Piece → Piece
rested_for ms p = record p {
  move_cooldown_remaining_ms = p.move_cooldown_remaining_ms - ms;
  jump_cooldown_remaining_ms = p.jump_cooldown_remaining_ms - ms;
}

count_down_lem : (remaining ms : ℕ) → count_down remaining ms ≡ remaining - ms
count_down_lem remaining ms = ground arith

decrease_cooldown_lem : (p : Piece) (ms : ℕ) → decrease_cooldown p ms ≡ rested_for ms p
decrease_cooldown_lem p ms =
    rw
      (
        count_down_lem p.move_cooldown_remaining_ms ms,
        count_down_lem p.jump_cooldown_remaining_ms ms,
      )
      refl

-- On a rectangular board `decreaseAllCooldowns` reads and writes no square off the board; both
-- cooldowns of the piece on every square go down by the time passed, no further than to 0, and
-- nothing else changes.
pub decrease_all_cooldowns-Shows :
    (b : Board) (ms : ℕ)
    → IsRect b
    → Returns (Shows b (λ q. rested_for ms (piece_at b q))) (decrease_all_cooldowns b ms)
unfolding decrease_all_cooldowns
decrease_all_cooldowns-Shows b ms rect =
    Returns-weaken _ _ _
      (cool_rows-Shows b ms (piece_at b) (rows b) 0 b (omega arith)
        (Shows-eq b b _ _ (λ q h. rw (before_start q)) (Shows-self b rect)))
      (λ b' s.
        Shows-eq b b' _ _
          (λ q h.
            rw (before_end (rows b) q ((in_bounds_iff b q).0 h).2)
              (decrease_cooldown_lem (piece_at b q) ms))
          s)

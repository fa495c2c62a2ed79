-- ===== src/Realtime/Arrival/Effects.antt =====
-- What the arrival of a move does to the board, in every branch of `resolveMoveArrival`.
use kong_fu_chess.Prelude.{
  Bool, true, false, not, ◌&&◌, Bool-cases, List, [], ◌∷◌, ◌++◌, Result, Returns, if◌then◌else◌,
  ◌≡◌, ◌≢◌, ◌⊎◌, subst, ap, refl, ◌∙◌, inl, inr, arith, ◌==ℤ◌, refuted,
}
use kong_fu_chess.Model.Piece.{
  Color, white, black, queen, pawn, Piece, empty_piece, color_eq, color_eq_iff, type_eq, is_empty,
  promote, mark_moved,
}
use kong_fu_chess.Model.Position.{Position, position_eq, position_eq_iff, position_eq-false}
use kong_fu_chess.Model.Board.{Board, in_bounds}
use kong_fu_chess.Model.Board.Laws.{IsRect, piece_at, cell-in_bounds}
use kong_fu_chess.Model.Board.View.{
  View, update, update_self, Shows, Shows-self, Shows-eq, cell-Shows, remove_piece_at-Shows,
  move_piece-Shows, put_if-Shows,
}
use kong_fu_chess.Realtime.Motion.{Motion}
use kong_fu_chess.Realtime.Resolution.{completed_move, jump_capture}
use kong_fu_chess.Realtime.Arrival.{
  Tick, is_jump_active_at, square_arrived_this_tick, last_row, promote_pawn_if_eligible, mark_pawn,
  is_gone, jump_capture_event, completed_move_event, jump_captures, loses_tie, completes, meets,
  arrives, resolve_move_arrival,
}

-- A piece that has arrived on `p`: a pawn is marked, and becomes a queen on its last row.
abbrev pub crowned : Board → Position → Piece → Piece
crowned b p x =
    if not (type_eq x.kind pawn)
    then x
    else if p.row ==ℤ last_row b x.color
    then promote (mark_moved x) queen
    else mark_moved x

module _ (b b' : Board) (f : View) (s : Shows b f b') (p : Position)
    (inside : in_bounds b p ≡ true) where
  mark_pawn-Shows :
      Returns
        (Shows b (update f p (if type_eq (f p).kind pawn then mark_moved (f p) else f p)))
        (mark_pawn b' p)
  unfolding mark_pawn
  mark_pawn-Shows = rw (cell-Shows b b' f s p inside) (put_if-Shows b b' f s p inside _ _)

  abbrev reaches_end : Bool
  reaches_end = type_eq (f p).kind pawn && (p.row ==ℤ last_row b (f p).color)

  -- The two tests of the code as one.
  one_test :
      (t u : Bool) (x y : Result Board)
      → (if not t then y else if u then x else y) ≡ (if t && u then x else y)
  one_test t u x y = ground arith

  same_end : (c : Color) → last_row b' c ≡ last_row b c
  same_end white = refl
  same_end black = rw s.shape.rows_eq

  promote-Shows :
      Returns
        (Shows b (update f p (if reaches_end then promote (f p) queen else f p)))
        (promote_pawn_if_eligible b' p)
  unfolding promote_pawn_if_eligible
  promote-Shows =
      rw (cell-Shows b b' f s p inside)
        (rw same_end (rw one_test (put_if-Shows b b' f s p inside reaches_end _)))

-- The board after the move of `m` has landed: the source is free, the target holds the piece.
abbrev pub landed : Board → Motion → View → View
landed b m f =
    update (update f m.destination (crowned b m.destination (f m.source))) m.source empty_piece

-- Before the arrival: what the code finds on the source and on the target.
module _ (active : List Motion) (m : Motion) (s : Tick) where
  abbrev pub mover : Piece
  mover = piece_at s.board m.source

  abbrev pub target : Piece
  target = piece_at s.board m.destination

  abbrev pub Meets : Type 0
  Meets = (is_gone m mover ≡ false) × (is_empty target ≡ false) × (target.color ≢ mover.color)

  -- The four outcomes of an arrival.
  pub data Arrives (t : Tick) : Type 0 where
    stays :
        (is_gone m mover ≡ true) ⊎ (is_empty target ≡ false) × (target.color ≡ mover.color)
        → t ≡ s
        → Arrives t
    shot_down :
        Meets
        → is_jump_active_at active m.destination ≡ true
        → Shows s.board (update (piece_at s.board) m.source empty_piece) t.board
        → t.arrived ≡ s.arrived
        → t.resolutions ≡ s.resolutions ++ jump_capture (jump_capture_event m target) ∷ []
        → Arrives t
    comes_second :
        Meets
        → is_jump_active_at active m.destination ≡ false
        → square_arrived_this_tick s.arrived m.destination ≡ true
        → Shows s.board (update (piece_at s.board) m.source empty_piece) t.board
        → t.arrived ≡ s.arrived
        → t.resolutions ≡ s.resolutions
        → Arrives t
    lands :
        is_gone m mover ≡ false
        → (is_empty target ≡ true)
          ⊎ Meets
            × (is_jump_active_at active m.destination ≡ false)
            × (square_arrived_this_tick s.arrived m.destination ≡ false)
        → Shows s.board (landed s.board m (piece_at s.board)) t.board
        → t.arrived ≡ s.arrived ++ m.destination ∷ []
        → t.resolutions ≡ s.resolutions ++ completed_move (completed_move_event m target) ∷ []
        → Arrives t

  module _ (rect : IsRect s.board) (src_in : in_bounds s.board m.source ≡ true)
      (dst_in : in_bounds s.board m.destination ≡ true) (apart : m.source ≢ m.destination) where
    abbrev lifted : View
    lifted = update (update (piece_at s.board) m.destination mover) m.source empty_piece

    lifted_there : lifted m.destination ≡ mover
    lifted_there =
        rw (position_eq-false m.source m.destination apart)
          (rw ((position_eq_iff m.destination m.destination).1 refl))

    landed_lem :
        (x y : Piece) (q : Position)
        → y ≡ crowned s.board m.destination mover
        → update (update lifted m.destination x) m.destination y q
          ≡ landed s.board m (piece_at s.board) q
    landed_lem x y q e = elim (Bool-cases (position_eq m.destination q)) [
      | inl there ↦
          let same = (position_eq_iff m.destination q).0 there in
          let off : position_eq m.source q ≡ false =
            subst (λ z. position_eq m.source z ≡ false) same
              (position_eq-false m.source m.destination apart) in
          rw (there, off) e
      | inr far ↦ rw far
    ]

    -- What the last write puts on the target.
    abbrev crowning : Piece → Piece
    crowning x =
        if type_eq x.kind pawn && (m.destination.row ==ℤ last_row s.board x.color)
        then promote x queen
        else x

    abbrev marked_mover : Piece
    marked_mover = if type_eq mover.kind pawn then mark_moved mover else mover

    crowned_lem : crowning marked_mover ≡ crowned s.board m.destination mover
    crowned_lem = ground arith

    abbrev mark : Piece → Piece
    mark x = if type_eq x.kind pawn then mark_moved x else x

    abbrev marked : View
    marked = update lifted m.destination (mark (lifted m.destination))

    marked_there : marked m.destination ≡ marked_mover
    marked_there = update_self lifted m.destination _ ∙ ap mark lifted_there

    completes-Arrives :
        is_gone m mover ≡ false
        → (is_empty target ≡ true)
          ⊎ Meets
            × (is_jump_active_at active m.destination ≡ false)
            × (square_arrived_this_tick s.arrived m.destination ≡ false)
        → Returns Arrives (completes m target s)
    unfolding completes
    completes-Arrives present free =
        let first =
          move_piece-Shows s.board s.board (piece_at s.board) m.source m.destination
            (Shows-self s.board rect) src_in dst_in in
        let second = mark_pawn-Shows s.board first.out lifted first.holds m.destination dst_in in
        let third = promote-Shows s.board second.out _ second.holds m.destination dst_in in
        record {
          out = record {
            board = third.out;
            arrived = s.arrived ++ m.destination ∷ [];
            resolutions = s.resolutions ++ completed_move (completed_move_event m target) ∷ [];
          };
          returns = rw (first.returns, second.returns, third.returns);
          holds =
              lands present free
                (Shows-eq _ _ _ _
                  (λ q h.
                    landed_lem (mark (lifted m.destination)) (crowning (marked m.destination)) q
                      (ap crowning marked_there ∙ crowned_lem))
                  third.holds)
                refl refl;
        }

    meets-Arrives : is_gone m mover ≡ false → Returns Arrives (meets active m s mover target)
    unfolding meets jump_captures loses_tie
    meets-Arrives present = elim (Bool-cases (is_empty target)) [
      | inl free ↦
          let c = completes-Arrives present (inl free) in
          record { out = c.out; returns = rw free c.returns; holds = c.holds }
      | inr taken ↦ elim (Bool-cases (color_eq target.color mover.color)) [
        | inl friend ↦ record {
          out = s;
          returns = rw (taken, friend);
          holds = stays (inr (taken, (color_eq_iff target.color mover.color).0 friend)) refl;
        }
        | inr enemy ↦
            let facts : Meets = (
              present,
              taken,
              refuted (color_eq target.color mover.color) (color_eq_iff target.color mover.color)
                  enemy,
            ) in
            let removed =
              remove_piece_at-Shows s.board s.board (piece_at s.board) (Shows-self s.board rect)
                m.source src_in in
            elim (Bool-cases (is_jump_active_at active m.destination)) [
              | inl airborne ↦ record {
                out = record s {
                  board = removed.out;
                  resolutions = s.resolutions ++ jump_capture (jump_capture_event m target) ∷ [];
                };
                returns = rw (taken, enemy, airborne, removed.returns);
                holds = shot_down facts airborne removed.holds refl refl;
              }
              | inr grounded ↦
                  elim (Bool-cases (square_arrived_this_tick s.arrived m.destination)) [
                    | inl late ↦ record {
                      out = record s { board = removed.out };
                      returns = rw (taken, enemy, grounded, late, removed.returns);
                      holds = comes_second facts grounded late removed.holds refl refl;
                    }
                    | inr first ↦
                        let c = completes-Arrives present (inr (facts, grounded, first)) in
                        record {
                          out = c.out;
                          returns = rw (taken, enemy, grounded, first) c.returns;
                          holds = c.holds;
                        }
                  ]
            ]
      ]
    ]

    -- A move between two different squares of a rectangular board accesses no square off the board
    -- when it arrives, and one of four things happens. If the mover is gone or a friend stands on
    -- the target, nothing changes; if an enemy there is in the air, the mover is taken; if an enemy
    -- came there in the same tick, the mover is dropped; otherwise it lands, and a pawn is marked as
    -- moved and becomes a queen on its last row.
    pub resolve_move_arrival-Arrives : Returns Arrives (resolve_move_arrival active m s)
    unfolding resolve_move_arrival arrives
    resolve_move_arrival-Arrives = elim (Bool-cases (is_gone m mover)) [
      | inl gone ↦ record {
        out = s;
        returns = rw (src_in, cell-in_bounds s.board m.source rect src_in, gone);
        holds = stays (inl gone) refl;
      }
      | inr present ↦
          let r = meets-Arrives present in
          record {
            out = r.out;
            returns =
                rw
                  (
                    src_in,
                    cell-in_bounds s.board m.source rect src_in,
                    present,
                    cell-in_bounds s.board m.destination rect dst_in,
                  )
                  r.returns;
            holds = r.holds;
          }
    ]

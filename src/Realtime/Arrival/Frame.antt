-- ===== src/Realtime/Arrival/Frame.antt =====
-- What an arrival leaves alone.
use kong_fu_chess.Prelude.{
  Returns, Returns-weaken, true, false, List, if◌then◌else◌, ◌≡◌, ◌≢◌, ap, ◌∙◌, inl, inr,
}
use kong_fu_chess.Model.Piece.{Piece, is_empty}
use kong_fu_chess.Model.Position.{Position, position_eq, position_eq-false}
use kong_fu_chess.Model.Board.{in_bounds}
use kong_fu_chess.Model.Board.Laws.{IsRect, piece_at, SameShape, SameShape-refl}
use kong_fu_chess.Realtime.Motion.{Motion}
use kong_fu_chess.Realtime.Arrival.{Tick}
use kong_fu_chess.Realtime.Arrival.{resolve_move_arrival}
use kong_fu_chess.Realtime.Arrival.Effects.{
  resolve_move_arrival-Arrives, Arrives, stays, shot_down, comes_second, lands, mover,
}

module _ (active : List Motion) (m : Motion) (s : Tick) where
  -- The board keeps its shape.
  pub Arrives-IsRect : (t : Tick) → IsRect s.board → Arrives active m s t → IsRect t.board
  Arrives-IsRect t rect (stays _ e) = rw e rect
  Arrives-IsRect t rect (shot_down _ _ v _ _) = v.rect
  Arrives-IsRect t rect (comes_second _ _ _ v _ _) = v.rect
  Arrives-IsRect t rect (lands _ _ v _ _) = v.rect

  pub Arrives-SameShape : (t : Tick) → Arrives active m s t → SameShape s.board t.board
  Arrives-SameShape t (stays _ e) = rw e (SameShape-refl s.board)
  Arrives-SameShape t (shot_down _ _ v _ _) = v.shape
  Arrives-SameShape t (comes_second _ _ _ v _ _) = v.shape
  Arrives-SameShape t (lands _ _ v _ _) = v.shape

  update_ne : (p q : Position) (x y : Piece) → p ≢ q → (if position_eq p q then x else y) ≡ y
  update_ne p q x y ne = rw (position_eq-false p q ne)

  -- Only the source and the target change.
  pub Arrives-elsewhere :
      (t : Tick) (q : Position)
      → Arrives active m s t
      → in_bounds s.board q ≡ true
      → m.source ≢ q
      → m.destination ≢ q
      → piece_at t.board q ≡ piece_at s.board q
  Arrives-elsewhere t q (stays _ e) h ns nd = rw e
  Arrives-elsewhere t q (shot_down _ _ v _ _) h ns nd = v.reads q h ∙ update_ne m.source q _ _ ns
  Arrives-elsewhere t q (comes_second _ _ _ v _ _) h ns nd =
      v.reads q h ∙ update_ne m.source q _ _ ns
  Arrives-elsewhere t q (lands _ _ v _ _) h ns nd =
      v.reads q h ∙ update_ne m.source q _ _ ns ∙ update_ne m.destination q _ _ nd

  -- A friend of the mover stays in each of the outcomes.
  pub Arrives-spares_friends :
      (t : Tick) (q : Position)
      → Arrives active m s t
      → in_bounds s.board q ≡ true
      → m.source ≢ q
      → is_empty (piece_at s.board q) ≡ false
      → (piece_at s.board q).color ≡ (mover active m s).color
      → piece_at t.board q ≡ piece_at s.board q
  Arrives-spares_friends t q (stays _ e) h ns there friend = rw e
  Arrives-spares_friends t q (shot_down _ _ v _ _) h ns there friend =
      v.reads q h ∙ update_ne m.source q _ _ ns
  Arrives-spares_friends t q (comes_second _ _ _ v _ _) h ns there friend =
      v.reads q h ∙ update_ne m.source q _ _ ns
  Arrives-spares_friends t q (lands p (inl free) v a r) h ns there friend =
      Arrives-elsewhere t q (lands p (inl free) v a r) h ns
        (λ e. cc (ap (λ z. is_empty (piece_at s.board z)) e))
  Arrives-spares_friends t q (lands p (inr (meets, calm, late)) v a r) h ns there friend =
      Arrives-elsewhere t q (lands p (inr (meets, calm, late)) v a r) h ns
        (λ e. meets.2 (ap (λ z. (piece_at s.board z).color) e ∙ friend))

  -- When a move between two different squares of a rectangular board arrives, every piece of the
  -- mover's colour on another square than the mover's own stays where and as it is.
  pub resolve_move_arrival-spares_friends :
      (q : Position)
      → IsRect s.board
      → in_bounds s.board m.source ≡ true
      → in_bounds s.board m.destination ≡ true
      → m.source ≢ m.destination
      → in_bounds s.board q ≡ true
      → m.source ≢ q
      → is_empty (piece_at s.board q) ≡ false
      → (piece_at s.board q).color ≡ (piece_at s.board m.source).color
      → Returns (λ t. piece_at t.board q ≡ piece_at s.board q) (resolve_move_arrival active m s)
  resolve_move_arrival-spares_friends q rect from_in to_in apart on far stands friend =
      Returns-weaken _ _ _ (resolve_move_arrival-Arrives active m s rect from_in to_in apart)
        (λ t a. Arrives-spares_friends t q a on far stands friend)

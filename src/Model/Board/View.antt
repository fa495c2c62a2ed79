-- ===== src/Model/Board/View.antt =====
-- A board under change, followed by what stands on its squares.
use kong_fu_chess.Prelude.{
  Bool, true, false, Bool-cases, ok, Returns, if◌then◌else◌, ◌≡◌, refl, sym, ap, ◌∙◌, inl, inr,
  Returns-bind, refuted,
}
use kong_fu_chess.Model.Piece.{Piece, empty_piece}
use kong_fu_chess.Model.Position.{Position, position_eq, position_eq_iff}
use kong_fu_chess.Model.Board.{Board, in_bounds, cell, put, move_piece, remove_piece_at}
use kong_fu_chess.Model.Board.Laws.{
  IsRect, piece_at, replace, SameShape, SameShape-refl, SameShape-trans, in_bounds-SameShape,
  cell-in_bounds, put-in_bounds, replace-SameShape, replace-IsRect, piece_at-replace_self,
  piece_at-replace_ne,
}

-- What stands on each square.
abbrev pub View : Type 0
View = Position → Piece

abbrev pub update : View → Position → Piece → View
update f p x q = if position_eq p q then x else f q

-- `b'` has the shape of `b`, and the pieces of `f` on its squares.
pub record Shows (b : Board) (f : View) (b' : Board) : Type 0 where
  pub rect : IsRect b'
  pub shape : SameShape b b'
  pub reads : (q : Position) → in_bounds b q ≡ true → piece_at b' q ≡ f q

pub Shows-self : (b : Board) → IsRect b → Shows b (piece_at b) b
Shows-self b rect = record { rect = rect; shape = SameShape-refl b; reads = λ q h. refl }

pub Shows-rebase : (b b' c : Board) (f g : View) → Shows b f b' → Shows b' g c → Shows b g c
Shows-rebase b b' c f g s t = record {
  rect = t.rect;
  shape = SameShape-trans s.shape t.shape;
  reads = λ q h. t.reads q (in_bounds-SameShape s.shape q ∙ h);
}

pub Shows-eq :
    (b b' : Board) (f g : View)
    → ((q : Position) → in_bounds b q ≡ true → f q ≡ g q)
    → Shows b f b'
    → Shows b g b'
Shows-eq b b' f g e s = record {
  rect = s.rect;
  shape = s.shape;
  reads = λ q h. s.reads q h ∙ e q h;
}

module _ (b b' : Board) (f : View) (s : Shows b f b') (p : Position)
    (inside : in_bounds b p ≡ true) where
  pub still_in : in_bounds b' p ≡ true
  still_in = in_bounds-SameShape s.shape p ∙ inside

  pub cell-Shows : cell b' p ≡ ok (f p)
  cell-Shows = rw (cell-in_bounds b' p s.rect still_in, s.reads p inside)

  pub put-Shows : (x : Piece) → Returns (Shows b (update f p x)) (put b' p x)
  put-Shows x = record {
    out = replace b' p x;
    returns = put-in_bounds b' p s.rect still_in x;
    holds = record {
      rect = replace-IsRect b' p s.rect still_in x;
      shape = SameShape-trans s.shape (replace-SameShape b' p s.rect still_in x);
      reads = λ q h. elim (Bool-cases (position_eq p q)) [
        | inl same ↦
            rw (same, ← (position_eq_iff p q).0 same) (piece_at-replace_self b' p s.rect still_in x)
        | inr far ↦
            let ne = refuted (position_eq p q) (position_eq_iff p q) far in
            rw far (
              piece_at-replace_ne b' p s.rect still_in x q (in_bounds-SameShape s.shape q ∙ h) ne
              ∙ s.reads q h)
      ];
    };
  }

  pub remove_piece_at-Shows : Returns (Shows b (update f p empty_piece)) (remove_piece_at b' p)
  unfolding remove_piece_at
  remove_piece_at-Shows = put-Shows empty_piece

pub move_piece-Shows :
    (b b' : Board) (f : View) (from to : Position)
    → Shows b f b'
    → in_bounds b from ≡ true
    → in_bounds b to ≡ true
    → Returns (Shows b (update (update f to (f from)) from empty_piece)) (move_piece b' from to)
unfolding move_piece
move_piece-Shows b b' f from to s from_in to_in = rw (cell-Shows b b' f s from from_in) (
    Returns-bind _ _ _ _ (put-Shows b b' f s to to_in (f from))
      (λ moved t. put-Shows b moved _ t from from_in empty_piece))

module _ (b b' : Board) (f : View) (s : Shows b f b') (p : Position)
    (inside : in_bounds b p ≡ true) where
  pub Shows-update_self : Shows b (update f p (f p)) b'
  Shows-update_self = Shows-eq b b' f (update f p (f p)) (λ q h. same q) s
    where
      same : (q : Position) → f q ≡ update f p (f p) q
      same q = elim (Bool-cases (position_eq p q)) [
        | inl e ↦ rw e (ap f (sym ((position_eq_iff p q).0 e)))
        | inr e ↦ rw e
      ]

  -- A write under a test.
  pub put_if-Shows :
      (t : Bool) (x : Piece)
      → Returns (Shows b (update f p (if t then x else f p))) (if t then put b' p x else ok b')
  put_if-Shows true x = put-Shows b b' f s p inside x
  put_if-Shows false x = record { out = b'; returns = refl; holds = Shows-update_self }

pub update_self : (f : View) (p : Position) (x : Piece) → update f p x p ≡ x
update_self f p x = rw ((position_eq_iff p p).1 refl)

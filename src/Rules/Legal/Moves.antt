-- ===== src/Rules/Legal/Moves.antt =====
-- `canMove` and `validateMove` decide the legal moves.
use kong_fu_chess.Prelude.{
  ltb, Bool, true, false, not, ◌&&◌, Bool-cases, refuted, &&_iff, ok, Decides, if◌then◌else◌, ◌≡◌,
  ◌≢◌, ◌⊎◌, refl, inl, inr, arith,
}
use kong_fu_chess.Model.Piece.{
  PieceType, empty, king, queen, rook, bishop, knight, pawn, Piece, type_eq, is_empty, is_friendly,
}
use kong_fu_chess.Model.Position.{Position, position_eq, position_eq_iff}
use kong_fu_chess.Model.Board.{Board, in_bounds}
use kong_fu_chess.Model.Board.Laws.{IsRect, piece_at, cell-in_bounds}
use kong_fu_chess.Rules.{can_move, validate_move, validate_piece, allows, lands, judge}
use kong_fu_chess.Rules.Movement.{
  movement_for, movement_can_move, king_can_move, queen_can_move, knight_can_move,
}
use kong_fu_chess.Rules.Legal.Reach.{Reaches, IsEnemy, IsLegal}
use kong_fu_chess.Rules.Legal.Slides.{
  can_slide_straight-Decides, can_slide_diagonal-Decides, apart_somewhere,
}
use kong_fu_chess.Rules.Legal.Pawns.{pawn_can_move-Decides}

nothing_reaches :
    (b : Board) (from to : Position) (p : Piece) (t : PieceType)
    → type_eq t empty ≡ true
    → ¬ Reaches b from to p t
nothing_reaches b from to p empty e r = r
nothing_reaches b from to p king e r = cc
nothing_reaches b from to p _ e r = cc

module _ (b : Board) (from to : Position) (rect : IsRect b) (from_in : in_bounds b from ≡ true)
    (to_in : in_bounds b to ≡ true) (ne : from ≢ to) where
  king_lem : (p : Piece) → Decides (Reaches b from to p king) (ok (king_can_move from to))
  unfolding king_can_move
  king_lem p = record {
    out = king_can_move from to;
    returns = refl;
    holds = (ground arith, ground (arith, apart_somewhere from to ne));
  }

  knight_lem : (p : Piece) → Decides (Reaches b from to p knight) (ok (knight_can_move from to))
  unfolding knight_can_move
  knight_lem p = record {
    out = knight_can_move from to;
    returns = refl;
    holds = (ground arith, ground arith);
  }

  queen_lem : (p : Piece) → Decides (Reaches b from to p queen) (queen_can_move b from to)
  unfolding queen_can_move
  queen_lem p =
      let s = can_slide_straight-Decides b from to rect from_in to_in ne in
      let d = can_slide_diagonal-Decides b from to rect from_in to_in in
      elim (Bool-cases s.out) [
        | inl straight ↦ record {
          out = true;
          returns = rw (s.returns, straight);
          holds = (λ _. inl (s.holds.0 straight), λ _. refl);
        }
        | inr bent ↦ record {
          out = d.out;
          returns = rw (s.returns, bent) d.returns;
          holds = (
            λ e. inr (d.holds.0 e),
            elim [
              | inl slides ↦ absurd (refuted s.out s.holds bent slides)
              | inr slides ↦ d.holds.1 slides
            ],
          );
        }
      ]

  -- Each kind of piece moves as its rule says.
  allows-Decides :
      (p : Piece) (t : PieceType)
      → Decides (Reaches b from to p t) (allows (movement_for t) b from to p)
  unfolding allows movement_can_move
  allows-Decides p empty = record { out = false; returns = refl; holds = (λ e. cc, λ r. absurd r) }
  allows-Decides p king = king_lem p
  allows-Decides p queen = queen_lem p
  allows-Decides p rook = can_slide_straight-Decides b from to rect from_in to_in ne
  allows-Decides p bishop = can_slide_diagonal-Decides b from to rect from_in to_in
  allows-Decides p knight = knight_lem p
  allows-Decides p pawn = pawn_can_move-Decides b from to p rect from_in to_in

  abbrev Lands : Piece → Type 0
  Lands p = (is_empty (piece_at b to) ≡ true) ⊎ IsEnemy p.color (piece_at b to)

  lands-Decides :
      (p : Piece) (reached : Bool) → Decides ((reached ≡ true) × Lands p) (lands b to p reached)
  unfolding lands
  lands-Decides p false = record { out = false; returns = refl; holds = (λ e. cc, λ h. h.0) }
  lands-Decides p true = rw (cell-in_bounds b to rect to_in) (record {
    out =
        if not (is_empty (piece_at b to)) && is_friendly (piece_at b to) p.color
        then false
        else true;
    returns = refl;
    holds = (ground arith, ground arith);
  })

  -- A piece that stands on `from`.
  judge-Decides : (p : Piece) → Decides (Reaches b from to p p.kind × Lands p) (judge b from to p)
  unfolding judge
  judge-Decides p = elim (Bool-cases (is_empty p)) [
    | inl nothing ↦ record {
      out = false;
      returns = rw nothing;
      holds = (λ e. cc, λ h. absurd (nothing_reaches b from to p p.kind nothing h.0));
    }
    | inr piece ↦
        let a = allows-Decides p p.kind in
        let l = lands-Decides p a.out in
        record {
          out = l.out;
          returns = rw (piece, a.returns) l.returns;
          holds = (
            λ e. let both = l.holds.0 e in (a.holds.0 both.0, both.1),
            λ h. l.holds.1 (a.holds.1 h.0, h.1),
          );
        }
  ]

-- On a rectangular board `canMove` reads no square off the board, ends, and answers whether the
-- move is legal, for every pair of squares, on the board or not.
pub can_move-Decides :
    (b : Board) (from to : Position) → IsRect b → Decides (IsLegal b from to) (can_move b from to)
unfolding can_move
can_move-Decides b from to rect = elim (Bool-cases (position_eq from to)) [
  | inl same ↦ record {
    out = false;
    returns = rw same;
    holds = (λ e. cc, λ l. absurd (l.moves ((position_eq_iff from to).0 same)));
  }
  | inr differ ↦ elim (Bool-cases (in_bounds b from)) [
    | inr off ↦ record {
      out = false;
      returns = rw (differ, off);
      holds = (λ e. cc, λ l. cc l.from_in);
    }
    | inl from_in ↦ elim (Bool-cases (in_bounds b to)) [
      | inr off ↦ record {
        out = false;
        returns = rw (differ, from_in, off);
        holds = (λ e. cc, λ l. cc l.to_in);
      }
      | inl to_in ↦
          let ne = refuted (position_eq from to) (position_eq_iff from to) differ in
          let j = judge-Decides b from to rect from_in to_in ne (piece_at b from) in
          record {
            out = j.out;
            returns = rw (differ, from_in, to_in, cell-in_bounds b from rect from_in) j.returns;
            holds = (
              λ e.
                  let both = j.holds.0 e in
                  record {
                    moves = ne;
                    from_in = from_in;
                    to_in = to_in;
                    reaches = both.0;
                    lands = both.1;
                  },
              λ l. j.holds.1 (l.reaches, l.lands),
            );
          }
    ]
  ]
]

-- A legal move starts on a piece.
pub IsLegal-piece :
    (b : Board) (from to : Position) → IsLegal b from to → is_empty (piece_at b from) ≡ false
IsLegal-piece b from to l = elim (Bool-cases (is_empty (piece_at b from))) [
  | inr piece ↦ piece
  | inl nothing ↦
      absurd (nothing_reaches b from to (piece_at b from) (piece_at b from).kind nothing l.reaches)
]

validate_piece-Decides :
    (b : Board) (from to : Position)
    → IsRect b
    → Decides
        (IsLegal b from to × ((piece_at b from).move_cooldown_remaining_ms ≡ 0))
        (validate_piece b from to (piece_at b from))
unfolding validate_piece
validate_piece-Decides b from to rect = elim (Bool-cases (is_empty (piece_at b from))) [
  | inl nothing ↦ record {
    out = false;
    returns = rw nothing;
    holds = (λ e. cc, λ h. cc (IsLegal-piece b from to h.0));
  }
  | inr piece ↦ elim (Bool-cases (ltb 0 (piece_at b from).move_cooldown_remaining_ms)) [
    | inl cooling ↦ record {
      out = false;
      returns = rw (piece, cooling);
      holds = (λ e. cc, λ h. absurd (ground arith));
    }
    | inr rested ↦
        let c = can_move-Decides b from to rect in
        record {
          out = c.out;
          returns = rw (piece, rested) c.returns;
          holds = (λ e. (c.holds.0 e, ground arith), λ h. c.holds.1 h.0);
        }
  ]
]

-- On a rectangular board `validateMove` reads no square off the board, ends, and answers whether
-- the move is legal and the piece on the source is not in its move cooldown.
pub validate_move-Decides :
    (b : Board) (from to : Position)
    → IsRect b
    → Decides
        (IsLegal b from to × ((piece_at b from).move_cooldown_remaining_ms ≡ 0))
        (validate_move b from to)
unfolding validate_move
validate_move-Decides b from to rect = elim (Bool-cases (in_bounds b from && in_bounds b to)) [
  | inl here ↦
      let both = (&&_iff (in_bounds b from) (in_bounds b to)).0 here in
      let v = validate_piece-Decides b from to rect in
      record {
        out = v.out;
        returns = rw (both.0, both.1, cell-in_bounds b from rect both.0) v.returns;
        holds = v.holds;
      }
  | inr off ↦ record {
    out = false;
    returns = ground arith;
    holds = (
      λ e. cc,
      λ h. cc ((&&_iff (in_bounds b from) (in_bounds b to)).1 (h.0.from_in, h.0.to_in)),
    );
  }
]

-- ===== src/Network/Protocol/Game/Values.antt =====
-- Labels and squares as values of a message.
use kong_fu_chess.Prelude.{
  ℕ, ◌+◌, ◌-◌, ◌<◌, ◌≤◌, ltb, ltb_ℤ, ◌^◌, ℤ, List, pos, All, Bool, true, false, Option, none, some,
  [], ◌∷◌, ◌++◌, if◌then◌else◌, ◌≡◌, subst, sym, ap, ◌∙◌, arith,
}
use kong_fu_chess.Model.Piece.{
  Color, white, black, PieceType, empty, king, queen, rook, bishop, knight, pawn,
}
use kong_fu_chess.Model.Position.{Position, square}
use kong_fu_chess.Io.Text.{Text, text_eq, to_string}
use kong_fu_chess.Io.Algebraic.{position_to_algebraic}
use kong_fu_chess.Io.Algebraic.RoundTrip.{written, algebraic_to_position-position_to_algebraic}
use kong_fu_chess.Engine.MoveLog.{piece_label, color_char, type_char}
use kong_fu_chess.Network.Protocol.Json.{find_after}
use kong_fu_chess.Network.Protocol.Json.Keys.{IsChar, IsPlain, int_behind}
use kong_fu_chess.Network.Protocol.Json.Fields.{
  Field, IsKey, needle, fields_text, Passes, PassesField, Passes-quote, Passes-number, int_field,
}
use kong_fu_chess.Network.Protocol.Game.{quoted_square, quoted_label, square_of}

-- A square of an 8 by 8 board.
pub record OnChessboard (p : Position) : Type 0 where
  pub row : ℕ
  pub col : ℕ
  pub row_lt : row < 8
  pub col_lt : col < 8
  pub is_square : p ≡ square (pos row) (pos col)

square_text :
    (p : Position)
    → OnChessboard p
    → (a : ℕ) × (b : ℕ) × (position_to_algebraic p ≡ a ∷ b ∷ [])
      × (b'a' ≤ a)
      × (a ≤ b'h')
      × (b'1' ≤ b)
      × (b ≤ b'8')
square_text p h =
    let row = h.row in
    let col = h.col in
    let r = h.row_lt in
    let c = h.col_lt in
    (
      b'a' + col,
      b'0' + (8 - row),
      ap position_to_algebraic h.is_square ∙ written row col r c,
      omega arith,
      omega arith,
      omega arith,
      omega arith,
    )

pub square-IsPlain : (p : Position) → OnChessboard p → All IsPlain (position_to_algebraic p)
square-IsPlain p h =
    let (a, b, e, la, ha, lb, hb) = square_text p h in subst (All IsPlain) (sym e) (omega arith)

pub square-IsChar : (p : Position) → OnChessboard p → All IsChar (position_to_algebraic p)
square-IsChar p h =
    let (a, b, e, la, ha, lb, hb) = square_text p h in subst (All IsChar) (sym e) (omega arith)

-- A text that is no square: longer than two, or with another first character.
abbrev pub NotSquare : Text → Type 0
NotSquare key = (a b : ℕ) → a ≤ b'h' → text_eq (a ∷ b ∷ []) key ≡ false

pub Passes-square :
    (key : Text) (p : Position)
    → IsKey key
    → NotSquare key
    → OnChessboard p
    → Passes key (quoted_square p)
Passes-square key p k other h =
    let (a, b, e, la, ha, lb, hb) = square_text p h in
    Passes-quote key (position_to_algebraic p) k (square-IsPlain p h)
      (ap (λ t. text_eq t key) e ∙ other a b ha)

abbrev on_board : Position → Option Position
on_board p = if ltb_ℤ p.row (pos 0) then none else some p

row_ok : (row : ℕ) → ltb (row + 0) 0 ≡ false
row_ok row = ground arith

pub square_of-text : (p : Position) → OnChessboard p → square_of (position_to_algebraic p) ≡ some p
square_of-text p h =
    ap (λ q. square_of (position_to_algebraic q)) h.is_square
    ∙ ap on_board (algebraic_to_position-position_to_algebraic h.row h.col h.row_lt h.col_lt)
    ∙ rw (row_ok h.row) (ap some (sym h.is_square))

color_char-IsPlain : (c : Color) → IsPlain (color_char c)
color_char-IsPlain white = omega arith
color_char-IsPlain black = omega arith

type_char-IsPlain : (t : PieceType) → IsPlain (type_char t)
type_char-IsPlain empty = omega arith
type_char-IsPlain king = omega arith
type_char-IsPlain queen = omega arith
type_char-IsPlain rook = omega arith
type_char-IsPlain bishop = omega arith
type_char-IsPlain knight = omega arith
type_char-IsPlain pawn = omega arith

pub label-IsPlain : (t : PieceType) (c : Color) → All IsPlain (piece_label t c)
label-IsPlain t c = (color_char-IsPlain c, (type_char-IsPlain t, tt))

pub label-IsChar : (t : PieceType) (c : Color) → All IsChar (piece_label t c)
label-IsChar t c = ((color_char-IsPlain c).0, ((type_char-IsPlain t).0, tt))

abbrev pub NotLabel : Text → Type 0
NotLabel key = (t : PieceType) (c : Color) → text_eq (piece_label t c) key ≡ false

pub Passes-label :
    (key : Text) (t : PieceType) (c : Color)
    → IsKey key
    → NotLabel key
    → Passes key (quoted_label t c)
Passes-label key t c k other = Passes-quote key (piece_label t c) k (label-IsPlain t c) (other t c)

-- A number that an `int` holds and that is not negative.
pub record IsCount (z : ℤ) : Type 0 where
  pub number : ℕ
  pub fits : number < 2 ^ 31
  pub is_pos : z ≡ pos number

pub Passes-count : (key : Text) (z : ℤ) → IsCount z → Passes key (to_string z)
Passes-count key z h =
    subst (λ (y : ℤ). Passes key (to_string y)) (sym h.is_pos) (Passes-number key h.number)

pub count_field :
    (key : Text) (prev : List Field) (z : ℤ) (rest : List Field)
    → IsKey key
    → All (PassesField key) prev
    → IsCount z
    → int_behind (find_after (needle key) (fields_text (prev ++ (key, to_string z) ∷ rest)))
      ≡ some z
count_field key prev z rest k h c =
    subst
      (λ (y : ℤ).
        int_behind (find_after (needle key) (fields_text (prev ++ (key, to_string y) ∷ rest)))
        ≡ some y)
      (sym c.is_pos) (int_field key k prev c.number rest h c.fits)

two_long : (a b k l m : ℕ) (ks : Text) → text_eq (a ∷ b ∷ []) (k ∷ l ∷ m ∷ ks) ≡ false
two_long a b k l m ks = ground arith

abbrev pub is_long : Text → Bool
is_long (k ∷ l ∷ m ∷ ks) = true
is_long _ = false

-- A longer key is no square and no label.
pub NotSquare-long : (key : Text) → is_long key ≡ true → NotSquare key
NotSquare-long [] long = cc
NotSquare-long (k ∷ []) long = cc
NotSquare-long (k ∷ l ∷ []) long = cc
NotSquare-long (k ∷ l ∷ m ∷ ks) long = λ a b h. two_long a b k l m ks

pub NotLabel-long : (key : Text) → is_long key ≡ true → NotLabel key
NotLabel-long [] long = cc
NotLabel-long (k ∷ []) long = cc
NotLabel-long (k ∷ l ∷ []) long = cc
NotLabel-long (k ∷ l ∷ m ∷ ks) long = λ t c. two_long (color_char c) (type_char t) k l m ks

pub NotSquare-to : NotSquare (b't' ∷ b'o' ∷ [])
NotSquare-to a b h = ground arith

pub NotLabel-to : NotLabel (b't' ∷ b'o' ∷ [])
NotLabel-to t white = ground arith
NotLabel-to t black = ground arith

-- Fields that a search for another key passes over.
module _ (name key : Text) (is_name : IsKey name) (is_key : IsKey key)
    (differs : text_eq name key ≡ false) where
  pub PassesField-count : (z : ℤ) → IsCount z → PassesField key (name, to_string z)
  PassesField-count z h = (is_name, differs, Passes-count key z h)

  pub PassesField-label :
      (t : PieceType) (c : Color) → NotLabel key → PassesField key (name, quoted_label t c)
  PassesField-label t c other = (is_name, differs, Passes-label key t c is_key other)

  pub PassesField-square :
      (p : Position) → OnChessboard p → NotSquare key → PassesField key (name, quoted_square p)
  PassesField-square p h other = (is_name, differs, Passes-square key p is_key other h)

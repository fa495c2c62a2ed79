-- ===== src/Io/BoardPrinter/Tokens.antt =====
-- The token of a piece, printed and read.
use kong_fu_chess.Prelude.{
  All, Bool, true, false, some, List, [], ◌∷◌, ◌++◌, map, if◌then◌else◌, ◌≡◌, refl, arith,
}
use kong_fu_chess.Model.Piece.{
  Color, white, black, PieceType, empty, king, queen, rook, bishop, knight, pawn, Piece, type_eq,
  is_empty, new_piece, empty_piece,
}
use kong_fu_chess.Io.Text.{Text, codes, text_eq}
use kong_fu_chess.Io.Lines.{is_nil}
use kong_fu_chess.Io.BoardParser.{is_valid_token, parse_piece_type, parse_token, parse_row}
use kong_fu_chess.Io.BoardPrinter.{piece_to_token, color_to_char, piece_type_to_char}
use kong_fu_chess.Io.BoardPrinter.Words.{IsGraph, IsWord}

-- The token of a piece, by whether it is empty.
abbrev token : Bool → Color → PieceType → Text
token nothing c t = if nothing then b'.' ∷ [] else color_to_char c ∷ piece_type_to_char t ∷ []

type_char-IsGraph : (t : PieceType) → IsGraph (piece_type_to_char t)
type_char-IsGraph empty = omega arith
type_char-IsGraph king = omega arith
type_char-IsGraph queen = omega arith
type_char-IsGraph rook = omega arith
type_char-IsGraph bishop = omega arith
type_char-IsGraph knight = omega arith
type_char-IsGraph pawn = omega arith

token-IsWord : (nothing : Bool) (c : Color) (t : PieceType) → IsWord (token nothing c t)
token-IsWord true c t = (omega arith, tt)
token-IsWord false white t = (omega arith, (type_char-IsGraph t, tt))
token-IsWord false black t = (omega arith, (type_char-IsGraph t, tt))

pub tokens-IsWord : (row : List Piece) → All IsWord (map piece_to_token row)
tokens-IsWord [] = tt
tokens-IsWord (p ∷ row) = (token-IsWord (is_empty p) p.color p.kind, tokens-IsWord row)

pub not_board :
    (nothing : Bool) (c : Color) (t : PieceType) (rest : Text)
    → text_eq (token nothing c t ++ rest) (codes "Board:") ≡ false
not_board true c t rest = refl
not_board false white t rest = refl
not_board false black t rest = refl

pub not_commands :
    (nothing : Bool) (c : Color) (t : PieceType) (rest : Text)
    → text_eq (token nothing c t ++ rest) (codes "Commands:") ≡ false
not_commands true c t rest = refl
not_commands false white t rest = refl
not_commands false black t rest = refl

pub not_nil :
    (nothing : Bool) (c : Color) (t : PieceType) (rest : Text)
    → is_nil (token nothing c t ++ rest) ≡ false
not_nil true c t rest = refl
not_nil false c t rest = refl

-- A piece as the parser makes it: without what it has been through.
abbrev made : PieceType → Color → Piece
made t c = if type_eq t empty then empty_piece else new_piece t c

abbrev pub fresh : Piece → Piece
fresh p = made p.kind p.color

abbrev IsRead : PieceType → Color → Type 0
IsRead t c =
    (is_valid_token (token (type_eq t empty) c t) ≡ true)
    × (parse_token (token (type_eq t empty) c t) ≡ made t c)

token-IsRead : (t : PieceType) (c : Color) → IsRead t c
unfolding parse_piece_type
token-IsRead empty c = (refl, refl)
token-IsRead king white = (refl, refl)
token-IsRead king black = (refl, refl)
token-IsRead queen white = (refl, refl)
token-IsRead queen black = (refl, refl)
token-IsRead rook white = (refl, refl)
token-IsRead rook black = (refl, refl)
token-IsRead bishop white = (refl, refl)
token-IsRead bishop black = (refl, refl)
token-IsRead knight white = (refl, refl)
token-IsRead knight black = (refl, refl)
token-IsRead pawn white = (refl, refl)
token-IsRead pawn black = (refl, refl)

pub parse_row-tokens :
    (row : List Piece) → parse_row (map piece_to_token row) ≡ some (map fresh row)
unfolding parse_row
parse_row-tokens [] = refl
parse_row-tokens (p ∷ row) =
    let h = token-IsRead p.kind p.color in rw (parse_row-tokens row) (rw (h.0, h.1) refl)

-- ===== src/Network/Protocol/Codec.antt =====
-- src/network/protocol/piece_codec.cpp and color_codec.cpp. `parsePieceLabel` returns a Boolean and
-- writes through two references: here the pair that it writes, or none.
use kong_fu_chess.Prelude.{
  ℕ, ◌==◌, Option, none, some, [], ◌∷◌, if◌then◌else◌, ◌≡◌, ◌≢◌, refl, arith,
}
use kong_fu_chess.Model.Piece.{
  Color, white, black, PieceType, empty, king, queen, rook, bishop, knight, pawn,
}
use kong_fu_chess.Io.Text.{Text, text_eq, codes}
use kong_fu_chess.Engine.MoveLog.{piece_label}

-- The two switches: the second is reached only behind a known colour.
unfoldable pub label_type : ℕ → Color → Option (PieceType × Color)
label_type t c =
    if t == b'K'
    then some (king, c)
    else if t == b'Q'
    then some (queen, c)
    else if t == b'R'
    then some (rook, c)
    else if t == b'B'
    then some (bishop, c)
    else if t == b'N'
    then some (knight, c)
    else if t == b'P'
    then some (pawn, c)
    else none

unfoldable pub parse_piece_label : Text → Option (PieceType × Color)
unfolding label_type
parse_piece_label (c ∷ t ∷ []) =
    if c == b'w' then label_type t white else if c == b'b' then label_type t black else none
parse_piece_label _ = none

abbrev pub color_from_label : Text → Color
color_from_label label = if text_eq label (codes "black") then black else white

abbrev pub color_label : Color → Text
color_label white = codes "white"
color_label black = codes "black"

pub parse_piece_label-piece_label :
    (t : PieceType) (c : Color) → t ≢ empty → parse_piece_label (piece_label t c) ≡ some (t, c)
unfolding parse_piece_label
parse_piece_label-piece_label t c real = ground arith

pub color_from_label-color_label : (c : Color) → color_from_label (color_label c) ≡ c
color_from_label-color_label white = refl
color_from_label-color_label black = refl

-- ===== src/Io/BoardParser.antt =====
-- src/io/board_parser.h and board_parser.cpp. A stream is the list of its lines; `parseFromInput`
-- leaves those behind the line `Commands:` to the caller.
pub mod Rect
use kong_fu_chess.Prelude.{
  ℕ, ltb, ◌==◌, Bool, true, false, not, ◌&&◌, ◌||◌, Option, none, some, List, [], ◌∷◌, length,
  if◌then◌else◌,
}
use kong_fu_chess.Model.Piece.{
  Color, white, black, PieceType, empty, king, queen, rook, bishop, knight, pawn, Piece, new_piece,
  empty_piece,
}
use kong_fu_chess.Model.Board.{Board, rows, cols, clear, add_row}
use kong_fu_chess.Io.Text.{Text, codes, text_eq}
use kong_fu_chess.Io.Lines.{is_nil, words}

pub data ParseResult : Type 0 where
  parsed unknown_token row_width_mismatch : ParseResult

-- `std::string::find` of one character.
abbrev pub contains : Text → ℕ → Bool
contains [] c = false
contains (d ∷ ds) c = d == c || contains ds c

abbrev pub is_valid_token : Text → Bool
is_valid_token (c ∷ []) = c == b'.'
is_valid_token (c ∷ t ∷ []) = contains (codes "wb") c && contains (codes "KQRBNP") t
is_valid_token _ = false

abbrev pub parse_color : ℕ → Color
parse_color c = if c == b'w' then white else black

unfoldable pub parse_piece_type : ℕ → PieceType
parse_piece_type c =
    if c == b'K'
    then king
    else if c == b'Q'
    then queen
    else if c == b'R'
    then rook
    else if c == b'B'
    then bishop
    else if c == b'N'
    then knight
    else if c == b'P'
    then pawn
    else empty

-- A token is parsed only where it is valid, so one with two characters or `.`.
abbrev pub parse_token : Text → Piece
parse_token (c ∷ t ∷ ts) = new_piece (parse_piece_type t) (parse_color c)
parse_token _ = empty_piece

abbrev pub is_blank_char : ℕ → Bool
is_blank_char c = contains (codes " \t\r\n") c

abbrev pub trim_start : Text → Text
trim_start [] = []
trim_start (c ∷ cs) = if is_blank_char c then trim_start cs else c ∷ cs

abbrev pub trim_end : Text → Text
trim_end [] = []
trim_end (c ∷ cs) =
    let rest = trim_end cs in if is_nil rest && is_blank_char c then [] else c ∷ rest

abbrev pub trim_line : Text → Text
trim_line line = trim_end (trim_start line)

-- The loop over the tokens of a line; `none` is the return for an unknown one.
unfoldable pub parse_row : List Text → Option (List Piece)
unfolding parse_piece_type
parse_row [] = some []
parse_row (token ∷ tokens) = elim (parse_row tokens) [
  | none ↦ none
  | some row ↦ if is_valid_token token then some (parse_token token ∷ row) else none
]

-- What a line asks of the loop in `parseFromInput`: to return, or to read on with the flag
-- `isParsingBoard` and the board.
pub data Step : Type 0 where
  stop : ParseResult → Board → Step
  read_on : Bool → Board → Step

abbrev pub grow : Board → Option (List Piece) → Step
grow b none = stop unknown_token b
grow b (some []) = read_on true b
grow b (some (p ∷ ps)) =
    if ltb 0 (rows b) && not (length (p ∷ ps) == cols b)
    then stop row_width_mismatch b
    else read_on true (add_row b (p ∷ ps))

unfoldable pub parse_line : Text → Bool → Board → Step
unfolding parse_row
parse_line line inside b =
    if text_eq line (codes "Board:")
    then read_on true b
    else if text_eq line (codes "Commands:")
    then stop parsed b
    else if not inside || is_nil line
    then read_on inside b
    else grow b (parse_row (words line))

-- The loop, with the lines that it has not read when it returns.
unfoldable pub parse_lines : List Text → Bool → Board → ParseResult × Board × List Text
parse_lines [] inside b = (parsed, b, [])
parse_lines (l ∷ ls) inside b = elim (parse_line (trim_line l) inside b) [
  | stop result b' ↦ (result, b', ls)
  | read_on inside' b' ↦ parse_lines ls inside' b'
]

abbrev pub parse_from_input : List Text → ParseResult × Board × List Text
parse_from_input input = parse_lines input false clear

-- ===== src/Io/BoardSetup.antt =====
-- src/io/board_setup.cpp: the position that a game starts from.
use kong_fu_chess.Prelude.{ℕ, zero, suc, List, [], ◌∷◌}
use kong_fu_chess.Model.Piece.{
  Color, white, black, king, queen, rook, knight, pawn, Piece, new_piece, empty_piece,
}
use kong_fu_chess.Model.Board.{Board, clear, add_row}

-- The pieces behind the pawns: the code has rooks where chess has bishops.
abbrev pub back_row : Color → List Piece
back_row c =
    new_piece rook c
    ∷ new_piece knight c
    ∷ new_piece rook c
    ∷ new_piece king c
    ∷ new_piece queen c
    ∷ new_piece rook c
    ∷ new_piece knight c
    ∷ new_piece rook c
    ∷ []

abbrev pub row_of_eight : Piece → List Piece
row_of_eight p = p ∷ p ∷ p ∷ p ∷ p ∷ p ∷ p ∷ p ∷ []

-- The loop that adds `n` empty rows.
abbrev pub add_empty_rows : ℕ → Board → Board
add_empty_rows zero b = b
add_empty_rows (suc n) b = add_empty_rows n (add_row b (row_of_eight empty_piece))

abbrev pub setup_standard_board : Board
setup_standard_board =
    let black_side =
      add_row (add_row clear (back_row black)) (row_of_eight (new_piece pawn black)) in
    let middle = add_empty_rows 4 black_side in
    add_row (add_row middle (row_of_eight (new_piece pawn white))) (back_row white)

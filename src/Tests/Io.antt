-- ===== src/Tests/Io.antt =====
-- Small boards as text.
use kong_fu_chess.Prelude.{[], ◌≡◌, refl, arith, Returns}
use kong_fu_chess.Model.Board.{cols}
use kong_fu_chess.Model.Board.Laws.{IsRect}
use kong_fu_chess.Io.Text.{codes}
use kong_fu_chess.Io.Lines.{lines}
use kong_fu_chess.Io.BoardParser.{parsed, parse_from_input}
use kong_fu_chess.Io.BoardParser.Rect.{parse_from_input-IsRect}
use kong_fu_chess.Io.BoardPrinter.{print}
use kong_fu_chess.Io.BoardPrinter.RoundTrip.{board_section, fresh_rows, parse_from_input-print}
use kong_fu_chess.Io.BoardSetup.{setup_standard_board}
use kong_fu_chess.Tests.Boards.{small, small-IsRect}

parse_from_input-IsRect_example : IsRect (parse_from_input (lines (codes "Board:\nwK . bR\n. ."))).1
parse_from_input-IsRect_example = parse_from_input-IsRect (lines (codes "Board:\nwK . bR\n. ."))

parse_from_input-print_example :
    Returns
      (λ text.
        parse_from_input (lines (board_section text))
        ≡ (parsed, record { grid = fresh_rows small.grid }, []))
      (print small)
unfolding cols
parse_from_input-print_example = parse_from_input-print small small-IsRect (omega arith)

standard_board-IsRect : IsRect setup_standard_board
unfolding cols
standard_board-IsRect = (refl, (refl, (refl, (refl, (refl, (refl, (refl, (refl, tt))))))))

-- ===== src/Tests/App.antt =====
-- A frame on the host, and a countdown of twenty seconds.
use kong_fu_chess.Prelude.{
  ◌/◌, ◌≤◌, ◌==◌, pos, pos_part, ◌+ℤ◌, ◌-ℤ◌, true, not, [], ◌∷◌, Returns, ◌≡◌, arith,
}
use kong_fu_chess.Model.Piece.{white}
use kong_fu_chess.Io.Text.{codes}
use kong_fu_chess.Online.SessionManager.{SessionManager, roster_session}
use kong_fu_chess.Network.Protocol.Commands.{move_command}
use kong_fu_chess.View.DisconnectOverlay.{no_overlay, start, update_countdown}
use kong_fu_chess.View.DisconnectOverlay.Countdown.{update_countdown-bounds}
use kong_fu_chess.App.GameLoop.{Loop, frame}
use kong_fu_chess.App.GameLoop.Frame.{FrameEnds, frame-FrameEnds}
use kong_fu_chess.Tests.Boards.{engine, engine-IsValid}

abbrev session : SessionManager
session = record (roster_session (codes "ada") (codes "bob") (pos 8765)) {
  connection_colors = (1, white) ∷ [];
}

abbrev loop : Loop
loop = record {
  engine = engine;
  overlay = no_overlay;
  messages = record { pending = codes "{\"type\":\"player_reconnected\"}" ∷ codes "?" ∷ [] };
  commands = record {
    pending = record { connection_id = 1; command = move_command (codes "a6") (codes "a8") } ∷ [];
  };
}

frame-FrameEnds_example :
    Returns (FrameEnds true session loop) (frame true session (λ rest. pos 7) (pos 8) loop)
frame-FrameEnds_example = frame-FrameEnds true session (λ rest. pos 7) (pos 8) loop engine-IsValid

update_countdown-bounds_example :
    let left = pos_part ((pos 5 +ℤ pos 20000000000) -ℤ pos 3000000000) / 1000000000 in
    ((update_countdown (start (pos 5) (codes "bob") (pos 20)) (pos 3000000000)).seconds_remaining
      ≡ pos left)
    × (left ≤ 20)
    × ((update_countdown (start (pos 5) (codes "bob") (pos 20)) (pos 3000000000)).active
        ≡ not (left == 0))
update_countdown-bounds_example =
    update_countdown-bounds (codes "bob") 20 (pos 5) (pos 3000000000) (omega arith) (omega arith)

-- ===== src/Network/Protocol/Game.antt =====
-- The messages of a game: src/network/protocol/server_game_messages.cpp.
pub mod Values
pub mod Starts
pub mod Completions
pub mod Captures
pub mod RoundTrip
use kong_fu_chess.Prelude.{
  ℤ, pos, ◌==◌, ltb_ℤ, Bool, true, false, not, ◌||◌, Option, none, some, [], ◌∷◌, ◌++◌,
  if◌then◌else◌,
}
use kong_fu_chess.Model.Piece.{Color, PieceType, white, black, empty, type_eq}
use kong_fu_chess.Model.Position.{Position}
use kong_fu_chess.Io.Text.{Text, codes, to_string}
use kong_fu_chess.Io.Algebraic.{position_to_algebraic, algebraic_to_position}
use kong_fu_chess.Realtime.Resolution.{
  CompletedMoveEvent, JumpCaptureEvent, MoveStartedEvent, JumpStartedEvent,
}
use kong_fu_chess.Events.GameEvent.{GameStarted, GameEvent}
use kong_fu_chess.Events.GameEvent
use kong_fu_chess.Engine.MoveLog.{piece_label}
use kong_fu_chess.Network.Protocol.Json.{
  ◌>>=◌, extract_json_string, extract_json_int, quote_json_string,
}
use kong_fu_chess.Network.Protocol.Codec.{parse_piece_label, color_from_label, color_label}
use kong_fu_chess.Network.Protocol.Lobby.{
  ServerMessageType, parse_server_message_type, GameStartedMessage, parse_game_started_message,
}

abbrev pub quoted_label : PieceType → Color → Text
quoted_label t c = quote_json_string (piece_label t c)

abbrev pub quoted_square : Position → Text
quoted_square p = quote_json_string (position_to_algebraic p)

unfoldable pub serialize_game_started : GameStarted → Text
serialize_game_started e =
    codes "{\"type\":\"game_started\",\"white\":"
    ++ (quote_json_string e.white_user
        ++ (codes ",\"black\":"
            ++ (quote_json_string e.black_user
                ++ (codes ",\"port\":" ++ (to_string e.port ++ b'}' ∷ [])))))

unfoldable pub serialize_move_started : MoveStartedEvent → Text
serialize_move_started e =
    codes "{\"type\":\"move_started\",\"timestamp_ms\":"
    ++ (to_string e.timestamp_ms
        ++ (codes ",\"piece\":"
            ++ (quoted_label e.piece_type e.piece_color
                ++ (codes ",\"from\":"
                    ++ (quoted_square e.from
                        ++ (codes ",\"to\":" ++ (quoted_square e.to ++ b'}' ∷ [])))))))

unfoldable pub serialize_jump_started : JumpStartedEvent → Text
serialize_jump_started e =
    codes "{\"type\":\"jump_started\",\"timestamp_ms\":"
    ++ (to_string e.timestamp_ms
        ++ (codes ",\"piece\":"
            ++ (quoted_label e.piece_type e.piece_color
                ++ (codes ",\"square\":" ++ (quoted_square e.square ++ b'}' ∷ [])))))

-- The end of the text of a completed move.
abbrev pub captured_part : CompletedMoveEvent → Text
captured_part e =
    if not (type_eq e.captured_type empty)
    then codes ",\"captured\":" ++ (quoted_label e.captured_type e.captured_color ++ b'}' ∷ [])
    else b'}' ∷ []

unfoldable pub serialize_completed_move : CompletedMoveEvent → Text
serialize_completed_move e =
    codes "{\"type\":\"move_completed\",\"timestamp_ms\":"
    ++ (to_string e.timestamp_ms
        ++ (codes ",\"piece\":"
            ++ (quoted_label e.piece_type e.piece_color
                ++ (codes ",\"from\":"
                    ++ (quoted_square e.from
                        ++ (codes ",\"to\":" ++ (quoted_square e.to ++ captured_part e)))))))

unfoldable pub serialize_jump_capture : JumpCaptureEvent → Text
serialize_jump_capture e =
    codes "{\"type\":\"jump_capture\",\"timestamp_ms\":"
    ++ (to_string e.timestamp_ms
        ++ (codes ",\"jumper\":"
            ++ (quoted_label e.jumper_type e.jumper_color
                ++ (codes ",\"victim\":"
                    ++ (quoted_label e.victim_type e.victim_color
                        ++ (codes ",\"jump_square\":"
                            ++ (quoted_square e.jump_square
                                ++ (codes ",\"victim_from\":"
                                    ++ (quoted_square e.victim_from
                                        ++ (codes ",\"victim_to\":"
                                            ++ (quoted_square e.victim_to ++ b'}' ∷ [])))))))))))

unfoldable pub serialize_game_ended : Color → Text
serialize_game_ended winner =
    codes "{\"type\":\"game_ended\",\"winner\":"
    ++ (quote_json_string (color_label winner) ++ b'}' ∷ [])

unfoldable pub serialize_server_event : GameEvent → Text
unfolding serialize_game_started serialize_move_started serialize_completed_move
    serialize_jump_started serialize_jump_capture serialize_game_ended
serialize_server_event (GameEvent.game_started e) = serialize_game_started e
serialize_server_event (GameEvent.move_started e) = serialize_move_started e
serialize_server_event (GameEvent.move_completed e) = serialize_completed_move e
serialize_server_event (GameEvent.jump_started e) = serialize_jump_started e
serialize_server_event (GameEvent.jump_captured e) = serialize_jump_capture e
serialize_server_event (GameEvent.game_ended winner) = serialize_game_ended winner

-- `algebraicToPosition`, with the test of the row that follows each use.
abbrev pub square_of : Text → Option Position
square_of text = let p = algebraic_to_position text in if ltb_ℤ p.row (pos 0) then none else some p

-- The colour that a failing `parsePieceLabel` leaves behind, where it was white before.
abbrev pub written_color : Text → Color
written_color (c ∷ t ∷ []) = if c == b'b' then black else white
written_color _ = white

abbrev pub or_no_type : Text → Option (PieceType × Color) → PieceType × Color
or_no_type label none = (empty, written_color label)
or_no_type label (some p) = p

-- The captured piece, if the message names one.
abbrev pub captured_piece : Option Text → PieceType × Color
captured_piece none = (empty, white)
captured_piece (some label) = or_no_type label (parse_piece_label label)

abbrev pub started_event : GameStartedMessage → GameEvent
started_event m =
    GameEvent.game_started
      (record { white_user = m.white_user; black_user = m.black_user; port = m.port })

-- In each reader below the values are fetched before any of them is tested.
unfoldable pub read_move_started : Text → Option GameEvent
read_move_started json = do
  timestamp ← extract_json_int json (codes "timestamp_ms")
  piece ← extract_json_string json (codes "piece")
  from ← extract_json_string json (codes "from")
  to ← extract_json_string json (codes "to")
  (t, c) ← parse_piece_label piece
  p ← square_of from
  q ← square_of to
  some (
      GameEvent.move_started
        (record { timestamp_ms = timestamp; piece_type = t; piece_color = c; from = p; to = q }))

unfoldable pub read_jump_started : Text → Option GameEvent
read_jump_started json = do
  timestamp ← extract_json_int json (codes "timestamp_ms")
  piece ← extract_json_string json (codes "piece")
  square ← extract_json_string json (codes "square")
  (t, c) ← parse_piece_label piece
  p ← square_of square
  some (
      GameEvent.jump_started
        (record { timestamp_ms = timestamp; piece_type = t; piece_color = c; square = p }))

unfoldable pub read_completed_move : Text → Option GameEvent
read_completed_move json = do
  timestamp ← extract_json_int json (codes "timestamp_ms")
  piece ← extract_json_string json (codes "piece")
  from ← extract_json_string json (codes "from")
  to ← extract_json_string json (codes "to")
  (t, c) ← parse_piece_label piece
  p ← square_of from
  q ← square_of to
  let captured = captured_piece (extract_json_string json (codes "captured"))
  some (
      GameEvent.move_completed (record {
        timestamp_ms = timestamp;
        piece_type = t;
        piece_color = c;
        from = p;
        to = q;
        captured_type = captured.0;
        captured_color = captured.1;
      }))

unfoldable pub read_jump_capture : Text → Option GameEvent
read_jump_capture json = do
  timestamp ← extract_json_int json (codes "timestamp_ms")
  jumper ← extract_json_string json (codes "jumper")
  victim ← extract_json_string json (codes "victim")
  jump_square ← extract_json_string json (codes "jump_square")
  victim_from ← extract_json_string json (codes "victim_from")
  victim_to ← extract_json_string json (codes "victim_to")
  (jt, jc) ← parse_piece_label jumper
  (vt, vc) ← parse_piece_label victim
  p ← square_of jump_square
  q ← square_of victim_from
  r ← square_of victim_to
  some (
      GameEvent.jump_captured (record {
        timestamp_ms = timestamp;
        jump_square = p;
        jumper_type = jt;
        jumper_color = jc;
        victim_type = vt;
        victim_color = vc;
        victim_from = q;
        victim_to = r;
      }))

unfoldable pub read_game_ended : Text → Option GameEvent
read_game_ended json = do
  winner ← extract_json_string json (codes "winner")
  some (GameEvent.game_ended (color_from_label winner))

unfoldable pub read_event : ServerMessageType → Text → Option GameEvent
unfolding read_move_started read_jump_started read_completed_move read_jump_capture read_game_ended
read_event ServerMessageType.game_started json = do
  m ← parse_game_started_message json
  some (started_event m)
read_event ServerMessageType.move_started json = read_move_started json
read_event ServerMessageType.jump_started json = read_jump_started json
read_event ServerMessageType.move_completed json = read_completed_move json
read_event ServerMessageType.jump_capture json = read_jump_capture json
read_event ServerMessageType.game_ended json = read_game_ended json
read_event _ json = none

unfoldable pub parse_server_game_event : Text → Option GameEvent
unfolding read_event
parse_server_game_event json = read_event (parse_server_message_type json) json

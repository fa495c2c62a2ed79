-- ===== src/Network/Protocol/Game/Starts.antt =====
-- A start of a move or of a jump is read back.
use kong_fu_chess.Prelude.{false, some, [], ◌∷◌, ◌≡◌, ◌≢◌, refl, arith}
use kong_fu_chess.Model.Piece.{empty}
use kong_fu_chess.Io.Text.{Text, text_eq, codes, to_string}
use kong_fu_chess.Io.Algebraic.{position_to_algebraic}
use kong_fu_chess.Realtime.Resolution.{MoveStartedEvent, JumpStartedEvent}
use kong_fu_chess.Events.GameEvent
use kong_fu_chess.Engine.MoveLog.{piece_label}
use kong_fu_chess.Network.Protocol.Json.{extract_json_string, extract_json_int, read_chars}
use kong_fu_chess.Network.Protocol.Json.Fields.{Field, IsKey, PassesField, string_field}
use kong_fu_chess.Network.Protocol.Codec.{parse_piece_label-piece_label}
use kong_fu_chess.Network.Protocol.Lobby.{ServerMessageType, parse_server_message_type}
use kong_fu_chess.Network.Protocol.Game.{
  quoted_label, quoted_square, serialize_move_started, serialize_jump_started, read_move_started,
  read_jump_started,
}
use kong_fu_chess.Network.Protocol.Game.Values.{
  OnChessboard, square-IsChar, square_of-text, label-IsChar, IsCount, PassesField-count,
  PassesField-label, PassesField-square, count_field, NotLabel, NotLabel-long, NotLabel-to,
  NotSquare-to,
}

pub record IsMoveStart (e : MoveStartedEvent) : Type 0 where
  pub time : IsCount e.timestamp_ms
  pub real : e.piece_type ≢ empty
  pub from_on : OnChessboard e.from
  pub to_on : OnChessboard e.to

module _ (e : MoveStartedEvent) (h : IsMoveStart e) where
  abbrev time : Field
  time = (codes "timestamp_ms", to_string e.timestamp_ms)

  abbrev piece : Field
  piece = (codes "piece", quoted_label e.piece_type e.piece_color)

  abbrev from : Field
  from = (codes "from", quoted_square e.from)

  abbrev to : Field
  to = (codes "to", quoted_square e.to)

  pub move_kind :
      parse_server_message_type (serialize_move_started e) ≡ ServerMessageType.move_started
  unfolding parse_server_message_type serialize_move_started extract_json_string read_chars
  move_kind = refl

  move_time :
      extract_json_int (serialize_move_started e) (codes "timestamp_ms") ≡ some e.timestamp_ms
  unfolding extract_json_int serialize_move_started
  move_time =
      count_field (codes "timestamp_ms") [] e.timestamp_ms (piece ∷ from ∷ to ∷ []) (omega arith) tt
        h.time

  time_passes :
      (key : Text) → IsKey key → text_eq (codes "timestamp_ms") key ≡ false → PassesField key time
  time_passes key k differs =
      PassesField-count (codes "timestamp_ms") key (omega arith) k differs e.timestamp_ms h.time

  piece_passes :
      (key : Text)
      → IsKey key
      → text_eq (codes "piece") key ≡ false
      → NotLabel key
      → PassesField key piece
  piece_passes key k differs =
      PassesField-label (codes "piece") key (omega arith) k differs e.piece_type e.piece_color

  move_piece :
      extract_json_string (serialize_move_started e) (codes "piece")
      ≡ some (piece_label e.piece_type e.piece_color)
  unfolding extract_json_string serialize_move_started
  move_piece =
      string_field (codes "piece") (omega arith) (time ∷ [])
        (piece_label e.piece_type e.piece_color) (from ∷ to ∷ [])
        (time_passes (codes "piece") (omega arith) refl, tt)
        (label-IsChar e.piece_type e.piece_color)

  move_from :
      extract_json_string (serialize_move_started e) (codes "from")
      ≡ some (position_to_algebraic e.from)
  unfolding extract_json_string serialize_move_started
  move_from =
      string_field (codes "from") (omega arith) (time ∷ piece ∷ []) (position_to_algebraic e.from)
        (to ∷ [])
        (
          time_passes (codes "from") (omega arith) refl,
          (piece_passes (codes "from") (omega arith) refl (NotLabel-long (codes "from") refl), tt),
        )
        (square-IsChar e.from h.from_on)

  move_to :
      extract_json_string (serialize_move_started e) (codes "to")
      ≡ some (position_to_algebraic e.to)
  unfolding extract_json_string serialize_move_started
  move_to =
      string_field (codes "to") (omega arith) (time ∷ piece ∷ from ∷ [])
        (position_to_algebraic e.to) []
        (
          time_passes (codes "to") (omega arith) refl,
          (
            piece_passes (codes "to") (omega arith) refl NotLabel-to,
            (
              PassesField-square (codes "from") (codes "to") (omega arith) (omega arith) refl e.from
                  h.from_on NotSquare-to,
              tt,
            ),
          ),
        )
        (square-IsChar e.to h.to_on)

  pub read-move_started :
      read_move_started (serialize_move_started e) ≡ some (GameEvent.move_started e)
  unfolding read_move_started
  read-move_started =
      rw (move_time, move_piece, move_from, move_to)
        (rw (
          parse_piece_label-piece_label e.piece_type e.piece_color h.real,
          square_of-text e.from h.from_on,
          square_of-text e.to h.to_on,
        ))

pub record IsJumpStart (e : JumpStartedEvent) : Type 0 where
  pub time : IsCount e.timestamp_ms
  pub real : e.piece_type ≢ empty
  pub on : OnChessboard e.square

module _ (e : JumpStartedEvent) (h : IsJumpStart e) where
  abbrev jump_clock : Field
  jump_clock = (codes "timestamp_ms", to_string e.timestamp_ms)

  abbrev jumper : Field
  jumper = (codes "piece", quoted_label e.piece_type e.piece_color)

  abbrev jump_square : Field
  jump_square = (codes "square", quoted_square e.square)

  pub jump_kind :
      parse_server_message_type (serialize_jump_started e) ≡ ServerMessageType.jump_started
  unfolding parse_server_message_type serialize_jump_started extract_json_string read_chars
  jump_kind = refl

  jump_time :
      extract_json_int (serialize_jump_started e) (codes "timestamp_ms") ≡ some e.timestamp_ms
  unfolding extract_json_int serialize_jump_started
  jump_time =
      count_field (codes "timestamp_ms") [] e.timestamp_ms (jumper ∷ jump_square ∷ []) (omega arith)
        tt h.time

  clock_passes :
      (key : Text)
      → IsKey key
      → text_eq (codes "timestamp_ms") key ≡ false
      → PassesField key jump_clock
  clock_passes key k differs =
      PassesField-count (codes "timestamp_ms") key (omega arith) k differs e.timestamp_ms h.time

  jump_piece :
      extract_json_string (serialize_jump_started e) (codes "piece")
      ≡ some (piece_label e.piece_type e.piece_color)
  unfolding extract_json_string serialize_jump_started
  jump_piece =
      string_field (codes "piece") (omega arith) (jump_clock ∷ [])
        (piece_label e.piece_type e.piece_color) (jump_square ∷ [])
        (clock_passes (codes "piece") (omega arith) refl, tt)
        (label-IsChar e.piece_type e.piece_color)

  jump_place :
      extract_json_string (serialize_jump_started e) (codes "square")
      ≡ some (position_to_algebraic e.square)
  unfolding extract_json_string serialize_jump_started
  jump_place =
      string_field (codes "square") (omega arith) (jump_clock ∷ jumper ∷ [])
        (position_to_algebraic e.square) []
        (
          clock_passes (codes "square") (omega arith) refl,
          (
            PassesField-label (codes "piece") (codes "square") (omega arith) (omega arith) refl
                e.piece_type e.piece_color (NotLabel-long (codes "square") refl),
            tt,
          ),
        )
        (square-IsChar e.square h.on)

  pub read-jump_started :
      read_jump_started (serialize_jump_started e) ≡ some (GameEvent.jump_started e)
  unfolding read_jump_started
  read-jump_started =
      rw (jump_time, jump_piece, jump_place)
        (rw (
          parse_piece_label-piece_label e.piece_type e.piece_color h.real,
          square_of-text e.square h.on,
        ))

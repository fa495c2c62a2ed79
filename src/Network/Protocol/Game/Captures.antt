-- ===== src/Network/Protocol/Game/Captures.antt =====
-- A capture by a jump is read back.
use kong_fu_chess.Prelude.{All, true, false, some, [], ◌∷◌, ◌≡◌, ◌≢◌, refl, arith}
use kong_fu_chess.Model.Piece.{empty}
use kong_fu_chess.Io.Text.{Text, text_eq, codes, to_string}
use kong_fu_chess.Io.Algebraic.{position_to_algebraic}
use kong_fu_chess.Realtime.Resolution.{JumpCaptureEvent}
use kong_fu_chess.Events.GameEvent.{GameEvent}
use kong_fu_chess.Engine.MoveLog.{piece_label}
use kong_fu_chess.Network.Protocol.Json.{extract_json_string, extract_json_int, read_chars}
use kong_fu_chess.Network.Protocol.Json.Fields.{Field, IsKey, PassesField, string_field}
use kong_fu_chess.Network.Protocol.Codec.{parse_piece_label-piece_label}
use kong_fu_chess.Network.Protocol.Lobby.{ServerMessageType, parse_server_message_type}
use kong_fu_chess.Network.Protocol.Game.{
  quoted_label, quoted_square, serialize_jump_capture, read_jump_capture,
}
use kong_fu_chess.Network.Protocol.Game.Values.{
  OnChessboard, square-IsChar, square_of-text, label-IsChar, IsCount, PassesField-count,
  PassesField-label, PassesField-square, count_field, NotLabel-long, NotSquare-long, is_long,
}

pub record IsCapture (e : JumpCaptureEvent) : Type 0 where
  pub time : IsCount e.timestamp_ms
  pub real : e.jumper_type ≢ empty
  pub taken : e.victim_type ≢ empty
  pub on : OnChessboard e.jump_square
  pub from_on : OnChessboard e.victim_from
  pub to_on : OnChessboard e.victim_to

module _ (e : JumpCaptureEvent) (h : IsCapture e) where
  abbrev time : Field
  time = (codes "timestamp_ms", to_string e.timestamp_ms)

  abbrev jumper : Field
  jumper = (codes "jumper", quoted_label e.jumper_type e.jumper_color)

  abbrev victim : Field
  victim = (codes "victim", quoted_label e.victim_type e.victim_color)

  abbrev place : Field
  place = (codes "jump_square", quoted_square e.jump_square)

  abbrev from : Field
  from = (codes "victim_from", quoted_square e.victim_from)

  abbrev to : Field
  to = (codes "victim_to", quoted_square e.victim_to)

  pub kind : parse_server_message_type (serialize_jump_capture e) ≡ ServerMessageType.jump_capture
  unfolding parse_server_message_type serialize_jump_capture extract_json_string read_chars
  kind = refl

  time_read :
      extract_json_int (serialize_jump_capture e) (codes "timestamp_ms") ≡ some e.timestamp_ms
  unfolding extract_json_int serialize_jump_capture
  time_read =
      count_field (codes "timestamp_ms") [] e.timestamp_ms
        (jumper ∷ victim ∷ place ∷ from ∷ to ∷ []) (omega arith) tt h.time

  -- The first three fields, for a key of more than two letters that is none of theirs.
  module _ (key : Text) (k : IsKey key) (long : is_long key ≡ true)
      (not_time : text_eq (codes "timestamp_ms") key ≡ false)
      (not_jumper : text_eq (codes "jumper") key ≡ false)
      (not_victim : text_eq (codes "victim") key ≡ false) where
    jumper_passes : PassesField key jumper
    jumper_passes =
        PassesField-label (codes "jumper") key (omega arith) k not_jumper e.jumper_type
          e.jumper_color (NotLabel-long key long)

    three_pass : All (PassesField key) (time ∷ jumper ∷ victim ∷ [])
    three_pass = (
      PassesField-count (codes "timestamp_ms") key (omega arith) k not_time e.timestamp_ms h.time,
      (
        jumper_passes,
        (
          PassesField-label (codes "victim") key (omega arith) k not_victim e.victim_type
              e.victim_color (NotLabel-long key long),
          tt,
        ),
      ),
    )

  jumper_read :
      extract_json_string (serialize_jump_capture e) (codes "jumper")
      ≡ some (piece_label e.jumper_type e.jumper_color)
  unfolding extract_json_string serialize_jump_capture
  jumper_read =
      string_field (codes "jumper") (omega arith) (time ∷ [])
        (piece_label e.jumper_type e.jumper_color) (victim ∷ place ∷ from ∷ to ∷ [])
        (
          PassesField-count (codes "timestamp_ms") (codes "jumper") (omega arith) (omega arith) refl
              e.timestamp_ms h.time,
          tt,
        )
        (label-IsChar e.jumper_type e.jumper_color)

  victim_read :
      extract_json_string (serialize_jump_capture e) (codes "victim")
      ≡ some (piece_label e.victim_type e.victim_color)
  unfolding extract_json_string serialize_jump_capture
  victim_read =
      string_field (codes "victim") (omega arith) (time ∷ jumper ∷ [])
        (piece_label e.victim_type e.victim_color) (place ∷ from ∷ to ∷ [])
        (
          PassesField-count (codes "timestamp_ms") (codes "victim") (omega arith) (omega arith) refl
              e.timestamp_ms h.time,
          (
            PassesField-label (codes "jumper") (codes "victim") (omega arith) (omega arith) refl
                e.jumper_type e.jumper_color (NotLabel-long (codes "victim") refl),
            tt,
          ),
        )
        (label-IsChar e.victim_type e.victim_color)

  place_read :
      extract_json_string (serialize_jump_capture e) (codes "jump_square")
      ≡ some (position_to_algebraic e.jump_square)
  unfolding extract_json_string serialize_jump_capture
  place_read =
      string_field (codes "jump_square") (omega arith) (time ∷ jumper ∷ victim ∷ [])
        (position_to_algebraic e.jump_square) (from ∷ to ∷ [])
        (three_pass (codes "jump_square") (omega arith) refl refl refl refl)
        (square-IsChar e.jump_square h.on)

  place_passes :
      (key : Text)
      → IsKey key
      → is_long key ≡ true
      → text_eq (codes "jump_square") key ≡ false
      → PassesField key place
  place_passes key k long differs =
      PassesField-square (codes "jump_square") key (omega arith) k differs e.jump_square h.on
        (NotSquare-long key long)

  from_read :
      extract_json_string (serialize_jump_capture e) (codes "victim_from")
      ≡ some (position_to_algebraic e.victim_from)
  unfolding extract_json_string serialize_jump_capture
  from_read =
      let first = three_pass (codes "victim_from") (omega arith) refl refl refl refl in
      string_field (codes "victim_from") (omega arith) (time ∷ jumper ∷ victim ∷ place ∷ [])
        (position_to_algebraic e.victim_from) (to ∷ [])
        (
          first.0,
          (
            first.1.0,
            (first.1.1.0, (place_passes (codes "victim_from") (omega arith) refl refl, tt)),
          ),
        )
        (square-IsChar e.victim_from h.from_on)

  to_read :
      extract_json_string (serialize_jump_capture e) (codes "victim_to")
      ≡ some (position_to_algebraic e.victim_to)
  unfolding extract_json_string serialize_jump_capture
  to_read =
      let first = three_pass (codes "victim_to") (omega arith) refl refl refl refl in
      string_field (codes "victim_to") (omega arith) (time ∷ jumper ∷ victim ∷ place ∷ from ∷ [])
        (position_to_algebraic e.victim_to) []
        (
          first.0,
          (
            first.1.0,
            (
              first.1.1.0,
              (
                place_passes (codes "victim_to") (omega arith) refl refl,
                (
                  PassesField-square (codes "victim_from") (codes "victim_to") (omega arith)
                      (omega arith) refl e.victim_from h.from_on
                      (NotSquare-long (codes "victim_to") refl),
                  tt,
                ),
              ),
            ),
          ),
        )
        (square-IsChar e.victim_to h.to_on)

  pub read_lem : read_jump_capture (serialize_jump_capture e) ≡ some (GameEvent.jump_captured e)
  unfolding read_jump_capture
  read_lem =
      rw (time_read, jumper_read, victim_read, place_read, from_read, to_read)
        (rw (
          parse_piece_label-piece_label e.jumper_type e.jumper_color h.real,
          parse_piece_label-piece_label e.victim_type e.victim_color h.taken,
          square_of-text e.jump_square h.on,
          square_of-text e.victim_from h.from_on,
          square_of-text e.victim_to h.to_on,
        ))

-- ===== src/Network/Protocol/Game/Completions.antt =====
-- A completed move is read back, with the piece that it took.
use kong_fu_chess.Prelude.{
  not, All, true, false, Bool-cases, ◌⊎◌, inl, inr, some, List, [], ◌∷◌, ◌++◌, if◌then◌else◌, ◌≡◌,
  ◌≢◌, refl, ap, ◌∙◌, arith,
}
use kong_fu_chess.Model.Piece.{Color, white, PieceType, empty, type_eq}
use kong_fu_chess.Io.Text.{Text, text_eq, codes, to_string}
use kong_fu_chess.Io.Algebraic.{position_to_algebraic}
use kong_fu_chess.Realtime.Resolution.{CompletedMoveEvent}
use kong_fu_chess.Events.GameEvent.{GameEvent}
use kong_fu_chess.Engine.MoveLog.{piece_label}
use kong_fu_chess.Network.Protocol.Json.{
  extract_json_string, extract_json_int, read_chars, find_after,
}
use kong_fu_chess.Network.Protocol.Json.Fields.{
  Field, IsKey, needle, fields_text, PassesField, string_field, no_field,
}
use kong_fu_chess.Network.Protocol.Json.Keys.{string_behind}
use kong_fu_chess.Network.Protocol.Codec.{parse_piece_label-piece_label}
use kong_fu_chess.Network.Protocol.Lobby.{ServerMessageType, parse_server_message_type}
use kong_fu_chess.Network.Protocol.Game.{
  quoted_label, quoted_square, serialize_completed_move, captured_part, captured_piece,
  read_completed_move,
}
use kong_fu_chess.Network.Protocol.Game.Values.{
  OnChessboard, square-IsChar, square_of-text, label-IsChar, IsCount, PassesField-count,
  PassesField-label, PassesField-square, count_field, NotLabel, NotLabel-long, NotLabel-to,
  NotSquare, NotSquare-to, NotSquare-long,
}

-- A piece that was taken has a type; where none was, the colour is the default one.
abbrev pub IsTaken : PieceType → Color → Type 0
IsTaken t c = (t ≢ empty) ⊎ (t ≡ empty) × (c ≡ white)

pub record IsCompletion (e : CompletedMoveEvent) : Type 0 where
  pub time : IsCount e.timestamp_ms
  pub real : e.piece_type ≢ empty
  pub from_on : OnChessboard e.from
  pub to_on : OnChessboard e.to
  pub taken : IsTaken e.captured_type e.captured_color

abbrev captured_fields : PieceType → Color → List Field
captured_fields t c =
    if not (type_eq t empty) then (codes "captured", quoted_label t c) ∷ [] else []

captured_text :
    (e : CompletedMoveEvent)
    → captured_part e ≡ fields_text (captured_fields e.captured_type e.captured_color)
captured_text e = elim (Bool-cases (type_eq e.captured_type empty)) [
  | inl none_taken ↦ rw none_taken
  | inr one_taken ↦ rw one_taken
]

type_eq_empty : (t : PieceType) → type_eq t empty ≡ true → t ≡ empty
type_eq_empty t h = ground arith

module _ (e : CompletedMoveEvent) (h : IsCompletion e) where
  abbrev time : Field
  time = (codes "timestamp_ms", to_string e.timestamp_ms)

  abbrev piece : Field
  piece = (codes "piece", quoted_label e.piece_type e.piece_color)

  abbrev from : Field
  from = (codes "from", quoted_square e.from)

  abbrev to : Field
  to = (codes "to", quoted_square e.to)

  abbrev captured : List Field
  captured = captured_fields e.captured_type e.captured_color

  -- The text with its last part as a field.
  as_fields :
      serialize_completed_move e
      ≡ codes "{\"type\":\"move_completed\"" ++ fields_text (time ∷ piece ∷ from ∷ to ∷ captured)
  unfolding serialize_completed_move
  as_fields = rw (captured_text e)

  pub kind :
      parse_server_message_type (serialize_completed_move e) ≡ ServerMessageType.move_completed
  unfolding parse_server_message_type serialize_completed_move extract_json_string read_chars
  kind = refl

  time_read :
      extract_json_int (serialize_completed_move e) (codes "timestamp_ms") ≡ some e.timestamp_ms
  unfolding extract_json_int
  time_read =
      ap (λ t. extract_json_int t (codes "timestamp_ms")) as_fields
      ∙ count_field (codes "timestamp_ms") [] e.timestamp_ms (piece ∷ from ∷ to ∷ captured)
          (omega arith) tt h.time

  time_passes :
      (key : Text) → IsKey key → text_eq (codes "timestamp_ms") key ≡ false → PassesField key time
  time_passes key k differs =
      PassesField-count (codes "timestamp_ms") key (omega arith) k differs e.timestamp_ms h.time

  piece_passes :
      (key : Text)
      → IsKey key
      → text_eq (codes "piece") key ≡ false
      → NotLabel key
      → PassesField key piece
  piece_passes key k differs =
      PassesField-label (codes "piece") key (omega arith) k differs e.piece_type e.piece_color

  from_passes :
      (key : Text)
      → IsKey key
      → text_eq (codes "from") key ≡ false
      → NotSquare key
      → PassesField key from
  from_passes key k differs =
      PassesField-square (codes "from") key (omega arith) k differs e.from h.from_on

  piece_read :
      extract_json_string (serialize_completed_move e) (codes "piece")
      ≡ some (piece_label e.piece_type e.piece_color)
  unfolding extract_json_string
  piece_read =
      ap (λ t. extract_json_string t (codes "piece")) as_fields
      ∙ string_field (codes "piece") (omega arith) (time ∷ [])
          (piece_label e.piece_type e.piece_color) (from ∷ to ∷ captured)
          (time_passes (codes "piece") (omega arith) refl, tt)
          (label-IsChar e.piece_type e.piece_color)

  from_read :
      extract_json_string (serialize_completed_move e) (codes "from")
      ≡ some (position_to_algebraic e.from)
  unfolding extract_json_string
  from_read =
      ap (λ t. extract_json_string t (codes "from")) as_fields
      ∙ string_field (codes "from") (omega arith) (time ∷ piece ∷ []) (position_to_algebraic e.from)
          (to ∷ captured)
          (
            time_passes (codes "from") (omega arith) refl,
            (
              piece_passes (codes "from") (omega arith) refl (NotLabel-long (codes "from") refl),
              tt,
            ),
          )
          (square-IsChar e.from h.from_on)

  to_read :
      extract_json_string (serialize_completed_move e) (codes "to")
      ≡ some (position_to_algebraic e.to)
  unfolding extract_json_string
  to_read =
      ap (λ t. extract_json_string t (codes "to")) as_fields
      ∙ string_field (codes "to") (omega arith) (time ∷ piece ∷ from ∷ [])
          (position_to_algebraic e.to) captured
          (
            time_passes (codes "to") (omega arith) refl,
            (
              piece_passes (codes "to") (omega arith) refl NotLabel-to,
              (from_passes (codes "to") (omega arith) refl NotSquare-to, tt),
            ),
          )
          (square-IsChar e.to h.to_on)

  before_captured : All (PassesField (codes "captured")) (time ∷ piece ∷ from ∷ to ∷ [])
  before_captured = (
    time_passes (codes "captured") (omega arith) refl,
    (
      piece_passes (codes "captured") (omega arith) refl (NotLabel-long (codes "captured") refl),
      (
        from_passes (codes "captured") (omega arith) refl (NotSquare-long (codes "captured") refl),
        (
          PassesField-square (codes "to") (codes "captured") (omega arith) (omega arith) refl e.to
              h.to_on (NotSquare-long (codes "captured") refl),
          tt,
        ),
      ),
    ),
  )

  -- The key `captured` among the fields, there or not.
  captured_behind :
      (t : PieceType) (c : Color)
      → IsTaken t c
      → captured_piece (
          string_behind (
            find_after
              (needle (codes "captured"))
              (fields_text (time ∷ piece ∷ from ∷ to ∷ captured_fields t c))))
        ≡ (t, c)
  captured_behind t c (inl real) = elim (Bool-cases (type_eq t empty)) [
    | inl none_taken ↦ absurd (real (type_eq_empty t none_taken))
    | inr one_taken ↦ rw one_taken (
        ap captured_piece (
          string_field (codes "captured") (omega arith) (time ∷ piece ∷ from ∷ to ∷ [])
            (piece_label t c) [] before_captured (label-IsChar t c))
        ∙ rw (parse_piece_label-piece_label t c real))
  ]
  captured_behind t c (inr (none_taken, default)) =
      rw (none_taken, default)
        (ap captured_piece (
          no_field (codes "captured") (omega arith) (time ∷ piece ∷ from ∷ to ∷ [])
            before_captured))

  captured_read :
      captured_piece (extract_json_string (serialize_completed_move e) (codes "captured"))
      ≡ (e.captured_type, e.captured_color)
  unfolding extract_json_string
  captured_read =
      ap (λ t. captured_piece (extract_json_string t (codes "captured"))) as_fields
      ∙ captured_behind e.captured_type e.captured_color h.taken

  pub read_lem :
      read_completed_move (serialize_completed_move e) ≡ some (GameEvent.move_completed e)
  unfolding read_completed_move
  read_lem =
      rw (time_read, piece_read, from_read, to_read)
        (rw (
          parse_piece_label-piece_label e.piece_type e.piece_color h.real,
          square_of-text e.from h.from_on,
          square_of-text e.to h.to_on,
          captured_read,
        ))

-- ===== src/Network/Protocol/Game/RoundTrip.antt =====
-- A client reads back the events of a game.
use kong_fu_chess.Prelude.{All, All-weaken, false, none, some, [], ◌∷◌, ◌≡◌, refl, arith, ℤ}
use kong_fu_chess.Model.Piece.{Color, white, black}
use kong_fu_chess.Io.Text.{Text, text_eq, codes, to_string}
use kong_fu_chess.Events.GameEvent.{GameEvent, GameStarted}
use kong_fu_chess.Network.Protocol.Json.{
  quote_json_string, extract_json_string, extract_json_int, read_chars,
}
use kong_fu_chess.Network.Protocol.Json.Fields.{
  Field, IsKey, PassesField, Passes-quote, string_field,
}
use kong_fu_chess.Network.Protocol.Json.Keys.{IsChar, IsPlain}
use kong_fu_chess.Network.Protocol.Lobby.{
  ServerMessageType, parse_server_message_type, parse_game_started_message,
}
use kong_fu_chess.Network.Protocol.Game.{
  serialize_game_started, serialize_game_ended, read_game_ended, parse_server_game_event,
  serialize_server_event,
}
use kong_fu_chess.Network.Protocol.Game.Starts.{
  IsMoveStart, IsJumpStart, move_kind, jump_kind, read-move_started, read-jump_started,
}
use kong_fu_chess.Network.Protocol.Game.Completions.{IsCompletion}
use kong_fu_chess.Network.Protocol.Game.Completions
use kong_fu_chess.Network.Protocol.Game.Captures.{IsCapture}
use kong_fu_chess.Network.Protocol.Game.Captures
use kong_fu_chess.Network.Protocol.Game.Values.{IsCount, count_field}

-- A roster that can be read back: no quote, backslash or NUL in a name, and no name that is the key
-- of a later field.
pub record IsRoster (e : GameStarted) : Type 0 where
  pub white_plain : All IsPlain e.white_user
  pub black_plain : All IsPlain e.black_user
  pub white_not_black : text_eq e.white_user (codes "black") ≡ false
  pub white_not_port : text_eq e.white_user (codes "port") ≡ false
  pub black_not_port : text_eq e.black_user (codes "port") ≡ false
  pub port : IsCount e.port

plain_chars : (t : Text) → All IsPlain t → All IsChar t
plain_chars t h = All-weaken IsPlain IsChar t (λ c p. p.0) h

module _ (e : GameStarted) where
  abbrev white_field : Field
  white_field = (codes "white", quote_json_string e.white_user)

  abbrev black_field : Field
  black_field = (codes "black", quote_json_string e.black_user)

  abbrev port_field : Field
  port_field = (codes "port", to_string e.port)

  started_kind :
      parse_server_message_type (serialize_game_started e) ≡ ServerMessageType.game_started
  unfolding parse_server_message_type serialize_game_started extract_json_string read_chars
  started_kind = refl

  module _ (h : IsRoster e) where
    white_read : extract_json_string (serialize_game_started e) (codes "white") ≡ some e.white_user
    unfolding extract_json_string serialize_game_started
    white_read =
        string_field (codes "white") (omega arith) [] e.white_user (black_field ∷ port_field ∷ [])
          tt (plain_chars e.white_user h.white_plain)

    white_passes :
        (key : Text)
        → IsKey key
        → text_eq (codes "white") key ≡ false
        → text_eq e.white_user key ≡ false
        → PassesField key white_field
    white_passes key k differs other =
        (omega arith, differs, Passes-quote key e.white_user k h.white_plain other)

    black_read : extract_json_string (serialize_game_started e) (codes "black") ≡ some e.black_user
    unfolding extract_json_string serialize_game_started
    black_read =
        string_field (codes "black") (omega arith) (white_field ∷ []) e.black_user (port_field ∷ [])
          (white_passes (codes "black") (omega arith) refl h.white_not_black, tt)
          (plain_chars e.black_user h.black_plain)

    port_read : extract_json_int (serialize_game_started e) (codes "port") ≡ some e.port
    unfolding extract_json_int serialize_game_started
    port_read =
        count_field (codes "port") (white_field ∷ black_field ∷ []) e.port [] (omega arith)
          (
            white_passes (codes "port") (omega arith) refl h.white_not_port,
            (
              (
                omega arith,
                refl,
                Passes-quote (codes "port") e.black_user (omega arith) h.black_plain
                    h.black_not_port,
              ),
              tt,
            ),
          )
          h.port

    started_lem :
        parse_game_started_message (serialize_game_started e)
        ≡ some (record { white_user = e.white_user; black_user = e.black_user; port = e.port })
    unfolding parse_game_started_message
    started_lem = rw (started_kind, white_read, black_read, port_read)

ended_kind :
    (c : Color) → parse_server_message_type (serialize_game_ended c) ≡ ServerMessageType.game_ended
unfolding parse_server_message_type serialize_game_ended extract_json_string read_chars
ended_kind c = refl

ended_lem : (c : Color) → read_game_ended (serialize_game_ended c) ≡ some (GameEvent.game_ended c)
unfolding read_game_ended serialize_game_ended extract_json_string read_chars
ended_lem white = refl
ended_lem black = refl

-- The events that the server can send: times and ports are numbers of an `int` and not negative,
-- squares are those of an 8 by 8 board, pieces have a type, and the names of a roster are readable.
abbrev pub IsSent : GameEvent → Type 0
IsSent (GameEvent.game_started e) = IsRoster e
IsSent (GameEvent.move_completed e) = IsCompletion e
IsSent (GameEvent.jump_captured e) = IsCapture e
IsSent (GameEvent.game_ended c) = Unit {0}
IsSent (GameEvent.move_started e) = IsMoveStart e
IsSent (GameEvent.jump_started e) = IsJumpStart e

-- A client reads back each of the six events of a game from the text that the server sends, if the
-- squares of the event are on an 8 by 8 board, its pieces have a type, its numbers are not negative
-- and fit an `int`, and the names of a roster have no quote, backslash or NUL in them, the first not
-- being `black` or `port` and the second not `port`.
pub parse-serialize_event :
    (e : GameEvent) → IsSent e → parse_server_game_event (serialize_server_event e) ≡ some e
unfolding parse_server_game_event serialize_server_event
parse-serialize_event (GameEvent.game_started e) h = rw (started_kind e) (rw (started_lem e h))
parse-serialize_event (GameEvent.move_completed e) h =
    rw (Completions.kind e h) (Completions.read_lem e h)
parse-serialize_event (GameEvent.jump_captured e) h = rw (Captures.kind e h) (Captures.read_lem e h)
parse-serialize_event (GameEvent.game_ended c) h = rw (ended_kind c) (ended_lem c)
parse-serialize_event (GameEvent.move_started e) h = rw (move_kind e h) (read-move_started e h)
parse-serialize_event (GameEvent.jump_started e) h = rw (jump_kind e h) (read-jump_started e h)

-- White's name `black` makes the message of a start unreadable, whoever plays black.
pub black_named_white :
    (black_user : Text) (port : ℤ)
    → parse_server_game_event (
        serialize_server_event (
          GameEvent.game_started
            (record { white_user = codes "black"; black_user = black_user; port = port })))
      ≡ none
unfolding parse_server_game_event serialize_server_event serialize_game_started
    parse_game_started_message parse_server_message_type extract_json_string read_chars
black_named_white black_user port = refl

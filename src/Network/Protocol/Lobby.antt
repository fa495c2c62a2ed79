-- ===== src/Network/Protocol/Lobby.antt =====
-- The messages of the lobby: src/network/protocol/server_lobby_messages.cpp.
use kong_fu_chess.Prelude.{ℤ, Option, none, some, [], ◌∷◌, ◌++◌, if◌then◌else◌}
use kong_fu_chess.Model.Piece.{Color}
use kong_fu_chess.Io.Text.{Text, text_eq, codes, to_string}
use kong_fu_chess.Network.Protocol.Json.{
  ◌>>=◌, extract_json_string, extract_json_int, quote_json_string,
}
use kong_fu_chess.Network.Protocol.Codec.{color_from_label}

pub data ServerMessageType : Type 0 where
  unknown login_ok error queue_joined queue_left match_found game_started move_started :
      ServerMessageType
  move_completed jump_started jump_capture game_ended queue_timeout : ServerMessageType
  player_disconnected player_reconnected : ServerMessageType

pub record MatchFoundMessage : Type 0 where
  pub color : Color
  pub opponent : Text
  pub port : ℤ

pub record GameStartedMessage : Type 0 where
  pub white_user : Text
  pub black_user : Text
  pub port : ℤ

pub record PlayerDisconnectedMessage : Type 0 where
  pub username : Text
  pub color : Color
  pub grace_seconds : ℤ

-- The chain of comparisons in `parseServerMessageType`.
unfoldable pub message_type : Text → ServerMessageType
message_type t =
    if text_eq t (codes "login_ok")
    then login_ok
    else if text_eq t (codes "error")
    then error
    else if text_eq t (codes "queue_joined")
    then queue_joined
    else if text_eq t (codes "queue_left")
    then queue_left
    else if text_eq t (codes "match_found")
    then match_found
    else if text_eq t (codes "game_started")
    then game_started
    else if text_eq t (codes "move_started")
    then move_started
    else if text_eq t (codes "move_completed")
    then move_completed
    else if text_eq t (codes "jump_started")
    then jump_started
    else if text_eq t (codes "jump_capture")
    then jump_capture
    else if text_eq t (codes "game_ended")
    then game_ended
    else if text_eq t (codes "queue_timeout")
    then queue_timeout
    else if text_eq t (codes "player_disconnected")
    then player_disconnected
    else if text_eq t (codes "player_reconnected")
    then player_reconnected
    else unknown

abbrev pub typed : Option Text → ServerMessageType
typed none = unknown
typed (some t) = message_type t

unfoldable pub parse_server_message_type : Text → ServerMessageType
unfolding message_type
parse_server_message_type json = typed (extract_json_string json (codes "type"))

unfoldable pub serialize_error_message : Text → Text
serialize_error_message message =
    codes "{\"type\":\"error\",\"message\":" ++ (quote_json_string message ++ b'}' ∷ [])

unfoldable pub serialize_login_ok : Text → Text
serialize_login_ok color =
    codes "{\"type\":\"login_ok\",\"color\":" ++ (quote_json_string color ++ b'}' ∷ [])

abbrev pub serialize_queue_joined : Text
serialize_queue_joined = codes "{\"type\":\"queue_joined\"}"

abbrev pub serialize_queue_left : Text
serialize_queue_left = codes "{\"type\":\"queue_left\"}"

unfoldable pub serialize_queue_timeout : Text → Text
serialize_queue_timeout message =
    codes "{\"type\":\"queue_timeout\",\"message\":" ++ (quote_json_string message ++ b'}' ∷ [])

unfoldable pub serialize_match_found : Text → Text → ℤ → Text
serialize_match_found color opponent port =
    codes "{\"type\":\"match_found\",\"color\":"
    ++ (quote_json_string color
        ++ (codes ",\"opponent\":"
            ++ (quote_json_string opponent
                ++ (codes ",\"port\":" ++ (to_string port ++ b'}' ∷ [])))))

unfoldable pub serialize_player_disconnected : Text → Text → ℤ → Text
serialize_player_disconnected username color grace_seconds =
    codes "{\"type\":\"player_disconnected\",\"username\":"
    ++ (quote_json_string username
        ++ (codes ",\"color\":"
            ++ (quote_json_string color
                ++ (codes ",\"grace_seconds\":" ++ (to_string grace_seconds ++ b'}' ∷ [])))))

unfoldable pub serialize_player_reconnected : Text → Text
serialize_player_reconnected username =
    codes "{\"type\":\"player_reconnected\",\"username\":"
    ++ (quote_json_string username ++ b'}' ∷ [])

-- A parser of one kind of message, behind its test of the kind.
abbrev pub expect {ℓ} : {A : Type ℓ} → ServerMessageType → ServerMessageType → Option A → Option A
expect match_found match_found message = message
expect login_ok login_ok message = message
expect game_started game_started message = message
expect queue_timeout queue_timeout message = message
expect player_disconnected player_disconnected message = message
expect player_reconnected player_reconnected message = message
expect _ _ message = none

unfoldable pub parse_match_found_message : Text → Option MatchFoundMessage
parse_match_found_message json = expect match_found (parse_server_message_type json) do
  color ← extract_json_string json (codes "color")
  opponent ← extract_json_string json (codes "opponent")
  port ← extract_json_int json (codes "port")
  some (record { color = color_from_label color; opponent = opponent; port = port })

abbrev pub unless_none : Text → Option Color
unless_none color = if text_eq color (codes "none") then none else some (color_from_label color)

unfoldable pub parse_login_ok_color : Text → Option Color
parse_login_ok_color json =
    expect login_ok (parse_server_message_type json)
      do color ← extract_json_string json (codes "color"); unless_none color

unfoldable pub parse_game_started_message : Text → Option GameStartedMessage
parse_game_started_message json = expect game_started (parse_server_message_type json) do
  white ← extract_json_string json (codes "white")
  black ← extract_json_string json (codes "black")
  port ← extract_json_int json (codes "port")
  some (record { white_user = white; black_user = black; port = port })

unfoldable pub parse_queue_timeout_message : Text → Option Text
parse_queue_timeout_message json =
    expect queue_timeout (parse_server_message_type json)
      do message ← extract_json_string json (codes "message"); some message

unfoldable pub parse_player_disconnected_message : Text → Option PlayerDisconnectedMessage
parse_player_disconnected_message json =
    expect player_disconnected (parse_server_message_type json) do
      username ← extract_json_string json (codes "username")
      color ← extract_json_string json (codes "color")
      grace_seconds ← extract_json_int json (codes "grace_seconds")
      some (record {
        username = username;
        color = color_from_label color;
        grace_seconds = grace_seconds;
      })

unfoldable pub parse_player_reconnected_message : Text → Option Text
parse_player_reconnected_message json =
    expect player_reconnected (parse_server_message_type json)
      do username ← extract_json_string json (codes "username"); some username

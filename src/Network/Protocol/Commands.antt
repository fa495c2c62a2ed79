-- ===== src/Network/Protocol/Commands.antt =====
-- The commands of a client: src/network/ws_protocol.h and protocol/client_commands.cpp.
pub mod RoundTrip
use kong_fu_chess.Prelude.{
  ℕ, Bool, true, false, ◌||◌, Option, none, some, [], ◌∷◌, ◌++◌, if◌then◌else◌,
}
use kong_fu_chess.Io.Text.{Text, text_eq, codes}
use kong_fu_chess.Network.Protocol.Json.{◌>>=◌, extract_json_string, quote_json_string}

pub data ClientCommand : Type 0 where
  login_command : Text → ClientCommand
  move_command : Text → Text → ClientCommand
  jump_command : Text → ClientCommand
  join_queue_command leave_queue_command : ClientCommand

-- `clientCommandType`, whose enumeration carries the index of the variant.
abbrev pub client_command_type : ClientCommand → ℕ
client_command_type (login_command username) = 0
client_command_type (move_command from to) = 1
client_command_type (jump_command square) = 2
client_command_type join_queue_command = 3
client_command_type leave_queue_command = 4

-- An absent or an empty value ends a parse.
abbrev pub non_empty : Option Text → Option Text
non_empty none = none
non_empty (some []) = none
non_empty (some (c ∷ cs)) = some (c ∷ cs)

unfoldable pub parse_login_command : Text → Option ClientCommand
parse_login_command json = do
  username ← non_empty (extract_json_string json (codes "username"))
  some (login_command username)

unfoldable pub parse_move_command : Text → Option ClientCommand
parse_move_command json = do
  from ← non_empty (extract_json_string json (codes "from"))
  to ← non_empty (extract_json_string json (codes "to"))
  some (move_command from to)

unfoldable pub parse_jump_command : Text → Option ClientCommand
parse_jump_command json = do
  square ← non_empty (extract_json_string json (codes "square"))
  some (jump_command square)

-- `parseClientMessage`, by the value of the key `type`.
unfoldable pub parse_by_type : Text → Text → Option ClientCommand
parse_by_type json type =
    if text_eq type (codes "login")
    then parse_login_command json
    else if text_eq type (codes "move")
    then parse_move_command json
    else if text_eq type (codes "jump")
    then parse_jump_command json
    else if text_eq type (codes "join_queue")
    then some join_queue_command
    else if text_eq type (codes "leave_queue")
    then some leave_queue_command
    else none

unfoldable pub parse_client_message : Text → Option ClientCommand
unfolding parse_by_type
parse_client_message json = extract_json_string json (codes "type") >>= parse_by_type json

unfoldable pub serialize_login_command : Text → Text
serialize_login_command username =
    codes "{\"type\":\"login\",\"username\":" ++ (quote_json_string username ++ b'}' ∷ [])

unfoldable pub serialize_move_command : Text → Text → Text
serialize_move_command from to =
    codes "{\"type\":\"move\",\"from\":"
    ++ (quote_json_string from ++ (codes ",\"to\":" ++ (quote_json_string to ++ b'}' ∷ [])))

unfoldable pub serialize_jump_command : Text → Text
serialize_jump_command square =
    codes "{\"type\":\"jump\",\"square\":" ++ (quote_json_string square ++ b'}' ∷ [])

abbrev pub serialize_join_queue_command : Text
serialize_join_queue_command = codes "{\"type\":\"join_queue\"}"

abbrev pub serialize_leave_queue_command : Text
serialize_leave_queue_command = codes "{\"type\":\"leave_queue\"}"

-- ===== src/Network/Protocol/Commands/RoundTrip.antt =====
-- The server reads back each command that a client writes.
use kong_fu_chess.Prelude.{
  All, All-weaken, false, some, [], ◌∷◌, ◌++◌, ◌≡◌, ◌≢◌, refl, ap, ◌∙◌, arith,
}
use kong_fu_chess.Io.Text.{Text, text_eq, codes}
use kong_fu_chess.Network.Protocol.Json.{quote_json_string, extract_json_string, read_chars}
use kong_fu_chess.Network.Protocol.Json.Keys.{
  IsChar, IsPlain, string_behind, find_after-past, read_json_string_value-quote,
}
use kong_fu_chess.Network.Protocol.Commands.{
  ClientCommand, login_command, move_command, jump_command, join_queue_command, leave_queue_command,
  non_empty, parse_login_command, parse_move_command, parse_jump_command, parse_client_message,
  serialize_login_command, serialize_move_command, serialize_jump_command,
  serialize_join_queue_command, serialize_leave_queue_command,
}

login_type :
    (u : Text)
    → extract_json_string (serialize_login_command u) (codes "type") ≡ some (codes "login")
unfolding extract_json_string serialize_login_command read_chars
login_type u = refl

login_username :
    (u : Text)
    → All IsChar u
    → extract_json_string (serialize_login_command u) (codes "username") ≡ some u
unfolding extract_json_string serialize_login_command
login_username u h = read_json_string_value-quote u (b'}' ∷ []) h

jump_type :
    (q : Text) → extract_json_string (serialize_jump_command q) (codes "type") ≡ some (codes "jump")
unfolding extract_json_string serialize_jump_command read_chars
jump_type q = refl

jump_square :
    (q : Text)
    → All IsChar q
    → extract_json_string (serialize_jump_command q) (codes "square") ≡ some q
unfolding extract_json_string serialize_jump_command
jump_square q h = read_json_string_value-quote q (b'}' ∷ []) h

move_type :
    (p q : Text)
    → extract_json_string (serialize_move_command p q) (codes "type") ≡ some (codes "move")
unfolding extract_json_string serialize_move_command read_chars
move_type p q = refl

move_from :
    (p q : Text)
    → All IsChar p
    → extract_json_string (serialize_move_command p q) (codes "from") ≡ some p
unfolding extract_json_string serialize_move_command
move_from p q h =
    read_json_string_value-quote p (codes ",\"to\":" ++ (quote_json_string q ++ b'}' ∷ [])) h

to_key : All IsPlain (codes "to")
to_key = omega arith

-- The key `to` is found behind the value of `from`.
move_to :
    (p q : Text)
    → All IsPlain p
    → text_eq p (codes "to") ≡ false
    → All IsChar q
    → extract_json_string (serialize_move_command p q) (codes "to") ≡ some q
unfolding extract_json_string serialize_move_command
move_to p q plain other h =
    ap string_behind (
      find_after-past (codes "to") p (codes "\"to\":" ++ (quote_json_string q ++ b'}' ∷ [])) b','
        to_key plain other (omega arith))
    ∙ read_json_string_value-quote q (b'}' ∷ []) h

-- A command that the client can write: login names and squares are not empty and hold no NUL, and
-- the square from which a piece moves has no quote or backslash and is not the word `to`.
abbrev pub IsCommand : ClientCommand → Type 0
IsCommand (login_command u) = All IsChar u × (u ≢ [])
IsCommand (move_command p q) =
    All IsPlain p × (p ≢ []) × (text_eq p (codes "to") ≡ false) × All IsChar q × (q ≢ [])
IsCommand (jump_command q) = All IsChar q × (q ≢ [])
IsCommand join_queue_command = Unit {0}
IsCommand leave_queue_command = Unit {0}

abbrev pub serialize_command : ClientCommand → Text
serialize_command (login_command u) = serialize_login_command u
serialize_command (move_command p q) = serialize_move_command p q
serialize_command (jump_command q) = serialize_jump_command q
serialize_command join_queue_command = serialize_join_queue_command
serialize_command leave_queue_command = serialize_leave_queue_command

non_empty_lem : (t : Text) → t ≢ [] → non_empty (some t) ≡ some t
non_empty_lem [] ne = absurd (ne refl)
non_empty_lem (c ∷ cs) ne = refl

IsPlain-IsChar : (t : Text) → All IsPlain t → All IsChar t
IsPlain-IsChar t h = All-weaken IsPlain IsChar t (λ c p. p.0) h

join_lem : parse_client_message serialize_join_queue_command ≡ some join_queue_command
unfolding parse_client_message extract_json_string read_chars
join_lem = refl

leave_lem : parse_client_message serialize_leave_queue_command ≡ some leave_queue_command
unfolding parse_client_message extract_json_string read_chars
leave_lem = refl

-- The server reads back, from the text of each of the five commands, that command, if its texts are
-- neither empty nor have a NUL in them, and the first square of a move has no quote or backslash and
-- is not `to`.
pub parse-serialize :
    (c : ClientCommand) → IsCommand c → parse_client_message (serialize_command c) ≡ some c
unfolding parse_client_message parse_login_command parse_move_command parse_jump_command
parse-serialize (login_command u) h =
    rw (login_type u) (rw (login_username u h.0) (rw (non_empty_lem u h.1)))
parse-serialize (move_command p q) h = rw (move_type p q) (
    rw (move_from p q (IsPlain-IsChar p h.0), move_to p q h.0 h.2 h.3)
      (rw (non_empty_lem p h.1, non_empty_lem q h.4)))
parse-serialize (jump_command q) h =
    rw (jump_type q) (rw (jump_square q h.0) (rw (non_empty_lem q h.1)))
parse-serialize join_queue_command h = join_lem
parse-serialize leave_queue_command h = leave_lem

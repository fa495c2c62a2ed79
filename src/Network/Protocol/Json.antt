-- ===== src/Network/Protocol/Json.antt =====
-- src/network/protocol/json_util.cpp. A `const char*` into a text is the text from there on; it
-- reads the final NUL where that list ends.
pub mod Keys
pub mod Numbers
pub mod Fields
use kong_fu_chess.Prelude.{
  ℕ, ◌+◌, ◌-◌, ◌*◌, ◌%◌, ◌^◌, ltb, leb, ◌==◌, ℤ, pos, negsuc, Bool, true, false, ◌&&◌, ◌||◌, Option,
  none, some, List, [], ◌∷◌, ◌++◌, if◌then◌else◌,
}
use kong_fu_chess.Io.Text.{Text, is_space}

unfoldable pub skip_whitespace : Text → Text
skip_whitespace [] = []
skip_whitespace (c ∷ cs) = if is_space c then skip_whitespace cs else c ∷ cs

-- The loop of `readJsonStringValue`; the flag says that the last character was a backslash.
unfoldable pub read_chars : Bool → Text → Text → Option Text
read_chars escaped [] value = none
read_chars true (c ∷ cs) value =
    let copied = read_chars false cs (value ++ c ∷ []) in if c == 0 then none else copied
read_chars false (c ∷ cs) value =
    let copied = read_chars false cs (value ++ c ∷ []) in
    let after_backslash = read_chars true cs value in
    if c == 0
    then none
    else if c == b'"'
    then some value
    else if c == b'\\'
    then after_backslash
    else copied

unfoldable pub read_quoted : Text → Option Text
read_quoted [] = none
read_quoted (c ∷ cs) = if c == b'"' then read_chars false cs [] else none

unfoldable pub read_json_string_value : Text → Option Text
unfolding read_quoted skip_whitespace
read_json_string_value cursor = read_quoted (skip_whitespace cursor)

abbrev pub escape_char : ℕ → Text → Text
escape_char c rest =
    if c == b'\\' then b'\\' ∷ b'\\' ∷ rest else if c == b'"' then b'\\' ∷ b'"' ∷ rest else c ∷ rest

abbrev pub escape_json_string : Text → Text
escape_json_string [] = []
escape_json_string (c ∷ cs) = escape_char c (escape_json_string cs)

abbrev pub quote_json_string : Text → Text
quote_json_string value = b'"' ∷ (escape_json_string value ++ b'"' ∷ [])

abbrev pub strip_prefix : Text → Text → Option Text
strip_prefix [] text = some text
strip_prefix (n ∷ ns) [] = none
strip_prefix (n ∷ ns) (c ∷ cs) = if n == c then strip_prefix ns cs else none

abbrev pub or_else : Option Text → Option Text → Option Text
or_else (some rest) later = some rest
or_else none later = later

-- What stands behind the first occurrence: `json.c_str() + json.find(needle) + needle.size()`.
unfoldable pub find_after : Text → Text → Option Text
find_after needle [] = strip_prefix needle []
find_after needle (c ∷ cs) = or_else (strip_prefix needle (c ∷ cs)) (find_after needle cs)

unfoldable pub after_colon : Text → Option Text
after_colon [] = none
after_colon (c ∷ cs) = if c == b':' then some cs else none

infixl 5 ◌>>=◌
abbrev pub ◌>>=◌ {ℓ κ} : {A : Type ℓ} {B : Type κ} → Option A → (A → Option B) → Option B
none >>= next = none
some a >>= next = next a

-- The part that `extractJsonString` and `extractJsonInt` share: what stands behind the key's colon.
unfoldable pub value_of : Text → Text → Option Text
unfolding find_after after_colon skip_whitespace
value_of json key = do
  rest ← find_after (quote_json_string key) json
  after_colon (skip_whitespace rest)

unfoldable pub extract_json_string : Text → Text → Option Text
unfolding value_of read_json_string_value
extract_json_string json key = value_of json key >>= read_json_string_value

abbrev pub is_digit : ℕ → Bool
is_digit c = leb b'0' c && leb c b'9'

unfoldable pub scan_digits : ℕ → Text → ℕ
scan_digits n [] = n
scan_digits n (c ∷ cs) =
    let more = scan_digits (n * 10 + (c - b'0')) cs in if is_digit c then more else n

unfoldable pub read_digits : Text → Option ℕ
unfolding scan_digits
read_digits [] = none
read_digits (c ∷ cs) = if is_digit c then some (scan_digits (c - b'0') cs) else none

abbrev at_most : ℕ → ℕ → ℕ
at_most bound n = if ltb bound n then bound else n

-- `strtol` stays in the range of a `long`. That has 32 bits on the platform of the build, so the
-- conversion of the result to `int` changes nothing.
unfoldable pub positive_int : ℕ → ℤ
positive_int n = pos (at_most (2 ^ 31 - 1) n)

unfoldable pub negative_int : ℕ → ℤ
negative_int n = let m = at_most (2 ^ 31) n in if m == 0 then pos 0 else negsuc (m - 1)

unfoldable pub strtol : Text → Option ℤ
unfolding read_digits positive_int negative_int
strtol [] = none
strtol (c ∷ cs) =
    if c == b'-'
    then (read_digits cs >>= λ n. some (negative_int n))
    else if c == b'+'
    then (read_digits cs >>= λ n. some (positive_int n))
    else (read_digits (c ∷ cs) >>= λ n. some (positive_int n))

unfoldable pub extract_json_int : Text → Text → Option ℤ
unfolding value_of strtol skip_whitespace
extract_json_int json key = value_of json key >>= λ rest. strtol (skip_whitespace rest)

-- ===== src/Network/Protocol/Json/Keys.antt =====
-- Where the key of a message is found: past values that hold neither quotes nor the key itself.
use kong_fu_chess.Prelude.{
  ℕ, ℤ, ◌==◌, All, false, Bool-cases, Option, none, some, [], ◌∷◌, ◌++◌, ◌≡◌, ◌≢◌, refl, sym, ap,
  ◌∙◌, inl, inr, arith, append_assoc, append-nil,
}
use kong_fu_chess.Io.Text.{Text, text_eq}
use kong_fu_chess.Network.Protocol.Json.{
  escape_json_string, quote_json_string, strip_prefix, or_else, find_after, read_chars,
  read_json_string_value, skip_whitespace, ◌>>=◌, after_colon, strtol,
}

-- A character other than the NUL; one that JSON does not escape besides.
abbrev pub IsChar : ℕ → Type 0
IsChar c = c ≢ 0

abbrev pub IsPlain : ℕ → Type 0
IsPlain c = (c ≢ 0) × (c ≢ b'"') × (c ≢ b'\\')

pub escape-plain : (v : Text) → All IsPlain v → escape_json_string v ≡ v
escape-plain [] h = refl
escape-plain (c ∷ cs) h = ground (arith, escape-plain cs h.1)

-- `readJsonStringValue` undoes `escapeJsonString`.
read_chars-escape :
    (v value rest : Text)
    → All IsChar v
    → read_chars false (escape_json_string v ++ b'"' ∷ rest) value ≡ some (value ++ v)
unfolding read_chars
read_chars-escape [] value rest h = rw append-nil
read_chars-escape (c ∷ cs) value rest h =
    let later =
      read_chars-escape cs (value ++ c ∷ []) rest h.1 ∙ ap some (append_assoc value (c ∷ []) cs) in
    elim (Bool-cases (c == b'\\')) [
      | inl slash ↦ rw slash (ground (arith, later))
      | inr other ↦ elim (Bool-cases (c == b'"')) [
        | inl quote ↦ rw (other, quote) (ground (arith, later))
        | inr plain ↦ rw (other, plain) (ground (arith, later))
      ]
    ]

-- What `extractJsonString` reads of a quoted value behind the colon.
pub read_json_string_value-quote :
    (v rest : Text) → All IsChar v → read_json_string_value (quote_json_string v ++ rest) ≡ some v
unfolding read_json_string_value
read_json_string_value-quote v rest h =
    ap (λ t. read_chars false t []) (append_assoc (escape_json_string v) (b'"' ∷ []) rest)
    ∙ read_chars-escape v [] rest h

-- The key does not start where a value does, if it is not that value.
strip_prefix-value :
    (key v rest : Text)
    → All IsPlain key
    → All IsPlain v
    → text_eq v key ≡ false
    → strip_prefix (key ++ b'"' ∷ []) (v ++ b'"' ∷ rest) ≡ none
strip_prefix-value [] [] rest hk hv e = cc
strip_prefix-value [] (c ∷ cs) rest hk hv e = ground arith
strip_prefix-value (k ∷ ks) [] rest hk hv e = ground arith
strip_prefix-value (k ∷ ks) (c ∷ cs) rest hk hv e =
    ground (arith, strip_prefix-value ks cs rest hk.1 hv.1)

-- A search for a text that starts with a quote passes over what has none.
pub find_after-plain :
    (needle v rest : Text)
    → All IsPlain v
    → find_after (b'"' ∷ needle) (v ++ rest) ≡ find_after (b'"' ∷ needle) rest
unfolding find_after
find_after-plain needle [] rest h = refl
find_after-plain needle (c ∷ cs) rest h = ground (arith, find_after-plain needle cs rest h.1)

pub quote-plain :
    (v rest : Text) → All IsPlain v → quote_json_string v ++ rest ≡ b'"' ∷ (v ++ b'"' ∷ rest)
quote-plain v rest h =
    ap (λ t. b'"' ∷ (t ++ b'"' ∷ [] ++ rest)) (escape-plain v h)
    ∙ ap (λ t. b'"' ∷ t) (append_assoc v (b'"' ∷ []) rest)

-- A character that may stand behind a quote where no key starts.
abbrev pub Closes : ℕ → Text → Type 0
Closes d [] = ⊥
Closes d (k ∷ ks) = (k ≢ d) × (d ≢ b'"')

-- The closing quote of a text, and the character behind it.
find_after-close :
    (key rest : Text) (d : ℕ)
    → Closes d key
    → find_after (b'"' ∷ (key ++ b'"' ∷ [])) (b'"' ∷ d ∷ rest)
      ≡ find_after (b'"' ∷ (key ++ b'"' ∷ [])) rest
unfolding find_after
find_after-close [] rest d close = elim close [ ]
find_after-close (k ∷ ks) rest d close = ground arith

find_after-value :
    (key v rest : Text) (d : ℕ)
    → All IsPlain key
    → All IsPlain v
    → text_eq v key ≡ false
    → Closes d key
    → find_after (b'"' ∷ (key ++ b'"' ∷ [])) (b'"' ∷ (v ++ b'"' ∷ d ∷ rest))
      ≡ find_after (b'"' ∷ (key ++ b'"' ∷ [])) rest
unfolding find_after
find_after-value key v rest d hk hv e close =
    ap (λ o. or_else o (find_after (b'"' ∷ (key ++ b'"' ∷ [])) (v ++ b'"' ∷ d ∷ rest)))
      (strip_prefix-value key v (d ∷ rest) hk hv e)
    ∙ find_after-plain (key ++ b'"' ∷ []) v (b'"' ∷ d ∷ rest) hv
    ∙ find_after-close key rest d close

-- The search for a key passes over a quoted text with no quotes in it that is another one, and the
-- character behind it.
pub find_after-past :
    (key v rest : Text) (d : ℕ)
    → All IsPlain key
    → All IsPlain v
    → text_eq v key ≡ false
    → Closes d key
    → find_after (b'"' ∷ (key ++ b'"' ∷ [])) (quote_json_string v ++ d ∷ rest)
      ≡ find_after (b'"' ∷ (key ++ b'"' ∷ [])) rest
find_after-past key v rest d hk hv e close =
    ap (find_after (b'"' ∷ (key ++ b'"' ∷ []))) (quote-plain v (d ∷ rest) hv)
    ∙ find_after-value key v rest d hk hv e close

strip_prefix_self : (t rest : Text) → strip_prefix t (t ++ rest) ≡ some rest
strip_prefix_self [] rest = refl
strip_prefix_self (c ∷ cs) rest = ground (arith, strip_prefix_self cs rest)

-- The key itself is found.
pub find_after-key :
    (key rest : Text)
    → All IsPlain key
    → find_after (b'"' ∷ (key ++ b'"' ∷ [])) (quote_json_string key ++ rest) ≡ some rest
unfolding find_after
find_after-key key rest h =
    ap (find_after (b'"' ∷ (key ++ b'"' ∷ []))) (quote-plain key rest h)
    ∙ ap (λ o. or_else o (find_after (b'"' ∷ (key ++ b'"' ∷ [])) (key ++ b'"' ∷ rest)))
        (ap (strip_prefix (key ++ b'"' ∷ [])) (sym (append_assoc key (b'"' ∷ []) rest))
          ∙ strip_prefix_self (key ++ b'"' ∷ []) rest)

-- What the two readers make of the place behind a key.
abbrev pub string_behind : Option Text → Option Text
string_behind o = o >>= (λ rest. after_colon (skip_whitespace rest)) >>= read_json_string_value

abbrev pub int_behind : Option Text → Option ℤ
int_behind o =
    o >>= (λ rest. after_colon (skip_whitespace rest)) >>= λ rest. strtol (skip_whitespace rest)

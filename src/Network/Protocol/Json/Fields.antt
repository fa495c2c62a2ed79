-- ===== src/Network/Protocol/Json/Fields.antt =====
-- A message as a list of fields, and the field that the readers of `json_util.cpp` find in it.
use kong_fu_chess.Prelude.{
  ℕ, ◌<◌, ◌^◌, pos, All, false, none, some, List, [], ◌∷◌, ◌++◌, ◌≡◌, refl, sym, ap, ◌∙◌, arith,
}
use kong_fu_chess.Io.Text.{Text, text_eq, to_string}
use kong_fu_chess.Network.Protocol.Json.{
  quote_json_string, find_after, after_colon, skip_whitespace, read_json_string_value, strtol,
  read_chars,
}
use kong_fu_chess.Network.Protocol.Json.Keys.{
  IsChar, IsPlain, Closes, find_after-plain, find_after-past, find_after-key, string_behind,
  int_behind, read_json_string_value-quote,
}
use kong_fu_chess.Network.Protocol.Json.Numbers.{strtol-to_string, to_string-IsPlain}

-- A key with the text of its value.
abbrev pub Field : Type 0
Field = Text × Text

abbrev pub fields_text : List Field → Text
fields_text [] = b'}' ∷ []
fields_text ((key, value) ∷ fs) =
    b',' ∷ (quote_json_string key ++ (b':' ∷ (value ++ fields_text fs)))

-- What a search for a key looks for.
abbrev pub needle : Text → Text
needle key = b'"' ∷ (key ++ b'"' ∷ [])

-- A search for the key runs through a value, and the character behind it, to what follows.
abbrev pub Passes : Text → Text → Type 0
Passes key value =
    (rest : Text) (d : ℕ)
    → Closes d key
    → find_after (needle key) (value ++ d ∷ rest) ≡ find_after (needle key) rest

pub record IsKey (key : Text) : Type 0 where
  pub plain : All IsPlain key
  pub comma : Closes b',' key
  pub colon : Closes b':' key
  pub brace : Closes b'}' key

abbrev pub PassesField : Text → Field → Type 0
PassesField key f = IsKey f.0 × (text_eq f.0 key ≡ false) × Passes key f.1

pub Passes-quote :
    (key v : Text)
    → IsKey key
    → All IsPlain v
    → text_eq v key ≡ false
    → Passes key (quote_json_string v)
Passes-quote key v k h e rest d close = find_after-past key v rest d k.plain h e close

pub Passes-number : (key : Text) (n : ℕ) → Passes key (to_string (pos n))
unfolding find_after
Passes-number key n rest d close =
    find_after-plain (key ++ b'"' ∷ []) (to_string (pos n)) (d ∷ rest) (to_string-IsPlain n)
    ∙ skip key d close
  where
    skip :
        (key : Text) (d : ℕ)
        → Closes d key
        → find_after (needle key) (d ∷ rest) ≡ find_after (needle key) rest
    skip [] d close = elim close [ ]
    skip (k ∷ ks) d close = ground arith

module _ (key : Text) (is_key : IsKey key) where
  field_start :
      (prev : List Field) (f : Field) (rest : List Field)
      → (t : Text) × (fields_text (prev ++ f ∷ rest) ≡ b',' ∷ t)
  field_start [] f rest = (_, refl)
  field_start (p ∷ ps) f rest = (_, refl)

  -- Past a key, its colon and its value.
  find_after-field :
      (f : Field) (t : Text) (d : ℕ)
      → Closes d key
      → PassesField key f
      → find_after (needle key) (b',' ∷ (quote_json_string f.0 ++ (b':' ∷ (f.1 ++ d ∷ t))))
        ≡ find_after (needle key) t
  unfolding find_after
  find_after-field f t d close h =
      find_after-past key f.0 (f.1 ++ d ∷ t) b':' is_key.plain h.0.plain h.1 is_key.colon
      ∙ h.2 t d close

  find_field :
      (prev : List Field) (value : Text) (rest : List Field)
      → All (PassesField key) prev
      → find_after (needle key) (fields_text (prev ++ (key, value) ∷ rest))
        ≡ some (b':' ∷ (value ++ fields_text rest))
  unfolding find_after
  find_field [] value rest h = find_after-key key (b':' ∷ (value ++ fields_text rest)) is_key.plain
  find_field (p ∷ ps) value rest h =
      let (t, e) = field_start ps (key, value) rest in
      ap (λ u. find_after (needle key) (b',' ∷ (quote_json_string p.0 ++ (b':' ∷ (p.1 ++ u))))) e
      ∙ find_after-field p t b',' is_key.comma h.0
      ∙ ap (find_after (needle key)) (sym e)
      ∙ find_field ps value rest h.1

  -- No field has the key.
  find_none :
      (fs : List Field) → All (PassesField key) fs → find_after (needle key) (fields_text fs) ≡ none
  unfolding find_after
  find_none [] h = refl
  find_none (f ∷ []) h = find_after-field f [] b'}' is_key.brace h.0
  find_none (f ∷ g ∷ gs) h = find_after-field f _ b',' is_key.comma h.0 ∙ find_none (g ∷ gs) h.1

  -- The value that `extractJsonString` reads, behind fields that pass.
  pub string_field :
      (prev : List Field) (v : Text) (rest : List Field)
      → All (PassesField key) prev
      → All IsChar v
      → string_behind
          (find_after (needle key) (fields_text (prev ++ (key, quote_json_string v) ∷ rest)))
        ≡ some v
  unfolding read_json_string_value after_colon read_chars
  string_field prev v rest h c =
      ap string_behind (find_field prev (quote_json_string v) rest h)
      ∙ read_json_string_value-quote v (fields_text rest) c

  ends :
      (n : ℕ) (rest : List Field)
      → n < 2 ^ 31
      → strtol (skip_whitespace (to_string (pos n) ++ fields_text rest)) ≡ some (pos n)
  ends n [] small = strtol-to_string n b'}' [] small refl
  ends n (f ∷ fs) small = strtol-to_string n b',' _ small refl

  -- The number that `extractJsonInt` reads.
  pub int_field :
      (prev : List Field) (n : ℕ) (rest : List Field)
      → All (PassesField key) prev
      → n < 2 ^ 31
      → int_behind (find_after (needle key) (fields_text (prev ++ (key, to_string (pos n)) ∷ rest)))
        ≡ some (pos n)
  unfolding after_colon skip_whitespace strtol to_string
  int_field prev n rest h small =
      ap int_behind (find_field prev (to_string (pos n)) rest h) ∙ ends n rest small

  pub no_field :
      (fs : List Field)
      → All (PassesField key) fs
      → string_behind (find_after (needle key) (fields_text fs)) ≡ none
  no_field fs h = ap string_behind (find_none fs h)

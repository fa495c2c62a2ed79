-- ===== src/Io/Text.antt =====
-- Text as the list of its character codes, and numbers in decimal.
use Prim.Native.Char.{code}
use Prim.Native.String.{String}
use kong_fu_chess.Prelude.{
  Bool, true, false, ◌&&◌, ◌||◌, leb, ◌==◌, ◌≡◌, refl, arith, ℕ, zero, suc, ◌+◌, ◌/◌, ◌%◌, ltb, ℤ,
  pos, negsuc, List, [], ◌∷◌, length, if◌then◌else◌,
}

abbrev pub Text : Type 0
Text = List ℕ

-- The character codes of a literal.
abbrev pub codes : String → Text
codes String.[] = []
codes (String.◌∷◌ c s) = code c ∷ codes s

-- The digits of `n` before those of `acc`; each round takes the last one.
unfoldable pub digits_onto : ℕ → ℕ → Text → Text
digits_onto zero n acc = acc
digits_onto (suc fuel) n acc =
    let rest = digits_onto fuel (n / 10) ((b'0' + n % 10) ∷ acc) in
    if ltb n 10 then (b'0' + n) ∷ acc else rest

-- A number has fewer digits than its successor counts.
unfoldable pub decimal : ℕ → Text
unfolding digits_onto
decimal n = digits_onto (suc n) n []

-- `std::to_string` of an `int`.
unfoldable pub to_string : ℤ → Text
unfolding decimal
to_string (pos n) = decimal n
to_string (negsuc n) = b'-' ∷ decimal (suc n)

-- A stream of width 2 with the fill character 0.
unfoldable pub two_wide : Text → Text
two_wide s =
    if ltb (length s) 2 then (if ltb (length s) 1 then b'0' ∷ b'0' ∷ s else b'0' ∷ s) else s

-- `std::isspace` in the "C" locale.
abbrev pub is_space : ℕ → Bool
is_space c = c == b' ' || leb 9 c && leb c 13

-- `==` of two strings.
abbrev pub text_eq : Text → Text → Bool
text_eq [] [] = true
text_eq [] (d ∷ ds) = false
text_eq (c ∷ cs) [] = false
text_eq (c ∷ cs) (d ∷ ds) = (c == d) && text_eq cs ds

pub text_eq_self : (s : Text) → text_eq s s ≡ true
text_eq_self [] = refl
text_eq_self (c ∷ cs) = ground (arith, text_eq_self cs)

pub text_eq-≡ : (s t : Text) → text_eq s t ≡ true → s ≡ t
text_eq-≡ [] [] h = refl
text_eq-≡ [] (d ∷ ds) h = cc
text_eq-≡ (c ∷ cs) [] h = cc
text_eq-≡ (c ∷ cs) (d ∷ ds) h = ground (arith, text_eq-≡ cs ds)

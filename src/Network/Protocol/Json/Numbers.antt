-- ===== src/Network/Protocol/Json/Numbers.antt =====
-- Numbers in decimal are read back.
use kong_fu_chess.Prelude.{
  ℕ, All, zero, suc, ◌+◌, ◌/◌, ◌%◌, ◌^◌, ◌<◌, ltb, pos, true, false, Bool-cases, some, [], ◌∷◌,
  ◌++◌, ◌≡◌, refl, ap, ◌∙◌, inl, inr, arith,
}
use kong_fu_chess.Io.Text.{Text, digits_onto, decimal, to_string}
use kong_fu_chess.Network.Protocol.Json.Keys.{IsPlain}
use kong_fu_chess.Network.Protocol.Json.{
  is_digit, scan_digits, read_digits, positive_int, strtol, skip_whitespace,
}

digits_onto-append :
    (fuel n : ℕ) (s rest : Text) → digits_onto fuel n s ++ rest ≡ digits_onto fuel n (s ++ rest)
unfolding digits_onto
digits_onto-append zero n s rest = refl
digits_onto-append (suc fuel) n s rest =
    ground (arith, digits_onto-append fuel (n / 10) ((b'0' + n % 10) ∷ s) rest)

is_digit_lem : (n : ℕ) → is_digit (b'0' + n % 10) ≡ true
is_digit_lem n = ground arith

one_more : (n : ℕ) (s : Text) → scan_digits (n / 10) ((b'0' + n % 10) ∷ s) ≡ scan_digits n s
unfolding scan_digits
one_more n s = rw (is_digit_lem n) (ap (λ k. scan_digits k s) (omega arith))

read_digits-digits_onto :
    (fuel n : ℕ) (s : Text)
    → n < suc fuel
    → read_digits (digits_onto (suc fuel) n s) ≡ some (scan_digits n s)
unfolding digits_onto read_digits scan_digits
read_digits-digits_onto zero n s h = ground arith
read_digits-digits_onto (suc fuel) n s h = elim (Bool-cases (ltb n 10)) [
  | inl small ↦ rw small (ground arith)
  | inr big ↦ rw big (
      read_digits-digits_onto fuel (n / 10) ((b'0' + n % 10) ∷ s) (ground arith)
      ∙ ap some (one_more n s))
]

-- A number that a character which is no digit ends.
read_digits-decimal :
    (n c : ℕ) (cs : Text) → is_digit c ≡ false → read_digits (decimal n ++ c ∷ cs) ≡ some n
unfolding decimal
read_digits-decimal n c cs h =
    ap read_digits (digits_onto-append (suc n) n [] (c ∷ cs))
    ∙ read_digits-digits_onto n n (c ∷ cs) (omega arith)
    ∙ (unfold scan_digits in rw h)

strtol-read_digits : (t : Text) (n : ℕ) → read_digits t ≡ some n → strtol t ≡ some (positive_int n)
unfolding strtol read_digits
strtol-read_digits [] n h = cc
strtol-read_digits (c ∷ cs) n h = ground arith

skip_whitespace-read_digits : (t : Text) (n : ℕ) → read_digits t ≡ some n → skip_whitespace t ≡ t
unfolding skip_whitespace read_digits
skip_whitespace-read_digits [] n h = cc
skip_whitespace-read_digits (c ∷ cs) n h = ground arith

positive_int_lem : (n : ℕ) → n < 2 ^ 31 → positive_int n ≡ pos n
unfolding positive_int
positive_int_lem n h = ground arith

-- What `extractJsonInt` reads of a number behind the colon.
pub strtol-to_string :
    (n c : ℕ) (cs : Text)
    → n < 2 ^ 31
    → is_digit c ≡ false
    → strtol (skip_whitespace (to_string (pos n) ++ c ∷ cs)) ≡ some (pos n)
unfolding to_string
strtol-to_string n c cs small h =
    let digits = read_digits-decimal n c cs h in
    ap strtol (skip_whitespace-read_digits _ n digits)
    ∙ strtol-read_digits _ n digits
    ∙ ap some (positive_int_lem n small)

small_digit : (n : ℕ) → ltb n 10 ≡ true → IsPlain (b'0' + n)
small_digit n h = ground arith

digits_onto-IsPlain : (fuel n : ℕ) (s : Text) → All IsPlain s → All IsPlain (digits_onto fuel n s)
unfolding digits_onto
digits_onto-IsPlain zero n s h = h
digits_onto-IsPlain (suc fuel) n s h = elim (Bool-cases (ltb n 10)) [
  | inl small ↦ rw small (small_digit n small, h)
  | inr big ↦ rw big (digits_onto-IsPlain fuel (n / 10) ((b'0' + n % 10) ∷ s) (omega arith, h))
]

pub to_string-IsPlain : (n : ℕ) → All IsPlain (to_string (pos n))
unfolding to_string decimal
to_string-IsPlain n = digits_onto-IsPlain (suc n) n [] tt

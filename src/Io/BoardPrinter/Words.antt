-- ===== src/Io/BoardPrinter/Words.antt =====
-- Words with one space between them, split and trimmed as the parser does.
use kong_fu_chess.Prelude.{
  ℕ, ◌<◌, ◌==◌, All, All-append, All-weaken, false, not, ◌&&◌, List, [], ◌∷◌, ◌++◌, filter,
  if◌then◌else◌, ◌≡◌, ◌≢◌, refl, ap, ◌∙◌, arith,
}
use kong_fu_chess.Io.Text.{Text, is_space}
use kong_fu_chess.Io.Lines.{lines, parts, is_nil, words}
use kong_fu_chess.Io.BoardParser.{is_blank_char, trim_start, trim_end, trim_line}
use kong_fu_chess.Io.BoardPrinter.Rows.{behind, spaced}

-- A character that shows.
abbrev pub IsGraph : ℕ → Type 0
IsGraph c = b' ' < c

graph-is_space : (c : ℕ) → IsGraph c → is_space c ≡ false
graph-is_space c h = ground arith

graph-is_blank : (c : ℕ) → IsGraph c → is_blank_char c ≡ false
graph-is_blank c h = ground arith

abbrev pub IsWord : Text → Type 0
IsWord [] = ⊥
IsWord (c ∷ cs) = All IsGraph (c ∷ cs)

-- A word in front of what begins with a space, or of nothing.
parts-word :
    (w r : Text) (us : List Text) → All IsGraph w → parts r ≡ [] ∷ us → parts (w ++ r) ≡ w ∷ us
parts-word [] r us h e = e
parts-word (c ∷ cs) r us h e = rw (graph-is_space c h.0, parts-word cs r us h.1 e) refl

IsWord-All : (w : Text) → IsWord w → All IsGraph w
IsWord-All [] h = elim h [ ]
IsWord-All (c ∷ cs) h = h

parts-behind : (ts : List Text) → All IsWord ts → parts (behind ts) ≡ [] ∷ ts
parts-behind [] h = refl
parts-behind (t ∷ ts) h =
    ap (λ us. [] ∷ us) (parts-word t (behind ts) ts (IsWord-All t h.0) (parts-behind ts h.1))

filter-words : (ts : List Text) → All IsWord ts → filter (λ w. not (is_nil w)) ts ≡ ts
filter-words [] h = refl
filter-words ([] ∷ ts) h = elim h.0 [ ]
filter-words ((c ∷ cs) ∷ ts) h = ap (λ us. (c ∷ cs) ∷ us) (filter-words ts h.1)

pub words-spaced :
    (t : Text) (ts : List Text) → All IsWord (t ∷ ts) → words (spaced (t ∷ ts)) ≡ t ∷ ts
words-spaced t ts h =
    ap (filter (λ w. not (is_nil w)))
      (parts-word t (behind ts) ts (IsWord-All t h.0) (parts-behind ts h.1))
    ∙ filter-words (t ∷ ts) h

-- A line of text does not end before its end.
pub lines-line :
    (t rest : Text) → All (λ c. c ≢ b'\n') t → lines (t ++ b'\n' ∷ rest) ≡ t ∷ lines rest
lines-line [] rest h = refl
lines-line (c ∷ cs) rest h =
    let apart : c == b'\n' ≡ false = ground arith in rw (apart, lines-line cs rest h.1) refl

-- A text whose last character is not blank.
abbrev Ends : Text → Type 0
Ends [] = Unit {0}
Ends (c ∷ []) = is_blank_char c ≡ false
Ends (c ∷ d ∷ ds) = Ends (d ∷ ds)

trim_end-Ends : (t : Text) → Ends t → trim_end t ≡ t
trim_end-Ends [] h = refl
trim_end-Ends (c ∷ []) h = rw h refl
trim_end-Ends (c ∷ d ∷ ds) h =
    ap (λ rest. if is_nil rest && is_blank_char c then [] else c ∷ rest) (trim_end-Ends (d ∷ ds) h)

word-Ends : (w r : Text) → All IsGraph w → Ends r → Ends (w ++ r)
word-Ends [] r h e = e
word-Ends (c ∷ []) [] h e = graph-is_blank c h.0
word-Ends (c ∷ []) (d ∷ r) h e = e
word-Ends (c ∷ d ∷ ds) r h e = word-Ends (d ∷ ds) r h.1 e

behind-Ends : (ts : List Text) → All IsWord ts → Ends (behind ts)
behind-Ends [] h = tt
behind-Ends ([] ∷ ts) h = elim h.0 [ ]
behind-Ends ((c ∷ cs) ∷ ts) h = word-Ends (c ∷ cs) (behind ts) h.0 (behind-Ends ts h.1)

pub trim_line-spaced :
    (t : Text) (ts : List Text)
    → All IsWord (t ∷ ts)
    → trim_line (spaced (t ∷ ts)) ≡ spaced (t ∷ ts)
trim_line-spaced [] ts h = elim h.0 [ ]
trim_line-spaced (c ∷ cs) ts h =
    ap (λ blank. trim_end (if blank then trim_start (cs ++ behind ts) else c ∷ (cs ++ behind ts)))
      (graph-is_blank c h.0.0)
    ∙ trim_end-Ends (c ∷ (cs ++ behind ts))
        (word-Ends (c ∷ cs) (behind ts) h.0 (behind-Ends ts h.1))

graph-apart : (c : ℕ) → IsGraph c → c ≢ b'\n'
graph-apart c h = omega arith

one_line-behind : (ts : List Text) → All IsWord ts → All (λ c. c ≢ b'\n') (behind ts)
one_line-behind [] h = tt
one_line-behind (t ∷ ts) h = (
  omega arith,
  All-append _ t (behind ts) (All-weaken IsGraph _ t graph-apart (IsWord-All t h.0))
      (one_line-behind ts h.1),
)

pub one_line-spaced : (ts : List Text) → All IsWord ts → All (λ c. c ≢ b'\n') (spaced ts)
one_line-spaced [] h = tt
one_line-spaced (t ∷ ts) h =
    All-append _ t (behind ts) (All-weaken IsGraph _ t graph-apart (IsWord-All t h.0))
      (one_line-behind ts h.1)

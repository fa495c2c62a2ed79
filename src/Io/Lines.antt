-- ===== src/Io/Lines.antt =====
-- What the readers of text use of an `std::istream`: lines, and words between white space.
use kong_fu_chess.Prelude.{ℕ, Bool, true, false, not, ◌==◌, List, [], ◌∷◌, filter, if◌then◌else◌}
use kong_fu_chess.Io.Text.{Text, is_space}

-- A character in front of the first of some texts.
abbrev pub prepend : ℕ → List Text → List Text
prepend c [] = (c ∷ []) ∷ []
prepend c (t ∷ ts) = (c ∷ t) ∷ ts

-- What the calls of `std::getline` give until the stream ends.
abbrev pub lines : Text → List Text
lines [] = []
lines (c ∷ cs) = let rest = lines cs in if c == b'\n' then [] ∷ rest else prepend c rest

-- The parts between single spaces, which may be empty.
abbrev pub parts : Text → List Text
parts [] = [] ∷ []
parts (c ∷ cs) = let rest = parts cs in if is_space c then [] ∷ rest else prepend c rest

abbrev pub is_nil : Text → Bool
is_nil [] = true
is_nil (c ∷ cs) = false

-- What `stream >> word` gives until it fails.
abbrev pub words : Text → List Text
words t = filter (λ w. not (is_nil w)) (parts t)

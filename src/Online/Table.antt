-- ===== src/Online/Table.antt =====
-- `std::unordered_map` as an association list with one entry to a key; `same` is the key's `==`.
use kong_fu_chess.Prelude.{
  Bool, true, false, not, Bool-cases, Option, none, some, List, [], ◌∷◌, filter, if◌then◌else◌, ◌≡◌,
  refl, inl, inr,
}

module _ {K V : Type 0} (same : K → K → Bool) where
  abbrev pub find : List (K × V) → K → Option V
  find [] key = none
  find ((k, v) ∷ rest) key = if same k key then some v else find rest key

  abbrev pub erase : List (K × V) → K → List (K × V)
  erase table key = filter (λ e. not (same e.0 key)) table

  -- `table[key] = value`.
  abbrev pub assign : List (K × V) → K → V → List (K × V)
  assign table key value = (key, value) ∷ erase table key

  module _ (same_trans : (a b c : K) → same a b ≡ true → same a c ≡ same b c) where
    pub find-erase_self : (table : List (K × V)) (key : K) → find (erase table key) key ≡ none
    find-erase_self [] key = refl
    find-erase_self ((k, v) ∷ rest) key = elim (Bool-cases (same k key)) [
      | inl hit ↦ rw hit (find-erase_self rest key)
      | inr miss ↦ rw (miss, miss) (find-erase_self rest key)
    ]

    pub find-erase_other :
        (table : List (K × V)) (key other : K)
        → same key other ≡ false
        → find (erase table key) other ≡ find table other
    find-erase_other [] key other far = refl
    find-erase_other ((k, v) ∷ rest) key other far = elim (Bool-cases (same k key)) [
      | inl hit ↦
          let past : same k other ≡ false = rw (same_trans k key other hit) far in
          rw (hit, past) (find-erase_other rest key other far)
      | inr miss ↦ rw (miss, find-erase_other rest key other far)
    ]

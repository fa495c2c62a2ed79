-- ===== src/Prelude/Outcome.antt =====
-- Runs that may leave defined behaviour: an index outside a vector, or a loop of the model whose
-- fuel is spent.
use mathlib.Core.Option.{Option, none, some}
use mathlib.Core.Bool.{Bool, true}
use mathlib.Core.Logic.{◌↔◌}
use mathlib.Core.Path.{◌≡◌}

pub data Failure : Type 0 where
  out_of_range out_of_fuel : Failure

-- A run ends in a value, or in one of the failures.
pub data Result {ℓ} (V : Type ℓ) : Type ℓ where
  err : Failure → Result V
  ok : V → Result V

infixl 5 ◌>>=◌
abbrev pub ◌>>=◌ {ℓ κ} : {V : Type ℓ} {W : Type κ} → Result V → (V → Result W) → Result W
err why >>= next = err why
ok v >>= next = next v

-- What `operator[]` of a vector gives: an element, or undefined behaviour.
abbrev pub or_range {ℓ} : {A : Type ℓ} → Option A → Result A
or_range (some a) = ok a
or_range none = err out_of_range

-- `r` is a normal return, of a value with the property `P`.
pub record Returns {ℓ κ} {A : Type ℓ} (P : A → Type κ) (r : Result A) : Type (ℓ ⊔ κ) where
  pub out : A
  pub returns : r ≡ ok out
  pub holds : P out

abbrev pub from_ok {ℓ} : {A : Type ℓ} → A → Result A → A
from_ok d (ok a) = a
from_ok d (err e) = d

-- `r` returns, and answers whether `P` holds.
abbrev pub Decides {ℓ} : Type ℓ → Result Bool → Type ℓ
Decides P r = Returns (λ answer. (answer ≡ true) ↔ P) r

-- A chain of steps returns if each does.
pub Returns-bind {ℓ κ μ ν} :
    {A : Type ℓ} {B : Type κ} (P : A → Type μ) (Q : B → Type ν) (m : Result A) (f : A → Result B)
    → Returns P m
    → ((a : A) → P a → Returns Q (f a))
    → Returns Q (m >>= f)
Returns-bind P Q m f r step =
    let s = step r.out r.holds in
    record { out = s.out; returns = rw r.returns s.returns; holds = s.holds }

pub Returns-weaken {ℓ κ μ} :
    {A : Type ℓ} (P : A → Type κ) (Q : A → Type μ) (m : Result A)
    → Returns P m
    → ((a : A) → P a → Q a)
    → Returns Q m
Returns-weaken P Q m r step = record {
  out = r.out;
  returns = r.returns;
  holds = step r.out r.holds;
}

-- ===== src/Base/Outcome.antt =====
-- What a C++ call does: it returns, throws, or runs into undefined behaviour.
use mathlib.Core.Path.{◌≡◌, refl}
use mathlib.Core.Bool.{Bool, true, false}

-- The exceptions that the code throws; `allocation_failure` stands for `std::length_error` and
-- `std::bad_alloc`, `json_exception` for those of the JSON library.
pub data Exception : Type 0 where
  out_of_range : Exception
  invalid_argument : Exception
  allocation_failure : Exception
  json_exception : Exception

pub data Outcome {ℓ} (A : Type ℓ) : Type ℓ where
  ok : A → Outcome A
  throws : Exception → Outcome A
  -- such as an access past the end of an array
  undefined : Outcome A

infixl 5 ◌>>=◌ ◌>>◌
abbrev pub ◌>>=◌ {ℓ κ} : {A : Type ℓ} {B : Type κ} → Outcome A → (A → Outcome B) → Outcome B
ok a >>= f = f a
throws e >>= f = throws e
undefined >>= f = undefined

abbrev pub ◌>>◌ {ℓ} : {B : Type ℓ} → Outcome (Unit {0}) → Outcome B → Outcome B
m >> k = m >>= λ _. k

-- `if (!test) throw e;`
abbrev pub ensure : Bool → Exception → Outcome (Unit {0})
ensure true e = ok tt
ensure false e = throws e

-- What returned from a sequence returned from both of its parts.
pub returned {ℓ κ} :
    {A : Type ℓ} {B : Type κ} (m : Outcome A) (f : A → Outcome B) (b : B)
    → (m >>= f) ≡ ok b
    → (a : A) × (m ≡ ok a) × (f a ≡ ok b)
returned (ok a) f b e = (a, refl, e)
returned (throws x) f b e = cc
returned undefined f b e = cc

-- `o` returns, with a value that has the property.
abbrev pub Returns {ℓ κ} : {A : Type ℓ} (P : A → Type κ) → Outcome A → Type (ℓ ⊔ κ)
Returns {A = A} P o = (a : A) × (o ≡ ok a) × P a

pub then-Returns {ℓ κ μ ν} :
    {A : Type ℓ} {B : Type κ} {P : A → Type μ} {Q : B → Type ν} (o : Outcome A) (f : A → Outcome B)
    → Returns P o
    → ((a : A) → P a → Returns Q (f a))
    → Returns Q (o >>= f)
then-Returns o f (a, e, p) next = let (b, e', q) = next a p in (b, rw e e', q)

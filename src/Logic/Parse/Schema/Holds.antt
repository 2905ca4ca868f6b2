-- ===== src/Logic/Parse/Schema/Holds.antt =====
-- What a parse gives, if it gives something.
use openaslc.Base.{◌≡◌, refl, subst, Bool, true, false, if◌then◌else◌}
use openaslc.Base.Text.{String}
use openaslc.Logic.Parse.{
  Parsed, parsed, logic_parse_error, json_exception, out_of_fuel, ◌>>=◌, require,
}

pub data Holds {ℓ κ} {A : Type ℓ} (P : A → Type κ) : Parsed A → Type (ℓ ⊔ κ) where
  holds : {a : A} → P a → Holds P (parsed a)
  refused : {message : String} → Holds P (logic_parse_error message)
  thrown : Holds P json_exception
  stopped : Holds P out_of_fuel

module _ {ℓ κ} {A : Type ℓ} {P : A → Type κ} where
  pub Holds-bind {ℓ' κ'} :
      {B : Type ℓ'} {Q : B → Type κ'} {r : Parsed A} {f : A → Parsed B}
      → Holds P r
      → ((a : A) → P a → Holds Q (f a))
      → Holds Q (r >>= f)
  unfolding ◌>>=◌
  Holds-bind (holds {a} p) next = next a p
  Holds-bind refused next = refused
  Holds-bind thrown next = thrown
  Holds-bind stopped next = stopped

  pub Holds-mono {κ'} :
      {Q : A → Type κ'} {r : Parsed A} → ((a : A) → P a → Q a) → Holds P r → Holds Q r
  Holds-mono weaken (holds {a} p) = holds (weaken a p)
  Holds-mono weaken refused = refused
  Holds-mono weaken thrown = thrown
  Holds-mono weaken stopped = stopped

  pub Holds-if :
      (b : Bool) {x y : Parsed A}
      → (b ≡ true → Holds P x)
      → (b ≡ false → Holds P y)
      → Holds P (if b then x else y)
  Holds-if true hx hy = hx refl
  Holds-if false hx hy = hy refl

  pub Holds-parsed : {r : Parsed A} {a : A} → Holds P r → r ≡ parsed a → P a
  Holds-parsed (holds p) e = subst P (cc) p
  Holds-parsed refused e = absurd (cc)
  Holds-parsed thrown e = absurd (cc)
  Holds-parsed stopped e = absurd (cc)

pub Holds-require : (b : Bool) (message : String) → Holds (λ _. b ≡ true) (require b message)
unfolding require
Holds-require true message = holds refl
Holds-require false message = refused

pub require-true : (b : Bool) (message : String) → b ≡ true → require b message ≡ parsed tt
unfolding require
require-true true message e = refl
require-true false message e = absurd (cc)

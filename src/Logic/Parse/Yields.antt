-- ===== src/Logic/Parse/Yields.antt =====
-- A postcondition on parses: a good result, or an error that names the place it is about.
use openaslc.Base.{◌≡◌, refl, ◌∙◌, Bool, true, false, if◌then◌else◌}
use openaslc.Base.Text.{String, ◌<>◌}
use text.Mathlib.TextLemmas.{append_assoc}
use openaslc.Logic.Parse.{Parsed, parsed, logic_parse_error, ◌>>=◌, require}

-- The parse gives a value with `P`, or a `LogicParseError` whose message begins with `path`: no
-- exception of the JSON library, and no end of the fuel.
pub data Yields {ℓ κ} {A : Type ℓ} (P : A → Type κ) (path : String) : Parsed A → Type (ℓ ⊔ κ) where
  good : {a : A} → P a → Yields P path (parsed a)
  refused :
      {message : String} (rest : String)
      → message ≡ path <> rest
      → Yields P path (logic_parse_error message)

module _ {ℓ κ} {A : Type ℓ} {P : A → Type κ} {path : String} where
  pub Yields-bind {ℓ' κ'} :
      {B : Type ℓ'} {Q : B → Type κ'} {r : Parsed A} {f : A → Parsed B}
      → Yields P path r
      → ((a : A) → P a → Yields Q path (f a))
      → Yields Q path (r >>= f)
  unfolding ◌>>=◌
  Yields-bind (good {a} p) next = next a p
  Yields-bind (refused rest e) next = refused rest e

  pub Yields-mono {κ'} :
      {Q : A → Type κ'} {r : Parsed A} → ((a : A) → P a → Q a) → Yields P path r → Yields Q path r
  Yields-mono weaken (good {a} p) = good (weaken a p)
  Yields-mono weaken (refused rest e) = refused rest e

  -- A message that begins with a longer path begins with the path.
  pub Yields-under : (more : String) {r : Parsed A} → Yields P (path <> more) r → Yields P path r
  Yields-under more (good p) = good p
  Yields-under more (refused rest e) = refused (more <> rest) (e ∙ append_assoc path more rest)

  pub Yields-if :
      (b : Bool) {x y : Parsed A}
      → (b ≡ true → Yields P path x)
      → (b ≡ false → Yields P path y)
      → Yields P path (if b then x else y)
  Yields-if true hx hy = hx refl
  Yields-if false hx hy = hy refl

pub Yields-require :
    (b : Bool) (path rest : String) → Yields (λ _. b ≡ true) path (require b (path <> rest))
unfolding require
Yields-require true path rest = good refl
Yields-require false path rest = refused rest refl

-- ===== src/Logic/Parse/Schema/FieldsComplete.antt =====
-- The fields and signal references that the schema describes are accepted.
use openaslc.Base.{
  ℕ, ap, ap₂, Option, ◌≤◌, ◌<◌, ◌≡◌, ◌≢◌, refl, sym, ◌∙◌, subst, ◌⊎◌, inl, inr, Bool, true, false,
  not, ◌||◌, leb, if◌then◌else◌, arith, none,
}
use openaslc.Base.Int.{ℤ, pos, is_negative, to_u64, exceeds}
use openaslc.Base.Text.{String}
use openaslc.MemoryMap.{MemoryArea, input, output, memory, get_size, area_eq}
use openaslc.Logic.{SignalRef}
use openaslc.Logic.Parse.Json.{JsonLibrary}
use openaslc.Logic.Parse.{
  Parsed, parsed, ◌>>=◌, parse_area, area_size, get_at, require_field, require_int, require_string,
  reject_node, parse_signal_ref,
}
use openaslc.Logic.Parse.Schema.{
  Letter, letter_i, letter_q, letter_m, Has, HasString, HasInteger, IsReference,
}
use openaslc.Logic.Parse.Schema.Holds.{require-true}

-- A statement that gives a value, and then the rest.
pub then_parsed {ℓ κ} :
    {A : Type ℓ} {B : Type κ} {r : Parsed A} {a : A} {b : B} (f : A → Parsed B)
    → r ≡ parsed a
    → f a ≡ parsed b
    → (r >>= f) ≡ parsed b
unfolding ◌>>=◌
then_parsed f e e' = rw e e'

pub parse_area-Letter :
    {s : String} {a : MemoryArea} (path : String) → Letter s a → parse_area s path ≡ parsed a
unfolding parse_area
parse_area-Letter path letter_i = refl
parse_area-Letter path letter_q = refl
parse_area-Letter path letter_m = refl

pub allowed_area :
    (inputs : Bool) (a : MemoryArea)
    → (inputs ≡ true) ⊎ (a ≢ input)
    → (inputs || not (area_eq a input)) ≡ true
allowed_area true a h = refl
allowed_area false input (inl e) = absurd (cc)
allowed_area false input (inr n) = absurd (n refl)
allowed_area false output h = refl
allowed_area false memory h = refl

pub byte_complete :
    (a : MemoryArea) (byte : ℤ)
    → is_negative byte ≡ false
    → to_u64 byte < get_size a
    → not (is_negative byte || leb (area_size a) (to_u64 byte)) ≡ true
unfolding area_size
byte_complete a byte p h = ground arith

pub bit_complete : (n : ℕ) → n ≤ 7 → not (is_negative (pos n) || exceeds (pos n) 7) ≡ true
bit_complete n h = ground arith

pub bit_value : (n : ℕ) → n ≤ 7 → to_u64 (pos n) ≡ n
bit_value n h = omega (arith, h)

module _ (lib : JsonLibrary) where
  open lib use {
    Json, is_object, is_array, is_string, is_number_integer, contains, at, size, empty, index,
    depth,
  }

  pub require_field-Has :
      {j : Json} {key : String} {v : Json} (path : String)
      → Has lib j key v
      → require_field lib j key path ≡ parsed v
  unfolding require_field get_at
  require_field-Has {j} {key} {v} path (c, e) =
      then_parsed _ (require-true (contains j key) _ c) (rw (get_at, e) refl)

  pub require_int-HasInteger :
      {j : Json} {key : String} {z : ℤ} (path : String)
      → HasInteger lib j key z
      → require_int lib j key path ≡ parsed z
  unfolding require_int
  require_int-HasInteger path h =
      then_parsed _ (require_field-Has path h.member)
        (then_parsed _ (require-true _ _ h.typed) (ap parsed h.integer))

  pub require_string-HasString :
      {j : Json} {key s : String} (path : String)
      → HasString lib j key s
      → require_string lib j key path ≡ parsed s
  unfolding require_string
  require_string-HasString path h =
      then_parsed _ (require_field-Has path h.member)
        (then_parsed _ (require-true _ _ h.typed) (ap parsed h.string))

  pub local_parsed :
      (j : Json) (path : String)
      → contains j "node" ≡ false
      → (if contains j "node" then reject_node lib j path else parsed tt) ≡ parsed tt
  local_parsed j path e = rw e refl

  -- The reference that the parser puts together.
  pub same_reference :
      {inputs : Bool} {j : Json} {ref : SignalRef} (r : IsReference lib inputs j ref)
      → record {
        node = none;
        area = ref.area;
        byte = to_u64 r.byte_value;
        bit = to_u64 (pos ref.bit);
      }
        ≡ ref
  same_reference {ref = ref} r =
      ap
        (λ (o : Option String). record {
          node = o;
          area = ref.area;
          byte = to_u64 r.byte_value;
          bit = to_u64 (pos ref.bit);
        })
        (sym r.no_node)
      ∙ ap₂ (λ (b k : ℕ). record { node = ref.node; area = ref.area; byte = b; bit = k }) r.byte_is
          (bit_value ref.bit r.bit_in)

  pub parse_signal_ref-IsReference :
      {inputs : Bool} {j : Json} {ref : SignalRef} (path : String)
      → IsReference lib inputs j ref
      → parse_signal_ref lib j path inputs ≡ parsed ref
  unfolding parse_signal_ref
  parse_signal_ref-IsReference {inputs} {j} {ref} path r =
      then_parsed _ (require-true _ _ r.object) (
        then_parsed _ (local_parsed j path r.local) (
          then_parsed _ (require_string-HasString path r.area) (
            then_parsed _ (parse_area-Letter _ r.letter) (
              then_parsed _ (require-true _ _ (allowed_area inputs ref.area r.allowed)) (
                then_parsed _ (require_int-HasInteger path r.byte) (
                  then_parsed _
                    (require-true _ _ (
                      byte_complete ref.area r.byte_value r.byte_positive
                        (subst (λ (n : ℕ). n < get_size ref.area) (sym r.byte_is) r.byte_in)))
                    (then_parsed _ (require_int-HasInteger path r.bit) (
                      then_parsed _ (require-true _ _ (bit_complete ref.bit r.bit_in))
                        (ap parsed (same_reference r))))))))))

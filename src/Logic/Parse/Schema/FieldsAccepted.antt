-- ===== src/Logic/Parse/Schema/FieldsAccepted.antt =====
-- What the functions for fields and signal references accept.
use openaslc.Base.{
  ap, ◌%◌, ◌^◌, ◌≤◌, ◌<◌, ◌≡◌, ◌≢◌, refl, sym, subst, ◌⊎◌, inl, inr, Bool, true, false, not, ◌||◌,
  leb, if◌then◌else◌, arith, Option-cases,
}
use openaslc.Base.Int.{ℤ, pos, negsuc, is_negative, to_u64, exceeds}
use openaslc.Base.Text.{String, str_eq, eq_iff}
use openaslc.MemoryMap.{MemoryArea, input, output, memory, get_size, area_eq}
use openaslc.Logic.Parse.Json.{JsonLibrary}
use openaslc.Logic.Parse.{
  Parsed, parsed, parse_area, area_size, get_at, require_field, require_int, require_string,
  reject_node, parse_signal_ref, parse_input,
}
use openaslc.Logic.Parse.Schema
use openaslc.Logic.Parse.Schema.{
  Letter, letter_i, letter_q, letter_m, Has, HasString, HasInteger, IsReference, IsNode, AreNodes,
  IsRule, AreRules, IsDocument,
}
use openaslc.Logic.Parse.Schema.Holds.{
  Holds, holds, refused, thrown, stopped, Holds-bind, Holds-if, Holds-require,
}

pub parse_area-Holds : (s path : String) → Holds (Letter s) (parse_area s path)
unfolding parse_area
parse_area-Holds s path =
    Holds-if (str_eq s "I")
      (λ e. holds (subst (λ (t : String). Letter t input) (sym ((eq_iff s "I").0 e)) letter_i))
      λ _.
        Holds-if (str_eq s "Q")
          (λ e. holds (subst (λ (t : String). Letter t output) (sym ((eq_iff s "Q").0 e)) letter_q))
          λ _.
            Holds-if (str_eq s "M")
              (λ e.
                holds (subst (λ (t : String). Letter t memory) (sym ((eq_iff s "M").0 e)) letter_m))
              λ _. refused

pub byte_accepted :
    (a : MemoryArea) (byte : ℤ)
    → not (is_negative byte || leb (area_size a) (to_u64 byte)) ≡ true
    → (is_negative byte ≡ false) × (to_u64 byte < get_size a)
unfolding area_size
byte_accepted a byte h = ground arith

pub bit_accepted :
    (bit : ℤ)
    → not (is_negative bit || exceeds bit 7) ≡ true
    → (bit ≡ pos (to_u64 bit)) × (to_u64 bit ≤ 7)
bit_accepted (pos n) h =
    let small : n ≤ 7 = ground arith in
    let same : n ≡ n % 2 ^ 64 = omega (arith, small) in (ap pos same, omega (arith, small))
bit_accepted (negsuc n) h = absurd (ground arith)

pub area_allowed :
    (inputs : Bool) (a : MemoryArea)
    → (inputs || not (area_eq a input)) ≡ true
    → (inputs ≡ true) ⊎ (a ≢ input)
area_allowed true a h = inl refl
area_allowed false input h = absurd (ground arith)
area_allowed false output h = inr (λ e. absurd (cc (e)))
area_allowed false memory h = inr (λ e. absurd (cc (e)))

module _ (lib : JsonLibrary) where
  open lib use {
    Json, is_object, is_array, is_string, is_number_integer, contains, at, size, empty, index,
  }

  pub get_at-Holds :
      (j : Json) (key : String)
      → contains j key ≡ true
      → Holds (λ v. Has lib j key v) (get_at lib j key)
  unfolding get_at
  get_at-Holds j key h = elim (Option-cases (at j key)) [
    | inl e ↦ rw (e, get_at) thrown
    | inr (v, e) ↦ rw (e, get_at) (holds (h, refl))
  ]

  pub require_field-Holds :
      (j : Json) (key path : String) → Holds (λ v. Has lib j key v) (require_field lib j key path)
  unfolding require_field
  require_field-Holds j key path = Holds-bind (Holds-require _ _) (λ _ h. get_at-Holds j key h)

  pub require_int-Holds :
      (j : Json) (key path : String) → Holds (HasInteger lib j key) (require_int lib j key path)
  unfolding require_int
  require_int-Holds j key path = Holds-bind (require_field-Holds j key path) λ v m.
      Holds-bind (Holds-require _ _)
        λ _ t. holds (record { value = v; member = m; typed = t; integer = refl })

  pub require_string-Holds :
      (j : Json) (key path : String) → Holds (HasString lib j key) (require_string lib j key path)
  unfolding require_string
  require_string-Holds j key path = Holds-bind (require_field-Holds j key path) λ v m.
      Holds-bind (Holds-require _ _)
        λ _ t. holds (record { value = v; member = m; typed = t; string = refl })

  pub reject_node-Holds :
      (j : Json) (path : String)
      → contains j "node" ≡ true
      → Holds (λ _. ⊥) (reject_node lib j path)
  unfolding reject_node
  reject_node-Holds j path h =
      Holds-bind (get_at-Holds j "node" h)
        λ v _. Holds-bind (Holds-require _ _) λ _ _. Holds-bind (Holds-require _ _) (λ _ _. refused)

  -- Only a value without a node goes on.
  pub local-Holds :
      (j : Json) (path : String)
      → Holds
          (λ _. contains j "node" ≡ false)
          (if contains j "node" then reject_node lib j path else parsed tt)
  local-Holds j path =
      Holds-if (contains j "node") (λ e. impossible (reject_node-Holds j path e)) (λ e. holds e)
    where
      impossible :
          {r : Parsed (Unit {0})} {P : Unit {0} → Type 0}
          → Holds (λ (_ : Unit {0}). ⊥) r
          → Holds P r
      impossible (holds b) = absurd b
      impossible refused = refused
      impossible thrown = thrown
      impossible stopped = stopped

  pub parse_signal_ref-Holds :
      (j : Json) (path : String) (inputs : Bool)
      → Holds (IsReference lib inputs j) (parse_signal_ref lib j path inputs)
  unfolding parse_signal_ref
  parse_signal_ref-Holds j path inputs = Holds-bind (Holds-require _ _) λ _ object.
      Holds-bind (local-Holds j path) λ _ local.
        Holds-bind (require_string-Holds j "area" path) λ area_str area_text.
          Holds-bind (parse_area-Holds area_str _) λ area letter.
            Holds-bind (Holds-require _ _) λ _ allowed.
              Holds-bind (require_int-Holds j "byte" path) λ byte has_byte.
                Holds-bind (Holds-require _ _) λ _ byte_in.
                  Holds-bind (require_int-Holds j "bit" path) λ bit has_bit.
                    Holds-bind (Holds-require _ _) λ _ bit_in. holds (record {
                      object = object;
                      local = local;
                      no_node = refl;
                      area_text = area_str;
                      area = area_text;
                      letter = letter;
                      allowed = area_allowed inputs area allowed;
                      byte_value = byte;
                      byte = has_byte;
                      byte_positive = (byte_accepted area byte byte_in).0;
                      byte_is = refl;
                      byte_in = (byte_accepted area byte byte_in).1;
                      bit = subst (HasInteger lib j "bit") (bit_accepted bit bit_in).0 has_bit;
                      bit_in = (bit_accepted bit bit_in).1;
                    })

  pub parse_input-Holds :
      (period : ℤ) (j : Json) (path : String)
      → is_object j ≡ true
      → HasString lib j "type" "INPUT"
      → Holds (IsNode lib period j) (parse_input lib j path)
  unfolding parse_input
  parse_input-Holds period j path o t =
      Holds-bind (parse_signal_ref-Holds j path true) (λ ref r. holds (Schema.input_node o t r))

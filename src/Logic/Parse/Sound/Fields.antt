-- ===== src/Logic/Parse/Sound/Fields.antt =====
-- The functions for fields and signal references give what is in range, or an error at their path.
use openaslc.Base.{◌≤◌, ◌<◌, ◌≡◌, refl, Bool, true, not, ◌||◌, arith, leb}
use openaslc.Base.Int.{ℤ, pos, negsuc, is_negative, to_u64, exceeds}
use openaslc.Base.Text.{String, ◌<>◌, str_eq}
use openaslc.MemoryMap.{MemoryArea, input, get_size, area_eq}
use openaslc.Logic.Meaning.{InRange}
use openaslc.Logic.Parse.Json.{JsonLibrary}
use openaslc.Logic.Parse.{
  parse_area, area_size, get_at, require_field, require_int, require_string, reject_node,
  parse_signal_ref,
}
use openaslc.Logic.Parse.Yields.{
  Yields, good, refused, Yields-bind, Yields-mono, Yields-under, Yields-if, Yields-require,
}

pub parse_area-Yields :
    (s path : String) → Yields (λ (_ : MemoryArea). Unit {0}) path (parse_area s path)
unfolding parse_area
parse_area-Yields s path =
    Yields-if (str_eq s "I") (λ _. good tt)
      λ _.
        Yields-if (str_eq s "Q") (λ _. good tt)
          λ _. Yields-if (str_eq s "M") (λ _. good tt) (λ _. refused _ refl)

pub area_size-eq-get_size : (a : MemoryArea) → area_size a ≡ get_size a
unfolding area_size
area_size-eq-get_size a = ground arith

pub byte_range :
    (a : MemoryArea) (byte : ℤ)
    → not (is_negative byte || leb (area_size a) (to_u64 byte)) ≡ true
    → to_u64 byte < get_size a
byte_range a byte h = ground (arith, area_size-eq-get_size a)

pub bit_range : (bit : ℤ) → not (is_negative bit || exceeds bit 7) ≡ true → to_u64 bit ≤ 7
bit_range (pos n) h = ground arith
bit_range (negsuc n) h = absurd (ground arith)

module _ (lib : JsonLibrary) where
  open lib use {Json, is_object, is_array, contains, at, size, empty, index, depth}

  pub get_at-Yields :
      (j : Json) (key path : String)
      → contains j key ≡ true
      → Yields (λ v. depth v < depth j) path (get_at lib j key)
  unfolding get_at
  get_at-Yields j key path h =
      let (v, e) = lib.at-contains j key h in rw (e, get_at) (good (lib.depth-at j key v e))

  pub require_field-Yields :
      (j : Json) (key path : String)
      → Yields (λ v. depth v < depth j) path (require_field lib j key path)
  unfolding require_field
  require_field-Yields j key path =
      Yields-bind (Yields-require (contains j key) path _) (λ _ h. get_at-Yields j key path h)

  pub require_int-Yields :
      (j : Json) (key path : String) → Yields (λ _. Unit {0}) path (require_int lib j key path)
  unfolding require_int
  require_int-Yields j key path =
      Yields-bind (require_field-Yields j key path)
        λ v _. Yields-bind (Yields-require (lib.is_number_integer v) path _) (λ _ _. good tt)

  pub require_string-Yields :
      (j : Json) (key path : String) → Yields (λ _. Unit {0}) path (require_string lib j key path)
  unfolding require_string
  require_string-Yields j key path =
      Yields-bind (require_field-Yields j key path)
        λ v _. Yields-bind (Yields-require (lib.is_string v) path _) (λ _ _. good tt)

  -- An object that names a node is always refused.
  pub reject_node-Yields :
      (j : Json) (path : String)
      → contains j "node" ≡ true
      → Yields (λ _. ⊥) path (reject_node lib j path)
  unfolding reject_node
  reject_node-Yields j path h = Yields-bind (get_at-Yields j "node" path h) λ v _.
      Yields-bind (Yields-require _ path _)
        λ _ _. Yields-bind (Yields-require _ path _) (λ _ _. refused _ refl)

  pub parse_signal_ref-Yields :
      (j : Json) (path : String) (allow_input_area : Bool)
      → Yields
          (λ ref. InRange ref × ((allow_input_area || not (area_eq ref.area input)) ≡ true))
          path
          (parse_signal_ref lib j path allow_input_area)
  unfolding parse_signal_ref
  parse_signal_ref-Yields j path allow_input_area = Yields-bind (Yields-require _ path _) λ _ _.
      Yields-bind
        (Yields-if {P = λ _. Unit {0}} (contains j "node")
          (λ h. Yields-mono (λ _ b. absurd b) (reject_node-Yields j path h)) (λ _. good tt))
        λ _ _. Yields-bind (require_string-Yields j "area" path) λ area_str _.
          Yields-bind (Yields-under ".area" (parse_area-Yields area_str (path <> ".area")))
            λ area _. Yields-bind (Yields-require _ path _) λ _ allowed.
              Yields-bind (require_int-Yields j "byte" path) λ byte _.
                Yields-bind (Yields-require _ path _) λ _ byte_in.
                  Yields-bind (require_int-Yields j "bit" path) λ bit _.
                    Yields-bind (Yields-require _ path _) λ _ bit_in.
                      good ((byte_range area byte byte_in, bit_range bit bit_in), allowed)

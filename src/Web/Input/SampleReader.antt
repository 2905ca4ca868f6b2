-- ===== src/Web/Input/SampleReader.antt =====
-- The small JSON library of the tests, as a request for an input reads it.
use openaslc.Base.{ℕ, ◌<◌, ◌%◌, ◌^◌, ◌≡◌, refl, Bool, true, none, some, ◌⊎◌, inl, inr, arith}
use openaslc.Base.Int.{to_u64}
use openaslc.Base.Text.{String}
use openaslc.Logic.Parse.Sample.{
  sample, Value, object, array, number, flag, null, text, find_at, number?,
}
use openaslc.Web.Input.{JsonReader}

abbrev pub get : Value → String → Value ⊎ String
get v key = elim (find_at v key) [ none ↦ inr "key not found" | some w ↦ inl w ]

abbrev pub size_value : Value → ℕ ⊎ String
size_value (number z) = inl (to_u64 z)
size_value v = inr "type must be number"

abbrev pub byte_value : Value → ℕ ⊎ String
byte_value (number z) = inl (to_u64 z % 2 ^ 8)
byte_value v = inr "type must be number"

abbrev pub bool_value : Value → Bool ⊎ String
bool_value (flag b) = inl b
bool_value v = inr "type must be boolean"

pub size_value_integer :
    (v : Value) → number? v ≡ true → size_value v ≡ inl (to_u64 (sample.get_int64 v))
size_value_integer (number z) h = refl
size_value_integer (object ms) h = absurd (cc)
size_value_integer (array es) h = absurd (cc)
size_value_integer (text s) h = absurd (cc)
size_value_integer (flag b) h = absurd (cc)
size_value_integer null h = absurd (cc)

pub byte_value_integer :
    (v : Value) → number? v ≡ true → byte_value v ≡ inl (to_u64 (sample.get_int64 v) % 2 ^ 8)
byte_value_integer (number z) h = refl
byte_value_integer (object ms) h = absurd (cc)
byte_value_integer (array es) h = absurd (cc)
byte_value_integer (text s) h = absurd (cc)
byte_value_integer (flag b) h = absurd (cc)
byte_value_integer null h = absurd (cc)

pub byte_value_bound : (v : Value) (n : ℕ) → byte_value v ≡ inl n → n < 2 ^ 8
byte_value_bound (number z) n h = let same : to_u64 z % 2 ^ 8 ≡ n = cc in omega (arith, same)
byte_value_bound (object ms) n h = absurd (cc)
byte_value_bound (array es) n h = absurd (cc)
byte_value_bound (text s) n h = absurd (cc)
byte_value_bound (flag b) n h = absurd (cc)
byte_value_bound null n h = absurd (cc)

abbrev pub reader : JsonReader sample
reader = record {
  member = get;
  get_size = size_value;
  get_uint8 = byte_value;
  get_bool = bool_value;
  get_size_integer = size_value_integer;
  get_uint8_integer = byte_value_integer;
  get_uint8_bound = byte_value_bound;
}

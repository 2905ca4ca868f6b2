-- ===== src/Web/Input.antt =====
-- The handler of POST /api/input.
pub mod Ends
pub mod SampleReader
use openaslc.Base.{ℕ, ◌%◌, ◌^◌, ◌<◌, ◌≡◌, Bool, true, ◌⊎◌, inl, inr, List, [], ◌∷◌}
use openaslc.Base.Int.{ℤ, to_u64}
use openaslc.Base.Text.{String, ◌<>◌}
use openaslc.Logic.Parse.Json.{JsonLibrary, JsonWriter}
use openaslc.Web.{Request, Handled, responded, respond, error_json}

-- What the handler uses of the JSON library to read: `j.at(key)` and `get<T>()` for the three types,
-- with the text of the exception where the library throws.
pub record JsonReader (lib : JsonLibrary) : Type 0 where
  pub member : lib.Json → String → lib.Json ⊎ String
  pub get_size : lib.Json → ℕ ⊎ String
  pub get_uint8 : lib.Json → ℕ ⊎ String
  pub get_bool : lib.Json → Bool ⊎ String
  -- An integer is converted as `static_cast` does, without a check of its range.
  pub get_size_integer :
      (j : lib.Json) → lib.is_number_integer j ≡ true → get_size j ≡ inl (to_u64 (lib.get_int64 j))
  pub get_uint8_integer :
      (j : lib.Json)
      → lib.is_number_integer j ≡ true
      → get_uint8 j ≡ inl (to_u64 (lib.get_int64 j) % 2 ^ 8)
  -- A `uint8_t` is a byte.
  pub get_uint8_bound : (j : lib.Json) (n : ℕ) → get_uint8 j ≡ inl n → n < 2 ^ 8

-- A statement that may throw, and then another.
unfoldable pub and_read {ℓ κ} :
    {A : Type ℓ} {B : Type κ} → A ⊎ String → (A → B ⊎ String) → B ⊎ String
and_read (inl a) f = f a
and_read (inr what) f = inr what

module _ (lib : JsonLibrary) (writer : JsonWriter lib) (reader : JsonReader lib) where
  open reader use {member, get_size, get_uint8, get_bool}

  -- The arguments of the callback.
  unfoldable pub read_input : lib.Json → (ℕ × ℕ × Bool) ⊎ String
  read_input doc = and_read (and_read (member doc "byte") get_size) λ byte.
      and_read (and_read (member doc "bit") get_uint8)
        λ bit. and_read (and_read (member doc "value") get_bool) λ value. inl (byte, bit, value)

  -- `callback` is `set_input_callback_`, on the state `s` that it changes.
  module _ {ℓ} {S : Type ℓ} (callback : S → ℕ → ℕ → Bool → S) where
    unfoldable pub answer_input : S → (ℕ × ℕ × Bool) ⊎ String → Handled × S
    answer_input s (inl (byte, bit, value)) =
        (responded (record { status = 200; content = "{\"ok\":true}" }), callback s byte bit value)
    answer_input s (inr what) =
        (respond lib writer 400 (error_json lib writer ("invalid input request: " <> what)), s)

    unfoldable pub handle_input : S → Request → Handled × S
    handle_input s req = answer_input s (and_read (lib.parse req.body) read_input)

-- ===== src/Logic/Parse/Json.antt =====
-- What the code uses of nlohmann::json, a third-party library, as an interface.
use openaslc.Base.{ℕ, ◌<◌, ◌≡◌, Bool, true, ◌==◌, Option, some, ◌⊎◌, inl, List}
use openaslc.Base.Int.{ℤ}
use openaslc.Base.Text.{String, c_str}

-- `at` is `none` where `j.at(key)` throws, and `parse` gives the text of the parse error instead of
-- a document. `depth` is no function of the library: it bounds the nesting of a value, which is a
-- finite tree.
pub record JsonLibrary : Type 1 where
  pub Json : Type 0
  pub is_object : Json → Bool
  pub is_array : Json → Bool
  pub is_string : Json → Bool
  pub is_number_integer : Json → Bool
  pub contains : Json → String → Bool
  pub at : Json → String → Option Json
  pub get_string : Json → String
  pub get_int64 : Json → ℤ
  pub size : Json → ℕ
  pub empty : Json → Bool
  pub index : Json → ℕ → Json
  pub parse : String → Json ⊎ String
  pub depth : Json → ℕ
  -- `at` finds a key that `contains` reports.
  pub at-contains :
      (j : Json) (key : String) → contains j key ≡ true → (v : Json) × (at j key ≡ some v)
  -- `empty` is true when the size is zero.
  pub empty-size : (j : Json) → empty j ≡ (size j == 0)
  -- A member of an object or an array is nested less deep.
  pub depth-at : (j : Json) (key : String) (v : Json) → at j key ≡ some v → depth v < depth j
  pub depth-index :
      (j : Json) (i : ℕ) → is_array j ≡ true → i < size j → depth (index j i) < depth j

-- What the code uses of the library to build documents and to print them. `dump` is `none` where it
-- throws: a text in the document is no UTF-8.
pub record JsonWriter (lib : JsonLibrary) : Type 0 where
  pub null_value : lib.Json
  pub string_value : String → lib.Json
  pub number_value : ℕ → lib.Json
  pub array_value : List lib.Json → lib.Json
  pub object_value : List (String × lib.Json) → lib.Json
  pub dump : lib.Json → Option String
  -- A document that was parsed, and printed, is parsed again to the same document.
  pub parse-dump :
      (t : String) (j : lib.Json) (s : String)
      → lib.parse t ≡ inl j
      → dump j ≡ some s
      → lib.parse s ≡ inl j
  -- Control characters are escaped, so a printed document holds no NUL.
  pub c_str-dump : (j : lib.Json) (s : String) → dump j ≡ some s → c_str s ≡ s

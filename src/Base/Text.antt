-- ===== src/Base/Text.antt =====
-- What the code uses of `std::string`: concatenation, comparison, decimal print.
use Prim.Native.Nat.{ℕ, zero, suc, ◌+◌, ◌/◌, ◌%◌}
use Prim.Native.Char.{Char, code}
use Prim.Native.String.{String}
use mathlib.Core.Path.{◌≡◌, refl}
use mathlib.Core.Logic.{inl, inr}
use mathlib.Core.Bool.{Bool, true, ◌||◌, ◌&&◌}
use mathlib.Core.List.{List, [], ◌∷◌}
use openaslc.Base.Tests.{ltb, leb, ◌==◌, if◌then◌else◌, Bool-cases}
use openaslc.Base.Lists.{get_or}
use openaslc.Base.Int.{ℤ, pos, negsuc}
pub use Prim.Native.String.{String, len, ◌++◌ as ◌<>◌}
pub use text.Mathlib.Text.{◌==◌ as str_eq}
pub use text.Mathlib.TextEquality.{eq_iff}
pub use text.Mathlib.TextPositions.{eq_refl}

-- The code points of a text.
abbrev pub codes : String → List ℕ
codes String.[] = []
codes (String.◌∷◌ c s) = code c ∷ codes s

-- The bytes that a `std::string` holds for a text: UTF-8.
abbrev utf8_char : ℕ → List ℕ → List ℕ
utf8_char c rest =
    if ltb c 0x80
    then c ∷ rest
    else if ltb c 0x800
    then (192 + c / 64) ∷ ((128 + c % 64) ∷ rest)
    else if ltb c 0x10000
    then (224 + c / 4096) ∷ ((128 + c / 64 % 64) ∷ ((128 + c % 64) ∷ rest))
    else (240 + c / 262144)
      ∷ ((128 + c / 4096 % 64) ∷ ((128 + c / 64 % 64) ∷ ((128 + c % 64) ∷ rest)))

unfoldable pub utf8 : String → List ℕ
utf8 String.[] = []
utf8 (String.◌∷◌ c s) = utf8_char (code c) (utf8 s)

-- A text as a C string: what stands before the first NUL.
unfoldable pub c_str : String → String
c_str String.[] = ""
c_str (String.◌∷◌ c s) = let rest = c_str s in if code c == 0 then "" else String.◌∷◌ c rest

pub c_str-c_str : (s : String) → c_str (c_str s) ≡ c_str s
unfolding c_str
c_str-c_str String.[] = refl
c_str-c_str (String.◌∷◌ c s) = elim (Bool-cases (code c == 0)) [
  | inl e ↦ rw e refl
  | inr e ↦ rw e (rw (c_str-c_str s) (rw e refl))
]

-- `s.substr(0, n)`.
unfoldable pub prefix : ℕ → String → String
prefix zero s = ""
prefix (suc n) String.[] = ""
prefix (suc n) (String.◌∷◌ c s) = String.◌∷◌ c (prefix n s)

-- `std::isalnum` in the C locale.
abbrev pub is_alnum : ℕ → Bool
is_alnum c =
    (leb b'0' c && leb c b'9') || ((leb b'A' c && leb c b'Z') || (leb b'a' c && leb c b'z'))

abbrev pub all_alnum : List ℕ → Bool
all_alnum [] = true
all_alnum (c ∷ cs) = is_alnum c && all_alnum cs

abbrev pub digits : List Char
digits = "0" ∷ "1" ∷ "2" ∷ "3" ∷ "4" ∷ "5" ∷ "6" ∷ "7" ∷ "8" ∷ "9" ∷ []

-- The decimal digits of `n` in front of `tail`. A number has fewer digits than its value plus one.
unfoldable pub print_digits : ℕ → ℕ → String → String
print_digits zero n tail = tail
print_digits (suc fuel) n tail =
    let shown = String.◌∷◌ (get_or digits (n % 10) "0") tail in
    let more = print_digits fuel (n / 10) shown in if ltb n 10 then shown else more

-- `std::to_string`, of an unsigned and of a signed number.
unfoldable pub to_string : ℕ → String
unfolding print_digits
to_string n = print_digits (n + 1) n ""

unfoldable pub int_to_string : ℤ → String
unfolding to_string
int_to_string (pos n) = to_string n
int_to_string (negsuc n) = "-" <> to_string (n + 1)

to_string_runs : to_string 1024 ≡ "1024"
unfolding to_string
to_string_runs = refl

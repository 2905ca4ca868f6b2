-- ===== src/Base/Stoi.antt =====
-- `std::stoi`, in base 10.
use openaslc.Base.{
  ℕ, zero, suc, ◌+◌, ◌*◌, ◌-◌, ◌/◌, ◌%◌, ◌<◌, ◌≡◌, refl, ◌∙◌, sym, ap, Bool, true, false, ◌&&◌,
  ◌||◌, List, [], ◌∷◌, Option, none, some, inl, inr, leb, ltb, ◌==◌, if◌then◌else◌, arith,
  Bool-cases, get_or,
}
use Prim.Native.Char.{code}
use openaslc.Base.Int.{ℤ, pos, negsuc}
use openaslc.Base.Text.{String, codes, to_string, print_digits, digits}

-- `isspace` in the C locale.
abbrev is_space : ℕ → Bool
is_space c = (c == 32) || (leb 9 c && leb c 13)

abbrev is_digit : ℕ → Bool
is_digit c = leb 48 c && leb c 57

unfoldable pub skip_spaces : List ℕ → List ℕ
skip_spaces [] = []
skip_spaces (c ∷ cs) = let rest = skip_spaces cs in if is_space c then rest else c ∷ cs

abbrev value_or_0 : Option ℕ → ℕ
value_or_0 none = 0
value_or_0 (some n) = n

-- The value of the digits that come next, after those read so far; `none` where there are none.
unfoldable pub digits_from : Option ℕ → List ℕ → Option ℕ
digits_from acc [] = acc
digits_from acc (c ∷ cs) =
    let more = digits_from (some (value_or_0 acc * 10 + (c - 48))) cs in
    if is_digit c then more else acc

unfoldable pub positive : Option ℕ → Option ℤ
positive none = none
positive (some n) = if ltb n 2147483648 then some (pos n) else none

unfoldable pub negative : Option ℕ → Option ℤ
negative none = none
negative (some zero) = some (pos 0)
negative (some (suc n)) = if ltb n 2147483648 then some (negsuc n) else none

-- The sign and the digits.
unfoldable pub signed : List ℕ → Option ℤ
signed [] = none
signed (c ∷ cs) =
    if c == 45
    then negative (digits_from none cs)
    else if c == 43
    then positive (digits_from none cs)
    else positive (digits_from none (c ∷ cs))

-- `none` where `std::stoi` throws.
unfoldable pub stoi : String → Option ℤ
stoi s = signed (skip_spaces (codes s))

digit_code : (m : ℕ) → m < 10 → code (get_or digits m "0") ≡ 48 + m
digit_code zero h = refl
digit_code (suc zero) h = refl
digit_code (suc (suc zero)) h = refl
digit_code (suc (suc (suc zero))) h = refl
digit_code (suc (suc (suc (suc zero)))) h = refl
digit_code (suc (suc (suc (suc (suc zero))))) h = refl
digit_code (suc (suc (suc (suc (suc (suc zero)))))) h = refl
digit_code (suc (suc (suc (suc (suc (suc (suc zero))))))) h = refl
digit_code (suc (suc (suc (suc (suc (suc (suc (suc zero)))))))) h = refl
digit_code (suc (suc (suc (suc (suc (suc (suc (suc (suc zero))))))))) h = refl
digit_code (suc (suc (suc (suc (suc (suc (suc (suc (suc (suc m)))))))))) h = absurd (omega arith)

digits_from-digit :
    (acc : Option ℕ) (m : ℕ) (cs : List ℕ)
    → m < 10
    → digits_from acc ((48 + m) ∷ cs) ≡ digits_from (some (value_or_0 acc * 10 + m)) cs
unfolding digits_from
digits_from-digit acc m cs h =
    let below : leb 48 (48 + m) && leb (48 + m) 57 ≡ true = ground arith in
    let same : 48 + m - 48 ≡ m = omega arith in rw (below, same) refl

digits_from-print_digits :
    (fuel n : ℕ) (tail : String)
    → n < fuel
    → digits_from none (codes (print_digits fuel n tail)) ≡ digits_from (some n) (codes tail)
unfolding print_digits
digits_from-print_digits zero n tail h = absurd (omega arith)
digits_from-print_digits (suc fuel) n tail h =
    let last = n % 10 in
    let small : last < 10 = omega arith in
    elim (Bool-cases (ltb n 10)) [
      | inl e ↦
          let same : 0 * 10 + last ≡ n = ground arith in
          rw (e, digit_code last small)
            (digits_from-digit none last (codes tail) small
              ∙ ap (λ (k : ℕ). digits_from (some k) (codes tail)) same)
      | inr e ↦
          let less : n / 10 < fuel = ground arith in
          let whole : n / 10 * 10 + last ≡ n = omega arith in
          rw e (
            digits_from-print_digits fuel (n / 10) (String.◌∷◌ (get_or digits last "0") tail) less
            ∙ (rw (digit_code last small) (
                digits_from-digit (some (n / 10)) last (codes tail) small
                ∙ ap (λ (k : ℕ). digits_from (some k) (codes tail)) whole)))
    ]

-- A printed number begins with a digit.
codes-print_digits :
    (fuel n : ℕ) (tail : String)
    → n < fuel
    → (m : ℕ) × (cs : List ℕ) × (m < 10) × (codes (print_digits fuel n tail) ≡ (48 + m) ∷ cs)
unfolding print_digits
codes-print_digits zero n tail h = absurd (omega arith)
codes-print_digits (suc fuel) n tail h =
    let last = n % 10 in
    elim (Bool-cases (ltb n 10)) [
      | inl e ↦ (last, codes tail, omega arith, rw (e, digit_code last (omega arith)) refl)
      | inr e ↦
          let less : n / 10 < fuel = ground arith in
          let (m, cs, small, same) =
            codes-print_digits fuel (n / 10) (String.◌∷◌ (get_or digits last "0") tail) less in
          (m, cs, small, rw e same)
    ]

signed-digit :
    (m : ℕ) (cs : List ℕ)
    → m < 10
    → signed (skip_spaces ((48 + m) ∷ cs)) ≡ positive (digits_from none ((48 + m) ∷ cs))
unfolding signed skip_spaces
signed-digit m cs h =
    let no_space : ((48 + m == 32) || (leb 9 (48 + m) && leb (48 + m) 13)) ≡ false = ground arith in
    let no_minus : (48 + m == 45) ≡ false = ground arith in
    let no_plus : (48 + m == 43) ≡ false = ground arith in rw (no_space, no_minus, no_plus) refl

-- `std::stoi` reads what `std::to_string` prints, for every `int` that is not negative.
pub stoi-to_string : (n : ℕ) → n < 2147483648 → stoi (to_string n) ≡ some (pos n)
unfolding stoi to_string positive digits_from
stoi-to_string n h =
    let (m, cs, small, same) = codes-print_digits (n + 1) n "" (omega arith) in
    let fits : ltb n 2147483648 ≡ true = ground arith in
    rw same (
      signed-digit m cs small
      ∙ ap positive
          (ap (digits_from none) (sym same) ∙ digits_from-print_digits (n + 1) n "" (omega arith))
      ∙ rw fits refl)

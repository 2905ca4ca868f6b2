-- ===== src/Base/Words.antt =====
-- `uint32_t` arithmetic, and numbers as bytes in network order.
use Prim.Native.Nat.{
  ℕ, zero, suc, ◌+◌, ◌-◌, ◌*◌, ◌/◌, ◌%◌, ◌^◌, ◌≤◌, ◌<◌, max, bit_or, bit_or-bitwise, digits,
}
use mathlib.Core.Path.{◌≡◌, refl, ap}
use mathlib.Core.List.{List, [], ◌∷◌}
use native.Mathlib.Nat.{pow-suc}
use native.Mathlib.Omega.{arith}

abbrev pub u32 : ℕ → ℕ
u32 n = n % 2 ^ 32

abbrev pub add32 : ℕ → ℕ → ℕ
add32 a b = u32 (a + b)

-- `(x << n) | (x >> (32 - n))` and `(x >> n) | (x << (32 - n))`
unfoldable pub left_rotate : ℕ → ℕ → ℕ
left_rotate x n = bit_or (u32 (x * 2 ^ n)) (x / 2 ^ (32 - n))

unfoldable pub rotr : ℕ → ℕ → ℕ
rotr x n = bit_or (x / 2 ^ n) (u32 (x * 2 ^ (32 - n)))

-- The loop `for (int i = n - 1; i >= 0; --i) push_back((x >> (i * 8)) & 0xFF)`.
unfoldable pub be_bytes : ℕ → ℕ → List ℕ
be_bytes zero x = []
be_bytes (suc i) x = x / 2 ^ (i * 8) % 256 ∷ be_bytes i x

-- The number that bytes in network order stand for, behind `acc`.
unfoldable pub be_value : ℕ → List ℕ → ℕ
be_value acc [] = acc
be_value acc (b ∷ bytes) = be_value (acc * 256 + b) bytes

-- `bit_or` of the lowest digits; the native operation is a recursion on digits with fuel.
or_digits : ℕ → ℕ → ℕ → ℕ
or_digits n a b = digits (λ y. y) max n a b

or_fuel : (a b n m : ℕ) → a ≤ n → a ≤ m → or_digits n a b ≡ or_digits m a b
unfolding or_digits
or_fuel zero b zero zero in_n in_m = refl
or_fuel zero b zero (suc m) in_n in_m = refl
or_fuel zero b (suc n) zero in_n in_m = refl
or_fuel zero b (suc n) (suc m) in_n in_m = refl
or_fuel (suc a) b zero m in_n in_m = absurd (omega arith)
or_fuel (suc a) b (suc n) zero in_n in_m = absurd (omega arith)
or_fuel (suc a) b (suc n) (suc m) in_n in_m =
    omega (arith, or_fuel (suc a / 2) (b / 2) n m (omega arith) (omega arith))

or_low : (a b : ℕ) → bit_or a b ≡ bit_or (a / 2) (b / 2) * 2 + max (a % 2) (b % 2)
unfolding or_digits
or_low zero b = omega (arith, bit_or-bitwise 0 b, bit_or-bitwise (0 / 2) (b / 2))
or_low (suc a) b = omega (
  arith,
  bit_or-bitwise (suc a) b,
  bit_or-bitwise (suc a / 2) (b / 2),
  or_fuel (suc a / 2) (b / 2) a (suc a / 2) (omega arith) (omega arith),
)

or_zero : (n a : ℕ) → a ≤ n → bit_or a 0 ≡ a
or_zero n zero h = bit_or-bitwise 0 0
or_zero zero (suc a) h = absurd (omega arith)
or_zero (suc n) (suc a) h = omega (arith, or_low (suc a) 0, or_zero n (suc a / 2) (omega arith))

double : (q k : ℕ) → q * 2 ^ suc k ≡ 2 * (q * 2 ^ k)
double q k = omega (arith, ap (λ (t : ℕ). q * t) (pow-suc 2 k))

-- A number shifted by `k` bits, `|` one of `k` bits, is their sum.
pub bit_or_sum : (k q r : ℕ) → r < 2 ^ k → bit_or (q * 2 ^ k) r ≡ q * 2 ^ k + r
bit_or_sum zero q r h = ground (arith, or_zero q q)
bit_or_sum (suc k) q r h =
    ground (
      arith,
      or_low (q * 2 ^ suc k) r,
      double q k,
      bit_or_sum k q (r / 2) (omega arith),
      pow-suc 2 k,
    )

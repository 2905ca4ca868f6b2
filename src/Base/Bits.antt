-- ===== src/Base/Bits.antt =====
-- Single bits of a byte: `x & (1U << i)`, `x |= 1U << i`, `x &= ~(1U << i)`, `x ^= 1U << i`.
-- The operands are promoted to 32 bits, and the result is cut back to 8.
use Prim.Native.Nat.{ℕ, zero, suc, ◌-◌, ◌%◌, ◌^◌, ◌<◌, bit_and, bit_or, bit_xor}
use mathlib.Core.Path.{◌≡◌, refl}
use mathlib.Core.Bool.{Bool, true, false, not}
use native.Mathlib.Omega.{arith}
use openaslc.Base.Tests.{◌==◌, if◌then◌else◌}

abbrev pub u8 : ℕ → ℕ
u8 n = n % 2 ^ 8

abbrev pub not32 : ℕ → ℕ
not32 x = 2 ^ 32 - 1 - x

pub test_bit : ℕ → ℕ → Bool
test_bit x i = not (bit_and x (2 ^ i) == 0)

pub put_bit : ℕ → ℕ → Bool → ℕ
put_bit x i true = u8 (bit_or x (2 ^ i))
put_bit x i false = u8 (bit_and x (not32 (2 ^ i)))

pub flip_bit : ℕ → ℕ → ℕ
flip_bit x i = u8 (bit_xor x (2 ^ i))

-- Whether a test holds of every number below a bound, found by evaluation.
unfoldable pub holds_below : (ℕ → Bool) → ℕ → Bool
holds_below test zero = true
holds_below test (suc bound) = if test bound then holds_below test bound else false

-- What holds below a bound holds of a number below it.
pub holds_below_at :
    (test : ℕ → Bool) (k bound : ℕ) → k < bound → holds_below test bound ≡ true → test k ≡ true
unfolding holds_below
holds_below_at test k zero lt all = absurd (omega arith)
holds_below_at test k (suc bound) lt all = ground (arith, holds_below_at test k bound)

abbrev Bool_eq : Bool → Bool → Bool
Bool_eq true b = b
Bool_eq false b = not b

Bool_eq_sound : (a b : Bool) → Bool_eq a b ≡ true → a ≡ b
Bool_eq_sound a b h = ground arith

abbrev put_row : Bool → ℕ → ℕ → ℕ → Bool
put_row v x i j = Bool_eq (test_bit (put_bit x i v) j) (if j == i then v else test_bit x j)

abbrev flip_row : ℕ → ℕ → ℕ → Bool
flip_row x i j =
    Bool_eq (test_bit (flip_bit x i) j) (if j == i then not (test_bit x i) else test_bit x j)

abbrev table : (ℕ → ℕ → ℕ → Bool) → Bool
table row = holds_below (λ x. holds_below (λ i. holds_below (λ j. row x i j) 8) 8) 256

table_sound :
    (row : ℕ → ℕ → ℕ → Bool)
    → table row ≡ true
    → (x i j : ℕ) → x < 256
    → i < 8
    → j < 8
    → row x i j ≡ true
table_sound row h x i j hx hi hj =
    holds_below_at _ j 8 hj (holds_below_at _ i 8 hi (holds_below_at _ x 256 hx h))

put_true-table : table (put_row true) ≡ true
unfolding holds_below test_bit put_bit
put_true-table = refl

put_false-table : table (put_row false) ≡ true
unfolding holds_below test_bit put_bit
put_false-table = refl

flip_table : table flip_row ≡ true
unfolding holds_below test_bit flip_bit
flip_table = refl

-- Writing a bit of a byte changes that bit and no other.
pub test_bit-put_bit :
    (x i j : ℕ) (v : Bool)
    → x < 256
    → i < 8
    → j < 8
    → test_bit (put_bit x i v) j ≡ (if j == i then v else test_bit x j)
test_bit-put_bit x i j true hx hi hj =
    Bool_eq_sound _ _ (table_sound (put_row true) put_true-table x i j hx hi hj)
test_bit-put_bit x i j false hx hi hj =
    Bool_eq_sound _ _ (table_sound (put_row false) put_false-table x i j hx hi hj)

pub test_bit-flip_bit :
    (x i j : ℕ)
    → x < 256
    → i < 8
    → j < 8
    → test_bit (flip_bit x i) j ≡ (if j == i then not (test_bit x i) else test_bit x j)
test_bit-flip_bit x i j hx hi hj =
    Bool_eq_sound _ _ (table_sound flip_row flip_table x i j hx hi hj)

pub put_bit-lt : (x i : ℕ) (v : Bool) → put_bit x i v < 256
unfolding put_bit
put_bit-lt x i true = omega arith
put_bit-lt x i false = omega arith

pub flip_bit-lt : (x i : ℕ) → flip_bit x i < 256
unfolding flip_bit
flip_bit-lt x i = omega arith

-- ===== src/MemoryMap/Cells.antt =====
-- Reads and writes of one byte or one bit, in terms of the cells of the map.
use openaslc.Base.{
  ℕ, ◌≤◌, ◌<◌, ◌≡◌, refl, Bool, true, ◌&&◌, List, arith, ◌==◌, if◌then◌else◌, length, length-set,
  set, get_or-set, All, All-set, ◌∙◌, All-get_or,
}
use openaslc.Base.Outcome.{ok, throws, invalid_argument}
use openaslc.Base.Bits.{test_bit, put_bit, test_bit-put_bit, put_bit-lt}
use openaslc.MemoryMap.{
  MemoryArea, input, output, memory, MemoryMap, get_size, area_of, with_area, cell, area_eq,
  read_byte, write_byte, read_bit, write_bit, IsValid, IsByte,
}
use openaslc.MemoryMap.Bounds.{length-area_of, area_of-bytes, validate_in, load_in, store_in}

pub cell-IsByte : {m : MemoryMap} (a : MemoryArea) (i : ℕ) → IsValid m → IsByte (cell m a i)
cell-IsByte {m} a i v = All-get_or IsByte (area_of a m) i 0 (omega arith) (area_of-bytes a v)

pub with_area-IsValid :
    {m : MemoryMap} (a : MemoryArea) (xs : List ℕ)
    → IsValid m
    → length xs ≡ get_size a
    → All IsByte xs
    → IsValid (with_area a m xs)
with_area-IsValid input xs v e h = ground arith
with_area-IsValid output xs v e h = ground arith
with_area-IsValid memory xs v e h = ground arith

pub area_of-with_area :
    (m : MemoryMap) (a b : MemoryArea) (xs : List ℕ)
    → area_of b (with_area a m xs) ≡ (if area_eq b a then xs else area_of b m)
area_of-with_area m input input xs = refl
area_of-with_area m input output xs = refl
area_of-with_area m input memory xs = refl
area_of-with_area m output input xs = refl
area_of-with_area m output output xs = refl
area_of-with_area m output memory xs = refl
area_of-with_area m memory input xs = refl
area_of-with_area m memory output xs = refl
area_of-with_area m memory memory xs = refl

pub area_eq_sound : (a b : MemoryArea) → area_eq a b ≡ true → a ≡ b
area_eq_sound a b h = ground arith

pub area_eq_refl : (a : MemoryArea) → area_eq a a ≡ true
area_eq_refl a = ground arith

-- The map after a store to one cell.
abbrev pub stored : MemoryMap → MemoryArea → ℕ → ℕ → MemoryMap
stored m a i w = with_area a m (set (area_of a m) i w)

pub stored-IsValid :
    {m : MemoryMap} (a : MemoryArea) (i w : ℕ) → IsValid m → w < 256 → IsValid (stored m a i w)
stored-IsValid {m} a i w v h =
    with_area-IsValid a _ v (length-set (area_of a m) i w ∙ length-area_of a v)
      (All-set IsByte (area_of a m) i w h (area_of-bytes a v))

pub cell-stored :
    {m : MemoryMap} (a : MemoryArea) (i w : ℕ) (b : MemoryArea) (j : ℕ)
    → IsValid m
    → i < get_size a
    → cell (stored m a i w) b j ≡ (if area_eq b a && (j == i) then w else cell m b j)
cell-stored {m} a i w b j v h = ground (
  arith,
  area_of-with_area m a b (set (area_of a m) i w),
  area_eq_sound b a,
  length-area_of a v,
  get_or-set (area_of a m) i j w 0,
)

-- `write_byte` inside the area returns a valid map in which the one cell holds the value and every
-- other cell of every area is as it was.
pub write_byte_lem :
    {m : MemoryMap} (a : MemoryArea) (offset value : ℕ)
    → IsValid m
    → offset < get_size a
    → value < 256
    → (m' : MemoryMap) × (write_byte m a offset value ≡ ok m')
      × IsValid m'
      × ((b : MemoryArea) (j : ℕ)
          → cell m' b j ≡ (if area_eq b a && (j == offset) then value else cell m b j))
unfolding write_byte
write_byte_lem {m} a offset value v h k = (
  stored m a offset value,
  rw (validate_in a offset 1 (omega arith), store_in a offset value v h),
  stored-IsValid a offset value v k,
  λ b j. cell-stored a offset value b j v h,
)

-- What `read_bit` reads: the bit of the cell.
abbrev pub bit_of : MemoryMap → MemoryArea → ℕ → ℕ → Bool
bit_of m a i k = test_bit (cell m a i) k

pub read_bit_in :
    {m : MemoryMap} (a : MemoryArea) (i k : ℕ)
    → IsValid m
    → i < get_size a
    → k ≤ 7
    → read_bit m a i k ≡ ok (bit_of m a i k)
unfolding read_bit read_byte
read_bit_in {m} a i k v h hk = rw (validate_in a i 1 (omega arith), load_in a i v h) (ground arith)

abbrev pub bit_stored : MemoryMap → MemoryArea → ℕ → ℕ → Bool → MemoryMap
bit_stored m a i k value = stored m a i (put_bit (cell m a i) k value)

pub bit_of-bit_stored :
    {m : MemoryMap} (a : MemoryArea) (i k : ℕ) (value : Bool) (b : MemoryArea) (j n : ℕ)
    → IsValid m
    → i < get_size a
    → k ≤ 7
    → n ≤ 7
    → bit_of (bit_stored m a i k value) b j n
      ≡ (if area_eq b a && (j == i) && (n == k) then value else bit_of m b j n)
bit_of-bit_stored {m} a i k value b j n v h hk hn = ground (
  arith,
  cell-stored a i (put_bit (cell m a i) k value) b j v h,
  area_eq_sound b a,
  test_bit-put_bit (cell m a i) k n value (cell-IsByte a i v),
)

pub write_bit_in :
    {m : MemoryMap} (a : MemoryArea) (i k : ℕ) (value : Bool)
    → IsValid m
    → i < get_size a
    → k ≤ 7
    → write_bit m a i k value ≡ ok (bit_stored m a i k value)
unfolding write_bit
write_bit_in {m} a i k value v h hk =
    ground
      (arith, validate_in a i 1, load_in a i v h, store_in a i (put_bit (cell m a i) k value) v h)

-- `write_bit` inside the area returns a valid map in which the one bit is the value, and any other
-- bit of any byte of any area is as it was.
pub write_bit_lem :
    {m : MemoryMap} (a : MemoryArea) (i k : ℕ) (value : Bool) (b : MemoryArea) (j n : ℕ)
    → IsValid m
    → i < get_size a
    → k ≤ 7
    → n ≤ 7
    → (m' : MemoryMap) × (write_bit m a i k value ≡ ok m')
      × IsValid m'
      × (bit_of m' b j n ≡ (if area_eq b a && (j == i) && (n == k) then value else bit_of m b j n))
write_bit_lem {m} a i k value b j n v h hk hn = (
  bit_stored m a i k value,
  write_bit_in a i k value v h hk,
  stored-IsValid a i _ v (put_bit-lt (cell m a i) k value),
  bit_of-bit_stored a i k value b j n v h hk hn,
)

-- Both bit methods refuse a bit index above 7 before they look at the offset.
pub bit_index_checked :
    (m : MemoryMap) (a : MemoryArea) (i k : ℕ) (value : Bool)
    → 7 < k
    → (read_bit m a i k ≡ throws invalid_argument)
      × (write_bit m a i k value ≡ throws invalid_argument)
unfolding read_bit write_bit
bit_index_checked m a i k value h = (ground arith, ground arith)

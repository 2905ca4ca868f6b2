-- ===== src/MemoryMap.antt =====
-- The process image: include/openaslc/memory_map.hpp and src/memory_map.cpp.
-- Every method holds `rw_mutex_` for its whole access, so it is one function on the state; what a
-- method throws, and what is undefined behaviour, are outcomes. A `std::size_t` has 64 bits.
pub mod Bounds
pub mod Cells
pub mod Bulk
mod Examples
use openaslc.Base.{
  ℕ, ◌+◌, ◌%◌, ◌^◌, ◌<◌, ◌≡◌, Bool, true, false, List, ◌++◌, some, none, ltb, leb, if◌then◌else◌,
  length, get_elem?, set, take, drop, replicate, All, get_or,
}
use openaslc.Base.Outcome.{
  Outcome, ok, undefined, out_of_range, invalid_argument, ensure, ◌>>=◌, ◌>>◌,
}
use openaslc.Base.Bits.{test_bit, put_bit}

pub data MemoryArea : Type 0 where
  -- %I, %Q and %M
  input : MemoryArea
  output : MemoryArea
  memory : MemoryArea

abbrev pub input_size : ℕ
input_size = 512

abbrev pub output_size : ℕ
output_size = 512

abbrev pub memory_size : ℕ
memory_size = 1024

pub record MemoryMap : Type 0 where
  pub input_area : List ℕ
  pub output_area : List ℕ
  pub memory_area : List ℕ

abbrev pub size_mod : ℕ
size_mod = 2 ^ 64

-- `MemoryMap()`: every area is zeroed.
unfoldable pub initial : MemoryMap
initial = record {
  input_area = replicate input_size 0;
  output_area = replicate output_size 0;
  memory_area = replicate memory_size 0;
}

abbrev pub get_size : MemoryArea → ℕ
get_size input = input_size
get_size output = output_size
get_size memory = memory_size

-- `get_area_ptr`: the array that the pointer reads, and the map after writes through it.
abbrev pub area_of : MemoryArea → MemoryMap → List ℕ
area_of input m = m.input_area
area_of output m = m.output_area
area_of memory m = m.memory_area

abbrev pub with_area : MemoryArea → MemoryMap → List ℕ → MemoryMap
with_area input m xs = record m { input_area = xs }
with_area output m xs = record m { output_area = xs }
with_area memory m xs = record m { memory_area = xs }

-- The sum is a `std::size_t`, so it wraps.
unfoldable pub validate_bounds : MemoryArea → ℕ → ℕ → Outcome (Unit {0})
validate_bounds a offset count =
    ensure (leb ((offset + count) % size_mod) (get_size a)) out_of_range

-- `ptr[i]`, and `ptr[i] = v`.
unfoldable pub load : List ℕ → ℕ → Outcome ℕ
load xs i = elim (get_elem? xs i) [ none ↦ undefined | some v ↦ ok v ]

unfoldable pub store : List ℕ → ℕ → ℕ → Outcome (List ℕ)
store xs i v = if ltb i (length xs) then ok (set xs i v) else undefined

-- `vector(ptr + i, ptr + i + n)`, and `std::copy` to `ptr + i`.
unfoldable pub load_range : List ℕ → ℕ → ℕ → Outcome (List ℕ)
load_range xs i n = if leb (i + n) (length xs) then ok (take n (drop i xs)) else undefined

unfoldable pub store_range : List ℕ → ℕ → List ℕ → Outcome (List ℕ)
store_range xs i vs =
    if leb (i + length vs) (length xs)
    then ok (take i xs ++ (vs ++ drop (i + length vs) xs))
    else undefined

unfoldable pub read_byte : MemoryMap → MemoryArea → ℕ → Outcome ℕ
read_byte m a offset = do validate_bounds a offset 1; load (area_of a m) offset

unfoldable pub write_byte : MemoryMap → MemoryArea → ℕ → ℕ → Outcome MemoryMap
write_byte m a offset value = do
  validate_bounds a offset 1
  xs ← store (area_of a m) offset value
  ok (with_area a m xs)

unfoldable pub read_bit : MemoryMap → MemoryArea → ℕ → ℕ → Outcome Bool
read_bit m a byte_offset bit_index = do
  ensure (leb bit_index 7) invalid_argument
  byte_val ← read_byte m a byte_offset
  ok (test_bit byte_val bit_index)

unfoldable pub write_bit : MemoryMap → MemoryArea → ℕ → ℕ → Bool → Outcome MemoryMap
write_bit m a byte_offset bit_index value = do
  ensure (leb bit_index 7) invalid_argument
  validate_bounds a byte_offset 1
  byte_val ← load (area_of a m) byte_offset
  xs ← store (area_of a m) byte_offset (put_bit byte_val bit_index value)
  ok (with_area a m xs)

unfoldable pub read_bytes : MemoryMap → MemoryArea → ℕ → ℕ → Outcome (List ℕ)
read_bytes m a offset count = do
  validate_bounds a offset count
  load_range (area_of a m) offset count

unfoldable pub write_bytes : MemoryMap → MemoryArea → ℕ → List ℕ → Outcome MemoryMap
write_bytes m a offset bytes = do
  validate_bounds a offset (length bytes)
  xs ← store_range (area_of a m) offset bytes
  ok (with_area a m xs)

unfoldable pub get_area_snapshot : MemoryMap → MemoryArea → Outcome (List ℕ)
get_area_snapshot m a = load_range (area_of a m) 0 (get_size a)

unfoldable pub copy_snapshot_to : MemoryMap → MemoryArea → List ℕ → Outcome MemoryMap
copy_snapshot_to m a snapshot = do
  validate_bounds a 0 (length snapshot)
  xs ← store_range (area_of a m) 0 snapshot
  ok (with_area a m xs)

-- What the arrays' types give, which every method keeps.
abbrev pub IsByte : ℕ → Type 0
IsByte v = v < 256

pub record IsValid (m : MemoryMap) : Type 0 where
  pub input_length : length m.input_area ≡ input_size
  pub output_length : length m.output_area ≡ output_size
  pub memory_length : length m.memory_area ≡ memory_size
  pub input_bytes : All IsByte m.input_area
  pub output_bytes : All IsByte m.output_area
  pub memory_bytes : All IsByte m.memory_area

abbrev pub area_eq : MemoryArea → MemoryArea → Bool
area_eq input input = true
area_eq output output = true
area_eq memory memory = true
area_eq _ _ = false

-- The abstract view of a map: one number for each area and offset.
abbrev pub cell : MemoryMap → MemoryArea → ℕ → ℕ
cell m a i = get_or (area_of a m) i 0

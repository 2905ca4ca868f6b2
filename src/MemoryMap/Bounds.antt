-- ===== src/MemoryMap/Bounds.antt =====
-- `validate_bounds`: which accesses pass the test, and which of those are in range.
use openaslc.Base.{
  ℕ, ◌+◌, ◌-◌, ◌^◌, ◌≤◌, ◌<◌, ◌≡◌, ◌⊎◌, List, arith, length, get_elem?-eq-get_or, set,
  get_elem?_beyond, All, All-replicate, length-replicate, inl, inr,
}
use openaslc.Base.Outcome.{ok, throws, undefined, out_of_range}
use openaslc.MemoryMap.{
  MemoryArea, input, output, memory, MemoryMap, initial, input_size, output_size, memory_size,
  get_size, area_of, cell, validate_bounds, load, store, store_range, read_byte, write_bytes,
  IsValid, IsByte,
}

pub length-area_of :
    {m : MemoryMap} (a : MemoryArea) → IsValid m → length (area_of a m) ≡ get_size a
length-area_of input v = v.input_length
length-area_of output v = v.output_length
length-area_of memory v = v.memory_length

pub area_of-bytes : {m : MemoryMap} (a : MemoryArea) → IsValid m → All IsByte (area_of a m)
area_of-bytes input v = v.input_bytes
area_of-bytes output v = v.output_bytes
area_of-bytes memory v = v.memory_bytes

pub initial-IsValid : IsValid initial
unfolding initial
initial-IsValid = record {
  input_length = length-replicate {A = ℕ} input_size 0;
  output_length = length-replicate {A = ℕ} output_size 0;
  memory_length = length-replicate {A = ℕ} memory_size 0;
  input_bytes = All-replicate IsByte input_size 0 (omega arith);
  output_bytes = All-replicate IsByte output_size 0 (omega arith);
  memory_bytes = All-replicate IsByte memory_size 0 (omega arith);
}

pub get_size-le : (a : MemoryArea) → get_size a ≤ 1024
get_size-le input = omega arith
get_size-le output = omega arith
get_size-le memory = omega arith

pub get_size-pos : (a : MemoryArea) → 0 < get_size a
get_size-pos input = omega arith
get_size-pos output = omega arith
get_size-pos memory = omega arith

pub validate_in :
    (a : MemoryArea) (offset count : ℕ)
    → offset + count ≤ get_size a
    → validate_bounds a offset count ≡ ok tt
unfolding validate_bounds
validate_in a offset count h = ground (arith, get_size-le a)

pub validate_out :
    (a : MemoryArea) (offset count : ℕ)
    → get_size a < offset + count
    → offset + count < 2 ^ 64
    → validate_bounds a offset count ≡ throws out_of_range
unfolding validate_bounds
validate_out a offset count h k = ground arith

-- The sum that wraps slips through.
pub validate_wrapped :
    (a : MemoryArea) (offset count : ℕ)
    → 2 ^ 64 ≤ offset + count
    → offset + count ≤ 2 ^ 64 + get_size a
    → validate_bounds a offset count ≡ ok tt
unfolding validate_bounds
validate_wrapped a offset count h k = ground (arith, get_size-le a)

pub load_in :
    {m : MemoryMap} (a : MemoryArea) (i : ℕ)
    → IsValid m
    → i < get_size a
    → load (area_of a m) i ≡ ok (cell m a i)
unfolding load
load_in {m} a i v h = rw (get_elem?-eq-get_or (area_of a m) i 0 (rw (length-area_of a v) h), load)

pub load_out :
    {m : MemoryMap} (a : MemoryArea) (i : ℕ)
    → IsValid m
    → get_size a ≤ i
    → load (area_of a m) i ≡ undefined
unfolding load
load_out {m} a i v h = rw (get_elem?_beyond (area_of a m) i (rw (length-area_of a v) h), load)

-- Where an offset can lie.
offset_cases :
    (a : MemoryArea) (offset : ℕ)
    → offset < 2 ^ 64
    → (offset < get_size a)
      ⊎ ((get_size a ≤ offset) × (offset < 2 ^ 64 - 1))
      ⊎ (offset ≡ 2 ^ 64 - 1)
offset_cases a offset h = omega arith

pub store_in :
    {m : MemoryMap} (a : MemoryArea) (i w : ℕ)
    → IsValid m
    → i < get_size a
    → store (area_of a m) i w ≡ ok (set (area_of a m) i w)
unfolding store
store_in {m} a i w v h = ground (arith, length-area_of a v)

pub store_out :
    {m : MemoryMap} (a : MemoryArea) (i w : ℕ)
    → IsValid m
    → get_size a ≤ i
    → store (area_of a m) i w ≡ undefined
unfolding store
store_out {m} a i w v h = ground (arith, length-area_of a v)

-- What `read_byte` does with a `std::size_t` offset, on every branch: it returns the byte of an
-- offset inside the area, throws for one outside, and for the largest offset of all, where
-- `offset + 1` wraps to 0, reads outside the array.
pub read_byte_cases :
    {m : MemoryMap} (a : MemoryArea) (offset : ℕ)
    → IsValid m
    → offset < 2 ^ 64
    → ((offset < get_size a) × (read_byte m a offset ≡ ok (cell m a offset)))
      ⊎ ((get_size a ≤ offset)
          × (offset < 2 ^ 64 - 1)
          × (read_byte m a offset ≡ throws out_of_range))
      ⊎ ((offset ≡ 2 ^ 64 - 1) × (read_byte m a offset ≡ undefined))
unfolding read_byte
read_byte_cases {m} a offset v h = elim (offset_cases a offset h) [
  | inl p ↦ inl (p, rw (validate_in a offset 1 (omega arith)) (load_in a offset v p))
  | inr (inl p) ↦ inr (inl (p.0, p.1, rw (validate_out a offset 1 (omega arith) (omega arith))))
  | inr (inr p) ↦ inr (
      inr (
        p,
        rw (validate_wrapped a offset 1 (omega arith) (omega arith))
            (load_out a offset v (omega (arith, get_size-le a))),
      ))
]

-- A `write_bytes` whose range ends past 2^64, by no more than the area's size, passes the test and
-- writes outside the array.
pub write_bytes_wrapped :
    {m : MemoryMap} (a : MemoryArea) (offset : ℕ) (bytes : List ℕ)
    → IsValid m
    → 2 ^ 64 ≤ offset + length bytes
    → offset + length bytes ≤ 2 ^ 64 + get_size a
    → write_bytes m a offset bytes ≡ undefined
unfolding write_bytes store_range
write_bytes_wrapped {m} a offset bytes v h k =
    rw (validate_wrapped a offset (length bytes) h k)
      (ground (arith, length-area_of a v, get_size-le a))

-- ===== src/MemoryMap/Examples.antt =====
-- Runs of the process image at concrete places.
use openaslc.Base.{
  ℕ, ◌+◌, ◌-◌, ◌^◌, ◌≤◌, ◌<◌, ◌≡◌, ◌⊎◌, true, ◌&&◌, List, [], ◌∷◌, arith, ◌==◌, ltb, leb,
  if◌then◌else◌, length, get_or,
}
use openaslc.Base.Outcome.{ok, throws, undefined, out_of_range, invalid_argument}
use openaslc.MemoryMap.{
  MemoryArea, input, memory, MemoryMap, initial, get_size, cell, area_eq, read_byte, read_bit,
  write_bit, write_bytes, IsValid,
}
use openaslc.MemoryMap.Bounds.{initial-IsValid, read_byte_cases, write_bytes_wrapped}
use openaslc.MemoryMap.Cells.{bit_of, write_bit_lem, bit_index_checked}
use openaslc.MemoryMap.Bulk.{write_bytes_lem}

read_byte_cases_example :
    ((5 < get_size input) × (read_byte initial input 5 ≡ ok (cell initial input 5)))
    ⊎ ((get_size input ≤ 5) × (5 < 2 ^ 64 - 1) × (read_byte initial input 5 ≡ throws out_of_range))
    ⊎ ((5 ≡ 2 ^ 64 - 1) × (read_byte initial input 5 ≡ undefined))
read_byte_cases_example = read_byte_cases input 5 initial-IsValid (omega arith)

write_bytes_wrapped_example : write_bytes initial memory (2 ^ 64 - 2) (1 ∷ 2 ∷ 3 ∷ []) ≡ undefined
write_bytes_wrapped_example =
    write_bytes_wrapped memory (2 ^ 64 - 2) (1 ∷ 2 ∷ 3 ∷ []) initial-IsValid (omega arith)
      (omega arith)

write_bit_lem_example :
    (m' : MemoryMap) × (write_bit initial memory 7 3 true ≡ ok m')
    × IsValid m'
    × (bit_of m' memory 7 3 ≡ (
        if area_eq memory memory && (7 == 7) && (3 == 3) then true else bit_of initial memory 7 3))
write_bit_lem_example =
    write_bit_lem memory 7 3 true memory 7 3 initial-IsValid (omega arith) (omega arith)
      (omega arith)

bit_index_checked_example :
    (read_bit initial input 0 8 ≡ throws invalid_argument)
    × (write_bit initial input 0 8 true ≡ throws invalid_argument)
bit_index_checked_example = bit_index_checked initial input 0 8 true (omega arith)

abbrev two_bytes : List ℕ
two_bytes = 17 ∷ 34 ∷ []

write_bytes_lem_example :
    (m' : MemoryMap) × (write_bytes initial memory 1022 two_bytes ≡ ok m')
    × IsValid m'
    × ((b : MemoryArea) (j : ℕ)
        → cell m' b j ≡ (
            if area_eq b memory && (leb 1022 j && ltb j (1022 + length two_bytes))
            then get_or two_bytes (j - 1022) 0
            else cell initial b j))
write_bytes_lem_example =
    write_bytes_lem memory 1022 two_bytes initial-IsValid (omega arith, (omega arith, tt))
      (omega arith)

two_written_lem :
    (m' : MemoryMap) × (write_bytes initial memory 1022 two_bytes ≡ ok m') × IsValid m'
two_written_lem =
    let (m', e, v, c) =
      write_bytes_lem memory 1022 two_bytes initial-IsValid (omega arith, (omega arith, tt))
        (omega arith) in
    (m', e, v)

-- The map after two bytes are written.
abbrev two_written : MemoryMap
two_written = two_written_lem.0

-- ===== src/MockDriver.antt =====
-- The simulated hardware: include/openaslc/mock_driver.hpp and src/mock_driver.cpp.
-- What the driver prints is kept with its state, as the list of the changes that it reports.
pub mod Scan
pub mod Inputs
mod Examples
use openaslc.Base.{
  ℕ, ◌+◌, ◌<◌, ◌≡◌, Bool, true, ◌||◌, List, [], ◌∷◌, ◌++◌, map, ltb, leb, ◌==◌, if◌then◌else◌,
  length, get_or, set, replicate, All,
}
use openaslc.Base.Outcome.{Outcome, ok, throws, undefined, ◌>>=◌}
use openaslc.Base.Bits.{put_bit, flip_bit}
use openaslc.MemoryMap.{
  MemoryMap, input, output, input_size, output_size, write_bytes, get_area_snapshot, IsByte,
}

-- One line of output: `%Q[index]: 0xold -> 0xnew`.
pub record Change : Type 0 where
  pub index : ℕ
  pub old : ℕ
  pub new : ℕ

pub record MockDriver : Type 0 where
  pub print_changes : Bool
  pub mock_inputs : List ℕ
  pub previous_outputs : List ℕ
  -- std::cout
  pub printed : List Change

-- The constructor.
unfoldable pub create : Bool → MockDriver
create print_changes = record {
  print_changes = print_changes;
  mock_inputs = replicate input_size 0;
  previous_outputs = replicate output_size 0;
  printed = [];
}

unfoldable pub initialize : MockDriver → MockDriver × Bool
initialize d = (record d { previous_outputs = map (λ _. 0) d.previous_outputs }, true)

unfoldable pub read_inputs : MockDriver → MemoryMap → Outcome MemoryMap
read_inputs d m = write_bytes m input 0 d.mock_inputs

-- The loop of `write_outputs` from index `i` on; `previous_outputs_[i]` has to exist.
unfoldable pub changes_from : ℕ → List ℕ → List ℕ → Outcome (List Change)
changes_from i [] previous = ok []
changes_from i (v ∷ current) [] = undefined
changes_from i (v ∷ current) (w ∷ previous) = do
  rest ← changes_from (i + 1) current previous
  ok (if v == w then rest else record { index = i; old = w; new = v } ∷ rest)

unfoldable pub write_outputs : MockDriver → MemoryMap → Outcome MockDriver
write_outputs d m = do
  current ← get_area_snapshot m output
  lines ← if d.print_changes then changes_from 0 current d.previous_outputs else ok []
  ok (record d { previous_outputs = current; printed = d.printed ++ lines })

unfoldable pub set_mock_input_bit : MockDriver → ℕ → ℕ → Bool → MockDriver
set_mock_input_bit d byte_offset bit_index value =
    if leb (length d.mock_inputs) byte_offset || ltb 7 bit_index then d else record d {
      mock_inputs =
          set d.mock_inputs byte_offset
            (put_bit (get_or d.mock_inputs byte_offset 0) bit_index value);
    }

unfoldable pub toggle_mock_input_bit : MockDriver → ℕ → ℕ → MockDriver
toggle_mock_input_bit d byte_offset bit_index =
    if leb (length d.mock_inputs) byte_offset || ltb 7 bit_index then d else record d {
      mock_inputs =
          set d.mock_inputs byte_offset (flip_bit (get_or d.mock_inputs byte_offset 0) bit_index);
    }

-- The vectors keep the sizes that the constructor gives them.
pub record IsValid (d : MockDriver) : Type 0 where
  pub inputs_length : length d.mock_inputs ≡ input_size
  pub outputs_length : length d.previous_outputs ≡ output_size
  pub inputs_bytes : All IsByte d.mock_inputs
  pub outputs_bytes : All IsByte d.previous_outputs

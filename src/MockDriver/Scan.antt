-- ===== src/MockDriver/Scan.antt =====
-- The two halves of a scan that the driver does.
use openaslc.Base.{ℕ, ◌+◌, ◌≤◌, ◌≡◌, refl, List, [], ◌∷◌, ◌++◌, arith, ◌==◌, if◌then◌else◌, length}
use openaslc.Base.Outcome.{ok}
use openaslc.MemoryMap.{
  MemoryMap, MemoryArea, input, output, input_size, output_size, area_of, area_eq, cell,
  write_bytes, get_area_snapshot,
}
use openaslc.MemoryMap
use openaslc.MemoryMap.Bounds.{length-area_of, area_of-bytes}
use openaslc.MemoryMap.Bulk.{snapshot-area, copy_whole}
use openaslc.MockDriver.{MockDriver, Change, read_inputs, write_outputs, changes_from, IsValid}

-- `read_inputs` into a valid map makes the input area equal to the simulated inputs, and leaves the
-- two other areas alone.
pub read_inputs_lem :
    {d : MockDriver} {m : MemoryMap}
    → IsValid d
    → MemoryMap.IsValid m
    → (m' : MemoryMap) × (read_inputs d m ≡ ok m')
      × MemoryMap.IsValid m'
      × ((b : MemoryArea) → area_of b m' ≡ (if area_eq b input then d.mock_inputs else area_of b m))
unfolding read_inputs
read_inputs_lem {d} {m} v w = copy_whole input d.mock_inputs w v.inputs_length v.inputs_bytes

-- The lines that are due: one for each index at which the two lists differ, in order.
pub differences : ℕ → List ℕ → List ℕ → List Change
differences i (v ∷ current) (w ∷ previous) =
    let rest = differences (i + 1) current previous in
    if v == w then rest else record { index = i; old = w; new = v } ∷ rest
differences i _ _ = []

pub changes_from-differences :
    (i : ℕ) (xs ys : List ℕ)
    → length xs ≤ length ys
    → changes_from i xs ys ≡ ok (differences i xs ys)
unfolding changes_from differences
changes_from-differences i [] ys h = refl
changes_from-differences i (x ∷ xs) [] h = absurd (omega arith)
changes_from-differences i (x ∷ xs) (y ∷ ys) h =
    rw (changes_from-differences (i + 1) xs ys (omega arith))

-- `write_outputs` from a valid map returns: it records the output area as the last outputs, keeps
-- the simulated inputs, and prints, if it is to print, one line for each output byte that differs
-- from the recorded one, in order.
pub write_outputs_lem :
    {d : MockDriver} {m : MemoryMap}
    → IsValid d
    → MemoryMap.IsValid m
    → (d' : MockDriver) × (write_outputs d m ≡ ok d')
      × IsValid d'
      × (d'.previous_outputs ≡ area_of output m)
      × (d'.mock_inputs ≡ d.mock_inputs)
      × (d'.printed
          ≡ d.printed
            ++ (if d.print_changes
                then differences 0 (area_of output m) d.previous_outputs
                else []))
unfolding write_outputs
write_outputs_lem {d} {m} v w = (
  record d {
    previous_outputs = area_of output m;
    printed =
        d.printed
        ++ (if d.print_changes then differences 0 (area_of output m) d.previous_outputs else []);
  },
  ground (
    arith,
    snapshot-area output w,
    changes_from-differences 0 (area_of output m) d.previous_outputs,
    length-area_of output w,
    v.outputs_length,
  ),
  record {
    inputs_length = v.inputs_length;
    outputs_length = length-area_of output w;
    inputs_bytes = v.inputs_bytes;
    outputs_bytes = area_of-bytes output w;
  },
  refl,
  refl,
  refl,
)

-- ===== src/Controller/Scan.antt =====
-- One scan of the controller from the inputs to the outputs.
use openaslc.Base.{ℕ, ◌+◌, ◌%◌, ◌^◌, ◌≡◌, refl, [], ◌∷◌, some, if◌then◌else◌, get_elem?, set}
use openaslc.Base.Outcome.{ok}
use openaslc.MemoryMap
use openaslc.MemoryMap.{MemoryMap, MemoryArea, input, output, area_of, area_eq}
use openaslc.MockDriver
use openaslc.MockDriver.{MockDriver}
use openaslc.MockDriver.Scan.{read_inputs_lem, write_outputs_lem}
use openaslc.Logic.{LogicProgram}
use openaslc.Logic.Program.{
  ProgramWellFormed, execute_lem, apply_rules, advance_rules, apply_rules-IsValid,
}
use openaslc.Logic.Runtime.{Heap, LogicRuntime, execute_cycle, run_local}
use openaslc.Engine.{read_all, write_all, run_callback, cycle}
use openaslc.Controller.{call_runtime, read_driver, controller, Controller}

-- A controller with one driver whose runtime holds a loaded program.
abbrev pub wired : Controller → MockDriver → LogicRuntime → Heap → ℕ → Controller
wired e d runtime heap address = record e {
  drivers = d ∷ [];
  cycle_callback = some (record runtime { current = some address }, heap);
}

-- A cycle of a controller with one driver and a well-formed program, on a valid map: the program
-- runs once on the map whose inputs are the driver's and whose other areas are as they were; the
-- driver is then given the outputs that the program leaves; and the program's timers have moved
-- once, in the program that the runtime points to.
pub cycle_lem :
    (e : Controller) (d : MockDriver) (runtime : LogicRuntime) (heap : Heap) (address : ℕ)
    (p : LogicProgram)
    → MemoryMap.IsValid e.memory_map
    → MockDriver.IsValid d
    → ProgramWellFormed p
    → get_elem? heap address ≡ some p
    → (m : MemoryMap) × (d' : MockDriver) × (e' : Controller) × (cycle controller
          (wired e d runtime heap address)
        ≡ ok e')
      × ((b : MemoryArea)
          → area_of b m ≡ (if area_eq b input then d.mock_inputs else area_of b e.memory_map))
      × (e'.memory_map ≡ apply_rules p m)
      × (e'.drivers ≡ d' ∷ [])
      × (d'.mock_inputs ≡ d.mock_inputs)
      × (d'.previous_outputs ≡ area_of output e'.memory_map)
      × (e'.cycle_callback
          ≡ some (record runtime { current = some address }, set heap address (advance_rules p m)))
unfolding cycle read_all write_all run_callback call_runtime read_driver execute_cycle run_local
cycle_lem e d runtime heap address p v w h found =
    let (m, r, v₁, inputs) = read_inputs_lem w v in
    let m' = apply_rules p m in
    let (d', o, w', outputs, kept, printed) = write_outputs_lem w (apply_rules-IsValid p v₁) in
    (
      m,
      d',
      record e {
        memory_map = m';
        drivers = d' ∷ [];
        cycle_callback =
            some (record runtime { current = some address }, set heap address (advance_rules p m));
        cycle_count = (e.cycle_count + 1) % 2 ^ 64;
      },
      rw (r, found, run_local) (rw (execute_lem p v₁ h) (rw o refl)),
      inputs,
      refl,
      refl,
      kept,
      outputs,
      refl,
    )

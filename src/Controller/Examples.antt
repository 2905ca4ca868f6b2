-- ===== src/Controller/Examples.antt =====
-- A controller with one simulated driver and one program, from its construction on.
use openaslc.Base.{
  ◌+◌, ◌%◌, ◌^◌, ◌<◌, ◌≡◌, refl, true, false, [], ◌∷◌, arith, none, some, if◌then◌else◌, set,
}
use openaslc.Base.Outcome.{ok}
use openaslc.Base.Int.{pos}
use openaslc.MemoryMap
use openaslc.MemoryMap.{MemoryMap, MemoryArea, input, output, area_of, area_eq}
use openaslc.MemoryMap.Bounds.{initial-IsValid}
use openaslc.MockDriver
use openaslc.MockDriver.{MockDriver}
use openaslc.MockDriver.Inputs.{create-IsValid, initialize-IsValid}
use openaslc.Logic.Program.{apply_rules, advance_rules}
use openaslc.Logic.Examples.{program, program-WellFormed}
use openaslc.Logic.Runtime.{LogicRuntime}
use openaslc.Engine
use openaslc.Engine.{AslcEngine, add_driver, set_cycle_callback, start, stop, cycle, goes_on, run}
use openaslc.Controller.{Controller, controller}
use openaslc.Controller.Scan.{wired, cycle_lem}
use openaslc.Controller.Runs.{IsSound, run_total}

abbrev built : Controller
built = Engine.create controller MemoryMap.initial none 10

abbrev driver : MockDriver
driver = MockDriver.create false

abbrev runtime : LogicRuntime
runtime = record { period = pos 10; current = some 0 }

-- What `main` has made when it calls `start`.
abbrev main_engine : Controller
main_engine =
    set_cycle_callback controller (add_driver controller built (some driver))
      (some (runtime, program ∷ []))

abbrev started : Controller
started = start controller main_engine

built_map-IsValid : MemoryMap.IsValid built.memory_map
unfolding Engine.create
built_map-IsValid = initial-IsValid

cycle_lem_example :
    (m : MemoryMap) × (d' : MockDriver) × (e' : Controller) × (cycle controller
        (wired built driver runtime (program ∷ []) 0)
      ≡ ok e')
    × ((b : MemoryArea)
        → area_of b m
          ≡ (if area_eq b input then driver.mock_inputs else area_of b built.memory_map))
    × (e'.memory_map ≡ apply_rules program m)
    × (e'.drivers ≡ d' ∷ [])
    × (d'.mock_inputs ≡ driver.mock_inputs)
    × (d'.previous_outputs ≡ area_of output e'.memory_map)
    × (e'.cycle_callback
        ≡ some
            (record runtime { current = some 0 }, set (program ∷ []) 0 (advance_rules program m)))
cycle_lem_example =
    cycle_lem built driver runtime (program ∷ []) 0 program built_map-IsValid (create-IsValid false)
      program-WellFormed refl

started-IsSound : IsSound started
unfolding Engine.create add_driver set_cycle_callback start Engine.initialize_all
started-IsSound = record {
  map_valid = initial-IsValid;
  drivers_valid = (initialize-IsValid (create-IsValid false), tt);
  callback_sound = ((program-WellFormed, tt), omega arith);
}

started-goes_on : goes_on controller started ≡ true
unfolding Engine.create add_driver set_cycle_callback start goes_on
started-goes_on = refl

started_count : started.cycle_count < 2 ^ 64
unfolding Engine.create add_driver set_cycle_callback start
started_count = omega arith

run_total_example :
    (e' : Controller) × (run controller 1000 started ≡ ok e')
    × IsSound e'
    × (goes_on controller e' ≡ true)
    × (e'.cycle_count ≡ (started.cycle_count + 1000) % 2 ^ 64)
run_total_example = run_total 1000 started started-IsSound started-goes_on started_count

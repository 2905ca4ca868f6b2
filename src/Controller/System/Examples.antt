-- ===== src/Controller/System/Examples.antt =====
-- Requests to a running controller.
use openaslc.Base.{
  ℕ, ◌≤◌, ◌≡◌, refl, true, false, ◌&&◌, [], ◌∷◌, ◌++◌, arith, none, some, inl, ◌==◌, ltb,
  if◌then◌else◌, length, get_or,
}
use openaslc.Base.Outcome.{ok}
use openaslc.Base.Bits.{test_bit}
use openaslc.Base.Int.{pos}
use openaslc.Base.Text.{String, int_to_string}
use openaslc.MemoryMap.{MemoryMap, MemoryArea, input, input_size, initial, area_of, area_eq}
use openaslc.MemoryMap.Bounds.{initial-IsValid}
use openaslc.MockDriver
use openaslc.MockDriver.{MockDriver}
use openaslc.MockDriver.Inputs.{mock_bit, create-IsValid}
use openaslc.Logic.Examples.{delay_rule, program, program-WellFormed}
use openaslc.Logic.Program.{apply_rules, advance_rules}
use openaslc.Logic.Parse.Schema.{IsDocument}
use openaslc.Logic.Parse.Schema.Complete.{from_json_iff}
use openaslc.Logic.Parse.Sample.{sample, document, input_body, print}
use openaslc.Logic.Parse.Printer.{sample_writer}
use openaslc.Logic.Runtime.{Heap, LogicRuntime}
use openaslc.Logic.Runtime.Examples.{document_loads}
use openaslc.Archive.Tables.{Contents, empty}
use openaslc.Archive.Memory.{memory, memory_tables}
use openaslc.Logger
use openaslc.Logger.Ring
use openaslc.Engine.{cycle, goes_on}
use openaslc.Web.{Request, Handled}
use openaslc.Web.Deploy.{Times}
use openaslc.Web.Input.{read_input, and_read}
use openaslc.Web.Input.SampleReader.{reader}
use openaslc.Controller.{controller, Controller}
use openaslc.Controller.System.{System, deploy_to, request_input, Step, inputs, Reach, here, next}
use openaslc.Controller.System.Sound.{IsSound, cycle_and_deploy_return}
use openaslc.Controller.System.Effect.{deploy_takes_effect, input_takes_effect}

abbrev clock : ℕ → String
clock now = "2026-01-01T00:00:00"

abbrev driver : MockDriver
driver = MockDriver.create false

abbrev runtime : LogicRuntime
runtime = record { period = pos 10; current = some 0 }

abbrev heap : Heap
heap = program ∷ []

abbrev controlled : System Contents
controlled = record {
  engine = record {
    memory_map = initial;
    drivers = driver ∷ [];
    cycle_period = 10;
    worker = true;
    stop_requested = false;
    is_running = true;
    cycle_count = 0;
    cycle_callback = some (runtime, heap);
  };
  archive = some empty;
  logger = some Logger.initial;
}

controlled-IsSound : IsSound controlled
controlled-IsSound = record {
  engine_sound = record {
    map_valid = initial-IsValid;
    drivers_valid = (create-IsValid false, tt);
    callback_sound = ((program-WellFormed, tt), omega arith);
  };
  logger_valid = Ring.initial-IsValid;
}

abbrev deploy_request : Request
deploy_request = record { body = print document; param = λ key. some "ann" }

-- {"byte": 0, "bit": 1, "value": true}
abbrev input_request : Request
input_request = record { body = print input_body; param = λ key. none }

abbrev times : Times
times = record { commit = 1500; deployment = 1501; log = 1502 }

document_parsed : sample.parse (print document) ≡ inl document
unfolding int_to_string
document_parsed = refl

document-IsDocument : IsDocument sample (pos 10) document (delay_rule ∷ [])
document-IsDocument = (from_json_iff sample document (pos 10) (delay_rule ∷ [])).0 document_loads

deploy_takes_effect_example :
    (h : Handled) × (s' : System Contents) × (m : MemoryMap) × (e' : Controller) × (deploy_to sample
        sample_writer reader memory clock controlled
        (runtime, heap)
        deploy_request
        times
      ≡ ok (h, s'))
    × (cycle controller s'.engine ≡ ok e')
    × ((b : MemoryArea)
        → area_of b m ≡ (if area_eq b input then driver.mock_inputs else area_of b initial))
    × (e'.memory_map ≡ apply_rules (delay_rule ∷ []) m)
    × (e'.cycle_callback
        ≡ some (
          record runtime { current = some (length heap) },
          heap ++ (advance_rules (delay_rule ∷ []) m ∷ []),
        ))
deploy_takes_effect_example =
    deploy_takes_effect memory memory_tables sample sample_writer reader clock controlled driver
      runtime heap deploy_request times document (delay_rule ∷ []) controlled-IsSound refl refl
      document_parsed document-IsDocument

input_parsed : sample.parse (print input_body) ≡ inl input_body
unfolding int_to_string
input_parsed = refl

input_read : read_input sample sample_writer reader input_body ≡ inl (0, 1, true)
unfolding read_input and_read
input_read = refl

input_takes_effect_example :
    (m : MemoryMap) × (e' : Controller) × (cycle controller
        (request_input sample sample_writer reader memory clock controlled input_request).1.engine
      ≡ ok e')
    × ((j n : ℕ)
        → n ≤ 7
        → test_bit (get_or (area_of input m) j 0) n
          ≡ (if ltb 0 input_size && ((j == 0) && (n == 1)) then true else mock_bit driver j n))
    × (e'.memory_map ≡ apply_rules program m)
input_takes_effect_example =
    input_takes_effect memory memory_tables sample sample_writer reader clock controlled driver
      runtime heap 0 program input_request input_body 0 1 true controlled-IsSound refl refl refl
      input_parsed input_read

-- After the input.
abbrev switched : System Contents
switched = (request_input sample sample_writer reader memory clock controlled input_request).1

switched-Reach : Reach sample sample_writer reader memory clock controlled switched
switched-Reach = next here (inputs controlled input_request)

cycle_and_deploy_return_example :
    (goes_on controller switched.engine ≡ true
      → (e' : Controller) × (cycle controller switched.engine ≡ ok e')
        × Step sample sample_writer reader memory clock switched (record switched { engine = e' }))
    × ((runtime : LogicRuntime) (heap : Heap) (req : Request) (times : Times)
        → switched.engine.cycle_callback ≡ some (runtime, heap)
        → (h : Handled) × (v' : System Contents) × (deploy_to sample sample_writer reader memory
              clock switched
              (runtime, heap)
              req
              times
            ≡ ok (h, v')))
cycle_and_deploy_return_example =
    cycle_and_deploy_return memory memory_tables sample sample_writer reader clock
      controlled-IsSound switched-Reach

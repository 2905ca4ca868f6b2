-- ===== src/MockDriver/Examples.antt =====
-- Runs of the simulated hardware.
use openaslc.Base.{◌≡◌, true, [], ◌++◌, if◌then◌else◌}
use openaslc.Base.Outcome.{ok}
use openaslc.MemoryMap
use openaslc.MemoryMap.{MemoryMap, MemoryArea, input, output, input_size, area_of, area_eq}
use openaslc.MemoryMap.Bounds.{initial-IsValid}
use openaslc.MockDriver.{MockDriver, create, set_mock_input_bit, write_outputs, IsValid}
use openaslc.MockDriver.Inputs.{create-IsValid, set_mock_input_bit-IsValid}
use openaslc.MockDriver.Scan.{write_outputs_lem, differences}

-- A driver with one input switched on.
abbrev switched : MockDriver
switched = set_mock_input_bit (create true) 4 2 true

switched-IsValid : IsValid switched
switched-IsValid = set_mock_input_bit-IsValid 4 2 true (create-IsValid true)

write_outputs_lem_example :
    (d' : MockDriver) × (write_outputs switched MemoryMap.initial ≡ ok d')
    × IsValid d'
    × (d'.previous_outputs ≡ area_of output MemoryMap.initial)
    × (d'.mock_inputs ≡ switched.mock_inputs)
    × (d'.printed
        ≡ switched.printed
          ++ (if switched.print_changes
              then differences 0 (area_of output MemoryMap.initial) switched.previous_outputs
              else []))
write_outputs_lem_example = write_outputs_lem switched-IsValid initial-IsValid

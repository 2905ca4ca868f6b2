-- ===== src/Controller.antt =====
-- The controller that src/main.cpp puts together: the engine with simulated drivers, and with
-- `LogicRuntime::execute_cycle` as its callback.
pub mod Scan
pub mod Runs
pub mod Calls
pub mod System
pub mod Main
mod Examples
use openaslc.Base.{ℕ}
use openaslc.Base.Outcome.{Outcome, ok, ◌>>=◌}
use openaslc.MemoryMap.{MemoryMap}
use openaslc.MockDriver
use openaslc.MockDriver.{MockDriver}
use openaslc.Logic.Runtime.{Heap, LogicRuntime, execute_cycle}
use openaslc.Engine.{Environment, AslcEngine}

-- The lambda that `main` hands to `set_cycle_callback`, with the runtime that it captures and the
-- programs that the runtime's pointers lead to.
unfoldable pub call_runtime :
    LogicRuntime × Heap → MemoryMap → ℕ → Outcome ((LogicRuntime × Heap) × MemoryMap)
call_runtime (runtime, heap) m cycle_count = do
  (heap', m') ← execute_cycle runtime heap m cycle_count
  ok ((runtime, heap'), m')

-- `MockDriver::read_inputs` leaves the driver as it is.
unfoldable pub read_driver : MockDriver → MemoryMap → Outcome (MockDriver × MemoryMap)
read_driver d m = do m' ← MockDriver.read_inputs d m; ok (d, m')

abbrev pub controller : Environment
controller = record {
  Driver = MockDriver;
  initialize = MockDriver.initialize;
  read_inputs = read_driver;
  write_outputs = MockDriver.write_outputs;
  Callback = LogicRuntime × Heap;
  call = call_runtime;
}

abbrev pub Controller : Type 0
Controller = AslcEngine controller

-- ===== src/Logic/Runtime.antt =====
-- The hot-swap wrapper: `LogicRuntime` of include/openaslc/logic_interpreter.hpp.
-- A `std::shared_ptr<LogicProgram>` is an address in a heap of programs, so that a program that is
-- swapped out, or that a caller still holds, keeps the timers that its scans have moved.
-- `execute_cycle` reads `current_` under the lock and runs the program outside it: the two halves
-- are separate steps of the scan thread, and the other threads' calls may come between.
pub mod Steps
pub mod Safety
pub mod Isolation
pub mod Examples
use openaslc.Base.{
  ℕ, ◌<◌, ◌≡◌, List, [], ◌∷◌, ◌++◌, Option, none, some, length, get_elem?, set, All,
}
use openaslc.Base.Outcome.{Outcome, ok, undefined, ◌>>=◌}
use openaslc.Base.Int.{ℤ}
use openaslc.MemoryMap.{MemoryMap}
use openaslc.Logic.{LogicProgram, execute}
use openaslc.Logic.Parse.{Parsed, parsed, logic_parse_error, json_exception, out_of_fuel, from_json}
use openaslc.Logic.Parse.Json.{JsonLibrary}

abbrev pub Heap : Type 0
Heap = List LogicProgram

-- A `std::shared_ptr<LogicProgram>`, which may be null.
abbrev pub ProgramPtr : Type 0
ProgramPtr = Option ℕ

pub record LogicRuntime : Type 0 where
  pub period : ℤ
  pub current : ProgramPtr

-- The constructor.
unfoldable pub create : ℤ → ProgramPtr → LogicRuntime
create period initial = record { period = period; current = initial }

-- `if (local) local->execute(mem);`
unfoldable pub run_local : ProgramPtr → Heap → MemoryMap → Outcome (Heap × MemoryMap)
run_local none heap mem = ok (heap, mem)
run_local (some address) heap mem = elim (get_elem? heap address) [
  | none ↦ undefined
  | some program ↦ do (program', mem') ← execute program mem; ok (set heap address program', mem')
]

-- `execute_cycle` with nothing in between. The cycle count is not used.
unfoldable pub execute_cycle : LogicRuntime → Heap → MemoryMap → ℕ → Outcome (Heap × MemoryMap)
execute_cycle runtime heap mem cycle_count = run_local runtime.current heap mem

unfoldable pub reload : LogicRuntime → ProgramPtr → LogicRuntime
reload runtime new_program = record runtime { current = new_program }

-- The result or the exception, with the runtime and the heap as they are afterwards.
unfoldable pub reload_from_json :
    (lib : JsonLibrary) → LogicRuntime → Heap → lib.Json → Parsed ℕ × LogicRuntime × Heap
reload_from_json lib runtime heap doc = elim (from_json lib doc runtime.period) [
  | parsed program ↦
      (parsed (length heap), reload runtime (some (length heap)), heap ++ (program ∷ []))
  | logic_parse_error message ↦ (logic_parse_error message, runtime, heap)
  | json_exception ↦ (json_exception, runtime, heap)
  | out_of_fuel ↦ (out_of_fuel, runtime, heap)
]

unfoldable pub get_current : LogicRuntime → ProgramPtr
get_current runtime = runtime.current

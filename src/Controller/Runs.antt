-- ===== src/Controller/Runs.antt =====
-- The controller never stops by an exception.
use openaslc.Base.{
  ℕ, zero, suc, ◌+◌, ◌%◌, ◌^◌, ◌<◌, ◌≡◌, refl, ◌∙◌, true, List, [], ◌∷◌, arith, Option, none, some,
  All,
}
use openaslc.Base.Outcome.{ok}
use openaslc.MemoryMap
use openaslc.MemoryMap.{MemoryMap}
use openaslc.MockDriver
use openaslc.MockDriver.{MockDriver}
use openaslc.MockDriver.Scan.{read_inputs_lem, write_outputs_lem}
use openaslc.Logic.Runtime.{Heap, LogicRuntime, execute_cycle}
use openaslc.Logic.Runtime.Steps.{HeapWellFormed, IsLive}
use openaslc.Logic.Runtime.Safety.{IsLive-grows, run_local-Ran}
use openaslc.Engine.{read_all, write_all, run_callback, cycle, goes_on, run}
use openaslc.Controller.{call_runtime, read_driver, controller, Controller}

-- The program that the callback runs is well-formed, and so is every other in its heap.
abbrev pub CallbackSound : Option (LogicRuntime × Heap) → Type 0
CallbackSound none = Unit
CallbackSound (some (runtime, heap)) = HeapWellFormed heap × IsLive heap runtime.current

pub record IsSound (e : Controller) : Type 0 where
  pub map_valid : MemoryMap.IsValid e.memory_map
  pub drivers_valid : All MockDriver.IsValid e.drivers
  pub callback_sound : CallbackSound e.cycle_callback

reads :
    (ds : List MockDriver) (m : MemoryMap)
    → All MockDriver.IsValid ds
    → MemoryMap.IsValid m
    → (m' : MemoryMap) × (read_all controller ds m ≡ ok (ds, m')) × MemoryMap.IsValid m'
unfolding read_all read_driver
reads [] m h v = (m, refl, v)
reads (d ∷ ds) m h v =
    let (m₁, e, v₁, _) = read_inputs_lem h.0 v in
    let (m', e', v') = reads ds m₁ h.1 v₁ in (m', rw e (rw e'), v')

writes :
    (ds : List MockDriver) (m : MemoryMap)
    → All MockDriver.IsValid ds
    → MemoryMap.IsValid m
    → (ds' : List MockDriver) × (write_all controller ds m ≡ ok ds') × All MockDriver.IsValid ds'
unfolding write_all
writes [] m h v = ([], refl, tt)
writes (d ∷ ds) m h v =
    let (d', e, v', _, _, _) = write_outputs_lem h.0 v in
    let (ds', e', vs') = writes ds m h.1 v in (d' ∷ ds', rw e (rw e'), (v', vs'))

calls :
    (c : Option (LogicRuntime × Heap)) (m : MemoryMap) (n : ℕ)
    → CallbackSound c
    → MemoryMap.IsValid m
    → (c' : Option (LogicRuntime × Heap)) × (m' : MemoryMap) × (run_callback controller c m n
        ≡ ok (c', m'))
      × CallbackSound c'
      × MemoryMap.IsValid m'
unfolding run_callback call_runtime execute_cycle
calls none m n h v = (none, m, refl, tt, v)
calls (some (runtime, heap)) m n h v =
    let (heap', m', ran) = run_local-Ran heap m runtime.current h.0 v h.1 in
    (
      some (runtime, heap'),
      m',
      rw (ran.returned),
      (ran.programs, IsLive-grows heap heap' runtime.current (omega (arith, ran.same_length)) h.1),
      ran.map_valid,
    )

-- One cycle returns, keeps the controller sound, counts itself, and leaves the flags alone.
pub cycle-IsSound :
    (e : Controller)
    → IsSound e
    → (e' : Controller) × (cycle controller e ≡ ok e')
      × IsSound e'
      × (goes_on controller e' ≡ goes_on controller e)
      × (e'.cycle_count ≡ (e.cycle_count + 1) % 2 ^ 64)
      × (e'.cycle_period ≡ e.cycle_period)
unfolding cycle goes_on
cycle-IsSound e s =
    let (m₁, r, v₁) = reads e.drivers e.memory_map s.drivers_valid s.map_valid in
    let (c', m', k, sound, v') = calls e.cycle_callback m₁ e.cycle_count s.callback_sound v₁ in
    let (ds', w, vs') = writes e.drivers m' s.drivers_valid v' in
    (
      record e {
        memory_map = m';
        drivers = ds';
        cycle_callback = c';
        cycle_count = (e.cycle_count + 1) % 2 ^ 64;
      },
      rw r (rw k (rw w)),
      record { map_valid = v'; drivers_valid = vs'; callback_sound = sound },
      refl,
      refl,
      refl,
    )

-- A running controller with valid drivers, a valid map and well-formed programs runs for any number
-- of cycles without an exception and without undefined behaviour, stays so, and counts each cycle,
-- modulo 2^64.
pub run_total :
    (n : ℕ) (e : Controller)
    → IsSound e
    → goes_on controller e ≡ true
    → e.cycle_count < 2 ^ 64
    → (e' : Controller) × (run controller n e ≡ ok e')
      × IsSound e'
      × (goes_on controller e' ≡ true)
      × (e'.cycle_count ≡ (e.cycle_count + n) % 2 ^ 64)
unfolding run
run_total zero e s g c = (e, refl, s, g, omega arith)
run_total (suc n) e s g c =
    let (e₁, r, s₁, g₁, c₁, _) = cycle-IsSound e s in
    let (e', r', s', g', c') = run_total n e₁ s₁ (g₁ ∙ g) (omega arith) in
    (e', rw g (rw r r'), s', g', omega arith)

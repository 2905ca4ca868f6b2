-- ===== src/Controller/Calls.antt =====
-- The owner's calls keep a controller sound.
use openaslc.Base.{
  ℕ, subst, ◌≡◌, refl, Bool, if_either, true, false, List, [], ◌∷◌, ◌++◌, Option, some, arith, All,
  All-append, length, length-append,
}
use openaslc.MemoryMap
use openaslc.MemoryMap.Bounds.{initial-IsValid}
use openaslc.MockDriver
use openaslc.MockDriver.{MockDriver}
use openaslc.MockDriver.Inputs.{initialize-IsValid}
use openaslc.Logic.{LogicProgram}
use openaslc.Logic.Program.{ProgramWellFormed}
use openaslc.Logic.Runtime.{Heap, LogicRuntime, reload}
use openaslc.Engine.{
  create, add_driver, set_cycle_callback, initialize_all, start, stop, cycle, goes_on,
}
use openaslc.Engine.Control.{
  Agrees, Step-Agrees, create-Agrees, starts, stops, adds, sets, works, cycle-SameFlags,
}
use openaslc.Base.Outcome.{Returns}
use openaslc.Controller.{controller, Controller}
use openaslc.Controller.Runs.{CallbackSound, IsSound, cycle-IsSound}

initialize_all-IsValid :
    (ds : List MockDriver)
    → All MockDriver.IsValid ds
    → All MockDriver.IsValid (initialize_all controller ds)
unfolding initialize_all
initialize_all-IsValid [] h = tt
initialize_all-IsValid (d ∷ ds) h = (initialize-IsValid h.0, initialize_all-IsValid ds h.1)

pub create-IsSound :
    (period : ℕ) (d : MockDriver)
    → MockDriver.IsValid d
    → IsSound (
        add_driver controller
          (create controller MemoryMap.initial (some MemoryMap.initial) period)
          (some d))
unfolding create add_driver
create-IsSound period d v = record {
  map_valid = initial-IsValid;
  drivers_valid = (v, tt);
  callback_sound = tt;
}

pub set_cycle_callback-IsSound :
    (e : Controller) (c : Option (LogicRuntime × Heap))
    → IsSound e
    → CallbackSound c
    → IsSound (set_cycle_callback controller e c)
unfolding set_cycle_callback
set_cycle_callback-IsSound e c s h = record {
  map_valid = s.map_valid;
  drivers_valid = s.drivers_valid;
  callback_sound = h;
}

pub start-IsSound : (e : Controller) → IsSound e → IsSound (start controller e)
unfolding start
start-IsSound e s = if_either IsSound e.is_running s (record {
  map_valid = s.map_valid;
  drivers_valid = initialize_all-IsValid e.drivers s.drivers_valid;
  callback_sound = s.callback_sound;
})

pub stop-IsSound : (e : Controller) → IsSound e → IsSound (stop controller e)
unfolding stop
stop-IsSound e s =
    if_either IsSound e.is_running
      (record {
        map_valid = s.map_valid;
        drivers_valid = s.drivers_valid;
        callback_sound = s.callback_sound;
      })
      s

-- An engine of `main` before its `start`, after it, and after its `stop`.
pub data Phase : Type 0 where
  fresh : Phase
  on : Phase
  off : Phase

abbrev pub is_on : Phase → Bool
is_on fresh = false
is_on on = true
is_on off = false

abbrev pub halted : Phase → Phase
halted fresh = fresh
halted on = off
halted off = off

pub halted_off : (phase : Phase) → is_on (halted phase) ≡ false
halted_off fresh = refl
halted_off on = refl
halted_off off = refl

-- A fresh engine has not run a cycle.
abbrev pub CountIs : Phase → ℕ → Type 0
CountIs fresh n = n ≡ 0
CountIs on n = Unit
CountIs off n = Unit

halted-CountIs : (phase : Phase) (n : ℕ) → CountIs phase n → CountIs (halted phase) n
halted-CountIs fresh n c = c
halted-CountIs on n c = c
halted-CountIs off n c = c

cycled-CountIs :
    (phase : Phase) (running : Bool) (n : ℕ)
    → running ≡ is_on phase
    → running ≡ true
    → CountIs phase n
cycled-CountIs fresh running n r t = absurd (cc)
cycled-CountIs on running n r t = tt
cycled-CountIs off running n r t = tt

-- An engine of `main` in its phase: it is sound and its flags agree.
pub record EngineIs (phase : Phase) (e : Controller) : Type 0 where
  pub sound : IsSound e
  pub agrees : Agrees controller e
  pub runs : e.is_running ≡ is_on phase
  pub period : e.cycle_period ≡ 20
  pub count : CountIs phase e.cycle_count

pub create-EngineIs :
    (d : MockDriver)
    → MockDriver.IsValid d
    → EngineIs fresh (
        add_driver controller
          (create controller MemoryMap.initial (some MemoryMap.initial) 20)
          (some d))
unfolding create add_driver
create-EngineIs d v = record {
  sound = create-IsSound 20 d v;
  agrees =
      Step-Agrees controller (adds _ (some d))
        (create-Agrees controller MemoryMap.initial (some MemoryMap.initial) 20);
  runs = refl;
  period = refl;
  count = refl;
}

pub set_cycle_callback-EngineIs :
    {phase : Phase} {e : Controller} (c : Option (LogicRuntime × Heap))
    → EngineIs phase e
    → CallbackSound c
    → EngineIs phase (set_cycle_callback controller e c)
unfolding set_cycle_callback
set_cycle_callback-EngineIs {phase} {e} c s h = record {
  sound = set_cycle_callback-IsSound e c s.sound h;
  agrees = Step-Agrees controller (sets e c) s.agrees;
  runs = s.runs;
  period = s.period;
  count = s.count;
}

pub start-EngineIs :
    {phase : Phase} {e : Controller} → EngineIs phase e → EngineIs on (start controller e)
unfolding start
start-EngineIs {phase} {e} s = record {
  sound = start-IsSound e s.sound;
  agrees = Step-Agrees controller (starts e) s.agrees;
  runs = ground arith;
  period = ground (arith, s.period);
  count = tt;
}

pub stop-EngineIs :
    {phase : Phase} {e : Controller}
    → EngineIs phase e
    → EngineIs (halted phase) (stop controller e)
unfolding stop
stop-EngineIs {phase} {e} s = record {
  sound = stop-IsSound e s.sound;
  agrees = Step-Agrees controller (stops e) s.agrees;
  runs = ground (arith, halted_off phase);
  period = ground (arith, s.period);
  count =
      subst (CountIs (halted phase)) (ground arith) (halted-CountIs phase e.cycle_count s.count);
}

pub cycle-EngineIs :
    {phase : Phase} {e : Controller}
    → goes_on controller e ≡ true
    → EngineIs phase e
    → Returns (EngineIs phase) (cycle controller e)
cycle-EngineIs {phase} {e} g s =
    let (e', returns, sound, _, _, same_period) = cycle-IsSound e s.sound in
    let same = cycle-SameFlags controller e e' returns in
    let worker : e.worker ≡ true = cc (s.agrees.worker_runs, s.agrees.loop_goes_on) in
    (
      e',
      returns,
      record {
        sound = sound;
        agrees = Step-Agrees controller (works e e' worker g returns) s.agrees;
        runs = cc (same.same_running, s.runs);
        period = cc (same_period, s.period);
        count =
            cycled-CountIs phase e.is_running e'.cycle_count s.runs (cc (s.agrees.loop_goes_on));
      },
    )

-- A program that is added to the heap and made current.
pub added-CallbackSound :
    (runtime : LogicRuntime) (heap : Heap) (p : LogicProgram)
    → CallbackSound (some (runtime, heap))
    → ProgramWellFormed p
    → CallbackSound (some (reload runtime (some (length heap)), heap ++ (p ∷ [])))
unfolding reload
added-CallbackSound runtime heap p h w =
    let longer = length-append heap (p ∷ []) in
    (All-append ProgramWellFormed heap (p ∷ []) h.0 (w, tt), omega (arith, longer))

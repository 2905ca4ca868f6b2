-- ===== src/Engine.antt =====
-- The scan engine: include/openaslc/aslc_engine.hpp and src/aslc_engine.cpp.
-- A driver is an object of any class that implements `IIODriver` (include/openaslc/io_driver.hpp); the
-- cycle callback is any function object, with its state. What leaves `run` by an exception ends the
-- process, and is the outcome `throws`. The clock and the thread's priority are left out: `sleep_until`
-- and `setup_realtime_priority` change no state of the engine.
pub mod Control
use openaslc.Base.{
  ℕ, zero, suc, ◌+◌, ◌%◌, ◌^◌, ◌≡◌, Bool, true, false, List, [], ◌∷◌, ◌++◌, Option, none, some,
  if◌then◌else◌,
}
use openaslc.Base.Outcome.{Outcome, ok, ◌>>=◌}
use openaslc.MemoryMap.{MemoryMap}

-- `IIODriver`, and the callback: a driver's and a callback's state, and their methods.
pub record Environment : Type 1 where
  pub Driver : Type 0
  pub initialize : Driver → Driver × Bool
  pub read_inputs : Driver → MemoryMap → Outcome (Driver × MemoryMap)
  pub write_outputs : Driver → MemoryMap → Outcome Driver
  pub Callback : Type 0
  pub call : Callback → MemoryMap → ℕ → Outcome (Callback × MemoryMap)

module _ (env : Environment) where
  open env use {Driver, Callback}

  -- `worker` says whether `worker_thread_` runs the loop, `stop_requested` is its stop token.
  pub record AslcEngine : Type 0 where
    pub memory_map : MemoryMap
    pub drivers : List Driver
    pub cycle_period : ℕ
    pub worker : Bool
    pub stop_requested : Bool
    pub is_running : Bool
    pub cycle_count : ℕ
    pub cycle_callback : Option Callback

module _ (env : Environment) where
  open env use {Driver, Callback, initialize, read_inputs, write_outputs, call}

  abbrev Engine : Type 0
  Engine = AslcEngine env

  -- The constructor; `fresh` is the map that it makes where it is given none.
  unfoldable pub create : MemoryMap → Option MemoryMap → ℕ → Engine
  create fresh memory_map period = record {
    memory_map = elim memory_map [ none ↦ fresh | some m ↦ m ];
    drivers = [];
    cycle_period = period;
    worker = false;
    stop_requested = false;
    is_running = false;
    cycle_count = 0;
    cycle_callback = none;
  }

  -- A null driver is not added.
  unfoldable pub add_driver : Engine → Option Driver → Engine
  add_driver engine none = engine
  add_driver engine (some driver) = record engine { drivers = engine.drivers ++ (driver ∷ []) }

  unfoldable pub set_cycle_callback : Engine → Option Callback → Engine
  set_cycle_callback engine callback = record engine { cycle_callback = callback }

  -- The result of `initialize` is not looked at.
  unfoldable pub initialize_all : List Driver → List Driver
  initialize_all [] = []
  initialize_all (driver ∷ drivers) = (initialize driver).0 ∷ initialize_all drivers

  unfoldable pub start : Engine → Engine
  start engine = if engine.is_running then engine else record engine {
    drivers = initialize_all engine.drivers;
    is_running = true;
    worker = true;
    stop_requested = false;
  }

  -- The worker has left the loop when `join` returns.
  unfoldable pub stop : Engine → Engine
  stop engine =
      if engine.is_running
      then record engine {
        is_running = false;
        stop_requested = if engine.worker then true else engine.stop_requested;
        worker = false;
      }
      else engine

  -- The two loops of a cycle over the drivers.
  unfoldable pub read_all : List Driver → MemoryMap → Outcome (List Driver × MemoryMap)
  read_all [] m = ok ([], m)
  read_all (driver ∷ drivers) m = do
    (driver', m') ← read_inputs driver m
    (drivers', m'') ← read_all drivers m'
    ok (driver' ∷ drivers', m'')

  unfoldable pub write_all : List Driver → MemoryMap → Outcome (List Driver)
  write_all [] m = ok []
  write_all (driver ∷ drivers) m = do
    driver' ← write_outputs driver m
    drivers' ← write_all drivers m
    ok (driver' ∷ drivers')

  unfoldable pub run_callback :
      Option Callback → MemoryMap → ℕ → Outcome (Option Callback × MemoryMap)
  run_callback none m cycle_count = ok (none, m)
  run_callback (some callback) m cycle_count = do
    (callback', m') ← call callback m cycle_count
    ok (some callback', m')

  -- The body of the loop of `run`.
  unfoldable pub cycle : Engine → Outcome Engine
  cycle engine = do
    (read, m) ← read_all engine.drivers engine.memory_map
    (callback, m') ← run_callback engine.cycle_callback m engine.cycle_count
    written ← write_all read m'
    ok (record engine {
      memory_map = m';
      drivers = written;
      cycle_callback = callback;
      cycle_count = (engine.cycle_count + 1) % 2 ^ 64;
    })

  -- The loop's test, `!stop_token.stop_requested() && is_running_`.
  unfoldable pub goes_on : Engine → Bool
  goes_on engine = if engine.stop_requested then false else engine.is_running

  -- Up to `n` rounds of `run`, with no other thread's call in between.
  unfoldable pub run : ℕ → Engine → Outcome Engine
  run zero engine = ok engine
  run (suc n) engine =
      let more : Outcome Engine = cycle engine >>= run n in
      if goes_on engine then more else ok engine

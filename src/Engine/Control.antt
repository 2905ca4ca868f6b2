-- ===== src/Engine/Control.antt =====
-- `start`, `stop` and the worker thread, in any order.
use openaslc.Base.{ℕ, ◌+◌, ◌%◌, ◌^◌, ◌≡◌, refl, true, false, arith, Option, none, some}
use openaslc.Base.Outcome.{ok, returned}
use openaslc.Engine.{
  Environment, AslcEngine, create, add_driver, set_cycle_callback, start, stop, read_all, write_all,
  run_callback, cycle, goes_on,
}
use openaslc.MemoryMap.{MemoryMap}

module _ (env : Environment) where
  open env use {Driver, Callback}

  -- What happens to an engine: the owner's calls, and rounds of the worker's loop.
  pub data Step : AslcEngine env → AslcEngine env → Type 0 where
    starts : (e : AslcEngine env) → Step e (start env e)
    stops : (e : AslcEngine env) → Step e (stop env e)
    adds : (e : AslcEngine env) (d : Option Driver) → Step e (add_driver env e d)
    sets : (e : AslcEngine env) (c : Option Callback) → Step e (set_cycle_callback env e c)
    -- the worker runs only while its thread does and the loop's test holds
    works :
        (e e' : AslcEngine env)
        → e.worker ≡ true
        → goes_on env e ≡ true
        → cycle env e ≡ ok e'
        → Step e e'

  pub data Reach (e : AslcEngine env) : AslcEngine env → Type 0 where
    here : Reach e e
    next : {u v : AslcEngine env} → Reach e u → Step u v → Reach e v

  -- The flags agree: there is a worker exactly while the engine says that it runs, and its loop goes
  -- on exactly then.
  pub record Agrees (e : AslcEngine env) : Type 0 where
    pub worker_runs : e.worker ≡ e.is_running
    pub loop_goes_on : goes_on env e ≡ e.is_running

  -- What a cycle leaves alone.
  pub record SameFlags (e e' : AslcEngine env) : Type 0 where
    pub same_worker : e'.worker ≡ e.worker
    pub same_stop : e'.stop_requested ≡ e.stop_requested
    pub same_running : e'.is_running ≡ e.is_running
    pub counted : e'.cycle_count ≡ (e.cycle_count + 1) % 2 ^ 64

  pub cycle-SameFlags : (e e' : AslcEngine env) → cycle env e ≡ ok e' → SameFlags e e'
  unfolding cycle
  cycle-SameFlags e e' h =
      let (r, h₁, k₁) = returned (read_all env e.drivers e.memory_map) _ e' h in
      let (c, h₂, k₂) = returned (run_callback env e.cycle_callback r.1 e.cycle_count) _ e' k₁ in
      let (w, h₃, k₃) = returned (write_all env r.0 c.1) _ e' k₂ in ground arith

  pub Step-Agrees : {e e' : AslcEngine env} → Step e e' → Agrees e → Agrees e'
  unfolding start stop add_driver set_cycle_callback goes_on
  Step-Agrees (starts e) a = ground arith
  Step-Agrees (stops e) a = ground arith
  Step-Agrees (adds e none) a = a
  Step-Agrees (adds e (some d)) a = record {
    worker_runs = a.worker_runs;
    loop_goes_on = a.loop_goes_on;
  }
  Step-Agrees (sets e c) a = record { worker_runs = a.worker_runs; loop_goes_on = a.loop_goes_on }
  Step-Agrees (works e e' w g h) a = ground (arith, cycle-SameFlags e e' h)

  pub create-Agrees :
      (fresh : MemoryMap) (memory_map : Option MemoryMap) (period : ℕ)
      → Agrees (create env fresh memory_map period)
  unfolding create goes_on
  create-Agrees fresh memory_map period = record { worker_runs = refl; loop_goes_on = refl }

  Reach-Agrees : {e e' : AslcEngine env} → Agrees e → Reach e e' → Agrees e'
  Reach-Agrees a here = a
  Reach-Agrees a (next r st) = Step-Agrees st (Reach-Agrees a r)

  -- However `start`, `stop`, the setters and the worker's rounds follow one another on a new engine:
  -- there is a worker exactly while `is_running` is set, and its loop goes on exactly then.
  pub flags_agree :
      (fresh : MemoryMap) (memory_map : Option MemoryMap) (period : ℕ) {e : AslcEngine env}
      → Reach (create env fresh memory_map period) e
      → (e.worker ≡ e.is_running) × (goes_on env e ≡ e.is_running)
  flags_agree fresh memory_map period r =
      let a = Reach-Agrees (create-Agrees fresh memory_map period) r in
      (a.worker_runs, a.loop_goes_on)

  -- A second `start` of a running engine does nothing: the drivers are not initialised again. A
  -- second `stop` does nothing either.
  pub start-stop_idempotent :
      (e : AslcEngine env)
      → (start env (start env e) ≡ start env e) × (stop env (stop env e) ≡ stop env e)
  unfolding start stop
  start-stop_idempotent e = (ground arith, ground arith)

  -- A `stop` after a `start` ends the loop, and the cycle count goes on from where it was: neither
  -- call resets it.
  pub stop-start :
      (e : AslcEngine env)
      → (goes_on env (stop env (start env e)) ≡ false)
        × ((stop env (start env e)).worker ≡ false)
        × ((stop env (start env e)).cycle_count ≡ e.cycle_count)
        × ((stop env (start env e)).memory_map ≡ e.memory_map)
  unfolding start stop goes_on
  stop-start e = (ground arith, ground arith, ground arith, ground arith)

-- ===== src/Controller/System/Sound.antt =====
-- No request makes the running controller throw.
use openaslc.Base.{
  ℕ, ◌≡◌, refl, subst, inl, inr, Bool, true, List, [], ◌∷◌, Option, some, All, sum-cases,
}
use openaslc.Base.Outcome.{ok}
use openaslc.Base.Text.{String}
use openaslc.Logic.Parse.Json.{JsonLibrary, JsonWriter}
use openaslc.Logic.Runtime.{Heap, LogicRuntime}
use openaslc.Logic.Runtime.Steps.{World, outside}
use openaslc.Logic.Runtime.Safety.{IsSafe}
use openaslc.Archive.Sql.{Sqlite}
use openaslc.Archive.Tables.{Tables}
use openaslc.MockDriver.{MockDriver, IsValid}
use openaslc.MockDriver.Inputs.{set_mock_input_bit-IsValid}
use openaslc.Engine.{cycle, goes_on, set_cycle_callback}
use openaslc.Web.{Request, Handled}
use openaslc.Web.Deploy.{Times}
use openaslc.Web.Deploy.Ends.{LoggerValid, has_log}
use openaslc.Web.Deploy.Outcomes.{handle_deploy-DeployEnds}
use openaslc.Web.Deploy.Safe.{DeployEnds-IsSafe, DeployEnds-LoggerValid}
use openaslc.Web.Input.{JsonReader, and_read, read_input, answer_input, handle_input}
use openaslc.Controller.{controller, Controller}
use openaslc.Controller.Runs.{CallbackSound, cycle-IsSound}
use openaslc.Controller.Runs
use openaslc.Controller.System.{
  System, set_input, services_of, with_services, deploy_to, request_input, Step, cycles, deploys,
  inputs, Reach, here, next,
}

pub record IsSound {Db : Type 0} (s : System Db) : Type 0 where
  pub engine_sound : Runs.IsSound s.engine
  pub logger_valid : LoggerValid s.logger

pub set_input-IsValid :
    (ds : List MockDriver) (byte bit : ℕ) (value : Bool)
    → All IsValid ds
    → All IsValid (set_input ds byte bit value)
unfolding set_input
set_input-IsValid [] byte bit value h = tt
set_input-IsValid (d ∷ ds) byte bit value h = (set_mock_input_bit-IsValid byte bit value h.0, h.1)

module _ (sq : Sqlite) (tables : Tables sq) (lib : JsonLibrary) (writer : JsonWriter lib)
    (reader : JsonReader lib) (put_time : ℕ → String) where
  abbrev State : Type 0
  State = System sq.Db

  handle_input-IsValid :
      (ds : List MockDriver) (req : Request)
      → All IsValid ds
      → All IsValid (handle_input lib writer reader set_input ds req).1
  unfolding handle_input and_read answer_input
  handle_input-IsValid ds req h = elim (sum-cases (lib.parse req.body)) [
    | inr (what, e) ↦ rw (e, handle_input, and_read, answer_input) h
    | inl (doc, e) ↦ elim (sum-cases (read_input lib writer reader doc)) [
      | inr (what, e') ↦ rw (e, handle_input, and_read) (rw (e', answer_input) h)
      | inl ((byte, bit, value), e') ↦
          rw (e, handle_input, and_read)
            (rw (e', answer_input) (set_input-IsValid ds byte bit value h))
    ]
  ]

  pub request_input-IsSound :
      (s : State) (req : Request)
      → IsSound s
      → IsSound (request_input lib writer reader sq put_time s req).1
  unfolding request_input
  request_input-IsSound s req sound = record {
    engine_sound = record {
      map_valid = sound.engine_sound.map_valid;
      drivers_valid = handle_input-IsValid s.engine.drivers req sound.engine_sound.drivers_valid;
      callback_sound = sound.engine_sound.callback_sound;
    };
    logger_valid = sound.logger_valid;
  }

  -- A deploy to a sound controller returns, and leaves it sound, with at most another callback and
  -- log.
  pub deploy_to-IsSound :
      (s : State) (runtime : LogicRuntime) (heap : Heap) (req : Request) (times : Times)
      → s.engine.cycle_callback ≡ some (runtime, heap)
      → IsSound s
      → (h : Handled) × (s' : State) × (deploy_to lib writer reader sq put_time s
            (runtime, heap)
            req
            times
          ≡ ok (h, s'))
        × IsSound s'
        × (c : Option (LogicRuntime × Heap)) × (s'.engine
            ≡ set_cycle_callback controller s.engine c)
        × (has_log s'.logger ≡ has_log s.logger)
  unfolding deploy_to services_of with_services set_cycle_callback
  deploy_to-IsSound s runtime heap req times e sound =
      let services = services_of lib writer reader sq put_time s runtime heap in
      let w : World = record {
        runtime = runtime;
        heap = heap;
        mem = s.engine.memory_map;
        scanner = outside;
      } in
      let calls : CallbackSound (some (runtime, heap)) =
        subst CallbackSound e sound.engine_sound.callback_sound in
      let safe : IsSafe w = record {
        programs = calls.0;
        current_live = calls.1;
        scanner_live = tt;
        map_valid = sound.engine_sound.map_valid;
      } in
      let (h, left, gives, ends) =
        handle_deploy-DeployEnds sq tables lib writer put_time services req times
          sound.logger_valid in
      let after =
        DeployEnds-IsSafe sq tables lib writer put_time w services req times h left ends safe in
      let log =
        DeployEnds-LoggerValid sq tables lib writer put_time services req times h left ends in
      (
        h,
        with_services lib writer reader sq put_time s left,
        rw gives refl,
        record {
          engine_sound = record {
            map_valid = sound.engine_sound.map_valid;
            drivers_valid = sound.engine_sound.drivers_valid;
            callback_sound = (after.programs, after.current_live);
          };
          logger_valid = log.0;
        },
        some (left.runtime, left.heap),
        refl,
        log.1,
      )

  Step-IsSound : {s v : State} → Step lib writer reader sq put_time s v → IsSound s → IsSound v
  Step-IsSound (cycles s engine' g r) sound =
      let (e₁, r₁, sound₁, _, _, _) = cycle-IsSound s.engine sound.engine_sound in
      let same : e₁ ≡ engine' = cc in
      record { engine_sound = subst Runs.IsSound same sound₁; logger_valid = sound.logger_valid }
  Step-IsSound (deploys s s' runtime heap req times handled e gives) sound =
      let (h, s₁, gives₁, sound₁, _, _, _) = deploy_to-IsSound s runtime heap req times e sound in
      let same : s₁ ≡ s' = cc in subst IsSound same sound₁
  Step-IsSound (inputs s req) sound = request_input-IsSound s req sound

  pub Reach-IsSound :
      {s v : State} → Reach lib writer reader sq put_time s v → IsSound s → IsSound v
  Reach-IsSound here sound = sound
  Reach-IsSound (next r st) sound = Step-IsSound st (Reach-IsSound r sound)

  -- Whatever cycles, deploys and inputs a sound controller has had, in whatever order: while it goes
  -- on, its next cycle returns, without an exception and without undefined behaviour; and while it
  -- has a callback, any deploy returns.
  pub cycle_and_deploy_return :
      {s v : State}
      → IsSound s
      → Reach lib writer reader sq put_time s v
      → (goes_on controller v.engine ≡ true
          → (e' : Controller) × (cycle controller v.engine ≡ ok e')
            × Step lib writer reader sq put_time v (record v { engine = e' }))
        × ((runtime : LogicRuntime) (heap : Heap) (req : Request) (times : Times)
            → v.engine.cycle_callback ≡ some (runtime, heap)
            → (h : Handled) × (v' : State) × (deploy_to lib writer reader sq put_time v
                  (runtime, heap)
                  req
                  times
                ≡ ok (h, v')))
  cycle_and_deploy_return {s} {v} sound r =
      let sound' = Reach-IsSound r sound in
      let (e', returns, _, _, _, _) = cycle-IsSound v.engine sound'.engine_sound in
      (
        λ g. (e', returns, cycles v e' g returns),
        λ runtime heap req times e.
            let (h, v', gives, _, _, _, _) = deploy_to-IsSound v runtime heap req times e sound' in
            (h, v', gives),
      )

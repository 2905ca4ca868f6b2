-- ===== src/Controller/System.antt =====
-- The running controller of src/main.cpp with its web server: the engine, the archive and the log,
-- which the requests reach between two cycles. A request during a cycle, between the steps of
-- `execute_cycle`, is in Logic/Runtime/Steps.
pub mod Sound
pub mod Effect
mod Examples
use openaslc.Base.{ℕ, ◌≡◌, Bool, true, List, [], ◌∷◌, Option, none, some}
use openaslc.Base.Outcome.{Outcome, ok, ◌>>=◌}
use openaslc.Base.Text.{String}
use openaslc.Logic.Parse.Json.{JsonLibrary, JsonWriter}
use openaslc.Logic.Runtime.{Heap, LogicRuntime}
use openaslc.Archive.Sql.{Sqlite}
use openaslc.Logger.{RingBuffer}
use openaslc.MockDriver.{MockDriver, set_mock_input_bit}
use openaslc.Engine.{cycle, goes_on}
use openaslc.Web.{Request, Handled, Services}
use openaslc.Web.Deploy.{Times, handle_deploy}
use openaslc.Web.Input.{JsonReader, handle_input}
use openaslc.Controller.{controller, Controller}

pub record System (Db : Type 0) : Type 0 where
  pub engine : Controller
  pub archive : Option Db
  pub logger : Option RingBuffer

-- The lambda that `main` hands to the web server: the driver that it captures is the engine's first.
unfoldable pub set_input : List MockDriver → ℕ → ℕ → Bool → List MockDriver
set_input [] byte bit value = []
set_input (driver ∷ drivers) byte bit value = set_mock_input_bit driver byte bit value ∷ drivers

module _ (lib : JsonLibrary) (writer : JsonWriter lib) (reader : JsonReader lib) (sq : Sqlite)
    (put_time : ℕ → String) where
  -- The web server refers to the runtime that the engine's callback captures; without a callback
  -- there is no web server yet.
  unfoldable pub services_of : System sq.Db → LogicRuntime → Heap → Services sq.Db
  services_of s runtime heap = record {
    runtime = runtime;
    heap = heap;
    archive = s.archive;
    logger = s.logger;
  }

  unfoldable pub with_services : System sq.Db → Services sq.Db → System sq.Db
  with_services s services = record {
    engine = record s.engine { cycle_callback = some (services.runtime, services.heap) };
    archive = services.archive;
    logger = services.logger;
  }

  -- A request to /api/deploy, with the runtime of the engine's callback.
  unfoldable pub deploy_to :
      System sq.Db → LogicRuntime × Heap → Request → Times → Outcome (Handled × System sq.Db)
  deploy_to s (runtime, heap) req times = do
    (handled, services) ←
        handle_deploy lib writer sq put_time (services_of s runtime heap) req times
    ok (handled, with_services s services)

  -- A request to /api/input.
  unfoldable pub request_input : System sq.Db → Request → Handled × System sq.Db
  request_input s req =
      let (handled, drivers) = handle_input lib writer reader set_input s.engine.drivers req in
      (handled, record s { engine = record s.engine { drivers = drivers } })

  -- What may happen to a running controller.
  pub data Step : System sq.Db → System sq.Db → Type 0 where
    cycles :
        (s : System sq.Db) (engine' : Controller)
        → goes_on controller s.engine ≡ true
        → cycle controller s.engine ≡ ok engine'
        → Step s (record s { engine = engine' })
    deploys :
        (s s' : System sq.Db) (runtime : LogicRuntime) (heap : Heap) (req : Request) (times : Times)
        (handled : Handled)
        → s.engine.cycle_callback ≡ some (runtime, heap)
        → deploy_to s (runtime, heap) req times ≡ ok (handled, s')
        → Step s s'
    inputs : (s : System sq.Db) (req : Request) → Step s (request_input s req).1

  pub data Reach (s : System sq.Db) : System sq.Db → Type 0 where
    here : Reach s s
    next : {u v : System sq.Db} → Reach s u → Step u v → Reach s v

-- ===== src/Controller/Main/Parts.antt =====
-- The parts as `main` starts and stops them.
use openaslc.Base.{ℕ, ◌≡◌, refl, Bool, true, false, Option, none, some}
use openaslc.Logic.{LogicProgram}
use openaslc.Logic.Program.{ProgramWellFormed}
use openaslc.Logic.Runtime.{Heap, LogicRuntime}
use openaslc.Logger.{RingBuffer}
use openaslc.Engine.{goes_on}
use openaslc.Telemetry.{Socket}
use openaslc.Telemetry.Server
use openaslc.Telemetry.Server.{
  TelemetryServer, Opened, IsConsistent, stopped, running, starts, happen-IsConsistent,
}
use openaslc.Web
use openaslc.Web.{WebServer}
use openaslc.Web.Deploy.Ends.{has_log}
use openaslc.Controller.{controller, Controller}
use openaslc.Controller.Runs.{CallbackSound}
use openaslc.Controller.Calls.{Phase, CountIs, EngineIs, added-CallbackSound}
use openaslc.Controller.System.{set_input}
use openaslc.Controller.System.Sound.{set_input-IsValid}
use openaslc.Controller.Main.{Libraries, Machine, swap_in}
use openaslc.Controller.Main.Steps.{WebIs, TelemetryIs}

-- Nothing is left in the ring.
abbrev pub Drained : Option RingBuffer → Type 0
Drained none = Unit
Drained (some r) = r.count ≡ 0

-- Every part has stopped; an engine that was fresh has run no cycle.
pub record Stopped {libs : Libraries} (phase : Phase) (m : Machine libs) : Type 0 where
  pub loop_over : goes_on controller m.system.engine ≡ false
  pub worker_over : m.system.engine.worker ≡ false
  pub logging_over : m.logging ≡ false
  pub has_its_log : has_log m.system.logger ≡ true
  pub drained : Drained m.system.logger
  pub web_over : m.web ≡ Web.create
  pub count : CountIs phase m.system.engine.cycle_count
  pub telemetry_over : m.telemetry ≡ Server.create libs.sock

pub stop-TelemetryIs :
    (sock : Socket) (on : Bool) (server : TelemetryServer sock)
    → TelemetryIs sock on server
    → TelemetryIs sock false (Server.stop sock server)
unfolding Server.stop Server.create
stop-TelemetryIs sock false server c = rw c refl
stop-TelemetryIs sock true _ stopped = refl
stop-TelemetryIs sock true _ (running handle clients) = refl

pub start-TelemetryIs :
    (sock : Socket) (server : TelemetryServer sock) (opened : Opened)
    → TelemetryIs sock false server
    → TelemetryIs sock true (Server.start sock server opened)
unfolding Server.happen
start-TelemetryIs sock server opened c =
    rw c (happen-IsConsistent sock (Server.create sock) (starts opened) stopped)

pub stop-WebIs : (on : Bool) (web : WebServer) → WebIs on web → WebIs false (Web.stop web)
unfolding Web.stop Web.create
stop-WebIs true web w = w
stop-WebIs false web w = rw w refl

pub start-WebIs : (web : WebServer) → WebIs false web → WebIs true (Web.start true true web)
unfolding Web.start Web.stop Web.create
start-WebIs web w = rw w refl

pub swap_in-CallbackSound :
    (libs : Libraries) (c : Option (LogicRuntime × Heap)) (p : LogicProgram)
    → CallbackSound c
    → ProgramWellFormed p
    → CallbackSound (swap_in libs c p)
unfolding swap_in
swap_in-CallbackSound libs none p h w = tt
swap_in-CallbackSound libs (some (runtime, heap)) p h w = added-CallbackSound runtime heap p h w

pub drivers-EngineIs :
    {phase : Phase} {e : Controller} (bit : ℕ) (value : Bool)
    → EngineIs phase e
    → EngineIs phase (record e { drivers = set_input e.drivers 0 bit value })
unfolding goes_on
drivers-EngineIs {phase} {e} bit value s = record {
  sound = record {
    map_valid = s.sound.map_valid;
    drivers_valid = set_input-IsValid e.drivers 0 bit value s.sound.drivers_valid;
    callback_sound = s.sound.callback_sound;
  };
  agrees = record { worker_runs = s.agrees.worker_runs; loop_goes_on = s.agrees.loop_goes_on };
  runs = s.runs;
  period = s.period;
  count = s.count;
}

-- ===== src/Controller/Main.antt =====
-- `main` of src/main.cpp: its objects, its calls on them, and what the other threads do meanwhile. The
-- sequence of the calls is in Demo: between two of them the other threads act, and `between` gives
-- what they do at each place. What is printed on the console is left out.
pub mod Demo
pub mod Steps
pub mod Parts
pub mod Loads
pub mod Stages
pub mod Ends
mod Examples
use openaslc.Base.{
  ℕ, ◌+◌, ◌*◌, Bool, true, false, List, [], ◌∷◌, ◌++◌, Option, none, some, if◌then◌else◌, length,
}
use openaslc.Base.Outcome.{Outcome, ok, ◌>>=◌}
use openaslc.Base.Int.{pos}
use openaslc.Base.Text.{String, ◌<>◌, to_string}
use openaslc.MemoryMap
use openaslc.MockDriver
use openaslc.Logic.{LogicProgram, rule_count}
use openaslc.Logic.Parse.{parsed, logic_parse_error, json_exception, out_of_fuel, from_file}
use openaslc.Logic.Parse.Json.{JsonLibrary, JsonWriter}
use openaslc.Logic.Runtime
use openaslc.Logic.Runtime.{Heap, LogicRuntime, reload}
use openaslc.Logger
use openaslc.Logger.{Disk, LogLevel, info, error, RingBuffer, Files, flush_pending}
use openaslc.Archive.Sql.{Sqlite}
use openaslc.Archive.Rows
use openaslc.Archive.Rows.{archived, config_archive_error}
use openaslc.Archive
use openaslc.Engine
use openaslc.Engine.{add_driver, set_cycle_callback, cycle, goes_on}
use openaslc.Telemetry.{Socket}
use openaslc.Telemetry.Server
use openaslc.Telemetry.Server.{Opened, TelemetryServer, accept_round}
use openaslc.Telemetry.Clients.{serve_client}
use openaslc.Web
use openaslc.Web.{Request, WebServer, log_if}
use openaslc.Web.Deploy.{Times}
use openaslc.Web.History.{handle_history}
use openaslc.Web.Input.{JsonReader}
use openaslc.Controller.{controller, Controller}
use openaslc.Controller.System.{System, set_input, deploy_to, request_input}

-- The libraries that the parts use, the formatting of a time stamp, and for which lengths a vector
-- can be made.
pub record Libraries : Type 1 where
  pub lib : JsonLibrary
  pub writer : JsonWriter lib
  pub reader : JsonReader lib
  pub sq : Sqlite
  pub put_time : ℕ → String
  pub sock : Socket
  pub can_allocate : ℕ → Bool

-- The objects of `main`, with the log's files and the logger's `is_running_`. A server that `main`
-- has not made yet is as its constructor makes it.
pub record Machine (libs : Libraries) : Type 0 where
  pub system : System libs.sq.Db
  pub files : Files
  pub logging : Bool
  pub web : WebServer
  pub telemetry : TelemetryServer libs.sock

-- What the other threads do: a round of the scan thread, of the flush thread, of the thread that
-- accepts telemetry clients, of the thread of one telemetry client, and a request to the web server.
pub data Event (libs : Libraries) : Type 0 where
  scans : Event libs
  flushes : Disk → Event libs
  accepts : Option libs.sock.State → Event libs
  serves : ℕ → Event libs
  deploys : Request → Times → Event libs
  asks_history : Request → Event libs
  inputs : Request → Event libs

-- What `main` finds: the paths, what the two program files hold, the log's files, what the system
-- says to the telemetry server's socket, what the file system does with the log at the end, the times of the
-- calls of `log`, and what the other threads do between its calls.
pub record Host (libs : Libraries) : Type 0 where
  pub db_path : String
  pub example_path : String
  pub example : Option String
  pub reload_path : String
  pub reload_example : Option String
  pub files : Files
  pub opened : Opened
  pub disk : Disk
  pub clock : ℕ → ℕ
  pub between : ℕ → List (Event libs)

-- How `main` ends: it returns, after the destructors, or an exception leaves it.
pub data Exit (libs : Libraries) : Type 0 where
  exits : ℕ → Machine libs → Exit libs
  uncaught : Exit libs

module _ (libs : Libraries) where
  open libs use {lib, writer, reader, sq, put_time, sock, can_allocate}

  abbrev State : Type 0
  State = Machine libs

  unfoldable pub with_engine : State → Controller → State
  with_engine m engine = record m { system = record m.system { engine = engine } }

  -- `logger.log(level, message)`
  unfoldable pub say : State → ℕ → LogLevel → String → Outcome State
  say m now level message = do
    logger ← log_if m.system.logger now level message
    ok (record m { system = record m.system { logger = logger } })

  unfoldable pub flush_logger : Disk → State → Option RingBuffer → Outcome State
  flush_logger disk m none = ok m
  flush_logger disk m (some r) = do
    (r', files) ← flush_pending put_time disk (5 * 1024 * 1024) 3 r m.files
    ok (record m { system = record m.system { logger = some r' }; files = files })

  -- `RingBufferLogger::stop`, when its thread has ended.
  unfoldable pub stop_logger : Disk → State → Outcome State
  stop_logger disk m =
      if m.logging then flush_logger disk (record m { logging = false }) m.system.logger else ok m

  -- The web server's threads serve requests while it runs, and the engine's callback holds the
  -- runtime that they refer to.
  unfoldable pub serve_deploy :
      State → Option (LogicRuntime × Heap) → Request → Times → Outcome State
  serve_deploy m none req times = ok m
  serve_deploy m (some callback) req times = do
    (handled, system) ← deploy_to lib writer reader sq put_time m.system callback req times
    ok (record m { system = system })

  unfoldable pub serve_history : State → Option sq.Db → Request → Outcome State
  serve_history m none req = ok m
  serve_history m (some db) req = do
    (handled, db') ← handle_history lib writer sq db req
    ok (record m { system = record m.system { archive = some db' } })

  unfoldable pub happen : State → Event libs → Outcome State
  happen m scans =
      if goes_on controller m.system.engine
      then (cycle controller m.system.engine >>= λ engine. ok (with_engine m engine))
      else ok m
  happen m (flushes disk) = if m.logging then flush_logger disk m m.system.logger else ok m
  happen m (accepts client) = ok (record m { telemetry = accept_round sock m.telemetry client })
  happen m (serves i) =
      serve_client lib writer sock can_allocate m.system.engine.memory_map m.telemetry i
      >>= λ telemetry. ok (record m { telemetry = telemetry })
  happen m (deploys req times) =
      if m.web.is_running then serve_deploy m m.system.engine.cycle_callback req times else ok m
  happen m (asks_history req) =
      if m.web.is_running then serve_history m m.system.archive req else ok m
  happen m (inputs req) =
      if m.web.is_running
      then ok (record m { system = (request_input lib writer reader sq put_time m.system req).1 })
      else ok m

  unfoldable pub happen_all : State → List (Event libs) → Outcome State
  happen_all m [] = ok m
  happen_all m (e ∷ events) = do m' ← happen m e; happen_all m' events

  -- `mock_driver->set_mock_input_bit(0, bit, value)`
  unfoldable pub set_bit : State → ℕ → Bool → State
  set_bit m bit value =
      with_engine m
        (record m.system.engine { drivers = set_input m.system.engine.drivers 0 bit value })

  -- `runtime.reload(program)`, with the runtime that the engine's callback captures.
  unfoldable pub swap_in :
      Option (LogicRuntime × Heap) → LogicProgram → Option (LogicRuntime × Heap)
  swap_in none program = none
  swap_in (some (runtime, heap)) program =
      some (reload runtime (some (length heap)), heap ++ (program ∷ []))

  unfoldable pub reload_program : State → LogicProgram → State
  reload_program m program = with_engine m (
      set_cycle_callback controller m.system.engine
        (swap_in m.system.engine.cycle_callback program))

-- ===== src/Controller/Main/Demo.antt =====
-- The sequence of `main`: its start, the demo, and its end.
use openaslc.Base.{ℕ, ◌+◌, Bool, true, false, [], ◌∷◌, some}
use openaslc.Base.Outcome.{Outcome, ok, ◌>>=◌}
use openaslc.Base.Int.{pos}
use openaslc.Base.Text.{String, ◌<>◌, to_string}
use openaslc.MemoryMap
use openaslc.MockDriver
use openaslc.Logic.{LogicProgram, rule_count}
use openaslc.Logic.Parse.{parsed, logic_parse_error, json_exception, out_of_fuel, from_file}
use openaslc.Logic.Runtime
use openaslc.Logic.Runtime.{Heap, LogicRuntime, reload}
use openaslc.Logger
use openaslc.Logger.{LogLevel, info, error, RingBuffer, Files, flush_pending}
use openaslc.Archive.Rows
use openaslc.Archive.Rows.{archived, config_archive_error}
use openaslc.Archive
use openaslc.Engine
use openaslc.Engine.{add_driver, set_cycle_callback, cycle, goes_on}
use openaslc.Telemetry.Server
use openaslc.Telemetry.Server.{Opened, TelemetryServer, accept_round}
use openaslc.Web
use openaslc.Web.{Request, WebServer, log_if}
use openaslc.Controller.{controller}
use openaslc.Controller.Main.{
  Libraries, Machine, Host, Exit, exits, uncaught, with_engine, say, stop_logger, happen_all,
  set_bit, reload_program,
}

module _ (libs : Libraries) (host : Host libs) where
  open libs use {lib, sq, sock}

  abbrev State : Type 0
  State = Machine libs

  unfoldable pub others : ℕ → State → Outcome State
  others place m = happen_all libs m (host.between place)

  -- The objects up to the engine, with the logger started.
  unfoldable pub built : sq.Db → State
  built db = record {
    system = record {
      engine =
          add_driver controller
            (Engine.create controller MemoryMap.initial (some MemoryMap.initial) 20)
            (some (MockDriver.create true));
      archive = some db;
      logger = some Logger.initial;
    };
    files = host.files;
    logging = true;
    web = Web.create;
    telemetry = Server.create sock;
  }

  -- The calls of `stop`: those at the end of `main`, and those of the destructors, which come in
  -- the same order.
  unfoldable pub shut_down : State → Outcome State
  shut_down m = do
    m₁ ← others 100 (record m { telemetry = Server.stop sock m.telemetry })
    m₂ ← others 101 (record m₁ { web = Web.stop m₁.web })
    m₃ ← others 102 (with_engine libs m₂ (Engine.stop controller m₂.system.engine))
    stop_logger libs host.disk m₃

  -- The calls of `stop`, and `return code`.
  unfoldable pub leave : ℕ → State → Outcome (Exit libs)
  leave code m = do m' ← shut_down m; ok (exits code m')

  -- From the construction of the runtime to the first pause.
  unfoldable pub start_all : State → LogicProgram → Outcome State
  start_all m program = do
    m₁ ←
        say libs m (host.clock 1) info
          ("loaded initial logic program (" <> (to_string (rule_count program) <> " rules)"))
    m₂ ← others 1 (
        with_engine libs m₁ (
          set_cycle_callback controller m₁.system.engine
            (some (Runtime.create (pos m₁.system.engine.cycle_period) (some 0), program ∷ []))))
    m₃ ← say libs m₂ (host.clock 2) info "AslcEngine starting"
    m₄ ← others 2 (with_engine libs m₃ (Engine.start controller m₃.system.engine))
    m₅ ← others 3 (record m₄ { web = Web.start true true m₄.web })
    m₆ ← others 4 (record m₅ { telemetry = Server.start sock m₅.telemetry host.opened })
    m₇ ← say libs m₆ (host.clock 3) info "WebServer + TelemetryServer started"
    others 5 m₇

  -- The three simulated inputs of the demo, from place `place` on.
  unfoldable pub set_bits : State → ℕ → Bool → Outcome State
  set_bits m place value = do
    m₁ ← others place (set_bit libs m 0 value)
    m₂ ← others (place + 1) (set_bit libs m₁ 1 value)
    others (place + 2) (set_bit libs m₂ 2 value)

  -- After the reload, to the end.
  unfoldable pub finish_demo : State → LogicProgram → Outcome (Exit libs)
  finish_demo m program = do
    m₁ ← others 9 (reload_program libs m program)
    m₂ ←
        say libs m₁ (host.clock 4) info
          ("hot-reloaded logic program (" <> (to_string (rule_count program) <> " rules)"))
    m₃ ← others 10 m₂
    m₄ ← set_bits m₃ 11 false
    m₅ ←
        say libs m₄ (host.clock 5) info
          ("shutting down after " <> (to_string m₄.system.engine.cycle_count <> " cycles"))
    m₆ ← others 14 m₅
    leave 0 m₆

  -- The handler of a `LogicParseError` of the reload.
  unfoldable pub refuse_reload : State → String → Outcome (Exit libs)
  refuse_reload m what = do
    m₁ ← say libs m (host.clock 4) error ("hot-reload failed: " <> what)
    m₂ ← others 9 m₁
    m₃ ← others 10 (with_engine libs m₂ (Engine.stop controller m₂.system.engine))
    leave 1 m₃

  unfoldable pub reload_demo : State → Outcome (Exit libs)
  reload_demo m =
      elim (from_file lib host.reload_path host.reload_example (pos m.system.engine.cycle_period)) [
        | parsed program ↦ finish_demo m program
        | logic_parse_error what ↦ refuse_reload m what
        | json_exception ↦ ok uncaught
        | out_of_fuel ↦ ok uncaught
      ]

  unfoldable pub run_demo : State → LogicProgram → Outcome (Exit libs)
  run_demo m program = do m₁ ← start_all m program; m₂ ← set_bits m₁ 6 true; reload_demo m₂

  unfoldable pub load_and_run : State → Outcome (Exit libs)
  load_and_run m =
      elim (from_file lib host.example_path host.example (pos m.system.engine.cycle_period)) [
        | parsed program ↦ run_demo m program
        | logic_parse_error what ↦ do
          m₁ ← say libs m (host.clock 1) error ("failed to load initial logic program: " <> what)
          leave 1 m₁
        | json_exception ↦ ok uncaught
        | out_of_fuel ↦ ok uncaught
      ]

  -- The archive's constructor may throw, outside every `try`.
  unfoldable pub main : Outcome (Exit libs)
  main = elim (Archive.create sq host.db_path) [
    | archived db ↦ do m ← others 0 (built db); load_and_run m
    | config_archive_error what ↦ ok uncaught
    | Rows.json_exception ↦ ok uncaught
    | Rows.undefined ↦ ok uncaught
  ]

-- ===== src/Controller/Main/Stages.antt =====
-- The stages of `main`: each returns, and keeps the parts in order.
use openaslc.Base.{
  ℕ, ◌+◌, ◌*◌, ◌≡◌, refl, ◌∙◌, Bool, true, false, Option, none, some, arith, if_true,
}
use openaslc.Base.Outcome.{ok, Returns, then-Returns}
use openaslc.Logic.{LogicProgram}
use openaslc.Logic.Program.{ProgramWellFormed}
use openaslc.Logic.Runtime
use openaslc.Logic.Runtime.{Heap, LogicRuntime}
use openaslc.Logger.{Disk, RingBuffer, flush_pending, write_entries}
use openaslc.Logger.Ring.{initial-IsValid, take_pending_lem, pending}
use openaslc.Archive.Tables.{Tables}
use openaslc.MockDriver
use openaslc.MockDriver.Inputs.{create-IsValid}
use openaslc.Engine
use openaslc.Engine.{goes_on}
use openaslc.Telemetry.Server
use openaslc.Telemetry.Server.{
  TelemetryServer, Opened, IsConsistent, stopped, running, starts, happen-IsConsistent,
}
use openaslc.Telemetry.Clients.{ClientsReturn}
use openaslc.Web
use openaslc.Web.{WebServer}
use openaslc.Web.Deploy.Ends.{LoggerValid, has_log}
use openaslc.Controller.{controller}
use openaslc.Controller.Calls.{
  Phase, fresh, on, halted, is_on, halted_off, EngineIs, create-EngineIs,
  set_cycle_callback-EngineIs, start-EngineIs, stop-EngineIs,
}
use openaslc.Controller.Main.{
  Libraries, Machine, Host, with_engine, flush_logger, stop_logger, set_bit, reload_program,
}
use openaslc.Controller.Main.Demo.{others, built, shut_down, start_all, set_bits}
use openaslc.Controller.Main.Steps.{WebIs, TelemetryIs, Up, with_engine-Up, say-Up, happen_all-Up}
use openaslc.Controller.Main.Parts.{
  Stopped, stop-TelemetryIs, start-TelemetryIs, stop-WebIs, start-WebIs, swap_in-CallbackSound,
  drivers-EngineIs,
}

module _ (libs : Libraries) (tables : Tables libs.sq)
    (clients : ClientsReturn libs.lib libs.writer libs.sock libs.can_allocate) where
  open libs use {lib, writer, reader, sq, put_time, sock, can_allocate}

  abbrev State : Type 0
  State = Machine libs

  pub reload_program-Up :
      {t w : Bool} {e : Phase} (m : State) (p : LogicProgram)
      → ProgramWellFormed p
      → Up t w e m
      → Up t w e (reload_program libs m p)
  unfolding reload_program
  reload_program-Up m p wf u =
      with_engine-Up libs tables clients m _
        (set_cycle_callback-EngineIs _ u.engine_is (
          swap_in-CallbackSound libs m.system.engine.cycle_callback p
            u.engine_is.sound.callback_sound wf))
        u

  set_bit-Up :
      {t w : Bool} {e : Phase} (m : State) (bit : ℕ) (value : Bool)
      → Up t w e m
      → Up t w e (set_bit libs m bit value)
  unfolding set_bit
  set_bit-Up m bit value u =
      with_engine-Up libs tables clients m _ (drivers-EngineIs bit value u.engine_is) u

  flush_logger-Stopped :
      {e : Phase} (disk : Disk) (m : State) (logger : Option RingBuffer)
      → LoggerValid logger
      → has_log logger ≡ true
      → is_on e ≡ false
      → EngineIs e m.system.engine
      → m.web ≡ Web.create
      → m.telemetry ≡ Server.create sock
      → Returns (Stopped e) (flush_logger libs disk (record m { logging = false }) logger)
  unfolding flush_logger flush_pending
  flush_logger-Stopped disk m none v has idle s w t = absurd (cc)
  flush_logger-Stopped disk m (some r) v has idle s w t = (
    record m {
      logging = false;
      system = record m.system { logger = some (record r { count = 0 }) };
      files = write_entries put_time disk (5 * 1024 * 1024) 3 (pending r) m.files;
    },
    rw (take_pending_lem v) refl,
    record {
      loop_over = s.agrees.loop_goes_on ∙ (s.runs ∙ idle);
      worker_over = s.agrees.worker_runs ∙ (s.runs ∙ idle);
      logging_over = refl;
      has_its_log = refl;
      drained = refl;
      web_over = w;
      count = s.count;
      telemetry_over = t;
    },
  )

  stop_logger-Stopped :
      {e : Phase} (disk : Disk) (m : State)
      → is_on e ≡ false
      → Up false false e m
      → Returns (Stopped e) (stop_logger libs disk m)
  unfolding stop_logger
  stop_logger-Stopped {e} disk m idle u =
      if_true (Returns (Stopped e)) m.logging (ok m) u.logging_on (
        flush_logger-Stopped disk m m.system.logger u.logger_valid u.logger_made idle u.engine_is
          u.web_is u.telemetry_is)

  module _ (host : Host libs) where
    pub others-Up :
        {t w : Bool} {e : Phase} (place : ℕ) (m : State)
        → Up t w e m
        → Returns (Up t w e) (others libs host place m)
    unfolding others
    others-Up place m u = happen_all-Up libs tables clients m (host.between place) u

    pub built-Up : (db : sq.Db) → Up false false fresh (built libs host db)
    unfolding built
    built-Up db = record {
      engine_is = create-EngineIs (MockDriver.create true) (create-IsValid true);
      logger_valid = initial-IsValid;
      logger_made = refl;
      logging_on = refl;
      web_is = refl;
      telemetry_is = refl;
    }

    with_telemetry-Up :
        {t t' w : Bool} {e : Phase} (m : State) (server : TelemetryServer sock)
        → TelemetryIs sock t' server
        → Up t w e m
        → Up t' w e (record m { telemetry = server })
    with_telemetry-Up m server s u = record {
      engine_is = u.engine_is;
      logger_valid = u.logger_valid;
      logger_made = u.logger_made;
      logging_on = u.logging_on;
      web_is = u.web_is;
      telemetry_is = s;
    }

    with_web-Up :
        {t w w' : Bool} {e : Phase} (m : State) (web : WebServer)
        → WebIs w' web
        → Up t w e m
        → Up t w' e (record m { web = web })
    with_web-Up m web s u = record {
      engine_is = u.engine_is;
      logger_valid = u.logger_valid;
      logger_made = u.logger_made;
      logging_on = u.logging_on;
      web_is = s;
      telemetry_is = u.telemetry_is;
    }

    pub stopped_engine-Up :
        {t w : Bool} {e : Phase} (m : State)
        → Up t w e m
        → Up t w (halted e) (with_engine libs m (Engine.stop controller m.system.engine))
    stopped_engine-Up m u = with_engine-Up libs tables clients m _ (stop-EngineIs u.engine_is) u

    -- The calls of `stop` return, and stop everything.
    pub shut_down-Stopped :
        {t w : Bool} {e : Phase} (m : State)
        → Up t w e m
        → Returns (Stopped (halted e)) (shut_down libs host m)
    unfolding shut_down
    shut_down-Stopped {t} {w} {e} m u =
        then-Returns _ _
          (others-Up 100 _
            (with_telemetry-Up m _ (stop-TelemetryIs sock t m.telemetry u.telemetry_is) u))
          λ m₁ u₁.
            then-Returns _ _ (others-Up 101 _ (with_web-Up m₁ _ (stop-WebIs w m₁.web u₁.web_is) u₁))
              λ m₂ u₂.
                then-Returns _ _ (others-Up 102 _ (stopped_engine-Up m₂ u₂))
                  λ m₃ u₃. stop_logger-Stopped host.disk m₃ (halted_off e) u₃

    -- With a well-formed program, everything starts.
    pub start_all-Up :
        (m : State) (p : LogicProgram)
        → ProgramWellFormed p
        → Up false false fresh m
        → Returns (Up true true on) (start_all libs host m p)
    unfolding start_all Runtime.create
    start_all-Up m p wf u = then-Returns _ _ (say-Up libs tables clients m _ _ _ u) λ m₁ u₁.
        then-Returns _ _
          (others-Up 1 _ (
            with_engine-Up libs tables clients m₁ _
              (set_cycle_callback-EngineIs _ u₁.engine_is ((wf, tt), omega arith)) u₁))
          λ m₂ u₂. then-Returns _ _ (say-Up libs tables clients m₂ _ _ _ u₂) λ m₃ u₃.
            then-Returns _ _
              (others-Up 2 _
                (with_engine-Up libs tables clients m₃ _ (start-EngineIs u₃.engine_is) u₃))
              λ m₄ u₄.
                then-Returns _ _
                  (others-Up 3 _ (with_web-Up m₄ _ (start-WebIs m₄.web u₄.web_is) u₄))
                  λ m₅ u₅.
                    then-Returns _ _
                      (others-Up 4 _ (
                        with_telemetry-Up m₅ _
                          (start-TelemetryIs sock m₅.telemetry host.opened u₅.telemetry_is) u₅))
                      λ m₆ u₆.
                        then-Returns _ _ (say-Up libs tables clients m₆ _ _ _ u₆)
                          λ m₇ u₇. others-Up 5 m₇ u₇

    pub set_bits-Up :
        {t w : Bool} {e : Phase} (m : State) (place : ℕ) (value : Bool)
        → Up t w e m
        → Returns (Up t w e) (set_bits libs host m place value)
    unfolding set_bits
    set_bits-Up m place value u =
        then-Returns _ _ (others-Up place _ (set_bit-Up m 0 value u)) λ m₁ u₁.
          then-Returns _ _ (others-Up (place + 1) _ (set_bit-Up m₁ 1 value u₁))
            λ m₂ u₂. others-Up (place + 2) _ (set_bit-Up m₂ 2 value u₂)

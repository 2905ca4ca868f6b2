-- ===== src/Controller/Main/Steps.antt =====
-- What the other threads do between two calls of `main`, and what `log` does.
use openaslc.Base.{
  ℕ, ◌*◌, ◌≡◌, refl, ap, ◌∙◌, inl, inr, Bool, true, false, List, [], ◌∷◌, Option, none, some,
  Bool-cases, if_either,
}
use openaslc.Base.Outcome.{Returns, then-Returns}
use openaslc.Base.Text.{String}
use openaslc.MemoryMap.{MemoryMap, IsValid}
use openaslc.Logic.Runtime.{Heap, LogicRuntime}
use openaslc.Logger.{Disk, LogLevel, RingBuffer, flush_pending, write_entries}
use openaslc.Logger.History.{emptied-IsValid}
use openaslc.Logger.Ring.{take_pending_lem, pending}
use openaslc.Archive.Tables.{Tables}
use openaslc.Engine.Control.{Step-Agrees, sets}
use openaslc.Engine.{set_cycle_callback, goes_on}
use openaslc.Telemetry.{Socket}
use openaslc.Telemetry.Server
use openaslc.Telemetry.Server.{
  TelemetryServer, IsConsistent, accepts, accept_round, happen-IsConsistent,
}
use openaslc.Telemetry.Clients.{
  ClientsReturn, serve_client, serve_client-IsConsistent, serve_client-create,
}
use openaslc.Web
use openaslc.Web.{Request, WebServer, log_if}
use openaslc.Web.Deploy.{Times}
use openaslc.Web.Deploy.Ends.{LoggerValid, has_log, log_if-LoggerValid}
use openaslc.Web.History.Answers.{handle_history_lem}
use openaslc.Controller.{controller, Controller}
use openaslc.Controller.Calls.{Phase, EngineIs, cycle-EngineIs}
use openaslc.Controller.System.{System, request_input}
use openaslc.Controller.System.Sound.{deploy_to-IsSound, request_input-IsSound}
use openaslc.Controller.Main.{
  Libraries, Machine, Event, scans, flushes, accepts, serves, deploys, asks_history, inputs,
  with_engine, say, flush_logger, serve_deploy, serve_history, happen, happen_all,
}

-- A web server that may run, or that does not.
abbrev pub WebIs : Bool → WebServer → Type 0
WebIs true web = Web.stop web ≡ Web.create
WebIs false web = web ≡ Web.create

abbrev pub TelemetryIs : (sock : Socket) → Bool → TelemetryServer sock → Type 0
TelemetryIs sock true server = IsConsistent sock server
TelemetryIs sock false server = server ≡ Server.create sock

-- The parts of a machine while its logger runs.
pub record Up {libs : Libraries} (telemetry_on web_on : Bool) (phase : Phase) (m : Machine libs)
    : Type 0 where
  pub engine_is : EngineIs phase m.system.engine
  pub logger_valid : LoggerValid m.system.logger
  pub logger_made : has_log m.system.logger ≡ true
  pub logging_on : m.logging ≡ true
  pub web_is : WebIs web_on m.web
  pub telemetry_is : TelemetryIs libs.sock telemetry_on m.telemetry

accept_round-TelemetryIs :
    (sock : Socket) (on : Bool) (server : TelemetryServer sock) (client : Option sock.State)
    → TelemetryIs sock on server
    → TelemetryIs sock on (accept_round sock server client)
unfolding accept_round Server.happen Server.create
accept_round-TelemetryIs sock true server client c =
    happen-IsConsistent sock server (accepts client) c
accept_round-TelemetryIs sock false server none c = c
accept_round-TelemetryIs sock false server (some client) c = rw c refl

module _ (libs : Libraries) (tables : Tables libs.sq)
    (clients : ClientsReturn libs.lib libs.writer libs.sock libs.can_allocate) where
  open libs use {lib, writer, reader, sq, put_time, sock, can_allocate}

  abbrev State : Type 0
  State = Machine libs

  serve_client-TelemetryIs :
      (map : MemoryMap) (on : Bool) (server : TelemetryServer sock) (i : ℕ)
      → IsValid map
      → TelemetryIs sock on server
      → Returns (TelemetryIs sock on) (serve_client lib writer sock can_allocate map server i)
  serve_client-TelemetryIs map true server i v c =
      serve_client-IsConsistent lib writer sock can_allocate clients map v server i c
  serve_client-TelemetryIs map false server i v c = (
    Server.create sock,
    ap (λ (s : TelemetryServer sock). serve_client lib writer sock can_allocate map s i) c
        ∙ serve_client-create lib writer sock can_allocate clients map v i,
    refl,
  )

  module _ {t w : Bool} {e : Phase} where
    -- Another engine, archive and log.
    with_system-Up :
        {e' : Phase} {m : State} (system : System sq.Db)
        → EngineIs e' system.engine
        → LoggerValid system.logger
        → has_log system.logger ≡ true
        → Up t w e m
        → Up t w e' (record m { system = system })
    with_system-Up system s valid made u = record {
      engine_is = s;
      logger_valid = valid;
      logger_made = made;
      logging_on = u.logging_on;
      web_is = u.web_is;
      telemetry_is = u.telemetry_is;
    }

    pub with_engine-Up :
        {e' : Phase} (m : State) (engine : Controller)
        → EngineIs e' engine
        → Up t w e m
        → Up t w e' (with_engine libs m engine)
    unfolding with_engine
    with_engine-Up m engine s u =
        with_system-Up (record m.system { engine = engine }) s u.logger_valid u.logger_made u

    pub say-Up :
        (m : State) (now : ℕ) (level : LogLevel) (message : String)
        → Up t w e m
        → Returns (Up t w e) (say libs m now level message)
    unfolding say
    say-Up m now level message u =
        let (logger, logs, v, kept) =
          log_if-LoggerValid m.system.logger now level message u.logger_valid in
        (
          _,
          rw logs refl,
          with_system-Up (record m.system { logger = logger }) u.engine_is v (kept ∙ u.logger_made)
              u,
        )

    pub flush_logger-Up :
        (disk : Disk) (m : State) (logger : Option RingBuffer)
        → LoggerValid logger
        → Up t w e m
        → Returns (Up t w e) (flush_logger libs disk m logger)
    unfolding flush_logger flush_pending
    flush_logger-Up disk m none v u = (m, refl, u)
    flush_logger-Up disk m (some r) v u =
        let files = write_entries put_time disk (5 * 1024 * 1024) 3 (pending r) m.files in
        (
          record m {
            system = record m.system { logger = some (record r { count = 0 }) };
            files = files;
          },
          rw (take_pending_lem v) refl,
          record {
            engine_is = u.engine_is;
            logger_valid = emptied-IsValid v;
            logger_made = refl;
            logging_on = u.logging_on;
            web_is = u.web_is;
            telemetry_is = u.telemetry_is;
          },
        )

    serve_deploy-Up :
        (m : State) (c : Option (LogicRuntime × Heap)) (req : Request) (times : Times)
        → m.system.engine.cycle_callback ≡ c
        → Up t w e m
        → Returns (Up t w e) (serve_deploy libs m c req times)
    unfolding serve_deploy set_cycle_callback
    serve_deploy-Up m none req times has u = (m, refl, u)
    serve_deploy-Up m (some (runtime, heap)) req times has u =
        let (h, s', gives, sound, c, same, kept) =
          deploy_to-IsSound sq tables lib writer reader put_time m.system runtime heap req times has
            (record { engine_sound = u.engine_is.sound; logger_valid = u.logger_valid }) in
        (
          record m { system = s' },
          rw gives refl,
          with_system-Up s'
              (record {
                sound = sound.engine_sound;
                agrees =
                    rw same (Step-Agrees controller (sets m.system.engine c) u.engine_is.agrees);
                runs = rw same u.engine_is.runs;
                period = rw same u.engine_is.period;
                count = rw same u.engine_is.count;
              })
              sound.logger_valid (kept ∙ u.logger_made) u,
        )

    serve_history-Up :
        (m : State) (archive : Option sq.Db) (req : Request)
        → Up t w e m
        → Returns (Up t w e) (serve_history libs m archive req)
    unfolding serve_history
    serve_history-Up m none req u = (m, refl, u)
    serve_history-Up m (some db) req u =
        let (h, db', gives, _, _) = handle_history_lem lib writer sq tables db req in
        (
          record m { system = record m.system { archive = some db' } },
          rw gives refl,
          with_system-Up (record m.system { archive = some db' }) u.engine_is u.logger_valid
              u.logger_made u,
        )

    request_input-Up :
        (m : State) (req : Request)
        → Up t w e m
        → Up t w e
            (record m { system = (request_input lib writer reader sq put_time m.system req).1 })
    unfolding request_input goes_on
    request_input-Up m req u =
        let sound =
          request_input-IsSound sq tables lib writer reader put_time m.system req
            (record { engine_sound = u.engine_is.sound; logger_valid = u.logger_valid }) in
        with_system-Up (request_input lib writer reader sq put_time m.system req).1
          (record {
            sound = sound.engine_sound;
            agrees = record {
              worker_runs = u.engine_is.agrees.worker_runs;
              loop_goes_on = u.engine_is.agrees.loop_goes_on;
            };
            runs = u.engine_is.runs;
            period = u.engine_is.period;
            count = u.engine_is.count;
          })
          sound.logger_valid u.logger_made u

    happen-Up :
        (m : State) (event : Event libs) → Up t w e m → Returns (Up t w e) (happen libs m event)
    unfolding happen
    happen-Up m scans u = elim (Bool-cases (goes_on controller m.system.engine)) [
      | inl g ↦ rw g (
          then-Returns _ _ (cycle-EngineIs g u.engine_is)
            λ engine s. (_, refl, with_engine-Up m engine s u))
      | inr g ↦ rw g (m, refl, u)
    ]
    happen-Up m (flushes disk) u =
        if_either (Returns (Up t w e)) m.logging
          (flush_logger-Up disk m m.system.logger u.logger_valid u) (m, refl, u)
    happen-Up m (accepts client) u = (
      _,
      refl,
      record {
        engine_is = u.engine_is;
        logger_valid = u.logger_valid;
        logger_made = u.logger_made;
        logging_on = u.logging_on;
        web_is = u.web_is;
        telemetry_is = accept_round-TelemetryIs sock t m.telemetry client u.telemetry_is;
      },
    )
    happen-Up m (serves i) u =
        then-Returns _ _
          (serve_client-TelemetryIs m.system.engine.memory_map t m.telemetry i
            u.engine_is.sound.map_valid u.telemetry_is)
          λ telemetry c. (
            _,
            refl,
            record {
              engine_is = u.engine_is;
              logger_valid = u.logger_valid;
              logger_made = u.logger_made;
              logging_on = u.logging_on;
              web_is = u.web_is;
              telemetry_is = c;
            },
          )
    happen-Up m (deploys req times) u =
        if_either (Returns (Up t w e)) m.web.is_running
          (serve_deploy-Up m m.system.engine.cycle_callback req times refl u) (m, refl, u)
    happen-Up m (asks_history req) u =
        if_either (Returns (Up t w e)) m.web.is_running (serve_history-Up m m.system.archive req u)
          (m, refl, u)
    happen-Up m (inputs req) u =
        if_either (Returns (Up t w e)) m.web.is_running (_, refl, request_input-Up m req u)
          (m, refl, u)

    pub happen_all-Up :
        (m : State) (events : List (Event libs))
        → Up t w e m
        → Returns (Up t w e) (happen_all libs m events)
    unfolding happen_all
    happen_all-Up m [] u = (m, refl, u)
    happen_all-Up m (event ∷ events) u =
        then-Returns _ _ (happen-Up m event u) λ m' u'. happen_all-Up m' events u'

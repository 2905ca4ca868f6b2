-- ===== src/Telemetry/Server.antt =====
-- The server itself: `start`, `stop` and `accept_loop`.
use openaslc.Base.{ℕ, Bool, true, false, List, [], ◌∷◌, ◌++◌, Option, none, some, if◌then◌else◌}
use openaslc.Telemetry.{Socket}
use openaslc.Telemetry.Loop.{ClientThread}
use openaslc.Telemetry.Handshake.{greet}

-- What `start` gets from the system: an error of `socket`, of `bind` or of `listen`, or a socket that
-- listens, by its handle.
pub data Opened : Type 0 where
  no_socket : Opened
  bind_failed : Opened
  listen_failed : Opened
  listening : ℕ → Opened

module _ (sock : Socket) where
  open sock use {State}

  -- `listen_socket_`, `is_running_`, `accept_thread_` and, `client_threads_`.
  pub record TelemetryServer : Type 0 where
    pub listen_socket : Option ℕ
    pub is_running : Bool
    pub accept_thread : Bool
    pub client_threads : List (ClientThread sock)

  unfoldable pub create : TelemetryServer
  create = record {
    listen_socket = none;
    is_running = false;
    accept_thread = false;
    client_threads = [];
  }

  unfoldable pub opened_server : TelemetryServer → Opened → TelemetryServer
  opened_server server no_socket = server
  opened_server server bind_failed = server
  opened_server server listen_failed = server
  opened_server server (listening handle) = record server {
    listen_socket = some handle;
    is_running = true;
    accept_thread = true;
  }

  unfoldable pub start : TelemetryServer → Opened → TelemetryServer
  start server opened = if server.is_running then server else opened_server server opened

  -- The threads have ended when `stop` returns: both join.
  unfoldable pub stop : TelemetryServer → TelemetryServer
  stop server =
      if server.is_running
      then record {
        listen_socket = none;
        is_running = false;
        accept_thread = false;
        client_threads = [];
      }
      else server

  abbrev new_client : State → ClientThread sock
  new_client s = record { socket = s; sequence = 0; looping = true }

  unfoldable pub add_client : TelemetryServer → Bool × State → TelemetryServer
  add_client server (true, s) = record server {
    client_threads = server.client_threads ++ (new_client s ∷ []);
  }
  add_client server (false, s) = server

  -- One round of `accept_loop`, with the client that `accept` gives, if there is one in time.
  unfoldable pub accept_round : TelemetryServer → Option State → TelemetryServer
  accept_round server none = server
  accept_round server (some client) =
      if server.is_running then add_client server (greet sock client) else server

  -- A server has a socket and an accept thread exactly while it runs, and clients only then.
  pub data IsConsistent : TelemetryServer → Type 0 where
    stopped : IsConsistent create
    running :
        (handle : ℕ) (clients : List (ClientThread sock))
        → IsConsistent (record {
          listen_socket = some handle;
          is_running = true;
          accept_thread = true;
          client_threads = clients;
        })

  -- What may happen to a server.
  pub data Event : Type 0 where
    starts : Opened → Event
    stops : Event
    accepts : Option State → Event

  unfoldable pub happen : TelemetryServer → Event → TelemetryServer
  happen server (starts opened) = start server opened
  happen server stops = stop server
  happen server (accepts client) = accept_round server client

  unfoldable pub happen_all : TelemetryServer → List Event → TelemetryServer
  happen_all server [] = server
  happen_all server (e ∷ events) = happen_all (happen server e) events

  add_client-IsConsistent :
      (handle : ℕ) (clients : List (ClientThread sock)) (greeted : Bool × State)
      → IsConsistent (
          add_client
            (record {
              listen_socket = some handle;
              is_running = true;
              accept_thread = true;
              client_threads = clients;
            })
            greeted)
  unfolding add_client
  add_client-IsConsistent handle clients (true, s) = running handle (clients ++ (new_client s ∷ []))
  add_client-IsConsistent handle clients (false, s) = running handle clients

  pub happen-IsConsistent :
      (server : TelemetryServer) (e : Event) → IsConsistent server → IsConsistent (happen server e)
  unfolding happen start stop accept_round opened_server create
  happen-IsConsistent _ (starts no_socket) stopped = stopped
  happen-IsConsistent _ (starts bind_failed) stopped = stopped
  happen-IsConsistent _ (starts listen_failed) stopped = stopped
  happen-IsConsistent _ (starts (listening handle)) stopped = running handle []
  happen-IsConsistent _ stops stopped = stopped
  happen-IsConsistent _ (accepts none) stopped = stopped
  happen-IsConsistent _ (accepts (some client)) stopped = stopped
  happen-IsConsistent _ (starts opened) (running handle clients) = running handle clients
  happen-IsConsistent _ stops (running handle clients) = stopped
  happen-IsConsistent _ (accepts none) (running handle clients) = running handle clients
  happen-IsConsistent _ (accepts (some client)) (running handle clients) =
      add_client-IsConsistent handle clients (greet sock client)

  after-IsConsistent :
      (server : TelemetryServer) (events : List Event)
      → IsConsistent server
      → IsConsistent (happen_all server events)
  unfolding happen_all
  after-IsConsistent server [] c = c
  after-IsConsistent server (e ∷ events) c =
      after-IsConsistent (happen server e) events (happen-IsConsistent server e c)

  -- Whatever happens to a new server, in whatever order, it has a socket and an accept thread exactly
  -- while it runs, and clients only then.
  pub happen_all-IsConsistent : (events : List Event) → IsConsistent (happen_all create events)
  happen_all-IsConsistent events = after-IsConsistent create events stopped

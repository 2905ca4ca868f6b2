-- ===== src/Web.antt =====
-- The web server: include/openaslc/web_server.hpp and src/web_server.cpp.
-- httplib is a third-party library: a handler is a function of the request, and what leaves it is a
-- response or an exception, which the library answers. Each handler is in a child; this file has
-- what they share, `start` and `stop`.
pub mod Deploy
pub mod History
pub mod Input
mod Examples
use openaslc.Base.{ℕ, Bool, true, false, List, [], ◌∷◌, ◌++◌, Option, none, some, if◌then◌else◌}
use openaslc.Base.Outcome.{Outcome, ok, ◌>>=◌}
use openaslc.Base.Text.{String, utf8}
use openaslc.Logic.Parse.Json.{JsonLibrary, JsonWriter}
use openaslc.Logic.Runtime.{Heap, LogicRuntime}
use openaslc.Archive.Rows.{CommitInfo}
use openaslc.Logger
use openaslc.Logger.{LogLevel, RingBuffer}

-- `param` is `none` for a parameter that the query does not have.
pub record Request : Type 0 where
  pub body : String
  pub param : String → Option String

-- The content type is application/json.
pub record Response : Type 0 where
  pub status : ℕ
  pub content : String

pub data Handled : Type 0 where
  responded : Response → Handled
  escaped : Handled

-- `req.get_param_value(key)`
unfoldable pub get_param_value : Request → String → String
get_param_value req key = elim (req.param key) [ none ↦ "" | some value ↦ value ]

-- What the handlers use, with the programs that the runtime's pointers lead to; `Db` is the archive's
-- database. `config_archive_` and `logger_` may be null.
pub record Services (Db : Type 0) : Type 0 where
  pub runtime : LogicRuntime
  pub heap : Heap
  pub archive : Option Db
  pub logger : Option RingBuffer

-- `if (logger_) logger_->log(level, message)` at `now` milliseconds since the epoch.
unfoldable pub log_if : Option RingBuffer → ℕ → LogLevel → String → Outcome (Option RingBuffer)
log_if none now level message = ok none
log_if (some r) now level message = do r' ← Logger.log r now level (utf8 message); ok (some r')

module _ (lib : JsonLibrary) (writer : JsonWriter lib) where
  open lib use {Json}
  open writer use {null_value, string_value, object_value, dump}

  unfoldable pub parent_to_json : Option String → Json
  parent_to_json none = null_value
  parent_to_json (some sha256) = string_value sha256

  unfoldable pub commit_to_json : CommitInfo → Json
  commit_to_json commit = object_value (
      ("sha256", string_value commit.sha256)
      ∷ (("parent_sha256", parent_to_json commit.parent_sha256)
          ∷ (("author", string_value commit.author)
              ∷ (("message", string_value commit.message)
                  ∷ (("created_at", string_value commit.created_at) ∷ [])))))

  -- `res.status = status; res.set_content(doc.dump(), ...)`
  unfoldable pub respond : ℕ → Json → Handled
  respond status doc = elim (dump doc) [
    | none ↦ escaped
    | some content ↦ responded (record { status = status; content = content })
  ]

  -- `{"error": what}`
  unfoldable pub error_json : String → Json
  error_json what = object_value (("error", string_value what) ∷ [])

pub data Route : Type 0 where
  get_root : Route
  post_deploy : Route
  get_history : Route
  post_input : Route

-- `server_` with the routes that are registered, `is_running_` and `server_thread_`.
pub record WebServer : Type 0 where
  pub server : Option (List Route)
  pub is_running : Bool
  pub server_thread : Bool

unfoldable pub create : WebServer
create = record { server = none; is_running = false; server_thread = false }

-- The handlers that are registered, with an archive and with a callback or without.
unfoldable pub routes : Bool → Bool → List Route
routes has_archive has_callback =
    get_root
    ∷ (post_deploy
        ∷ ((if has_archive then get_history ∷ [] else [])
            ++ (if has_callback then post_input ∷ [] else [])))

-- `wait_until_ready` has returned.
unfoldable pub start : Bool → Bool → WebServer → WebServer
start has_archive has_callback web = elim web.server [
  | some registered ↦ web
  | none ↦ record {
    server = some (routes has_archive has_callback);
    is_running = true;
    server_thread = true;
  }
]

-- The thread has ended when `join` returns.
unfoldable pub stop : WebServer → WebServer
stop web = elim web.server [
  | none ↦ web
  | some registered ↦ record { server = none; is_running = false; server_thread = false }
]

-- ===== src/Web/Deploy.antt =====
-- The handler of POST /api/deploy.
pub mod Ends
pub mod Archiving
pub mod Outcomes
pub mod Safe
use openaslc.Base.{
  ℕ, Bool, true, false, List, [], ◌∷◌, Option, none, some, inl, inr, if◌then◌else◌, get_elem?,
}
use openaslc.Base.Outcome.{Outcome, ok, undefined, ◌>>=◌}
use openaslc.Base.Text.{String, ◌<>◌, str_eq, to_string, prefix}
use openaslc.Logic.{rule_count}
use openaslc.Logic.Parse.{Parsed, parsed, logic_parse_error, json_exception, out_of_fuel}
use openaslc.Logic.Parse.Json.{JsonLibrary, JsonWriter}
use openaslc.Logic.Runtime.{Heap, LogicRuntime, reload_from_json}
use openaslc.Archive.Sql.{Sqlite}
use openaslc.Archive.Rows
use openaslc.Archive.Rows.{CommitInfo, Archived, archived, config_archive_error}
use openaslc.Archive.{commit_config, record_deployment}
use openaslc.Logger.{LogLevel, info, warn, error}
use openaslc.Web.{
  Request, Response, Handled, responded, escaped, Services, get_param_value, log_if, commit_to_json,
  respond, error_json,
}

-- When the clock is read: for the commit, for the deployment and for the log.
pub record Times : Type 0 where
  pub commit : ℕ
  pub deployment : ℕ
  pub log : ℕ

unfoldable pub author_of : Request → String
author_of req =
    let author = get_param_value req "author" in if str_eq author "" then "anonymous" else author

unfoldable pub rule_count_at : Heap → ℕ → ℕ
rule_count_at heap address = elim (get_elem? heap address) [
  | none ↦ 0
  | some program ↦ rule_count program
]

unfoldable pub commit_line : CommitInfo → String → ℕ → String
commit_line commit author n =
    "deploy: commit "
    <> (prefix 8 commit.sha256 <> (" by " <> (author <> (" (" <> (to_string n <> " rules)")))))

module _ (lib : JsonLibrary) (writer : JsonWriter lib) where
  open lib use {Json}
  open writer use {number_value, object_value}

  -- The answer to a deploy that was archived.
  unfoldable pub deployed_json : ℕ → CommitInfo → Json
  deployed_json n commit =
      object_value
        (("rule_count", number_value n) ∷ (("commit", commit_to_json lib writer commit) ∷ []))

module _ (lib : JsonLibrary) (writer : JsonWriter lib) (sq : Sqlite) (put_time : ℕ → String) where
  open lib use {Json}
  open writer use {number_value, object_value}

  abbrev State : Type 0
  State = Services sq.Db

  -- The end of a `catch` block: the response, and then the log, if there is one.
  unfoldable pub reject : State → ℕ → ℕ → String → LogLevel → String → Outcome (Handled × State)
  reject s now status what level line =
      elim (respond lib writer status (error_json lib writer what)) [
        | escaped ↦ ok (escaped, s)
        | responded res ↦ do
          logger' ← log_if s.logger now level line
          ok (responded res, record s { logger = logger' })
      ]

  unfoldable pub archive_failed : State → ℕ → String → Outcome (Handled × State)
  archive_failed s now what =
      reject s now 500 ("deploy succeeded but archiving failed: " <> what) error
        ("archive write failed: " <> what)

  -- After `record_deployment`, of a program of `n` rules.
  unfoldable pub answer_deployed :
      State → ℕ → String → ℕ → CommitInfo → Archived (Unit {0}) × sq.Db → Outcome (Handled × State)
  answer_deployed s now author n commit (archived _, db) = do
    logger' ← log_if s.logger now info (commit_line commit author n)
    ok (
      respond lib writer 200 (deployed_json lib writer n commit),
      record s { archive = some db; logger = logger' },
    )
  answer_deployed s now author n commit (config_archive_error what, db) =
      archive_failed (record s { archive = some db }) now what
  answer_deployed s now author n commit (Rows.json_exception, db) =
      ok (escaped, record s { archive = some db })
  answer_deployed s now author n commit (Rows.undefined, db) = undefined

  -- After `commit_config`.
  unfoldable pub answer_committed :
      State → Times → String → ℕ → Archived CommitInfo × sq.Db → Outcome (Handled × State)
  answer_committed s times author n (archived commit, db) =
      answer_deployed s times.log author n commit
        (record_deployment sq lib writer put_time db times.deployment commit.sha256)
  answer_committed s times author n (config_archive_error what, db) =
      archive_failed (record s { archive = some db }) times.log what
  answer_committed s times author n (Rows.json_exception, db) =
      ok (escaped, record s { archive = some db })
  answer_committed s times author n (Rows.undefined, db) = undefined

  -- After the swap, with the state's archive.
  unfoldable pub archive_deploy :
      State → Option sq.Db → Request → Times → Json → ℕ → Outcome (Handled × State)
  archive_deploy s none req times doc n =
      ok (respond lib writer 200 (object_value (("rule_count", number_value n) ∷ [])), s)
  archive_deploy s (some db) req times doc n =
      let author = author_of req in
      answer_committed s times author n (
        commit_config sq lib writer put_time db times.commit author (get_param_value req "message")
          doc)

  -- After `reload_from_json`, which gives the runtime and the programs as they are now.
  unfoldable pub answer_reload :
      State → Request → Times → Json → Parsed ℕ × LogicRuntime × Heap → Outcome (Handled × State)
  answer_reload s req times doc (parsed address, runtime, heap) =
      archive_deploy (record s { runtime = runtime; heap = heap }) s.archive req times doc
        (rule_count_at heap address)
  answer_reload s req times doc (logic_parse_error what, runtime, heap) =
      reject (record s { runtime = runtime; heap = heap }) times.log 400 what warn
        ("deploy rejected: " <> what)
  answer_reload s req times doc (json_exception, runtime, heap) =
      ok (escaped, record s { runtime = runtime; heap = heap })
  answer_reload s req times doc (out_of_fuel, runtime, heap) = undefined

  unfoldable pub handle_deploy : State → Request → Times → Outcome (Handled × State)
  handle_deploy s req times = elim (lib.parse req.body) [
    | inr what ↦
        reject s times.log 400 ("invalid JSON: " <> what) warn
          ("deploy rejected: invalid JSON: " <> what)
    | inl doc ↦ answer_reload s req times doc (reload_from_json lib s.runtime s.heap doc)
  ]

-- ===== src/Web/History.antt =====
-- The handler of GET /api/history.
pub mod Answers
use openaslc.Base.{ℕ, ◌≡◌, refl, sym, ap, subst, List, [], ◌∷◌, ◌++◌, Option, none, some, map}
use openaslc.Base.Outcome.{Outcome, ok, undefined}
use openaslc.Base.Int.{ℤ, pos}
use openaslc.Base.Text.{String}
use openaslc.Base.Stoi.{stoi}
use openaslc.Logic.Parse.Json.{JsonLibrary, JsonWriter}
use openaslc.Archive.Sql.{Sqlite}
use openaslc.Archive.Rows
use openaslc.Archive.Rows.{CommitInfo, Archived, archived, config_archive_error}
use openaslc.Archive.{get_commit_history}
use openaslc.Web.{Request, Handled, escaped, commit_to_json, respond}

-- `limit`: 50 where the query has none, and where `std::stoi` throws.
unfoldable pub limit_of : Request → ℤ
limit_of req = elim (req.param "limit") [
  | none ↦ pos 50
  | some given ↦ elim (stoi given) [ none ↦ pos 50 | some limit ↦ limit ]
]

module _ (lib : JsonLibrary) (writer : JsonWriter lib) where
  unfoldable pub history_json : List CommitInfo → lib.Json
  history_json commits =
      writer.object_value
        (("commits", writer.array_value (map (commit_to_json lib writer) commits)) ∷ [])

  unfoldable pub answer_history {ℓ} :
      {Db : Type ℓ} → Archived (List CommitInfo) × Db → Outcome (Handled × Db)
  answer_history (archived commits, db) = ok (respond lib writer 200 (history_json commits), db)
  answer_history (config_archive_error what, db) = ok (escaped, db)
  answer_history (Rows.json_exception, db) = ok (escaped, db)
  answer_history (Rows.undefined, db) = undefined

  unfoldable pub handle_history : (sq : Sqlite) → sq.Db → Request → Outcome (Handled × sq.Db)
  handle_history sq db req = answer_history (get_commit_history sq db (limit_of req))

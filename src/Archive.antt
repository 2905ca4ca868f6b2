-- ===== src/Archive.antt =====
-- The archive of deployed programs: include/openaslc/config_archive.hpp and src/config_archive.cpp.
-- Every method holds `mutex_` to its end, so it is one function on the database. SQLite is an
-- interface (Archive/Sql), as is the JSON library. The hash is in Digest.
pub mod Sql
pub mod Rows
pub mod Tables
pub mod Commit
pub mod Head
pub mod Chain
pub mod Readback
pub mod Memory
mod Examples
use openaslc.Base.{
  ℕ, zero, suc, ◌+◌, ◌/◌, ◌%◌, Bool, true, false, List, [], ◌∷◌, Option, none, some, inl, inr,
  get_elem?, if◌then◌else◌,
}
use openaslc.Base.Int.{ℤ}
use openaslc.Base.Text.{String, ◌<>◌, c_str, utf8, int_to_string}
use openaslc.Digest.Sha256.{sha256_hex}
use openaslc.Logger.{pad3}
use openaslc.Logic.Parse.Json.{JsonLibrary, JsonWriter}
use Sql.{
  text, integer, Reply, not_prepared, rows, Sqlite, Value, create_commits, create_snapshots,
  create_deployments, select_head, insert_commit, insert_snapshot, insert_deployment,
  select_history, select_snapshot, Row,
}
use Rows.{
  CommitInfo, Archived, archived, config_archive_error, json_exception, undefined, ◌>>=◌,
  column_text, bind_commit, head_of, read_commits,
}

-- `current_timestamp` at `now` milliseconds since the epoch; `put_time` is as in Logger.
unfoldable pub current_timestamp : (ℕ → String) → ℕ → String
current_timestamp put_time now = put_time (now / 1000) <> ("." <> (pad3 (now % 1000) <> "Z"))

-- The text whose hash is the id of a commit.
unfoldable pub commit_text : String → String → String → String → String
commit_text payload author message created_at =
    payload <> ("\n" <> (author <> ("\n" <> (message <> ("\n" <> created_at)))))

-- The end of `get_snapshot`.
unfoldable pub first_payload : (lib : JsonLibrary) → String → List Row → Archived lib.Json
first_payload lib commit_sha256 [] =
    config_archive_error ("no snapshot found for commit " <> commit_sha256)
first_payload lib commit_sha256 (row ∷ more) = do
  payload ← column_text row 0
  elim (lib.parse payload) [ inl doc ↦ archived doc | inr what ↦ json_exception ]

-- A call, and then another from the database that it leaves, unless it throws.
unfoldable pub and_then {ℓ κ σ} :
    {Db : Type ℓ} {A : Type κ} {B : Type σ}
    → Archived A × Db
    → (A → Db → Archived B × Db)
    → Archived B × Db
and_then (archived a, db) f = f a db
and_then (config_archive_error message, db) f = (config_archive_error message, db)
and_then (json_exception, db) f = (json_exception, db)
and_then (undefined, db) f = (undefined, db)

-- The end of a statement that inserts a row; `err` is what `sqlite3_errmsg` says, and `preparing` and
-- `inserting` begin the messages of the method's errors.
unfoldable pub insert_result : String → String → String → Reply → Archived (Unit {0})
insert_result preparing inserting err not_prepared = config_archive_error (preparing <> err)
insert_result preparing inserting err (rows [] true) = archived tt
insert_result preparing inserting err (rows _ _) = config_archive_error (inserting <> err)

-- The end of a query, which reads the rows that the steps give. An error of a step is not told from
-- the end of the rows.
unfoldable pub query_result {ℓ} :
    {A : Type ℓ} → String → String → (List Row → Archived A) → Reply → Archived A
query_result preparing err read not_prepared = config_archive_error (preparing <> err)
query_result preparing err read (rows got done) = read got

module _ (sq : Sqlite) where
  open sq use {Db, open_db, exec, run, errmsg}

  -- `execute`
  unfoldable pub execute : Db → String → Archived (Unit {0}) × Db
  execute db sql =
      let (failure, db') = exec db sql in
      elim failure [
        | none ↦ (archived tt, db')
        | some message ↦ elim message [
          | none ↦ (config_archive_error "sqlite error: unknown error", db')
          | some err ↦ (config_archive_error ("sqlite error: " <> err), db')
        ]
      ]

  unfoldable pub execute_all : Db → List String → Archived (Unit {0}) × Db
  execute_all db [] = (archived tt, db)
  execute_all db (sql ∷ more) = and_then (execute db sql) λ _ db'. execute_all db' more

  -- The constructor, with the directories made.
  unfoldable pub create : String → Archived Db
  create db_path =
      let (left, opened) = open_db db_path in
      elim left [
        | none ↦ config_archive_error "failed to open config archive database: unknown error"
        | some db ↦
            if opened
            then (let (r, db') =
                  execute_all db
                    (create_commits ∷ (create_snapshots ∷ (create_deployments ∷ []))) in
                r >>= λ _. archived db')
            else config_archive_error ("failed to open config archive database: " <> errmsg db)
      ]

  unfoldable pub insert : Db → String → List Value → String → String → Archived (Unit {0}) × Db
  insert db sql values preparing inserting =
      let (reply, db') = run db sql values in
      (insert_result preparing inserting (errmsg db') reply, db')

  unfoldable pub read_head : Db → Archived (Option String) × Db
  read_head db =
      let (reply, db') = run db select_head [] in
      (query_result "failed to prepare HEAD query: " (errmsg db') head_of reply, db')

  -- `commit_config` from the insertions on.
  unfoldable pub store_commit : Db → CommitInfo → String → Archived CommitInfo × Db
  store_commit db info payload_str =
      and_then
        (insert db insert_commit (bind_commit info) "failed to prepare commit insert: "
          "failed to insert commit: ")
        λ _ db₁.
          and_then
            (insert db₁ insert_snapshot (text (c_str info.sha256) ∷ (text (c_str payload_str) ∷ []))
              "failed to prepare snapshot insert: " "failed to insert snapshot: ")
            λ _ db₂. (archived info, db₂)

  module _ (lib : JsonLibrary) (writer : JsonWriter lib) (put_time : ℕ → String) where
    -- At `now` milliseconds since the epoch.
    unfoldable pub commit_config : Db → ℕ → String → String → lib.Json → Archived CommitInfo × Db
    commit_config db now author message payload = elim (writer.dump payload) [
      | none ↦ (json_exception, db)
      | some payload_str ↦
          let created_at = current_timestamp put_time now in
          and_then (read_head db) λ parent db₁.
            store_commit db₁
              (record {
                sha256 = sha256_hex (utf8 (commit_text payload_str author message created_at));
                parent_sha256 = parent;
                author = author;
                message = message;
                created_at = created_at;
              })
              payload_str
    ]

    unfoldable pub record_deployment : Db → ℕ → String → Archived (Unit {0}) × Db
    record_deployment db now commit_sha256 =
        insert db insert_deployment
          (text (c_str commit_sha256) ∷ (text (c_str (current_timestamp put_time now)) ∷ []))
          "failed to prepare deployment insert: " "failed to insert deployment: "

    unfoldable pub get_snapshot : Db → String → Archived lib.Json × Db
    get_snapshot db commit_sha256 =
        let (reply, db') = run db select_snapshot (text (c_str commit_sha256) ∷ []) in
        (
          query_result "failed to prepare snapshot query: " (errmsg db')
              (first_payload lib commit_sha256) reply,
          db',
        )

  unfoldable pub get_commit_history : Db → ℤ → Archived (List CommitInfo) × Db
  get_commit_history db limit =
      let (reply, db') = run db select_history (integer limit ∷ []) in
      (query_result "failed to prepare history query: " (errmsg db') read_commits reply, db')

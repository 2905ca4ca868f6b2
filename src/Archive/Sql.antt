-- ===== src/Archive/Sql.antt =====
-- What the code uses of SQLite, a third-party library, as an interface.
use openaslc.Base.{◌≡◌, Bool, true, false, List, [], ◌++◌, Option}
use openaslc.Base.Int.{ℤ}
use openaslc.Base.Text.{String}

-- A parameter of a statement, or a column of a row.
pub data Value : Type 0 where
  null : Value
  text : String → Value
  integer : ℤ → Value

abbrev pub Row : Type 0
Row = List Value

-- What a statement does: `sqlite3_prepare_v2` fails, or the steps give rows and then, after the last,
-- `SQLITE_DONE` (true) or an error (false).
pub data Reply : Type 0 where
  not_prepared : Reply
  rows : List Row → Bool → Reply

-- `open_db` is `sqlite3_open`, with the connection that it may leave, and whether all went well.
-- `exec` is `sqlite3_exec`, with the message of an error; `run` prepares a statement, binds its
-- parameters and steps through it.
pub record Sqlite : Type 1 where
  pub Db : Type 0
  pub open_db : String → Option Db × Bool
  pub exec : Db → String → Option (Option String) × Db
  pub run : Db → String → List Value → Reply × Db
  pub errmsg : Db → String

-- The statements of the archive.
abbrev pub create_commits : String
create_commits =
    "CREATE TABLE IF NOT EXISTS commits (\n        sha256        TEXT PRIMARY KEY,\n        parent_sha256 TEXT,\n        author        TEXT NOT NULL,\n        message       TEXT NOT NULL,\n        created_at    TEXT NOT NULL\n    );"

abbrev pub create_snapshots : String
create_snapshots =
    "CREATE TABLE IF NOT EXISTS snapshots (\n        commit_sha256 TEXT PRIMARY KEY REFERENCES commits(sha256),\n        payload       TEXT NOT NULL\n    );"

abbrev pub create_deployments : String
create_deployments =
    "CREATE TABLE IF NOT EXISTS deployments (\n        id            INTEGER PRIMARY KEY AUTOINCREMENT,\n        commit_sha256 TEXT NOT NULL REFERENCES commits(sha256),\n        deployed_at   TEXT NOT NULL,\n        status        TEXT NOT NULL\n    );"

abbrev pub select_head : String
select_head = "SELECT sha256 FROM commits ORDER BY rowid DESC LIMIT 1;"

abbrev pub insert_commit : String
insert_commit =
    "INSERT INTO commits (sha256, parent_sha256, author, message, created_at) VALUES (?,?,?,?,?);"

abbrev pub insert_snapshot : String
insert_snapshot = "INSERT INTO snapshots (commit_sha256, payload) VALUES (?,?);"

abbrev pub insert_deployment : String
insert_deployment =
    "INSERT INTO deployments (commit_sha256, deployed_at, status) VALUES (?, ?, 'active');"

abbrev pub select_history : String
select_history =
    "SELECT sha256, parent_sha256, author, message, created_at FROM commits ORDER BY rowid DESC LIMIT ?;"

abbrev pub select_snapshot : String
select_snapshot = "SELECT payload FROM snapshots WHERE commit_sha256 = ?;"

-- What the steps of a query show of the rows that it asks for.
pub data Answer (expected : List Row) : Reply → Type 0 where
  refused : Answer expected not_prepared
  complete : Answer expected (rows expected true)
  cut_off : (got left : List Row) → expected ≡ got ++ left → Answer expected (rows got false)

-- How an insertion ends: with the row stored, or with nothing changed.
pub data Insertion (stored unchanged : Type 0) : Reply → Type 0 where
  refused : unchanged → Insertion stored unchanged not_prepared
  failed : unchanged → Insertion stored unchanged (rows [] false)
  inserted : stored → Insertion stored unchanged (rows [] true)

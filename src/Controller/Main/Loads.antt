-- ===== src/Controller/Main/Loads.antt =====
-- What `main` loads: the archive and the two programs.
use openaslc.Base.{
  ◌≡◌, refl, ◌⊎◌, inl, inr, List, [], ◌∷◌, Option, none, some, Bool-cases, Option-cases, sum-cases,
}
use openaslc.Base.Int.{ℤ}
use openaslc.Base.Text.{String, ◌<>◌}
use openaslc.Logic.{LogicProgram}
use openaslc.Logic.Program.{ProgramWellFormed}
use openaslc.Logic.Parse.{parsed, logic_parse_error, from_file}
use openaslc.Logic.Parse.Json.{JsonLibrary}
use openaslc.Logic.Parse.Document.{well_formed}
use openaslc.Logic.Runtime.Safety.{from_json_cases}
use openaslc.Archive.Sql.{Sqlite, create_commits, create_snapshots, create_deployments}
use openaslc.Archive.Rows.{Archived, archived, config_archive_error}
use openaslc.Archive.{create, execute, execute_all, and_then}

-- An archive's call that gives a value, or throws a `ConfigArchiveError`.
pub data Ended {A : Type 0} : Archived A → Type 0 where
  gave : (a : A) → Ended (archived a)
  threw : (what : String) → Ended (config_archive_error what)

pub Ended-cases :
    {A : Type 0} (r : Archived A)
    → Ended r
    → ((a : A) × (r ≡ archived a)) ⊎ ((what : String) × (r ≡ config_archive_error what))
Ended-cases r (gave a) = inl (a, refl)
Ended-cases r (threw what) = inr (what, refl)

abbrev statements : List String
statements = create_commits ∷ (create_snapshots ∷ (create_deployments ∷ []))

module _ (sq : Sqlite) where
  execute-Ended : (db : sq.Db) (sql : String) → Ended (execute sq db sql).0
  unfolding execute
  execute-Ended db sql = elim (Option-cases (sq.exec db sql).0) [
    | inl e ↦ rw (e, execute) (gave tt)
    | inr (message, e) ↦ elim (Option-cases message) [
      | inl e' ↦ rw (e, execute, e') (threw _)
      | inr (err, e') ↦ rw (e, execute, e') (threw _)
    ]
  ]

  execute_all-Ended : (db : sq.Db) (sqls : List String) → Ended (execute_all sq db sqls).0
  unfolding execute_all and_then
  execute_all-Ended db [] = gave tt
  execute_all-Ended db (sql ∷ more) =
      elim (Ended-cases (execute sq db sql).0 (execute-Ended db sql)) [
        | inl (a, e) ↦ rw e (execute_all-Ended (execute sq db sql).1 more)
        | inr (what, e) ↦ rw e (threw what)
      ]

  pub create-Ended : (path : String) → Ended (create sq path)
  unfolding create
  create-Ended path = elim (Option-cases (sq.open_db path).0) [
    | inl e ↦ rw (e, create) (threw _)
    | inr (db, e) ↦ elim (Bool-cases (sq.open_db path).1) [
      | inr closed ↦ rw (e, create, closed) (threw _)
      | inl opened ↦ elim (Ended-cases _ (execute_all-Ended db statements)) [
        | inl (a, r) ↦ rw (e, create, opened) (rw r (gave _))
        | inr (what, r) ↦ rw (e, create, opened) (rw r (threw what))
      ]
    ]
  ]

module _ (lib : JsonLibrary) where
  -- A file of a program is loaded, or refused by a `LogicParseError`.
  pub from_file_cases :
      (path : String) (contents : Option String) (period : ℤ)
      → ((p : LogicProgram) × (from_file lib path contents period ≡ parsed p) × ProgramWellFormed p)
        ⊎ ((what : String) × (from_file lib path contents period ≡ logic_parse_error what))
  unfolding from_file
  from_file_cases path none period = inr (_, refl)
  from_file_cases path (some contents) period = elim (sum-cases (lib.parse contents)) [
    | inr (what, e) ↦ inr ("failed to parse " <> (path <> (": " <> what)), rw (e, from_file))
    | inl (doc, e) ↦ elim (from_json_cases lib doc period) [
      | inl (p, r, sound) ↦ inl (p, rw (e, from_file) r, well_formed lib period p sound)
      | inr (what, r) ↦ inr (what, rw (e, from_file) r)
    ]
  ]

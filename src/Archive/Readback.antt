-- ===== src/Archive/Readback.antt =====
-- What is read back from the archive is what was committed.
use openaslc.Base.{
  ℕ, ◌≡◌, refl, sym, ap, ap₂, ◌∙◌, subst, inl, Bool, false, List, [], ◌∷◌, ◌++◌, Option, none, some,
  map, if◌then◌else◌,
}
use openaslc.Base.Int.{ℤ}
use openaslc.Base.Text.{String, c_str, eq_refl}
use openaslc.Logic.Parse.Json.{JsonLibrary, JsonWriter}
use openaslc.Archive.Sql.{
  Value, text, integer, Row, Reply, not_prepared, rows, Sqlite, Answer, refused, complete, cut_off,
  select_snapshot, select_history,
}
use openaslc.Archive.Rows.{
  CommitInfo, Archived, archived, config_archive_error, column_text, column_optional, read_commit,
  read_commits,
}
use openaslc.Archive.Tables.{
  Contents, Tables, stored_info, row_of, value_of, c_str_option, payload_rows, limited,
}
use openaslc.Archive.Commit.{StoreEnds, stored, orphaned, unchanged}
use openaslc.Archive.Head.{CommitEnds, not_printed, no_head, tried, commit_config-CommitEnds}
use openaslc.Archive.{first_payload, query_result, commit_config, get_snapshot, get_commit_history}

-- How a query for one row ends: with the value; with an error, because it was not prepared; or with
-- one, because its first step failed.
pub data GivesOr {ℓ} {A : Type ℓ} (a : A) (reply : Reply) : Archived A → Type ℓ where
  gives : GivesOr a reply (archived a)
  unprepared : (what : String) → reply ≡ not_prepared → GivesOr a reply (config_archive_error what)
  failed : (what : String) → reply ≡ rows [] false → GivesOr a reply (config_archive_error what)

module _ (lib : JsonLibrary) (writer : JsonWriter lib) where
  module _ (t : String) (payload : lib.Json) (printed sha : String) where
    first_payload-row :
        lib.parse t ≡ inl payload
        → writer.dump payload ≡ some printed
        → (more : List Row)
        → first_payload lib sha ((text (c_str printed) ∷ []) ∷ more) ≡ archived payload
    unfolding first_payload column_text
    first_payload-row p d more =
        let clean = writer.c_str-dump payload printed d in
        rw (clean, clean, writer.parse-dump t payload printed p d) refl

    in_front :
        (what err : String) (more : List Row) (reply : Reply)
        → lib.parse t ≡ inl payload
        → writer.dump payload ≡ some printed
        → Answer ((text (c_str printed) ∷ []) ∷ more) reply
        → GivesOr payload reply (query_result what err (first_payload lib sha) reply)
    unfolding query_result first_payload
    in_front what err more _ p d refused = unprepared _ refl
    in_front what err more _ p d complete =
        subst (GivesOr payload _) (sym (first_payload-row p d more)) gives
    in_front what err more _ p d (cut_off [] left e) = failed _ refl
    in_front what err more _ p d (cut_off (row ∷ got) left e) =
        let same : row ≡ text (c_str printed) ∷ [] = cc in
        subst
          (λ (r : Row). GivesOr payload (rows (row ∷ got) false) (first_payload lib sha (r ∷ got)))
          (sym same)
          (subst (GivesOr payload (rows (row ∷ got) false)) (sym (first_payload-row p d got)) gives)

    -- The query for the snapshot that was stored last.
    found :
        (key what err : String) (older : List (String × String)) (reply : Reply)
        → lib.parse t ≡ inl payload
        → writer.dump payload ≡ some printed
        → Answer (payload_rows key ((key, c_str printed) ∷ older)) reply
        → GivesOr payload reply (query_result what err (first_payload lib sha) reply)
    found key what err older reply p d answer =
        in_front what err (payload_rows key older) reply p d (
          subst (λ (xs : List Row). Answer xs reply)
            (ap
              (λ (b : Bool).
                if b
                then (text (c_str printed) ∷ []) ∷ payload_rows key older
                else payload_rows key older)
              (eq_refl key))
            answer)

-- The tables after a commit that was made.
abbrev pub with_commit : Contents → CommitInfo → String → Contents
with_commit c info printed = record c {
  commits = stored_info info ∷ c.commits;
  snapshots = (c_str info.sha256, c_str printed) ∷ c.snapshots;
}

stored_contents :
    (c : Contents) (made info : CommitInfo) (printed : String) (r : Archived CommitInfo)
    (d : Contents)
    → StoreEnds c made printed r d
    → r ≡ archived info
    → d ≡ with_commit c info printed
stored_contents c made info printed _ _ (stored fresh) e =
    let same : made ≡ info = cc in ap (λ (x : CommitInfo). with_commit c x printed) same
stored_contents c made info printed _ _ (orphaned message fresh) e = absurd (cc)
stored_contents c made info printed _ _ (unchanged message) e = absurd (cc)

module _ (sq : Sqlite) (tables : Tables sq) (lib : JsonLibrary) (writer : JsonWriter lib)
    (put_time : ℕ → String) where
  pub committed :
      (c : Contents) (reply : Reply) (now : ℕ) (author message : String) (payload : lib.Json)
      (r : Archived CommitInfo) (d : Contents) (info : CommitInfo)
      → CommitEnds sq tables lib writer put_time c reply now author message payload r d
      → r ≡ archived info
      → (printed : String) × (writer.dump payload ≡ some printed) × (d ≡ with_commit c info printed)
  committed c reply now author message payload _ _ info (not_printed n) e = absurd (cc)
  committed c reply now author message payload _ _ info (no_head what u) e = absurd (cc)
  committed c reply now author message payload r d info (tried printed parent p _ s) e =
      (printed, p, stored_contents c _ info printed r d s e)

  -- The snapshot of a commit that was just made is the document that was committed, provided that it
  -- came from the JSON parser; an error comes only where the query is not prepared or its first step
  -- fails.
  pub get_snapshot-commit_config :
      (db db' : sq.Db) (now : ℕ) (author message t : String) (payload : lib.Json)
      (info : CommitInfo)
      → lib.parse t ≡ inl payload
      → commit_config sq lib writer put_time db now author message payload ≡ (archived info, db')
      → GivesOr payload
          (sq.run db' select_snapshot (text (c_str info.sha256) ∷ [])).0
          (get_snapshot sq lib writer put_time db' info.sha256).0
  unfolding get_snapshot
  get_snapshot-commit_config db db' now author message t payload info parsed e =
      let ends =
        commit_config-CommitEnds sq tables lib writer put_time db now author message payload in
      let (printed, dumped, in_tables) =
        committed _ _ now author message payload _ _ info ends
          (ap (λ (q : Archived CommitInfo × sq.Db). q.0) e) in
      let same_db = ap (λ (q : Archived CommitInfo × sq.Db). q.1) e in
      let (_, answer) = tables.selects_snapshot {db = db'} (c_str info.sha256) refl in
      found lib writer t payload printed info.sha256 (c_str info.sha256) _ _ _ _ parsed dumped (
        subst
          (λ (xs : List (String × String)).
            Answer (payload_rows (c_str info.sha256) xs)
              (sq.run db' select_snapshot (text (c_str info.sha256) ∷ [])).0)
          (ap (λ (x : sq.Db). (tables.contents x).snapshots) (sym same_db)
            ∙ ap (λ (c : Contents). c.snapshots) in_tables)
          answer)

column_optional-value_of :
    (first : Value) (p : Option String) (rest : Row)
    → column_optional (first ∷ (value_of p ∷ rest)) 1 ≡ archived (c_str_option p)
unfolding column_optional
column_optional-value_of first none rest = refl
column_optional-value_of first (some s) rest = refl

read_commit-row_of : (info : CommitInfo) → read_commit (row_of info) ≡ archived (stored_info info)
unfolding read_commit column_text
read_commit-row_of info =
    rw
      (column_optional-value_of (text info.sha256) info.parent_sha256
        (text info.author ∷ (text info.message ∷ (text info.created_at ∷ []))))
      refl

read_commits-row_of :
    (infos : List CommitInfo) → read_commits (map row_of infos) ≡ archived (map stored_info infos)
unfolding read_commits
read_commits-row_of [] = refl
read_commits-row_of (info ∷ infos) = rw (read_commit-row_of info, read_commits-row_of infos) refl

-- What a query for commits shows, as commits.
split_rows :
    (infos : List CommitInfo) (got left : List Row)
    → map row_of infos ≡ got ++ left
    → (shown : List CommitInfo) × (hidden : List CommitInfo) × (infos ≡ shown ++ hidden)
      × (got ≡ map row_of shown)
split_rows infos [] left e = ([], infos, refl, refl)
split_rows [] (row ∷ got) left e = absurd (cc)
split_rows (info ∷ infos) (row ∷ got) left e =
    let same : row ≡ row_of info = cc in
    let rest : map row_of infos ≡ got ++ left = cc in
    let (shown, hidden, whole, read) = split_rows infos got left rest in
    (info ∷ shown, hidden, ap (◌∷◌ info) whole, ap₂ ◌∷◌ same read)

-- How `get_commit_history` ends: with an error; or with the commits asked for, newest first, as far
-- as the steps of the query went without an error.
pub data HistoryEnds (asked : List CommitInfo) (reply : Reply)
    : Archived (List CommitInfo) → Type 0 where
  all_shown : HistoryEnds asked reply (archived (map stored_info asked))
  some_shown :
      (shown hidden : List CommitInfo)
      → asked ≡ shown ++ hidden
      → reply ≡ rows (map row_of shown) false
      → HistoryEnds asked reply (archived (map stored_info shown))
  not_shown :
      (what : String) → reply ≡ not_prepared → HistoryEnds asked reply (config_archive_error what)

query-HistoryEnds :
    (asked : List CommitInfo) (what err : String) (reply : Reply)
    → Answer (map row_of asked) reply
    → HistoryEnds asked reply (query_result what err read_commits reply)
unfolding query_result
query-HistoryEnds asked what err _ refused = not_shown _ refl
query-HistoryEnds asked what err _ complete =
    subst (HistoryEnds asked _) (sym (read_commits-row_of asked)) all_shown
query-HistoryEnds asked what err _ (cut_off got left e) =
    let (shown, hidden, whole, read) = split_rows asked got left e in
    subst (λ (g : List Row). HistoryEnds asked (rows g false) (read_commits g)) (sym read)
      (subst (HistoryEnds asked _) (sym (read_commits-row_of shown))
        (some_shown shown hidden whole refl))

-- `get_commit_history` gives the newest commits, newest first and not more than the limit, as they
-- are stored; where a step of the query fails, the commits before that step, without an error.
pub get_commit_history_lem :
    (sq : Sqlite) (tables : Tables sq) (db : sq.Db) (limit : ℤ)
    → let r = get_commit_history sq db limit in
      HistoryEnds
        (limited limit (tables.contents db).commits)
        (sq.run db select_history (integer limit ∷ [])).0
        r.0
      × (tables.contents r.1 ≡ tables.contents db)
unfolding get_commit_history
get_commit_history_lem sq tables db limit =
    let (same, answer) = tables.selects_history {db = db} limit refl in
    (query-HistoryEnds (limited limit (tables.contents db).commits) _ _ _ answer, same)

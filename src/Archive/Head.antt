-- ===== src/Archive/Head.antt =====
-- The parent of a commit, and `commit_config` as a whole.
use openaslc.Base.{
  ℕ, ◌≡◌, refl, sym, subst, ◌⊎◌, inl, inr, false, List, [], ◌∷◌, ◌++◌, Option, none, some,
  Option-cases,
}
use openaslc.Base.Text.{String, utf8}
use openaslc.Digest.Sha256.{sha256_hex}
use openaslc.Logic.Parse.Json.{JsonLibrary, JsonWriter}
use openaslc.Archive.Sql.{
  text, Row, Reply, not_prepared, rows, Sqlite, Answer, refused, complete, cut_off, select_head,
}
use openaslc.Archive.Rows.{
  CommitInfo, Archived, archived, config_archive_error, json_exception, head_of, column_text,
}
use openaslc.Archive.Tables.{Contents, Tables, head_rows}
use openaslc.Archive.Commit.{newest, StoreEnds, store_commit-StoreEnds}
use openaslc.Archive.{
  current_timestamp, commit_text, and_then, query_result, read_head, store_commit, commit_config,
}

-- How the query for HEAD ends: with the newest commit's id; with none, because the first step failed;
-- or with an error, because the query was not prepared.
pub data HeadEnds (commits : List CommitInfo) (reply : Reply)
    : Archived (Option String) → Type 0 where
  known : HeadEnds commits reply (archived (newest commits))
  lost : reply ≡ rows [] false → HeadEnds commits reply (archived none)
  no_answer :
      (message : String)
      → reply ≡ not_prepared
      → HeadEnds commits reply (config_archive_error message)

head_of-head_rows :
    (commits : List CommitInfo) → head_of (head_rows commits) ≡ archived (newest commits)
unfolding head_of column_text
head_of-head_rows [] = refl
head_of-head_rows (info ∷ older) = refl

head_of-row :
    (commits : List CommitInfo) (row : Row) (more left : List Row)
    → head_rows commits ≡ (row ∷ more) ++ left
    → head_of (row ∷ more) ≡ archived (newest commits)
unfolding head_of
head_of-row [] row more left e = absurd (cc)
head_of-row (info ∷ older) row more left e =
    let same : row ≡ text info.sha256 ∷ [] = cc in rw same (head_of-head_rows (info ∷ older))

query-HeadEnds :
    (commits : List CommitInfo) (preparing err : String) (reply : Reply)
    → Answer (head_rows commits) reply
    → HeadEnds commits reply (query_result preparing err head_of reply)
unfolding query_result head_of
query-HeadEnds commits preparing err _ refused = no_answer _ refl
query-HeadEnds commits preparing err _ complete =
    subst (HeadEnds commits _) (sym (head_of-head_rows commits)) known
query-HeadEnds commits preparing err _ (cut_off [] left e) = lost refl
query-HeadEnds commits preparing err _ (cut_off (row ∷ more) left e) =
    subst (HeadEnds commits _) (sym (head_of-row commits row more left e)) known

module _ (sq : Sqlite) (tables : Tables sq) where
  read_head-HeadEnds :
      (db : sq.Db)
      → let r = read_head sq db in
        HeadEnds (tables.contents db).commits (sq.run db select_head []).0 r.0
        × (tables.contents r.1 ≡ tables.contents db)
  unfolding read_head
  read_head-HeadEnds db =
      let (same, answer) = tables.selects_head {db = db} refl in
      (query-HeadEnds (tables.contents db).commits _ _ _ answer, same)

  module _ (lib : JsonLibrary) (writer : JsonWriter lib) (put_time : ℕ → String) where
    -- The commit that is made of the arguments, on a parent.
    abbrev pub commit_of : ℕ → String → String → String → Option String → CommitInfo
    commit_of now author message payload parent =
        let created_at = current_timestamp put_time now in
        record {
          sha256 = sha256_hex (utf8 (commit_text payload author message created_at));
          parent_sha256 = parent;
          author = author;
          message = message;
          created_at = created_at;
        }

    -- How `commit_config` ends on tables `c`, and the tables afterwards; `reply` is what the query for
    -- HEAD says.
    pub data CommitEnds (c : Contents) (reply : Reply) (now : ℕ) (author message : String)
        (payload : lib.Json) : Archived CommitInfo → Contents → Type 0 where
      -- the payload cannot be printed
      not_printed :
          writer.dump payload ≡ none
          → CommitEnds c reply now author message payload json_exception c
      -- the query for HEAD is not prepared
      no_head :
          (what : String)
          → reply ≡ not_prepared
          → CommitEnds c reply now author message payload (config_archive_error what) c
      -- the commit goes on the newest, or, where the first step of the query fails, on none
      tried :
          (printed : String) (parent : Option String) {r : Archived CommitInfo} {d : Contents}
          → writer.dump payload ≡ some printed
          → (parent ≡ newest c.commits) ⊎ ((reply ≡ rows [] false) × (parent ≡ none))
          → StoreEnds c (commit_of now author message printed parent) printed r d
          → CommitEnds c reply now author message payload r d

    module _ (db : sq.Db) (now : ℕ) (author message : String) (payload : lib.Json) where
      reply : Reply
      reply = (sq.run db select_head []).0

      Ends : Archived CommitInfo × sq.Db → Type 0
      Ends r =
          CommitEnds (tables.contents db) reply now author message payload r.0 (tables.contents r.1)

      on_parent :
          (db₁ : sq.Db) (printed : String) (parent : Option String)
          → writer.dump payload ≡ some printed
          → tables.contents db₁ ≡ tables.contents db
          → (parent ≡ newest (tables.contents db).commits)
            ⊎ ((reply ≡ rows [] false) × (parent ≡ none))
          → Ends (store_commit sq db₁ (commit_of now author message printed parent) printed)
      unfolding Ends
      on_parent db₁ printed parent e same p = tried printed parent e p (
          subst
            (λ (c : Contents).
              let q = store_commit sq db₁ (commit_of now author message printed parent) printed in
              StoreEnds c (commit_of now author message printed parent) printed q.0
                (tables.contents q.1))
            same (store_commit-StoreEnds sq tables _ _ db₁))

      after_head :
          (db₁ : sq.Db) (printed : String) (r : Archived (Option String))
          → writer.dump payload ≡ some printed
          → tables.contents db₁ ≡ tables.contents db
          → HeadEnds (tables.contents db).commits reply r
          → Ends (
              and_then
                (r, db₁)
                λ parent db₂.
                  store_commit sq db₂ (commit_of now author message printed parent) printed)
      unfolding Ends and_then
      after_head db₁ printed _ e same known = on_parent db₁ printed _ e same (inl refl)
      after_head db₁ printed _ e same (lost failed) =
          on_parent db₁ printed none e same (inr (failed, refl))
      after_head db₁ printed _ e same (no_answer what unprepared) =
          subst
            (λ (c : Contents).
              CommitEnds (tables.contents db) reply now author message payload
                (config_archive_error what) c)
            (sym same) (no_head what unprepared)

      pub commit_config-CommitEnds :
          let r = commit_config sq lib writer put_time db now author message payload in
          CommitEnds
            (tables.contents db)
            (sq.run db select_head []).0
            now
            author
            message
            payload
            r.0
            (tables.contents r.1)
      unfolding commit_config Ends reply
      commit_config-CommitEnds = elim (Option-cases (writer.dump payload)) [
        | inl e ↦ rw (e, commit_config) (not_printed e)
        | inr (printed, e) ↦
            let (head, same) = read_head-HeadEnds db in
            rw (e, commit_config) (after_head _ printed _ e same head)
      ]

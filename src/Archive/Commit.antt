-- ===== src/Archive/Commit.antt =====
-- How `commit_config` ends, and what it leaves in the tables.
use openaslc.Base.{
  ℕ, ◌≡◌, refl, sym, ap, ◌∙◌, subst, true, false, List, [], ◌∷◌, Option, none, some,
}
use openaslc.Base.Text.{String, c_str}
use openaslc.Logic.Parse.Json.{JsonLibrary, JsonWriter}
use openaslc.Archive.Sql.{
  text, Row, Reply, not_prepared, rows, Sqlite, refused, Insertion, failed, inserted, insert_commit,
  insert_snapshot,
}
use openaslc.Archive.Rows.{CommitInfo, Archived, archived, config_archive_error, bind_commit}
use openaslc.Archive.Tables.{Contents, Tables, stored_info, bind_commit-row_of, NoCommit}
use openaslc.Archive.{
  current_timestamp, and_then, insert, insert_result, store_commit, record_deployment,
}

-- An insertion as its caller sees it.
pub data Put (stored unchanged : Type 0) : Archived (Unit {0}) → Type 0 where
  put : stored → Put stored unchanged (archived tt)
  not_put : (message : String) → unchanged → Put stored unchanged (config_archive_error message)

-- The parent of a commit on these: the newest, if there is one.
abbrev pub newest : List CommitInfo → Option String
newest [] = none
newest (info ∷ older) = some (c_str info.sha256)

insert_result-Put :
    {stored unchanged : Type 0} (preparing inserting err : String) (reply : Reply)
    → Insertion stored unchanged reply
    → Put stored unchanged (insert_result preparing inserting err reply)
unfolding insert_result
insert_result-Put preparing inserting err not_prepared (refused u) = not_put _ u
insert_result-Put preparing inserting err (rows [] false) (failed u) = not_put _ u
insert_result-Put preparing inserting err (rows [] true) (inserted s) = put s
insert_result-Put preparing inserting err (rows (_ ∷ _) _) i = elim i [ ]

-- The two insertions of `commit_config` for one commit.
pub data StoreEnds (c : Contents) (info : CommitInfo) (payload : String)
    : Archived CommitInfo → Contents → Type 0 where
  stored :
      NoCommit (c_str info.sha256) c.commits
      → StoreEnds c info payload (archived info) (record c {
        commits = stored_info info ∷ c.commits;
        snapshots = (c_str info.sha256, c_str payload) ∷ c.snapshots;
      })
  orphaned :
      (message : String)
      → NoCommit (c_str info.sha256) c.commits
      → StoreEnds c info payload
          (config_archive_error message)
          (record c { commits = stored_info info ∷ c.commits })
  unchanged : (message : String) → StoreEnds c info payload (config_archive_error message) c

module _ (sq : Sqlite) (tables : Tables sq) where
  commit-Put :
      (db : sq.Db) (info : CommitInfo) (preparing inserting : String)
      → let r = insert sq db insert_commit (bind_commit info) preparing inserting in
        Put
          (NoCommit (c_str info.sha256) (tables.contents db).commits
            × (tables.contents r.1 ≡ record (tables.contents db) {
              commits = stored_info info ∷ (tables.contents db).commits;
            }))
          (tables.contents r.1 ≡ tables.contents db)
          r.0
  unfolding insert
  commit-Put db info preparing inserting = insert_result-Put preparing inserting _ _ (
      tables.inserts_commit (stored_info info)
        (ap (λ (row : Row). sq.run db insert_commit row) (sym (bind_commit-row_of info)) ∙ refl))

  snapshot-Put :
      (db : sq.Db) (sha payload preparing inserting : String)
      → let r =
          insert sq db insert_snapshot
            (text (c_str sha) ∷ (text (c_str payload) ∷ []))
            preparing
            inserting in
        Put
          (tables.contents r.1 ≡ record (tables.contents db) {
            snapshots = (c_str sha, c_str payload) ∷ (tables.contents db).snapshots;
          })
          (tables.contents r.1 ≡ tables.contents db)
          r.0
  unfolding insert
  snapshot-Put db sha payload preparing inserting =
      insert_result-Put preparing inserting _ _
        (tables.inserts_snapshot (c_str sha) (c_str payload) refl)

  module _ (info : CommitInfo) (payload : String) where
    StoreEnds_at :
        {c d e : Contents} (r : Archived CommitInfo)
        → StoreEnds c info payload r d
        → e ≡ d
        → StoreEnds c info payload r e
    StoreEnds_at {c} r s same = subst (StoreEnds c info payload r) (sym same) s

    after_both :
        (db db₁ db₂ : sq.Db) (r : Archived (Unit {0}))
        → NoCommit (c_str info.sha256) (tables.contents db).commits
        → tables.contents db₁ ≡ record (tables.contents db) {
          commits = stored_info info ∷ (tables.contents db).commits;
        }
        → Put
            (tables.contents db₂ ≡ record (tables.contents db₁) {
              snapshots = (c_str info.sha256, c_str payload) ∷ (tables.contents db₁).snapshots;
            })
            (tables.contents db₂ ≡ tables.contents db₁)
            r
        → let q = and_then (r, db₂) (λ _ db₃. (archived info, db₃)) in
          StoreEnds (tables.contents db) info payload q.0 (tables.contents q.1)
    unfolding and_then
    after_both db db₁ db₂ _ fresh e (put s) = StoreEnds_at _ (stored fresh) (
        s
        ∙ ap
            (λ (c : Contents). record c {
              snapshots = (c_str info.sha256, c_str payload) ∷ c.snapshots;
            })
            e)
    after_both db db₁ db₂ _ fresh e (not_put message u) =
        StoreEnds_at _ (orphaned message fresh) (u ∙ e)

    after_commit :
        (db db₁ : sq.Db) (r : Archived (Unit {0}))
        → Put
            (NoCommit (c_str info.sha256) (tables.contents db).commits
              × (tables.contents db₁ ≡ record (tables.contents db) {
                commits = stored_info info ∷ (tables.contents db).commits;
              }))
            (tables.contents db₁ ≡ tables.contents db)
            r
        → let q =
            and_then
              (r, db₁)
              λ _ db₂.
                and_then
                  (insert sq db₂ insert_snapshot
                    (text (c_str info.sha256) ∷ (text (c_str payload) ∷ []))
                    "failed to prepare snapshot insert: "
                    "failed to insert snapshot: ")
                  λ _ db₃. (archived info, db₃) in
          StoreEnds (tables.contents db) info payload q.0 (tables.contents q.1)
    unfolding and_then
    after_commit db db₁ _ (put (fresh, e)) =
        after_both db db₁ _ _ fresh e (snapshot-Put db₁ info.sha256 payload _ _)
    after_commit db db₁ _ (not_put message u) = StoreEnds_at _ (unchanged message) u

    pub store_commit-StoreEnds :
        (db : sq.Db)
        → let q = store_commit sq db info payload in
          StoreEnds (tables.contents db) info payload q.0 (tables.contents q.1)
    unfolding store_commit
    store_commit-StoreEnds db = after_commit db _ _ (commit-Put db info _ _)

  -- `record_deployment` stores its row in front of the deployments, or throws and changes nothing.
  pub record_deployment-Put :
      (lib : JsonLibrary) (writer : JsonWriter lib) (put_time : ℕ → String) (db : sq.Db) (now : ℕ)
      (sha : String)
      → let r = record_deployment sq lib writer put_time db now sha in
        Put
          (tables.contents r.1 ≡ record (tables.contents db) {
            deployments =
                (c_str sha, c_str (current_timestamp put_time now))
                ∷ (tables.contents db).deployments;
          })
          (tables.contents r.1 ≡ tables.contents db)
          r.0
  unfolding record_deployment insert
  record_deployment-Put lib writer put_time db now sha =
      insert_result-Put _ _ _ _ (tables.inserts_deployment (c_str sha) _ refl)

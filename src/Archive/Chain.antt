-- ===== src/Archive/Chain.antt =====
-- The commits form one line, whatever fails.
use openaslc.Base.{
  ℕ, ◌≡◌, ◌≢◌, refl, sym, ap, subst, ◌⊎◌, inl, inr, false, List, [], ◌∷◌, Option, none, All,
}
use openaslc.Base.Int.{ℤ}
use openaslc.Base.Text.{String, c_str, c_str-c_str}
use openaslc.Logic.Parse.Json.{JsonLibrary, JsonWriter}
use openaslc.Archive.Sql.{Reply, rows, Sqlite, select_head, Insertion, refused, failed, inserted}
use openaslc.Archive.Rows.{CommitInfo, Archived}
use openaslc.Archive.Tables.{Contents, empty, Tables, stored_info, c_str_option, NoCommit}
use openaslc.Archive.Commit.{newest, StoreEnds, stored, orphaned, unchanged}
use openaslc.Archive.Head.{CommitEnds, not_printed, no_head, tried, commit_config-CommitEnds}
use openaslc.Archive.{
  current_timestamp, insert, commit_config, record_deployment, get_snapshot, get_commit_history,
}

-- Every commit has an id of its own, and its parent is the commit just before it, or none.
abbrev pub IsLine : List CommitInfo → Type 0
IsLine [] = Unit
IsLine (info ∷ older) =
    (NoCommit info.sha256 older
      × ((info.parent_sha256 ≡ newest older) ⊎ (info.parent_sha256 ≡ none)))
    × IsLine older

-- The same, and only the first commit has no parent.
abbrev pub IsChain : List CommitInfo → Type 0
IsChain [] = Unit
IsChain (info ∷ older) = (info.parent_sha256 ≡ newest older) × IsChain older

-- Some commit has this id.
pub data HasCommit (sha : String) : List CommitInfo → Type 0 where
  at_front :
      {info : CommitInfo} {older : List CommitInfo}
      → info.sha256 ≡ sha
      → HasCommit sha (info ∷ older)
  further_back :
      {info : CommitInfo} {older : List CommitInfo}
      → HasCommit sha older
      → HasCommit sha (info ∷ older)

-- A line of commits, and a snapshot only of a commit.
pub record IsHistory (c : Contents) : Type 0 where
  pub line : IsLine c.commits
  pub snapshots_known : All (λ (s : String × String). HasCommit s.0 c.commits) c.snapshots

All-HasCommit :
    (info : CommitInfo) (older : List CommitInfo) (xs : List (String × String))
    → All (λ (s : String × String). HasCommit s.0 older) xs
    → All (λ (s : String × String). HasCommit s.0 (info ∷ older)) xs
All-HasCommit info older [] h = tt
All-HasCommit info older (x ∷ xs) h = (further_back h.0, All-HasCommit info older xs h.1)

-- What is stored of a parent is what was read, since the ids that are read hold no NUL.
newest_kept :
    (older : List CommitInfo) (parent : Option String)
    → parent ≡ newest older
    → c_str_option parent ≡ newest older
newest_kept [] parent e = rw e refl
newest_kept (first ∷ older) parent e = rw (e, c_str-c_str first.sha256) refl

parent_kept :
    (older : List CommitInfo) (parent : Option String) {Other : Type 0}
    → (parent ≡ newest older) ⊎ (Other × (parent ≡ none))
    → (c_str_option parent ≡ newest older) ⊎ (c_str_option parent ≡ none)
parent_kept older parent (inl e) = inl (newest_kept older parent e)
parent_kept older parent (inr (_, e)) = inr (rw e refl)

StoreEnds-IsHistory :
    (c : Contents) (info : CommitInfo) (payload : String) (r : Archived CommitInfo) (d : Contents)
    → ((stored_info info).parent_sha256 ≡ newest c.commits)
      ⊎ ((stored_info info).parent_sha256 ≡ none)
    → StoreEnds c info payload r d
    → IsHistory c
    → IsHistory d
StoreEnds-IsHistory c info payload _ _ p (stored fresh) h = record {
  line = ((fresh, p), h.line);
  snapshots_known = (at_front refl, All-HasCommit _ c.commits c.snapshots h.snapshots_known);
}
StoreEnds-IsHistory c info payload _ _ p (orphaned message fresh) h = record {
  line = ((fresh, p), h.line);
  snapshots_known = All-HasCommit _ c.commits c.snapshots h.snapshots_known;
}
StoreEnds-IsHistory c info payload _ _ p (unchanged message) h = h

StoreEnds-IsChain :
    (c : Contents) (info : CommitInfo) (payload : String) (r : Archived CommitInfo) (d : Contents)
    → (stored_info info).parent_sha256 ≡ newest c.commits
    → StoreEnds c info payload r d
    → IsChain c.commits
    → IsChain d.commits
StoreEnds-IsChain c info payload _ _ p (stored fresh) h = (p, h)
StoreEnds-IsChain c info payload _ _ p (orphaned message fresh) h = (p, h)
StoreEnds-IsChain c info payload _ _ p (unchanged message) h = h

kept :
    {c d : Contents} {more : List (String × String)} (reply : Reply)
    → Insertion (d ≡ record c { deployments = more }) (d ≡ c) reply
    → (d.commits ≡ c.commits) × (d.snapshots ≡ c.snapshots)
kept _ (refused u) = (ap (λ (x : Contents). x.commits) u, ap (λ (x : Contents). x.snapshots) u)
kept _ (failed u) = (ap (λ (x : Contents). x.commits) u, ap (λ (x : Contents). x.snapshots) u)
kept _ (inserted s) = (ap (λ (x : Contents). x.commits) s, ap (λ (x : Contents). x.snapshots) s)

module _ (sq : Sqlite) (tables : Tables sq) (lib : JsonLibrary) (writer : JsonWriter lib)
    (put_time : ℕ → String) where
  CommitEnds-IsHistory :
      (c : Contents) (reply : Reply) (now : ℕ) (author message : String) (payload : lib.Json)
      (r : Archived CommitInfo) (d : Contents)
      → CommitEnds sq tables lib writer put_time c reply now author message payload r d
      → IsHistory c
      → IsHistory d
  CommitEnds-IsHistory c reply now author message payload _ _ (not_printed e) h = h
  CommitEnds-IsHistory c reply now author message payload _ _ (no_head what _) h = h
  CommitEnds-IsHistory c reply now author message payload r d (tried printed parent e p s) h =
      StoreEnds-IsHistory c _ printed r d (parent_kept c.commits parent p) s h

  -- The calls on an archive.
  pub data Step : sq.Db → sq.Db → Type 0 where
    commits :
        (db : sq.Db) (now : ℕ) (author message : String) (payload : lib.Json)
        → Step db (commit_config sq lib writer put_time db now author message payload).1
    deploys :
        (db : sq.Db) (now : ℕ) (sha : String)
        → Step db (record_deployment sq lib writer put_time db now sha).1
    reads_snapshot :
        (db : sq.Db) (sha : String) → Step db (get_snapshot sq lib writer put_time db sha).1
    reads_history : (db : sq.Db) (limit : ℤ) → Step db (get_commit_history sq db limit).1

  pub data Reach (db : sq.Db) : sq.Db → Type 0 where
    here : Reach db db
    next : {u v : sq.Db} → Reach db u → Step u v → Reach db v

  deploys-contents :
      (db : sq.Db) (now : ℕ) (sha : String)
      → let after = tables.contents (record_deployment sq lib writer put_time db now sha).1 in
        (after.commits ≡ (tables.contents db).commits)
        × (after.snapshots ≡ (tables.contents db).snapshots)
  unfolding record_deployment insert
  deploys-contents db now sha = kept _ (
      tables.inserts_deployment {db = db} (c_str sha) (c_str (current_timestamp put_time now)) refl)

  Step-IsHistory :
      {u v : sq.Db} → Step u v → IsHistory (tables.contents u) → IsHistory (tables.contents v)
  unfolding get_snapshot get_commit_history
  Step-IsHistory (commits db now author message payload) h =
      CommitEnds-IsHistory _ _ now author message payload _ _
        (commit_config-CommitEnds sq tables lib writer put_time db now author message payload) h
  Step-IsHistory (deploys db now sha) h =
      let (same, same') = deploys-contents db now sha in
      record {
        line = subst IsLine (sym same) h.line;
        snapshots_known = rw (same, same') h.snapshots_known;
      }
  Step-IsHistory (reads_snapshot db sha) h =
      subst IsHistory (sym (tables.selects_snapshot {db = db} (c_str sha) refl).0) h
  Step-IsHistory (reads_history db limit) h =
      subst IsHistory (sym (tables.selects_history {db = db} limit refl).0) h

  -- Whatever calls are made on an archive that was empty, and whichever of its statements fail: every
  -- commit has an id of its own, its parent is the commit just before it or none, and every snapshot
  -- is one of a commit.
  pub Reach-IsHistory :
      {u v : sq.Db} → tables.contents u ≡ empty → Reach u v → IsHistory (tables.contents v)
  Reach-IsHistory e here = subst IsHistory (sym e) (record { line = tt; snapshots_known = tt })
  Reach-IsHistory e (next r st) = Step-IsHistory st (Reach-IsHistory e r)

  -- While the first step of the query for HEAD does not fail, `commit_config` keeps a chain: only the
  -- first commit has no parent, and every other has the one just before it.
  pub commit_config-IsChain :
      (db : sq.Db) (now : ℕ) (author message : String) (payload : lib.Json)
      → (sq.run db select_head []).0 ≢ rows [] false
      → IsChain (tables.contents db).commits
      → IsChain
          (tables.contents
            (commit_config sq lib writer put_time db now author message payload).1).commits
  commit_config-IsChain db now author message payload answered h =
      chained _ _ answered
        (commit_config-CommitEnds sq tables lib writer put_time db now author message payload) h
    where
      chained :
          (r : Archived CommitInfo) (d : Contents)
          → (sq.run db select_head []).0 ≢ rows [] false
          → CommitEnds sq tables lib writer put_time
              (tables.contents db)
              (sq.run db select_head []).0
              now
              author
              message
              payload
              r
              d
          → IsChain (tables.contents db).commits
          → IsChain d.commits
      chained _ _ n (not_printed e) k = k
      chained _ _ n (no_head what _) k = k
      chained r d n (tried printed parent e (inl p) s) k =
          StoreEnds-IsChain _ _ printed r d (newest_kept _ parent p) s k
      chained r d n (tried printed parent e (inr (lost, p)) s) k = absurd (n lost)

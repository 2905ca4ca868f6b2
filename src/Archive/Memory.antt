-- ===== src/Archive/Memory.antt =====
-- A small database in memory, for the tests: the tables themselves. Its statements never fail, but
-- for a second commit with the same primary key.
use openaslc.Base.{
  ◌≡◌, refl, sym, ap, subst, Bool, true, false, List, [], ◌∷◌, ◌||◌, Option, none, some, map,
  if◌then◌else◌, Bool-cases, inl, inr,
}
use openaslc.Base.Text.{String, str_eq}
use openaslc.Archive.Sql.{
  Value, null, text, integer, Row, Reply, rows, Sqlite, Answer, complete, Insertion, failed,
  inserted, select_head, insert_commit, insert_snapshot, insert_deployment, select_history,
  select_snapshot,
}
use openaslc.Archive.Rows.{CommitInfo}
use openaslc.Archive.Tables.{
  Contents, empty, value_of, row_of, head_rows, payload_rows, limited, NoCommit, Tables,
}

abbrev known : String → List CommitInfo → Bool
known sha [] = false
known sha (info ∷ infos) = str_eq info.sha256 sha || known sha infos

abbrev option_of : Value → Option String
option_of null = none
option_of (text s) = some s
option_of (integer n) = none

abbrev add_commit : Contents → CommitInfo → Reply × Contents
add_commit c info =
    if known info.sha256 c.commits
    then (rows [] false, c)
    else (rows [] true, record c { commits = info ∷ c.commits })

abbrev put_commit : Contents → List Value → Reply × Contents
put_commit c (text sha ∷ (parent ∷ (text author ∷ (text message ∷ (text created_at ∷ []))))) =
    add_commit c (record {
      sha256 = sha;
      parent_sha256 = option_of parent;
      author = author;
      message = message;
      created_at = created_at;
    })
put_commit c values = (rows [] false, c)

abbrev put_snapshot : Contents → List Value → Reply × Contents
put_snapshot c (text sha ∷ (text payload ∷ [])) =
    (rows [] true, record c { snapshots = (sha, payload) ∷ c.snapshots })
put_snapshot c values = (rows [] false, c)

abbrev put_deployment : Contents → List Value → Reply × Contents
put_deployment c (text sha ∷ (text deployed_at ∷ [])) =
    (rows [] true, record c { deployments = (sha, deployed_at) ∷ c.deployments })
put_deployment c values = (rows [] false, c)

abbrev history : Contents → List Value → List Row
history c (integer limit ∷ []) = map row_of (limited limit c.commits)
history c values = []

abbrev snapshot : Contents → List Value → List Row
snapshot c (text sha ∷ []) = payload_rows sha c.snapshots
snapshot c values = []

abbrev run_sql : Contents → String → List Value → Reply × Contents
run_sql c sql values =
    if str_eq sql select_head
    then (rows (head_rows c.commits) true, c)
    else if str_eq sql select_history
    then (rows (history c values) true, c)
    else if str_eq sql select_snapshot
    then (rows (snapshot c values) true, c)
    else if str_eq sql insert_commit
    then put_commit c values
    else if str_eq sql insert_snapshot
    then put_snapshot c values
    else if str_eq sql insert_deployment
    then put_deployment c values
    else (rows [] false, c)

abbrev pub memory : Sqlite
memory = record {
  Db = Contents;
  open_db = λ path. (some empty, true);
  exec = λ c sql. (none, c);
  run = run_sql;
  errmsg = λ c. "constraint failed";
}

known-NoCommit :
    (sha : String) (infos : List CommitInfo) → known sha infos ≡ false → NoCommit sha infos
known-NoCommit sha [] h = tt
known-NoCommit sha (info ∷ infos) h = elim (Bool-cases (str_eq info.sha256 sha)) [
  | inl e ↦ absurd (cc (e))
  | inr e ↦ (e, known-NoCommit sha infos (cc (e)))
]

option_of-value_of : (p : Option String) → option_of (value_of p) ≡ p
option_of-value_of none = refl
option_of-value_of (some s) = refl

-- What the laws of an insertion say of a pair.
abbrev Inserts : Contents → CommitInfo → Reply × Contents → Type 0
Inserts c info q =
    Insertion (NoCommit info.sha256 c.commits × (q.1 ≡ record c { commits = info ∷ c.commits }))
      (q.1 ≡ c) q.0

add_commit-Inserts : (c : Contents) (info : CommitInfo) → Inserts c info (add_commit c info)
add_commit-Inserts c info = elim (Bool-cases (known info.sha256 c.commits)) [
  | inl e ↦ rw e (failed refl)
  | inr e ↦ rw e (inserted (known-NoCommit info.sha256 c.commits e, refl))
]

pub put_commit-Inserts :
    (c : Contents) (info : CommitInfo) → Inserts c info (put_commit c (row_of info))
put_commit-Inserts c info =
    subst (λ (p : Option String). Inserts c info (add_commit c (record info { parent_sha256 = p })))
      (sym (option_of-value_of info.parent_sha256)) (add_commit-Inserts c info)

abbrev pub memory_tables : Tables memory
memory_tables = record {
  contents = λ c. c;
  selects_head = λ e. (sym (ap (λ q. q.1) e), subst (Answer _) (ap (λ q. q.0) e) complete);
  selects_history = λ limit e. (sym (ap (λ q. q.1) e), subst (Answer _) (ap (λ q. q.0) e) complete);
  selects_snapshot = λ sha e. (sym (ap (λ q. q.1) e), subst (Answer _) (ap (λ q. q.0) e) complete);
  inserts_commit = λ {db} info e. subst (Inserts db info) e (put_commit-Inserts db info);
  inserts_snapshot = λ {db} sha payload e.
      subst
        (λ q.
          Insertion (q.1 ≡ record db { snapshots = (sha, payload) ∷ db.snapshots }) (q.1 ≡ db) q.0)
        e (inserted refl);
  inserts_deployment = λ {db} sha deployed_at e.
      subst
        (λ q.
          Insertion (q.1 ≡ record db { deployments = (sha, deployed_at) ∷ db.deployments })
            (q.1 ≡ db) q.0)
        e (inserted refl);
}

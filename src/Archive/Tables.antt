-- ===== src/Archive/Tables.antt =====
-- What SQLite promises of the archive's statements, in terms of the rows of its three tables.
use openaslc.Base.{
  ◌≡◌, refl, false, List, [], ◌∷◌, Option, none, some, All, map, take, if◌then◌else◌,
}
use openaslc.Base.Int.{ℤ, pos, negsuc}
use openaslc.Base.Text.{String, c_str, str_eq}
use openaslc.Archive.Sql.{
  Value, null, text, integer, Row, Reply, Sqlite, Answer, Insertion, select_head, insert_commit,
  insert_snapshot, insert_deployment, select_history, select_snapshot,
}
use openaslc.Archive.Rows.{CommitInfo, bind_optional, bind_commit}

-- The rows of the tables, newest first: `commits`, `snapshots` (an id and a payload) and
-- `deployments` (an id and a time).
pub record Contents : Type 0 where
  pub commits : List CommitInfo
  pub snapshots : List (String × String)
  pub deployments : List (String × String)

abbrev pub empty : Contents
empty = record { commits = []; snapshots = []; deployments = [] }

abbrev pub value_of : Option String → Value
value_of none = null
value_of (some s) = text s

abbrev pub row_of : CommitInfo → Row
row_of info =
    text info.sha256
    ∷ (value_of info.parent_sha256
        ∷ (text info.author ∷ (text info.message ∷ (text info.created_at ∷ []))))

-- The row that is stored for a commit: its texts end before a NUL.
abbrev pub c_str_option : Option String → Option String
c_str_option none = none
c_str_option (some s) = some (c_str s)

abbrev pub stored_info : CommitInfo → CommitInfo
stored_info info = record {
  sha256 = c_str info.sha256;
  parent_sha256 = c_str_option info.parent_sha256;
  author = c_str info.author;
  message = c_str info.message;
  created_at = c_str info.created_at;
}

bind_optional-value_of : (p : Option String) → bind_optional p ≡ value_of (c_str_option p)
unfolding bind_optional
bind_optional-value_of none = refl
bind_optional-value_of (some s) = refl

pub bind_commit-row_of : (info : CommitInfo) → bind_commit info ≡ row_of (stored_info info)
unfolding bind_commit
bind_commit-row_of info = rw (bind_optional-value_of info.parent_sha256) refl

-- The answer to the query for HEAD.
abbrev pub head_rows : List CommitInfo → List Row
head_rows [] = []
head_rows (info ∷ older) = (text info.sha256 ∷ []) ∷ []

abbrev pub payload_rows : String → List (String × String) → List Row
payload_rows sha [] = []
payload_rows sha ((key, payload) ∷ older) =
    let more = payload_rows sha older in if str_eq key sha then (text payload ∷ []) ∷ more else more

-- `LIMIT`: a negative one is none.
abbrev pub limited {ℓ} : {A : Type ℓ} → ℤ → List A → List A
limited (pos n) xs = take n xs
limited (negsuc n) xs = xs

abbrev pub NoCommit : String → List CommitInfo → Type 0
NoCommit sha = All (λ info. str_eq info.sha256 sha ≡ false)

-- A query changes nothing and shows the rows that it asks for; an insertion stores its row in front
-- or changes nothing, and stores no second commit with the same primary key.
pub record Tables (sq : Sqlite) : Type 0 where
  pub contents : sq.Db → Contents
  pub selects_head :
      {db db' : sq.Db} {reply : Reply}
      → sq.run db select_head [] ≡ (reply, db')
      → (contents db' ≡ contents db) × Answer (head_rows (contents db).commits) reply
  pub selects_history :
      {db db' : sq.Db} {reply : Reply} (limit : ℤ)
      → sq.run db select_history (integer limit ∷ []) ≡ (reply, db')
      → (contents db' ≡ contents db)
        × Answer (map row_of (limited limit (contents db).commits)) reply
  pub selects_snapshot :
      {db db' : sq.Db} {reply : Reply} (sha : String)
      → sq.run db select_snapshot (text sha ∷ []) ≡ (reply, db')
      → (contents db' ≡ contents db) × Answer (payload_rows sha (contents db).snapshots) reply
  pub inserts_commit :
      {db db' : sq.Db} {reply : Reply} (info : CommitInfo)
      → sq.run db insert_commit (row_of info) ≡ (reply, db')
      → Insertion
          (NoCommit info.sha256 (contents db).commits
            × (contents db' ≡ record (contents db) { commits = info ∷ (contents db).commits }))
          (contents db' ≡ contents db)
          reply
  pub inserts_snapshot :
      {db db' : sq.Db} {reply : Reply} (sha payload : String)
      → sq.run db insert_snapshot (text sha ∷ (text payload ∷ [])) ≡ (reply, db')
      → Insertion
          (contents db'
            ≡ record (contents db) { snapshots = (sha, payload) ∷ (contents db).snapshots })
          (contents db' ≡ contents db)
          reply
  pub inserts_deployment :
      {db db' : sq.Db} {reply : Reply} (sha deployed_at : String)
      → sq.run db insert_deployment (text sha ∷ (text deployed_at ∷ [])) ≡ (reply, db')
      → Insertion
          (contents db'
            ≡ record (contents db) { deployments = (sha, deployed_at) ∷ (contents db).deployments })
          (contents db' ≡ contents db)
          reply

-- ===== src/Archive/Rows.antt =====
-- What the archive reads from rows, and how its methods end.
use openaslc.Base.{ℕ, List, [], ◌∷◌, Option, none, some, get_elem?}
use openaslc.Base.Text.{String, c_str, int_to_string}
use openaslc.Archive.Sql.{Value, null, text, integer, Row}

pub record CommitInfo : Type 0 where
  pub sha256 : String
  pub parent_sha256 : Option String
  pub author : String
  pub message : String
  pub created_at : String

-- How a method ends. `json_exception` is one of the JSON library's; `undefined` is a string made from
-- a null pointer.
pub data Archived {ℓ} (A : Type ℓ) : Type ℓ where
  archived : A → Archived A
  config_archive_error : String → Archived A
  json_exception : Archived A
  undefined : Archived A

infixl 5 ◌>>=◌
abbrev pub ◌>>=◌ {ℓ κ} : {A : Type ℓ} {B : Type κ} → Archived A → (A → Archived B) → Archived B
archived a >>= f = f a
config_archive_error message >>= f = config_archive_error message
json_exception >>= f = json_exception
undefined >>= f = undefined

-- `std::string(sqlite3_column_text(stmt, i))`: a null column is a null pointer.
unfoldable pub column_text : Row → ℕ → Archived String
column_text row i = elim (get_elem? row i) [
  | none ↦ undefined
  | some v ↦ elim v [
    | null ↦ undefined
    | text s ↦ archived (c_str s)
    | integer n ↦ archived (int_to_string n)
  ]
]

-- A column that may be null.
unfoldable pub column_optional : Row → ℕ → Archived (Option String)
column_optional row i = elim (get_elem? row i) [
  | none ↦ archived none
  | some v ↦ elim v [
    | null ↦ archived none
    | text s ↦ archived (some (c_str s))
    | integer n ↦ archived (some (int_to_string n))
  ]
]

unfoldable pub bind_optional : Option String → Value
bind_optional none = null
bind_optional (some s) = text (c_str s)

-- The values that are bound for a commit.
unfoldable pub bind_commit : CommitInfo → Row
bind_commit info =
    text (c_str info.sha256)
    ∷ (bind_optional info.parent_sha256
        ∷ (text (c_str info.author)
            ∷ (text (c_str info.message) ∷ (text (c_str info.created_at) ∷ []))))

-- `HEAD`: what the first step of the query gives, if it gives a row.
unfoldable pub head_of : List Row → Archived (Option String)
head_of [] = archived none
head_of (row ∷ more) = do sha ← column_text row 0; archived (some sha)

-- The body of the loop of `get_commit_history`.
unfoldable pub read_commit : Row → Archived CommitInfo
read_commit row = do
  sha256 ← column_text row 0
  parent ← column_optional row 1
  author ← column_text row 2
  message ← column_text row 3
  created_at ← column_text row 4
  archived (record {
    sha256 = sha256;
    parent_sha256 = parent;
    author = author;
    message = message;
    created_at = created_at;
  })

-- The loop, which ends with the first step that gives no row.
unfoldable pub read_commits : List Row → Archived (List CommitInfo)
read_commits [] = archived []
read_commits (row ∷ more) = do
  info ← read_commit row
  infos ← read_commits more
  archived (info ∷ infos)

-- ===== src/Web/History/Answers.antt =====
-- What the history shows.
use mathlib.Core.List.{append-nil}
use openaslc.Base.{
  ℕ, suc, ◌<◌, ◌≡◌, refl, sym, ap, ◌∙◌, subst, ◌⊎◌, inl, inr, false, List, [], ◌∷◌, ◌++◌, some,
  none, Option, Option-cases, map,
}
use openaslc.Base.Outcome.{ok}
use openaslc.Base.Int.{ℤ, pos}
use openaslc.Base.Text.{String, to_string}
use openaslc.Base.Stoi.{stoi, stoi-to_string}
use openaslc.Logic.Parse.Json.{JsonLibrary, JsonWriter}
use openaslc.Archive.Sql.{Sqlite, Reply, not_prepared, rows, select_history, integer}
use openaslc.Archive.Rows.{CommitInfo, Archived, archived}
use openaslc.Archive.Tables.{Contents, Tables, stored_info, row_of, limited}
use openaslc.Archive.Head.{commit_config-CommitEnds}
use openaslc.Archive.Readback.{
  HistoryEnds, all_shown, some_shown, not_shown, get_commit_history_lem, with_commit, committed,
}
use openaslc.Archive.{commit_config}
use openaslc.Web.{Request, Handled, responded, escaped, respond, commit_to_json, parent_to_json}
use openaslc.Web.History.{limit_of, history_json, answer_history, handle_history}

-- A limit that the query gives as a decimal number is the limit that the archive is asked for.
pub limit_of-to_string :
    (req : Request) (n : ℕ)
    → n < 2147483648
    → req.param "limit" ≡ some (to_string n)
    → limit_of req ≡ pos n
unfolding limit_of
limit_of-to_string req n h e = rw (limit_of, e) (rw (stoi-to_string n h) refl)

-- What a request asks for: its parameter `limit`, or 50.
pub data LimitIs (req : Request) : ℤ → Type 0 where
  by_default : req.param "limit" ≡ none → LimitIs req (pos 50)
  malformed :
      (given : String) → req.param "limit" ≡ some given → stoi given ≡ none → LimitIs req (pos 50)
  as_given :
      (given : String) (limit : ℤ)
      → req.param "limit" ≡ some given
      → stoi given ≡ some limit
      → LimitIs req limit

limit_of-LimitIs : (req : Request) → LimitIs req (limit_of req)
unfolding limit_of
limit_of-LimitIs req = elim (Option-cases (req.param "limit")) [
  | inl e ↦ rw (e, limit_of) (by_default e)
  | inr (given, e) ↦ elim (Option-cases (stoi given)) [
    | inl n ↦ rw (e, limit_of) (rw n (malformed given e n))
    | inr (limit, n) ↦ rw (e, limit_of) (rw n (as_given given limit e n))
  ]
]

module _ (lib : JsonLibrary) (writer : JsonWriter lib) where
  open writer use {null_value, string_value, array_value, object_value}

  abbrev parent_value : Option String → lib.Json
  parent_value none = null_value
  parent_value (some sha) = string_value sha

  abbrev commit_object : CommitInfo → lib.Json
  commit_object info = object_value (
      ("sha256", string_value info.sha256)
      ∷ (("parent_sha256", parent_value info.parent_sha256)
          ∷ (("author", string_value info.author)
              ∷ (("message", string_value info.message)
                  ∷ (("created_at", string_value info.created_at) ∷ [])))))

  -- The answer: an object with the list of the commits.
  abbrev commits_object : List CommitInfo → lib.Json
  commits_object infos = object_value (("commits", array_value (map commit_object infos)) ∷ [])

  -- The answer to a request for commits: those asked for or, where a step of the query fails, the
  -- first of them; no answer where the query is not prepared.
  pub data HistoryAnswer (asked : List CommitInfo) (reply : Reply) : Handled → Type 0 where
    shown :
        (first hidden : List CommitInfo)
        → asked ≡ first ++ hidden
        → (hidden ≡ []) ⊎ (reply ≡ rows (map row_of first) false)
        → HistoryAnswer asked reply
            (respond lib writer 200 (history_json lib writer (map stored_info first)))
    not_answered : reply ≡ not_prepared → HistoryAnswer asked reply escaped

  answer_history_lem :
      {Db : Type 0} (asked : List CommitInfo) (reply : Reply) (r : Archived (List CommitInfo))
      (db : Db)
      → HistoryEnds asked reply r
      → (h : Handled) × (answer_history lib writer (r, db) ≡ ok (h, db))
        × HistoryAnswer asked reply h
  unfolding answer_history
  answer_history_lem asked reply _ db all_shown =
      (_, refl, shown asked [] (sym (append-nil asked)) (inl refl))
  answer_history_lem asked reply _ db (some_shown first hidden e cut) =
      (_, refl, shown first hidden e (inr cut))
  answer_history_lem asked reply _ db (not_shown what e) = (escaped, refl, not_answered e)

  module _ (sq : Sqlite) (tables : Tables sq) where
    -- A request for the history returns, and answers with the commits that the archive gives.
    pub handle_history_lem :
        (db : sq.Db) (req : Request)
        → (h : Handled) × (db' : sq.Db) × (handle_history lib writer sq db req ≡ ok (h, db'))
          × (tables.contents db' ≡ tables.contents db)
          × HistoryAnswer
              (limited (limit_of req) (tables.contents db).commits)
              (sq.run db select_history (integer (limit_of req) ∷ [])).0
              h
    unfolding handle_history
    handle_history_lem db req =
        let (ends, unchanged) = get_commit_history_lem sq tables db (limit_of req) in
        let (h, gives, answer) = answer_history_lem _ _ _ _ ends in (h, _, gives, unchanged, answer)

    -- What the answer to GET /api/history holds.
    pub data Shows (db : sq.Db) (req : Request) : Handled → Type 0 where
      -- the commits in order, newest first and at most `limit`, or, where a step of the query fails,
      -- those before that step
      commits_shown :
          (limit : ℤ) (first hidden : List CommitInfo) (printed : String)
          → LimitIs req limit
          → limited limit (tables.contents db).commits ≡ first ++ hidden
          → (hidden ≡ [])
            ⊎ ((sq.run db select_history (integer limit ∷ [])).0 ≡ rows (map row_of first) false)
          → writer.dump (commits_object (map stored_info first)) ≡ some printed
          → Shows db req (responded (record { status = 200; content = printed }))
      -- these commits cannot be printed, and the exception leaves the handler
      commits_unprintable :
          (limit : ℤ) (first hidden : List CommitInfo)
          → LimitIs req limit
          → limited limit (tables.contents db).commits ≡ first ++ hidden
          → (hidden ≡ [])
            ⊎ ((sq.run db select_history (integer limit ∷ [])).0 ≡ rows (map row_of first) false)
          → writer.dump (commits_object (map stored_info first)) ≡ none
          → Shows db req escaped
      -- the query is not prepared, and the exception leaves the handler
      nothing_shown :
          (limit : ℤ)
          → LimitIs req limit
          → (sq.run db select_history (integer limit ∷ [])).0 ≡ not_prepared
          → Shows db req escaped

    HistoryAnswer-Shows :
        (db : sq.Db) (req : Request) (limit : ℤ) (h : Handled)
        → LimitIs req limit
        → HistoryAnswer
            (limited limit (tables.contents db).commits)
            (sq.run db select_history (integer limit ∷ [])).0
            h
        → Shows db req h
    unfolding respond history_json commit_to_json parent_to_json
    HistoryAnswer-Shows db req limit _ l (not_answered e) = nothing_shown limit l e
    HistoryAnswer-Shows db req limit _ l (shown first hidden e why) =
        elim (Option-cases (writer.dump (commits_object (map stored_info first)))) [
          | inl d ↦ rw (d, respond) (commits_unprintable limit first hidden l e why d)
          | inr (printed, d) ↦ rw (d, respond) (commits_shown limit first hidden printed l e why d)
        ]

    -- GET /api/history always ends, and changes no table. It answers 200 with the newest commits,
    -- newest first and at most as many as the parameter `limit` says, 50 where there is none or it is
    -- no number; where a step of the query fails, with the commits before that step. Only where the
    -- query is not prepared, or the commits cannot be printed, an exception leaves it.
    pub handle_history-Shows :
        (db : sq.Db) (req : Request)
        → (h : Handled) × (db' : sq.Db) × (handle_history lib writer sq db req ≡ ok (h, db'))
          × (tables.contents db' ≡ tables.contents db)
          × Shows db req h
    handle_history-Shows db req =
        let (h, db', gives, same, answer) = handle_history_lem db req in
        (
          h,
          db',
          gives,
          same,
          HistoryAnswer-Shows db req (limit_of req) h (limit_of-LimitIs req) answer,
        )

    -- After a commit, a request with a limit from 1 on asks for that commit first.
    pub handle_history-commit_config :
        (put_time : ℕ → String) (db db' : sq.Db) (now : ℕ) (author message : String)
        (payload : lib.Json) (info : CommitInfo) (req : Request) (n : ℕ)
        → commit_config sq lib writer put_time db now author message payload ≡ (archived info, db')
        → limit_of req ≡ pos (suc n)
        → (h : Handled) × (db'' : sq.Db) × (older : List CommitInfo) × (handle_history lib writer sq
              db' req
            ≡ ok (h, db''))
          × HistoryAnswer
              (stored_info info ∷ older)
              (sq.run db' select_history (integer (pos (suc n)) ∷ [])).0
              h
    handle_history-commit_config put_time db db' now author message payload info req n e l =
        let ends =
          commit_config-CommitEnds sq tables lib writer put_time db now author message payload in
        let (printed, dumped, in_tables) =
          committed sq tables lib writer put_time _ _ now author message payload _ _ info ends
            (ap (λ (q : Archived CommitInfo × sq.Db). q.0) e) in
        let whole : tables.contents db' ≡ with_commit (tables.contents db) info printed =
          ap tables.contents (sym (ap (λ (q : Archived CommitInfo × sq.Db). q.1) e)) ∙ in_tables in
        let (h, db'', gives, same, answer) = handle_history_lem db' req in
        (
          h,
          db'',
          _,
          gives,
          subst
              (λ (c : Contents).
                HistoryAnswer (limited (pos (suc n)) c.commits)
                  (sq.run db' select_history (integer (pos (suc n)) ∷ [])).0 h)
              whole
              (subst
                (λ (k : ℤ).
                  HistoryAnswer (limited k (tables.contents db').commits)
                    (sq.run db' select_history (integer k ∷ [])).0 h)
                l answer),
        )

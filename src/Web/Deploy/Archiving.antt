-- ===== src/Web/Deploy/Archiving.antt =====
-- What the handler of a deploy does with the archive.
use openaslc.Base.{ℕ, ◌≡◌, refl, ap, ◌∙◌, [], ◌∷◌, Option, none, some}
use openaslc.Base.Outcome.{Outcome, ok}
use openaslc.Base.Text.{String, ◌<>◌, c_str}
use openaslc.Logic.Parse.Json.{JsonLibrary, JsonWriter}
use openaslc.Archive.Sql.{Sqlite, Reply}
use openaslc.Archive.Rows.{CommitInfo, Archived}
use openaslc.Archive.Tables.{Contents, Tables}
use openaslc.Archive.Readback.{with_commit}
use openaslc.Archive.Commit.{
  StoreEnds, stored, orphaned, unchanged, Put, put, not_put, record_deployment-Put,
}
use openaslc.Archive.Head.{CommitEnds, not_printed, no_head, tried, commit_config-CommitEnds}
use openaslc.Archive.{current_timestamp}
use openaslc.Logger.{info, error}
use openaslc.Web.{Request, Handled, escaped, Services, respond, error_json, get_param_value}
use openaslc.Web.Deploy.{
  Times, commit_line, deployed_json, archive_failed, answer_deployed, answer_committed,
  archive_deploy, author_of,
}
use openaslc.Web.Deploy.Ends.{LoggerValid, log_if-LoggerValid, Leaves, reject_lem}

module _ (sq : Sqlite) (tables : Tables sq) (lib : JsonLibrary) (writer : JsonWriter lib)
    (put_time : ℕ → String) where
  abbrev State : Type 0
  State = Services sq.Db

  -- The tables with a deployment in front.
  abbrev pub with_deployment : Contents → String → ℕ → Contents
  with_deployment c sha now = record c {
    deployments = (c_str sha, c_str (current_timestamp put_time now)) ∷ c.deployments;
  }

  -- How a deploy of `n` rules ends after the swap, from `s`, with the document that was deployed.
  pub data ArchiveEnds (s : State) (times : Times) (author message : String) (doc : lib.Json)
      (n : ℕ) : Handled → State → Type 0 where
    -- there is no archive
    no_archive :
        {s' : State}
        → s.archive ≡ none
        → Leaves s none s'
        → ArchiveEnds s times author message doc n
            (respond lib writer 200
              (writer.object_value (("rule_count", writer.number_value n) ∷ [])))
            s'
    -- the commit, its snapshot and the deployment are stored
    kept :
        (db db' : sq.Db) (commit : CommitInfo) (printed : String) {s' : State}
        → s.archive ≡ some db
        → writer.dump doc ≡ some printed
        → commit.author ≡ author
        → commit.message ≡ message
        → tables.contents db'
          ≡ with_deployment
              (with_commit (tables.contents db) commit printed)
              commit.sha256
              times.deployment
        → Leaves s (some db') s'
        → ArchiveEnds s times author message doc n
            (respond lib writer 200 (deployed_json lib writer n commit))
            s'
    -- the archive throws, and no deployment is stored
    failed :
        (db db' : sq.Db) (what : String) {s' : State}
        → s.archive ≡ some db
        → (tables.contents db').deployments ≡ (tables.contents db).deployments
        → Leaves s (some db') s'
        → ArchiveEnds s times author message doc n
            (respond lib writer 500
              (error_json lib writer ("deploy succeeded but archiving failed: " <> what)))
            s'
    -- the document cannot be printed
    unprintable :
        (db db' : sq.Db) {s' : State}
        → s.archive ≡ some db
        → writer.dump doc ≡ none
        → tables.contents db' ≡ tables.contents db
        → Leaves s (some db') s'
        → ArchiveEnds s times author message doc n escaped s'

  -- In every case the runtime and the programs are left, and the log is valid.
  pub ArchiveEnds-Leaves :
      (s : State) (times : Times) (author message : String) (doc : lib.Json) (n : ℕ) (h : Handled)
      (s' : State)
      → ArchiveEnds s times author message doc n h s'
      → (archive : Option sq.Db) × Leaves s archive s'
  ArchiveEnds-Leaves s times author message doc n _ _ (no_archive e l) = (_, l)
  ArchiveEnds-Leaves s times author message doc n _ _ (kept db db' commit printed e d a m c l) =
      (_, l)
  ArchiveEnds-Leaves s times author message doc n _ _ (failed db db' what e c l) = (_, l)
  ArchiveEnds-Leaves s times author message doc n _ _ (unprintable db db' e d c l) = (_, l)

  module _ (s : State) (times : Times) (author message : String) (doc : lib.Json) (n : ℕ)
      (v : LoggerValid s.logger) (db : sq.Db) (has : s.archive ≡ some db) where
    -- What a handler gives, with how it ends.
    abbrev Gives : Outcome (Handled × State) → Type 0
    Gives o =
        (h : Handled) × (s' : State) × (o ≡ ok (h, s'))
        × ArchiveEnds s times author message doc n h s'

    archive_failed-Gives :
        (db' : sq.Db) (what : String)
        → (tables.contents db').deployments ≡ (tables.contents db).deployments
        → Gives
            (archive_failed lib writer sq put_time (record s { archive = some db' }) times.log what)
    unfolding archive_failed
    archive_failed-Gives db' what e =
        let (s', done, l) =
          reject_lem lib writer sq put_time (record s { archive = some db' }) times.log 500
            ("deploy succeeded but archiving failed: " <> what) error
            ("archive write failed: " <> what) v in
        (
          _,
          s',
          done,
          failed db db' what has e (record {
            same_runtime = l.same_runtime;
            same_heap = l.same_heap;
            archive_left = l.archive_left;
            logger_valid = l.logger_valid;
            logger_kept = l.logger_kept;
          }),
        )

    answer_deployed-Gives :
        (db₁ db₂ : sq.Db) (commit : CommitInfo) (printed : String) (r : Archived (Unit {0}))
        → writer.dump doc ≡ some printed
        → commit.author ≡ author
        → commit.message ≡ message
        → tables.contents db₁ ≡ with_commit (tables.contents db) commit printed
        → Put
            (tables.contents db₂
              ≡ with_deployment (tables.contents db₁) commit.sha256 times.deployment)
            (tables.contents db₂ ≡ tables.contents db₁)
            r
        → Gives (answer_deployed lib writer sq put_time s times.log author n commit (r, db₂))
    unfolding answer_deployed
    answer_deployed-Gives db₁ db₂ commit printed _ p a m e (put stored₂) =
        let (logger', logs, v', kept_log) =
          log_if-LoggerValid s.logger times.log info (commit_line commit author n) v in
        (
          respond lib writer 200 (deployed_json lib writer n commit),
          record s { archive = some db₂; logger = logger' },
          rw logs refl,
          kept db db₂ commit printed has p a m
              (stored₂ ∙ ap (λ (c : Contents). with_deployment c commit.sha256 times.deployment) e)
              (record {
                same_runtime = refl;
                same_heap = refl;
                archive_left = refl;
                logger_valid = v';
                logger_kept = kept_log;
              }),
        )
    answer_deployed-Gives db₁ db₂ commit printed _ p a m e (not_put what u) =
        archive_failed-Gives db₂ what (ap (λ (c : Contents). c.deployments) (u ∙ e))

    answer_stored-Gives :
        (db₁ : sq.Db) (commit : CommitInfo) (printed : String) (r : Archived CommitInfo)
        (c : Contents)
        → writer.dump doc ≡ some printed
        → commit.author ≡ author
        → commit.message ≡ message
        → tables.contents db₁ ≡ c
        → StoreEnds (tables.contents db) commit printed r c
        → Gives (answer_committed lib writer sq put_time s times author n (r, db₁))
    unfolding answer_committed
    answer_stored-Gives db₁ commit printed _ _ p a m e (stored fresh) =
        answer_deployed-Gives db₁ _ commit printed _ p a m e
          (record_deployment-Put sq tables lib writer put_time db₁ times.deployment commit.sha256)
    answer_stored-Gives db₁ commit printed _ _ p a m e (orphaned what fresh) =
        archive_failed-Gives db₁ what (ap (λ (c : Contents). c.deployments) e)
    answer_stored-Gives db₁ commit printed _ _ p a m e (unchanged what) =
        archive_failed-Gives db₁ what (ap (λ (c : Contents). c.deployments) e)

    answer_committed-Gives :
        (db₁ : sq.Db) (r : Archived CommitInfo) (c : Contents) (reply : Reply)
        → tables.contents db₁ ≡ c
        → CommitEnds sq tables lib writer put_time
            (tables.contents db)
            reply
            times.commit
            author
            message
            doc
            r
            c
        → Gives (answer_committed lib writer sq put_time s times author n (r, db₁))
    unfolding answer_committed
    answer_committed-Gives db₁ _ _ reply e (not_printed p) = (
      escaped,
      record s { archive = some db₁ },
      refl,
      unprintable db db₁ has p e (record {
        same_runtime = refl;
        same_heap = refl;
        archive_left = refl;
        logger_valid = v;
        logger_kept = refl;
      }),
    )
    answer_committed-Gives db₁ _ _ reply e (no_head what _) =
        archive_failed-Gives db₁ what (ap (λ (c : Contents). c.deployments) e)
    answer_committed-Gives db₁ r c reply e (tried printed parent p _ ends) =
        answer_stored-Gives db₁ _ printed r c p refl refl e ends

  pub archive_deploy_lem :
      (s : State) (archive : Option sq.Db) (req : Request) (times : Times) (doc : lib.Json) (n : ℕ)
      → s.archive ≡ archive
      → LoggerValid s.logger
      → (h : Handled) × (s' : State) × (archive_deploy lib writer sq put_time s archive req times
            doc n
          ≡ ok (h, s'))
        × ArchiveEnds s times (author_of req) (get_param_value req "message") doc n h s'
  unfolding archive_deploy
  archive_deploy_lem s none req times doc n e v = (
    _,
    s,
    refl,
    no_archive e (record {
      same_runtime = refl;
      same_heap = refl;
      archive_left = e;
      logger_valid = v;
      logger_kept = refl;
    }),
  )
  archive_deploy_lem s (some db) req times doc n e v =
      let author = author_of req in
      let message = get_param_value req "message" in
      answer_committed-Gives s times author message doc n v db e _ _ _ _ refl
        (commit_config-CommitEnds sq tables lib writer put_time db times.commit author message doc)

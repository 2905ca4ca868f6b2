-- ===== src/Web/Deploy/Ends.antt =====
-- How a deploy ends, and what it leaves.
use openaslc.Base.{
  Bool, true, false, ℕ, ◌≡◌, refl, inl, inr, Option, none, some, Option-cases, get_or,
}
use openaslc.Base.Outcome.{ok}
use openaslc.Base.Text.{String, utf8}
use openaslc.Logic.Parse.Json.{JsonLibrary, JsonWriter}
use openaslc.Archive.Sql.{Sqlite}
use openaslc.Logger.{LogLevel, RingBuffer, blank, written}
use openaslc.Logger.Ring.{IsValid, logged, log_lem, logged-IsValid}
use openaslc.Web.{Services, log_if, respond, error_json}
use openaslc.Web.Deploy.{reject}

abbrev pub LoggerValid : Option RingBuffer → Type 0
LoggerValid none = Unit
LoggerValid (some r) = IsValid r

abbrev pub has_log : Option RingBuffer → Bool
has_log none = false
has_log (some r) = true

pub log_if-LoggerValid :
    (logger : Option RingBuffer) (now : ℕ) (level : LogLevel) (line : String)
    → LoggerValid logger
    → (logger' : Option RingBuffer) × (log_if logger now level line ≡ ok logger')
      × LoggerValid logger'
      × (has_log logger' ≡ has_log logger)
unfolding log_if
log_if-LoggerValid none now level line v = (none, refl, tt, refl)
log_if-LoggerValid (some r) now level line v = (
  some (logged r (written (get_or r.buffer r.head blank) now level (utf8 line))),
  rw (log_lem now level (utf8 line) v) refl,
  logged-IsValid _ v,
  refl,
)

module _ {Db : Type 0} where
  -- `s'` has this archive, and differs from `s` otherwise at most by its log.
  pub record Leaves (s : Services Db) (archive : Option Db) (s' : Services Db) : Type 0 where
    pub same_runtime : s'.runtime ≡ s.runtime
    pub same_heap : s'.heap ≡ s.heap
    pub archive_left : s'.archive ≡ archive
    pub logger_valid : LoggerValid s'.logger
    pub logger_kept : has_log s'.logger ≡ has_log s.logger

  pub same : (s : Services Db) → LoggerValid s.logger → Leaves s s.archive s
  same s v = record {
    same_runtime = refl;
    same_heap = refl;
    archive_left = refl;
    logger_valid = v;
    logger_kept = refl;
  }

module _ (lib : JsonLibrary) (writer : JsonWriter lib) (sq : Sqlite) (put_time : ℕ → String) where
  abbrev State : Type 0
  State = Services sq.Db

  pub reject_lem :
      (s : State) (now status : ℕ) (what : String) (level : LogLevel) (line : String)
      → LoggerValid s.logger
      → (s' : State) × (reject lib writer sq put_time s now status what level line
          ≡ ok (respond lib writer status (error_json lib writer what), s'))
        × Leaves s s.archive s'
  unfolding reject respond
  reject_lem s now status what level line v =
      elim (Option-cases (writer.dump (error_json lib writer what))) [
        | inl e ↦ (s, rw (e, reject, respond) refl, same s v)
        | inr (content, e) ↦
            let (logger', logs, v', kept) = log_if-LoggerValid s.logger now level line v in
            let s' : State = record s { logger = logger' } in
            (
              s',
              rw (e, reject, respond) (rw logs refl),
              record {
                same_runtime = refl;
                same_heap = refl;
                archive_left = refl;
                logger_valid = v';
                logger_kept = kept;
              },
            )
      ]

-- ===== src/Web/Deploy/Safe.antt =====
-- A deploy by request is safe for the scan thread.
use openaslc.Base.{ℕ, ◌≡◌, sym, ap₂, subst, Option}
use openaslc.Base.Outcome.{ok}
use openaslc.Base.Text.{String}
use openaslc.Logic.Parse.Json.{JsonLibrary, JsonWriter}
use openaslc.Logic.Parse.Document.{well_formed}
use openaslc.Logic.Runtime.{Heap, LogicRuntime}
use openaslc.Logic.Runtime.Steps.{World}
use openaslc.Logic.Runtime.Safety.{IsSafe, stored-IsSafe}
use openaslc.Archive.Sql.{Sqlite}
use openaslc.Archive.Tables.{Tables}
use openaslc.Web.{Request, Handled, Services}
use openaslc.Web.Deploy.{Times, handle_deploy}
use openaslc.Web.Deploy.Ends.{LoggerValid, has_log, Leaves}
use openaslc.Web.Deploy.Archiving.{ArchiveEnds-Leaves}
use openaslc.Web.Deploy.Outcomes.{DeployEnds, refused, deployed, handle_deploy-DeployEnds}

-- The world with the server's runtime and programs.
abbrev pub with_services : World → LogicRuntime → Heap → World
with_services w runtime heap = record w { runtime = runtime; heap = heap }

module _ (sq : Sqlite) (tables : Tables sq) (lib : JsonLibrary) (writer : JsonWriter lib)
    (put_time : ℕ → String) where
  abbrev State : Type 0
  State = Services sq.Db

  Leaves-IsSafe :
      (w : World) (s s' : State) (archive : Option sq.Db)
      → Leaves s archive s'
      → IsSafe (with_services w s.runtime s.heap)
      → IsSafe (with_services w s'.runtime s'.heap)
  Leaves-IsSafe w s s' archive l safe =
      subst IsSafe (ap₂ (with_services w) (sym l.same_runtime) (sym l.same_heap)) safe

  pub DeployEnds-IsSafe :
      (w : World) (s : State) (req : Request) (times : Times) (h : Handled) (s' : State)
      → DeployEnds sq tables lib writer put_time s req times h s'
      → IsSafe (with_services w s.runtime s.heap)
      → IsSafe (with_services w s'.runtime s'.heap)
  DeployEnds-IsSafe w s req times _ _ (refused what _ l) safe = Leaves-IsSafe w s _ _ l safe
  DeployEnds-IsSafe w s req times _ _ (deployed doc p e _ sound ends) safe =
      let (archive, l) =
        ArchiveEnds-Leaves sq tables lib writer put_time _ times _ _ doc _ _ _ ends in
      Leaves-IsSafe w _ _ archive l (
        stored-IsSafe lib (with_services w s.runtime s.heap) p safe
          (well_formed lib s.runtime.period p sound))

  pub DeployEnds-LoggerValid :
      (s : State) (req : Request) (times : Times) (h : Handled) (s' : State)
      → DeployEnds sq tables lib writer put_time s req times h s'
      → LoggerValid s'.logger × (has_log s'.logger ≡ has_log s.logger)
  DeployEnds-LoggerValid s req times _ _ (refused what _ l) = (l.logger_valid, l.logger_kept)
  DeployEnds-LoggerValid s req times _ _ (deployed doc p e _ sound ends) =
      let (_, l) = ArchiveEnds-Leaves sq tables lib writer put_time _ times _ _ doc _ _ _ ends in
      (l.logger_valid, l.logger_kept)

  -- From a safe world and with a valid log, or none, a request for a deploy leaves a safe world,
  -- wherever the scan thread is, whatever the request holds and whatever the archive does: every
  -- program is well-formed and no pointer that a thread may follow is dead.
  pub handle_deploy-IsSafe :
      (w : World) (s : State) (req : Request) (times : Times)
      → LoggerValid s.logger
      → IsSafe (with_services w s.runtime s.heap)
      → (h : Handled) × (s' : State) × (handle_deploy lib writer sq put_time s req times
          ≡ ok (h, s'))
        × IsSafe (with_services w s'.runtime s'.heap)
  handle_deploy-IsSafe w s req times v safe =
      let (h, s', gives, ends) =
        handle_deploy-DeployEnds sq tables lib writer put_time s req times v in
      (h, s', gives, DeployEnds-IsSafe w s req times h s' ends safe)

-- ===== src/Web/Deploy/Outcomes.antt =====
-- A deploy as a whole.
use openaslc.Base.{ℕ, ◌≡◌, refl, inl, inr, [], ◌∷◌, ◌++◌, some, length, All, sum-cases}
use openaslc.Base.Int.{ℤ}
use openaslc.Base.Outcome.{Outcome, ok}
use openaslc.Base.Text.{String, ◌<>◌}
use openaslc.Logic.{LogicProgram, rule_count}
use openaslc.Logic.Parse.{parsed, logic_parse_error, from_json}
use openaslc.Logic.Parse.Json.{JsonLibrary, JsonWriter}
use openaslc.Logic.Parse.Sound.{RuleSound}
use openaslc.Logic.Runtime.{Heap, reload, reload_from_json}
use openaslc.Logic.Runtime.Safety.{reload_from_json_lem}
use openaslc.Archive.Sql.{Sqlite}
use openaslc.Archive.Tables.{Tables}
use openaslc.Logger.{warn}
use openaslc.Web.{Request, Handled, Services, respond, error_json, get_param_value}
use openaslc.Web.Deploy.{Times, author_of, rule_count_at, reject, answer_reload, handle_deploy}
use openaslc.Web.Deploy.Ends.{LoggerValid, Leaves, reject_lem}
use openaslc.Web.Deploy.Archiving.{ArchiveEnds, archive_deploy_lem}

rule_count_at-append :
    (heap : Heap) (p : LogicProgram) → rule_count_at (heap ++ (p ∷ [])) (length heap) ≡ rule_count p
unfolding rule_count_at
rule_count_at-append [] p = refl
rule_count_at-append (q ∷ heap) p = rule_count_at-append heap p

module _ (sq : Sqlite) (tables : Tables sq) (lib : JsonLibrary) (writer : JsonWriter lib)
    (put_time : ℕ → String) where
  abbrev State : Type 0
  State = Services sq.Db

  -- Why a deploy is refused, and with what text: the body is not JSON; or its document is none of a
  -- program.
  pub data Refusal (req : Request) (period : ℤ) : String → Type 0 where
    not_json :
        (what : String)
        → lib.parse req.body ≡ inr what
        → Refusal req period ("invalid JSON: " <> what)
    no_program :
        (doc : lib.Json) (what : String)
        → lib.parse req.body ≡ inl doc
        → from_json lib doc period ≡ logic_parse_error what
        → Refusal req period what

  -- How a deploy ends: refused, with the program that runs and the archive as they were; or with
  -- the program of its document, a sound one, that is stored and made current before anything is
  -- archived.
  pub data DeployEnds (s : State) (req : Request) (times : Times) : Handled → State → Type 0 where
    refused :
        (what : String) {s' : State}
        → Refusal req s.runtime.period what
        → Leaves s s.archive s'
        → DeployEnds s req times (respond lib writer 400 (error_json lib writer what)) s'
    deployed :
        (doc : lib.Json) (p : LogicProgram) {h : Handled} {s' : State}
        → lib.parse req.body ≡ inl doc
        → from_json lib doc s.runtime.period ≡ parsed p
        → All (RuleSound s.runtime.period) p
        → ArchiveEnds sq tables lib writer put_time
            (record s {
              runtime = reload s.runtime (some (length s.heap));
              heap = s.heap ++ (p ∷ []);
            })
            times
            (author_of req)
            (get_param_value req "message")
            doc
            (rule_count p)
            h
            s'
        → DeployEnds s req times h s'

  module _ (s : State) (req : Request) (times : Times) (v : LoggerValid s.logger) where
    Gives : Outcome (Handled × State) → Type 0
    Gives o = (h : Handled) × (s' : State) × (o ≡ ok (h, s')) × DeployEnds s req times h s'

    rejected :
        (what line : String)
        → Refusal req s.runtime.period what
        → Gives (reject lib writer sq put_time s times.log 400 what warn line)
    unfolding Gives
    rejected what line why =
        let (s', gives, l) = reject_lem lib writer sq put_time s times.log 400 what warn line v in
        (_, s', gives, refused what why l)

    -- After a reload, as `reload_from_json_lem` describes it.
    stored :
        (doc : lib.Json) (p : LogicProgram)
        → lib.parse req.body ≡ inl doc
        → from_json lib doc s.runtime.period ≡ parsed p
        → All (RuleSound s.runtime.period) p
        → Gives (
            answer_reload lib writer sq put_time s req times doc
              (parsed (length s.heap), reload s.runtime (some (length s.heap)), s.heap ++ (p ∷ [])))
    unfolding Gives answer_reload
    stored doc p e loads sound =
        let s₁ : State = record s {
          runtime = reload s.runtime (some (length s.heap));
          heap = s.heap ++ (p ∷ []);
        } in
        let (h, s', gives, ends) =
          archive_deploy_lem sq tables lib writer put_time s₁ s.archive req times doc (rule_count p)
            refl v in
        (h, s', rw (rule_count_at-append s.heap p) gives, deployed doc p e loads sound ends)

    not_stored :
        (doc : lib.Json) (what : String)
        → lib.parse req.body ≡ inl doc
        → from_json lib doc s.runtime.period ≡ logic_parse_error what
        → Gives (
            answer_reload lib writer sq put_time s req times doc
              (logic_parse_error what, s.runtime, s.heap))
    unfolding answer_reload
    not_stored doc what e e' =
        rejected what ("deploy rejected: " <> what) (no_program doc what e e')

    -- A request whose body is a document of a program.
    pub handle_deploy-parsed :
        (doc : lib.Json) (p : LogicProgram)
        → lib.parse req.body ≡ inl doc
        → from_json lib doc s.runtime.period ≡ parsed p
        → All (RuleSound s.runtime.period) p
        → (h : Handled) × (s' : State) × (handle_deploy lib writer sq put_time s req times
            ≡ ok (h, s'))
          × ArchiveEnds sq tables lib writer put_time
              (record s {
                runtime = reload s.runtime (some (length s.heap));
                heap = s.heap ++ (p ∷ []);
              })
              times
              (author_of req)
              (get_param_value req "message")
              doc
              (rule_count p)
              h
              s'
    unfolding handle_deploy answer_reload reload_from_json
    handle_deploy-parsed doc p e e' sound =
        let s₁ : State = record s {
          runtime = reload s.runtime (some (length s.heap));
          heap = s.heap ++ (p ∷ []);
        } in
        let (h, s', gives, ends) =
          archive_deploy_lem sq tables lib writer put_time s₁ s.archive req times doc (rule_count p)
            refl v in
        (
          h,
          s',
          rw (e, handle_deploy, e', reload_from_json) (rw (rule_count_at-append s.heap p) gives),
          ends,
        )

    pub handle_deploy-DeployEnds :
        (h : Handled) × (s' : State) × (handle_deploy lib writer sq put_time s req times
          ≡ ok (h, s'))
        × DeployEnds s req times h s'
    unfolding handle_deploy Gives
    handle_deploy-DeployEnds = elim (sum-cases (lib.parse req.body)) [
      | inr (what, e) ↦
          rw (e, handle_deploy)
            (rejected ("invalid JSON: " <> what) ("deploy rejected: invalid JSON: " <> what)
              (not_json what e))
      | inl (doc, e) ↦ elim (reload_from_json_lem lib s.runtime s.heap doc) [
        | inr (what, why, e') ↦ rw (e, handle_deploy, e') (not_stored doc what e why)
        | inl (p, loads, sound, e') ↦ rw (e, handle_deploy, e') (stored doc p e loads sound)
      ]
    ]

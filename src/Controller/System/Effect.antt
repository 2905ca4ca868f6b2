-- ===== src/Controller/System/Effect.antt =====
-- What a deploy and an input do to the next cycle.
use openaslc.Base.{
  ℕ, ◌≤◌, Bool, ◌&&◌, ◌==◌, ltb, Option, get_or, ◌≡◌, refl, ap, ap₂, ◌∙◌, subst, inl, List, [], ◌∷◌,
  ◌++◌, some, length, get_elem?, set, All, if◌then◌else◌,
}
use openaslc.Base.Outcome.{ok}
use openaslc.Base.Text.{String}
use openaslc.MemoryMap.{MemoryMap, MemoryArea, input, input_size, area_of, area_eq}
use openaslc.Base.Bits.{test_bit}
use openaslc.Logic.{LogicProgram}
use openaslc.Logic.Program.{ProgramWellFormed, apply_rules, advance_rules}
use openaslc.Logic.Parse.Json.{JsonLibrary, JsonWriter}
use openaslc.Logic.Parse.Document.{from_json-Loads, from_json_sound, well_formed}
use openaslc.Logic.Parse.Schema.{IsDocument}
use openaslc.Logic.Parse.Schema.Complete.{from_json_iff}
use openaslc.Logic.Runtime.{Heap, LogicRuntime, reload}
use openaslc.Archive.Sql.{Sqlite}
use openaslc.Archive.Tables.{Tables}
use openaslc.MockDriver
use openaslc.MockDriver.{MockDriver, set_mock_input_bit}
use openaslc.MockDriver.Inputs.{mock_bit, set_mock_input_bit_lem, set_mock_input_bit-IsValid}
use openaslc.Engine.{cycle}
use openaslc.Web.{Request, Handled, Services}
use openaslc.Web.Deploy.{Times}
use openaslc.Web.Deploy.Archiving.{ArchiveEnds-Leaves}
use openaslc.Web.Deploy.Outcomes.{handle_deploy-parsed}
use openaslc.Web.Input.{JsonReader, and_read, read_input, answer_input, handle_input}
use openaslc.Controller.{controller, Controller}
use openaslc.Controller.Scan.{wired, cycle_lem}
use openaslc.Controller.System.{
  System, set_input, services_of, with_services, deploy_to, request_input,
}
use openaslc.Controller.Runs.{CallbackSound}
use openaslc.Logic.Runtime.Safety.{get_elem?-WellFormed}
use openaslc.Controller.System.Sound.{IsSound}

get_elem?-last :
    (heap : Heap) (p : LogicProgram) → get_elem? (heap ++ (p ∷ [])) (length heap) ≡ some p
get_elem?-last [] p = refl
get_elem?-last (q ∷ heap) p = get_elem?-last heap p

set-last :
    (heap : Heap) (p q : LogicProgram) → set (heap ++ (p ∷ [])) (length heap) q ≡ heap ++ (q ∷ [])
set-last [] p q = refl
set-last (r ∷ heap) p q = ap (◌∷◌ r) (set-last heap p q)

module _ (sq : Sqlite) (tables : Tables sq) (lib : JsonLibrary) (writer : JsonWriter lib)
    (reader : JsonReader lib) (put_time : ℕ → String) where
  abbrev State : Type 0
  State = System sq.Db

  with_services-wired :
      (s : State) (d : MockDriver) (runtime : LogicRuntime) (heap : Heap) (address : ℕ)
      (left : Services sq.Db)
      → s.engine.drivers ≡ d ∷ []
      → left.runtime ≡ record runtime { current = some address }
      → left.heap ≡ heap
      → (with_services lib writer reader sq put_time s left).engine
        ≡ wired s.engine d runtime heap address
  unfolding with_services
  with_services-wired s d runtime heap address left one r h =
      ap₂
        (λ (ds : List MockDriver) (c : LogicRuntime × Heap).
          let e : Controller = record s.engine { drivers = ds; cycle_callback = some c } in e)
        one (λ i. (r i, h i))

  -- A deploy of a document that describes a program, to a sound controller with one driver, whatever
  -- the archive does and however the request is answered: the cycle after it runs that program, once,
  -- on the map whose inputs are the driver's and whose other areas are as they were; the program then
  -- is the runtime's, with its timers moved once, and the programs before it are as they were.
  pub deploy_takes_effect :
      (s : State) (d : MockDriver) (runtime : LogicRuntime) (heap : Heap) (req : Request)
      (times : Times) (doc : lib.Json) (p : LogicProgram)
      → IsSound s
      → s.engine.cycle_callback ≡ some (runtime, heap)
      → s.engine.drivers ≡ d ∷ []
      → lib.parse req.body ≡ inl doc
      → IsDocument lib runtime.period doc p
      → (h : Handled) × (s' : State) × (m : MemoryMap) × (e' : Controller) × (deploy_to lib writer
            reader sq put_time s
            (runtime, heap)
            req
            times
          ≡ ok (h, s'))
        × (cycle controller s'.engine ≡ ok e')
        × ((b : MemoryArea)
            → area_of b m
              ≡ (if area_eq b input then d.mock_inputs else area_of b s.engine.memory_map))
        × (e'.memory_map ≡ apply_rules p m)
        × (e'.cycle_callback
            ≡ some
                (record runtime { current = some (length heap) }, heap ++ (advance_rules p m ∷ [])))
  unfolding deploy_to services_of with_services reload
  deploy_takes_effect s d runtime heap req times doc p sound has one body is =
      let e = (from_json_iff lib doc runtime.period p).1 is in
      let rules = from_json_sound lib runtime.period _ (from_json-Loads lib doc runtime.period) e in
      let (h, left, gives, ends) =
        handle_deploy-parsed sq tables lib writer put_time
          (services_of lib writer reader sq put_time s runtime heap) req times sound.logger_valid
          doc p body e rules in
      let (_, l) = ArchiveEnds-Leaves sq tables lib writer put_time _ times _ _ doc _ _ _ ends in
      let (m, d', e', runs, before, applied, _, _, _, called) =
        cycle_lem s.engine d runtime (heap ++ (p ∷ [])) (length heap) p sound.engine_sound.map_valid
          (subst (All MockDriver.IsValid) one sound.engine_sound.drivers_valid).0
          (well_formed lib runtime.period p rules) (get_elem?-last heap p) in
      (
        h,
        with_services lib writer reader sq put_time s left,
        m,
        e',
        rw gives refl,
        ap (cycle controller) (
              with_services-wired s d runtime (heap ++ (p ∷ [])) (length heap) left one
                l.same_runtime l.same_heap)
            ∙ runs,
        before,
        applied,
        rw called (rw (set-last heap p (advance_rules p m)) refl),
      )

  handle_input-set :
      (s : State) (d : MockDriver) (req : Request) (doc : lib.Json) (byte bit : ℕ) (value : Bool)
      → s.engine.drivers ≡ d ∷ []
      → lib.parse req.body ≡ inl doc
      → read_input lib writer reader doc ≡ inl (byte, bit, value)
      → (handle_input lib writer reader set_input s.engine.drivers req).1
        ≡ set_mock_input_bit d byte bit value ∷ []
  unfolding handle_input and_read answer_input set_input
  handle_input-set s d req doc byte bit value one body read =
      rw (body, handle_input, and_read) (rw (read, answer_input) (rw one refl))

  -- A request whose body names the input bit `bit` of byte `byte`, to a sound controller with one
  -- driver and a current program: in the cycle after it, that program runs on a map whose input area
  -- has the bit as asked, if there is such a bit, and every other bit as the driver had it.
  pub input_takes_effect :
      (s : State) (d : MockDriver) (runtime : LogicRuntime) (heap : Heap) (address : ℕ)
      (p : LogicProgram) (req : Request) (doc : lib.Json) (byte bit : ℕ) (value : Bool)
      → IsSound s
      → s.engine.cycle_callback ≡ some (record runtime { current = some address }, heap)
      → get_elem? heap address ≡ some p
      → s.engine.drivers ≡ d ∷ []
      → lib.parse req.body ≡ inl doc
      → read_input lib writer reader doc ≡ inl (byte, bit, value)
      → (m : MemoryMap) × (e' : Controller) × (cycle controller
            (request_input lib writer reader sq put_time s req).1.engine
          ≡ ok e')
        × ((j n : ℕ)
            → n ≤ 7
            → test_bit (get_or (area_of input m) j 0) n ≡ (
                if ltb byte input_size && ((j == byte) && (n == bit))
                then value
                else mock_bit d j n))
        × (e'.memory_map ≡ apply_rules p m)
  unfolding request_input
  input_takes_effect s d runtime heap address p req doc byte bit value sound has found one body
        read =
      let d₁ = set_mock_input_bit d byte bit value in
      let valid = (subst (All MockDriver.IsValid) one sound.engine_sound.drivers_valid).0 in
      let calls : CallbackSound (some (record runtime { current = some address }, heap)) =
        subst CallbackSound has sound.engine_sound.callback_sound in
      let (q, found', wf) = get_elem?-WellFormed heap address calls.0 calls.1 in
      let same : q ≡ p = cc in
      let (m, d', e', runs, before, applied, _, _, _, _) =
        cycle_lem s.engine d₁ runtime heap address p sound.engine_sound.map_valid
          (set_mock_input_bit-IsValid byte bit value valid) (subst ProgramWellFormed same wf)
          found in
      (
        m,
        e',
        ap₂
              (λ (ds : List MockDriver) (c : Option (LogicRuntime × Heap)).
                cycle controller (record s.engine { drivers = ds; cycle_callback = c }))
              (handle_input-set s d req doc byte bit value one body read) has
            ∙ runs,
        λ j n h.
            ap (λ (xs : List ℕ). test_bit (get_or xs j 0) n) (before input)
            ∙ set_mock_input_bit_lem byte bit value j n valid h,
        applied,
      )

-- ===== src/Logic/Runtime/Safety.antt =====
-- No interleaving of scans, swaps and deploys makes the scan thread follow a dead pointer or throw.
use openaslc.Base.{
  ℕ, zero, suc, ◌≤◌, ◌<◌, ◌≡◌, refl, subst, ◌⊎◌, inl, inr, [], ◌∷◌, ◌++◌, arith, none, some, length,
  get_elem?, set, All, All-append, All-set, length-append, length-set,
}
use openaslc.Base.Outcome.{ok}
use openaslc.Base.Int.{ℤ}
use openaslc.Base.Text.{String}
use openaslc.MemoryMap.{MemoryMap, IsValid}
use openaslc.Logic.{LogicProgram}
use openaslc.Logic.Program.{
  ProgramWellFormed, execute_lem, apply_rules, advance_rules, apply_rules-IsValid,
  advance_rules-WellFormed,
}
use openaslc.Logic.Parse.{Parsed, parsed, logic_parse_error, from_json}
use openaslc.Logic.Parse.Json.{JsonLibrary}
use openaslc.Logic.Parse.Sound.{RuleSound}
use openaslc.Logic.Parse.Document.{
  Loads, loaded, bad_document, bad_rule, from_json-Loads, well_formed,
}
use openaslc.Logic.Runtime.{Heap, ProgramPtr, LogicRuntime, run_local, reload, reload_from_json}
use openaslc.Logic.Runtime.Steps.{
  IsLive, HeapWellFormed, Scanner, outside, inside, World, deployed, Step, fetch, run, transfer,
  swap, deploy, Reach, here, next,
}

abbrev pub ScannerLive : Heap → Scanner → Type 0
ScannerLive heap outside = Unit
ScannerLive heap (inside local) = IsLive heap local

-- Every program is well-formed, and every pointer that a thread may follow is null or live.
pub record IsSafe (w : World) : Type 0 where
  pub programs : HeapWellFormed w.heap
  pub current_live : IsLive w.heap w.runtime.current
  pub scanner_live : ScannerLive w.heap w.scanner
  pub map_valid : IsValid w.mem

pub get_elem?-WellFormed :
    (heap : Heap) (address : ℕ)
    → HeapWellFormed heap
    → address < length heap
    → (p : LogicProgram) × (get_elem? heap address ≡ some p) × ProgramWellFormed p
get_elem?-WellFormed [] address h lt = absurd (omega arith)
get_elem?-WellFormed (p ∷ heap) zero h lt = (p, refl, h.0)
get_elem?-WellFormed (p ∷ heap) (suc address) h lt =
    get_elem?-WellFormed heap address h.1 (omega arith)

pub IsLive-grows :
    (heap heap' : Heap) (ptr : ProgramPtr)
    → length heap ≤ length heap'
    → IsLive heap ptr
    → IsLive heap' ptr
IsLive-grows heap heap' none h l = tt
IsLive-grows heap heap' (some address) h l = omega arith

ScannerLive-grows :
    (heap heap' : Heap) (s : Scanner)
    → length heap ≤ length heap'
    → ScannerLive heap s
    → ScannerLive heap' s
ScannerLive-grows heap heap' outside h l = tt
ScannerLive-grows heap heap' (inside ptr) h l = IsLive-grows heap heap' ptr h l

-- What a run of a live pointer does: it returns, and keeps what is safe.
pub record Ran (heap : Heap) (mem : MemoryMap) (local : ProgramPtr) (heap' : Heap)
    (mem' : MemoryMap) : Type 0 where
  pub returned : run_local local heap mem ≡ ok (heap', mem')
  pub programs : HeapWellFormed heap'
  pub same_length : length heap' ≡ length heap
  pub map_valid : IsValid mem'

pub run_local-Ran :
    (heap : Heap) (mem : MemoryMap) (local : ProgramPtr)
    → HeapWellFormed heap
    → IsValid mem
    → IsLive heap local
    → (heap' : Heap) × (mem' : MemoryMap) × Ran heap mem local heap' mem'
unfolding run_local
run_local-Ran heap mem none h v l =
    (heap, mem, record { returned = refl; programs = h; same_length = refl; map_valid = v })
run_local-Ran heap mem (some address) h v l =
    let (p, found, wf) = get_elem?-WellFormed heap address h l in
    (
      set heap address (advance_rules p mem),
      apply_rules p mem,
      record {
        returned = rw (found, run_local) (rw (execute_lem p v wf));
        programs = All-set ProgramWellFormed heap address _ (advance_rules-WellFormed p mem wf) h;
        same_length = length-set heap address _;
        map_valid = apply_rules-IsValid p v;
      },
    )

run_local-keeps :
    (heap heap' : Heap) (mem mem' : MemoryMap) (local : ProgramPtr)
    → HeapWellFormed heap
    → IsValid mem
    → IsLive heap local
    → run_local local heap mem ≡ ok (heap', mem')
    → Ran heap mem local heap' mem'
run_local-keeps heap heap' mem mem' local h v l e =
    let (heap₁, mem₁, ran) = run_local-Ran heap mem local h v l in
    let same_heap : heap₁ ≡ heap' = cc (ran.returned) in
    let same_mem : mem₁ ≡ mem' = cc (ran.returned) in
    subst (Ran heap mem local heap') same_mem (subst (λ k. Ran heap mem local k mem₁) same_heap ran)

module _ (lib : JsonLibrary) where
  pub from_json_cases :
      (doc : lib.Json) (period : ℤ)
      → ((p : LogicProgram) × (from_json lib doc period ≡ parsed p) × All (RuleSound period) p)
        ⊎ ((message : String) × (from_json lib doc period ≡ logic_parse_error message))
  from_json_cases doc period = cases (from_json lib doc period) (from_json-Loads lib doc period)
    where
      cases :
          (r : Parsed LogicProgram)
          → Loads period r
          → ((p : LogicProgram) × (r ≡ parsed p) × All (RuleSound period) p)
            ⊎ ((message : String) × (r ≡ logic_parse_error message))
      cases r (loaded {p} s) = inl (p, refl, s)
      cases r (bad_document {message} rest e) = inr (message, refl)
      cases r (bad_rule {message} i rest e) = inr (message, refl)

  -- A reload from a document either stores a new sound program with fresh timers in the heap, makes
  -- it current and returns its address, and leaves every other program as it was; or throws a
  -- `LogicParseError` and leaves the runtime and every program as they were.
  pub reload_from_json_lem :
      (runtime : LogicRuntime) (heap : Heap) (doc : lib.Json)
      → ((p : LogicProgram) × (from_json lib doc runtime.period ≡ parsed p)
          × All (RuleSound runtime.period) p
          × (reload_from_json lib runtime heap doc
              ≡ (parsed (length heap), reload runtime (some (length heap)), heap ++ (p ∷ []))))
        ⊎ ((message : String) × (from_json lib doc runtime.period ≡ logic_parse_error message)
            × (reload_from_json lib runtime heap doc ≡ (logic_parse_error message, runtime, heap)))
  unfolding reload_from_json
  reload_from_json_lem runtime heap doc = elim (from_json_cases doc runtime.period) [
    | inl (p, e, s) ↦ inl (p, e, s, rw (e, reload_from_json))
    | inr (message, e) ↦ inr (message, e, rw (e, reload_from_json))
  ]

  pub stored-IsSafe :
      (w : World) (p : LogicProgram)
      → IsSafe w
      → ProgramWellFormed p
      → IsSafe (record w {
        runtime = reload w.runtime (some (length w.heap));
        heap = w.heap ++ (p ∷ []);
      })
  unfolding reload
  stored-IsSafe w p s h =
      let longer = length-append w.heap (p ∷ []) in
      record {
        programs = All-append ProgramWellFormed w.heap (p ∷ []) s.programs (h, tt);
        current_live = omega (arith, longer);
        scanner_live =
            ScannerLive-grows w.heap (w.heap ++ (p ∷ [])) w.scanner (omega (arith, longer))
              s.scanner_live;
        map_valid = s.map_valid;
      }

  deployed-IsSafe : (w : World) (doc : lib.Json) → IsSafe w → IsSafe (deployed lib w doc)
  unfolding deployed
  deployed-IsSafe w doc s = elim (reload_from_json_lem w.runtime w.heap doc) [
    | inl (p, _, sound, e) ↦ rw e (stored-IsSafe w p s (well_formed lib w.runtime.period p sound))
    | inr (message, _, e) ↦ rw e s
  ]

  -- Every step of any thread keeps the world safe.
  Step-IsSafe : {w v : World} → Step lib w v → IsSafe w → IsSafe v
  unfolding reload
  Step-IsSafe (fetch w e) s = record {
    programs = s.programs;
    current_live = s.current_live;
    scanner_live = s.current_live;
    map_valid = s.map_valid;
  }
  Step-IsSafe (run w local heap' mem' e r) s =
      let live : IsLive w.heap local = subst (ScannerLive w.heap) e s.scanner_live in
      let ran = run_local-keeps w.heap heap' w.mem mem' local s.programs s.map_valid live r in
      record {
        programs = ran.programs;
        current_live =
            IsLive-grows w.heap heap' w.runtime.current (omega (arith, ran.same_length))
              s.current_live;
        scanner_live = tt;
        map_valid = ran.map_valid;
      }
  Step-IsSafe (transfer w mem' e v) s = record {
    programs = s.programs;
    current_live = s.current_live;
    scanner_live = s.scanner_live;
    map_valid = v;
  }
  Step-IsSafe (swap w new_program l) s = record {
    programs = s.programs;
    current_live = l;
    scanner_live = s.scanner_live;
    map_valid = s.map_valid;
  }
  Step-IsSafe (deploy w doc) s = deployed-IsSafe w doc s

  -- Whatever the threads do, in whatever order: from a safe world only safe worlds are reached.
  pub Reach-IsSafe : {w v : World} → IsSafe w → Reach lib w v → IsSafe v
  Reach-IsSafe s here = s
  Reach-IsSafe s (next r st) = Step-IsSafe st (Reach-IsSafe s r)

  -- In every world that is reached from a safe one, the scan thread that is inside `execute_cycle`
  -- can finish it: the program that it holds runs without an exception, whatever was swapped or
  -- deployed since it took its copy.
  pub scan_finishes :
      {w v : World} (local : ProgramPtr)
      → IsSafe w
      → Reach lib w v
      → v.scanner ≡ inside local
      → (heap' : Heap) × (mem' : MemoryMap) × (run_local local v.heap v.mem ≡ ok (heap', mem'))
        × Step lib v (record v { heap = heap'; mem = mem'; scanner = outside })
  scan_finishes {w} {v} local s r e =
      let safe = Reach-IsSafe s r in
      let (heap', mem', ran) =
        run_local-Ran v.heap v.mem local safe.programs safe.map_valid
          (subst (ScannerLive v.heap) e safe.scanner_live) in
      (heap', mem', ran.returned, run v local heap' mem' e ran.returned)

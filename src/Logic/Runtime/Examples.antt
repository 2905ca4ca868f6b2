-- ===== src/Logic/Runtime/Examples.antt =====
-- A document, the program that it loads, and a deploy of it during a scan.
use openaslc.Base.{◌≡◌, ◌↔◌, refl, [], ◌∷◌, arith, none, some}
use openaslc.Base.Outcome.{ok}
use openaslc.Base.Int.{pos}
use openaslc.MemoryMap.{MemoryMap, initial}
use openaslc.MemoryMap.Bounds.{initial-IsValid}
use openaslc.Logic.Program.{execute_lem, advance_rules, apply_rules}
use openaslc.Logic.Examples.{delay_rule, program, program-WellFormed}
use openaslc.Logic.Parse.{
  parsed, ◌>>=◌, require, parse_area, area_size, get_at, require_field, require_int, require_string,
  parse_signal_ref, parse_ton_timer, parse_input, dispatch, parse_condition_node, parse_rule,
  parse_rules, from_json,
}
use openaslc.Logic.Parse.Sample.{sample, document}
use openaslc.Logic.Parse.Schema.{IsDocument}
use openaslc.Logic.Parse.Schema.Complete.{from_json_iff}
use openaslc.Logic.Parse.Schema.Places.{DocumentEnds, from_json-DocumentEnds}
use openaslc.Logic.Runtime.{Heap, LogicRuntime, create, run_local, reload}
use openaslc.Logic.Runtime.Steps.{
  World, outside, inside, deployed, Step, fetch, swap, deploy, Reach, here, next,
}
use openaslc.Logic.Runtime.Safety.{IsSafe, scan_finishes}

pub document_loads : from_json sample document (pos 10) ≡ parsed (delay_rule ∷ [])
unfolding ◌>>=◌ require parse_area area_size get_at require_field require_int require_string
    parse_signal_ref parse_ton_timer parse_input dispatch parse_condition_node parse_rule
    parse_rules from_json
document_loads = refl

from_json_iff_example :
    (from_json sample document (pos 10) ≡ parsed (delay_rule ∷ []))
    ↔ IsDocument sample (pos 10) document (delay_rule ∷ [])
from_json_iff_example = from_json_iff sample document (pos 10) (delay_rule ∷ [])

from_json-DocumentEnds_example :
    DocumentEnds sample (pos 10) document (from_json sample document (pos 10))
from_json-DocumentEnds_example = from_json-DocumentEnds sample (pos 10) document

abbrev runtime : LogicRuntime
runtime = create (pos 10) (some 0)

abbrev heap : Heap
heap = program ∷ []

-- Before the scan.
abbrev before : World
before = record {
  runtime = record { period = pos 10; current = some 0 };
  heap = heap;
  mem = initial;
  scanner = outside;
}

before-IsSafe : IsSafe before
before-IsSafe = record {
  programs = (program-WellFormed, tt);
  current_live = omega arith;
  scanner_live = tt;
  map_valid = initial-IsValid;
}

-- The scan thread has taken its copy.
abbrev fetched : World
fetched = record before { scanner = inside (some 0) }

-- Another thread deploys a document and then swaps in nothing.
abbrev swapped : World
swapped = record (deployed sample fetched document) {
  runtime = reload (deployed sample fetched document).runtime none;
}

swapped-Reach : Reach sample before swapped
swapped-Reach =
    next (next (next here (fetch before refl)) (deploy fetched document))
      (swap (deployed sample fetched document) none tt)

swapped_inside : swapped.scanner ≡ inside (some 0)
unfolding deployed
swapped_inside = refl

scan_finishes_example :
    (heap' : Heap) × (mem' : MemoryMap) × (run_local (some 0) swapped.heap swapped.mem
      ≡ ok (heap', mem'))
    × Step sample swapped (record swapped { heap = heap'; mem = mem'; scanner = outside })
scan_finishes_example = scan_finishes sample (some 0) before-IsSafe swapped-Reach swapped_inside

run_local-program :
    run_local (some 0) heap initial
    ≡ ok (advance_rules program initial ∷ [], apply_rules program initial)
unfolding run_local
run_local-program = rw (execute_lem program initial-IsValid program-WellFormed, run_local)

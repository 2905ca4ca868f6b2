-- ===== src/Logic/Runtime/Steps.antt =====
-- The scan thread and the threads that reload, interleaved.
use openaslc.Base.{◌<◌, ◌≡◌, none, some, length, All}
use openaslc.Base.Outcome.{ok}
use openaslc.MemoryMap.{MemoryMap, IsValid}
use openaslc.Logic.Program.{ProgramWellFormed}
use openaslc.Logic.Parse.Json.{JsonLibrary}
use openaslc.Logic.Runtime.{Heap, ProgramPtr, LogicRuntime, run_local, reload, reload_from_json}

-- A pointer that is null or points into the heap.
abbrev pub IsLive : Heap → ProgramPtr → Type 0
IsLive heap none = Unit
IsLive heap (some address) = address < length heap

abbrev pub HeapWellFormed : Heap → Type 0
HeapWellFormed = All ProgramWellFormed

-- Where the scan thread is: outside `execute_cycle`, or inside it with its copy of `current_`.
pub data Scanner : Type 0 where
  outside : Scanner
  inside : ProgramPtr → Scanner

pub record World : Type 0 where
  pub runtime : LogicRuntime
  pub heap : Heap
  pub mem : MemoryMap
  pub scanner : Scanner

module _ (lib : JsonLibrary) where
  -- The world after a deploy.
  unfoldable pub deployed : World → lib.Json → World
  deployed w doc =
      let (result, runtime', heap') = reload_from_json lib w.runtime w.heap doc in
      record w { runtime = runtime'; heap = heap' }

  -- What a thread may do next.
  pub data Step : World → World → Type 0 where
    -- the scan thread takes its copy of `current_`
    fetch :
        (w : World) → w.scanner ≡ outside → Step w (record w { scanner = inside w.runtime.current })
    -- the scan thread runs the program that its copy points to
    run :
        (w : World) (local : ProgramPtr) (heap' : Heap) (mem' : MemoryMap)
        → w.scanner ≡ inside local
        → run_local local w.heap w.mem ≡ ok (heap', mem')
        → Step w (record w { heap = heap'; mem = mem'; scanner = outside })
    -- the drivers move data between two programs' runs
    transfer :
        (w : World) (mem' : MemoryMap)
        → w.scanner ≡ outside
        → IsValid mem'
        → Step w (record w { mem = mem' })
    -- some thread swaps in a program that it has
    swap :
        (w : World) (new_program : ProgramPtr)
        → IsLive w.heap new_program
        → Step w (record w { runtime = reload w.runtime new_program })
    -- some thread deploys a document, which may be refused
    deploy : (w : World) (doc : lib.Json) → Step w (deployed w doc)

  pub data Reach (w : World) : World → Type 0 where
    here : Reach w w
    next : {u v : World} → Reach w u → Step u v → Reach w v

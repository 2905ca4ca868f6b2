-- ===== src/Logic/Runtime/Isolation.antt =====
-- A deploy does not disturb the scan that is under way.
use openaslc.Base.{
  ℕ, zero, suc, ◌<◌, ◌≡◌, refl, ap, inl, inr, [], ◌∷◌, ◌++◌, arith, none, some, length, get_elem?,
  set, Option-cases,
}
use openaslc.Base.Outcome.{Outcome, ok, undefined, ◌>>=◌}
use openaslc.MemoryMap.{MemoryMap}
use openaslc.Logic.{LogicProgram, execute}
use openaslc.Logic.Runtime.{Heap, ProgramPtr, run_local}
use openaslc.Logic.Runtime.Steps.{IsLive}

set-append :
    (heap more : Heap) (address : ℕ) (p : LogicProgram)
    → address < length heap
    → set (heap ++ more) address p ≡ set heap address p ++ more
set-append [] more address p h = absurd (omega arith)
set-append (q ∷ heap) more zero p h = refl
set-append (q ∷ heap) more (suc address) p h =
    ap (◌∷◌ q) (set-append heap more address p (omega arith))

get_elem?-append :
    (heap more : Heap) (address : ℕ)
    → address < length heap
    → get_elem? (heap ++ more) address ≡ get_elem? heap address
get_elem?-append [] more address h = absurd (omega arith)
get_elem?-append (q ∷ heap) more zero h = refl
get_elem?-append (q ∷ heap) more (suc address) h = get_elem?-append heap more address (omega arith)

abbrev finish : Heap → ℕ → LogicProgram × MemoryMap → Outcome (Heap × MemoryMap)
finish heap address x = ok (set heap address x.0, x.1)

write_back :
    (heap more heap' : Heap) (address : ℕ) (mem' : MemoryMap)
    → (r : Outcome (LogicProgram × MemoryMap)) → address < length heap
    → (r >>= finish heap address) ≡ ok (heap', mem')
    → (r >>= finish (heap ++ more) address) ≡ ok (heap' ++ more, mem')
write_back heap more heap' address mem' (ok (p, m)) l e =
    ground (arith, set-append heap more address p l)
write_back heap more heap' address mem' (Outcome.throws x) l e = cc
write_back heap more heap' address mem' undefined l e = cc

-- Programs that are deployed while a scan is in `execute_cycle` make no difference to it: the run
-- of the program that it holds writes the same map, and moves the same timers.
pub run_local-append :
    (local : ProgramPtr) (heap more heap' : Heap) (mem mem' : MemoryMap)
    → IsLive heap local
    → run_local local heap mem ≡ ok (heap', mem')
    → run_local local (heap ++ more) mem ≡ ok (heap' ++ more, mem')
unfolding run_local
run_local-append none heap more heap' mem mem' l e = ground arith
run_local-append (some address) heap more heap' mem mem' l e =
    elim (Option-cases (get_elem? heap address)) [
      | inl missing ↦ absurd (cc (rw (missing, run_local) at e))
      | inr (p, found) ↦
          rw (get_elem?-append heap more address l, found, run_local)
            (write_back heap more heap' address mem' (execute p mem) l (rw (found, run_local) at e))
    ]

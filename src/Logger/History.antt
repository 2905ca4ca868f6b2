-- ===== src/Logger/History.antt =====
-- Any sequence of calls, against the bounded queue.
use openaslc.Base.{
  ℕ, ◌+◌, ◌^◌, ◌<◌, ◌≡◌, refl, ap, subst, ◌∙◌, List, [], ◌∷◌, ◌++◌, arith, length, length-append,
  take, map,
}
use openaslc.Base.Outcome.{Outcome, ok, ◌>>=◌}
use openaslc.Logger.{LogLevel, RingBuffer, max_message_len, log, take_pending}
use openaslc.Logger.Ring.{IsValid, pending, pending_emptied, take_pending_lem}
use openaslc.Logger.Fifo.{Line, visible, Fifo, push, view, log_refines, push-count, length-map}

pub data Call : Type 0 where
  logs : ℕ → LogLevel → List ℕ → Call
  flushes : Call

-- The lines that the flushes of a sequence of calls hand to `write_entries`, in order, and the ring
-- after the calls.
pub run : RingBuffer → List Call → Outcome (List Line × RingBuffer)
run r [] = ok ([], r)
run r (logs now level text ∷ calls) = do r' ← log r now level text; run r' calls
run r (flushes ∷ calls) = do
  (drained, r') ← take_pending r
  (later, r'') ← run r' calls
  ok (map visible drained ++ later, r'')

-- The same of the bounded queue.
unfoldable pub run_fifo : Fifo → List Call → List Line × Fifo
run_fifo q [] = ([], q)
run_fifo q (logs now level text ∷ calls) =
    run_fifo (push q (record { timestamp = now; level = level; text = take max_message_len text }))
      calls
run_fifo q (flushes ∷ calls) =
    let (later, q') = run_fifo (record q { lines = [] }) calls in (q.lines ++ later, q')

pub emptied-IsValid : {r : RingBuffer} → IsValid r → IsValid (record r { count = 0 })
emptied-IsValid v = omega arith

runs :
    {r : RingBuffer} (q : Fifo) (calls : List Call)
    → IsValid r
    → view r ≡ q
    → (r' : RingBuffer) × (run r calls ≡ ok ((run_fifo q calls).0, r'))
      × IsValid r'
      × (view r' ≡ (run_fifo q calls).1)
unfolding run run_fifo
runs {r} q [] v same = (r, refl, v, same)
runs {r} q (logs now level text ∷ calls) v same =
    let line : Line = record { timestamp = now; level = level; text = take max_message_len text } in
    let (r₁, e, v₁, same₁) = log_refines now level text v in
    let (r', e', v', same') =
      runs {r = r₁} (push q line) calls v₁ (same₁ ∙ ap (λ p. push p line) same) in
    (r', rw e e', v', same')
runs {r} q (flushes ∷ calls) v same =
    let taken : map visible (pending r) ≡ q.lines = ap (λ p. p.lines) same in
    let (r', e', v', same') =
      runs {r = record r { count = 0 }} (record q { lines = [] }) calls (emptied-IsValid v)
        (ground (arith, pending_emptied r, same)) in
    (r', rw (take_pending_lem v) (rw e' (ground (arith, taken))), v', same')

-- No sequence of `log` and `flush_pending` calls tells a valid ring from the bounded queue of its
-- lines: the calls return, the flushes hand out the same lines, and what is pending and lost
-- afterwards is the same.
pub run_refines :
    {r : RingBuffer} (calls : List Call)
    → IsValid r
    → (r' : RingBuffer) × (run r calls ≡ ok ((run_fifo (view r) calls).0, r'))
      × IsValid r'
      × (view r' ≡ (run_fifo (view r) calls).1)
run_refines {r} calls v = runs (view r) calls v refl

-- How many calls of `log` a sequence has.
unfoldable pub logs_in : List Call → ℕ
logs_in [] = 0
logs_in (logs now level text ∷ calls) = logs_in calls + 1
logs_in (flushes ∷ calls) = logs_in calls

fifo_accounts :
    (q : Fifo) (calls : List Call)
    → q.dropped + logs_in calls < 2 ^ 64
    → let (out, q') = run_fifo q calls in
      length q.lines + q.dropped + logs_in calls ≡ length out + length q'.lines + q'.dropped
unfolding run_fifo logs_in
fifo_accounts q [] h = omega arith
fifo_accounts q (logs now level text ∷ calls) h =
    let line : Line = record { timestamp = now; level = level; text = take max_message_len text } in
    let (grown, counted) = push-count q line (omega arith) in
    omega (arith, fifo_accounts (push q line) calls (omega arith))
fifo_accounts q (flushes ∷ calls) h =
    let q₁ : Fifo = record q { lines = [] } in
    omega (arith, fifo_accounts q₁ calls (omega arith), length-append q.lines (run_fifo q₁ calls).0)

-- No line is lost without being counted: of the lines that were pending and those that a sequence
-- of calls logs, each is handed to `write_entries`, still pending, or counted as dropped. The
-- counter does not wrap in fewer than 2^64 lines.
pub run_accounts :
    {r r' : RingBuffer} (calls : List Call) (out : List Line)
    → IsValid r
    → r.dropped + logs_in calls < 2 ^ 64
    → run r calls ≡ ok (out, r')
    → length (pending r) + r.dropped + logs_in calls ≡ length out + length (pending r') + r'.dropped
run_accounts {r} {r'} calls out v h e =
    let (r₁, ran, v₁, same) = run_refines calls v in
    let lines : (run_fifo (view r) calls).0 ≡ out = cc in
    let ring : r₁ ≡ r' = cc in
    let after : view r' ≡ (run_fifo (view r) calls).1 =
      subst (λ k. view k ≡ (run_fifo (view r) calls).1) ring same in
    omega (
      arith,
      fifo_accounts (view r) calls h,
      ap (λ (l : List Line). length l) lines,
      ap (λ (q : Fifo). length q.lines) after,
      ap (λ (q : Fifo). q.dropped) after,
      length-map (pending r),
      length-map (pending r'),
    )

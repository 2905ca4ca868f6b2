-- ===== src/Logger/Threads/Stop.antt =====
-- `stop` returns, with every line handed to `write_entries`.
use mathlib.Core.List.{append-nil, append_assoc}
use openaslc.Base.{ℕ, String, ◌<◌, ◌≡◌, ap, ◌∙◌, subst, arith, true, List, [], ◌++◌, map}
use openaslc.Logger.{working, LogEntry, RingBuffer, Files}
use openaslc.Logger.Ring.{IsValid, pending, pending_emptied, take_pending_lem}
use openaslc.Logger.Fifo.{Line, visible}
use openaslc.Logger.History.{emptied-IsValid}
use openaslc.Logger.Threads.{
  FlushLoop, testing, waiting, flushing, writing, ended, Life, idle, threaded, joined, finishing,
  State, state, Flushes, enter, leave, wake, take, write, join, last_take, last_write,
}
use openaslc.Logger.Threads.Ordered.{in_hand}

-- Asked to stop, and before the last look at the ring.
pub data IsStopping : Life → Type 0 where
  asked : {at : FlushLoop} → IsStopping (threaded true at)
  alone : IsStopping joined

abbrev pub life_of : State → Life
life_of (state r f w life) = life

-- How many steps `stop` has left at most.
unfoldable pub left : Life → ℕ
left idle = 0
left (finishing drained) = 1
left joined = 2
left (threaded stop ended) = 3
left (threaded stop testing) = 4
left (threaded stop (writing drained)) = 5
left (threaded stop flushing) = 6
left (threaded stop waiting) = 7

module _ (put_time : ℕ → String) (max_file_bytes max_backups : ℕ) where
  -- After `stop` has asked the flush thread to stop, every step of that thread and of the caller
  -- brings `stop` nearer to its return: it waits for at most seven steps.
  pub stop_approaches :
      {u v : State}
      → Flushes put_time max_file_bytes max_backups u v
      → IsStopping (life_of u)
      → left (life_of v) < left (life_of u)
  unfolding left
  stop_approaches enter i = elim i [ ]
  stop_approaches (last_write disk) i = elim i [ ]
  stop_approaches leave asked = omega arith
  stop_approaches wake asked = omega arith
  stop_approaches (take e) asked = omega arith
  stop_approaches (write disk) asked = omega arith
  stop_approaches join asked = omega arith
  stop_approaches (last_take e) alone = omega arith

  pub data Runs : State → State → Type 0 where
    arrived : {v : State} → Runs v v
    first :
        {u u' v : State} → Flushes put_time max_file_bytes max_backups u u' → Runs u' v → Runs u v

  -- What `stop` comes to from here: it has written these lines, in order, and none is pending.
  Stops : RingBuffer → Files → List Line → Life → List Line → Type 0
  Stops r f w life lines =
      (r' : RingBuffer) × (f' : Files) × Runs (state r f w life) (state r' f' (w ++ lines) idle)
      × (pending r' ≡ [])

  -- One more step in front, which writes some lines.
  step_first :
      {r r' : RingBuffer} {f f' : Files} {w : List Line} {life life' : Life}
      (some_lines lines : List Line)
      → Flushes put_time max_file_bytes max_backups
          (state r f w life)
          (state r' f' (w ++ some_lines) life')
      → Stops r' f' (w ++ some_lines) life' lines
      → Stops r f w life (some_lines ++ lines)
  unfolding Stops
  step_first {r} {r'} {f} {f'} {w} {life} some_lines lines s (r'', f'', runs, nothing_left) = (
    r'',
    f'',
    subst (λ (ls : List Line). Runs (state r f w life) (state r'' f'' ls idle))
        (append_assoc w some_lines lines) (first s runs),
    nothing_left,
  )

  -- One more step in front, which writes nothing.
  silent_first :
      {r r' : RingBuffer} {f : Files} {w : List Line} {life life' : Life} (lines : List Line)
      → Flushes put_time max_file_bytes max_backups (state r f w life) (state r' f w life')
      → Stops r' f w life' lines
      → Stops r f w life lines
  unfolding Stops
  silent_first lines s (r'', f'', runs, nothing_left) = (r'', f'', first s runs, nothing_left)

  module _ (r : RingBuffer) (v : IsValid r) where
    from_joined : (f : Files) (w : List Line) → Stops r f w joined (map visible (pending r))
    unfolding Stops
    from_joined f w = (
      record r { count = 0 },
      _,
      first (last_take (take_pending_lem v)) (first (last_write working) arrived),
      pending_emptied r,
    )

    from_testing :
        (f : Files) (w : List Line) → Stops r f w (threaded true testing) (map visible (pending r))
    from_testing f w = silent_first _ leave (silent_first _ join (from_joined f w))

    from_writing :
        (f : Files) (w : List Line) (drained : List LogEntry)
        → Stops r f w
            (threaded true (writing drained))
            (map visible drained ++ map visible (pending r))
    from_writing f w drained =
        step_first (map visible drained) (map visible (pending r)) (write working)
          (from_testing _ _)

  from_flushing :
      (r : RingBuffer) (f : Files) (w : List Line)
      → IsValid r
      → Stops r f w (threaded true flushing) (map visible (pending r))
  from_flushing r f w v =
      let emptied = record r { count = 0 } in
      let rest = from_writing emptied (emptied-IsValid v) f w (pending r) in
      let none_left : map visible (pending r) ++ map visible (pending emptied)
          ≡ map visible (pending r) =
        ap (λ (es : List LogEntry). map visible (pending r) ++ map visible es) (pending_emptied r)
        ∙ append-nil (map visible (pending r)) in
      silent_first _ (take (take_pending_lem v))
        (subst (Stops emptied f w (threaded true (writing (pending r)))) none_left rest)

  -- Once the flush thread is asked to stop, and where nothing more is logged, there is a run in which
  -- `stop` returns with the lines handed to `write_entries` that were in that thread's hands, and
  -- after them those that were pending, and with none pending.
  pub stop_writes_all :
      (r : RingBuffer) (f : Files) (w : List Line) (life : Life)
      → IsValid r
      → IsStopping life
      → (r' : RingBuffer) × (f' : Files) × Runs
          (state r f w life)
          (state r' f' (w ++ (map visible (in_hand life) ++ map visible (pending r))) idle)
        × (pending r' ≡ [])
  unfolding in_hand Stops
  stop_writes_all r f w (threaded _ testing) v asked = from_testing r v f w
  stop_writes_all r f w (threaded _ waiting) v asked = silent_first _ wake (from_flushing r f w v)
  stop_writes_all r f w (threaded _ flushing) v asked = from_flushing r f w v
  stop_writes_all r f w (threaded _ (writing drained)) v asked = from_writing r v f w drained
  stop_writes_all r f w (threaded _ ended) v asked = silent_first _ join (from_joined r v f w)
  stop_writes_all r f w _ v alone = from_joined r v f w

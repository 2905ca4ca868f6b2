-- ===== src/Logger/Threads.antt =====
-- The threads of the logger: `start`, `stop` and `flush_loop`, interleaved with calls of `log`.
-- The steps are those between which another thread may run: what is done under the mutex is one step.
pub mod Ordered
pub mod Stop
mod Examples
use openaslc.Base.{ℕ, String, Bool, true, false, ◌≡◌, Option, none, some, List, [], ◌++◌, map}
use openaslc.Base.Outcome.{ok}
use openaslc.Logger.{
  Disk, LogLevel, LogEntry, RingBuffer, Files, log, take_pending, write_entries, initial,
}
use openaslc.Logger.Fifo.{Line, visible}

-- Where the flush thread is: at the test of its loop, waiting, before or inside `flush_pending`, or
-- at its end.
pub data FlushLoop : Type 0 where
  testing : FlushLoop
  waiting : FlushLoop
  flushing : FlushLoop
  writing : List LogEntry → FlushLoop
  ended : FlushLoop

-- Where the logger is in its life: without a thread; with one, which is asked to stop (`true`) by a
-- caller of `stop` that waits in `join`, or not; or in the final `flush_pending` of `stop`.
pub data Life : Type 0 where
  idle : Life
  threaded : Bool → FlushLoop → Life
  joined : Life
  finishing : List LogEntry → Life

-- `is_running_`
unfoldable pub is_running : Life → Bool
is_running idle = false
is_running (threaded true at) = false
is_running (threaded false at) = true
is_running joined = false
is_running (finishing drained) = false

-- The ring, the files, the lines that were handed to `write_entries`, in order, and the life.
pub data State : Type 0 where
  state : RingBuffer → Files → List Line → Life → State

-- `none` while a caller is inside `stop`: `is_running_` is then false already, so the source starts
-- a second flush thread beside the first one, or beside the last `flush_pending`. The steps below
-- leave that out.
unfoldable pub start : Life → Option Life
start idle = some (threaded false testing)
start (threaded false at) = some (threaded false at)
start (threaded true at) = none
start joined = none
start (finishing drained) = none

-- `stop` up to `join`.
unfoldable pub request_stop : Life → Life
request_stop (threaded false at) = threaded true at
request_stop life = life

-- Limits of the file and the backups as in `write_entries`.
module _ (put_time : ℕ → String) (max_file_bytes max_backups : ℕ) where
  -- What the flush thread does, and a caller of `stop` that is past `request_stop`.
  pub data Flushes : State → State → Type 0 where
    enter :
        {r : RingBuffer} {f : Files} {w : List Line}
        → Flushes (state r f w (threaded false testing)) (state r f w (threaded false waiting))
    leave :
        {r : RingBuffer} {f : Files} {w : List Line}
        → Flushes (state r f w (threaded true testing)) (state r f w (threaded true ended))
    -- `wait_for` returns: notified, or after 200 ms
    wake :
        {r : RingBuffer} {f : Files} {w : List Line} {asked : Bool}
        → Flushes (state r f w (threaded asked waiting)) (state r f w (threaded asked flushing))
    take :
        {r r' : RingBuffer} {f : Files} {w : List Line} {asked : Bool} {drained : List LogEntry}
        → take_pending r ≡ ok (drained, r')
        → Flushes
            (state r f w (threaded asked flushing))
            (state r' f w (threaded asked (writing drained)))
    write :
        {r : RingBuffer} {f : Files} {w : List Line} {asked : Bool} {drained : List LogEntry}
        (disk : Disk)
        → Flushes (state r f w (threaded asked (writing drained))) (
            state r
              (write_entries put_time disk max_file_bytes max_backups drained f)
              (w ++ map visible drained)
              (threaded asked testing))
    join :
        {r : RingBuffer} {f : Files} {w : List Line}
        → Flushes (state r f w (threaded true ended)) (state r f w joined)
    last_take :
        {r r' : RingBuffer} {f : Files} {w : List Line} {drained : List LogEntry}
        → take_pending r ≡ ok (drained, r')
        → Flushes (state r f w joined) (state r' f w (finishing drained))
    last_write :
        {r : RingBuffer} {f : Files} {w : List Line} {drained : List LogEntry} (disk : Disk)
        → Flushes (state r f w (finishing drained)) (
            state r
              (write_entries put_time disk max_file_bytes max_backups drained f)
              (w ++ map visible drained)
              idle)

  pub data Step : State → State → Type 0 where
    flushes : {u v : State} → Flushes u v → Step u v
    -- any thread logs, at any time
    logs :
        {r r' : RingBuffer} {f : Files} {w : List Line} {life : Life} (now : ℕ) (level : LogLevel)
        (text : List ℕ)
        → log r now level text ≡ ok r'
        → Step (state r f w life) (state r' f w life)
    starts :
        {r : RingBuffer} {f : Files} {w : List Line} {life life' : Life}
        → start life ≡ some life'
        → Step (state r f w life) (state r f w life')
    stops :
        {r : RingBuffer} {f : Files} {w : List Line} {life : Life}
        → Step (state r f w life) (state r f w (request_stop life))

  pub data Reach (u : State) : State → Type 0 where
    here : Reach u u
    next : {v v' : State} → Reach u v → Step v v' → Reach u v'

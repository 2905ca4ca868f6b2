-- ===== src/Logger/Threads/Ordered.antt =====
-- Whatever the threads do, the lines reach the file in the order of the calls.
use openaslc.Base.{ℕ, ◌≡◌, List, [], ◌∷◌, ◌++◌, map}
use openaslc.Base.Lists
use openaslc.Base.{String}
use openaslc.Logger.{max_message_len, LogLevel, LogEntry, RingBuffer}
use openaslc.Logger.Ring.{IsValid}
use openaslc.Logger.Fifo.{Line, visible, Fifo, view}
use openaslc.Logger.History
use openaslc.Logger.History.{Call, run_fifo}
use openaslc.Logger.Threads.{
  writing, Life, threaded, finishing, State, state, Flushes, enter, leave, wake, take, write, join,
  last_take, last_write, Step, starts, stops, Reach, here, next,
}

abbrev pub nothing : Fifo
nothing = record { lines = []; dropped = 0 }

abbrev line_of : ℕ → LogLevel → List ℕ → Line
line_of now level text = record {
  timestamp = now;
  level = level;
  text = Lists.take max_message_len text;
}

-- What is taken from the ring and not yet written.
unfoldable pub in_hand : Life → List LogEntry
in_hand (threaded asked (writing drained)) = drained
in_hand (finishing drained) = drained
in_hand life = []

-- The bounded queue that saw these calls has handed out what is written and in hand, and holds what
-- the ring holds.
pub record Agrees (calls : List Call) (r : RingBuffer) (out : List Line) : Type 0 where
  pub valid : IsValid r
  pub handed : (run_fifo nothing calls).0 ≡ out
  pub queue : (run_fifo nothing calls).1 ≡ view r

abbrev pub Follows : List Call → State → Type 0
Follows calls (state r f w life) = Agrees calls r (w ++ map visible (in_hand life))

module _ (put_time : ℕ → String) (max_file_bytes max_backups : ℕ) where
  -- The calls that the steps make, in order.
  unfoldable pub flush_calls :
      {u v : State} → Flushes put_time max_file_bytes max_backups u v → List Call
  flush_calls enter = []
  flush_calls leave = []
  flush_calls wake = []
  flush_calls (take e) = History.flushes ∷ []
  flush_calls (write disk) = []
  flush_calls join = []
  flush_calls (last_take e) = History.flushes ∷ []
  flush_calls (last_write disk) = []

  unfoldable pub step_calls :
      {u v : State} → Step put_time max_file_bytes max_backups u v → List Call
  step_calls (Step.flushes s) = flush_calls s
  step_calls (Step.logs now level text e) = History.logs now level text ∷ []
  step_calls (starts e) = []
  step_calls stops = []

  unfoldable pub calls_of :
      {u v : State} → Reach put_time max_file_bytes max_backups u v → List Call
  calls_of here = []
  calls_of (next reach step) = calls_of reach ++ step_calls step

-- ===== src/Logger/Threads/Examples.antt =====
-- A logger that is started, gets a line and is stopped at once.
use openaslc.Base.{ℕ, String, ◌≡◌, [], ◌∷◌, none, get_or, map}
use openaslc.Logger.{
  working, flush_pending, warn, LogEntry, RingBuffer, Files, initial, blank, written,
}
use openaslc.Logger.Ring.{IsValid, pending, initial-IsValid, logged, logged-IsValid}
use openaslc.Logger.Fifo.{visible}
use openaslc.Logger.Writes.{FlushEnds, flush_pending-FlushEnds}
use openaslc.Base.Outcome.{ok}

abbrev clock : ℕ → String
clock now = "2026-01-01T00:00:00"

abbrev no_files : Files
no_files i = none

abbrev entry : LogEntry
entry = written (get_or initial.buffer initial.head blank) 7 warn (104 ∷ 105 ∷ [])

abbrev one_line : RingBuffer
one_line = logged initial entry

one_line-IsValid : IsValid one_line
one_line-IsValid = logged-IsValid entry initial-IsValid

flush_pending-FlushEnds_example :
    (files' : Files) × (flush_pending clock working 5000 3 one_line no_files
      ≡ ok (record one_line { count = 0 }, files'))
    × FlushEnds clock working 5000 3 (map visible (pending one_line)) no_files files'
flush_pending-FlushEnds_example =
    flush_pending-FlushEnds clock working 5000 3 one_line no_files one_line-IsValid

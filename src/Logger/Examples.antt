-- ===== src/Logger/Examples.antt =====
-- A short life of a logger.
use openaslc.Base.{
  ◌+◌, ◌^◌, ◌<◌, ◌≡◌, refl, List, [], ◌∷◌, arith, none, some, ltb, ◌==◌, if◌then◌else◌, length,
  take,
}
use openaslc.Base.Outcome.{ok}
use openaslc.Logger.{
  working, info, warn, error, RingBuffer, initial, max_message_len, log, Files, rotate_if_needed,
}
use openaslc.Logger.Ring.{IsValid, pending, initial-IsValid}
use openaslc.Logger.Fifo.{push, view, log_refines}
use openaslc.Logger.History.{Call, logs, flushes, run, run_fifo, logs_in, run_refines, run_accounts}
use openaslc.Logger.Rotation.{or_else, rotate_lem}

log_refines_example :
    (r' : RingBuffer) × (log initial 7 warn (104 ∷ 105 ∷ []) ≡ ok r')
    × IsValid r'
    × (view r'
        ≡ push
            (view initial)
            (record { timestamp = 7; level = warn; text = take max_message_len (104 ∷ 105 ∷ []) }))
log_refines_example = log_refines 7 warn (104 ∷ 105 ∷ []) initial-IsValid

abbrev calls : List Call
calls = logs 7 info (104 ∷ []) ∷ (flushes ∷ (logs 8 error (105 ∷ []) ∷ []))

calls_return :
    (r' : RingBuffer) × (run initial calls ≡ ok ((run_fifo (view initial) calls).0, r'))
    × IsValid r'
    × (view r' ≡ (run_fifo (view initial) calls).1)
calls_return = run_refines calls initial-IsValid

no_drops : initial.dropped + logs_in calls < 2 ^ 64
unfolding initial logs_in
no_drops = omega arith

run_accounts_example :
    length (pending initial) + initial.dropped + logs_in calls
    ≡ length (run_fifo (view initial) calls).0
      + length (pending calls_return.0)
      + calls_return.0.dropped
run_accounts_example =
    run_accounts calls (run_fifo (view initial) calls).0 initial-IsValid no_drops calls_return.1

-- A log of three bytes and one backup.
abbrev files : Files
files i = if i == 0 then some (1 ∷ 2 ∷ 3 ∷ []) else if i == 1 then some (4 ∷ []) else none

rotate_lem_example :
    let after = rotate_if_needed working 3 2 files in
    (after 0 ≡ none)
    × (after 1 ≡ files 0)
    × (after (0 + 2) ≡ (
        if ltb 2 (0 + 2)
        then files (0 + 2)
        else if 0 + 2 == 2
        then or_else (files (0 + 1)) (files (0 + 2))
        else files (0 + 1)))
rotate_lem_example = rotate_lem working 3 2 files 0 (λ src. refl) refl (omega arith)

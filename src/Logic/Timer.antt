-- ===== src/Logic/Timer.antt =====
-- The on-delay timer over many scans: `TonTimerNode`.
use openaslc.Base.{
  ℕ, ◌+◌, ◌*◌, ◌^◌, ◌≤◌, ◌<◌, ◌≡◌, refl, ap, ◌∙◌, Bool, true, false, ◌&&◌, List, [], ◌∷◌, arith,
  All, leb, if◌then◌else◌, length,
}
use native.Mathlib.Nat.{mod-eq_of_lt}
use openaslc.MemoryMap.{MemoryMap, IsValid}
use openaslc.Base.Outcome.{Outcome, ok, ◌>>=◌}
use openaslc.Logic.{LogicNode, ton_timer_node, tick, evaluate}
use openaslc.Logic.Meaning.{value, advance, IsWellFormed, evaluate_lem, advance-IsWellFormed}

-- A node after the scans of a history, oldest first.
pub scans : List MemoryMap → LogicNode → LogicNode
scans [] n = n
scans (mem ∷ history) n = scans history (advance mem n)

-- For how many scans in a row the node has been true at the end of a history, `count` being the
-- number of those before it.
pub true_for : List MemoryMap → LogicNode → ℕ → ℕ
true_for [] n count = count
true_for (mem ∷ history) n count =
    true_for history (advance mem n) (if value mem n then count + 1 else 0)

pub true_for-le :
    (history : List MemoryMap) (n : LogicNode) (count : ℕ)
    → true_for history n count ≤ count + length history
unfolding true_for
true_for-le [] n count = omega arith
true_for-le (mem ∷ history) n count =
    ground (arith, true_for-le history (advance mem n) (if value mem n then count + 1 else 0))

tick_up :
    (input : LogicNode) (preset_ms period_ms elapsed : ℕ)
    → elapsed + 1 < 2 ^ 64
    → (tick input preset_ms period_ms elapsed true).1
      ≡ ton_timer_node input preset_ms period_ms (elapsed + 1)
unfolding tick
tick_up input preset_ms period_ms elapsed h =
    ap (ton_timer_node input preset_ms period_ms) (omega arith)

tick_down :
    (input : LogicNode) (preset_ms period_ms elapsed : ℕ)
    → (tick input preset_ms period_ms elapsed false).1 ≡ ton_timer_node input preset_ms period_ms 0
unfolding tick
tick_down input preset_ms period_ms elapsed = refl

-- A timer after any history: its input has gone through the same scans, and the counter holds for
-- how many scans in a row the input has been true. The counter does not wrap in 2^64 scans.
pub scans-ton_timer_node :
    (history : List MemoryMap) (input : LogicNode) (preset_ms period_ms elapsed : ℕ)
    → elapsed + length history < 2 ^ 64
    → scans history (ton_timer_node input preset_ms period_ms elapsed)
      ≡ ton_timer_node (scans history input) preset_ms period_ms (true_for history input elapsed)
unfolding scans true_for advance
scans-ton_timer_node [] input preset_ms period_ms elapsed h = refl
scans-ton_timer_node (mem ∷ history) input preset_ms period_ms elapsed h =
    by_input (value mem input)
      (scans-ton_timer_node history (advance mem input) preset_ms period_ms (elapsed + 1)
        (omega arith))
      (scans-ton_timer_node history (advance mem input) preset_ms period_ms 0 (omega arith))
  where
    after : ℕ → Type 0
    after count =
        scans history (ton_timer_node (advance mem input) preset_ms period_ms count)
        ≡ ton_timer_node (scans history (advance mem input)) preset_ms period_ms
            (true_for history (advance mem input) count)

    by_input :
        (b : Bool)
        → after (elapsed + 1)
        → after 0
        → scans history (tick (advance mem input) preset_ms period_ms elapsed b).1
          ≡ ton_timer_node
              (scans history (advance mem input))
              preset_ms
              period_ms
              (true_for history (advance mem input) (if b then elapsed + 1 else 0))
    by_input true up down =
        ap (scans history) (tick_up (advance mem input) preset_ms period_ms elapsed (omega arith))
        ∙ up
    by_input false up down =
        ap (scans history) (tick_down (advance mem input) preset_ms period_ms elapsed) ∙ down

value_after :
    (history : List MemoryMap) (mem : MemoryMap) (input : LogicNode) (preset_ms period_ms : ℕ)
    → length history + 1 < 2 ^ 64
    → (length history + 1) * period_ms < 2 ^ 64
    → value mem (scans history (ton_timer_node input preset_ms period_ms 0)) ≡ (
        value mem (scans history input)
        && leb preset_ms ((true_for history input 0 + 1) * period_ms))
unfolding value
value_after history mem input preset_ms period_ms h k =
    let n = true_for history input 0 in
    let fits : n + 1 ≤ length history + 1 = omega (arith, true_for-le history input 0) in
    let time : (n + 1) * period_ms < 2 ^ 64 = grind arith in
    rw (scans-ton_timer_node history input preset_ms period_ms 0 (omega arith))
      (ground (arith, mod-eq_of_lt {n = n + 1} {m = 2 ^ 64}, mod-eq_of_lt time))

-- `evaluate`, once for each scan of a history.
pub evaluate_each : List MemoryMap → LogicNode → Outcome LogicNode
evaluate_each [] n = ok n
evaluate_each (mem ∷ history) n = do (b, n') ← evaluate mem n; evaluate_each history n'

-- What the last of these scans gives.
abbrev pub evaluate_last : List MemoryMap → MemoryMap → LogicNode → Outcome Bool
evaluate_last history mem n = do n' ← evaluate_each history n; (b, n'') ← evaluate mem n'; ok b

evaluate_each-scans :
    (history : List MemoryMap) (n : LogicNode)
    → All IsValid history
    → IsWellFormed n
    → (evaluate_each history n ≡ ok (scans history n)) × IsWellFormed (scans history n)
unfolding evaluate_each scans
evaluate_each-scans [] n v h = (refl, h)
evaluate_each-scans (mem ∷ history) n v h =
    let (e, h') = evaluate_each-scans history (advance mem n) v.1 (advance-IsWellFormed mem n h) in
    (rw (evaluate_lem n v.0 h) e, h')

-- A fresh timer is evaluated once in each scan of a history and then once more: the last `evaluate`
-- returns true exactly when its input is true at that scan and, with it, has been true for as many
-- scans in a row as add up to the preset time; provided that the references of the input lie inside
-- their areas, that the maps are valid, and that the total time fits 64 bits.
pub ton_timer_lem :
    (history : List MemoryMap) (mem : MemoryMap) (input : LogicNode) (preset_ms period_ms : ℕ)
    → All IsValid history
    → IsValid mem
    → IsWellFormed input
    → length history + 1 < 2 ^ 64
    → (length history + 1) * period_ms < 2 ^ 64
    → evaluate_last history mem (ton_timer_node input preset_ms period_ms 0)
      ≡ ok (
          value mem (scans history input)
          && leb preset_ms ((true_for history input 0 + 1) * period_ms))
ton_timer_lem history mem input preset_ms period_ms vs v w h k =
    let timer : LogicNode = ton_timer_node input preset_ms period_ms 0 in
    let (each, last) = evaluate_each-scans history timer vs w in
    rw each (
      rw (evaluate_lem (scans history timer) v last)
        (ap ok (value_after history mem input preset_ms period_ms h k)))

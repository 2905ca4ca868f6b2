-- ===== src/Logic/Meaning.antt =====
-- What a node computes, said without the order of evaluation: a value and a next state.
use openaslc.Base.{
  ℕ, ◌+◌, ◌*◌, ◌%◌, ◌^◌, ◌≤◌, ◌<◌, ◌≡◌, Bool, true, false, not, ◌&&◌, ◌||◌, arith, leb,
}
use openaslc.Base.Outcome.{ok}
use openaslc.MemoryMap.{MemoryMap, get_size, IsValid}
use openaslc.MemoryMap.Cells.{bit_of, read_bit_in}
use openaslc.Logic.{
  SignalRef, LogicNode, LogicNodes, signal_ref_node, and_node, or_node, not_node, ton_timer_node,
  no_nodes, and_then, tick, evaluate, evaluate_all, evaluate_any,
}

-- A reference that lies inside its area.
abbrev pub InRange : SignalRef → Type 0
InRange ref = (ref.byte < get_size ref.area) × (ref.bit ≤ 7)

-- Every reference of a tree lies inside its area.
abbrev mutual
  pub IsWellFormed : LogicNode → Type 0
  IsWellFormed (signal_ref_node ref) = InRange ref
  IsWellFormed (and_node inputs) = AllWellFormed inputs
  IsWellFormed (or_node inputs) = AllWellFormed inputs
  IsWellFormed (not_node input) = IsWellFormed input
  IsWellFormed (ton_timer_node input preset_ms period_ms elapsed_cycles) = IsWellFormed input

  pub AllWellFormed : LogicNodes → Type 0
  AllWellFormed no_nodes = Unit
  AllWellFormed (and_then child rest) = IsWellFormed child × AllWellFormed rest

-- The value of a node, as a Boolean formula over the map and the timers' counters.
unfoldable mutual
  pub value : MemoryMap → LogicNode → Bool
  value mem (signal_ref_node ref) = bit_of mem ref.area ref.byte ref.bit
  value mem (and_node inputs) = every mem inputs
  value mem (or_node inputs) = some_of mem inputs
  value mem (not_node input) = not (value mem input)
  value mem (ton_timer_node input preset_ms period_ms elapsed_cycles) =
      value mem input && leb preset_ms ((elapsed_cycles + 1) % 2 ^ 64 * period_ms % 2 ^ 64)

  pub every : MemoryMap → LogicNodes → Bool
  every mem no_nodes = true
  every mem (and_then child rest) = value mem child && every mem rest

  pub some_of : MemoryMap → LogicNodes → Bool
  some_of mem no_nodes = false
  some_of mem (and_then child rest) = value mem child || some_of mem rest

-- The next state: every child of every node advances, whatever its siblings' values are.
unfoldable mutual
  pub advance : MemoryMap → LogicNode → LogicNode
  advance mem (signal_ref_node ref) = signal_ref_node ref
  advance mem (and_node inputs) = and_node (advance_each mem inputs)
  advance mem (or_node inputs) = or_node (advance_each mem inputs)
  advance mem (not_node input) = not_node (advance mem input)
  advance mem (ton_timer_node input preset_ms period_ms elapsed_cycles) =
      (tick (advance mem input) preset_ms period_ms elapsed_cycles (value mem input)).1

  pub advance_each : MemoryMap → LogicNodes → LogicNodes
  advance_each mem no_nodes = no_nodes
  advance_each mem (and_then child rest) = and_then (advance mem child) (advance_each mem rest)

tick_lem :
    (input : LogicNode) (preset_ms period_ms elapsed_cycles : ℕ) (b : Bool)
    → (tick input preset_ms period_ms elapsed_cycles b).0
      ≡ (b && leb preset_ms ((elapsed_cycles + 1) % 2 ^ 64 * period_ms % 2 ^ 64))
unfolding tick
tick_lem input preset_ms period_ms elapsed_cycles b = ground arith

and_carry : (a b c : Bool) → ((b && a) && c) ≡ (a && (b && c))
and_carry a b c = ground arith

or_carry : (a b c : Bool) → ((b || a) || c) ≡ (a || (b || c))
or_carry a b c = ground arith

module _ (mem : MemoryMap) (v : IsValid mem) where
  mutual
    unfolding evaluate value advance

    evaluates : (n : LogicNode) → IsWellFormed n → evaluate mem n ≡ ok (value mem n, advance mem n)
    evaluates (signal_ref_node ref) h = rw (read_bit_in ref.area ref.byte ref.bit v h.0 h.1)
    evaluates (and_node inputs) h = rw (evaluates_all true inputs h)
    evaluates (or_node inputs) h = rw (evaluates_any false inputs h)
    evaluates (not_node input) h = rw (evaluates input h)
    evaluates (ton_timer_node input preset_ms period_ms elapsed_cycles) h = rw (
      evaluates input h,
      ← tick_lem (advance mem input) preset_ms period_ms elapsed_cycles (value mem input),
    )

    evaluates_all :
        (result : Bool) (xs : LogicNodes)
        → AllWellFormed xs
        → evaluate_all mem result xs ≡ ok (result && every mem xs, advance_each mem xs)
    evaluates_all result no_nodes h = ground arith
    evaluates_all result (and_then child rest) h = rw (
      evaluates child h.0,
      evaluates_all (value mem child && result) rest h.1,
      and_carry result (value mem child) (every mem rest),
    )

    evaluates_any :
        (result : Bool) (xs : LogicNodes)
        → AllWellFormed xs
        → evaluate_any mem result xs ≡ ok (result || some_of mem xs, advance_each mem xs)
    evaluates_any result no_nodes h = ground arith
    evaluates_any result (and_then child rest) h = rw (
      evaluates child h.0,
      evaluates_any (value mem child || result) rest h.1,
      or_carry result (value mem child) (some_of mem rest),
    )

-- On a valid map, `evaluate` of a tree whose references lie inside their areas returns without an
-- exception: its result is the value of the formula, and every node of the tree has advanced, also
-- those behind a sibling that already decides an AND or an OR.
pub evaluate_lem :
    {mem : MemoryMap} (n : LogicNode)
    → IsValid mem
    → IsWellFormed n
    → evaluate mem n ≡ ok (value mem n, advance mem n)
evaluate_lem {mem} n v h = evaluates mem v n h

ticked :
    (input : LogicNode) (preset_ms period_ms elapsed_cycles : ℕ) (b : Bool)
    → IsWellFormed input
    → IsWellFormed (tick input preset_ms period_ms elapsed_cycles b).1
unfolding tick
ticked input preset_ms period_ms elapsed_cycles true h = h
ticked input preset_ms period_ms elapsed_cycles false h = h

mutual
  unfolding advance

  advance-wf : (mem : MemoryMap) (n : LogicNode) → IsWellFormed n → IsWellFormed (advance mem n)
  advance-wf mem (signal_ref_node ref) h = h
  advance-wf mem (and_node inputs) h = advance_each-wf mem inputs h
  advance-wf mem (or_node inputs) h = advance_each-wf mem inputs h
  advance-wf mem (not_node input) h = advance-wf mem input h
  advance-wf mem (ton_timer_node input preset_ms period_ms elapsed_cycles) h =
      ticked (advance mem input) preset_ms period_ms elapsed_cycles (value mem input)
        (advance-wf mem input h)

  advance_each-wf :
      (mem : MemoryMap) (xs : LogicNodes) → AllWellFormed xs → AllWellFormed (advance_each mem xs)
  advance_each-wf mem no_nodes h = tt
  advance_each-wf mem (and_then child rest) h =
      (advance-wf mem child h.0, advance_each-wf mem rest h.1)

pub advance-IsWellFormed :
    (mem : MemoryMap) (n : LogicNode) → IsWellFormed n → IsWellFormed (advance mem n)
advance-IsWellFormed mem n h = advance-wf mem n h

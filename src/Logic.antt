-- ===== src/Logic.antt =====
-- The logic interpreter: include/openaslc/logic_interpreter.hpp and src/logic_interpreter.cpp.
-- This file has the tree of nodes, the rules and their execution; the children have the proofs, the
-- parser of logic documents (Parse) and the hot-swap wrapper (Runtime).
pub mod Meaning
pub mod Timer
pub mod Program
pub mod Examples
pub mod Parse
pub mod Runtime
use openaslc.Base.{
  ℕ, ◌+◌, ◌*◌, ◌%◌, ◌^◌, Bool, true, false, not, ◌&&◌, ◌||◌, List, [], ◌∷◌, leb, if◌then◌else◌,
  length, String, Option,
}
use openaslc.Base.Outcome.{Outcome, ok, throws, undefined, ◌>>=◌}
use openaslc.MemoryMap.{MemoryArea, MemoryMap, read_bit, write_bit}

-- `SignalRef`.
pub record SignalRef : Type 0 where
  pub node : Option String
  pub area : MemoryArea
  pub byte : ℕ
  pub bit : ℕ

-- `LogicNode` and its subclasses, and the vectors of children.
mutual
  pub data LogicNode : Type 0 where
    signal_ref_node : SignalRef → LogicNode
    and_node : LogicNodes → LogicNode
    or_node : LogicNodes → LogicNode
    not_node : LogicNode → LogicNode
    -- input, preset_ms_, period_ms_ and elapsed_cycles_
    ton_timer_node : LogicNode → ℕ → ℕ → ℕ → LogicNode

  pub data LogicNodes : Type 0 where
    no_nodes : LogicNodes
    and_then : LogicNode → LogicNodes → LogicNodes

-- The end of `TonTimerNode::evaluate`, with the counter's `uint64_t` arithmetic.
unfoldable pub tick : LogicNode → ℕ → ℕ → ℕ → Bool → Bool × LogicNode
tick input preset_ms period_ms elapsed_cycles true =
    let elapsed = (elapsed_cycles + 1) % 2 ^ 64 in
    (leb preset_ms (elapsed * period_ms % 2 ^ 64), ton_timer_node input preset_ms period_ms elapsed)
tick input preset_ms period_ms elapsed_cycles false =
    (false, ton_timer_node input preset_ms period_ms 0)

-- `evaluate`, with the node as it is afterwards. The loops over the children carry `result`.
unfoldable mutual
  pub evaluate : MemoryMap → LogicNode → Outcome (Bool × LogicNode)
  evaluate mem (signal_ref_node ref) = do
    b ← read_bit mem ref.area ref.byte ref.bit
    ok (b, signal_ref_node ref)
  evaluate mem (and_node inputs) = do
    (b, inputs') ← evaluate_all mem true inputs
    ok (b, and_node inputs')
  evaluate mem (or_node inputs) = do
    (b, inputs') ← evaluate_any mem false inputs
    ok (b, or_node inputs')
  evaluate mem (not_node input) = do (b, input') ← evaluate mem input; ok (not b, not_node input')
  evaluate mem (ton_timer_node input preset_ms period_ms elapsed_cycles) = do
    (b, input') ← evaluate mem input
    ok (tick input' preset_ms period_ms elapsed_cycles b)

  pub evaluate_all : MemoryMap → Bool → LogicNodes → Outcome (Bool × LogicNodes)
  evaluate_all mem result no_nodes = ok (result, no_nodes)
  evaluate_all mem result (and_then child rest) = do
    (b, child') ← evaluate mem child
    (r, rest') ← evaluate_all mem (b && result) rest
    ok (r, and_then child' rest')

  pub evaluate_any : MemoryMap → Bool → LogicNodes → Outcome (Bool × LogicNodes)
  evaluate_any mem result no_nodes = ok (result, no_nodes)
  evaluate_any mem result (and_then child rest) = do
    (b, child') ← evaluate mem child
    (r, rest') ← evaluate_any mem (b || result) rest
    ok (r, and_then child' rest')

pub record Rule : Type 0 where
  pub id : String
  pub output : SignalRef
  pub condition : LogicNode

-- `LogicProgram::rules_`.
abbrev pub LogicProgram : Type 0
LogicProgram = List Rule

-- `LogicProgram::execute`, with the program as it is afterwards.
unfoldable pub execute : LogicProgram → MemoryMap → Outcome (LogicProgram × MemoryMap)
execute [] mem = ok ([], mem)
execute (rule ∷ rules) mem = do
  (result, condition) ← evaluate mem rule.condition
  mem' ← write_bit mem rule.output.area rule.output.byte rule.output.bit result
  (rules', mem'') ← execute rules mem'
  ok (record rule { condition = condition } ∷ rules', mem'')

unfoldable pub rule_count : LogicProgram → ℕ
rule_count rules = length rules

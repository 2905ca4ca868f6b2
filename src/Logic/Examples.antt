-- ===== src/Logic/Examples.antt =====
-- A small program: an output that follows an input after a delay, and a latch that reads it.
use openaslc.Base.{◌+◌, ◌*◌, ◌≡◌, refl, ◌&&◌, [], ◌∷◌, arith, none, leb}
use openaslc.Base.Outcome.{ok}
use openaslc.MemoryMap.{input, output, memory, initial}
use openaslc.MemoryMap.Bounds.{initial-IsValid}
use openaslc.MemoryMap.Cells.{bit_of}
use openaslc.Logic.{
  SignalRef, LogicNode, signal_ref_node, or_node, ton_timer_node, no_nodes, and_then, evaluate,
  Rule, LogicProgram, execute,
}
use openaslc.Logic.Meaning.{IsWellFormed, value, advance, evaluate_lem}
use openaslc.Logic.Timer.{scans, true_for, evaluate_last, ton_timer_lem}
use openaslc.Logic.Program.{
  ProgramWellFormed, apply_rules, advance_rules, execute_lem, apply_rules-NoOutput,
  output_after_scan,
}

abbrev button : LogicNode
button = signal_ref_node (record { node = none; area = input; byte = 0; bit = 0 })

abbrev delayed : LogicNode
delayed = ton_timer_node button 30 10 0

abbrev lamp : SignalRef
lamp = record { node = none; area = output; byte = 0; bit = 1 }

abbrev latch : SignalRef
latch = record { node = none; area = memory; byte = 5; bit = 7 }

abbrev pub delay_rule : Rule
delay_rule = record { id = "delay"; output = lamp; condition = delayed }

abbrev pub latch_rule : Rule
latch_rule = record {
  id = "latch";
  output = latch;
  condition = or_node (and_then (signal_ref_node latch) (and_then (signal_ref_node lamp) no_nodes));
}

abbrev pub program : LogicProgram
program = delay_rule ∷ (latch_rule ∷ [])

delayed-IsWellFormed : IsWellFormed delayed
delayed-IsWellFormed = (omega arith, omega arith)

pub program-WellFormed : ProgramWellFormed program
program-WellFormed = (
  record {
    output_range = (omega arith, omega arith);
    output_area = refl;
    condition_range = delayed-IsWellFormed;
  },
  (
    record {
      output_range = (omega arith, omega arith);
      output_area = refl;
      condition_range = ((omega arith, omega arith), ((omega arith, omega arith), tt));
    },
    tt,
  ),
)

evaluate_lem_example :
    evaluate initial delayed ≡ ok (value initial delayed, advance initial delayed)
evaluate_lem_example = evaluate_lem delayed initial-IsValid delayed-IsWellFormed

ton_timer_lem_example :
    evaluate_last (initial ∷ (initial ∷ [])) initial delayed
    ≡ ok (
        value initial (scans (initial ∷ (initial ∷ [])) button)
        && leb 30 ((true_for (initial ∷ (initial ∷ [])) button 0 + 1) * 10))
ton_timer_lem_example =
    ton_timer_lem (initial ∷ (initial ∷ [])) initial button 30 10
      (initial-IsValid, (initial-IsValid, tt)) initial-IsValid delayed-IsWellFormed (omega arith)
      (omega arith)

execute_lem_example :
    execute program initial ≡ ok (advance_rules program initial, apply_rules program initial)
execute_lem_example = execute_lem program initial-IsValid program-WellFormed

execute-program :
    execute program initial ≡ ok (advance_rules program initial, apply_rules program initial)
execute-program = execute_lem program initial-IsValid program-WellFormed

apply_rules-NoOutput_example :
    bit_of (apply_rules program initial) output 0 0 ≡ bit_of initial output 0 0
apply_rules-NoOutput_example =
    apply_rules-NoOutput program output 0 0 initial-IsValid program-WellFormed (omega arith)
      (refl, (refl, tt))

output_after_scan_example :
    bit_of (apply_rules program initial) memory 5 7
    ≡ value (apply_rules (delay_rule ∷ []) initial) latch_rule.condition
output_after_scan_example =
    output_after_scan (delay_rule ∷ []) latch_rule [] (advance_rules program initial)
      initial-IsValid program-WellFormed tt execute-program

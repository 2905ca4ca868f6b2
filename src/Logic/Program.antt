-- ===== src/Logic/Program.antt =====
-- Programs: what a scan of all rules does to the map.
use openaslc.Base.{
  ℕ, suc, ◌≤◌, ◌≡◌, refl, ap, sym, subst, set, ◌∙◌, true, false, ◌&&◌, [], ◌∷◌, ◌++◌, arith, ◌==◌,
  All, All-right,
}
use openaslc.Base.Outcome.{ok}
use openaslc.MemoryMap.{MemoryMap, MemoryArea, input, area_of, cell, area_eq, IsValid}
use openaslc.MemoryMap.Cells.{
  bit_of, bit_stored, write_bit_in, stored-IsValid, bit_of-bit_stored, area_of-with_area,
}
use openaslc.Base.Bits.{put_bit, put_bit-lt}
use openaslc.Logic.{Rule, LogicProgram, execute, rule_count}
use openaslc.Logic.Meaning.{
  InRange, IsWellFormed, value, advance, evaluate_lem, advance-IsWellFormed,
}

-- What `from_json` guarantees of a rule: every reference lies inside its area, and the output is
-- not an input of the controller.
pub record RuleWellFormed (r : Rule) : Type 0 where
  pub output_range : InRange r.output
  pub output_area : area_eq r.output.area input ≡ false
  pub condition_range : IsWellFormed r.condition

abbrev pub ProgramWellFormed : LogicProgram → Type 0
ProgramWellFormed = All RuleWellFormed

-- The map after one rule, and after all.
pub apply_rule : Rule → MemoryMap → MemoryMap
apply_rule r mem = bit_stored mem r.output.area r.output.byte r.output.bit (value mem r.condition)

pub apply_rules : LogicProgram → MemoryMap → MemoryMap
apply_rules [] mem = mem
apply_rules (r ∷ rules) mem = apply_rules rules (apply_rule r mem)

-- The program after a scan: each rule's condition advances on the map that the rules above left.
pub advance_rules : LogicProgram → MemoryMap → LogicProgram
advance_rules [] mem = []
advance_rules (r ∷ rules) mem =
    record r { condition = advance mem r.condition } ∷ advance_rules rules (apply_rule r mem)

pub apply_rule-IsValid : (r : Rule) {mem : MemoryMap} → IsValid mem → IsValid (apply_rule r mem)
unfolding apply_rule
apply_rule-IsValid r {mem} v =
    stored-IsValid r.output.area r.output.byte _ v
      (put_bit-lt (cell mem r.output.area r.output.byte) r.output.bit (value mem r.condition))

pub apply_rules-IsValid :
    (p : LogicProgram) {mem : MemoryMap} → IsValid mem → IsValid (apply_rules p mem)
unfolding apply_rules
apply_rules-IsValid [] v = v
apply_rules-IsValid (r ∷ rules) v = apply_rules-IsValid rules (apply_rule-IsValid r v)

pub advance_rules-WellFormed :
    (p : LogicProgram) (mem : MemoryMap)
    → ProgramWellFormed p
    → ProgramWellFormed (advance_rules p mem)
unfolding advance_rules
advance_rules-WellFormed [] mem h = tt
advance_rules-WellFormed (r ∷ rules) mem h = (
  record {
    output_range = h.0.output_range;
    output_area = h.0.output_area;
    condition_range = advance-IsWellFormed mem r.condition h.0.condition_range;
  },
  advance_rules-WellFormed rules (apply_rule r mem) h.1,
)

-- `execute` of a well-formed program on a valid map returns without an exception, with the map that
-- the rules make one after the other, each from what those above it left, and with every condition
-- advanced once.
pub execute_lem :
    (p : LogicProgram) {mem : MemoryMap}
    → IsValid mem
    → ProgramWellFormed p
    → execute p mem ≡ ok (advance_rules p mem, apply_rules p mem)
unfolding execute apply_rules advance_rules apply_rule
execute_lem [] v h = refl
execute_lem (r ∷ rules) {mem} v h =
    rw
      (
        evaluate_lem r.condition v h.0.condition_range,
        write_bit_in r.output.area r.output.byte r.output.bit (value mem r.condition) v
            h.0.output_range.0 h.0.output_range.1,
      )
      (rw (execute_lem rules (apply_rule-IsValid r v) h.1))

pub execute_result :
    (p p' : LogicProgram) {mem mem' : MemoryMap}
    → IsValid mem
    → ProgramWellFormed p
    → execute p mem ≡ ok (p', mem')
    → (advance_rules p mem ≡ p') × (apply_rules p mem ≡ mem')
execute_result p p' v h e = (cc (execute_lem p v h), cc (execute_lem p v h))

input_kept :
    (r : Rule) (mem : MemoryMap)
    → area_eq r.output.area input ≡ false
    → area_of input (apply_rule r mem) ≡ area_of input mem
unfolding apply_rule
input_kept r mem h = ground (
  arith,
  area_of-with_area mem r.output.area input (
      set (area_of r.output.area mem) r.output.byte
        (put_bit (cell mem r.output.area r.output.byte) r.output.bit (value mem r.condition))),
)

inputs_kept :
    (p : LogicProgram) (mem : MemoryMap)
    → ProgramWellFormed p
    → area_of input (apply_rules p mem) ≡ area_of input mem
unfolding apply_rules
inputs_kept [] mem h = refl
inputs_kept (r ∷ rules) mem h =
    inputs_kept rules (apply_rule r mem) h.1 ∙ input_kept r mem h.0.output_area

rule_count-advance_rules :
    (p : LogicProgram) (mem : MemoryMap) → rule_count (advance_rules p mem) ≡ rule_count p
unfolding rule_count advance_rules
rule_count-advance_rules [] mem = refl
rule_count-advance_rules (r ∷ rules) mem =
    ap suc (rule_count-advance_rules rules (apply_rule r mem))

-- A scan of a well-formed program on a valid map leaves a valid map, a well-formed program with as
-- many rules, and the input area as it was.
pub execute-keeps :
    (p p' : LogicProgram) {mem mem' : MemoryMap}
    → IsValid mem
    → ProgramWellFormed p
    → execute p mem ≡ ok (p', mem')
    → IsValid mem'
      × ProgramWellFormed p'
      × (rule_count p' ≡ rule_count p)
      × (area_of input mem' ≡ area_of input mem)
execute-keeps p p' {mem} {mem'} v h e =
    let (program, map) = execute_result p p' v h e in
    (
      subst IsValid map (apply_rules-IsValid p v),
      subst ProgramWellFormed program (advance_rules-WellFormed p mem h),
      subst (λ q. rule_count q ≡ rule_count p) program (rule_count-advance_rules p mem),
      subst (λ n. area_of input n ≡ area_of input mem) map (inputs_kept p mem h),
    )

-- No rule of the program has this bit for its output.
abbrev pub NoOutput : MemoryArea → ℕ → ℕ → LogicProgram → Type 0
NoOutput b j n =
    All (λ r. (area_eq b r.output.area && (j == r.output.byte) && (n == r.output.bit)) ≡ false)

-- A scan changes no bit but the rules' outputs.
pub apply_rules-NoOutput :
    (p : LogicProgram) {mem : MemoryMap} (b : MemoryArea) (j n : ℕ)
    → IsValid mem
    → ProgramWellFormed p
    → n ≤ 7
    → NoOutput b j n p
    → bit_of (apply_rules p mem) b j n ≡ bit_of mem b j n
unfolding apply_rules apply_rule
apply_rules-NoOutput [] b j n v h hn free = refl
apply_rules-NoOutput (r ∷ rules) {mem} b j n v h hn free =
    apply_rules-NoOutput rules b j n (apply_rule-IsValid r v) h.1 hn free.1
    ∙ (bit_of-bit_stored r.output.area r.output.byte r.output.bit (value mem r.condition) b j n v
          h.0.output_range.0 h.0.output_range.1 hn
        ∙ rw free.0)

apply_rules-append :
    (p q : LogicProgram) (mem : MemoryMap)
    → apply_rules (p ++ q) mem ≡ apply_rules q (apply_rules p mem)
unfolding apply_rules
apply_rules-append [] q mem = refl
apply_rules-append (r ∷ p) q mem = apply_rules-append p q (apply_rule r mem)

area_eq_self : (a : MemoryArea) → area_eq a a ≡ true
area_eq_self a = ground arith

own_output :
    (r : Rule) {mem : MemoryMap}
    → IsValid mem
    → RuleWellFormed r
    → bit_of (apply_rule r mem) r.output.area r.output.byte r.output.bit ≡ value mem r.condition
unfolding apply_rule
own_output r {mem} v h = ground (
  arith,
  bit_of-bit_stored r.output.area r.output.byte r.output.bit (value mem r.condition) r.output.area
      r.output.byte r.output.bit v h.output_range.0 h.output_range.1 h.output_range.1,
  area_eq_self r.output.area,
)

-- The rules run from top to bottom in one scan: after a scan of the rules `above`, the rule `r` and
-- the rules `below`, the output bit of `r` holds the value of its condition on the map that the
-- rules above it left in this same scan, unless a rule below has the same output.
pub output_after_scan :
    (above : LogicProgram) (r : Rule) (below : LogicProgram) {mem mem' : MemoryMap}
    (p' : LogicProgram)
    → IsValid mem
    → ProgramWellFormed (above ++ (r ∷ below))
    → NoOutput r.output.area r.output.byte r.output.bit below
    → execute (above ++ (r ∷ below)) mem ≡ ok (p', mem')
    → bit_of mem' r.output.area r.output.byte r.output.bit
      ≡ value (apply_rules above mem) r.condition
unfolding apply_rules
output_after_scan above r below {mem} {mem'} p' v h free e =
    let before = apply_rules above mem in
    let before_valid : IsValid before = apply_rules-IsValid above v in
    let rest = All-right RuleWellFormed above (r ∷ below) h in
    let out = r.output in
    let map : apply_rules (r ∷ below) before ≡ mem' =
      sym (apply_rules-append above (r ∷ below) mem)
      ∙ (execute_result (above ++ (r ∷ below)) p' v h e).1 in
    subst (λ n. bit_of n out.area out.byte out.bit ≡ value before r.condition) map
      (apply_rules-NoOutput below out.area out.byte out.bit (apply_rule-IsValid r before_valid)
          rest.1 rest.0.output_range.1 free
        ∙ own_output r before_valid rest.0)

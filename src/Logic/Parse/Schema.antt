-- ===== src/Logic/Parse/Schema.antt =====
-- The logic documents that the parser is meant to accept, described without the parser: which JSON
-- values stand for which references, nodes, rules and programs.
pub mod Holds
mod FieldsAccepted
mod FieldsComplete
pub mod Accepted
pub mod Complete
pub mod Places
use openaslc.Base.{
  ℕ, zero, suc, ◌+◌, ◌≤◌, ◌<◌, ◌≡◌, ◌≢◌, ◌⊎◌, Bool, true, false, List, [], ◌∷◌, Option, none, some,
}
use openaslc.Base.Int.{ℤ, pos, is_negative, to_u64}
use openaslc.Base.Text.{String, ◌<>◌, to_string}
use openaslc.MemoryMap.{MemoryArea, input, output, memory, get_size}
use openaslc.Logic.{
  SignalRef, LogicNode, LogicNodes, signal_ref_node, and_node, or_node, not_node, ton_timer_node,
  no_nodes, and_then, Rule, LogicProgram,
}
use openaslc.Logic.Parse.Json.{JsonLibrary}

-- The letter of an area.
pub data Letter : String → MemoryArea → Type 0 where
  letter_i : Letter "I" input
  letter_q : Letter "Q" output
  letter_m : Letter "M" memory

module _ (lib : JsonLibrary) where
  open lib use {
    Json, is_object, is_array, is_string, is_number_integer, contains, at, get_string, get_int64,
    size, index,
  }

  -- The object has a member with this key.
  abbrev pub Has : Json → String → Json → Type 0
  Has j key v = (contains j key ≡ true) × (at j key ≡ some v)

  pub record HasString (j : Json) (key : String) (s : String) : Type 0 where
    pub value : Json
    pub member : Has j key value
    pub typed : is_string value ≡ true
    pub string : get_string value ≡ s

  pub record HasInteger (j : Json) (key : String) (z : ℤ) : Type 0 where
    pub value : Json
    pub member : Has j key value
    pub typed : is_number_integer value ≡ true
    pub integer : get_int64 value ≡ z

  -- A reference to a bit of this board, inside its area; `inputs` says whether it may be an input.
  pub record IsReference (inputs : Bool) (j : Json) (ref : SignalRef) : Type 0 where
    pub object : is_object j ≡ true
    pub local : contains j "node" ≡ false
    pub no_node : ref.node ≡ none
    pub area_text : String
    pub area : HasString j "area" area_text
    pub letter : Letter area_text ref.area
    pub allowed : (inputs ≡ true) ⊎ (ref.area ≢ input)
    pub byte_value : ℤ
    pub byte : HasInteger j "byte" byte_value
    pub byte_positive : is_negative byte_value ≡ false
    pub byte_is : to_u64 byte_value ≡ ref.byte
    pub byte_in : ref.byte < get_size ref.area
    pub bit : HasInteger j "bit" (pos ref.bit)
    pub bit_in : ref.bit ≤ 7

  mutual
    -- A condition, whose timers have the period of the engine and have counted nothing.
    pub data IsNode (period : ℤ) : Json → LogicNode → Type 0 where
      input_node :
          {j : Json} {ref : SignalRef}
          → is_object j ≡ true
          → HasString j "type" "INPUT"
          → IsReference true j ref
          → IsNode period j (signal_ref_node ref)
      all_node :
          {j inputs : Json} {children : LogicNodes}
          → is_object j ≡ true
          → HasString j "type" "AND"
          → Has j "inputs" inputs
          → is_array inputs ≡ true
          → 0 < size inputs
          → AreNodes period inputs 0 (size inputs) children
          → IsNode period j (and_node children)
      any_node :
          {j inputs : Json} {children : LogicNodes}
          → is_object j ≡ true
          → HasString j "type" "OR"
          → Has j "inputs" inputs
          → is_array inputs ≡ true
          → 0 < size inputs
          → AreNodes period inputs 0 (size inputs) children
          → IsNode period j (or_node children)
      negated_node :
          {j child : Json} {n : LogicNode}
          → is_object j ≡ true
          → HasString j "type" "NOT"
          → Has j "input" child
          → IsNode period child n
          → IsNode period j (not_node n)
      timer_node :
          {j child : Json} {n : LogicNode} {preset : ℤ}
          → is_object j ≡ true
          → HasString j "type" "TON_TIMER"
          → Has j "input" child
          → IsNode period child n
          → HasInteger j "preset_ms" preset
          → is_negative preset ≡ false
          → IsNode period j (ton_timer_node n (to_u64 preset) (to_u64 period) 0)

    -- `left` elements of an array from index `i` on.
    pub data AreNodes (period : ℤ) : Json → ℕ → ℕ → LogicNodes → Type 0 where
      no_more : {inputs : Json} {i : ℕ} → AreNodes period inputs i zero no_nodes
      one_more :
          {inputs : Json} {i left : ℕ} {n : LogicNode} {rest : LogicNodes}
          → IsNode period (index inputs i) n
          → AreNodes period inputs (i + 1) left rest
          → AreNodes period inputs i (suc left) (and_then n rest)

  -- Rule number `i`. Without an id it is named after its place.
  pub record IsRule (period : ℤ) (j : Json) (i : ℕ) (rule : Rule) : Type 0 where
    pub object : is_object j ≡ true
    pub named :
        HasString j "id" rule.id
        ⊎ ((contains j "id" ≡ false) × (rule.id ≡ "rules[" <> (to_string i <> "]")))
    pub output_value : Json
    pub output_member : Has j "output" output_value
    pub output : IsReference false output_value rule.output
    pub condition_value : Json
    pub condition_member : Has j "condition" condition_value
    pub condition : IsNode period condition_value rule.condition

  pub data AreRules (period : ℤ) (rules : Json) : ℕ → ℕ → LogicProgram → Type 0 where
    no_more : {i : ℕ} → AreRules period rules i zero []
    one_more :
        {i left : ℕ} {rule : Rule} {rest : LogicProgram}
        → IsRule period (index rules i) i rule
        → AreRules period rules (i + 1) left rest
        → AreRules period rules i (suc left) (rule ∷ rest)

  -- A whole document.
  pub record IsDocument (period : ℤ) (doc : Json) (p : LogicProgram) : Type 0 where
    pub object : is_object doc ≡ true
    pub rules : Json
    pub rules_member : Has doc "rules" rules
    pub array : is_array rules ≡ true
    pub elements : AreRules period rules 0 (size rules) p

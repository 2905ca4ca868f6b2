-- ===== src/Logic/Parse.antt =====
-- The parser of logic documents: the free functions of src/logic_interpreter.cpp,
-- `LogicProgram::from_json` and `from_file`. A document is read through an interface that stands for
-- nlohmann::json (Logic/Parse/Json). A parse recurs on fuel; a document's depth is enough.
pub mod Json
pub mod Yields
pub mod Sound
pub mod Document
pub mod Schema
pub mod Sample
pub mod Printer
use openaslc.Base.{
  ℕ, zero, suc, ◌+◌, ◌-◌, Bool, true, false, not, ◌&&◌, ◌||◌, List, [], ◌∷◌, Option, none, some,
  ltb, leb, ◌==◌, if◌then◌else◌, inl, inr,
}
use openaslc.Base.Int.{ℤ, is_negative, to_u64, exceeds}
use openaslc.Base.Text.{String, len, ◌<>◌, str_eq, codes, all_alnum, to_string, int_to_string}
use openaslc.MemoryMap.{
  MemoryArea, input, output, memory, input_size, output_size, memory_size, area_eq,
}
use openaslc.Logic.{
  SignalRef, LogicNode, LogicNodes, signal_ref_node, and_node, or_node, not_node, ton_timer_node,
  no_nodes, and_then, Rule, LogicProgram,
}
use Json.{JsonLibrary}

-- How a parse ends. `json_exception` is one of the JSON library's own exceptions.
pub data Parsed {ℓ} (A : Type ℓ) : Type ℓ where
  parsed : A → Parsed A
  logic_parse_error : String → Parsed A
  json_exception : Parsed A
  out_of_fuel : Parsed A

infixl 5 ◌>>=◌ ◌>>◌
unfoldable pub ◌>>=◌ {ℓ κ} : {A : Type ℓ} {B : Type κ} → Parsed A → (A → Parsed B) → Parsed B
parsed a >>= f = f a
logic_parse_error message >>= f = logic_parse_error message
json_exception >>= f = json_exception
out_of_fuel >>= f = out_of_fuel

abbrev pub ◌>>◌ {ℓ} : {B : Type ℓ} → Parsed (Unit {0}) → Parsed B → Parsed B
m >> k = m >>= λ _. k

-- `if (!test) throw LogicParseError(message);`
unfoldable pub require : Bool → String → Parsed (Unit {0})
require true message = parsed tt
require false message = logic_parse_error message

unfoldable pub parse_area : String → String → Parsed MemoryArea
parse_area s path =
    if str_eq s "I"
    then parsed input
    else if str_eq s "Q"
    then parsed output
    else if str_eq s "M"
    then parsed memory
    else logic_parse_error
        (path <> (": unknown area '" <> (s <> "' (expected \"I\", \"Q\", or \"M\")")))

unfoldable pub area_size : MemoryArea → ℕ
area_size input = input_size
area_size output = output_size
area_size memory = memory_size

unfoldable pub is_valid_node_uid_format : String → Bool
is_valid_node_uid_format s =
    if not (len s == 2) && (not (len s == 4) && not (len s == 8))
    then false
    else all_alnum (codes s)

module _ (lib : JsonLibrary) where
  open lib use {
    Json, is_object, is_array, is_string, is_number_integer, contains, at, get_string, get_int64,
    size, empty, index,
  }

  -- `j.at(key)`
  unfoldable pub get_at : Json → String → Parsed Json
  get_at j key = elim (at j key) [ none ↦ json_exception | some v ↦ parsed v ]

  unfoldable pub require_field : Json → String → String → Parsed Json
  require_field j key path = do
    require (contains j key) (path <> (": missing required field '" <> (key <> "'")))
    get_at j key

  unfoldable pub require_int : Json → String → String → Parsed ℤ
  require_int j key path = do
    field ← require_field j key path
    require (is_number_integer field) (path <> ("." <> (key <> ": expected an integer")))
    parsed (get_int64 field)

  unfoldable pub require_string : Json → String → String → Parsed String
  require_string j key path = do
    field ← require_field j key path
    require (is_string field) (path <> ("." <> (key <> ": expected a string")))
    parsed (get_string field)

  -- What `parse_signal_ref` does with an object that names a node: it always throws.
  unfoldable pub reject_node : Json → String → Parsed (Unit {0})
  reject_node j path = do
    node_field ← get_at j "node"
    require (is_string node_field) (path <> ".node: expected a string")
    require (is_valid_node_uid_format (get_string node_field)) (
        path
        <> (".node: '"
            <> (get_string node_field
                <> "' is not a valid node UID (expected 2, 4, or 8 alphanumeric characters)")))
    logic_parse_error (
        path
        <> (".node: remote signal references are not supported yet -- hive IO forwarding is a "
            <> "future feature; omit 'node' to reference this board's own memory map"))

  unfoldable pub parse_signal_ref : Json → String → Bool → Parsed SignalRef
  parse_signal_ref j path allow_input_area = do
    require (is_object j) (path <> ": expected a signal reference object")
    if contains j "node" then reject_node j path else parsed tt
    area_str ← require_string j "area" path
    area ← parse_area area_str (path <> ".area")
    require (allow_input_area || not (area_eq area input))
        (path <> ".area: rule outputs cannot target %I (reserved for driver writes)")
    byte ← require_int j "byte" path
    require (not (is_negative byte || leb (area_size area) (to_u64 byte))) (
        path
        <> (".byte: "
            <> (int_to_string byte
                <> (" is out of range for this area (0.."
                    <> (to_string (area_size area - 1) <> ")")))))
    bit ← require_int j "bit" path
    require (not (is_negative bit || exceeds bit 7))
        (path <> (".bit: " <> (int_to_string bit <> " must be 0..7")))
    parsed (record { node = none; area = area; byte = to_u64 byte; bit = to_u64 bit })

  -- The loop of `parse_bool_combinator`: `left` elements from index `i` on.
  -- `parse_node` is `parse_condition_node`.
  module _ (parse_node : Json → String → Parsed LogicNode) where
    unfoldable pub parse_children : Json → String → ℕ → ℕ → Parsed LogicNodes
    parse_children inputs path i zero = parsed no_nodes
    parse_children inputs path i (suc left) = do
      child ← parse_node (index inputs i) (path <> (".inputs[" <> (to_string i <> "]")))
      rest ← parse_children inputs path (i + 1) left
      parsed (and_then child rest)

    unfoldable pub parse_bool_combinator : Json → String → Bool → Parsed LogicNode
    parse_bool_combinator j path is_and = do
      inputs ← require_field j "inputs" path
      require (not (not (is_array inputs) || empty inputs))
          (path <> ".inputs: expected a non-empty array")
      children ← parse_children inputs path 0 (size inputs)
      parsed (if is_and then and_node children else or_node children)

    unfoldable pub parse_not : Json → String → Parsed LogicNode
    parse_not j path = do
      field ← require_field j "input" path
      child ← parse_node field (path <> ".input")
      parsed (not_node child)

    unfoldable pub parse_ton_timer : ℤ → Json → String → Parsed LogicNode
    parse_ton_timer period j path = do
      field ← require_field j "input" path
      child ← parse_node field (path <> ".input")
      preset_ms ← require_int j "preset_ms" path
      require (not (is_negative preset_ms)) (path <> ".preset_ms: must be >= 0")
      parsed (ton_timer_node child (to_u64 preset_ms) (to_u64 period) 0)

  unfoldable pub parse_input : Json → String → Parsed LogicNode
  parse_input j path = do ref ← parse_signal_ref j path true; parsed (signal_ref_node ref)

  -- The table `dispatch`, and what it gives for a type that it does not hold.
  unfoldable pub dispatch :
      (Json → String → Parsed LogicNode) → ℤ → String → Json → String → Parsed LogicNode
  dispatch parse_node period type j path =
      if str_eq type "INPUT"
      then parse_input j path
      else if str_eq type "AND"
      then parse_bool_combinator parse_node j path true
      else if str_eq type "OR"
      then parse_bool_combinator parse_node j path false
      else if str_eq type "NOT"
      then parse_not parse_node j path
      else if str_eq type "TON_TIMER"
      then parse_ton_timer parse_node period j path
      else logic_parse_error (path <> (".type: unknown node type '" <> (type <> "'")))

  unfoldable pub parse_condition_node : ℕ → ℤ → Json → String → Parsed LogicNode
  parse_condition_node zero period j path = out_of_fuel
  parse_condition_node (suc fuel) period j path = do
    require (is_object j) (path <> ": expected a condition node object")
    type ← require_string j "type" path
    dispatch (parse_condition_node fuel period) period type j path

  unfoldable pub parse_rule : ℕ → ℤ → Json → ℕ → Parsed Rule
  parse_rule fuel period j i = do
    let path = "rules[" <> (to_string i <> "]")
    require (is_object j) (path <> ": expected a rule object")
    id ← if contains j "id" then require_string j "id" path else parsed path
    output_field ← require_field j "output" path
    out ← parse_signal_ref output_field (path <> ".output") false
    condition_field ← require_field j "condition" path
    condition ← parse_condition_node fuel period condition_field (path <> ".condition")
    parsed (record { id = id; output = out; condition = condition })

  -- The loop of `from_json`.
  unfoldable pub parse_rules : ℕ → ℤ → Json → ℕ → ℕ → Parsed LogicProgram
  parse_rules fuel period rules_field i zero = parsed []
  parse_rules fuel period rules_field i (suc left) = do
    rule ← parse_rule fuel period (index rules_field i) i
    rules ← parse_rules fuel period rules_field (i + 1) left
    parsed (rule ∷ rules)

  -- The depth of the whole document is fuel enough for every condition in it.
  unfoldable pub from_json : Json → ℤ → Parsed LogicProgram
  from_json doc period = do
    require (is_object doc) "document: expected a JSON object"
    rules_field ← require_field doc "rules" "document"
    require (is_array rules_field) "document.rules: expected an array"
    parse_rules (lib.depth doc) period rules_field 0 (size rules_field)

  -- `contents` is what the file holds, if it can be opened.
  unfoldable pub from_file : String → Option String → ℤ → Parsed LogicProgram
  from_file path none period = logic_parse_error ("could not open logic file: " <> path)
  from_file path (some contents) period = elim (lib.parse contents) [
    | inl doc ↦ from_json doc period
    | inr what ↦ logic_parse_error ("failed to parse " <> (path <> (": " <> what)))
  ]

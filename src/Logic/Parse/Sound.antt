-- ===== src/Logic/Parse/Sound.antt =====
-- Every document gives a program that is safe to run, or an error that names the place.
pub mod Fields
use openaslc.Base.{
  ℕ, zero, suc, ◌+◌, ◌≤◌, ◌<◌, ◌≡◌, refl, Bool, true, false, not, ◌||◌, arith, leb, if◌then◌else◌,
}
use openaslc.Base.Int.{ℤ, pos, negsuc, is_negative, to_u64, exceeds}
use openaslc.Base.Text.{String, ◌<>◌, str_eq, to_string}
use openaslc.MemoryMap.{MemoryArea, input, get_size, area_eq}
use openaslc.Logic.{
  LogicNode, LogicNodes, signal_ref_node, and_node, or_node, not_node, ton_timer_node, no_nodes,
  and_then, Rule,
}
use openaslc.Logic.Meaning.{InRange, IsWellFormed, AllWellFormed}
use openaslc.Logic.Program.{RuleWellFormed}
use openaslc.Logic.Parse.Json.{JsonLibrary}
use openaslc.Logic.Parse.{
  Parsed, parse_area, area_size, get_at, require_field, require_int, require_string, reject_node,
  parse_signal_ref, parse_children, parse_bool_combinator, parse_not, parse_ton_timer, parse_input,
  dispatch, parse_condition_node, parse_rule,
}
use openaslc.Logic.Parse.Yields.{
  Yields, good, refused, Yields-bind, Yields-mono, Yields-under, Yields-if, Yields-require,
}
use openaslc.Logic.Parse.Sound.Fields.{
  parse_area-Yields, area_size-eq-get_size, byte_range, bit_range, get_at-Yields,
  require_field-Yields, require_int-Yields, require_string-Yields, reject_node-Yields,
  parse_signal_ref-Yields,
}

-- A tree as the parser makes it: its timers have the period given and have counted nothing yet.
abbrev mutual
  pub IsFresh : ℤ → LogicNode → Type 0
  IsFresh period (signal_ref_node ref) = Unit
  IsFresh period (and_node inputs) = AllFresh period inputs
  IsFresh period (or_node inputs) = AllFresh period inputs
  IsFresh period (not_node n) = IsFresh period n
  IsFresh period (ton_timer_node n preset_ms period_ms elapsed_cycles) =
      IsFresh period n × (period_ms ≡ to_u64 period) × (elapsed_cycles ≡ 0)

  pub AllFresh : ℤ → LogicNodes → Type 0
  AllFresh period no_nodes = Unit
  AllFresh period (and_then child rest) = IsFresh period child × AllFresh period rest

abbrev pub IsSound : ℤ → LogicNode → Type 0
IsSound period n = IsWellFormed n × IsFresh period n

abbrev AllSound : ℤ → LogicNodes → Type 0
AllSound period xs = AllWellFormed xs × AllFresh period xs

abbrev pub RuleSound : ℤ → Rule → Type 0
RuleSound period r = RuleWellFormed r × IsFresh period r.condition

module _ (lib : JsonLibrary) where
  open lib use {Json, is_object, is_array, contains, at, size, empty, index, depth}

  parse_input-Yields :
      (period : ℤ) (j : Json) (path : String)
      → Yields (IsSound period) path (parse_input lib j path)
  unfolding parse_input
  parse_input-Yields period j path =
      Yields-bind (parse_signal_ref-Yields lib j path true) (λ ref h. good (h.0, tt))

  -- `parse_node` does what is claimed of it on values that are nested less deep than `j`.
  abbrev Parses : ℤ → (Json → String → Parsed LogicNode) → Json → Type 0
  Parses period parse_node j =
      (child : Json) (path : String)
      → depth child < depth j
      → Yields (IsSound period) path (parse_node child path)

  module _ (period : ℤ) (parse_node : Json → String → Parsed LogicNode) where
    parse_children-Yields :
        (j inputs : Json) (path : String) (i left : ℕ)
        → Parses period parse_node j
        → depth inputs < depth j
        → is_array inputs ≡ true
        → i + left ≤ size inputs
        → Yields (AllSound period) path (parse_children lib parse_node inputs path i left)
    unfolding parse_children
    parse_children-Yields j inputs path i zero ih d arr h = good (tt, tt)
    parse_children-Yields j inputs path i (suc left) ih d arr h =
        Yields-bind
          (Yields-under _
            (ih (index inputs i) _ (omega (arith, lib.depth-index inputs i arr (omega arith)))))
          λ child p.
            Yields-bind (parse_children-Yields j inputs path (i + 1) left ih d arr (omega arith))
              λ rest q. good ((p.0, q.0), (p.1, q.1))

    parse_bool_combinator-Yields :
        (j : Json) (path : String) (is_and : Bool)
        → Parses period parse_node j
        → Yields (IsSound period) path (parse_bool_combinator lib parse_node j path is_and)
    unfolding parse_bool_combinator
    parse_bool_combinator-Yields j path is_and ih =
        Yields-bind (require_field-Yields lib j "inputs" path) λ inputs d.
          Yields-bind (Yields-require _ path _) λ _ arr.
            Yields-bind
              (parse_children-Yields j inputs path 0 (size inputs) ih d (ground arith)
                (omega arith))
              λ children p. good (combined is_and children p)
      where
        combined :
            (b : Bool) (xs : LogicNodes)
            → AllSound period xs
            → IsSound period (if b then and_node xs else or_node xs)
        combined true xs p = p
        combined false xs p = p

    parse_not-Yields :
        (j : Json) (path : String)
        → Parses period parse_node j
        → Yields (IsSound period) path (parse_not lib parse_node j path)
    unfolding parse_not
    parse_not-Yields j path ih =
        Yields-bind (require_field-Yields lib j "input" path)
          λ field d. Yields-bind (Yields-under ".input" (ih field _ d)) (λ child p. good p)

    parse_ton_timer-Yields :
        (j : Json) (path : String)
        → Parses period parse_node j
        → Yields (IsSound period) path (parse_ton_timer lib parse_node period j path)
    unfolding parse_ton_timer
    parse_ton_timer-Yields j path ih =
        Yields-bind (require_field-Yields lib j "input" path) λ field d.
          Yields-bind (Yields-under ".input" (ih field _ d)) λ child p.
            Yields-bind (require_int-Yields lib j "preset_ms" path) λ preset_ms _.
              Yields-bind (Yields-require _ path _) (λ _ _. good (p.0, (p.1, refl, refl)))

    dispatch-Yields :
        (type : String) (j : Json) (path : String)
        → Parses period parse_node j
        → Yields (IsSound period) path (dispatch lib parse_node period type j path)
    unfolding dispatch
    dispatch-Yields type j path ih =
        Yields-if (str_eq type "INPUT") (λ _. parse_input-Yields period j path)
          λ _.
            Yields-if (str_eq type "AND") (λ _. parse_bool_combinator-Yields j path true ih)
              λ _.
                Yields-if (str_eq type "OR") (λ _. parse_bool_combinator-Yields j path false ih)
                  λ _.
                    Yields-if (str_eq type "NOT") (λ _. parse_not-Yields j path ih)
                      λ _.
                        Yields-if (str_eq type "TON_TIMER") (λ _. parse_ton_timer-Yields j path ih)
                          (λ _. refused _ refl)

  -- With fuel above the depth of the value, `parse_condition_node` gives a tree whose references all
  -- lie inside their areas and whose timers are fresh, or a `LogicParseError` whose message begins
  -- with the path of the value. It does not run out of fuel, and the JSON library does not throw.
  pub parse_condition_node-Yields :
      (fuel : ℕ) (period : ℤ) (j : Json) (path : String)
      → depth j < fuel
      → Yields (IsSound period) path (parse_condition_node lib fuel period j path)
  unfolding parse_condition_node
  parse_condition_node-Yields zero period j path h = absurd (omega arith)
  parse_condition_node-Yields (suc fuel) period j path h =
      Yields-bind (Yields-require (is_object j) path _) λ _ _.
        Yields-bind (require_string-Yields lib j "type" path) λ type _.
          dispatch-Yields period (parse_condition_node lib fuel period) type j path
            λ child p d. parse_condition_node-Yields fuel period child p (omega arith)

  pub parse_rule-Yields :
      (fuel : ℕ) (period : ℤ) (j : Json) (i : ℕ)
      → depth j ≤ fuel
      → Yields
          (RuleSound period)
          ("rules[" <> (to_string i <> "]"))
          (parse_rule lib fuel period j i)
  unfolding parse_rule
  parse_rule-Yields fuel period j i h =
      let path = "rules[" <> (to_string i <> "]") in
      Yields-bind (Yields-require (is_object j) path _) λ _ _.
        Yields-bind
          (Yields-if {P = λ _. Unit {0}} (contains j "id")
            (λ _. require_string-Yields lib j "id" path) (λ _. good tt))
          λ id _. Yields-bind (require_field-Yields lib j "output" path) λ output_field _.
            Yields-bind (Yields-under ".output" (parse_signal_ref-Yields lib output_field _ false))
              λ out o.
                Yields-bind (require_field-Yields lib j "condition" path) λ condition_field d.
                  Yields-bind
                    (Yields-under ".condition"
                      (parse_condition_node-Yields fuel period condition_field _ (omega arith)))
                    λ condition c. good (
                      record {
                        output_range = o.0;
                        output_area = ground arith;
                        condition_range = c.0;
                      },
                      c.1,
                    )

-- ===== src/Logic/Parse/Schema/Complete.antt =====
-- Whatever is as the schema says is accepted, with the program that it describes.
use openaslc.Base.{
  ℕ, zero, suc, ap, ◌+◌, ◌≤◌, ◌<◌, ◌≡◌, ◌↔◌, refl, sym, ◌⊎◌, inl, inr, true, false, not, ◌||◌,
  if◌then◌else◌, arith,
}
use openaslc.Base.Int.{ℤ}
use openaslc.Base.Text.{String, ◌<>◌, to_string}
use openaslc.Logic.{LogicNode, LogicNodes, Rule, LogicProgram}
use openaslc.Logic.Parse.Json.{JsonLibrary}
use openaslc.Logic.Parse.{
  parsed, require_string, parse_children, parse_bool_combinator, parse_not, parse_ton_timer,
  parse_input, dispatch, parse_condition_node, parse_rule, parse_rules, from_json,
}
use openaslc.Logic.Parse.Schema
use openaslc.Logic.Parse.Schema.{
  Letter, letter_i, letter_q, letter_m, Has, HasString, HasInteger, IsReference, IsNode, AreNodes,
  IsRule, AreRules, IsDocument,
}
use openaslc.Logic.Parse.Schema.Holds.{require-true}
use openaslc.Logic.Parse.Schema.Accepted.{from_json_accepted}
use openaslc.Logic.Parse.Schema.FieldsComplete.{
  then_parsed, require_field-Has, require_int-HasInteger, require_string-HasString,
  parse_signal_ref-IsReference,
}

module _ (lib : JsonLibrary) where
  open lib use {
    Json, is_object, is_array, is_string, is_number_integer, contains, at, size, empty, index,
    depth,
  }

  deeper : {j : Json} {key : String} {v : Json} → Has lib j key v → depth v < depth j
  deeper {j} {key} {v} h = lib.depth-at j key v h.1

  not_empty_array :
      (inputs : Json)
      → is_array inputs ≡ true
      → 0 < size inputs
      → not (not (is_array inputs) || empty inputs) ≡ true
  not_empty_array inputs a h = ground (arith, lib.empty-size inputs)

  -- `parse_condition_node` up to the dispatch.
  to_dispatch :
      {j : Json} {type : String} {n : LogicNode} (fuel : ℕ) (period : ℤ) (path : String)
      → is_object j ≡ true
      → HasString lib j "type" type
      → dispatch lib (parse_condition_node lib fuel period) period type j path ≡ parsed n
      → parse_condition_node lib (suc fuel) period j path ≡ parsed n
  unfolding parse_condition_node
  to_dispatch fuel period path o t e =
      then_parsed _ (require-true _ _ o) (then_parsed _ (require_string-HasString lib path t) e)

  mutual
    unfolding dispatch parse_input parse_bool_combinator parse_not parse_ton_timer parse_children

    parse_condition_node-IsNode :
        {period : ℤ} {j : Json} {n : LogicNode} (fuel : ℕ) (path : String)
        → depth j < fuel
        → IsNode lib period j n
        → parse_condition_node lib fuel period j path ≡ parsed n
    parse_condition_node-IsNode zero path d n = absurd (omega arith)
    parse_condition_node-IsNode {period} (suc fuel) path d (Schema.input_node o t r) =
        to_dispatch fuel period path o t
          (then_parsed _ (parse_signal_ref-IsReference lib path r) refl)
    parse_condition_node-IsNode {period} (suc fuel) path d
          (Schema.all_node {j} {inputs} o t m a e ns) =
        to_dispatch fuel period path o t (
          then_parsed _ (require_field-Has lib path m) (
            then_parsed _ (require-true _ _ (not_empty_array inputs a e)) (
              then_parsed _
                (parse_children-AreNodes fuel path 0 (size inputs) (omega (arith, deeper m)) a
                  (omega arith) ns)
                refl)))
    parse_condition_node-IsNode {period} (suc fuel) path d
          (Schema.any_node {j} {inputs} o t m a e ns) =
        to_dispatch fuel period path o t (
          then_parsed _ (require_field-Has lib path m) (
            then_parsed _ (require-true _ _ (not_empty_array inputs a e)) (
              then_parsed _
                (parse_children-AreNodes fuel path 0 (size inputs) (omega (arith, deeper m)) a
                  (omega arith) ns)
                refl)))
    parse_condition_node-IsNode {period} (suc fuel) path d (Schema.negated_node o t m n) =
        to_dispatch fuel period path o t (
          then_parsed _ (require_field-Has lib path m)
            (then_parsed _ (parse_condition_node-IsNode fuel _ (omega (arith, deeper m)) n) refl))
    parse_condition_node-IsNode {period} (suc fuel) path d (Schema.timer_node o t m n p h) =
        to_dispatch fuel period path o t (
          then_parsed _ (require_field-Has lib path m) (
            then_parsed _ (parse_condition_node-IsNode fuel _ (omega (arith, deeper m)) n) (
              then_parsed _ (require_int-HasInteger lib path p)
                (then_parsed _ (require-true _ _ (ap not h)) refl))))

    parse_children-AreNodes :
        {period : ℤ} {inputs : Json} {ns : LogicNodes} (fuel : ℕ) (path : String) (i left : ℕ)
        → depth inputs ≤ fuel
        → is_array inputs ≡ true
        → i + left ≤ size inputs
        → AreNodes lib period inputs i left ns
        → parse_children lib (parse_condition_node lib fuel period) inputs path i left ≡ parsed ns
    parse_children-AreNodes fuel path i _ d a h AreNodes.no_more = refl
    parse_children-AreNodes {inputs = inputs} fuel path i (suc left) d a h
          (AreNodes.one_more n ns) =
        then_parsed _
          (parse_condition_node-IsNode fuel _
            (omega (arith, lib.depth-index inputs i a (omega arith))) n)
          (then_parsed _ (parse_children-AreNodes fuel path (i + 1) left d a (omega arith) ns) refl)

  named_parsed :
      (j : Json) (i : ℕ) (id : String)
      → HasString lib j "id" id
        ⊎ ((contains j "id" ≡ false) × (id ≡ "rules[" <> (to_string i <> "]")))
      → let path = "rules[" <> (to_string i <> "]") in
        (if contains j "id" then require_string lib j "id" path else parsed path) ≡ parsed id
  named_parsed j i id (inl t) = rw (t.member.0) (require_string-HasString lib _ t)
  named_parsed j i id (inr (c, e)) = rw c (ap parsed (sym e))

  pub parse_rule-IsRule :
      {period : ℤ} {j : Json} {rule : Rule} (fuel i : ℕ)
      → depth j ≤ fuel
      → IsRule lib period j i rule
      → parse_rule lib fuel period j i ≡ parsed rule
  unfolding parse_rule
  parse_rule-IsRule {j = j} fuel i d r = then_parsed _ (require-true _ _ r.object) (
      then_parsed _ (named_parsed j i _ r.named) (
        then_parsed _ (require_field-Has lib _ r.output_member) (
          then_parsed _ (parse_signal_ref-IsReference lib _ r.output) (
            then_parsed _ (require_field-Has lib _ r.condition_member) (
              then_parsed _
                (parse_condition_node-IsNode fuel _ (omega (arith, deeper r.condition_member))
                  r.condition)
                refl)))))

  parse_rules-AreRules :
      {period : ℤ} {rules : Json} {p : LogicProgram} (fuel i left : ℕ)
      → depth rules ≤ fuel
      → is_array rules ≡ true
      → i + left ≤ size rules
      → AreRules lib period rules i left p
      → parse_rules lib fuel period rules i left ≡ parsed p
  unfolding parse_rules
  parse_rules-AreRules fuel i _ d a h AreRules.no_more = refl
  parse_rules-AreRules {rules = rules} fuel i (suc left) d a h (AreRules.one_more r rs) =
      then_parsed _
        (parse_rule-IsRule fuel i (omega (arith, lib.depth-index rules i a (omega arith))) r)
        (then_parsed _ (parse_rules-AreRules fuel (i + 1) left d a (omega arith) rs) refl)

  from_json_complete :
      (doc : Json) (period : ℤ) (p : LogicProgram)
      → IsDocument lib period doc p
      → from_json lib doc period ≡ parsed p
  unfolding from_json
  from_json_complete doc period p h = then_parsed _ (require-true _ _ h.object) (
      then_parsed _ (require_field-Has lib _ h.rules_member) (
        then_parsed _ (require-true _ _ h.array) (
          parse_rules-AreRules (depth doc) 0 (size h.rules) (omega (arith, deeper h.rules_member))
            h.array (omega arith) h.elements)))

  -- `from_json` gives a program exactly where the document describes it: what it accepts is as the
  -- schema says, and nothing that the schema describes is refused.
  pub from_json_iff :
      (doc : Json) (period : ℤ) (p : LogicProgram)
      → (from_json lib doc period ≡ parsed p) ↔ IsDocument lib period doc p
  from_json_iff doc period p =
      (from_json_accepted lib doc period p, from_json_complete doc period p)

  -- A document describes one program at most.
  pub IsDocument-unique :
      (doc : Json) (period : ℤ) (p p' : LogicProgram)
      → IsDocument lib period doc p
      → IsDocument lib period doc p'
      → p ≡ p'
  IsDocument-unique doc period p p' h h' =
      let e = from_json_complete doc period p h in
      let e' = from_json_complete doc period p' h' in cc

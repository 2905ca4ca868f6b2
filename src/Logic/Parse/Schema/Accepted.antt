-- ===== src/Logic/Parse/Schema/Accepted.antt =====
-- Whatever the parser accepts is as the schema says.
use openaslc.Base.{
  ℕ, zero, suc, ◌+◌, ◌<◌, ◌≡◌, refl, subst, ◌⊎◌, inl, inr, Bool, true, false, not, ◌||◌,
  if◌then◌else◌, arith,
}
use openaslc.Base.Int.{ℤ}
use openaslc.Base.Text.{String, ◌<>◌, str_eq, eq_iff, to_string}
use openaslc.Logic.{LogicNode, LogicNodes, and_node, or_node, LogicProgram}
use openaslc.Logic.Parse.Json.{JsonLibrary}
use openaslc.Logic.Parse.{
  Parsed, parsed, parse_children, parse_bool_combinator, parse_not, parse_ton_timer, dispatch,
  parse_condition_node, parse_rule, parse_rules, from_json,
}
use openaslc.Logic.Parse.Schema
use openaslc.Logic.Parse.Schema.{
  Letter, letter_i, letter_q, letter_m, Has, HasString, HasInteger, IsReference, IsNode, AreNodes,
  IsRule, AreRules, IsDocument,
}
use openaslc.Logic.Parse.Schema.Holds.{
  Holds, holds, refused, stopped, Holds-bind, Holds-mono, Holds-if, Holds-parsed, Holds-require,
}
use openaslc.Logic.Parse.Schema.FieldsAccepted.{
  require_field-Holds, require_int-Holds, require_string-Holds, parse_signal_ref-Holds,
  parse_input-Holds,
}

module _ (lib : JsonLibrary) where
  open lib use {
    Json, is_object, is_array, is_string, is_number_integer, contains, at, size, empty, index,
  }

  module _ (period : ℤ) (parse_node : Json → String → Parsed LogicNode)
      (accepts : (child : Json) (path : String)
        → Holds (IsNode lib period child) (parse_node child path)) where
    parse_children-Holds :
        (inputs : Json) (path : String) (i left : ℕ)
        → Holds
            (AreNodes lib period inputs i left)
            (parse_children lib parse_node inputs path i left)
    unfolding parse_children
    parse_children-Holds inputs path i zero = holds AreNodes.no_more
    parse_children-Holds inputs path i (suc left) =
        Holds-bind (accepts (index inputs i) _) λ child n.
          Holds-bind (parse_children-Holds inputs path (i + 1) left)
            (λ rest ns. holds (AreNodes.one_more n ns))

    not_empty :
        (inputs : Json)
        → not (not (is_array inputs) || empty inputs) ≡ true
        → (is_array inputs ≡ true) × (0 < size inputs)
    not_empty inputs h = ground (arith, lib.empty-size inputs)

    parse_bool_combinator-Holds :
        (j : Json) (path : String) (is_and : Bool)
        → is_object j ≡ true
        → HasString lib j "type" (if is_and then "AND" else "OR")
        → Holds (IsNode lib period j) (parse_bool_combinator lib parse_node j path is_and)
    unfolding parse_bool_combinator
    parse_bool_combinator-Holds j path is_and o t =
        Holds-bind (require_field-Holds lib j "inputs" path) λ inputs m.
          Holds-bind (Holds-require _ _) λ _ h.
            Holds-bind (parse_children-Holds inputs path 0 (size inputs))
              (λ children ns. holds (combined is_and inputs children t m (not_empty inputs h) ns))
      where
        combined :
            (b : Bool) (inputs : Json) (ns : LogicNodes)
            → HasString lib j "type" (if b then "AND" else "OR")
            → Has lib j "inputs" inputs
            → (is_array inputs ≡ true) × (0 < size inputs)
            → AreNodes lib period inputs 0 (size inputs) ns
            → IsNode lib period j (if b then and_node ns else or_node ns)
        combined true inputs ns t m a n = Schema.all_node o t m a.0 a.1 n
        combined false inputs ns t m a n = Schema.any_node o t m a.0 a.1 n

    parse_not-Holds :
        (j : Json) (path : String)
        → is_object j ≡ true
        → HasString lib j "type" "NOT"
        → Holds (IsNode lib period j) (parse_not lib parse_node j path)
    unfolding parse_not
    parse_not-Holds j path o t =
        Holds-bind (require_field-Holds lib j "input" path)
          λ field m. Holds-bind (accepts field _) (λ child n. holds (Schema.negated_node o t m n))

    parse_ton_timer-Holds :
        (j : Json) (path : String)
        → is_object j ≡ true
        → HasString lib j "type" "TON_TIMER"
        → Holds (IsNode lib period j) (parse_ton_timer lib parse_node period j path)
    unfolding parse_ton_timer
    parse_ton_timer-Holds j path o t =
        Holds-bind (require_field-Holds lib j "input" path) λ field m.
          Holds-bind (accepts field _) λ child n.
            Holds-bind (require_int-Holds lib j "preset_ms" path) λ preset p.
              Holds-bind (Holds-require _ _)
                (λ _ h. holds (Schema.timer_node o t m n p (ground (arith, h))))

    dispatch-Holds :
        (type path : String) (j : Json)
        → is_object j ≡ true
        → HasString lib j "type" type
        → Holds (IsNode lib period j) (dispatch lib parse_node period type j path)
    unfolding dispatch
    dispatch-Holds type path j o t =
        Holds-if (str_eq type "INPUT")
          (λ e. parse_input-Holds lib period j path o (typed "INPUT" e))
          λ _.
            Holds-if (str_eq type "AND")
              (λ e. parse_bool_combinator-Holds j path true o (typed "AND" e))
              λ _.
                Holds-if (str_eq type "OR")
                  (λ e. parse_bool_combinator-Holds j path false o (typed "OR" e))
                  λ _.
                    Holds-if (str_eq type "NOT") (λ e. parse_not-Holds j path o (typed "NOT" e))
                      λ _.
                        Holds-if (str_eq type "TON_TIMER")
                          (λ e. parse_ton_timer-Holds j path o (typed "TON_TIMER" e)) (λ _. refused)
      where
        typed : (name : String) → str_eq type name ≡ true → HasString lib j "type" name
        typed name e = subst (HasString lib j "type") ((eq_iff type name).0 e) t

  parse_condition_node-Holds :
      (fuel : ℕ) (period : ℤ) (j : Json) (path : String)
      → Holds (IsNode lib period j) (parse_condition_node lib fuel period j path)
  unfolding parse_condition_node
  parse_condition_node-Holds zero period j path = stopped
  parse_condition_node-Holds (suc fuel) period j path = Holds-bind (Holds-require _ _) λ _ o.
      Holds-bind (require_string-Holds lib j "type" path) λ type t.
        dispatch-Holds period (parse_condition_node lib fuel period)
          (λ child p. parse_condition_node-Holds fuel period child p) type path j o t

  NameOf : (j : Json) (i : ℕ) (id : String) → Type 0
  NameOf j i id =
      HasString lib j "id" id
      ⊎ ((contains j "id" ≡ false) × (id ≡ "rules[" <> (to_string i <> "]")))

  pub parse_rule-Holds :
      (fuel : ℕ) (period : ℤ) (j : Json) (i : ℕ)
      → Holds (IsRule lib period j i) (parse_rule lib fuel period j i)
  unfolding parse_rule NameOf
  parse_rule-Holds fuel period j i =
      let path = "rules[" <> (to_string i <> "]") in
      Holds-bind (Holds-require _ _) λ _ object.
        Holds-bind
          (Holds-if {P = NameOf j i} (contains j "id")
            (λ _. Holds-mono (λ id t. inl t) (require_string-Holds lib j "id" path))
            (λ e. holds (inr (e, refl))))
          λ id named.
            Holds-bind (require_field-Holds lib j "output" path) λ output_field out_member.
              Holds-bind (parse_signal_ref-Holds lib output_field _ false) λ out out_ref.
                Holds-bind (require_field-Holds lib j "condition" path)
                  λ condition_field cond_member.
                    Holds-bind (parse_condition_node-Holds fuel period condition_field _)
                      λ condition node. holds (record {
                        object = object;
                        named = named;
                        output_value = output_field;
                        output_member = out_member;
                        output = out_ref;
                        condition_value = condition_field;
                        condition_member = cond_member;
                        condition = node;
                      })

  parse_rules-Holds :
      (fuel : ℕ) (period : ℤ) (rules : Json) (i left : ℕ)
      → Holds (AreRules lib period rules i left) (parse_rules lib fuel period rules i left)
  unfolding parse_rules
  parse_rules-Holds fuel period rules i zero = holds AreRules.no_more
  parse_rules-Holds fuel period rules i (suc left) =
      Holds-bind (parse_rule-Holds fuel period (index rules i) i) λ rule r.
        Holds-bind (parse_rules-Holds fuel period rules (i + 1) left)
          (λ rest rs. holds (AreRules.one_more r rs))

  from_json-Holds :
      (doc : Json) (period : ℤ) → Holds (IsDocument lib period doc) (from_json lib doc period)
  unfolding from_json
  from_json-Holds doc period = Holds-bind (Holds-require _ _) λ _ object.
      Holds-bind (require_field-Holds lib doc "rules" "document") λ rules member.
        Holds-bind (Holds-require _ _) λ _ array.
          Holds-mono
            (λ p elements. record {
              object = object;
              rules = rules;
              rules_member = member;
              array = array;
              elements = elements;
            })
            (parse_rules-Holds (lib.depth doc) period rules 0 (size rules))

  -- A program that `from_json` returns is the one that the document describes.
  pub from_json_accepted :
      (doc : Json) (period : ℤ) (p : LogicProgram)
      → from_json lib doc period ≡ parsed p
      → IsDocument lib period doc p
  from_json_accepted doc period p e = Holds-parsed (from_json-Holds doc period) e

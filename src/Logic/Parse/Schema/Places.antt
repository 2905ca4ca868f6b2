-- ===== src/Logic/Parse/Schema/Places.antt =====
-- How `from_json` ends for any document, and the place that an error is about.
use openaslc.Base.{
  ℕ, zero, suc, ◌+◌, ◌≤◌, ◌<◌, ◌≡◌, refl, subst, ◌⊎◌, inl, inr, true, [], ◌∷◌, arith, All,
}
use openaslc.Base.Int.{ℤ}
use openaslc.Base.Text.{String, ◌<>◌, to_string}
use openaslc.Logic.{Rule, LogicProgram}
use openaslc.Logic.Parse.Json.{JsonLibrary}
use openaslc.Logic.Parse.{Parsed, parsed, logic_parse_error, ◌>>=◌, require, parse_rules, from_json}
use openaslc.Logic.Parse.Yields.{Yields, good, refused, Yields-require}
use openaslc.Logic.Parse.Sound.{RuleSound, parse_rule-Yields}
use openaslc.Logic.Parse.Sound.Fields.{require_field-Yields}
use openaslc.Logic.Parse.Schema.{Has, IsRule, AreRules, IsDocument}
use openaslc.Logic.Parse.Schema.Holds.{Holds-parsed, require-true}
use openaslc.Logic.Parse.Schema.Accepted.{parse_rule-Holds}
use openaslc.Logic.Parse.Schema.FieldsAccepted.{require_field-Holds}
use openaslc.Logic.Parse.Schema.FieldsComplete.{require_field-Has}
use openaslc.Logic.Parse.Schema.Complete.{parse_rule-IsRule}

Yields-cases {ℓ κ} :
    {A : Type ℓ} {P : A → Type κ} {path : String} {r : Parsed A}
    → Yields P path r
    → ((a : A) × (r ≡ parsed a) × P a)
      ⊎ ((message : String) × (rest : String) × (r ≡ logic_parse_error message)
          × (message ≡ path <> rest))
Yields-cases (good {a} p) = inl (a, refl, p)
Yields-cases (refused {message} rest e) = inr (message, rest, refl, e)

module _ (lib : JsonLibrary) (period : ℤ) where
  open lib use {Json, is_object, is_array, size, index, depth}

  -- How the parse of `left` rules from rule `i` on ends: with these rules, which the schema describes;
  -- or with an error about rule `k`, which it does not describe while it does those before.
  data RulesEnd (rules : Json) (i left : ℕ) : Parsed LogicProgram → Type 0 where
    all_rules :
        (p : LogicProgram)
        → AreRules lib period rules i left p
        → All (RuleSound period) p
        → RulesEnd rules i left (parsed p)
    rule_refused :
        (n k : ℕ) (before : LogicProgram) {message : String} (rest : String)
        → k ≡ i + n
        → n < left
        → AreRules lib period rules i n before
        → ((rule : Rule) → ¬ IsRule lib period (index rules k) k rule)
        → message ≡ ("rules[" <> (to_string k <> "]")) <> rest
        → RulesEnd rules i left (logic_parse_error message)

  -- How `from_json` ends for a document.
  pub data DocumentEnds (doc : Json) : Parsed LogicProgram → Type 0 where
    loaded :
        (p : LogicProgram)
        → IsDocument lib period doc p
        → All (RuleSound period) p
        → DocumentEnds doc (parsed p)
    bad_document :
        {message : String} (rest : String)
        → message ≡ "document" <> rest
        → ((rules : Json)
            → ¬ ((is_object doc ≡ true) × Has lib doc "rules" rules × (is_array rules ≡ true)))
        → DocumentEnds doc (logic_parse_error message)
    bad_rule :
        (rules : Json) (k : ℕ) (before : LogicProgram) {message : String} (rest : String)
        → is_object doc ≡ true
        → Has lib doc "rules" rules
        → is_array rules ≡ true
        → k < size rules
        → AreRules lib period rules 0 k before
        → ((rule : Rule) → ¬ IsRule lib period (index rules k) k rule)
        → message ≡ ("rules[" <> (to_string k <> "]")) <> rest
        → DocumentEnds doc (logic_parse_error message)

  rules_after :
      {rules : Json} {i left : ℕ} {r : Parsed LogicProgram} (rule : Rule)
      → IsRule lib period (index rules i) i rule
      → RuleSound period rule
      → RulesEnd rules (i + 1) left r
      → RulesEnd rules i (suc left) (r >>= λ more. parsed (rule ∷ more))
  unfolding ◌>>=◌
  rules_after rule h s (all_rules p ps sound) =
      all_rules (rule ∷ p) (AreRules.one_more h ps) (s, sound)
  rules_after rule h s (rule_refused n k before rest e l bs none_here m) =
      rule_refused (suc n) k (rule ∷ before) rest (omega (arith, e)) (omega (arith, l))
        (AreRules.one_more h bs) none_here m

  parse_rules-RulesEnd :
      (fuel : ℕ) (rules : Json) (i left : ℕ)
      → depth rules ≤ fuel
      → is_array rules ≡ true
      → i + left ≤ size rules
      → RulesEnd rules i left (parse_rules lib fuel period rules i left)
  unfolding parse_rules ◌>>=◌
  parse_rules-RulesEnd fuel rules i zero d arr h = all_rules [] AreRules.no_more tt
  parse_rules-RulesEnd fuel rules i (suc left) d arr h =
      let less : depth (index rules i) ≤ fuel =
        omega (arith, lib.depth-index rules i arr (omega arith)) in
      elim (Yields-cases (parse_rule-Yields lib fuel period (index rules i) i less)) [
        | inl (rule, e, s) ↦ rw e (
            rules_after rule (Holds-parsed (parse_rule-Holds lib fuel period (index rules i) i) e) s
              (parse_rules-RulesEnd fuel rules (i + 1) left d arr (omega arith)))
        | inr (message, rest, e, m) ↦ rw e (
            rule_refused 0 i [] rest (omega arith) (omega arith) AreRules.no_more
              (λ rule described.
                let made = parse_rule-IsRule lib fuel i less described in absurd (cc (e, made)))
              m)
      ]

  of_rules :
      {doc rules : Json} {r : Parsed LogicProgram}
      → is_object doc ≡ true
      → Has lib doc "rules" rules
      → is_array rules ≡ true
      → RulesEnd rules 0 (size rules) r
      → DocumentEnds doc r
  of_rules {rules = rules} o has arr (all_rules p ps sound) =
      loaded p
        (record { object = o; rules = rules; rules_member = has; array = arr; elements = ps }) sound
  of_rules {rules = rules} o has arr (rule_refused n k before rest e l bs none_here m) =
      let same : n ≡ k = omega (arith, e) in
      bad_rule rules k before rest o has arr (omega (arith, e, l))
        (subst (λ (x : ℕ). AreRules lib period rules 0 x before) same bs) none_here m

  -- Once the member `rules` is found.
  at_rules :
      (doc rules : Json)
      → is_object doc ≡ true
      → depth rules < depth doc
      → Has lib doc "rules" rules
      → DocumentEnds doc (
          require (is_array rules) "document.rules: expected an array" >>= λ u.
          parse_rules lib (depth doc) period rules 0 (size rules))
  unfolding ◌>>=◌
  at_rules doc rules o d has =
      elim (Yields-cases (Yields-require (is_array rules) "document" ".rules: expected an array")) [
        | inr (message, rest, e, m) ↦ rw e (
            bad_document rest m λ other h.
              let same : other ≡ rules = cc (h.1.1, has.1) in
              let arr = subst (λ (j : Json). is_array j ≡ true) same h.2 in
              let made = require-true (is_array rules) "document.rules: expected an array" arr in
              absurd (cc (e, made)))
        | inl (u, e, arr) ↦ rw e (
            of_rules o has arr (
              parse_rules-RulesEnd (depth doc) rules 0 (size rules) (omega (arith, d)) arr
                (omega arith)))
      ]

  -- `from_json` of any document ends in one of three ways, never with an exception of the JSON library
  -- and never out of fuel. Either with a program, as the schema describes it, whose references all lie
  -- inside their areas, whose outputs are no inputs of the controller, and whose timers are fresh and
  -- have the period given. Or with a `LogicParseError` that begins with `document`, where the document
  -- is no object with an array of rules. Or with one that begins with `rules[k]`, where `k` is the
  -- first rule of the array that the schema does not describe.
  pub from_json-DocumentEnds : (doc : Json) → DocumentEnds doc (from_json lib doc period)
  unfolding from_json ◌>>=◌
  from_json-DocumentEnds doc =
      elim (Yields-cases (Yields-require (is_object doc) "document" ": expected a JSON object")) [
        | inr (message, rest, e, m) ↦ rw e (
            bad_document rest m λ rules h.
              let made = require-true (is_object doc) "document: expected a JSON object" h.0 in
              absurd (cc (e, made)))
        | inl (u, e, o) ↦
            rw e (elim (Yields-cases (require_field-Yields lib doc "rules" "document")) [
              | inr (message, rest, e', m) ↦ rw e' (
                  bad_document rest m λ rules h.
                    let made = require_field-Has lib "document" h.1 in absurd (cc (e', made)))
              | inl (rules, e', d) ↦ rw e' (
                  at_rules doc rules o d
                    (Holds-parsed (require_field-Holds lib doc "rules" "document") e'))
            ])
      ]

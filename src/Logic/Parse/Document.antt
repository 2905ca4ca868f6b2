-- ===== src/Logic/Parse/Document.antt =====
-- `from_json` and `from_file` as a whole.
use openaslc.Base.{ℕ, zero, suc, ◌+◌, ◌≤◌, ◌≡◌, subst, true, [], ◌∷◌, arith, All}
use openaslc.Base.Int.{ℤ}
use openaslc.Base.Text.{String, ◌<>◌, to_string}
use openaslc.Logic.{Rule, LogicProgram}
use openaslc.Logic.Program.{ProgramWellFormed}
use openaslc.Logic.Parse.Json.{JsonLibrary}
use openaslc.Logic.Parse.{Parsed, parsed, logic_parse_error, ◌>>=◌, parse_rules, from_json}
use openaslc.Logic.Parse.Yields.{Yields, good, refused, Yields-require}
use openaslc.Logic.Parse.Sound.{RuleSound, parse_rule-Yields}
use openaslc.Logic.Parse.Sound.Fields.{require_field-Yields}

-- How the load of a document ends: with a sound program, or with a `LogicParseError` about the
-- document or about one rule.
pub data Loads (period : ℤ) : Parsed LogicProgram → Type 0 where
  loaded : {p : LogicProgram} → All (RuleSound period) p → Loads period (parsed p)
  bad_document :
      {message : String} (rest : String)
      → message ≡ "document" <> rest
      → Loads period (logic_parse_error message)
  bad_rule :
      {message : String} (i : ℕ) (rest : String)
      → message ≡ ("rules[" <> (to_string i <> "]")) <> rest
      → Loads period (logic_parse_error message)

module _ {ℓ κ} {A : Type ℓ} {P : A → Type κ} {period : ℤ} where
  in_document :
      {r : Parsed A} (f : A → Parsed LogicProgram)
      → Yields P "document" r
      → ((a : A) → P a → Loads period (f a))
      → Loads period (r >>= f)
  unfolding ◌>>=◌
  in_document f (good {a} p) next = next a p
  in_document f (refused rest e) next = bad_document rest e

  in_rule :
      (i : ℕ) {r : Parsed A} (f : A → Parsed LogicProgram)
      → Yields P ("rules[" <> (to_string i <> "]")) r
      → ((a : A) → P a → Loads period (f a))
      → Loads period (r >>= f)
  unfolding ◌>>=◌
  in_rule i f (good {a} p) next = next a p
  in_rule i f (refused rest e) next = bad_rule i rest e

Loads-cons :
    {period : ℤ} (rule : Rule) {r : Parsed LogicProgram}
    → RuleSound period rule
    → Loads period r
    → Loads period (r >>= λ rules. parsed (rule ∷ rules))
unfolding ◌>>=◌
Loads-cons rule s (loaded p) = loaded (s, p)
Loads-cons rule s (bad_document rest e) = bad_document rest e
Loads-cons rule s (bad_rule i rest e) = bad_rule i rest e

module _ (lib : JsonLibrary) where
  open lib use {Json, is_object, is_array, size, index, depth}

  parse_rules-Loads :
      (fuel : ℕ) (period : ℤ) (rules_field : Json) (i left : ℕ)
      → depth rules_field ≤ fuel
      → is_array rules_field ≡ true
      → i + left ≤ size rules_field
      → Loads period (parse_rules lib fuel period rules_field i left)
  unfolding parse_rules
  parse_rules-Loads fuel period rules_field i zero d arr h = loaded tt
  parse_rules-Loads fuel period rules_field i (suc left) d arr h =
      in_rule i _
        (parse_rule-Yields lib fuel period (index rules_field i) i
          (omega (arith, lib.depth-index rules_field i arr (omega arith))))
        λ rule s.
          Loads-cons rule s
            (parse_rules-Loads fuel period rules_field (i + 1) left d arr (omega arith))

  -- `from_json` of any document ends in one of three ways: with a program whose references all lie
  -- inside their areas, whose outputs are no inputs of the controller, and whose timers are fresh
  -- and have the period given; with a `LogicParseError` whose message begins with `document`; or
  -- with one whose message begins with `rules[i]`.
  pub from_json-Loads : (doc : Json) (period : ℤ) → Loads period (from_json lib doc period)
  unfolding from_json
  from_json-Loads doc period =
      in_document _ (Yields-require (is_object doc) "document" ": expected a JSON object") λ _ _.
        in_document _ (require_field-Yields lib doc "rules" "document") λ rules_field d.
          in_document _
            (Yields-require (is_array rules_field) "document" ".rules: expected an array")
            λ _ arr.
              parse_rules-Loads (depth doc) period rules_field 0 (size rules_field) (omega arith)
                arr (omega arith)

  pub from_json_sound :
      (period : ℤ) {p : LogicProgram} (r : Parsed LogicProgram)
      → Loads period r
      → r ≡ parsed p
      → All (RuleSound period) p
  from_json_sound period r (loaded s) e = subst (All (RuleSound period)) (cc) s
  from_json_sound period r (bad_document rest m) e = absurd (cc)
  from_json_sound period r (bad_rule i rest m) e = absurd (cc)

  pub well_formed : (period : ℤ) (p : LogicProgram) → All (RuleSound period) p → ProgramWellFormed p
  well_formed period [] s = tt
  well_formed period (r ∷ p) s = (s.0.0, well_formed period p s.1)

  -- A program that `from_json` returns is well-formed.
  pub from_json-WellFormed :
      (doc : Json) (period : ℤ) {p : LogicProgram}
      → from_json lib doc period ≡ parsed p
      → ProgramWellFormed p
  from_json-WellFormed doc period {p} e =
      well_formed period p (from_json_sound period _ (from_json-Loads doc period) e)

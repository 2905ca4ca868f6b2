-- ===== src/Logic/Parse/Printer.antt =====
-- The printer of the small JSON library.
use openaslc.Base.{
  ◌≡◌, refl, sym, ap, ◌∙◌, subst, ◌⊎◌, inl, inr, List, [], ◌∷◌, Option, none, some, if◌then◌else◌,
  Bool-cases,
}
use openaslc.Base.Int.{pos}
use openaslc.Base.Text.{String, str_eq, c_str, c_str-c_str, eq_iff, int_to_string}
use openaslc.Logic.Parse.Json.{JsonWriter}
use openaslc.Logic.Parse.Sample.{
  Value, Members, Elements, object, array, text, number, null, no_members, member, no_elements,
  element, print, document, input_body, parse_text, sample,
}

abbrev pub members_of : List (String × Value) → Members
members_of [] = no_members
members_of ((key, v) ∷ more) = member key v (members_of more)

abbrev pub elements_of : List Value → Elements
elements_of [] = no_elements
elements_of (v ∷ more) = element v (elements_of more)

-- A text with a NUL is not printed.
abbrev print_safely : String → Option String
print_safely s = if str_eq (c_str s) s then some s else none

print_safely-c_str : (t s : String) → print_safely t ≡ some s → c_str s ≡ s
print_safely-c_str t s h = elim (Bool-cases (str_eq (c_str t) t)) [
  | inl e ↦ let same : t ≡ s = cc (e) in ap c_str (sym same) ∙ ((eq_iff (c_str t) t).0 e ∙ same)
  | inr e ↦ absurd (cc (e))
]

unfoldable pub prints : (j : Value) → Option String
prints j = print_safely (print j)

document_printed : prints document ≡ some (print document)
unfolding prints c_str int_to_string
document_printed = refl

input_body_printed : prints input_body ≡ some (print input_body)
unfolding prints c_str int_to_string
input_body_printed = refl

cut_document : c_str (print document) ≡ print document
unfolding c_str int_to_string
cut_document = refl

cut_input_body : c_str (print input_body) ≡ print input_body
unfolding c_str int_to_string
cut_input_body = refl

known_document : (t : String) (j : Value) → parse_text t ≡ inl j → (j ≡ document) ⊎ (j ≡ input_body)
known_document t j h = elim (Bool-cases (str_eq t (print document))) [
  | inl e ↦ inl (cc (e))
  | inr e ↦ elim (Bool-cases (str_eq t (print input_body))) [
    | inl e' ↦ inr (cc (e, e'))
    | inr e' ↦ absurd (cc (e, e'))
  ]
]

parse-printed :
    (d : Value) (s : String)
    → prints d ≡ some (print d)
    → parse_text (print d) ≡ inl d
    → prints d ≡ some s
    → parse_text s ≡ inl d
parse-printed d s p q h = let same : print d ≡ s = cc in ap parse_text (sym same) ∙ q

pub parse_text-prints :
    (t : String) (j : Value) (s : String)
    → parse_text t ≡ inl j
    → prints j ≡ some s
    → parse_text s ≡ inl j
unfolding int_to_string
parse_text-prints t j s h d = elim (known_document t j h) [
  | inl e ↦
      subst (λ (v : Value). parse_text s ≡ inl v) (sym e)
        (parse-printed document s document_printed refl
          (subst (λ (v : Value). prints v ≡ some s) e d))
  | inr e ↦
      subst (λ (v : Value). parse_text s ≡ inl v) (sym e)
        (parse-printed input_body s input_body_printed refl
          (subst (λ (v : Value). prints v ≡ some s) e d))
]

pub prints-c_str : (j : Value) (s : String) → prints j ≡ some s → c_str s ≡ s
unfolding prints
prints-c_str j s h = print_safely-c_str (print j) s h

abbrev pub sample_writer : JsonWriter sample
sample_writer = record {
  null_value = null;
  string_value = text;
  number_value = λ n. number (pos n);
  array_value = λ vs. array (elements_of vs);
  object_value = λ ms. object (members_of ms);
  dump = prints;
  parse-dump = parse_text-prints;
  c_str-dump = prints-c_str;
}

pub cut_parsed :
    (t : String) (j : Value) (s : String)
    → parse_text t ≡ inl j
    → some (c_str (print j)) ≡ some s
    → parse_text s ≡ inl j
unfolding int_to_string
cut_parsed t j s h d = elim (known_document t j h) [
  | inl e ↦
      let printed : c_str (print document) ≡ s =
        ap (λ (v : Value). c_str (print v)) (sym e) ∙ (cc (d)) in
      let same : s ≡ print document = sym printed ∙ cut_document in
      ap parse_text same ∙ ap inl (sym e)
  | inr e ↦
      let printed : c_str (print input_body) ≡ s =
        ap (λ (v : Value). c_str (print v)) (sym e) ∙ (cc (d)) in
      let same : s ≡ print input_body = sym printed ∙ cut_input_body in
      ap parse_text same ∙ ap inl (sym e)
]

pub cut_c_str : (j : Value) (s : String) → some (c_str (print j)) ≡ some s → c_str s ≡ s
cut_c_str j s d =
    let same : c_str (print j) ≡ s = cc in
    subst (λ (t : String). c_str t ≡ t) same (c_str-c_str (print j))

-- Every document is printed, up to the first NUL of its text.
abbrev pub cut_writer : JsonWriter sample
cut_writer = record {
  null_value = null;
  string_value = text;
  number_value = λ n. number (pos n);
  array_value = λ vs. array (elements_of vs);
  object_value = λ ms. object (members_of ms);
  dump = λ j. some (c_str (print j));
  parse-dump = cut_parsed;
  c_str-dump = cut_c_str;
}

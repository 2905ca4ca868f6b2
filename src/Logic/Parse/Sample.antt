-- ===== src/Logic/Parse/Sample.antt =====
-- A small JSON library, for the tests: documents as trees.
use openaslc.Base.{
  ℕ, zero, suc, ◌≤◌, ◌<◌, ◌≡◌, refl, Bool, true, false, arith, ◌==◌, if◌then◌else◌, Option, none,
  some, inr, Bool-cases, inl, ltb, ◌⊎◌,
}
use openaslc.Base.Int.{ℤ, pos}
use openaslc.Base.Text.{String, str_eq, ◌<>◌, int_to_string}
use openaslc.Logic.Parse.Json.{JsonLibrary}

mutual
  pub data Value : Type 0 where
    object : Members → Value
    array : Elements → Value
    text : String → Value
    number : ℤ → Value
    flag : Bool → Value
    null : Value

  pub data Members : Type 0 where
    no_members : Members
    member : String → Value → Members → Members

  pub data Elements : Type 0 where
    no_elements : Elements
    element : Value → Elements → Elements

abbrev max_of : ℕ → ℕ → ℕ
max_of a b = if ltb a b then b else a

abbrev mutual
  depth_of : Value → ℕ
  depth_of (object ms) = suc (depth_of_members ms)
  depth_of (array es) = suc (depth_of_elements es)
  depth_of (text s) = 1
  depth_of (number n) = 1
  depth_of (flag b) = 1
  depth_of null = 1

  depth_of_members : Members → ℕ
  depth_of_members no_members = 0
  depth_of_members (member key v ms) = max_of (depth_of v) (depth_of_members ms)

  depth_of_elements : Elements → ℕ
  depth_of_elements no_elements = 0
  depth_of_elements (element v es) = max_of (depth_of v) (depth_of_elements es)

abbrev find : Members → String → Option Value
find no_members key = none
find (member k v ms) key = if str_eq k key then some v else find ms key

abbrev pub find_at : Value → String → Option Value
find_at (object ms) key = find ms key
find_at (array es) key = none
find_at (text s) key = none
find_at (number n) key = none
find_at (flag b) key = none
find_at null key = none

abbrev is_found : Option Value → Bool
is_found none = false
is_found (some v) = true

abbrev count : Elements → ℕ
count no_elements = 0
count (element v es) = suc (count es)

abbrev count_members : Members → ℕ
count_members no_members = 0
count_members (member key v ms) = suc (count_members ms)

abbrev size_of : Value → ℕ
size_of (object ms) = count_members ms
size_of (array es) = count es
size_of (text s) = 1
size_of (number n) = 1
size_of (flag b) = 1
size_of null = 0

abbrev nth : Elements → ℕ → Value
nth no_elements i = text ""
nth (element v es) zero = v
nth (element v es) (suc i) = nth es i

abbrev element_at : Value → ℕ → Value
element_at (array es) i = nth es i
element_at v i = v

abbrev object? : Value → Bool
object? (object ms) = true
object? v = false

abbrev array? : Value → Bool
array? (array es) = true
array? v = false

abbrev text? : Value → Bool
text? (text s) = true
text? v = false

abbrev pub number? : Value → Bool
number? (number n) = true
number? v = false

abbrev text_of : Value → String
text_of (text s) = s
text_of v = ""

abbrev number_of : Value → ℤ
number_of (number n) = n
number_of v = pos 0

pub found-some : (r : Option Value) → is_found r ≡ true → (v : Value) × (r ≡ some v)
found-some none h = absurd (ground arith)
found-some (some v) h = (v, refl)

find-depth :
    (ms : Members) (key : String) (v : Value)
    → find ms key ≡ some v
    → depth_of v ≤ depth_of_members ms
find-depth no_members key v h = absurd (cc)
find-depth (member k w ms) key v h = elim (Bool-cases (str_eq k key)) [
  | inl e ↦ ground (arith, e)
  | inr e ↦ ground (arith, e, find-depth ms key v)
]

nth-depth : (es : Elements) (i : ℕ) → i < count es → depth_of (nth es i) ≤ depth_of_elements es
nth-depth no_elements i h = absurd (omega arith)
nth-depth (element v es) zero h = ground arith
nth-depth (element v es) (suc i) h = ground (arith, nth-depth es i (omega arith))

pub find_at-depth :
    (j : Value) (key : String) (v : Value) → find_at j key ≡ some v → depth_of v < depth_of j
find_at-depth (object ms) key v h = omega (arith, find-depth ms key v h)
find_at-depth (array es) key v h = absurd (cc)
find_at-depth (text s) key v h = absurd (cc)
find_at-depth (number n) key v h = absurd (cc)
find_at-depth (flag b) key v h = absurd (cc)
find_at-depth null key v h = absurd (cc)

pub element_at-depth :
    (j : Value) (i : ℕ) → array? j ≡ true → i < size_of j → depth_of (element_at j i) < depth_of j
element_at-depth (object ms) i a h = absurd (ground arith)
element_at-depth (array es) i a h = omega (arith, nth-depth es i h)
element_at-depth (text s) i a h = absurd (ground arith)
element_at-depth (number n) i a h = absurd (ground arith)
element_at-depth (flag b) i a h = absurd (ground arith)
element_at-depth null i a h = absurd (ground arith)

-- A value as text, without blanks.
abbrev mutual
  pub print : Value → String
  print (object ms) = "{" <> (print_members ms <> "}")
  print (array es) = "[" <> (print_elements es <> "]")
  print (text s) = "'" <> (s <> "'")
  print (number n) = int_to_string n
  print (flag true) = "true"
  print (flag false) = "false"
  print null = "null"

  print_members : Members → String
  print_members no_members = ""
  print_members (member key v ms) = key <> (":" <> (print v <> (";" <> print_members ms)))

  print_elements : Elements → String
  print_elements no_elements = ""
  print_elements (element v es) = print v <> (";" <> print_elements es)

abbrev pub place : String → ℕ → ℕ → Members → Members
place area byte bit ms =
    member "area" (text area)
      (member "byte" (number (pos byte)) (member "bit" (number (pos bit)) ms))

-- {"rules": [{"id": "delay", "output": ..., "condition": {"type": "TON_TIMER", ...}}]}
abbrev pub document : Value
document = object (
    member "rules"
      (array (
        element
          (object (
            member "id" (text "delay") (
              member "output" (object (place "Q" 0 1 no_members)) (
                member "condition"
                  (object (
                    member "type" (text "TON_TIMER") (
                      member "preset_ms" (number (pos 30)) (
                        member "input"
                          (object (member "type" (text "INPUT") (place "I" 0 0 no_members)))
                          no_members))))
                  no_members))))
          no_elements))
      no_members)

-- {"byte": 0, "bit": 1, "value": true}
abbrev pub input_body : Value
input_body = object (
    member "byte" (number (pos 0))
      (member "bit" (number (pos 1)) (member "value" (flag true) no_members)))

-- It knows two documents.
abbrev pub parse_text : String → Value ⊎ String
parse_text s =
    if str_eq s (print document)
    then inl document
    else if str_eq s (print input_body)
    then inl input_body
    else inr "no such document"

abbrev pub sample : JsonLibrary
sample = record {
  Json = Value;
  is_object = object?;
  is_array = array?;
  is_string = text?;
  is_number_integer = number?;
  contains = λ j key. is_found (find_at j key);
  at = find_at;
  get_string = text_of;
  get_int64 = number_of;
  size = size_of;
  empty = λ j. size_of j == 0;
  index = element_at;
  parse = parse_text;
  depth = depth_of;
  at-contains = λ j key h. found-some (find_at j key) h;
  empty-size = λ j. refl;
  depth-at = find_at-depth;
  depth-index = element_at-depth;
}

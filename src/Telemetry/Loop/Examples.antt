-- ===== src/Telemetry/Loop/Examples.antt =====
-- Two messages to a client whose socket takes one byte at a time, and few of them.
use openaslc.Base.{
  ℕ, ◌≤◌, ◌<◌, ◌≡◌, false, List, [], ◌∷◌, ◌++◌, arith, Option, none, some, inl, inr, subst, ltb,
  if◌then◌else◌, length, take,
}
use openaslc.Base.Int.{pos}
use openaslc.Base.Text.{String, c_str, c_str-c_str}
use openaslc.Logic.Parse.Json.{JsonLibrary, JsonWriter}
use openaslc.Logic.Parse.Sample.{sample, Value, object, array, text, number, null, print}
use openaslc.Logic.Parse.Printer.{members_of, elements_of}
use openaslc.MemoryMap.{initial}
use openaslc.Telemetry.{Socket}
use openaslc.Telemetry.Send.{Sends}
use openaslc.Telemetry.Loop.{Round}
use openaslc.Telemetry.Loop.Stream.{message_of}

-- A JSON library that parses nothing.
abbrev printing : JsonLibrary
printing = record sample { parse = λ s. inr "no parser" }

nothing_parsed :
    (t : String) (j : Value) (s : String)
    → printing.parse t ≡ inl j
    → some (c_str (print j)) ≡ some s
    → printing.parse s ≡ inl j
nothing_parsed t j s h d = absurd (cc)

without_nul : (j : Value) (s : String) → some (c_str (print j)) ≡ some s → c_str s ≡ s
without_nul j s d =
    let same : c_str (print j) ≡ s = cc in
    subst (λ (t : String). c_str t ≡ t) same (c_str-c_str (print j))

abbrev printer : JsonWriter printing
printer = record {
  null_value = null;
  string_value = text;
  number_value = λ n. number (pos n);
  array_value = λ vs. array (elements_of vs);
  object_value = λ ms. object (members_of ms);
  dump = λ j. some (c_str (print j));
  parse-dump = nothing_parsed;
  c_str-dump = without_nul;
}

abbrev message : ℕ → List ℕ → List ℕ → String
message seq inputs outputs = c_str (print (message_of printing printer seq inputs outputs))

abbrev few : List ℕ → List ℕ → Option ℕ × List ℕ
few s [] = (none, s)
few s (b ∷ bytes) = if ltb (length s) 5 then (some 1, s ++ (b ∷ [])) else (none, s)

few_taken :
    (s s' bytes : List ℕ) (n : ℕ)
    → few s bytes ≡ (some n, s')
    → (0 < n) × (n ≤ length bytes) × (s' ≡ s ++ take n bytes)
few_taken s s' [] n e = absurd (cc)
few_taken s s' (b ∷ bytes) n e = ground arith

few_refused : (s s' bytes : List ℕ) → few s bytes ≡ (none, s') → s' ≡ s
few_refused s s' [] e = ground arith
few_refused s s' (b ∷ bytes) e = ground arith

abbrev client : Socket
client = record { State = List ℕ; ready = λ s. false; recv = λ s n. (none, s); send = few }

abbrev client_law : Sends client
client_law = record { gone = λ s. s; taken = few_taken; refused = few_refused }

abbrev rounds : List Round
rounds =
    record { at_input = initial; at_output = initial }
    ∷ (record { at_input = initial; at_output = initial } ∷ [])

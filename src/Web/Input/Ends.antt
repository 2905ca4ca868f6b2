-- ===== src/Web/Input/Ends.antt =====
-- A request for an input reaches the simulated hardware.
use openaslc.Base.{
  subst, ◌⊎◌, [], ◌∷◌, some, none, Option-cases, ℕ, ◌≤◌, ◌≡◌, inl, inr, Bool, ◌&&◌, ◌==◌, ltb,
  if◌then◌else◌, sum-cases,
}
use openaslc.Base.Text.{String, ◌<>◌}
use openaslc.Logic.Parse.Json.{JsonLibrary, JsonWriter}
use openaslc.MemoryMap.{input_size}
use openaslc.MockDriver.{MockDriver, set_mock_input_bit, IsValid}
use openaslc.MockDriver.Inputs.{mock_bit, set_mock_input_bit_lem, set_mock_input_bit-IsValid}
use openaslc.Web.{Request, Handled, responded, escaped, respond, error_json}
use openaslc.Web.Input.{JsonReader, and_read, read_input, answer_input, handle_input}

module _ (lib : JsonLibrary) (writer : JsonWriter lib) (reader : JsonReader lib) where
  -- What reading the member `key` of the body as a value of one type gives: the value; or the text of
  -- the exception, where there is no such member or it has another type.
  pub data FieldReads {A : Type 0} (doc : lib.Json) (key : String) (get : lib.Json → A ⊎ String)
      : A ⊎ String → Type 0 where
    missing : (what : String) → reader.member doc key ≡ inr what → FieldReads doc key get (inr what)
    mistyped :
        (j : lib.Json) (what : String)
        → reader.member doc key ≡ inl j
        → get j ≡ inr what
        → FieldReads doc key get (inr what)
    present :
        (j : lib.Json) (a : A)
        → reader.member doc key ≡ inl j
        → get j ≡ inl a
        → FieldReads doc key get (inl a)

  -- The three values of a body; or the text of its first error, in the order byte, bit, value.
  pub data BodyReads (doc : lib.Json) : (ℕ × ℕ × Bool) ⊎ String → Type 0 where
    bad_byte :
        (what : String)
        → FieldReads doc "byte" reader.get_size (inr what)
        → BodyReads doc (inr what)
    bad_bit :
        (byte : ℕ) (what : String)
        → FieldReads doc "byte" reader.get_size (inl byte)
        → FieldReads doc "bit" reader.get_uint8 (inr what)
        → BodyReads doc (inr what)
    bad_value :
        (byte bit : ℕ) (what : String)
        → FieldReads doc "byte" reader.get_size (inl byte)
        → FieldReads doc "bit" reader.get_uint8 (inl bit)
        → FieldReads doc "value" reader.get_bool (inr what)
        → BodyReads doc (inr what)
    whole_body :
        (byte bit : ℕ) (value : Bool)
        → FieldReads doc "byte" reader.get_size (inl byte)
        → FieldReads doc "bit" reader.get_uint8 (inl bit)
        → FieldReads doc "value" reader.get_bool (inl value)
        → BodyReads doc (inl (byte, bit, value))

  -- Why a body is refused, with the text of the exception.
  pub data BodyRefused (req : Request) : String → Type 0 where
    not_json : (what : String) → lib.parse req.body ≡ inr what → BodyRefused req what
    no_input :
        (doc : lib.Json) (what : String)
        → lib.parse req.body ≡ inl doc
        → BodyReads doc (inr what)
        → BodyRefused req what

  -- The answer 400 with a text, or the exception that leaves the handler where the answer cannot be
  -- printed.
  pub data Answer400 (text : String) : Handled → Type 0 where
    answered :
        (printed : String)
        → writer.dump (writer.object_value (("error", writer.string_value text) ∷ []))
          ≡ some printed
        → Answer400 text (responded (record { status = 400; content = printed }))
    unprintable :
        writer.dump (writer.object_value (("error", writer.string_value text) ∷ [])) ≡ none
        → Answer400 text escaped

  -- How POST /api/input ends for the input bit `n` of byte `j`: accepted, with the three values of
  -- the body, or refused with the exception's text and nothing changed.
  pub data InputEnds (d : MockDriver) (req : Request) (j n : ℕ)
      : Handled × MockDriver → Type 0 where
    accepted :
        (doc : lib.Json) (byte bit : ℕ) (value : Bool) (d' : MockDriver)
        → lib.parse req.body ≡ inl doc
        → BodyReads doc (inl (byte, bit, value))
        → mock_bit d' j n
          ≡ (if ltb byte input_size && ((j == byte) && (n == bit)) then value else mock_bit d j n)
        → IsValid d'
        → InputEnds d req j n (responded (record { status = 200; content = "{\"ok\":true}" }), d')
    refused :
        (what : String) (h : Handled)
        → BodyRefused req what
        → Answer400 ("invalid input request: " <> what) h
        → InputEnds d req j n (h, d)

  field_lem :
      {A : Type 0} (doc : lib.Json) (key : String) (get : lib.Json → A ⊎ String)
      → FieldReads doc key get (and_read (reader.member doc key) get)
  unfolding and_read
  field_lem doc key get = elim (sum-cases (reader.member doc key)) [
    | inr (what, e) ↦ rw e (missing what e)
    | inl (m, e) ↦ elim (sum-cases (get m)) [
      | inr (what, e') ↦ rw e (rw e' (mistyped m what e e'))
      | inl (a, e') ↦ rw e (rw e' (present m a e e'))
    ]
  ]

  body_lem : (doc : lib.Json) → BodyReads doc (read_input lib writer reader doc)
  unfolding read_input and_read
  body_lem doc =
      let byte_read = field_lem doc "byte" reader.get_size in
      let bit_read = field_lem doc "bit" reader.get_uint8 in
      let value_read = field_lem doc "value" reader.get_bool in
      elim (sum-cases (and_read (reader.member doc "byte") reader.get_size)) [
        | inr (what, e) ↦
            rw e (bad_byte what (subst (FieldReads doc "byte" reader.get_size) e byte_read))
        | inl (byte, e) ↦
            let b = subst (FieldReads doc "byte" reader.get_size) e byte_read in
            elim (sum-cases (and_read (reader.member doc "bit") reader.get_uint8)) [
              | inr (what, e') ↦ rw e (
                  rw e' (
                    bad_bit byte what b
                      (subst (FieldReads doc "bit" reader.get_uint8) e' bit_read)))
              | inl (bit, e') ↦
                  let n = subst (FieldReads doc "bit" reader.get_uint8) e' bit_read in
                  elim (sum-cases (and_read (reader.member doc "value") reader.get_bool)) [
                    | inr (what, e'') ↦ rw e (
                        rw e' (
                          rw e'' (
                            bad_value byte bit what b n
                              (subst (FieldReads doc "value" reader.get_bool) e'' value_read))))
                    | inl (value, e'') ↦ rw e (
                        rw e' (
                          rw e'' (
                            whole_body byte bit value b n
                              (subst (FieldReads doc "value" reader.get_bool) e'' value_read))))
                  ]
            ]
      ]

  answer_lem :
      (text : String) → Answer400 text (respond lib writer 400 (error_json lib writer text))
  unfolding respond error_json
  answer_lem text =
      elim (Option-cases
        (writer.dump (writer.object_value (("error", writer.string_value text) ∷ [])))) [
          | inl e ↦ rw (e, respond) (unprintable e)
          | inr (printed, e) ↦ rw (e, respond) (answered printed e)
        ]

  -- POST /api/input with a valid driver sets the input bit that the body names, and no other, and
  -- answers 200, also where there is no such bit; or, only where the body is not JSON or its first
  -- error in the order byte, bit, value is a missing or mistyped member, it changes nothing and
  -- answers 400 with the text of that error. An answer that cannot be printed is an exception.
  pub handle_input-InputEnds :
      (d : MockDriver) (req : Request) (j n : ℕ)
      → IsValid d
      → n ≤ 7
      → InputEnds d req j n (handle_input lib writer reader set_mock_input_bit d req)
  unfolding handle_input and_read answer_input
  handle_input-InputEnds d req j n v hn = elim (sum-cases (lib.parse req.body)) [
    | inr (what, e) ↦
        rw (e, handle_input, and_read, answer_input)
          (refused what _ (not_json what e) (answer_lem ("invalid input request: " <> what)))
    | inl (doc, e) ↦ elim (sum-cases (read_input lib writer reader doc)) [
      | inr (what, e') ↦
          rw (e, handle_input, and_read)
            (rw (e', answer_input)
              (refused what _ (no_input doc what e (subst (BodyReads doc) e' (body_lem doc)))
                (answer_lem ("invalid input request: " <> what))))
      | inl ((byte, bit, value), e') ↦
          rw (e, handle_input, and_read)
            (rw (e', answer_input)
              (accepted doc byte bit value _ e (subst (BodyReads doc) e' (body_lem doc))
                (set_mock_input_bit_lem byte bit value j n v hn)
                (set_mock_input_bit-IsValid byte bit value v)))
    ]
  ]

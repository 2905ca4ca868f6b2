-- ===== src/Telemetry/Loop/Stream.antt =====
-- The stream of messages that a client gets.
use openaslc.Base.{ℕ, ◌+◌, ◌%◌, ◌^◌, ◌≡◌, Bool, false, List, [], ◌∷◌, ◌++◌, some, map}
use openaslc.Base.Outcome.{Outcome, ok}
use openaslc.Base.Text.{String, utf8}
use openaslc.Logic.Parse.Json.{JsonLibrary, JsonWriter}
use openaslc.MemoryMap.{input, output, area_of, IsValid}
use openaslc.Telemetry.{Socket, text_frame}
use openaslc.Telemetry.Send.{Sends, Ends}
use openaslc.Telemetry.Loop.{Round}

abbrev pub RoundValid : Round → Type 0
RoundValid round = IsValid round.at_input × IsValid round.at_output

-- A message: its number, the bytes of the inputs and the bytes of the outputs.
abbrev pub message_of : (lib : JsonLibrary) → JsonWriter lib → ℕ → List ℕ → List ℕ → lib.Json
message_of lib writer seq inputs outputs = writer.object_value (
    ("seq", writer.number_value seq)
    ∷ (("I", writer.array_value (map writer.number_value inputs))
        ∷ (("Q", writer.array_value (map writer.number_value outputs)) ∷ [])))

-- The frames of the messages, in order, numbered from `seq` on; `text` prints a message.
abbrev pub stream : (ℕ → List ℕ → List ℕ → String) → ℕ → List Round → List ℕ
stream text seq [] = []
stream text seq (round ∷ rounds) =
    text_frame (utf8 (text seq (area_of input round.at_input) (area_of output round.at_output)))
    ++ stream text ((seq + 1) % 2 ^ 64) rounds

module _ (sock : Socket) (law : Sends sock) where
  module _ (lib : JsonLibrary) (writer : JsonWriter lib) (can_allocate : ℕ → Bool)
      (text : ℕ → List ℕ → List ℕ → String)
      (prints : (seq : ℕ) (inputs outputs : List ℕ)
        → writer.dump (message_of lib writer seq inputs outputs) ≡ some (text seq inputs outputs))
      (quiet : (s : sock.State) → sock.ready s ≡ false) where
    Gives : sock.State → List ℕ → Outcome sock.State → Type 0
    Gives s bytes o =
        (sent : Bool) × (s' : sock.State) × (o ≡ ok s') × Ends sock law s bytes (sent, s')

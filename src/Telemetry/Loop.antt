-- ===== src/Telemetry/Loop.antt =====
-- `client_loop`: what one client is sent.
pub mod Stream
mod Examples
use openaslc.Base.{
  ℕ, ◌+◌, ◌%◌, ◌^◌, Bool, true, false, List, [], ◌∷◌, Option, none, some, map, if◌then◌else◌,
}
use openaslc.Base.Outcome.{Outcome, ok, throws, json_exception, ◌>>=◌}
use openaslc.Base.Text.{String, utf8}
use openaslc.Logic.Parse.Json.{JsonLibrary, JsonWriter}
use openaslc.MemoryMap.{MemoryMap, input, output, get_area_snapshot}
use openaslc.Telemetry.{Socket, PollResult, no_data, closed, handled, send_text_frame}
use openaslc.Telemetry.Client.{poll_client_frame}

-- The memory map when each of the two snapshots is taken: other threads may change it in between.
pub record Round : Type 0 where
  pub at_input : MemoryMap
  pub at_output : MemoryMap

-- A thread of `client_loop`: its socket, the number of its next message, and whether it is still in
-- its loop.
pub record ClientThread (sock : Socket) : Type 0 where
  pub socket : sock.State
  pub sequence : ℕ
  pub looping : Bool

unfoldable pub is_closed : PollResult → Bool
is_closed no_data = false
is_closed closed = true
is_closed handled = false

module _ (lib : JsonLibrary) (writer : JsonWriter lib) where
  open writer use {number_value, array_value, object_value}

  unfoldable pub telemetry_json : ℕ → List ℕ → List ℕ → lib.Json
  telemetry_json seq inputs outputs = object_value (
      ("seq", number_value seq)
      ∷ (("I", array_value (map number_value inputs))
          ∷ (("Q", array_value (map number_value outputs)) ∷ [])))

  module _ (sock : Socket) (can_allocate : ℕ → Bool) where
    -- The message of one round, and whether it was sent.
    unfoldable pub send_message : sock.State → ℕ → Round → Outcome (Bool × sock.State)
    send_message s seq round = do
      inputs ← get_area_snapshot round.at_input input
      outputs ← get_area_snapshot round.at_output output
      elim (writer.dump (telemetry_json seq inputs outputs)) [
        | none ↦ throws json_exception
        | some text ↦ ok (send_text_frame sock s (utf8 text))
      ]

    -- One round of the loop.
    unfoldable pub client_round : ClientThread sock → Round → Outcome (ClientThread sock)
    client_round t round =
        if t.looping
        then (do
          (polled, s') ← poll_client_frame sock can_allocate t.socket
          elim (is_closed polled) [
            | true ↦ ok (record { socket = s'; sequence = t.sequence; looping = false })
            | false ↦ do
              (sent, s'') ← send_message s' t.sequence round
              ok (record { socket = s''; sequence = (t.sequence + 1) % 2 ^ 64; looping = sent })
          ])
        else ok t

    -- With so many rounds until `is_running_` is false or longer, and with the next number of a
    -- message; the state of the socket before it is closed.
    unfoldable pub client_loop : sock.State → ℕ → List Round → Outcome sock.State
    client_loop s seq [] = ok s
    client_loop s seq (round ∷ rounds) = do
      (polled, s') ← poll_client_frame sock can_allocate s
      elim (is_closed polled) [
        | true ↦ ok s'
        | false ↦ do
          (sent, s'') ← send_message s' seq round
          elim sent [ true ↦ client_loop s'' ((seq + 1) % 2 ^ 64) rounds | false ↦ ok s'' ]
      ]

-- ===== src/Telemetry/Client.antt =====
-- What the server reads from a client: `poll_client_frame`.
-- A `recv` into an array counts as a full read in the source; the array is not initialised, so a use
-- of it after a short read is undefined behaviour.
use Prim.Native.Nat.{bit_xor}
use openaslc.Base.{
  ℕ, zero, suc, ◌+◌, ◌-◌, ◌%◌, Bool, true, false, List, [], ◌∷◌, ◌++◌, Option, none, some, ◌==◌,
  leb, if◌then◌else◌, length, get_or, replicate,
}
use openaslc.Base.Outcome.{Outcome, ok, throws, undefined, allocation_failure, ◌>>=◌}
use openaslc.Base.Words.{be_value}
use openaslc.Telemetry.{Socket, PollResult, no_data, closed, handled, send_control_frame}

-- The loop that undoes the mask, from index `i` on.
unfoldable pub unmask : List ℕ → ℕ → List ℕ → List ℕ
unmask key i [] = []
unmask key i (b ∷ bytes) = bit_xor b (get_or key (i % 4) 0) ∷ unmask key (i + 1) bytes

-- The four bytes of `mask_key`, which starts as zeros, after a read into it.
unfoldable pub mask_key : List ℕ → List ℕ
mask_key bytes = bytes ++ replicate (4 - length bytes) 0

-- `can_allocate` says for which lengths the payload's vector can be made.
module _ (sock : Socket) (can_allocate : ℕ → Bool) where
  open sock use {State, ready, recv}

  -- `if (recv(sock, buf, n, 0) <= 0) return kClosed;`, and the array of `n` bytes.
  unfoldable pub fill_array : State → ℕ → Outcome (Option (List ℕ) × State)
  fill_array s n =
      let (got, s') = recv s n in
      elim got [
        | none ↦ ok (none, s')
        | some bytes ↦ if length bytes == n then ok (some bytes, s') else undefined
      ]

  -- The loop that receives the payload: `left` more bytes, in at most `left` rounds.
  unfoldable pub receive_rest : ℕ → State → ℕ → Option (List ℕ) × State
  receive_rest fuel s zero = (some [], s)
  receive_rest zero s (suc left) = (none, s)
  receive_rest (suc fuel) s (suc left) =
      let (got, s') = recv s (suc left) in
      elim got [
        | none ↦ (none, s')
        | some bytes ↦
            let (rest, s'') = receive_rest fuel s' (suc left - length bytes) in
            (elim rest [ none ↦ none | some more ↦ some (bytes ++ more) ], s'')
      ]

  -- What is done with a whole frame.
  unfoldable pub answer : State → ℕ → List ℕ → PollResult × State
  answer s opcode payload =
      if opcode == 0x8
      then (closed, send_control_frame sock s 0x8 [])
      else if opcode == 0x9
      then (handled, send_control_frame sock s 0xA payload)
      else (handled, s)

  -- From the payload on; `key` is there if the frame is masked.
  unfoldable pub poll_payload : State → ℕ → Option (List ℕ) → ℕ → Outcome (PollResult × State)
  poll_payload s opcode key payload_len =
      if can_allocate payload_len
      then (let (received, s') = receive_rest payload_len s payload_len in
          elim received [
            | none ↦ ok (closed, s')
            | some payload ↦
                ok (answer s' opcode (elim key [ none ↦ payload | some k ↦ unmask k 0 payload ]))
          ])
      else throws allocation_failure

  unfoldable pub poll_mask : State → ℕ → Bool → ℕ → Outcome (PollResult × State)
  poll_mask s opcode false payload_len = poll_payload s opcode none payload_len
  poll_mask s opcode true payload_len =
      let (got, s') = recv s 4 in
      elim got [
        | none ↦ ok (closed, s')
        | some bytes ↦ poll_payload s' opcode (some (mask_key bytes)) payload_len
      ]

  -- An extended length of `n` bytes.
  unfoldable pub poll_extended : State → ℕ → Bool → ℕ → Outcome (PollResult × State)
  poll_extended s opcode masked n = do
    (ext, s') ← fill_array s n
    elim ext [ none ↦ ok (closed, s') | some bytes ↦ poll_mask s' opcode masked (be_value 0 bytes) ]

  unfoldable pub poll_length : State → ℕ → ℕ → Outcome (PollResult × State)
  poll_length s first second =
      let opcode = first % 16 in
      let masked = leb 128 second in
      let payload_len = second % 128 in
      if payload_len == 126
      then poll_extended s opcode masked 2
      else if payload_len == 127
      then poll_extended s opcode masked 8
      else poll_mask s opcode masked payload_len

  unfoldable pub poll_client_frame : State → Outcome (PollResult × State)
  poll_client_frame s =
      if ready s
      then (do
        (header, s') ← fill_array s 2
        elim header [
          | none ↦ ok (closed, s')
          | some bytes ↦ poll_length s' (get_or bytes 0 0) (get_or bytes 1 0)
        ])
      else ok (no_data, s)

-- ===== src/Telemetry/Poll.antt =====
-- A client's frame that has arrived is read and answered.
use openaslc.Base.{ℕ, ◌%◌, ◌≡◌, Bool, true, List, [], ◌∷◌, ◌++◌, length, All, ◌≢◌}
use openaslc.Base.Outcome.{Outcome, ok}
use openaslc.MemoryMap.{IsByte}
use openaslc.Telemetry.{Socket, PollResult, closed, handled, send_all}
use openaslc.Telemetry.Client.{unmask, answer}
use openaslc.Telemetry.Arrival.{Buffered, client_length}

module _ (sock : Socket) (law : Buffered sock) (can_allocate : ℕ → Bool) where
  module _ (opcode : ℕ) (key payload following : List ℕ) where
    -- A frame of the client whose length has been read.
    abbrev Answered : List ℕ → Outcome (PollResult × sock.State) → Type 0
    Answered left r =
        (s' : sock.State) × (law.incoming s' ≡ left)
        × (r ≡ ok (answer sock can_allocate s' opcode payload))

    module _ (four : length key ≡ 4) (hk : All IsByte key) (hp : All IsByte payload)
        (room : can_allocate (length payload) ≡ true) where
      abbrev masked_frame : ℕ → List ℕ
      masked_frame first = first ∷ (client_length (length payload) ++ (key ++ unmask key 0 payload))

    -- What the server has done with the frame of a client, and what `poll_client_frame` returns: a
    -- close is answered by an empty close frame, a ping by a pong with its payload, whose length
    -- byte has seven bits; nothing is sent for any other opcode.
    pub data Replied (s' : sock.State) : PollResult × sock.State → Type 0 where
      close_replied : opcode ≡ 8 → Replied s' (closed, (send_all sock s' (0x88 ∷ (0 ∷ []))).1)
      ping_replied :
          opcode ≡ 9
          → Replied s' (handled, (send_all sock s' (0x8A ∷ (length payload % 128 ∷ payload))).1)
      not_replied : opcode ≢ 8 → opcode ≢ 9 → Replied s' (handled, s')

-- ===== src/Telemetry/Examples.antt =====
-- Runs of the telemetry server's byte functions, and of `send_all` on a slow socket.
use openaslc.Base.{
  ℕ, ◌+◌, ◌%◌, ◌≤◌, ◌<◌, ◌≡◌, refl, List, [], ◌∷◌, ◌++◌, arith, Option, none, some, false, ltb,
  if◌then◌else◌, length, replicate, take, drop,
}
use openaslc.Base.Text.{codes}
use openaslc.Telemetry.{Socket, text_frame, control_frame}
use openaslc.Telemetry.Base64.{base64_encode, base64_decode, base64_decode-base64_encode, letter}
use openaslc.Base.{true}
use openaslc.Telemetry.Arrival.{Buffered, client_frame}
use openaslc.Telemetry.Frames.{read_frame, read_frame-text_frame, control_frame_too_long}

abbrev hi : List ℕ
hi = 104 ∷ (105 ∷ [])

base64_test : base64_encode (codes "hello") ≡ codes "aGVsbG8="
unfolding base64_encode letter
base64_test = refl

base64_decode-base64_encode_example : base64_decode (base64_encode hi) ≡ hi
base64_decode-base64_encode_example =
    base64_decode-base64_encode hi (omega arith, (omega arith, tt))

read_frame-text_frame_example :
    read_frame (text_frame hi ++ (1 ∷ []))
    ≡ some (record { first = 0x81; payload = hi; following = 1 ∷ [] })
read_frame-text_frame_example = read_frame-text_frame hi (1 ∷ []) (omega arith)

abbrev long_ping : List ℕ
long_ping = replicate 130 7

control_frame_too_long_example :
    read_frame (control_frame 10 long_ping ++ [])
    ≡ some (record {
      first = 0x80 + 10;
      payload = take (length long_ping % 128) long_ping;
      following = drop (length long_ping % 128) long_ping ++ [];
    })
control_frame_too_long_example =
    control_frame_too_long 10 long_ping [] (omega arith) (omega arith) (omega arith)

abbrev slow_send : List ℕ → List ℕ → Option ℕ × List ℕ
slow_send s [] = (none, s)
slow_send s (b ∷ bytes) = if ltb (length s) 5 then (some 1, s ++ (b ∷ [])) else (none, s)

-- A socket that takes one byte at a time, until five have gone out.
abbrev slow : Socket
slow = record { State = List ℕ; ready = λ s. false; recv = λ s n. (none, s); send = slow_send }

abbrev arrived_recv : List ℕ → ℕ → Option (List ℕ) × List ℕ
arrived_recv [] n = (none, [])
arrived_recv (b ∷ bytes) n = (some (take n (b ∷ bytes)), drop n (b ∷ bytes))

arrived_full :
    (s : List ℕ) (n : ℕ)
    → 0 < n
    → n ≤ length s
    → (s' : List ℕ) × (arrived_recv s n ≡ (some (take n s), s')) × (s' ≡ drop n s)
arrived_full [] n pos le = absurd (omega arith)
arrived_full (b ∷ bytes) n pos le = (drop n (b ∷ bytes), refl, refl)

-- A socket on which everything has arrived; it takes all that is sent.
abbrev arrived : Socket
arrived = record {
  State = List ℕ;
  ready = λ s. true;
  recv = arrived_recv;
  send = λ s bytes. (some (length bytes), s);
}

abbrev arrived_law : Buffered arrived
arrived_law = record { incoming = λ s. s; full = arrived_full }

abbrev key : List ℕ
key = 1 ∷ (2 ∷ (3 ∷ (4 ∷ [])))

-- `hi` under the mask.
abbrev wire : List ℕ
wire = 105 ∷ (107 ∷ [])

-- A ping, and one byte of what follows it.
abbrev ping : List ℕ
ping = client_frame 137 key wire ++ (5 ∷ [])

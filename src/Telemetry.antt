-- ===== src/Telemetry.antt =====
-- The telemetry server: include/openaslc/telemetry_server.hpp and src/telemetry_server.cpp.
-- The hash of its handshake is in Digest. A socket is an interface that stands for `recv` and `send`:
-- `none` is a return value that is not positive.
pub mod Base64
pub mod Frames
pub mod Send
pub mod Client
pub mod Clients
pub mod Arrival
pub mod Poll
pub mod Handshake
pub mod Loop
pub mod Server
mod Examples
use Prim.Native.Nat.{bit_or, bit_xor}
use openaslc.Base.{
  ℕ, zero, suc, ◌+◌, ◌-◌, ◌*◌, ◌/◌, ◌%◌, ◌^◌, ◌≤◌, ◌<◌, ◌≡◌, Bool, true, false, List, [], ◌∷◌, ◌++◌,
  Option, none, some, ◌==◌, ltb, leb, if◌then◌else◌, length, get_or, take, drop,
}
use openaslc.Base.Words.{be_bytes, be_value}

-- The frame of `send_text_frame`.
unfoldable pub text_length : ℕ → List ℕ
text_length len =
    if ltb len 126
    then len % 256 ∷ []
    else if leb len 0xFFFF
    then 126 ∷ (len / 2 ^ 8 % 256 ∷ (len % 256 ∷ []))
    else 127 ∷ be_bytes 8 len

unfoldable pub text_frame : List ℕ → List ℕ
text_frame payload = 0x81 ∷ (text_length (length payload) ++ payload)

-- The frame of `send_control_frame`: `payload.size() & 0x7F` keeps seven bits of the length.
unfoldable pub control_frame : ℕ → List ℕ → List ℕ
control_frame opcode payload = bit_or 0x80 opcode % 256 ∷ (length payload % 128 ∷ payload)

-- `recv` and `send` of a socket, and whether `select` says that it can be read.
pub record Socket : Type 1 where
  pub State : Type 0
  pub ready : State → Bool
  pub recv : State → ℕ → Option (List ℕ) × State
  pub send : State → List ℕ → Option ℕ × State

pub data PollResult : Type 0 where
  no_data : PollResult
  closed : PollResult
  handled : PollResult

module _ (sock : Socket) where
  open sock use {State, ready, recv, send}

  -- The loop of `send_all` on what is left to send. Each round sends at least one byte. The
  -- source casts the number of bytes left to `int`, which keeps it for frames below 2^31 bytes.
  unfoldable pub send_rest : ℕ → State → List ℕ → Bool × State
  send_rest zero s bytes = (true, s)
  send_rest (suc fuel) s [] = (true, s)
  send_rest (suc fuel) s (b ∷ bytes) =
      let (sent, s') = send s (b ∷ bytes) in
      elim sent [ none ↦ (false, s') | some n ↦ send_rest fuel s' (drop n (b ∷ bytes)) ]

  unfoldable pub send_all : State → List ℕ → Bool × State
  send_all s bytes = send_rest (length bytes) s bytes

  unfoldable pub send_text_frame : State → List ℕ → Bool × State
  send_text_frame s payload = send_all s (text_frame payload)

  unfoldable pub send_control_frame : State → ℕ → List ℕ → State
  send_control_frame s opcode payload = (send_all s (control_frame opcode payload)).1

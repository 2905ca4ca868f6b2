-- ===== src/Telemetry/Send.antt =====
-- `send_all` over a socket that may take fewer bytes than it is given.
use openaslc.Base.{ℕ, ◌≤◌, ◌<◌, ◌≡◌, Bool, true, false, List, ◌++◌, none, some, length, take}
use openaslc.Telemetry.{Socket}

-- What `send` promises of a stream socket, by the bytes that have gone out on it: a return value
-- that is positive says how many bytes from the front were taken; any other says that none was.
pub record Sends (sock : Socket) : Type 0 where
  pub gone : sock.State → List ℕ
  pub taken :
      (s s' : sock.State) (bytes : List ℕ) (n : ℕ)
      → sock.send s bytes ≡ (some n, s')
      → (0 < n) × (n ≤ length bytes) × (gone s' ≡ gone s ++ take n bytes)
  pub refused :
      (s s' : sock.State) (bytes : List ℕ) → sock.send s bytes ≡ (none, s') → gone s' ≡ gone s

module _ (sock : Socket) (law : Sends sock) where
  -- How a send of `bytes` from `s` may end.
  pub data Ends (s : sock.State) (bytes : List ℕ) : Bool × sock.State → Type 0 where
    all_gone : {s' : sock.State} → law.gone s' ≡ law.gone s ++ bytes → Ends s bytes (true, s')
    cut_short :
        {s' : sock.State} (done left : List ℕ)
        → bytes ≡ done ++ left
        → 0 < length left
        → law.gone s' ≡ law.gone s ++ done
        → Ends s bytes (false, s')

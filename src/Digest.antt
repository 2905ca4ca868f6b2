-- ===== src/Digest.antt =====
-- The two hand-written hashes: SHA-1 of src/telemetry_server.cpp and SHA-256 of src/config_archive.cpp.
-- Both pad a message in the same way; a message is a list of bytes.
pub mod Sha1
pub mod Sha256
pub mod Padding
mod Examples
use Prim.Native.Nat.{bit_or}
use openaslc.Base.{
  ℕ, zero, suc, ◌+◌, ◌*◌, ◌%◌, ◌^◌, List, [], ◌∷◌, ◌++◌, ◌==◌, if◌then◌else◌, length, get_or, take,
  drop,
}
use openaslc.Base.Words.{be_bytes}

-- `while (size % 64 != 56) push_back(0)`, at most `fuel` times.
unfoldable pub fill : ℕ → List ℕ → List ℕ
fill zero bytes = bytes
fill (suc fuel) bytes =
    let more = fill fuel (bytes ++ (0 ∷ [])) in if length bytes % 64 == 56 then bytes else more

-- A message with its padding. The loop runs fewer than 64 times.
unfoldable pub pad : List ℕ → List ℕ
pad message = fill 64 (message ++ (0x80 ∷ [])) ++ be_bytes 8 (length message * 8 % 2 ^ 64)

-- The word of a block that starts at byte `4 * i`: four bytes, the first one highest.
unfoldable pub word_at : List ℕ → ℕ → ℕ
word_at block i =
    bit_or
      (bit_or (bit_or (get_or block (i * 4) 0 * 2 ^ 24) (get_or block (i * 4 + 1) 0 * 2 ^ 16))
        (get_or block (i * 4 + 2) 0 * 2 ^ 8))
      (get_or block (i * 4 + 3) 0)

unfoldable pub words_from : List ℕ → ℕ → ℕ → List ℕ
words_from block i zero = []
words_from block i (suc left) = word_at block i ∷ words_from block (i + 1) left

-- The loop over the blocks of a padded message, `n` of them.
unfoldable pub blocks {ℓ} : {S : Type ℓ} → (S → List ℕ → S) → ℕ → S → List ℕ → S
blocks process zero state bytes = state
blocks process (suc n) state bytes =
    blocks process n (process state (take 64 bytes)) (drop 64 bytes)

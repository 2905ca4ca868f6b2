-- ===== src/Digest/Padding.antt =====
-- The padding of both hashes.
use openaslc.Base.{
  true, false, ℕ, zero, suc, ◌+◌, ◌-◌, ◌*◌, ◌%◌, ◌^◌, ◌≤◌, ◌<◌, ◌≡◌, refl, ap, sym, ◌∙◌, List, [],
  ◌∷◌, ◌++◌, arith, ◌==◌, length, length-append, length-replicate, replicate,
}
use mathlib.Core.List.{append_assoc, append-nil}
use openaslc.Base.Words.{be_bytes}
use openaslc.Digest.{fill, pad}

fill-replicate :
    (fuel k : ℕ) (bytes : List ℕ)
    → k ≡ (120 - length bytes % 64) % 64
    → k ≤ fuel
    → fill fuel bytes ≡ bytes ++ replicate k 0
unfolding fill
fill-replicate zero zero bytes e h = sym (append-nil bytes)
fill-replicate zero (suc k) bytes e h = absurd (omega arith)
fill-replicate (suc fuel) zero bytes e h =
    let full : (length bytes % 64 == 56) ≡ true = ground arith in rw full (sym (append-nil bytes))
fill-replicate (suc fuel) (suc k) bytes e h =
    let room : (length bytes % 64 == 56) ≡ false = ground arith in
    let longer = length-append bytes (0 ∷ []) in
    rw room (
      fill-replicate fuel k (bytes ++ (0 ∷ [])) (omega (arith, longer)) (omega arith)
      ∙ append_assoc bytes (0 ∷ []) (replicate k 0))

-- How many zeros follow the byte 0x80 of a message of `n` bytes.
abbrev pub zeros : ℕ → ℕ
zeros n = (119 - n % 64) % 64

pub length-be_bytes : (n x : ℕ) → length (be_bytes n x) ≡ n
unfolding be_bytes
length-be_bytes zero x = refl
length-be_bytes (suc n) x = ap suc (length-be_bytes n x)

-- The padded message is the message, the byte 0x80, the least number of zeros that makes the whole
-- a sequence of blocks of 64 bytes, and the message's length in bits as eight bytes in network
-- order; so no read of a word is out of range.
pub pad_lem :
    (message : List ℕ)
    → let n = length message in
      (pad message ≡ message ++ (0x80 ∷ (replicate (zeros n) 0 ++ be_bytes 8 (n * 8 % 2 ^ 64))))
      × (length (pad message) % 64 ≡ 0)
      × (n + 9 ≤ length (pad message))
      × (length (pad message) < n + 73)
unfolding pad
pad_lem message =
    let n = length message in
    let tail = be_bytes 8 (n * 8 % 2 ^ 64) in
    let one = length-append message (0x80 ∷ []) in
    let filled : fill 64 (message ++ (0x80 ∷ []))
        ≡ (message ++ (0x80 ∷ [])) ++ replicate (zeros n) 0 =
      fill-replicate 64 (zeros n) (message ++ (0x80 ∷ [])) (omega (arith, one)) (omega arith) in
    let size : length (fill 64 (message ++ (0x80 ∷ [])) ++ tail) ≡ n + 1 + zeros n + 8 = omega (
      arith,
      one,
      length-append (fill 64 (message ++ (0x80 ∷ []))) tail,
      ap (λ (l : List ℕ). length l) filled,
      length-append (message ++ (0x80 ∷ [])) (replicate (zeros n) 0),
      length-replicate {A = ℕ} (zeros n) 0,
      length-be_bytes 8 (n * 8 % 2 ^ 64),
    ) in
    (
      rw filled (
          append_assoc (message ++ (0x80 ∷ [])) (replicate (zeros n) 0) tail
          ∙ append_assoc message (0x80 ∷ []) (replicate (zeros n) 0 ++ tail)),
      omega (arith, size),
      omega (arith, size),
      omega (arith, size),
    )

-- ===== src/Digest/Examples.antt =====
-- The padding of one message.
use openaslc.Base.{ℕ, ◌+◌, ◌*◌, ◌%◌, ◌^◌, ◌≤◌, ◌<◌, ◌≡◌, List, [], ◌∷◌, ◌++◌, length, replicate}
use openaslc.Base.Words.{be_bytes}
use openaslc.Digest.{pad}
use openaslc.Digest.Padding.{zeros, pad_lem}

abbrev abc : List ℕ
abc = b'a' ∷ b'b' ∷ b'c' ∷ []

pad_lem_example :
    (pad abc
      ≡ abc ++ (0x80 ∷ (replicate (zeros (length abc)) 0 ++ be_bytes 8 (length abc * 8 % 2 ^ 64))))
    × (length (pad abc) % 64 ≡ 0)
    × (length abc + 9 ≤ length (pad abc))
    × (length (pad abc) < length abc + 73)
pad_lem_example = pad_lem abc

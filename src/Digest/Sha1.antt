-- ===== src/Digest/Sha1.antt =====
-- `sha1` of src/telemetry_server.cpp.
use Prim.Native.Nat.{bit_and, bit_or, bit_xor}
use openaslc.Base.{
  ℕ, zero, suc, ◌+◌, ◌-◌, ◌/◌, ◌≡◌, refl, List, [], ◌∷◌, ◌++◌, ltb, if◌then◌else◌, length, get_or,
}
use openaslc.Base.Bits.{not32}
use openaslc.Base.Words.{u32, add32, left_rotate, be_bytes}
use openaslc.Digest.{pad, words_from, blocks, fill, word_at}

-- `h0` to `h4`, and `a` to `e`.
pub record Sha1State : Type 0 where
  pub a : ℕ
  pub b : ℕ
  pub c : ℕ
  pub d : ℕ
  pub e : ℕ

abbrev pub start_state : Sha1State
start_state = record {
  a = 0x67452301;
  b = 0xEFCDAB89;
  c = 0x98BADCFE;
  d = 0x10325476;
  e = 0xC3D2E1F0;
}

-- The loop that fills `w[i]` up to `w[79]`; `w` holds what is there already.
unfoldable pub extend : ℕ → List ℕ → ℕ → List ℕ
extend zero w i = w
extend (suc left) w i =
    extend left
      (w
        ++ (left_rotate
              (bit_xor
                (bit_xor (bit_xor (get_or w (i - 3) 0) (get_or w (i - 8) 0)) (get_or w (i - 14) 0))
                (get_or w (i - 16) 0))
              1
            ∷ []))
      (i + 1)

-- `f` and `k` of a round.
unfoldable pub round_f : ℕ → ℕ → ℕ → ℕ → ℕ
round_f i b c d =
    if ltb i 20
    then bit_or (bit_and b c) (bit_and (not32 b) d)
    else if ltb i 40
    then bit_xor (bit_xor b c) d
    else if ltb i 60
    then bit_or (bit_or (bit_and b c) (bit_and b d)) (bit_and c d)
    else bit_xor (bit_xor b c) d

unfoldable pub round_k : ℕ → ℕ
round_k i =
    if ltb i 20
    then 0x5A827999
    else if ltb i 40
    then 0x6ED9EBA1
    else if ltb i 60
    then 0x8F1BBCDC
    else 0xCA62C1D6

unfoldable pub round : Sha1State → ℕ → ℕ → Sha1State
round s i w = record {
  a = u32 (left_rotate s.a 5 + round_f i s.b s.c s.d + s.e + round_k i + w);
  b = s.a;
  c = left_rotate s.b 30;
  d = s.c;
  e = s.d;
}

-- The rounds from `i` on, one for each word.
unfoldable pub rounds : Sha1State → ℕ → List ℕ → Sha1State
rounds s i [] = s
rounds s i (w ∷ ws) = rounds (round s i w) (i + 1) ws

unfoldable pub process_chunk : Sha1State → List ℕ → Sha1State
process_chunk h block =
    let s = rounds h 0 (extend 64 (words_from block 0 16) 16) in
    record {
      a = add32 h.a s.a;
      b = add32 h.b s.b;
      c = add32 h.c s.c;
      d = add32 h.d s.d;
      e = add32 h.e s.e;
    }

-- The digest's 20 bytes.
unfoldable pub sha1 : List ℕ → List ℕ
sha1 input =
    let message = pad input in
    let h = blocks process_chunk (length message / 64) start_state message in
    be_bytes 4 h.a ++ (be_bytes 4 h.b ++ (be_bytes 4 h.c ++ (be_bytes 4 h.d ++ be_bytes 4 h.e)))

-- SHA-1 of "abc", FIPS 180-4.
sha1_abc :
    sha1 (b'a' ∷ b'b' ∷ b'c' ∷ [])
    ≡ be_bytes 4 0xa9993e36
      ++ (be_bytes 4 0x4706816a
          ++ (be_bytes 4 0xba3e2571 ++ (be_bytes 4 0x7850c26c ++ be_bytes 4 0x9cd0d89d)))
unfolding sha1 process_chunk rounds round round_f round_k extend pad fill words_from word_at blocks
    be_bytes left_rotate
sha1_abc = refl

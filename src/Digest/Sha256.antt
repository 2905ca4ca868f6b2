-- ===== src/Digest/Sha256.antt =====
-- `sha256_process_block` and `sha256_hex` of src/config_archive.cpp.
use Prim.Native.Nat.{bit_and, bit_xor}
use Prim.Native.Char.{Char}
use openaslc.Base.{
  ℕ, zero, suc, ◌+◌, ◌-◌, ◌*◌, ◌/◌, ◌%◌, ◌^◌, ◌≡◌, refl, List, [], ◌∷◌, ◌++◌, length, get_or,
}
use openaslc.Base.Bits.{not32}
use openaslc.Base.Text.{String, ◌<>◌}
use openaslc.Base.Words.{u32, add32, rotr, be_bytes}
use openaslc.Digest.{pad, words_from, blocks, fill, word_at}

-- `kSha256K`.
abbrev round_constants : List ℕ
round_constants =
    0x428a2f98 ∷ 0x71374491 ∷ 0xb5c0fbcf ∷ 0xe9b5dba5 ∷ 0x3956c25b ∷ 0x59f111f1 ∷ 0x923f82a4
    ∷ 0xab1c5ed5 ∷ 0xd807aa98 ∷ 0x12835b01 ∷ 0x243185be ∷ 0x550c7dc3 ∷ 0x72be5d74 ∷ 0x80deb1fe
    ∷ 0x9bdc06a7 ∷ 0xc19bf174 ∷ 0xe49b69c1 ∷ 0xefbe4786 ∷ 0x0fc19dc6 ∷ 0x240ca1cc ∷ 0x2de92c6f
    ∷ 0x4a7484aa ∷ 0x5cb0a9dc ∷ 0x76f988da ∷ 0x983e5152 ∷ 0xa831c66d ∷ 0xb00327c8 ∷ 0xbf597fc7
    ∷ 0xc6e00bf3 ∷ 0xd5a79147 ∷ 0x06ca6351 ∷ 0x14292967 ∷ 0x27b70a85 ∷ 0x2e1b2138 ∷ 0x4d2c6dfc
    ∷ 0x53380d13 ∷ 0x650a7354 ∷ 0x766a0abb ∷ 0x81c2c92e ∷ 0x92722c85 ∷ 0xa2bfe8a1 ∷ 0xa81a664b
    ∷ 0xc24b8b70 ∷ 0xc76c51a3 ∷ 0xd192e819 ∷ 0xd6990624 ∷ 0xf40e3585 ∷ 0x106aa070 ∷ 0x19a4c116
    ∷ 0x1e376c08 ∷ 0x2748774c ∷ 0x34b0bcb5 ∷ 0x391c0cb3 ∷ 0x4ed8aa4a ∷ 0x5b9cca4f ∷ 0x682e6ff3
    ∷ 0x748f82ee ∷ 0x78a5636f ∷ 0x84c87814 ∷ 0x8cc70208 ∷ 0x90befffa ∷ 0xa4506ceb ∷ 0xbef9a3f7
    ∷ 0xc67178f2 ∷ []

-- `h[0]` to `h[7]`, and the variables `a` to `hh`.
pub record Sha256State : Type 0 where
  pub a : ℕ
  pub b : ℕ
  pub c : ℕ
  pub d : ℕ
  pub e : ℕ
  pub f : ℕ
  pub g : ℕ
  pub hh : ℕ

abbrev pub start_state : Sha256State
start_state = record {
  a = 0x6a09e667;
  b = 0xbb67ae85;
  c = 0x3c6ef372;
  d = 0xa54ff53a;
  e = 0x510e527f;
  f = 0x9b05688c;
  g = 0x1f83d9ab;
  hh = 0x5be0cd19;
}

-- The loop that fills `w[i]` up to `w[63]`; `w` holds what is there already.
unfoldable pub extend : ℕ → List ℕ → ℕ → List ℕ
extend zero w i = w
extend (suc left) w i =
    let v = get_or w (i - 15) 0 in
    let u = get_or w (i - 2) 0 in
    let s0 = bit_xor (bit_xor (rotr v 7) (rotr v 18)) (v / 2 ^ 3) in
    let s1 = bit_xor (bit_xor (rotr u 17) (rotr u 19)) (u / 2 ^ 10) in
    extend left (w ++ (u32 (get_or w (i - 16) 0 + s0 + get_or w (i - 7) 0 + s1) ∷ [])) (i + 1)

unfoldable pub round : Sha256State → ℕ → ℕ → Sha256State
round s k w =
    let s1 = bit_xor (bit_xor (rotr s.e 6) (rotr s.e 11)) (rotr s.e 25) in
    let ch = bit_xor (bit_and s.e s.f) (bit_and (not32 s.e) s.g) in
    let temp1 = u32 (s.hh + s1 + ch + k + w) in
    let s0 = bit_xor (bit_xor (rotr s.a 2) (rotr s.a 13)) (rotr s.a 22) in
    let maj = bit_xor (bit_xor (bit_and s.a s.b) (bit_and s.a s.c)) (bit_and s.b s.c) in
    let temp2 = add32 s0 maj in
    record {
      a = add32 temp1 temp2;
      b = s.a;
      c = s.b;
      d = s.c;
      e = add32 s.d temp1;
      f = s.e;
      g = s.f;
      hh = s.g;
    }

-- The rounds, one for each constant.
unfoldable pub rounds : Sha256State → List ℕ → List ℕ → Sha256State
rounds s (k ∷ ks) (w ∷ ws) = rounds (round s k w) ks ws
rounds s _ _ = s

unfoldable pub sha256_process_block : Sha256State → List ℕ → Sha256State
sha256_process_block h block =
    let s = rounds h round_constants (extend 48 (words_from block 0 16) 16) in
    record {
      a = add32 h.a s.a;
      b = add32 h.b s.b;
      c = add32 h.c s.c;
      d = add32 h.d s.d;
      e = add32 h.e s.e;
      f = add32 h.f s.f;
      g = add32 h.g s.g;
      hh = add32 h.hh s.hh;
    }

abbrev hex_digits : List Char
hex_digits =
    "0" ∷ "1" ∷ "2" ∷ "3" ∷ "4" ∷ "5" ∷ "6" ∷ "7" ∷ "8" ∷ "9" ∷ "a" ∷ "b" ∷ "c" ∷ "d" ∷ "e" ∷ "f"
    ∷ []

-- `std::hex << std::setfill('0') << std::setw(n)`, of a number of at most `n` digits.
unfoldable pub hex : ℕ → ℕ → String
hex zero x = ""
hex (suc n) x = String.◌∷◌ (get_or hex_digits (x / 2 ^ (n * 4) % 16) "0") (hex n x)

unfoldable pub sha256_hex : List ℕ → String
sha256_hex input =
    let message = pad input in
    let h = blocks sha256_process_block (length message / 64) start_state message in
    hex 8 h.a
    <> (hex 8 h.b
        <> (hex 8 h.c <> (hex 8 h.d <> (hex 8 h.e <> (hex 8 h.f <> (hex 8 h.g <> hex 8 h.hh))))))

-- SHA-256 of "abc", FIPS 180-4.
sha256_abc :
    sha256_hex (b'a' ∷ b'b' ∷ b'c' ∷ [])
    ≡ "ba7816bf8f01cfea414140de5dae2223b00361a396177a9cb410ff61f20015ad"
unfolding sha256_hex sha256_process_block rounds round extend pad fill words_from word_at blocks
    be_bytes rotr hex
sha256_abc = refl

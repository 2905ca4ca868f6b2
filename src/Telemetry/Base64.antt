-- ===== src/Telemetry/Base64.antt =====
-- `base64_encode`, against a decoder by the letters' positions.
use Prim.Native.Nat.{bit_or}
use openaslc.Base.{
  ℕ, ◌+◌, ◌-◌, ◌*◌, ◌/◌, ◌%◌, ◌^◌, ◌<◌, ◌≡◌, refl, ap, ap₂, ◌∙◌, Bool, true, false, ◌&&◌, not, List,
  [], ◌∷◌, arith, ◌==◌, leb, if◌then◌else◌, length, get_or, All,
}
use openaslc.Base.Text.{codes}
use openaslc.Base.Bits.{holds_below, holds_below_at}
use openaslc.Base.Words.{bit_or_sum}
use openaslc.MemoryMap.{IsByte}

-- `table`
abbrev letters : List ℕ
letters = codes "ABCDEFGHIJKLMNOPQRSTUVWXYZabcdefghijklmnopqrstuvwxyz0123456789+/"

-- `table[k]`
unfoldable pub letter : ℕ → ℕ
letter k = get_or letters k 0

-- The four letters of the 24 bits `n`.
unfoldable pub base64_encode : List ℕ → List ℕ
base64_encode [] = []
base64_encode (a ∷ []) =
    let n = a * 2 ^ 16 in
    letter (n / 2 ^ 18 % 64) ∷ (letter (n / 2 ^ 12 % 64) ∷ (b'=' ∷ (b'=' ∷ [])))
base64_encode (a ∷ (b ∷ [])) =
    let n = bit_or (a * 2 ^ 16) (b * 2 ^ 8) in
    letter (n / 2 ^ 18 % 64) ∷ (letter (n / 2 ^ 12 % 64) ∷ (letter (n / 2 ^ 6 % 64) ∷ (b'=' ∷ [])))
base64_encode (a ∷ (b ∷ (c ∷ rest))) =
    let n = bit_or (bit_or (a * 2 ^ 16) (b * 2 ^ 8)) c in
    letter (n / 2 ^ 18 % 64)
    ∷ (letter (n / 2 ^ 12 % 64)
        ∷ (letter (n / 2 ^ 6 % 64) ∷ (letter (n % 64) ∷ base64_encode rest)))

-- The position of a letter in the alphabet of RFC 4648; 0 for the padding.
unfoldable pub position : ℕ → ℕ
position c =
    if leb 97 c
    then c - 71
    else if leb 65 c
    then c - 65
    else if c == b'='
    then 0
    else if leb 48 c
    then c + 4
    else if c == b'+'
    then 62
    else 63

-- The bytes that a text of RFC 4648 stands for, four letters at a time.
unfoldable pub base64_decode : List ℕ → List ℕ
base64_decode (p ∷ (q ∷ (r ∷ (s ∷ rest)))) =
    let n = position p * 2 ^ 18 + position q * 2 ^ 12 + position r * 2 ^ 6 + position s in
    let more = base64_decode rest in
    if r == b'='
    then n / 2 ^ 16 ∷ []
    else if s == b'='
    then n / 2 ^ 16 ∷ (n / 2 ^ 8 % 256 ∷ [])
    else n / 2 ^ 16 ∷ (n / 2 ^ 8 % 256 ∷ (n % 256 ∷ more))
base64_decode _ = []

abbrev letter_row : ℕ → Bool
letter_row k = (position (letter k) == k) && not (letter k == b'=')

letter_table : holds_below letter_row 64 ≡ true
unfolding holds_below letter position
letter_table = refl

letter_lem : (k : ℕ) → k < 64 → (position (letter k) ≡ k) × ((letter k == b'=') ≡ false)
letter_lem k h = ground (arith, holds_below_at letter_row k 64 h letter_table)

-- The 24 bits of three bytes are their sum.
joined :
    (a b c : ℕ)
    → b < 256
    → c < 256
    → bit_or (bit_or (a * 2 ^ 16) (b * 2 ^ 8)) c ≡ a * 65536 + b * 256 + c
joined a b c hb hc =
    let inner : bit_or (a * 2 ^ 16) (b * 2 ^ 8) ≡ (a * 256 + b) * 2 ^ 8 =
      omega (arith, bit_or_sum 16 a (b * 2 ^ 8) (omega arith)) in
    rw inner (omega (arith, bit_or_sum 8 (a * 256 + b) c (omega arith)))

-- Four digits of six bits make the number again.
digits_sum :
    (n : ℕ)
    → n < 2 ^ 24
    → n / 2 ^ 18 % 64 * 2 ^ 18 + n / 2 ^ 12 % 64 * 2 ^ 12 + n / 2 ^ 6 % 64 * 2 ^ 6 + n % 64 ≡ n
digits_sum n h = omega arith

decode_three :
    (p q r s : ℕ) (rest : List ℕ)
    → p < 64
    → q < 64
    → r < 64
    → s < 64
    → base64_decode (letter p ∷ (letter q ∷ (letter r ∷ (letter s ∷ rest)))) ≡ (
        let n = p * 2 ^ 18 + q * 2 ^ 12 + r * 2 ^ 6 + s in
        n / 2 ^ 16 ∷ (n / 2 ^ 8 % 256 ∷ (n % 256 ∷ base64_decode rest)))
unfolding base64_decode
decode_three p q r s rest hp hq hr hs =
    rw ((letter_lem r hr).1, (letter_lem s hs).1)
      (rw ((letter_lem p hp).0, (letter_lem q hq).0, (letter_lem r hr).0, (letter_lem s hs).0) refl)

position_pad : position b'=' ≡ 0
unfolding position
position_pad = refl

decode_two :
    (p q r : ℕ)
    → p < 64
    → q < 64
    → r < 64
    → base64_decode (letter p ∷ (letter q ∷ (letter r ∷ (b'=' ∷ []))))
      ≡ (let n = p * 2 ^ 18 + q * 2 ^ 12 + r * 2 ^ 6 in n / 2 ^ 16 ∷ (n / 2 ^ 8 % 256 ∷ []))
unfolding base64_decode
decode_two p q r hp hq hr = rw ((letter_lem r hr).1) (
    rw ((letter_lem p hp).0, (letter_lem q hq).0, (letter_lem r hr).0, position_pad)
      (ap₂ (λ x y. x ∷ (y ∷ [])) (omega arith) (omega arith)))

decode_one :
    (p q : ℕ)
    → p < 64
    → q < 64
    → base64_decode (letter p ∷ (letter q ∷ (b'=' ∷ (b'=' ∷ []))))
      ≡ ((p * 2 ^ 18 + q * 2 ^ 12) / 2 ^ 16 ∷ [])
unfolding base64_decode
decode_one p q hp hq =
    rw ((letter_lem p hp).0, (letter_lem q hq).0, position_pad) (ap (λ x. x ∷ []) (omega arith))

-- A decoder of RFC 4648 gives back any bytes that were encoded.
pub base64_decode-base64_encode :
    (bytes : List ℕ) → All IsByte bytes → base64_decode (base64_encode bytes) ≡ bytes
unfolding base64_encode base64_decode
base64_decode-base64_encode [] h = refl
base64_decode-base64_encode (a ∷ []) (ha, _) =
    decode_one (a * 2 ^ 16 / 2 ^ 18 % 64) (a * 2 ^ 16 / 2 ^ 12 % 64) (omega arith) (omega arith)
    ∙ ap (λ x. x ∷ []) (omega arith)
base64_decode-base64_encode (a ∷ (b ∷ [])) (ha, (hb, _)) =
    let sum : bit_or (a * 2 ^ 16) (b * 2 ^ 8) ≡ a * 65536 + b * 256 =
      omega (arith, bit_or_sum 16 a (b * 2 ^ 8) (omega arith)) in
    let n = a * 65536 + b * 256 in
    rw sum (
      decode_two (n / 2 ^ 18 % 64) (n / 2 ^ 12 % 64) (n / 2 ^ 6 % 64) (omega arith) (omega arith)
        (omega arith)
      ∙ ap₂ (λ x y. x ∷ (y ∷ [])) (omega arith) (omega arith))
base64_decode-base64_encode (a ∷ (b ∷ (c ∷ rest))) (ha, (hb, (hc, h))) =
    let n = a * 65536 + b * 256 + c in
    let sum = digits_sum n (omega arith) in
    rw (joined a b c hb hc) (
      decode_three (n / 2 ^ 18 % 64) (n / 2 ^ 12 % 64) (n / 2 ^ 6 % 64) (n % 64)
        (base64_encode rest) (omega arith) (omega arith) (omega arith) (omega arith)
      ∙ rw (sum, base64_decode-base64_encode rest h)
          (ap₂ (λ x y. x ∷ y) (omega arith)
            (ap₂ (λ x y. x ∷ (y ∷ rest)) (omega arith) (omega arith))))

-- The text has four letters for every three bytes begun.
pub length-base64_encode :
    (bytes : List ℕ) → length (base64_encode bytes) ≡ (length bytes + 2) / 3 * 4
unfolding base64_encode
length-base64_encode [] = refl
length-base64_encode (a ∷ []) = refl
length-base64_encode (a ∷ (b ∷ [])) = refl
length-base64_encode (a ∷ (b ∷ (c ∷ rest))) = omega (arith, length-base64_encode rest)

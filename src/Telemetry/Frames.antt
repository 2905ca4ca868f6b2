-- ===== src/Telemetry/Frames.antt =====
-- The frames that the server sends, read by the rules of RFC 6455.
use Prim.Native.Nat.{bit_or}
use openaslc.Base.{
  ℕ, ◌+◌, ◌/◌, ◌%◌, ◌^◌, ◌≤◌, ◌<◌, ◌≡◌, refl, ap, sym, ◌∙◌, true, List, [], ◌∷◌, ◌++◌, arith,
  Option, none, some, ◌==◌, ltb, leb, if◌then◌else◌, Bool-cases, inl, inr, length, length-append,
  take, drop, take-append, drop-append, take-append-drop, length-take,
}
use mathlib.Core.List.{append_assoc}
use openaslc.Base.Words.{be_bytes, be_value, bit_or_sum}
use openaslc.Telemetry.{text_length, text_frame, control_frame}

-- A frame as its reader sees it, with what follows it.
pub record Frame : Type 0 where
  pub first : ℕ
  pub payload : List ℕ
  pub following : List ℕ

-- The payload of `n` bytes.
pub cut : ℕ → ℕ → List ℕ → Option Frame
cut first n bytes =
    if leb n (length bytes)
    then some (record { first = first; payload = take n bytes; following = drop n bytes })
    else none

-- The rest of a frame whose second byte is `l`: 126 and 127 stand for a length in the next two or
-- eight bytes. A set mask bit is refused, since a server's frames are not masked.
pub after_length : ℕ → ℕ → List ℕ → Option Frame
after_length first l bytes =
    if ltb l 126
    then cut first l bytes
    else if l == 126
    then cut first (be_value 0 (take 2 bytes)) (drop 2 bytes)
    else if l == 127
    then cut first (be_value 0 (take 8 bytes)) (drop 8 bytes)
    else none

-- The first frame of a stream of bytes.
pub read_frame : List ℕ → Option Frame
read_frame [] = none
read_frame (first ∷ []) = none
read_frame (first ∷ (l ∷ bytes)) = after_length first l bytes

cut-append :
    (first : ℕ) (payload following : List ℕ)
    → cut first (length payload) (payload ++ following)
      ≡ some (record { first = first; payload = payload; following = following })
unfolding cut
cut-append first payload following =
    let fits : leb (length payload) (length (payload ++ following)) ≡ true =
      ground (arith, length-append payload following) in
    rw (fits, take-append payload following, drop-append payload following) refl

abbrev whole : ℕ → List ℕ → List ℕ → Option Frame
whole first payload following =
    some (record { first = first; payload = payload; following = following })

two_bytes_value : (n : ℕ) → n < 65536 → be_value 0 (n / 2 ^ 8 % 256 ∷ (n % 256 ∷ [])) ≡ n
unfolding be_value
two_bytes_value n h = omega arith

pub eight_bytes_value : (n : ℕ) → n < 2 ^ 64 → be_value 0 (be_bytes 8 n) ≡ n
unfolding be_value be_bytes
eight_bytes_value n h = omega arith

take_eight : (n : ℕ) (bytes : List ℕ) → take 8 (be_bytes 8 n ++ bytes) ≡ be_bytes 8 n
unfolding be_bytes
take_eight n bytes = refl

drop_eight : (n : ℕ) (bytes : List ℕ) → drop 8 (be_bytes 8 n ++ bytes) ≡ bytes
unfolding be_bytes
drop_eight n bytes = refl

module _ (first : ℕ) (payload following : List ℕ) where
  short_length :
      (l : ℕ)
      → l ≡ length payload
      → l < 126
      → after_length first l (payload ++ following) ≡ whole first payload following
  unfolding after_length
  short_length l e h =
      let short : ltb l 126 ≡ true = ground arith in
      rw short (rw e (cut-append first payload following))

  medium_length :
      length payload < 65536
      → after_length first 126
          (length payload / 2 ^ 8 % 256 ∷ (length payload % 256 ∷ (payload ++ following)))
        ≡ whole first payload following
  unfolding after_length
  medium_length h = rw (two_bytes_value (length payload) h) (cut-append first payload following)

  long_length :
      length payload < 2 ^ 64
      → after_length first 127 (be_bytes 8 (length payload) ++ (payload ++ following))
        ≡ whole first payload following
  unfolding after_length
  long_length h =
      rw
        (
          take_eight (length payload) (payload ++ following),
          drop_eight (length payload) (payload ++ following),
          eight_bytes_value (length payload) h,
        )
        (cut-append first payload following)

-- A reader of the stream finds the frame of `send_text_frame`, whatever follows it: a final text
-- frame (0x81) with the payload that was sent, for every length that fits 64 bits.
pub read_frame-text_frame :
    (payload following : List ℕ)
    → length payload < 2 ^ 64
    → read_frame (text_frame payload ++ following)
      ≡ some (record { first = 0x81; payload = payload; following = following })
unfolding text_frame text_length read_frame
read_frame-text_frame payload following h = elim (Bool-cases (ltb (length payload) 126)) [
  | inl short ↦
      rw short
        (short_length 0x81 payload following (length payload % 256) (ground arith) (ground arith))
  | inr not_short ↦ elim (Bool-cases (leb (length payload) 0xFFFF)) [
    | inl medium ↦ rw (not_short, medium) (medium_length 0x81 payload following (ground arith))
    | inr long ↦
        rw (not_short, long, append_assoc (be_bytes 8 (length payload)) payload following)
          (long_length 0x81 payload following h)
  ]
]

-- A reader of the stream finds the frame of `send_control_frame` for a payload of at most 125
-- bytes, as RFC 6455 asks of a control frame: final (0x80), with the opcode and the payload.
pub read_frame-control_frame :
    (opcode : ℕ) (payload following : List ℕ)
    → opcode < 16
    → length payload ≤ 125
    → read_frame (control_frame opcode payload ++ following)
      ≡ some (record { first = 0x80 + opcode; payload = payload; following = following })
unfolding control_frame read_frame
read_frame-control_frame opcode payload following small h =
    let head : bit_or 0x80 opcode % 256 ≡ 0x80 + opcode =
      omega (arith, bit_or_sum 4 8 opcode small) in
    rw head (
      short_length (0x80 + opcode) payload following (length payload % 128) (omega arith)
        (omega arith))

-- A payload of 128 bytes or more does not fit `send_control_frame`, which keeps seven bits of the
-- length: where these are no escape, a reader finds only as many bytes of the payload as they say,
-- and the others in the place of the next frame.
pub control_frame_too_long :
    (opcode : ℕ) (payload following : List ℕ)
    → opcode < 16
    → 128 ≤ length payload
    → length payload % 128 < 126
    → let n = length payload % 128 in
      read_frame (control_frame opcode payload ++ following)
      ≡ some (record {
        first = 0x80 + opcode;
        payload = take n payload;
        following = drop n payload ++ following;
      })
unfolding control_frame read_frame
control_frame_too_long opcode payload following small long short =
    let n = length payload % 128 in
    let head : bit_or 0x80 opcode % 256 ≡ 0x80 + opcode =
      omega (arith, bit_or_sum 4 8 opcode small) in
    let kept : length (take n payload) ≡ n = omega (arith, length-take n payload) in
    let split : payload ++ following ≡ take n payload ++ (drop n payload ++ following) =
      ap (λ (l : List ℕ). l ++ following) (sym (take-append-drop n payload))
      ∙ append_assoc (take n payload) (drop n payload) following in
    rw (head, split)
      (short_length (0x80 + opcode) (take n payload) (drop n payload ++ following) n (sym kept)
        short)

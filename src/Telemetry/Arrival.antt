-- ===== src/Telemetry/Arrival.antt =====
-- Bytes that have arrived, and the mask of a client's frame.
use Prim.Native.Nat.{bit_xor}
use openaslc.Base.{
  ℕ, suc, ◌+◌, ◌-◌, ◌%◌, ◌≤◌, ◌<◌, ◌≡◌, refl, ap, ap₂, subst, ◌∙◌, Bool, true, List, [], ◌∷◌, ◌++◌,
  arith, Option, some, ◌==◌, ltb, leb, if◌then◌else◌, length, length-append, get_or, take, drop,
  take-append, drop-append, All, All-get_or,
}
use mathlib.Core.List.{append-nil}
use openaslc.Base.Outcome.{ok}
use openaslc.Base.Bits.{holds_below, holds_below_at}
use openaslc.Base.Words.{be_bytes, be_value}
use openaslc.MemoryMap.{IsByte}
use openaslc.Telemetry.{Socket}
use openaslc.Telemetry.Client.{unmask, fill_array, receive_rest}

-- What `recv` promises while enough bytes have arrived: it returns as many as are asked for, and
-- takes them from the front.
pub record Buffered (sock : Socket) : Type 0 where
  pub incoming : sock.State → List ℕ
  pub full :
      (s : sock.State) (n : ℕ)
      → 0 < n
      → n ≤ length (incoming s)
      → (s' : sock.State) × (sock.recv s n ≡ (some (take n (incoming s)), s'))
        × (incoming s' ≡ drop n (incoming s))

-- The length of a client's frame, with the mask bit set.
unfoldable pub client_length : ℕ → List ℕ
client_length len =
    if ltb len 126
    then (128 + len) ∷ []
    else if leb len 0xFFFF
    then 254 ∷ be_bytes 2 len
    else 255 ∷ be_bytes 8 len

-- A frame of RFC 6455 as a client sends it; `wire` is its payload, masked with the bytes of `key`.
abbrev pub client_frame : ℕ → List ℕ → List ℕ → List ℕ
client_frame first key wire = first ∷ (client_length (length wire) ++ (key ++ wire))

-- The mask of RFC 6455, section 5.3: byte `j` of the payload goes out as its exclusive or with byte
-- `j modulo 4` of the key; `i` is the index of the first byte.
abbrev pub Masked : List ℕ → ℕ → List ℕ → List ℕ → Type 0
Masked key i payload wire =
    (length wire ≡ length payload)
    × ((j : ℕ)
        → j < length payload
        → get_or wire j 0 ≡ bit_xor (get_or payload j 0) (get_or key ((i + j) % 4) 0))

pub Masked-unmask :
    (key : List ℕ) (i : ℕ) (payload wire : List ℕ)
    → Masked key i payload wire
    → wire ≡ unmask key i payload
unfolding unmask
Masked-unmask key i [] [] m = refl
Masked-unmask key i [] (w ∷ wire) m = absurd (omega (arith, m.0))
Masked-unmask key i (b ∷ payload) [] m = absurd (omega (arith, m.0))
Masked-unmask key i (b ∷ payload) (w ∷ wire) m =
    let i0 : i + 0 ≡ i = omega arith in
    ap₂ (λ x y. x ∷ y)
      (subst (λ (n : ℕ). w ≡ bit_xor b (get_or key (n % 4) 0)) i0 (m.1 0 (omega arith)))
      (Masked-unmask key (i + 1) payload wire (
        omega (arith, m.0),
        λ j h.
            let next : i + suc j ≡ i + 1 + j = omega arith in
            subst (λ (n : ℕ). get_or wire j 0 ≡ bit_xor (get_or payload j 0) (get_or key (n % 4) 0))
              next (m.1 (suc j) (omega (arith, h))),
      ))

abbrev xor_row : ℕ → ℕ → Bool
xor_row b k = bit_xor (bit_xor b k) k == b

xor_table : holds_below (λ b. holds_below (xor_row b) 256) 256 ≡ true
unfolding holds_below
xor_table = refl

xor_twice : (b k : ℕ) → b < 256 → k < 256 → bit_xor (bit_xor b k) k ≡ b
xor_twice b k hb hk =
    let row : (bit_xor (bit_xor b k) k == b) ≡ true =
      holds_below_at (xor_row b) k 256 hk
        (holds_below_at (λ c. holds_below (xor_row c) 256) b 256 hb xor_table) in
    ground arith

-- Masking twice with the same key gives the bytes back.
pub unmask_twice :
    (key : List ℕ) (i : ℕ) (bytes : List ℕ)
    → All IsByte key
    → All IsByte bytes
    → unmask key i (unmask key i bytes) ≡ bytes
unfolding unmask
unmask_twice key i [] hk hb = refl
unmask_twice key i (b ∷ bytes) hk hb =
    ap₂ (λ x y. x ∷ y)
      (xor_twice b (get_or key (i % 4) 0) hb.0 (All-get_or IsByte key (i % 4) 0 (omega arith) hk))
      (unmask_twice key (i + 1) bytes hk hb.1)

pub length-unmask :
    (key : List ℕ) (i : ℕ) (bytes : List ℕ) → length (unmask key i bytes) ≡ length bytes
unfolding unmask
length-unmask key i [] = refl
length-unmask key i (b ∷ bytes) = ap suc (length-unmask key (i + 1) bytes)

pub two_value : (n : ℕ) → n < 65536 → be_value 0 (be_bytes 2 n) ≡ n
unfolding be_value be_bytes
two_value n h = omega arith

module _ (sock : Socket) (law : Buffered sock) (can_allocate : ℕ → Bool) where
  pub recv_front :
      (s : sock.State) (xs following : List ℕ)
      → 0 < length xs
      → law.incoming s ≡ xs ++ following
      → (s' : sock.State) × (sock.recv s (length xs) ≡ (some xs, s'))
        × (law.incoming s' ≡ following)
  recv_front s xs following h e =
      let (s', r, i) =
        law.full s (length xs) h (rw e (omega (arith, length-append xs following))) in
      (
        s',
        r ∙ ap (λ (l : List ℕ). (some l, s')) (ap (take (length xs)) e ∙ take-append xs following),
        i ∙ ap (drop (length xs)) e ∙ drop-append xs following,
      )

  pub fill_front :
      (s : sock.State) (xs following : List ℕ)
      → 0 < length xs
      → law.incoming s ≡ xs ++ following
      → (s' : sock.State) × (fill_array sock can_allocate s (length xs) ≡ ok (some xs, s'))
        × (law.incoming s' ≡ following)
  unfolding fill_array
  fill_front s xs following h e =
      let (s', r, i) = recv_front s xs following h e in
      let same : (length xs == length xs) ≡ true = ground arith in
      (
        s',
        rw (r, fill_array)
            (rw same (ap (λ (x : Option (List ℕ) × sock.State). ok (some xs, x.1)) r)),
        i,
      )

  receive_whole :
      (fuel left : ℕ) (s s' : sock.State) (xs : List ℕ)
      → sock.recv s (suc left) ≡ (some xs, s')
      → length xs ≡ suc left
      → receive_rest sock can_allocate (suc fuel) s (suc left) ≡ (some xs, s')
  unfolding receive_rest
  receive_whole fuel left s s' xs r e =
      let none_left : suc left - length xs ≡ 0 = omega (arith, e) in
      rw (r, receive_rest)
        (rw (none_left, receive_rest)
          (ap₂ (λ (l : List ℕ) (x : Option (List ℕ) × sock.State). (some l, x.1)) (append-nil xs)
            r))

  pub receive_front :
      (s : sock.State) (xs following : List ℕ)
      → law.incoming s ≡ xs ++ following
      → (s' : sock.State) × (receive_rest sock can_allocate (length xs) s (length xs)
          ≡ (some xs, s'))
        × (law.incoming s' ≡ following)
  unfolding receive_rest
  receive_front s [] following e = (s, refl, e)
  receive_front s (x ∷ xs) following e =
      let (s', r, i) = recv_front s (x ∷ xs) following (omega arith) e in
      (s', receive_whole (length xs) (length xs) s s' (x ∷ xs) r refl, i)

-- ===== src/MemoryMap/Bulk.antt =====
-- The bulk methods and the snapshots.
use openaslc.Base.{
  ℕ, ◌+◌, ◌-◌, ◌^◌, ◌≤◌, ◌<◌, ◌≡◌, refl, ◌&&◌, List, ◌++◌, arith, ltb, leb, if◌then◌else◌, length,
  length-append, length-take, length-drop, take, drop, get_or, get_or-append, get_or-take,
  get_or-drop, All, All-append, All-take, All-drop, ◌∙◌, ap, take_all, drop_all, take-append, [],
  ◌∷◌, zero, suc, Bool-cases, inl, inr,
}
use mathlib.Core.List.{append-nil}
use openaslc.Base.Outcome.{ok, throws, out_of_range}
use openaslc.MemoryMap.{
  MemoryArea, MemoryMap, get_size, area_of, with_area, cell, area_eq, load_range, store_range,
  read_bytes, write_bytes, get_area_snapshot, copy_snapshot_to, IsValid, IsByte,
}
use openaslc.MemoryMap.Bounds.{length-area_of, area_of-bytes, validate_in, validate_out}
use openaslc.MemoryMap.Cells.{with_area-IsValid, area_of-with_area, area_eq_sound, area_eq_refl}

-- What `std::copy` leaves in an array.
abbrev pub spliced : List ℕ → ℕ → List ℕ → List ℕ
spliced xs i vs = take i xs ++ (vs ++ drop (i + length vs) xs)

length-spliced :
    (xs : List ℕ) (i : ℕ) (vs : List ℕ)
    → i + length vs ≤ length xs
    → length (spliced xs i vs) ≡ length xs
length-spliced xs i vs h = omega (
  arith,
  length-append (take i xs) (vs ++ drop (i + length vs) xs),
  length-append vs (drop (i + length vs) xs),
  length-take i xs,
  length-drop (i + length vs) xs,
)

get_or-spliced :
    (xs : List ℕ) (i : ℕ) (vs : List ℕ) (j : ℕ)
    → i + length vs ≤ length xs
    → get_or (spliced xs i vs) j 0
      ≡ (if leb i j && ltb j (i + length vs) then get_or vs (j - i) 0 else get_or xs j 0)
get_or-spliced xs i vs j h = elim (Bool-cases (ltb j (i + length vs))) [
  | inl e ↦ ground (
    arith,
    length-take i xs,
    get_or-append (take i xs) (vs ++ drop (i + length vs) xs) j 0,
    get_or-append vs (drop (i + length vs) xs) (j - i) 0,
    get_or-take i xs j 0,
  )
  | inr e ↦
      let rejoin : i + length vs + (j - i - length vs) ≡ j = ground arith in
      ground (
        arith,
        length-take i xs,
        get_or-append (take i xs) (vs ++ drop (i + length vs) xs) j 0,
        get_or-append vs (drop (i + length vs) xs) (j - i) 0,
        get_or-drop (i + length vs) xs (j - i - length vs) 0,
        ap (λ k. get_or xs k 0) rejoin,
      )
]

All-spliced :
    (xs : List ℕ) (i : ℕ) (vs : List ℕ)
    → All IsByte xs
    → All IsByte vs
    → All IsByte (spliced xs i vs)
All-spliced xs i vs h k =
    All-append IsByte (take i xs) _ (All-take IsByte i xs h)
      (All-append IsByte vs _ k (All-drop IsByte (i + length vs) xs h))

-- `write_bytes` of a range that lies in the area returns a valid map in which the range holds the
-- bytes and every other cell of every area is as it was.
pub write_bytes_lem :
    {m : MemoryMap} (a : MemoryArea) (offset : ℕ) (bytes : List ℕ)
    → IsValid m
    → All IsByte bytes
    → offset + length bytes ≤ get_size a
    → (m' : MemoryMap) × (write_bytes m a offset bytes ≡ ok m')
      × IsValid m'
      × ((b : MemoryArea) (j : ℕ)
          → cell m' b j ≡ (
              if area_eq b a && (leb offset j && ltb j (offset + length bytes))
              then get_or bytes (j - offset) 0
              else cell m b j))
unfolding write_bytes store_range
write_bytes_lem {m} a offset bytes v hb h =
    let fits : offset + length bytes ≤ length (area_of a m) = rw (length-area_of a v) h in
    let xs = spliced (area_of a m) offset bytes in
    (
      with_area a m xs,
      rw (validate_in a offset (length bytes) h) (ground arith),
      with_area-IsValid a xs v (length-spliced (area_of a m) offset bytes fits ∙ length-area_of a v)
          (All-spliced (area_of a m) offset bytes (area_of-bytes a v) hb),
      λ b j. ground (
        arith,
        area_of-with_area m a b xs,
        area_eq_sound b a,
        get_or-spliced (area_of a m) offset bytes j fits,
      ),
    )

drop-splice :
    (xs : List ℕ) (i : ℕ) (vs ws : List ℕ)
    → i ≤ length xs
    → drop i (take i xs ++ (vs ++ ws)) ≡ vs ++ ws
drop-splice xs zero vs ws h = refl
drop-splice [] (suc i) vs ws h = absurd (omega arith)
drop-splice (x ∷ xs) (suc i) vs ws h = drop-splice xs i vs ws (omega arith)

-- `read_bytes` gives back what `write_bytes` wrote at the same place, whatever was there before.
pub read_bytes-write_bytes :
    {m m' : MemoryMap} (a : MemoryArea) (offset : ℕ) (bytes : List ℕ)
    → IsValid m
    → offset + length bytes ≤ get_size a
    → write_bytes m a offset bytes ≡ ok m'
    → read_bytes m' a offset (length bytes) ≡ ok bytes
unfolding write_bytes store_range read_bytes load_range
read_bytes-write_bytes {m} {m'} a offset bytes v h e =
    let fits : offset + length bytes ≤ length (area_of a m) = rw (length-area_of a v) h in
    let xs = spliced (area_of a m) offset bytes in
    ground (
      arith,
      validate_in a offset (length bytes) h,
      length-spliced (area_of a m) offset bytes fits,
      area_of-with_area m a a xs,
      area_eq_refl a,
      drop-splice (area_of a m) offset bytes (drop (offset + length bytes) (area_of a m)),
      take-append bytes (drop (offset + length bytes) (area_of a m)),
    )

-- A range of `read_bytes` or `write_bytes` that ends past the area, and not past 2^64, is refused
-- by an exception, and nothing is written.
pub range_checked :
    (m : MemoryMap) (a : MemoryArea) (offset : ℕ) (count : ℕ) (bytes : List ℕ)
    → get_size a < offset + count
    → offset + count < 2 ^ 64
    → length bytes ≡ count
    → (read_bytes m a offset count ≡ throws out_of_range)
      × (write_bytes m a offset bytes ≡ throws out_of_range)
unfolding read_bytes write_bytes
range_checked m a offset count bytes h k e =
    let refused = validate_out a offset count h k in (rw refused refl, rw (e, refused) refl)

pub snapshot-area :
    {m : MemoryMap} (a : MemoryArea) → IsValid m → get_area_snapshot m a ≡ ok (area_of a m)
unfolding get_area_snapshot load_range
snapshot-area {m} a v = ground (arith, length-area_of a v, take_all (get_size a) (area_of a m))

-- Writing a whole area, through either bulk method.
pub copy_whole :
    {n : MemoryMap} (a : MemoryArea) (xs : List ℕ)
    → IsValid n
    → length xs ≡ get_size a
    → All IsByte xs
    → (n' : MemoryMap) × (write_bytes n a 0 xs ≡ ok n')
      × IsValid n'
      × ((b : MemoryArea) → area_of b n' ≡ (if area_eq b a then xs else area_of b n))
unfolding write_bytes store_range
copy_whole {n} a xs w full bytes = (
  with_area a n xs,
  rw (validate_in a 0 (length xs) (omega arith))
      (ground (arith, length-area_of a w, drop_all (0 + length xs) (area_of a n), append-nil xs)),
  with_area-IsValid a xs w full bytes,
  λ b. area_of-with_area n a b xs,
)

copy_snapshot_to-eq-write_bytes :
    (n : MemoryMap) (a : MemoryArea) (xs : List ℕ) → copy_snapshot_to n a xs ≡ write_bytes n a 0 xs
unfolding copy_snapshot_to write_bytes
copy_snapshot_to-eq-write_bytes n a xs = refl

-- A snapshot of an area, copied into any valid map, makes that area the same as it was when the
-- snapshot was taken, and leaves the two other areas alone.
pub copy_snapshot-get_area_snapshot :
    {m n : MemoryMap} (a : MemoryArea) {snapshot : List ℕ}
    → IsValid m
    → IsValid n
    → get_area_snapshot m a ≡ ok snapshot
    → (n' : MemoryMap) × (copy_snapshot_to n a snapshot ≡ ok n')
      × IsValid n'
      × ((b : MemoryArea) → area_of b n' ≡ (if area_eq b a then area_of a m else area_of b n))
copy_snapshot-get_area_snapshot {m} {n} a {snapshot} v w e =
    let same : snapshot ≡ area_of a m = cc (snapshot-area a v) in
    rw (same, copy_snapshot_to-eq-write_bytes n a (area_of a m))
      (copy_whole a (area_of a m) w (length-area_of a v) (area_of-bytes a v))

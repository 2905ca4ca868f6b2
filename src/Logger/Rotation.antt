-- ===== src/Logger/Rotation.antt =====
-- Where `rotate_if_needed` moves each file.
use openaslc.Base.{
  ℕ, zero, suc, ◌+◌, ◌≤◌, ◌<◌, ◌≡◌, ◌≢◌, refl, ◌∙◌, Bool, true, false, List, arith, ltb, leb, ◌==◌,
  if◌then◌else◌, Option, none, some, length, Option-cases, inl, inr, dec_lt,
}
use openaslc.Logger.{Disk, Files, rename, shift_backups, rotate_if_needed}

-- The first of two files, or the second if the first does not exist.
abbrev pub or_else : Option (List ℕ) → Option (List ℕ) → Option (List ℕ)
or_else none b = b
or_else (some a) b = some a

-- Where every rename succeeds.
module _ (disk : Disk) (works : (src : ℕ) → disk.can_rename src ≡ true) where
  rename_lem :
      (src dst : ℕ) (files : Files) (j : ℕ)
      → src ≢ dst
      → rename disk src dst files j
        ≡ (if j == src then none else if j == dst then or_else (files src) (files dst) else files j)
  unfolding rename
  rename_lem src dst files j ne = elim (Option-cases (files src)) [
    | inl e ↦ ground (arith, e, works src)
    | inr (content, e) ↦ ground (arith, e, works src)
  ]

  or_else-none : (a : Option (List ℕ)) → or_else a none ≡ a
  or_else-none none = refl
  or_else-none (some a) = refl

  shift_above : (n : ℕ) (files : Files) (j : ℕ) → n < j → shift_backups disk n files j ≡ files j
  unfolding shift_backups
  shift_above zero files j h = refl
  shift_above (suc zero) files j h = refl
  shift_above (suc (suc i)) files j h =
      shift_above (suc i) (rename disk (suc i) (suc (suc i)) files) j (omega arith)
      ∙ ground (arith, rename_lem (suc i) (suc (suc i)) files j)

  shift_log : (n : ℕ) (files : Files) → shift_backups disk n files 0 ≡ files 0
  unfolding shift_backups
  shift_log zero files = refl
  shift_log (suc zero) files = refl
  shift_log (suc (suc i)) files =
      shift_log (suc i) (rename disk (suc i) (suc (suc i)) files)
      ∙ ground (arith, rename_lem (suc i) (suc (suc i)) files 0)

  shift_top :
      (i : ℕ) (files : Files)
      → shift_backups disk (suc (suc i)) files (suc (suc i))
        ≡ or_else (files (suc i)) (files (suc (suc i)))
  unfolding shift_backups
  shift_top i files =
      shift_above (suc i) (rename disk (suc i) (suc (suc i)) files) (suc (suc i)) (omega arith)
      ∙ ground (arith, rename_lem (suc i) (suc (suc i)) files (suc (suc i)))

  shift_middle :
      (n : ℕ) (files : Files) (k : ℕ)
      → 1 ≤ k
      → k + 1 < n
      → shift_backups disk n files (suc k) ≡ files k
  unfolding shift_backups
  shift_middle zero files k h l = absurd (omega arith)
  shift_middle (suc zero) files k h l = absurd (omega arith)
  shift_middle (suc (suc zero)) files k h l = absurd (omega arith)
  shift_middle (suc (suc (suc i))) files k h l =
      let files₁ = rename disk (suc (suc i)) (suc (suc (suc i))) files in
      elim (dec_lt k (suc i)) [
        | yes below ↦
            shift_middle (suc (suc i)) files₁ k h (omega arith)
            ∙ ground (arith, rename_lem (suc (suc i)) (suc (suc (suc i))) files k)
        | no last ↦
            let e : k ≡ suc i = omega arith in
            rw e (
              shift_top i files₁
              ∙ ground (
                arith,
                rename_lem (suc (suc i)) (suc (suc (suc i))) files (suc i),
                rename_lem (suc (suc i)) (suc (suc (suc i))) files (suc (suc i)),
                or_else-none (files (suc i)),
              ))
      ]

  shift_last :
      (n : ℕ) (files : Files) (k : ℕ)
      → n ≡ k + 2
      → shift_backups disk n files (k + 2) ≡ or_else (files (k + 1)) (files (k + 2))
  shift_last n files k h =
      let two : k + 2 ≡ suc (suc k) = omega arith in
      let one : k + 1 ≡ suc k = omega arith in rw (h, two, one) (shift_top k files)

  shift_between :
      (n : ℕ) (files : Files) (k : ℕ)
      → k + 2 < n
      → shift_backups disk n files (k + 2) ≡ files (k + 1)
  shift_between n files k h =
      let two : k + 2 ≡ suc (k + 1) = omega arith in
      rw two (shift_middle n files (k + 1) (omega arith) (omega arith))

  shift_numbered :
      (n : ℕ) (files : Files) (k : ℕ)
      → shift_backups disk n files (k + 2) ≡ (
          if ltb n (k + 2)
          then files (k + 2)
          else if k + 2 == n
          then or_else (files (k + 1)) (files (k + 2))
          else files (k + 1))
  shift_numbered n files k =
      ground (arith, shift_above n files (k + 2), shift_last n files k, shift_between n files k)

-- Whether `rotate_if_needed` rotates: the log exists and has reached the size limit.
abbrev pub is_due : ℕ → Files → Bool
is_due max_file_bytes files = elim (files 0) [
  | none ↦ false
  | some content ↦ leb max_file_bytes (length content)
]

-- A log that does not exist, or that is smaller than the limit, is left alone, and so is every
-- backup.
pub rotate_not_due :
    (disk : Disk) (max_file_bytes max_backups : ℕ) (files : Files)
    → is_due max_file_bytes files ≡ false
    → rotate_if_needed disk max_file_bytes max_backups files ≡ files
unfolding rotate_if_needed
rotate_not_due disk max_file_bytes max_backups files h = ground (arith, Option-cases (files 0))

rotated :
    (disk : Disk) (max_file_bytes max_backups : ℕ) (files : Files)
    → is_due max_file_bytes files ≡ true
    → rotate_if_needed disk max_file_bytes max_backups files
      ≡ rename disk 0 1 (shift_backups disk max_backups files)
unfolding rotate_if_needed
rotated disk max_file_bytes max_backups files h = ground (arith, Option-cases (files 0))

log_exists :
    (max_file_bytes : ℕ) (files : Files)
    → is_due max_file_bytes files ≡ true
    → (content : List ℕ) × (files 0 ≡ some content)
log_exists max_file_bytes files h = elim (Option-cases (files 0)) [
  | inl e ↦ absurd (ground arith)
  | inr found ↦ found
]

-- When a rotation is due, at least two backups are kept and every rename succeeds: the log becomes backup 1, every backup
-- between 1 and the last but one moves up by one, the last is overwritten by the one below it, if
-- there is one, and files beyond the last backup are not touched. So no file but the last backup
-- loses its content.
pub rotate_lem :
    (disk : Disk) (max_file_bytes max_backups : ℕ) (files : Files) (k : ℕ)
    → ((src : ℕ) → disk.can_rename src ≡ true)
    → is_due max_file_bytes files ≡ true
    → 2 ≤ max_backups
    → let after = rotate_if_needed disk max_file_bytes max_backups files in
      (after 0 ≡ none)
      × (after 1 ≡ files 0)
      × (after (k + 2) ≡ (
          if ltb max_backups (k + 2)
          then files (k + 2)
          else if k + 2 == max_backups
          then or_else (files (k + 1)) (files (k + 2))
          else files (k + 1)))
rotate_lem disk max_file_bytes max_backups files k works due two =
    let (content, exists) = log_exists max_file_bytes files due in
    let shifts = shift_backups disk max_backups files in
    let log = shift_log disk works max_backups files in
    rw (rotated disk max_file_bytes max_backups files due) (
      ground (arith, rename_lem disk works 0 1 shifts 0),
      ground (arith, rename_lem disk works 0 1 shifts 1, log, exists),
      ground (
        arith,
        rename_lem disk works 0 1 shifts (k + 2),
        shift_numbered disk works max_backups files k,
      ),
    )

-- ===== src/Telemetry/Handshake/Find.antt =====
-- The search for a text in a request, and blanks.
use openaslc.Base.{
  ℕ, suc, ◌+◌, ◌≤◌, ◌≡◌, refl, ap, ◌∙◌, Bool, true, false, ◌&&◌, List, [], ◌∷◌, ◌++◌, some, ◌==◌,
  length, arith, Bool-cases, Option-cases, inl, inr, All,
}
use openaslc.Telemetry.Handshake.{is_prefix, find, is_blank, trim_left, trim_right}

is_prefix-append :
    (needle text more : List ℕ)
    → length needle ≤ length text
    → is_prefix needle (text ++ more) ≡ is_prefix needle text
is_prefix-append [] text more h = refl
is_prefix-append (c ∷ cs) [] more h = absurd (omega arith)
is_prefix-append (c ∷ cs) (d ∷ text) more h =
    ap (λ (b : Bool). (c == d) && b) (is_prefix-append cs text more (omega arith))

is_prefix-length :
    (needle text : List ℕ) → is_prefix needle text ≡ true → length needle ≤ length text
is_prefix-length [] text h = omega arith
is_prefix-length (c ∷ cs) [] h = absurd (ground arith)
is_prefix-length (c ∷ cs) (d ∷ text) h =
    let rest : is_prefix cs text ≡ true = ground arith in
    omega (arith, is_prefix-length cs text rest)

-- Where it is found, all of it is there.
pub find-length :
    (needle text : List ℕ) (k : ℕ) → find needle text ≡ some k → k + length needle ≤ length text
unfolding find
find-length needle [] k h = elim (Bool-cases (is_prefix needle [])) [
  | inl e ↦ ground (arith, is_prefix-length needle [] e)
  | inr e ↦ absurd (cc (e))
]
find-length needle (c ∷ text) k h = elim (Bool-cases (is_prefix needle (c ∷ text))) [
  | inl e ↦ ground (arith, is_prefix-length needle (c ∷ text) e)
  | inr e ↦ elim (Option-cases (find needle text)) [
    | inl n ↦ absurd (cc (e, n))
    | inr (j, f) ↦ let at : suc j ≡ k = cc (e, f) in omega (arith, find-length needle text j f)
  ]
]

-- What stands behind an occurrence does not matter.
pub find-append :
    (needle text more : List ℕ) (k : ℕ)
    → find needle text ≡ some k
    → find needle (text ++ more) ≡ some k
unfolding find
find-append needle [] [] k h = h
find-append needle [] (d ∷ more) k h = elim (Bool-cases (is_prefix needle [])) [
  | inl e ↦
      let same : is_prefix needle (d ∷ more) ≡ true =
        is_prefix-append needle [] (d ∷ more) (is_prefix-length needle [] e) ∙ e in
      let at : 0 ≡ k = cc (e) in rw same (ap some at)
  | inr e ↦ absurd (cc (e))
]
find-append needle (c ∷ text) more k h = elim (Bool-cases (is_prefix needle (c ∷ text))) [
  | inl e ↦
      let same : is_prefix needle (c ∷ (text ++ more)) ≡ true =
        is_prefix-append needle (c ∷ text) more (is_prefix-length needle (c ∷ text) e) ∙ e in
      let at : 0 ≡ k = cc (e) in rw same (ap some at)
  | inr e ↦ elim (Option-cases (find needle text)) [
    | inl n ↦ absurd (cc (e, n))
    | inr (j, f) ↦
        let at : suc j ≡ k = cc (e, f) in
        let whole = find-length needle text j f in
        let same : is_prefix needle (c ∷ (text ++ more)) ≡ false =
          is_prefix-append needle (c ∷ text) more (omega arith) ∙ e in
        rw same (rw (find-append needle text more j f) (ap some at))
  ]
]

abbrev pub NoBlanks : List ℕ → Type 0
NoBlanks = All (λ c. is_blank c ≡ false)

pub trim_right-NoBlanks : (xs : List ℕ) → NoBlanks xs → trim_right xs ≡ xs
unfolding trim_right
trim_right-NoBlanks [] h = refl
trim_right-NoBlanks (c ∷ []) h = rw (h.0) refl
trim_right-NoBlanks (c ∷ (d ∷ xs)) h = rw (trim_right-NoBlanks (d ∷ xs) h.1) refl

pub trim_left-NoBlanks : (xs : List ℕ) → NoBlanks xs → trim_left xs ≡ xs
unfolding trim_left
trim_left-NoBlanks [] h = refl
trim_left-NoBlanks (c ∷ xs) h = rw (h.0) refl

-- ===== src/Integrity/Difference.antt =====
-- What the verdict says of two texts.
use mathlib.Core.Bool.{false≢true}
use vvz_doc_store.Prelude.{
  true, Result, ok, err, ◌>>=◌, ◌||◌, ◌⊎◌, inl, inr, Bool-cases, if_cases, subst, ==_iff, take_all,
  ℕ, ◌≤◌, ◌<◌, ◌≡◌, ◌≢◌, ◌↔◌, refl, ap, sym, ◌∙◌, false, List, [], ◌∷◌, arith, length, take,
  get_elem?, min, Option, none, some, ◌==◌,
}
use vvz_doc_store.Text.{Text, text_eq, text_eq_refl, text_eq_sound}
use vvz_doc_store.Integrity.{
  EncodeError, has_surrogate, utf8, encode, Outcome, matched, mismatch, length_boundary, Verdict,
  shared_prefix, compare_bytes, integrity_verdict,
}
use vvz_doc_store.Integrity.Utf8.{utf8-injective}

-- The texts agree below `n` and both have a byte at `n`, which differs.
pub record DifferAt (left right : List ℕ) (n : ℕ) : Type 0 where
  pub agree : take n left ≡ take n right
  pub in_left : n < length left
  pub in_right : n < length right
  pub differ : get_elem? left n ≢ get_elem? right n

-- One text is the first `n` bytes of the other, which is longer.
pub record StrictPrefix (left right : List ℕ) (n : ℕ) : Type 0 where
  pub agree : take n left ≡ take n right
  pub shorter : n ≡ min (length left) (length right)
  pub unequal : length left ≢ length right

shared_prefix-agree :
    (left right : List ℕ)
    → let n = shared_prefix left right in
      (take n left ≡ take n right) × (n ≤ length left) × (n ≤ length right)
unfolding shared_prefix
shared_prefix-agree [] right = (refl, omega arith, omega arith)
shared_prefix-agree (x ∷ left) [] = (refl, omega arith, omega arith)
shared_prefix-agree (x ∷ left) (y ∷ right) = ground (arith, shared_prefix-agree left right)

shared_prefix-differ :
    (left right : List ℕ)
    → let n = shared_prefix left right in
      n < length left → n < length right → get_elem? left n ≢ get_elem? right n
unfolding shared_prefix
shared_prefix-differ [] right h k = absurd (omega arith)
shared_prefix-differ (x ∷ left) [] h k = absurd (omega arith)
shared_prefix-differ (x ∷ left) (y ∷ right) h k = ground (arith, shared_prefix-differ left right)

length_boundary≢matched : length_boundary ≢ matched
length_boundary≢matched h = cc

mismatch≢matched : mismatch ≢ matched
mismatch≢matched h = cc

-- Texts of one length that agree up to it are the same.
eq_of_take :
    (left right : List ℕ)
    → length left ≡ length right
    → let n = min (length left) (length right) in take n left ≡ take n right → left ≡ right
eq_of_take left right same agree =
    let n = min (length left) (length right) in
    sym (take_all n left (omega arith)) ∙ agree ∙ take_all n right (omega arith)

-- What an outcome with its offset says of two byte strings.
abbrev pub Explained : List ℕ → List ℕ → Outcome → Option ℕ → Type 0
Explained left right matched none = left ≡ right
Explained left right mismatch (some n) = DifferAt left right n
Explained left right length_boundary (some n) = StrictPrefix left right n
Explained left right _ _ = ⊥

compare_bytes-Explained :
    (left right : List ℕ)
    → left ≢ right
    → Explained left right (compare_bytes left right).outcome (compare_bytes left right).offset
      × ((compare_bytes left right).outcome ≢ matched)
unfolding compare_bytes
compare_bytes-Explained left right ne =
    if_cases {A = Verdict} (λ v. Explained left right v.outcome v.offset × (v.outcome ≢ matched))
      (n == shared)
      (λ ends.
        let agree = subst (λ m. take m left ≡ take m right) ((==_iff n shared).0 ends) facts.0 in
        (
          record {
            agree = agree;
            shorter = refl;
            unequal = λ same. ne (eq_of_take left right same agree);
          },
          length_boundary≢matched,
        ))
      (λ inside. (
        record {
          agree = facts.0;
          in_left = ground (arith, facts);
          in_right = ground (arith, facts);
          differ = shared_prefix-differ left right (ground (arith, facts)) (ground (arith, facts));
        },
        mismatch≢matched,
      ))
  where
    shared : ℕ
    shared = min (length left) (length right)

    n : ℕ
    n = shared_prefix left right

    facts : (take n left ≡ take n right) × (n ≤ length left) × (n ≤ length right)
    facts = shared_prefix-agree left right

text_ne : (s t : Text) → text_eq s t ≡ false → s ≢ t
text_ne s t h e = false≢true (sym h ∙ ap (text_eq s) (sym e) ∙ text_eq_refl s)

-- What a comparison of two texts tells: a verdict, or that one of two different texts has no encoding.
abbrev pub Judged : Text → Text → Result EncodeError Verdict → Type 0
Judged source reconstructed (ok v) =
    Explained (utf8 source) (utf8 reconstructed) v.outcome v.offset
    × ((v.outcome ≡ matched) ↔ (source ≡ reconstructed))
    × ((source ≡ reconstructed)
        ⊎ ((has_surrogate source ≡ false) × (has_surrogate reconstructed ≡ false)))
Judged source reconstructed (err e) =
    (source ≢ reconstructed) × ((has_surrogate source || has_surrogate reconstructed) ≡ true)

different-Judged :
    (source reconstructed : Text)
    → source ≢ reconstructed
    → Judged source reconstructed (do
      source_bytes ← encode source
      reconstructed_bytes ← encode reconstructed
      ok (compare_bytes source_bytes reconstructed_bytes))
unfolding encode
different-Judged source reconstructed ne = elim (Bool-cases (has_surrogate source)) [
  | inl bad ↦
      let it : (has_surrogate source || has_surrogate reconstructed) ≡ true = ground arith in
      rw bad (ne, it)
  | inr good ↦ elim (Bool-cases (has_surrogate reconstructed)) [
    | inl bad ↦
        let it : (has_surrogate source || has_surrogate reconstructed) ≡ true = ground arith in
        rw (good, bad) (ne, it)
    | inr good' ↦
        let (explained, not_matched) =
          compare_bytes-Explained (utf8 source) (utf8 reconstructed)
            (λ e. ne (utf8-injective source reconstructed e)) in
        rw (good, good')
          (explained, (λ h. absurd (not_matched h), λ e. absurd (ne e)), inr (good, good'))
  ]
]

-- Two texts are judged a match exactly if they are equal. Otherwise, where both have an encoding, the verdict gives the
-- first byte at which the encodings differ, or the length at which one of them ends as a strict prefix of the other;
-- and there is no verdict exactly for different texts one of which has a lone surrogate.
pub integrity_verdict_lem :
    (source reconstructed : Text)
    → Judged source reconstructed (integrity_verdict source reconstructed)
unfolding integrity_verdict
integrity_verdict_lem source reconstructed =
    if_cases {A = Result EncodeError Verdict} (Judged source reconstructed)
      (text_eq source reconstructed)
      (λ same.
        let e = text_eq_sound source reconstructed same in (ap utf8 e, (λ _. e, λ _. refl), inl e))
      (λ other. different-Judged source reconstructed (λ e. text_ne source reconstructed other e))

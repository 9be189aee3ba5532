-- ===== src/Diagnostic/Disclosure.antt =====
-- What a diagnostic discloses of its source.
use text.Mathlib.Text.{◌==◌ as ◌is◌}
use text.Mathlib.TextEquality.{eq_iff}
use vvz_doc_store.Prelude.{
  ℕ, zero, suc, ◌+◌, ◌-◌, ◌≤◌, ◌≡◌, refl, inl, inr, min, max, String, Bool, true, false, not, ◌||◌,
  Bool-cases, Option, none, some, [], ◌∷◌, arith, All, ltb, length, take, length-take,
  if◌then◌else◌, if_cases, ℤ, pos, negsuc, Result, ok, >>=-eq-ok, raise_if-eq-ok, of_ok,
}
use vvz_doc_store.Text.{Text, text_eq, cut}
use vvz_doc_store.Integrity.{encode_char}
use vvz_doc_store.Diagnostic.{
  DiagnosticError, Environment, Request, Diagnostic, mask, redact, is_authorized, located,
  check_offset, check_limit, context, describe, encoded, build_integrity_diagnostic,
}

-- At most `limit` characters, where there are any.
abbrev pub Bounded : ℕ → Option Text → Type 0
Bounded limit none = Unit
Bounded limit (some text) = length text ≤ limit

abbrev pub Masked : Option Text → Type 0
Masked none = Unit
Masked (some text) = All (λ c. c ≡ 42) text

-- One of the two locators, and not both.
abbrev pub OneLocator : Option ℕ → Option ℕ → Type 0
OneLocator (some n) none = Unit
OneLocator none (some n) = Unit
OneLocator _ _ = ⊥

pub record Discloses (r : Request) (limit : ℕ) (d : Diagnostic) : Type 0 where
  pub one_locator : OneLocator d.byte_offset d.length_boundary
  pub withheld :
      is_authorized r.authorization ≡ false → (d.context_before ≡ none) × (d.context_after ≡ none)
  pub before_bounded : Bounded limit d.context_before
  pub after_bounded : Bounded limit d.context_after
  pub masked :
      (r.redaction_policy is "none") ≡ false
      → (r.redaction_policy is "redact_pii") ≡ false
      → Masked d.context_before × Masked d.context_after
  pub ordered : d.character_start ≤ d.character_end
  pub inside : d.character_end ≤ length r.source_text
  pub small : d.character_end ≤ d.character_start + (limit + limit)

located-le : (offset : ℕ) (text : Text) → located offset text ≤ length text
unfolding located
located-le offset [] = omega arith
located-le offset (c ∷ text) = ground (arith, located-le (offset - length (encode_char c)) text)

context-Bounded :
    (env : Environment) (authorization policy : String) (limit : ℕ) (exact : Text)
    → Bounded limit (context env authorization policy limit exact)
unfolding context
context-Bounded env authorization policy limit exact =
    if_cases (Bounded limit) (is_authorized authorization)
      (λ _. omega (arith, length-take limit (redact env policy exact))) (λ _. tt)

mask-All : (limit : ℕ) (text : Text) → All (λ c. c ≡ 42) (take limit (mask text))
unfolding mask
mask-All zero text = tt
mask-All (suc limit) [] = tt
mask-All (suc limit) (c ∷ text) = (refl, mask-All limit text)

context-Masked :
    (env : Environment) (authorization policy : String) (limit : ℕ) (exact : Text)
    → (policy is "none") ≡ false
    → (policy is "redact_pii") ≡ false
    → Masked (context env authorization policy limit exact)
unfolding context redact
context-Masked env authorization policy limit exact h k =
    if_cases Masked (is_authorized authorization) (λ _. rw (h, k) (mask-All limit exact)) (λ _. tt)

one_locator_lem :
    (outcome : String) (offset : ℕ)
    → (outcome is "mismatch" || outcome is "length_boundary") ≡ true
    → OneLocator
        (if outcome is "mismatch" then some offset else none)
        (if outcome is "length_boundary" then some offset else none)
one_locator_lem outcome offset h = elim (Bool-cases (outcome is "mismatch")) [
  | inl it ↦ rw ((eq_iff outcome "mismatch").0 it) tt
  | inr other ↦
      let it : (outcome is "length_boundary") ≡ true = rw other at h in
      rw ((eq_iff outcome "length_boundary").0 it) tt
]

describe-Discloses :
    (env : Environment) (r : Request) (offset limit : ℕ)
    → (r.outcome is "mismatch" || r.outcome is "length_boundary") ≡ true
    → Discloses r limit (describe env r offset limit)
unfolding describe
describe-Discloses env r offset limit known =
    let at = located offset r.source_text in
    let le = located-le offset r.source_text in
    let before = cut r.source_text (at - limit) at in
    let after = cut r.source_text at (min (length r.source_text) (at + limit)) in
    record {
      one_locator = one_locator_lem r.outcome offset known;
      withheld = λ no. rw (context, no) (refl, refl);
      before_bounded = context-Bounded env r.authorization r.redaction_policy limit before;
      after_bounded = context-Bounded env r.authorization r.redaction_policy limit after;
      masked = λ h k. (
        context-Masked env r.authorization r.redaction_policy limit before h k,
        context-Masked env r.authorization r.redaction_policy limit after h k,
      );
      ordered = omega arith;
      inside = omega arith;
      small = omega arith;
    }

check_limit-ok : (z : ℤ) (limit : ℕ) → check_limit z ≡ ok limit → z ≡ pos limit
unfolding check_limit
check_limit-ok (negsuc n) limit h = cc
check_limit-ok (pos n) limit h = cc

-- The inversion of a request that passes its tests.
pub build_integrity_diagnostic-ok :
    (env : Environment) (r : Request) (d : Diagnostic)
    → build_integrity_diagnostic env r ≡ ok d
    → (offset limit : ℕ) × (r.context_limit ≡ pos limit)
      × ((r.outcome is "mismatch" || r.outcome is "length_boundary") ≡ true)
      × (◌≡◌ {A = Result DiagnosticError Diagnostic} (ok (describe env r offset limit)) (ok d))
unfolding build_integrity_diagnostic
build_integrity_diagnostic-ok env r d h =
    let (_, h₁) = raise_if-eq-ok (r.outcome is "match") _ _ h in
    let (known, h₂) =
      raise_if-eq-ok (not (r.outcome is "mismatch" || r.outcome is "length_boundary")) _ _ h₁ in
    let (_, h₃) = raise_if-eq-ok (text_eq r.source_text r.reconstructed_text) _ _ h₂ in
    let (offset, _, h₄) = >>=-eq-ok (check_offset r.offset) _ h₃ in
    let (_, h₅) = raise_if-eq-ok (r.authorization is "") _ _ h₄ in
    let (_, h₆) = raise_if-eq-ok (r.redaction_policy is "") _ _ h₅ in
    let (limit, e, h₇) = >>=-eq-ok (check_limit r.context_limit) _ h₆ in
    let (left, _, h₈) = >>=-eq-ok (encoded r.source_text) _ h₇ in
    let (right, _, h₉) = >>=-eq-ok (encoded r.reconstructed_text) _ h₈ in
    let (_, h₁₀) = raise_if-eq-ok (ltb (max (length left) (length right)) offset) _ _ h₉ in
    (offset, limit, check_limit-ok r.context_limit limit e, of_not known, h₁₀)
  where
    of_not : {b : Bool} → not b ≡ false → b ≡ true
    of_not {b} k = ground arith

-- A diagnostic that is built has exactly one of its two locators and no context without an authorization;
-- each context has at most as many characters as the limit, and only mask characters under a policy that is
-- neither `none` nor `redact_pii`; its window lies in the source and is at most two limits long.
pub build_integrity_diagnostic-Discloses :
    (env : Environment) (r : Request) (d : Diagnostic)
    → build_integrity_diagnostic env r ≡ ok d
    → (limit : ℕ) × (r.context_limit ≡ pos limit) × Discloses r limit d
build_integrity_diagnostic-Discloses env r d h =
    let (offset, limit, e, known, same) = build_integrity_diagnostic-ok env r d h in
    (limit, e, of_ok (Discloses r limit) same (describe-Discloses env r offset limit known))

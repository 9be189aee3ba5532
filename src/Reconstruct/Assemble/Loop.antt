-- ===== src/Reconstruct/Assemble/Loop.antt =====
-- One round of the loop: a bounded emission.
use vvz_doc_store.Prelude.{
  ◌⊎◌, inl, inr, [], ◌∷◌, ℕ, zero, suc, ◌-◌, ◌≤◌, ◌<◌, ◌≡◌, refl, sym, true, false, ◌++◌, arith,
  length, take, ltb, length-append, length-take, take-append_le, take-append_ge, take_all,
}
use vvz_doc_store.Text.{Text}
use vvz_doc_store.Reconstruct.Assemble.{emit, is_full}

-- At most `max_chars` characters of a text; 0 means that there is no bound.
abbrev pub clip : ℕ → Text → Text
clip zero text = text
clip (suc n) text = take (suc n) text

-- There is a bound, and the text has reached it.
abbrev pub Reaches : ℕ → Text → Type 0
Reaches zero text = ⊥
Reaches (suc n) text = suc n ≤ length text

-- There is a bound, and the text is longer.
abbrev pub Exceeds : ℕ → Text → Type 0
Exceeds zero text = ⊥
Exceeds (suc n) text = suc n < length text

pub append-emit :
    (max_chars : ℕ) (body candidate : Text)
    → is_full max_chars (length body) ≡ false
    → body ++ emit max_chars (length body) candidate ≡ clip max_chars (body ++ candidate)
unfolding emit
append-emit zero body candidate room = refl
append-emit (suc n) body candidate room =
    ground (arith, sym (take-append_ge (suc n) body candidate (ground arith)))

-- What is emitted is all, or the text is full behind it.
pub emit_split :
    (max_chars : ℕ) (body candidate : Text)
    → let emitted = emit max_chars (length body) candidate in
      (ltb (length emitted) (length candidate) ≡ false → emitted ≡ candidate)
      × (ltb (length emitted) (length candidate) ≡ true → Exceeds max_chars (body ++ candidate))
unfolding emit
emit_split zero body candidate = (λ h. refl, λ h. absurd (ground arith))
emit_split (suc n) body candidate =
    let room : ℕ = suc n - length body in
    (
      λ h. ground (arith, length-take room candidate, take_all room candidate),
      λ h. ground (arith, length-take room candidate, length-append body candidate),
    )

-- What is joined behind a full text does not show.
pub clip-append :
    (max_chars : ℕ) (text more : Text)
    → Reaches max_chars text
    → clip max_chars (text ++ more) ≡ clip max_chars text
clip-append zero text more h = absurd h
clip-append (suc n) text more h = take-append_le (suc n) text more h

-- A text that is cut reaches its bound, and exceeds it unless a row behind the bound adds nothing.
abbrev pub Cut : Type 0 → ℕ → Text → Type 0
Cut Idle max_chars full = Reaches max_chars full × (Exceeds max_chars full ⊎ Idle)

pub Cut-append :
    (Idle : Type 0) (max_chars : ℕ) (full more : Text)
    → Cut Idle max_chars full
    → Cut Idle max_chars (full ++ more)
Cut-append Idle zero full more h = absurd h.0
Cut-append Idle (suc n) full more (h, inl long) =
    (omega (arith, length-append full more), inl (omega (arith, length-append full more)))
Cut-append Idle (suc n) full more (h, inr idle) = (omega (arith, length-append full more), inr idle)

pub Exceeds-Reaches :
    (max_chars : ℕ) (full : Text) → Exceeds max_chars full → Reaches max_chars full
Exceeds-Reaches zero full h = h
Exceeds-Reaches (suc n) full h = omega arith

-- A text behind a bound that is reached exceeds it, if it is not empty.
pub beyond :
    (max_chars : ℕ) (full candidate later : Text)
    → Reaches max_chars full
    → Exceeds max_chars (full ++ (candidate ++ later)) ⊎ (candidate ≡ [])
beyond max_chars full [] later h = inr refl
beyond zero full (c ∷ cs) later h = absurd h
beyond (suc n) full (c ∷ cs) later h = inl (omega (arith, length-append full ((c ∷ cs) ++ later)))

pub Reaches-append :
    (max_chars : ℕ) (full more : Text) → Reaches max_chars full → Reaches max_chars (full ++ more)
Reaches-append zero full more h = h
Reaches-append (suc n) full more h = omega (arith, length-append full more)

pub beyond_cons :
    (max_chars : ℕ) (full : Text) (c : ℕ) (more : Text)
    → Reaches max_chars full
    → Exceeds max_chars (full ++ (c ∷ more))
beyond_cons zero full c more h = absurd h
beyond_cons (suc n) full c more h = omega (arith, length-append full (c ∷ more))

pub Reaches-is_full :
    (max_chars : ℕ) (full : Text) → is_full max_chars (length full) ≡ true → Reaches max_chars full
Reaches-is_full zero full h = cc
Reaches-is_full (suc n) full h = ground arith

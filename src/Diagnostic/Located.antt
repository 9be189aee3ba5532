-- ===== src/Diagnostic/Located.antt =====
-- Characters located by a byte offset.
use vvz_doc_store.Prelude.{
  ℕ, zero, suc, ◌-◌, ◌≤◌, ◌<◌, ◌⊎◌, inl, inr, ap, length-append, append-nil, ◌≡◌, ◌≢◌, refl, ap₂,
  if_cases, List, [], ◌∷◌, ◌++◌, arith, leb, leb→le, length, take,
}
use vvz_doc_store.Text.{Text}
use vvz_doc_store.Integrity.{utf8, encode_char}
use vvz_doc_store.Diagnostic.{located}

take_char :
    (n c d : ℕ) (xs ys : List ℕ)
    → length (encode_char c) ≤ n
    → take n (encode_char c ++ xs) ≡ take n (encode_char d ++ ys)
    → (c ≡ d) × (take (n - length (encode_char c)) xs ≡ take (n - length (encode_char c)) ys)
unfolding encode_char
take_char zero c d xs ys h e = absurd (ground arith)
take_char (suc zero) c d xs ys h e = ground arith
take_char (suc (suc zero)) c d xs ys h e = ground arith
take_char (suc (suc (suc zero))) c d xs ys h e = ground arith
take_char (suc (suc (suc (suc n)))) c d xs ys h e = ground arith

take_char-ne-nil :
    (n c : ℕ) (xs : List ℕ) → length (encode_char c) ≤ n → take n (encode_char c ++ xs) ≢ take n []
unfolding encode_char
take_char-ne-nil zero c xs h = ground arith
take_char-ne-nil (suc n) c xs h = ground arith

pub located-agree :
    (n : ℕ) (s t : Text)
    → take n (utf8 s) ≡ take n (utf8 t)
    → take (located n s) s ≡ take (located n s) t
unfolding located utf8
located-agree n [] t h = refl
located-agree n (c ∷ s) [] h =
    if_cases (λ m. take m (c ∷ s) ≡ take m []) (leb (length (encode_char c)) n)
      (λ fits. absurd (take_char-ne-nil n c (utf8 s) (leb→le (length (encode_char c)) n fits) h))
      (λ _. refl)
located-agree n (c ∷ s) (d ∷ t) h =
    if_cases (λ m. take m (c ∷ s) ≡ take m (d ∷ t)) (leb (length (encode_char c)) n)
      (λ fits.
        let (same, rest) =
          take_char n c d (utf8 s) (utf8 t) (leb→le (length (encode_char c)) n fits) h in
        ap₂ (λ x xs. x ∷ xs) same (located-agree (n - length (encode_char c)) s t rest))
      (λ _. refl)

-- The characters before a place are encoded within the offset, and no more are.
abbrev pub LocatedAt : ℕ → Text → ℕ → Type 0
LocatedAt offset text at =
    (length (utf8 (take at text)) ≤ offset)
    × ((at ≡ length text) ⊎ (offset < length (utf8 (take (suc at) text))))

pub located-LocatedAt : (offset : ℕ) (text : Text) → LocatedAt offset text (located offset text)
unfolding located utf8
located-LocatedAt offset [] = (omega arith, inl refl)
located-LocatedAt offset (c ∷ text) =
    if_cases (LocatedAt offset (c ∷ text)) (leb (length (encode_char c)) offset)
      (λ fits.
        let width = length (encode_char c) in
        let le : width ≤ offset = leb→le width offset fits in
        let at = located (offset - width) text in
        let (within, last) = located-LocatedAt (offset - width) text in
        (
          omega (arith, length-append (encode_char c) (utf8 (take at text))),
          elim last [
            | inl whole ↦ inl (ap suc whole)
            | inr more ↦
                inr (omega (arith, length-append (encode_char c) (utf8 (take (suc at) text))))
          ],
        ))
      (λ cut. (omega arith, inr (ground (arith, append-nil (encode_char c)))))

-- ===== src/Integrity/Utf8.antt =====
-- The UTF-8 encoding of texts.
use vvz_doc_store.Prelude.{ℕ, ◌≡◌, ◌≢◌, refl, ap₂, sym, List, [], ◌∷◌, ◌++◌, arith}
use vvz_doc_store.Text.{Text}
use vvz_doc_store.Integrity.{encode_char, utf8}

-- A code point's bytes show where they end.
encode_char_cancel :
    (c d : ℕ) (xs ys : List ℕ) → encode_char c ++ xs ≡ encode_char d ++ ys → (c ≡ d) × (xs ≡ ys)
unfolding encode_char
encode_char_cancel c d xs ys h = ground arith

encode_char-ne-nil : (c : ℕ) (xs : List ℕ) → encode_char c ++ xs ≢ []
unfolding encode_char
encode_char-ne-nil c xs = ground arith

-- Texts with the same bytes are the same.
pub utf8-injective : (s t : Text) → utf8 s ≡ utf8 t → s ≡ t
unfolding utf8
utf8-injective [] [] h = refl
utf8-injective [] (d ∷ t) h = absurd (encode_char-ne-nil d (utf8 t) (sym h))
utf8-injective (c ∷ s) [] h = absurd (encode_char-ne-nil c (utf8 s) h)
utf8-injective (c ∷ s) (d ∷ t) h =
    let (same, rest) = encode_char_cancel c d (utf8 s) (utf8 t) h in
    ap₂ (λ x y. x ∷ y) same (utf8-injective s t rest)

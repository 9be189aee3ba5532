-- ===== src/Plan/Spans.antt =====
-- ingestion/publication_repository.py: the chunk that a byte offset of the reconstruction is named by.
use vvz_doc_store.Prelude.{
  ℕ, ◌≤◌, ◌<◌, ◌≡◌, refl, ap, ◌⊎◌, inl, inr, Bool-cases, some, List, [], ◌∷◌, ◌++◌, arith, ltb, All,
}
use vvz_doc_store.Plan.{chunk_at, chunk_at_offset}

-- The named span: those before it end at or before the offset; it ends behind the offset, or it is the last.
abbrev pub NamedBy : ℕ → List (ℕ × ℕ) → ℕ → Type 0
NamedBy offset spans id =
    (before after : List (ℕ × ℕ)) × (end : ℕ) × (spans ≡ before ++ (id, end) ∷ after)
    × All (λ (span : ℕ × ℕ). span.1 ≤ offset) before
    × ((offset < end) ⊎ (after ≡ []))

chunk_at-NamedBy :
    (span : ℕ × ℕ) (spans : List (ℕ × ℕ)) (offset : ℕ)
    → NamedBy offset (span ∷ spans) (chunk_at span spans offset)
unfolding chunk_at
chunk_at-NamedBy (id, end) [] offset = ([], [], end, refl, tt, inr refl)
chunk_at-NamedBy (id, end) (next ∷ spans) offset = elim (Bool-cases (ltb offset end)) [
  | inl inside ↦ rw inside ([], next ∷ spans, end, refl, tt, inl (ground arith))
  | inr behind ↦
      let (before, after, stop, whole, passed, hit) = chunk_at-NamedBy next spans offset in
      rw behind (
        (id, end) ∷ before,
        after,
        stop,
        ap (λ (l : List (ℕ × ℕ)). (id, end) ∷ l) whole,
        (ground arith, passed),
        hit,
      )
]

-- An offset in the reconstruction of at least one chunk is named by the first chunk whose span ends behind it, or by
-- the last chunk where no span does.
pub chunk_at_offset_lem :
    (span : ℕ × ℕ) (spans : List (ℕ × ℕ)) (offset : ℕ)
    → (id : ℕ) × (chunk_at_offset (span ∷ spans) (some offset) ≡ some id)
      × NamedBy offset (span ∷ spans) id
unfolding chunk_at_offset
chunk_at_offset_lem span spans offset =
    (chunk_at span spans offset, refl, chunk_at-NamedBy span spans offset)

-- ===== src/Sentences/Placed.antt =====
-- ingestion/runtime_boundary.py: where the sentences of validated batches are placed.
use vvz_doc_store.Prelude.{
  map, ℕ, suc, ◌+◌, ◌≤◌, ◌<◌, ◌≡◌, refl, ap, sym, ◌∙◌, Bool, true, false, not, ◌||◌, none, some,
  List, [], ◌∷◌, ◌++◌, arith, ◌==◌, length, pos, ltb_ℤ, ◌+ℤ◌, pos-add, not-ltb_ℤ, ap₂, ok,
  >>=-eq-ok, raise_if-eq-ok, of_ok, subst,
}
use vvz_doc_store.Text.{Text}
use vvz_doc_store.Chunking.{
  Raises, RuntimeChunk, contract_error, outside_paragraph, empty_result, invalid_response,
}
use vvz_doc_store.Sentences.{
  place_sentence, place_batch, place_batches, no_chunk, BatchChunker,
  sentence_chunks_from_paragraph_batch,
}

-- Ranges that are not empty and follow one another from `cursor`, within `stop`.
abbrev pub Chained : ℕ → ℕ → List RuntimeChunk → Type 0
Chained cursor stop [] = Unit
Chained cursor stop (chunk ∷ chunks) =
    (start end : ℕ) × (chunk.start ≡ pos start)
    × (chunk.end ≡ pos end)
    × (cursor ≤ start)
    × (start < end)
    × (end ≤ stop)
    × Chained end stop chunks

-- The ordinals count from `index`.
abbrev pub Numbered : ℕ → List RuntimeChunk → Type 0
Numbered index [] = Unit
Numbered index (chunk ∷ chunks) = (chunk.ordinal ≡ index) × Numbered (suc index) chunks

-- Paragraphs in order, each with its sentences: at least one, in order and within the paragraph.
abbrev pub Placed : ℕ → ℕ → List RuntimeChunk → List (List RuntimeChunk) → Type 0
Placed cursor stop [] [] = Unit
Placed cursor stop (paragraph ∷ paragraphs) (batch ∷ batches) =
    (start end : ℕ) × (paragraph.start ≡ pos start)
    × (paragraph.end ≡ pos end)
    × (cursor ≤ start)
    × (start < end)
    × (end ≤ stop)
    × (no_chunk batch ≡ false)
    × Chained start end batch
    × Placed end stop paragraphs batches
Placed cursor stop _ _ = ⊥

abbrev pub concat : List (List RuntimeChunk) → List RuntimeChunk
concat [] = []
concat (batch ∷ batches) = batch ++ concat batches

-- Some text bounds each batch's ranges.
abbrev pub AllChained : List (List RuntimeChunk) → Type 0
AllChained [] = Unit
AllChained (batch ∷ batches) = (stop : ℕ) × Chained 0 stop batch × AllChained batches

-- The same sentences at other places.
abbrev pub SameSentences : List RuntimeChunk → List RuntimeChunk → Type 0
SameSentences [] [] = Unit
SameSentences (a ∷ as') (b ∷ bs) =
    (a.uuid ≡ b.uuid) × (a.text ≡ b.text) × (a.metadata ≡ b.metadata) × SameSentences as' bs
SameSentences _ _ = ⊥

-- The same, paragraph by paragraph.
abbrev pub SameBatches : List (List RuntimeChunk) → List (List RuntimeChunk) → Type 0
SameBatches [] [] = Unit
SameBatches (placed ∷ rest) (batch ∷ batches) =
    SameSentences placed batch × SameBatches rest batches
SameBatches _ _ = ⊥

or_false-middle : (x y w : Bool) → (x || y || w) ≡ false → y ≡ false
or_false-middle false false w h = refl
or_false-middle false true w h = cc
or_false-middle true y w h = cc

module _ (paragraph : RuntimeChunk) (a z : ℕ) (starts : paragraph.start ≡ pos a)
    (ends : paragraph.end ≡ pos z) where
  place_sentence-at :
      (ordinal : ℕ) (sentence placed : RuntimeChunk) (s e : ℕ)
      → sentence.start ≡ pos s
      → sentence.end ≡ pos e
      → place_sentence paragraph ordinal sentence ≡ ok placed
      → (placed.start ≡ pos (a + s))
        × (placed.end ≡ pos (a + e))
        × (a + e ≤ z)
        × (placed.ordinal ≡ ordinal)
        × (placed.uuid ≡ sentence.uuid)
        × (placed.text ≡ sentence.text)
        × (placed.metadata ≡ sentence.metadata)
  unfolding place_sentence
  place_sentence-at ordinal sentence placed s e hs he h =
      let start = paragraph.start +ℤ sentence.start in
      let end = paragraph.start +ℤ sentence.end in
      let (fits, h₁) =
        raise_if-eq-ok
          (ltb_ℤ start paragraph.start || ltb_ℤ paragraph.end end || not (ltb_ℤ start end))
          (contract_error outside_paragraph) _ h in
      let at : start ≡ pos (a + s) = ap₂ ◌+ℤ◌ starts hs ∙ pos-add a s in
      let to : end ≡ pos (a + e) = ap₂ ◌+ℤ◌ starts he ∙ pos-add a e in
      let inside : ltb_ℤ (pos z) (pos (a + e)) ≡ false =
        sym (ap₂ ltb_ℤ ends to)
        ∙ or_false-middle (ltb_ℤ start paragraph.start) (ltb_ℤ paragraph.end end)
            (not (ltb_ℤ start end)) fits in
      of_ok
        (λ (c : RuntimeChunk).
          (c.start ≡ pos (a + s))
          × (c.end ≡ pos (a + e))
          × (a + e ≤ z)
          × (c.ordinal ≡ ordinal)
          × (c.uuid ≡ sentence.uuid)
          × (c.text ≡ sentence.text)
          × (c.metadata ≡ sentence.metadata))
        h₁ (at, to, not-ltb_ℤ z (a + e) inside, refl, refl, refl, refl)

  place_batch-Chained :
      (ordinal cursor stop : ℕ) (batch placed : List RuntimeChunk)
      → Chained cursor stop batch
      → place_batch paragraph ordinal batch ≡ ok placed
      → Chained (a + cursor) z placed × Numbered ordinal placed × SameSentences placed batch
  unfolding place_batch
  place_batch-Chained ordinal cursor stop [] placed c h =
      of_ok (λ l. Chained (a + cursor) z l × Numbered ordinal l × SameSentences l []) h (tt, tt, tt)
  place_batch-Chained ordinal cursor stop (sentence ∷ batch) placed (s, e, hs, he, i, j, k, c) h =
      let (one, e₁, h₁) = >>=-eq-ok (place_sentence paragraph ordinal sentence) _ h in
      let (rest, e₂, h₂) = >>=-eq-ok (place_batch paragraph (suc ordinal) batch) _ h₁ in
      let (o₁, o₂, o₃, o₄, o₅, o₆, o₇) = place_sentence-at ordinal sentence one s e hs he e₁ in
      let (r₁, r₂, r₃) = place_batch-Chained (suc ordinal) e stop batch rest c e₂ in
      of_ok
        (λ l. Chained (a + cursor) z l × Numbered ordinal l × SameSentences l (sentence ∷ batch)) h₂
        ((a + s, a + e, o₁, o₂, omega arith, omega arith, o₃, r₁), (o₄, r₂), (o₅, o₆, o₇, r₃))

Numbered-append :
    (index : ℕ) (xs ys : List RuntimeChunk)
    → Numbered index xs
    → Numbered (length xs + index) ys
    → Numbered index (xs ++ ys)
Numbered-append index [] ys n m = let e : 0 + index ≡ index = omega arith in rw e at m
Numbered-append index (x ∷ xs) ys n m =
    let e : suc (length xs) + index ≡ length xs + suc index = omega arith in
    (n.0, Numbered-append (suc index) xs ys n.1 (rw e at m))

SameSentences-no_chunk :
    (as' bs : List RuntimeChunk) → SameSentences as' bs → no_chunk bs ≡ false → no_chunk as' ≡ false
SameSentences-no_chunk [] [] s h = h
SameSentences-no_chunk [] (b ∷ bs) s h = absurd s
SameSentences-no_chunk (a ∷ as') bs s h = refl

place_batches-Placed :
    (ordinal cursor stop : ℕ) (paragraphs : List RuntimeChunk) (batches : List (List RuntimeChunk))
    (sentences : List RuntimeChunk)
    → Chained cursor stop paragraphs
    → AllChained batches
    → length batches ≡ length paragraphs
    → place_batches ordinal paragraphs batches ≡ ok sentences
    → (placed : List (List RuntimeChunk)) × (sentences ≡ concat placed)
      × Placed cursor stop paragraphs placed
      × Numbered ordinal sentences
      × SameBatches placed batches
unfolding place_batches
place_batches-Placed ordinal cursor stop [] [] sentences p c l h =
    of_ok
      (λ s.
        (placed : List (List RuntimeChunk)) × (s ≡ concat placed)
        × Placed cursor stop [] placed
        × Numbered ordinal s
        × SameBatches placed [])
      h ([], refl, tt, tt, tt)
place_batches-Placed ordinal cursor stop [] (batch ∷ batches) sentences p c l h =
    absurd (omega arith)
place_batches-Placed ordinal cursor stop (q ∷ qs) [] sentences p c l h = absurd (omega arith)
place_batches-Placed ordinal cursor stop (q ∷ qs) (batch ∷ batches) sentences
      (a, z, starts, ends, i, j, k, p) (bound, chained, c) l h =
    let (full, h₁) = raise_if-eq-ok (no_chunk batch) empty_result _ h in
    let (one, e₁, h₂) = >>=-eq-ok (place_batch q ordinal batch) _ h₁ in
    let (rest, e₂, h₃) = >>=-eq-ok (place_batches (length one + ordinal) qs batches) _ h₂ in
    let (c₁, n₁, s₁) = place_batch-Chained q a z starts ends ordinal 0 bound batch one chained e₁ in
    let (placed, e, p', n₂, s₂) =
      place_batches-Placed (length one + ordinal) z stop qs batches rest p c (omega arith) e₂ in
    let start : a + 0 ≡ a = omega arith in
    of_ok
      (λ s.
        (placed : List (List RuntimeChunk)) × (s ≡ concat placed)
        × Placed cursor stop (q ∷ qs) placed
        × Numbered ordinal s
        × SameBatches placed (batch ∷ batches))
      h₃
      (
        one ∷ placed,
        ap (λ r. one ++ r) e,
        (
          a,
          z,
          starts,
          ends,
          i,
          j,
          k,
          SameSentences-no_chunk one batch s₁ full,
          subst (λ m. Chained m z one) start c₁,
          p',
        ),
        Numbered-append ordinal one rest n₁ n₂,
        (s₁, s₂),
      )

-- What the chunker answered for the paragraphs' texts; it is not called where there is no paragraph.
abbrev pub Answered : BatchChunker → List RuntimeChunk → Text → List (List RuntimeChunk) → Type 0
Answered chunker [] source_id batches = batches ≡ []
Answered none (q ∷ qs) source_id batches = ⊥
Answered (some chunk_batch) (q ∷ qs) source_id batches =
    chunk_batch (map (λ (chunk : RuntimeChunk). chunk.text) (q ∷ qs))
      (map (λ (chunk : RuntimeChunk). source_id) (q ∷ qs))
    ≡ ok batches

-- Where a chunker's batches have ranges in order, and the paragraphs do, the sentences that are returned are
-- one or more for each paragraph, in order and within it; they are numbered from 0, and group by group they are
-- the sentences that the chunker answered for that paragraph's text, with their texts, identifiers and metadata.
pub sentence_chunks_from_paragraph_batch-Placed :
    (chunker : BatchChunker) (paragraphs : List RuntimeChunk) (source_id : Text) (stop : ℕ)
    (sentences : List RuntimeChunk)
    → Chained 0 stop paragraphs
    → ((chunk_batch : List Text → List Text → Raises (List (List RuntimeChunk)))
          (texts ids : List Text) (batches : List (List RuntimeChunk))
        → chunker ≡ some chunk_batch
        → chunk_batch texts ids ≡ ok batches
        → AllChained batches)
    → sentence_chunks_from_paragraph_batch chunker paragraphs source_id ≡ ok sentences
    → (batches placed : List (List RuntimeChunk)) × Answered chunker paragraphs source_id batches
      × (sentences ≡ concat placed)
      × Placed 0 stop paragraphs placed
      × Numbered 0 sentences
      × SameBatches placed batches
unfolding sentence_chunks_from_paragraph_batch
sentence_chunks_from_paragraph_batch-Placed chunker [] source_id stop sentences p ordered h =
    of_ok
      (λ s.
        (batches placed : List (List RuntimeChunk)) × (batches ≡ [])
        × (s ≡ concat placed)
        × Placed 0 stop [] placed
        × Numbered 0 s
        × SameBatches placed batches)
      h ([], [], refl, refl, tt, tt, tt)
sentence_chunks_from_paragraph_batch-Placed none (q ∷ qs) source_id stop sentences p ordered h = cc
sentence_chunks_from_paragraph_batch-Placed (some chunk_batch) (q ∷ qs) source_id stop sentences p
      ordered h =
    let texts = map (λ (chunk : RuntimeChunk). chunk.text) (q ∷ qs) in
    let ids = map (λ (chunk : RuntimeChunk). source_id) (q ∷ qs) in
    let (batches, e₁, h₁) = >>=-eq-ok (chunk_batch texts ids) _ h in
    let (same, h₂) =
      raise_if-eq-ok (not (length batches == suc (length qs))) invalid_response _ h₁ in
    let counted : length batches ≡ length (q ∷ qs) = ground arith in
    let (placed, r₁, r₂, r₃, r₄) =
      place_batches-Placed 0 0 stop (q ∷ qs) batches sentences p
        (ordered chunk_batch texts ids batches refl e₁) counted h₂ in
    (batches, placed, e₁, r₁, r₂, r₃, r₄)

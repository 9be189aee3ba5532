-- ===== src/Sentences.antt =====
-- ingestion/runtime_boundary.py: the sentences of the paragraphs of one source text.
pub mod Placed
pub mod Grouped
use vvz_doc_store.Prelude.{
  ◌+◌, ℕ, suc, Bool, true, false, not, ◌&&◌, ◌||◌, Option, none, some, List, [], ◌∷◌, ◌++◌, map,
  ltb, ◌==◌, length, if◌then◌else◌, ℤ, ltb_ℤ, ◌+ℤ◌, Result, ok, err, ◌>>=◌, ◌>>◌, raise_if,
}
use vvz_doc_store.Text.{Text}
use vvz_doc_store.Chunking.{
  invalid_response, empty_result, batch_unavailable, contract_error, outside_paragraph, Raises,
  RuntimeChunk,
}

-- The `ValueError` of a paragraph with no sentence.
pub data NoSentences : Type 0 where
  no_sentences : NoSentences

-- `[chunk for chunk in chunks if test(chunk)]`
unfoldable pub keep : (RuntimeChunk → Bool) → List RuntimeChunk → List RuntimeChunk
keep test [] = []
keep test (chunk ∷ chunks) =
    let rest = keep test chunks in if test chunk then chunk ∷ rest else rest

unfoldable pub starts_inside : RuntimeChunk → RuntimeChunk → Bool
starts_inside paragraph chunk =
    not (ltb_ℤ chunk.start paragraph.start) && ltb_ℤ chunk.start paragraph.end

unfoldable pub overlaps_paragraph : RuntimeChunk → RuntimeChunk → Bool
overlaps_paragraph paragraph chunk =
    ltb_ℤ paragraph.start chunk.end && ltb_ℤ chunk.start paragraph.end

-- `<` of the sort's keys, the start, the end and the ordinal.
unfoldable pub key_lt : RuntimeChunk → RuntimeChunk → Bool
key_lt a b =
    ltb_ℤ a.start b.start
    || not (ltb_ℤ b.start a.start)
      && (ltb_ℤ a.end b.end || not (ltb_ℤ b.end a.end) && ltb a.ordinal b.ordinal)

insert_by_key : RuntimeChunk → List RuntimeChunk → List RuntimeChunk
unfolding key_lt
insert_by_key chunk [] = chunk ∷ []
insert_by_key chunk (other ∷ others) =
    let rest = insert_by_key chunk others in
    if key_lt other chunk then other ∷ rest else chunk ∷ other ∷ others

-- `sorted`, which keeps equal keys in their order.
unfoldable pub sort_chunks : List RuntimeChunk → List RuntimeChunk
unfolding insert_by_key
sort_chunks [] = []
sort_chunks (chunk ∷ chunks) = insert_by_key chunk (sort_chunks chunks)

or_matches : List RuntimeChunk → List RuntimeChunk → List RuntimeChunk
or_matches [] others = others
or_matches (chunk ∷ chunks) others = chunk ∷ chunks

sorted_or_raise : List RuntimeChunk → Result NoSentences (List RuntimeChunk)
sorted_or_raise [] = err no_sentences
sorted_or_raise (chunk ∷ chunks) = ok (sort_chunks (chunk ∷ chunks))

unfoldable pub sentence_chunks_for_paragraph :
    RuntimeChunk → List RuntimeChunk → Result NoSentences (List RuntimeChunk)
unfolding or_matches sorted_or_raise keep
sentence_chunks_for_paragraph paragraph chunks = sorted_or_raise (
    or_matches (keep (starts_inside paragraph) chunks) (keep (overlaps_paragraph paragraph) chunks))

-- One sentence at its place in the source text.
unfoldable pub place_sentence : RuntimeChunk → ℕ → RuntimeChunk → Raises RuntimeChunk
place_sentence paragraph ordinal sentence = do
  let start = paragraph.start +ℤ sentence.start
  let end = paragraph.start +ℤ sentence.end
  raise_if (ltb_ℤ start paragraph.start || ltb_ℤ paragraph.end end || not (ltb_ℤ start end))
      (contract_error outside_paragraph)
  ok (record sentence { start = start; end = end; ordinal = ordinal })

-- The sentences of one paragraph, numbered from `ordinal`.
unfoldable pub place_batch : RuntimeChunk → ℕ → List RuntimeChunk → Raises (List RuntimeChunk)
unfolding place_sentence
place_batch paragraph ordinal [] = ok []
place_batch paragraph ordinal (sentence ∷ sentences) = do
  placed ← place_sentence paragraph ordinal sentence
  rest ← place_batch paragraph (suc ordinal) sentences
  ok (placed ∷ rest)

abbrev pub no_chunk : List RuntimeChunk → Bool
no_chunk [] = true
no_chunk (chunk ∷ chunks) = false

-- The loop over the paragraphs and their batches, lists of one length.
unfoldable pub place_batches :
    ℕ → List RuntimeChunk → List (List RuntimeChunk) → Raises (List RuntimeChunk)
unfolding place_batch
place_batches ordinal (paragraph ∷ paragraphs) (batch ∷ batches) = do
  raise_if (no_chunk batch) empty_result
  placed ← place_batch paragraph ordinal batch
  rest ← place_batches (length placed + ordinal) paragraphs batches
  ok (placed ++ rest)
place_batches ordinal _ _ = ok []

-- `chunk_batch` of a chunker, if it has one: the sentences of some texts, by the source's identifier.
abbrev pub BatchChunker : Type 0
BatchChunker = Option (List Text → List Text → Raises (List (List RuntimeChunk)))

texts_of : List RuntimeChunk → List Text
texts_of = map (λ (chunk : RuntimeChunk). chunk.text)

repeated : Text → List RuntimeChunk → List Text
repeated id = map (λ (chunk : RuntimeChunk). id)

unfoldable pub sentence_chunks_from_paragraph_batch :
    BatchChunker → List RuntimeChunk → Text → Raises (List RuntimeChunk)
unfolding texts_of repeated place_batches
sentence_chunks_from_paragraph_batch chunker [] source_id = ok []
sentence_chunks_from_paragraph_batch none (paragraph ∷ paragraphs) source_id = err batch_unavailable
sentence_chunks_from_paragraph_batch (some chunk_batch) (paragraph ∷ paragraphs) source_id = do
  batches ←
      chunk_batch (texts_of (paragraph ∷ paragraphs)) (repeated source_id (paragraph ∷ paragraphs))
  raise_if (not (length batches == suc (length paragraphs))) invalid_response
  place_batches 0 (paragraph ∷ paragraphs) batches

-- ===== src/Plan/Published.antt =====
-- ingestion/publication_repository.py: from the chunker's answers to the text that is read back.
use vvz_doc_store.Prelude.{
  ℕ, suc, ◌≡◌, ap, sym, ◌∙◌, subst, true, none, some, List, [], ◌∷◌, map, arith, length, pos, ok,
  ◌>>=◌, >>=-eq-ok, of_ok, of_some, Distinct, map_ok, not, ◌==◌, raise_if-eq-ok,
}
use vvz_doc_store.Text.{Text}
use vvz_doc_store.Exact.{Piece, build_exact_reconstruction_pieces}
use vvz_doc_store.Reconstruct.{Row}
use vvz_doc_store.Reconstruct.Roundtrip.{IsWritten, Written, ids}
use vvz_doc_store.Integrity.{matched, integrity_verdict, reconstructed_scope_text}
use vvz_doc_store.Integrity.Scope.{publication_matches}
use vvz_doc_store.Chunking as Chunking
use vvz_doc_store.Chunking.{
  RuntimeChunk, Answer, RawItem, other_object, semantic, Libraries, contract_error, batch_lengths,
  validate_runtime_chunks,
}
use vvz_doc_store.Chunking.Wrapper.{
  Client, Config, Strategy, by_paragraph, by_sentence, chunk, chunk_batch, validate_batches,
  strategy_params, called, classify, classify_batch, batches_of, with_config, common_source,
}
use vvz_doc_store.Chunking.Validated.{Read, validate_runtime_chunks-Read}
use vvz_doc_store.Sentences.{sentence_chunks_from_paragraph_batch}
use vvz_doc_store.Sentences.Placed.{
  Chained, AllChained, Placed, concat, sentence_chunks_from_paragraph_batch-Placed,
}
use vvz_doc_store.Plan.{Planned, chunk_input, exact_sentence_plan}
use vvz_doc_store.Plan.Total.{
  zip, uuids, paragraphs_of, pairs_of, sentences_of, exact_sentence_plan-total,
}

-- `_chunk_units`: the paragraphs of a text and their sentences.
unfoldable pub chunk_units :
    Libraries
    → Client
    → Config
    → Text
    → Text
    → Chunking.Raises (List RuntimeChunk × List RuntimeChunk)
unfolding chunk chunk_batch sentence_chunks_from_paragraph_batch
chunk_units libraries client config text source_id = do
  paragraphs ← chunk libraries client config text by_paragraph source_id
  sentences ←
      sentence_chunks_from_paragraph_batch
        (some
          (λ (texts ids : List Text). chunk_batch libraries client config texts by_sentence ids))
        paragraphs source_id
  ok (paragraphs, sentences)

Read-Chained :
    (libraries : Libraries) (source expected : Text) (index previous_end : ℕ) (raws : List RawItem)
    (chunks : List RuntimeChunk)
    → Read libraries source expected index previous_end raws chunks
    → Chained previous_end (length source) chunks
Read-Chained libraries source expected index previous_end [] [] r = tt
Read-Chained libraries source expected index previous_end [] (c ∷ cs) r = absurd r
Read-Chained libraries source expected index previous_end (other_object ∷ raws) cs r = absurd r
Read-Chained libraries source expected index previous_end (semantic raw ∷ raws) [] r = absurd r
Read-Chained libraries source expected index previous_end (semantic raw ∷ raws) (c ∷ cs)
      (s, e, r, rest) =
    (
      s,
      e,
      r.starts,
      r.ends,
      r.located.behind,
      r.located.not_empty,
      r.located.inside,
      Read-Chained libraries source expected (suc index) e raws cs rest,
    )

module _ (libraries : Libraries) where
  validated-Chained :
      (answer : Answer RawItem) (source source_id : Text) (chunks : List RuntimeChunk)
      → validate_runtime_chunks libraries answer source source_id ≡ ok chunks
      → Chained 0 (length source) chunks
  validated-Chained answer source source_id chunks h =
      let (raw, raws, id, e, e', r) =
        validate_runtime_chunks-Read libraries answer source source_id chunks h in
      Read-Chained libraries source (libraries.print_uuid id) 0 0 (raw ∷ raws) chunks r

  validate_batches-AllChained :
      (answers : List (Answer RawItem)) (texts ids : List Text) (batches : List (List RuntimeChunk))
      → validate_batches libraries answers texts ids ≡ ok batches
      → AllChained batches
  unfolding validate_batches
  validate_batches-AllChained [] texts ids batches h = of_ok AllChained h tt
  validate_batches-AllChained (a ∷ as') [] ids batches h = of_ok AllChained h tt
  validate_batches-AllChained (a ∷ as') (t ∷ ts) [] batches h = of_ok AllChained h tt
  validate_batches-AllChained (a ∷ as') (t ∷ ts) (id ∷ ids) batches h =
      let (chunks, e₁, h₁) = >>=-eq-ok (validate_runtime_chunks libraries a t id) _ h in
      let (rest, e₂, h₂) = >>=-eq-ok (validate_batches libraries as' ts ids) _ h₁ in
      of_ok AllChained h₂ (
        length t,
        validated-Chained a t id chunks e₁,
        validate_batches-AllChained as' ts ids rest e₂,
      )

  module _ (client : Client) (config : Config) where
    chunk-Chained :
        (text : Text) (strategy : Strategy) (source_id : Text) (chunks : List RuntimeChunk)
        → chunk libraries client config text strategy source_id ≡ ok chunks
        → Chained 0 (length text) chunks
    unfolding chunk
    chunk-Chained text strategy source_id chunks h =
        let (params, e₁, h₁) = >>=-eq-ok (strategy_params strategy) _ h in
        let (answer, e₂, h₂) =
          >>=-eq-ok
            (called classify (client.chunk text source_id (with_config config strategy params))) _
            h₁ in
        validated-Chained answer text source_id chunks h₂

    chunk_batch-AllChained :
        (texts : List Text) (strategy : Strategy) (ids : List Text)
        (batches : List (List RuntimeChunk))
        → chunk_batch libraries client config texts strategy ids ≡ ok batches
        → AllChained batches
    unfolding chunk_batch
    chunk_batch-AllChained [] strategy [] batches h = of_ok AllChained h tt
    chunk_batch-AllChained [] strategy (id ∷ rest) batches h =
        let (same, h₀) =
          raise_if-eq-ok (not (0 == suc (length rest))) (contract_error batch_lengths) _ h in
        let never : 0 ≡ suc (length rest) = ground arith in absurd (omega (arith, never))
    chunk_batch-AllChained (t ∷ ts) strategy sources batches h =
        let texts = t ∷ ts in
        let (same, h₀) =
          raise_if-eq-ok (not (length texts == length sources)) (contract_error batch_lengths) _
            h in
        let (params, e₁, h₁) = >>=-eq-ok (strategy_params strategy) _ h₀ in
        let (answer, e₂, h₂) =
          >>=-eq-ok
            (called classify_batch (
              client.chunk_batch texts (common_source sources)
                (with_config config strategy params)))
            _ h₁ in
        let (answers, e₃, h₃) = >>=-eq-ok (batches_of (length texts) answer) _ h₂ in
        validate_batches-AllChained answers texts sources batches h₃

module _ (libraries : Libraries) (client : Client) (config : Config) (text source_id : Text)
    (paragraphs sentences : List RuntimeChunk)
    (chunked : chunk_units libraries client config text source_id
      ≡ ok (paragraphs, sentences)) where
  chunk_units-Placed :
      (placed : List (List RuntimeChunk)) × (sentences ≡ concat placed)
      × Placed 0 (length text) paragraphs placed
  unfolding chunk_units
  chunk_units-Placed =
      let chunker =
        some
          (λ (texts ids : List Text). chunk_batch libraries client config texts by_sentence ids) in
      let (ps, e₁, h₁) =
        >>=-eq-ok (chunk libraries client config text by_paragraph source_id) _ chunked in
      let (ss, e₂, h₂) =
        >>=-eq-ok (sentence_chunks_from_paragraph_batch chunker ps source_id) _ h₁ in
      let (batches, placed, answered, same, r, numbered, kept) =
        sentence_chunks_from_paragraph_batch-Placed chunker ps source_id (length text) ss
          (chunk-Chained libraries client config text by_paragraph source_id ps e₁)
          (λ f texts ids bs e h.
            of_some
              (λ g.
                (ts is : List Text) (cs : List (List RuntimeChunk))
                → g ts is ≡ ok cs
                → AllChained cs)
              e (λ ts is cs. chunk_batch-AllChained libraries client config ts by_sentence is cs)
              texts ids bs h)
          e₂ in
      of_ok
        (λ (r : List RuntimeChunk × List RuntimeChunk).
          (placed : List (List RuntimeChunk)) × (r.1 ≡ concat placed)
          × Placed 0 (length text) r.0 placed)
        h₂ (placed, same, r)

-- A row as the publication writes it for each sentence and its piece.
abbrev pub WrittenPairs : List Row → List (RuntimeChunk × Piece) → Type 0
WrittenPairs [] [] = Unit
WrittenPairs (row ∷ rows) ((sentence, piece) ∷ pairs) =
    IsWritten row (chunk_input sentence) piece × WrittenPairs rows pairs
WrittenPairs _ _ = ⊥

WrittenPairs-Written :
    (rows : List Row) (sentences : List RuntimeChunk) (pieces : List Piece)
    → length pieces ≡ length sentences
    → WrittenPairs rows (zip sentences pieces)
    → Written rows (map chunk_input sentences) pieces
WrittenPairs-Written [] [] [] l w = tt
WrittenPairs-Written rows [] (piece ∷ pieces) l w = absurd (omega arith)
WrittenPairs-Written rows (s ∷ ss) [] l w = absurd (omega arith)
WrittenPairs-Written (row ∷ rows) [] [] l w = absurd w
WrittenPairs-Written [] (s ∷ ss) (piece ∷ pieces) l w = absurd w
WrittenPairs-Written (row ∷ rows) (s ∷ ss) (piece ∷ pieces) l w =
    (w.0, WrittenPairs-Written rows ss pieces (omega arith) w.1)

module _ (libraries : Libraries) (client : Client) (config : Config) (text source_id : Text)
    (paragraph : RuntimeChunk) (paragraphs sentences : List RuntimeChunk)
    (chunked : chunk_units libraries client config text source_id
      ≡ ok (paragraph ∷ paragraphs, sentences))
    (distinct : Distinct (uuids sentences)) where
  -- Whatever the external service answers: where its paragraphs and sentences are accepted, there is a
  -- paragraph, and the sentences' identifiers are distinct, the exact sentence plan is made without an
  -- error; its paragraphs are the paragraphs, and its pairs hold every sentence once, in order, with a piece. Under
  -- each paragraph of the plan there is a sentence, and its sentences lie within its range, in order.
  pub chunk_units-planned :
      (pieces : List Piece) × (plan : List Planned) × (build_exact_reconstruction_pieces text
          (map chunk_input sentences)
          (pos 0)
          none
          true
        ≡ ok pieces)
      × (exact_sentence_plan text (paragraph ∷ paragraphs) sentences ≡ ok plan)
      × (paragraphs_of plan ≡ paragraph ∷ paragraphs)
      × (pairs_of plan ≡ zip sentences pieces)
      × (length pieces ≡ length sentences)
      × Placed 0 (length text) (paragraph ∷ paragraphs) (sentences_of plan)
  chunk_units-planned =
      let (placed, same, r) =
        chunk_units-Placed libraries client config text source_id (paragraph ∷ paragraphs) sentences
          chunked in
      let d : Distinct (uuids (concat placed)) = subst (λ l. Distinct (uuids l)) same distinct in
      subst
        (λ l.
          (pieces : List Piece) × (plan : List Planned) × (build_exact_reconstruction_pieces text
              (map chunk_input l) (pos 0) none true
            ≡ ok pieces)
          × (exact_sentence_plan text (paragraph ∷ paragraphs) l ≡ ok plan)
          × (paragraphs_of plan ≡ paragraph ∷ paragraphs)
          × (pairs_of plan ≡ zip l pieces)
          × (length pieces ≡ length l)
          × Placed 0 (length text) (paragraph ∷ paragraphs) (sentences_of plan))
        (sym same) (exact_sentence_plan-total text paragraph paragraphs placed r d)

  -- Where the paragraphs and sentences of the external service are accepted, there is a paragraph, the
  -- sentences' identifiers are distinct, and rows are written for the plan's pairs under distinct identifiers: the
  -- boundary reads the whole source text back, and the verdict is a match.
  pub published-reads_back :
      (plan : List Planned) (rows : List Row)
      → exact_sentence_plan text (paragraph ∷ paragraphs) sentences ≡ ok plan
      → WrittenPairs rows (pairs_of plan)
      → Distinct (ids rows)
      → (reconstructed_scope_text rows ≡ ok text)
        × (map_ok (integrity_verdict text) (reconstructed_scope_text rows)
            ≡ ok (ok (record { outcome = matched; offset = none })))
  published-reads_back plan rows planned w d =
      let (pieces, made, built, e, same, pairs, counted, inside) = chunk_units-planned in
      let plans : made ≡ plan = cc in
      let written : Written rows (map chunk_input sentences) pieces =
        WrittenPairs-Written rows sentences pieces counted
          (subst (WrittenPairs rows) (sym (ap pairs_of plans) ∙ pairs) w) in
      publication_matches text (map chunk_input sentences) true pieces rows built written d

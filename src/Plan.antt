-- ===== src/Plan.antt =====
-- ingestion/publication_repository.py: the plan of a publication, each paragraph with its sentences and their
-- exact reconstruction pieces, and how the written chunks are named.
pub mod Total
pub mod Published
pub mod Spans
use vvz_doc_store.Prelude.{
  ℕ, Bool, true, false, Option, none, some, List, [], ◌∷◌, ◌++◌, map, ltb, ◌==◌, if◌then◌else◌, pos,
  Result, ok, err, ◌>>=◌, lookup, insert,
}
use vvz_doc_store.Text.{Text}
use vvz_doc_store.Exact.{ReconstructionError, Piece, ChunkInput, build_exact_reconstruction_pieces}
use vvz_doc_store.Chunking.{RuntimeChunk}
use vvz_doc_store.Sentences.{NoSentences, sentence_chunks_for_paragraph}

-- How a plan fails: a paragraph without sentences, a piece that cannot be built, a missing key.
pub data PlanError : Type 0 where
  paragraph_empty : NoSentences → PlanError
  piece_refused : ReconstructionError → PlanError
  missing_key : PlanError

abbrev pub Raises : Type 0 → Type 0
Raises = Result PlanError

abbrev pub Group : Type 0
Group = RuntimeChunk × List RuntimeChunk

abbrev pub Planned : Type 0
Planned = RuntimeChunk × List (RuntimeChunk × Piece)

abbrev lifted : {E A : Type 0} → (E → PlanError) → Result E A → Raises A
lifted wrap (err e) = err (wrap e)
lifted wrap (ok a) = ok a

-- `grouped`: each paragraph with its sentences.
unfoldable pub group_sentences : List RuntimeChunk → List RuntimeChunk → Raises (List Group)
unfolding sentence_chunks_for_paragraph
group_sentences [] sentences = ok []
group_sentences (paragraph ∷ paragraphs) sentences = do
  own ← lifted paragraph_empty (sentence_chunks_for_paragraph paragraph sentences)
  rest ← group_sentences paragraphs sentences
  ok ((paragraph, own) ∷ rest)

abbrev pub ordered_sentences : List Group → List RuntimeChunk
ordered_sentences [] = []
ordered_sentences ((paragraph, own) ∷ groups) = own ++ ordered_sentences groups

abbrev pub chunk_input : RuntimeChunk → ChunkInput
chunk_input sentence = record {
  text = sentence.text;
  source_start = some sentence.start;
  source_end = some sentence.end;
}

-- `piece_by_chunk_id`, on lists of one length.
unfoldable pub piece_by_chunk_id :
    List RuntimeChunk → List Piece → List (ℕ × Piece) → List (ℕ × Piece)
piece_by_chunk_id (sentence ∷ sentences) (piece ∷ pieces) found =
    piece_by_chunk_id sentences pieces (insert sentence.uuid piece found)
piece_by_chunk_id _ _ found = found

or_missing : Option Piece → Raises Piece
or_missing none = err missing_key
or_missing (some piece) = ok piece

unfoldable pub attach_pieces :
    List (ℕ × Piece) → List RuntimeChunk → Raises (List (RuntimeChunk × Piece))
unfolding or_missing
attach_pieces found [] = ok []
attach_pieces found (sentence ∷ sentences) = do
  piece ← or_missing (lookup sentence.uuid found)
  rest ← attach_pieces found sentences
  ok ((sentence, piece) ∷ rest)

unfoldable pub attach_groups : List (ℕ × Piece) → List Group → Raises (List Planned)
unfolding attach_pieces
attach_groups found [] = ok []
attach_groups found ((paragraph, own) ∷ groups) = do
  pairs ← attach_pieces found own
  rest ← attach_groups found groups
  ok ((paragraph, pairs) ∷ rest)

unfoldable pub exact_sentence_plan :
    Text → List RuntimeChunk → List RuntimeChunk → Raises (List Planned)
unfolding group_sentences piece_by_chunk_id attach_groups
exact_sentence_plan text paragraphs sentences = do
  groups ← group_sentences paragraphs sentences
  pieces ← lifted piece_refused (
      build_exact_reconstruction_pieces text (map chunk_input (ordered_sentences groups)) (pos 0)
        none true)
  attach_groups (piece_by_chunk_id (ordered_sentences groups) pieces []) groups

-- What stands before the next payload.
unfoldable pub reconstruction_separator : Option ℕ → ℕ → Text
reconstruction_separator none paragraph_id = []
reconstruction_separator (some previous) paragraph_id =
    if previous == paragraph_id then 32 ∷ [] else 10 ∷ 10 ∷ []

-- The first chunk whose span ends behind the offset, or else the last one.
unfoldable pub chunk_at : (ℕ × ℕ) → List (ℕ × ℕ) → ℕ → ℕ
chunk_at (id, payload_end) [] offset = id
chunk_at (id, payload_end) (next ∷ spans) offset =
    if ltb offset payload_end then id else chunk_at next spans offset

unfoldable pub chunk_at_offset : List (ℕ × ℕ) → Option ℕ → Option ℕ
unfolding chunk_at
chunk_at_offset [] offset = none
chunk_at_offset (span ∷ spans) none = none
chunk_at_offset (span ∷ spans) (some offset) = some (chunk_at span spans offset)

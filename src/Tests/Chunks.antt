-- ===== src/Tests/Chunks.antt =====
-- One source text of two paragraphs, from the service's answers to the text that is read back.
use vvz_doc_store.Prelude.{
  ℕ, ◌<◌, ◌≡◌, refl, inl, arith, true, none, some, Option, List, [], ◌∷◌, map, pos, ok, err, map_ok,
  length, Distinct, of_some, of_ok,
}
use vvz_doc_store.Text.{Text, slice}
use vvz_doc_store.Text.Words.{split, strip}
use vvz_doc_store.Text.Search.{find, search_words}
use vvz_doc_store.Json.{obj, no_fields}
use vvz_doc_store.Exact.{Piece, merge_piece_metadata, build_exact_reconstruction_pieces}
use vvz_doc_store.Reconstruct.{Row}
use vvz_doc_store.Integrity.{matched, integrity_verdict, reconstructed_scope_text}
use vvz_doc_store.Chunking as Chunking
use vvz_doc_store.Chunking.{
  RuntimeChunk, SemanticChunk, items, RawItem, semantic, other_object, invalid_response, Libraries,
  validate_runtime_chunks, read_items, range_candidates,
}
use vvz_doc_store.Chunking.Wrapper.{codes, Client, Config, answered}
use vvz_doc_store.Chunking.Presets.{
  Value, mapping, listed, text_value, value, no_values, entry, no_entries, contains_text,
  query_supported_presets,
}
use vvz_doc_store.Chunking.Boundary.{
  ChunkingResult, InSequence, boundary_chunk, boundary_chunk-InSequence,
}
use vvz_doc_store.Chunking.Validated.{Read, validate_runtime_chunks-Read}
use vvz_doc_store.Chunking.Accepting.{Offered, validate_runtime_chunks-accepts}
use vvz_doc_store.Sentences.{
  BatchChunker, starts_inside, sort_chunks, sentence_chunks_from_paragraph_batch,
}
use vvz_doc_store.Sentences.Placed.{
  AllChained, Placed, Numbered, SameBatches, Answered, concat,
  sentence_chunks_from_paragraph_batch-Placed,
}
use vvz_doc_store.Plan.{Planned, chunk_input, exact_sentence_plan, chunk_at_offset}
use vvz_doc_store.Plan.Spans.{NamedBy, chunk_at_offset_lem}
use vvz_doc_store.Plan.Total.{zip, uuids, paragraphs_of, pairs_of, sentences_of}
use vvz_doc_store.Plan.Published.{
  chunk_units, WrittenPairs, chunk_units-planned, published-reads_back,
}

-- An identifier is spelled by one character.
abbrev parse : Text → Option ℕ
parse [] = none
parse (c ∷ text) = some c

abbrev libraries : Libraries
libraries = record {
  parse_uuid = parse;
  print_uuid = λ id. id ∷ [];
  uuid_version = λ id. some 4;
  adapt = λ chunk. some (no_fields, chunk);
}

-- "Hi.", two line breaks, and "Yo  u" with two spaces.
abbrev source : Text
source = 72 ∷ 105 ∷ 46 ∷ 10 ∷ 10 ∷ 89 ∷ 111 ∷ 32 ∷ 32 ∷ 117 ∷ []

abbrev hi : Text
hi = 72 ∷ 105 ∷ 46 ∷ []

-- "Yo u", with one space.
abbrev yo_u : Text
yo_u = 89 ∷ 111 ∷ 32 ∷ 117 ∷ []

abbrev source_id : Text
source_id = 7 ∷ []

abbrev offered : ℕ → Text → ℕ → ℕ → SemanticChunk
offered id body start end = record {
  uuid = id ∷ [];
  source_id = some source_id;
  text = none;
  body = some body;
  start = some (pos start);
  end = some (pos end);
  ordinal = none;
}

abbrev made : ℕ → Text → ℕ → ℕ → ℕ → RuntimeChunk
made id text start end ordinal = record {
  uuid = id;
  text = text;
  start = pos start;
  end = pos end;
  ordinal = ordinal;
  metadata = no_fields;
}

-- The second range is wrong, and is found by its words.
abbrev raw_paragraphs : List RawItem
raw_paragraphs = semantic (offered 21 hi 0 3) ∷ semantic (offered 22 yo_u 4 8) ∷ []

abbrev client : Client
client = record {
  chunk = λ text id params. answered (items raw_paragraphs);
  chunk_batch = λ texts id params. answered (
      items (
        items (semantic (offered 31 hi 0 3) ∷ [])
        ∷ items (semantic (offered 32 yo_u 0 4) ∷ [])
        ∷ []));
}

abbrev config : Config
config = record { chunk_sets = λ strategy. none; language = none; project = none }

abbrev paragraph : RuntimeChunk
paragraph = made 21 hi 0 3 0

abbrev paragraphs : List RuntimeChunk
paragraphs = made 22 yo_u 5 10 1 ∷ []

-- The second sentence ends one character early.
abbrev sentences : List RuntimeChunk
sentences = made 31 hi 0 3 0 ∷ made 32 yo_u 5 9 1 ∷ []

validated :
    validate_runtime_chunks libraries (items raw_paragraphs) source source_id
    ≡ ok (paragraph ∷ paragraphs)
unfolding validate_runtime_chunks slice range_candidates find strip search_words split
validated = refl

chunked :
    chunk_units libraries client config source source_id ≡ ok (paragraph ∷ paragraphs, sentences)
unfolding chunk_units slice range_candidates find strip search_words split
chunked = refl

validate_runtime_chunks-Read_example :
    (raw : RawItem) × (raws : List RawItem) × (id : ℕ) × (◌≡◌ {A = Chunking.Answer RawItem}
      (items raw_paragraphs)
      (items (raw ∷ raws)))
    × (libraries.parse_uuid source_id ≡ some id)
    × Read libraries source (libraries.print_uuid id) 0 0 (raw ∷ raws) (paragraph ∷ paragraphs)
validate_runtime_chunks-Read_example =
    validate_runtime_chunks-Read libraries (items raw_paragraphs) source source_id
      (paragraph ∷ paragraphs) validated

-- The service's ranges hold the bodies.
abbrev exact_item : RawItem
exact_item = semantic (offered 21 hi 0 3)

offers : Offered libraries source (7 ∷ []) 0 0 (exact_item ∷ []) (paragraph ∷ [])
unfolding slice
offers = (
  0,
  3,
  record {
    payload = no_fields;
    chunk = offered 21 hi 0 3;
    uuid = 21;
    adapted = refl;
    from_source = refl;
    starts = refl;
    ends = refl;
    behind = omega arith;
    not_empty = omega arith;
    inside = omega arith;
    exact = inl (refl);
    fits = tt;
    identified = refl;
    version = refl;
    is_made = refl;
  },
  tt,
)

validate_runtime_chunks-accepts_example :
    validate_runtime_chunks libraries (items (exact_item ∷ [])) source source_id
    ≡ ok (paragraph ∷ [])
validate_runtime_chunks-accepts_example =
    validate_runtime_chunks-accepts libraries source source_id 7 exact_item [] (paragraph ∷ []) refl
      offers

-- The second item is no chunk.
refused :
    read_items libraries source (7 ∷ []) 0 0 (exact_item ∷ other_object ∷ []) ≡ err invalid_response
unfolding read_items slice range_candidates find strip search_words split
refused = refl

abbrev batches : List (List RuntimeChunk)
batches = (made 31 hi 0 3 0 ∷ []) ∷ (made 32 yo_u 0 4 0 ∷ []) ∷ []

abbrev chunker : BatchChunker
chunker = some (λ texts sources. ok batches)

in_order : AllChained batches
in_order = (
  3,
  (0, 3, refl, refl, omega arith, omega arith, omega arith, tt),
  (4, (0, 4, refl, refl, omega arith, omega arith, omega arith, tt), tt),
)

placed :
    sentence_chunks_from_paragraph_batch chunker (paragraph ∷ paragraphs) source_id ≡ ok sentences
unfolding sentence_chunks_from_paragraph_batch
placed = refl

sentence_chunks_from_paragraph_batch-Placed_example :
    (bs at : List (List RuntimeChunk)) × Answered chunker (paragraph ∷ paragraphs) source_id bs
    × (sentences ≡ concat at)
    × Placed 0 10 (paragraph ∷ paragraphs) at
    × Numbered 0 sentences
    × SameBatches at bs
sentence_chunks_from_paragraph_batch-Placed_example =
    sentence_chunks_from_paragraph_batch-Placed chunker (paragraph ∷ paragraphs) source_id 10
      sentences
      (
        0,
        3,
        refl,
        refl,
        omega arith,
        omega arith,
        omega arith,
        (5, 10, refl, refl, omega arith, omega arith, omega arith, tt),
      )
      (λ f texts sources bs e h.
        of_some (λ g. g texts sources ≡ ok bs → AllChained bs) e
          (λ same. of_ok AllChained same in_order) h)
      placed

distinct : Distinct (uuids sentences)
distinct = (refl, (refl, tt))

chunk_units-planned_example :
    (pieces : List Piece) × (plan : List Planned) × (build_exact_reconstruction_pieces source
        (map chunk_input sentences)
        (pos 0)
        none
        true
      ≡ ok pieces)
    × (exact_sentence_plan source (paragraph ∷ paragraphs) sentences ≡ ok plan)
    × (paragraphs_of plan ≡ paragraph ∷ paragraphs)
    × (pairs_of plan ≡ zip sentences pieces)
    × (length pieces ≡ length sentences)
    × Placed 0 10 (paragraph ∷ paragraphs) (sentences_of plan)
chunk_units-planned_example =
    chunk_units-planned libraries client config source source_id paragraph paragraphs sentences
      chunked distinct

abbrev first_piece : Piece
first_piece = record { gap_before = []; source_text = none; suffix_after = none }

-- The second sentence's range holds "Yo  ", which is not its text.
abbrev second_piece : Piece
second_piece = record {
  gap_before = 10 ∷ 10 ∷ [];
  source_text = some (89 ∷ 111 ∷ 32 ∷ 32 ∷ []);
  suffix_after = some (117 ∷ []);
}

abbrev plan : List Planned
plan =
    (paragraph, (made 31 hi 0 3 0, first_piece) ∷ [])
    ∷ (made 22 yo_u 5 10 1, (made 32 yo_u 5 9 1, second_piece) ∷ [])
    ∷ []

planned : exact_sentence_plan source (paragraph ∷ paragraphs) sentences ≡ ok plan
unfolding exact_sentence_plan build_exact_reconstruction_pieces slice starts_inside sort_chunks
planned = refl

abbrev row : ℕ → ℕ → Text → Piece → Row
row chunk_id paragraph_id text piece = record {
  chunk_id = chunk_id;
  paragraph_id = paragraph_id;
  chapter_id = 6;
  document_id = 7;
  order_index = pos 0;
  paragraph_order_index = pos paragraph_id;
  text = text;
  source_start = none;
  source_end = none;
  source_name = none;
  source_path = none;
  file_id = none;
  chunk_block_meta = obj no_fields;
  text_block_meta = obj (merge_piece_metadata no_fields piece);
}

abbrev rows : List Row
rows = row 41 0 hi first_piece ∷ row 42 1 yo_u second_piece ∷ []

written : WrittenPairs rows (pairs_of plan)
written = (
  record {
    metadata = no_fields;
    unmarked = refl;
    chunk_meta = refl;
    text_meta = refl;
    stored = refl;
  },
  (
    record {
      metadata = no_fields;
      unmarked = refl;
      chunk_meta = refl;
      text_meta = refl;
      stored = refl;
    },
    tt,
  ),
)

published-reads_back_example :
    (reconstructed_scope_text rows ≡ ok source)
    × (map_ok (integrity_verdict source) (reconstructed_scope_text rows)
        ≡ ok (ok (record { outcome = matched; offset = none })))
published-reads_back_example =
    published-reads_back libraries client config source source_id paragraph paragraphs sentences
      chunked distinct plan rows planned written (refl, (refl, tt))

-- A catalogue that the second method names.
abbrev catalogue : List (Option Value)
catalogue =
    none
    ∷ some (
        mapping (
          entry (codes "presets") (listed (value (text_value (codes "technical_text")) no_values))
            no_entries))
    ∷ []

abbrev answered_chunks : ChunkingResult
answered_chunks = record {
  chunks = offered 21 hi 0 3 ∷ [];
  serialized_chunks = no_fields ∷ [];
  preset = codes "technical_text";
  chunk_count = 1;
}

bounded :
    boundary_chunk libraries
      (λ key. key)
      catalogue
      (λ preset. items (exact_item ∷ []))
      source
      none
      none
    ≡ ok answered_chunks
unfolding boundary_chunk strip
bounded = refl

boundary_chunk-InSequence_example :
    (supported : List Text) × (query_supported_presets (λ key. key) catalogue ≡ some supported)
    × (contains_text answered_chunks.preset supported ≡ true)
    × InSequence source 0 0 answered_chunks.chunks
    × (0 < answered_chunks.chunk_count)
    × (answered_chunks.chunk_count ≡ length answered_chunks.chunks)
boundary_chunk-InSequence_example =
    boundary_chunk-InSequence libraries (λ key. key) catalogue (λ preset. items (exact_item ∷ []))
      source none none answered_chunks bounded

chunk_at_offset_lem_example :
    (id : ℕ) × (chunk_at_offset ((41, 3) ∷ (42, 10) ∷ []) (some 4) ≡ some id)
    × NamedBy 4 ((41, 3) ∷ (42, 10) ∷ []) id
chunk_at_offset_lem_example = chunk_at_offset_lem (41, 3) ((42, 10) ∷ []) 4

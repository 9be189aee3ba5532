-- ===== src/Hierarchy.antt =====
-- ingestion/hierarchy_enrichment.py: the chapters, paragraphs and chunks of one source version, and in Hierarchy/Chunks
-- domain/semantic_chunk.py.
pub mod Chunks
pub mod Owned
pub mod Accepted
use vvz_doc_store.Prelude.{
  ℕ, zero, suc, ◌+◌, Bool, true, false, not, ◌&&◌, ◌||◌, Option, none, some, List, [], ◌∷◌, ◌++◌,
  map, ltb, ◌==◌, length, get_elem?, if◌then◌else◌, ℤ, pos, negsuc, pos_part, ltb_ℤ, ok, err, ◌>>=◌,
  ◌>>◌, raise_if,
}
use vvz_doc_store.Text.{Text}
use vvz_doc_store.Text.Words.{is_empty, strip}
use vvz_doc_store.Hierarchy.Chunks.{
  Raises, bad_source, bad_source_version, half_provenance, bad_provenance, no_chunks, no_chapters,
  bad_range, chapters_overlap, no_paragraphs, paragraph_outside, paragraphs_overlap, empty_text,
  no_ownership, indexes_unordered, index_out_of_range, chunk_incomplete, chunk_outside,
  not_owned_once, ChunkSpec, Built, Environment, or_raise, before_all, bad_bounds,
  build_semantic_chunks,
}

pub record ParagraphInput : Type 0 where
  pub text : Text
  pub start : ℤ
  pub end : ℤ
  pub chunk_indexes : List ℤ

pub record ChapterInput : Type 0 where
  pub paragraphs : List ParagraphInput
  pub start : ℤ
  pub end : ℤ

-- What the serializer gives of a chunk; `none` where it is no text or no integer.
pub record Payload : Type 0 where
  pub body : Option Text
  pub start : Option ℤ
  pub end : Option ℤ

pub data SourceVersion : Type 0 where
  text_version : Text → SourceVersion
  number_version : ℤ → SourceVersion
  other_version : SourceVersion

-- The lists that the loops extend, and the number of `uuid4()` calls.
pub record Progress : Type 0 where
  pub calls : ℕ
  pub chapter_ids : List ℕ
  pub paragraph_ids : List ℕ
  pub chunks : List Built
  pub seen_indexes : List ℤ

pub record Aggregate : Type 0 where
  pub document_id : ℕ
  pub chapter_ids : List ℕ
  pub paragraph_ids : List ℕ
  pub chunks : List Built
  pub entity_source : List (ℕ × (ℕ × SourceVersion))

bad_version : SourceVersion → Bool
bad_version (text_version version) = is_empty (strip version)
bad_version (number_version version) = not (ltb_ℤ (pos 0) version)
bad_version other_version = true

abbrev is_given : Option ℕ → Bool
is_given none = false
is_given (some id) = true

-- Neither sorting nor dropping what is repeated changes the indexes.
unfoldable pub is_ascending : List ℤ → Bool
is_ascending [] = true
is_ascending (i ∷ []) = true
is_ascending (i ∷ j ∷ indexes) = ltb_ℤ i j && is_ascending (j ∷ indexes)

unfoldable pub any_outside : ℕ → List ℤ → Bool
any_outside count [] = false
any_outside count (i ∷ indexes) =
    ltb_ℤ i (pos 0) || not (ltb_ℤ i (pos count)) || any_outside count indexes

abbrev no_index : List ℤ → Bool
no_index [] = true
no_index (i ∷ indexes) = false

-- `tuple(range(first, first + count))`
unfoldable pub range_from : ℕ → ℕ → List ℤ
range_from first zero = []
range_from first (suc count) = pos first ∷ range_from (suc first) count

abbrev pub same_indexes : List ℤ → List ℤ → Bool
same_indexes [] [] = true
same_indexes (i ∷ is) (j ∷ js) = not (ltb_ℤ i j) && (not (ltb_ℤ j i) && same_indexes is js)
same_indexes _ _ = false

module _ (env : Environment) where
  abbrev bad_id : Option ℕ → Bool
  bad_id none = false
  bad_id (some id) = not (env.is_uuid4 id)

  unfoldable pub validate_source : ℕ → SourceVersion → Raises (Unit {0})
  unfolding bad_version
  validate_source source_upload_id version = do
    raise_if (not (env.is_uuid4 source_upload_id)) bad_source
    raise_if (bad_version version) bad_source_version

  unfoldable pub validate_provenance : Option ℕ → Option ℕ → Raises (Unit {0})
  validate_provenance (some id) none = err half_provenance
  validate_provenance none (some id) = err half_provenance
  validate_provenance assertion run = do
    raise_if (bad_id assertion) bad_provenance
    raise_if (bad_id run) bad_provenance

  -- The specification of one owned chunk.
  unfoldable pub read_spec : ParagraphInput → ℕ → Payload → Raises ChunkSpec
  read_spec paragraph ordinal payload = do
    body ← or_raise payload.body chunk_incomplete
    start ← or_raise payload.start chunk_incomplete
    finish ← or_raise payload.end chunk_incomplete
    raise_if (ltb_ℤ start paragraph.start || ltb_ℤ paragraph.end finish) chunk_outside
    ok (record { body = body; start = start; end = finish; ordinal = ordinal })

  unfoldable pub read_specs : List Payload → ParagraphInput → ℕ → List ℤ → Raises (List ChunkSpec)
  unfolding read_spec
  read_specs chunks paragraph ordinal [] = ok []
  read_specs chunks paragraph ordinal (i ∷ indexes) = do
    payload ← or_raise (get_elem? chunks (pos_part i)) index_out_of_range
    spec ← read_spec paragraph ordinal payload
    rest ← read_specs chunks paragraph (suc ordinal) indexes
    ok (spec ∷ rest)

  -- The tests on one paragraph.
  unfoldable pub check_paragraph :
      List Payload → ChapterInput → ℤ → ParagraphInput → Raises (Unit {0})
  unfolding bad_bounds
  check_paragraph chunks chapter previous_end paragraph = do
    raise_if (bad_bounds paragraph.start paragraph.end) bad_range
    raise_if (ltb_ℤ paragraph.start chapter.start || ltb_ℤ chapter.end paragraph.end)
        paragraph_outside
    raise_if (ltb_ℤ paragraph.start previous_end) paragraphs_overlap
    raise_if (is_empty paragraph.text) empty_text
    raise_if (no_index paragraph.chunk_indexes) no_ownership
    raise_if (not (is_ascending paragraph.chunk_indexes)) indexes_unordered
    raise_if (any_outside (length chunks) paragraph.chunk_indexes) index_out_of_range

  -- One paragraph of a chapter.
  unfoldable pub enrich_paragraph :
      List Payload → ℕ → ℕ → ChapterInput → ℤ → Progress → ParagraphInput → Raises Progress
  unfolding check_paragraph read_specs build_semantic_chunks
  enrich_paragraph chunks document_id chapter_id chapter previous_end s paragraph = do
    let paragraph_id = env.uuid4 s.calls
    check_paragraph chunks chapter previous_end paragraph
    specs ← read_specs chunks paragraph 0 paragraph.chunk_indexes
    built ←
        build_semantic_chunks env
          (record {
            document_id = document_id;
            chapter_id = chapter_id;
            paragraph_id = paragraph_id;
          })
          (suc s.calls) specs
    ok (record s {
      calls = length specs + suc s.calls;
      paragraph_ids = s.paragraph_ids ++ paragraph_id ∷ [];
      chunks = s.chunks ++ built;
      seen_indexes = s.seen_indexes ++ paragraph.chunk_indexes;
    })

  unfoldable pub enrich_paragraphs :
      List Payload → ℕ → ℕ → ChapterInput → ℤ → Progress → List ParagraphInput → Raises Progress
  unfolding enrich_paragraph
  enrich_paragraphs chunks document_id chapter_id chapter previous_end s [] = ok s
  enrich_paragraphs chunks document_id chapter_id chapter previous_end s (paragraph ∷ paragraphs) =
      do
        next ← enrich_paragraph chunks document_id chapter_id chapter previous_end s paragraph
        enrich_paragraphs chunks document_id chapter_id chapter paragraph.end next paragraphs

  abbrev pub no_paragraph : List ParagraphInput → Bool
  no_paragraph [] = true
  no_paragraph (paragraph ∷ paragraphs) = false

  unfoldable pub enrich_chapters :
      List Payload → ℕ → ℤ → Progress → List ChapterInput → Raises Progress
  unfolding enrich_paragraphs bad_bounds
  enrich_chapters chunks document_id previous_end s [] = ok s
  enrich_chapters chunks document_id previous_end s (chapter ∷ chapters) = do
    raise_if (bad_bounds chapter.start chapter.end) bad_range
    raise_if (ltb_ℤ chapter.start previous_end) chapters_overlap
    raise_if (no_paragraph chapter.paragraphs) no_paragraphs
    let chapter_id = env.uuid4 s.calls
    next ←
        enrich_paragraphs chunks document_id chapter_id chapter before_all
          (record s { calls = suc s.calls; chapter_ids = s.chapter_ids ++ chapter_id ∷ [] })
          chapter.paragraphs
    enrich_chapters chunks document_id chapter.end next chapters

  chunk_uuids : List Built → List ℕ
  chunk_uuids = map (λ (chunk : Built). chunk.uuid)

  unfoldable pub assemble_aggregate : ℕ → SourceVersion → ℕ → Progress → Aggregate
  unfolding chunk_uuids
  assemble_aggregate source_upload_id version document_id s = record {
    document_id = document_id;
    chapter_ids = s.chapter_ids;
    paragraph_ids = s.paragraph_ids;
    chunks = s.chunks;
    entity_source =
        map (λ (id : ℕ). (id, (source_upload_id, version)))
          (document_id ∷ (s.chapter_ids ++ (s.paragraph_ids ++ chunk_uuids s.chunks)));
  }

  abbrev pub no_progress : Progress
  no_progress = record {
    calls = 1;
    chapter_ids = [];
    paragraph_ids = [];
    chunks = [];
    seen_indexes = [];
  }

  abbrev pub no_payload : List Payload → Bool
  no_payload [] = true
  no_payload (payload ∷ payloads) = false

  abbrev pub no_chapter : List ChapterInput → Bool
  no_chapter [] = true
  no_chapter (chapter ∷ chapters) = false

  unfoldable pub enrich_hierarchy :
      ℕ → SourceVersion → Option ℕ → Option ℕ → List ChapterInput → List Payload → Raises Aggregate
  unfolding validate_source validate_provenance enrich_chapters range_from assemble_aggregate
  enrich_hierarchy source_upload_id version assertion run chapters chunks = do
    validate_source source_upload_id version
    validate_provenance assertion run
    raise_if (no_payload chunks) no_chunks
    raise_if (no_chapter chapters) no_chapters
    s ← enrich_chapters chunks (env.uuid4 0) before_all no_progress chapters
    raise_if (not (same_indexes s.seen_indexes (range_from 0 (length chunks)))) not_owned_once
    ok (assemble_aggregate source_upload_id version (env.uuid4 0) s)

-- ===== src/Hierarchy/Chunks.antt =====
-- domain/semantic_chunk.py: the chunks of one paragraph, built and validated.
use vvz_doc_store.Prelude.{
  ℕ, suc, Bool, not, ◌||◌, ◌&&◌, Option, none, some, List, [], ◌∷◌, ◌==◌, ℤ, pos, negsuc, ltb_ℤ,
  contains, Result, ok, err, ◌>>=◌, ◌>>◌, raise_if,
}
use vvz_doc_store.Text.{Text}
use vvz_doc_store.Text.Words.{is_empty}

-- The errors of both modules, one constructor for each message; `refused` is the adapter's own.
pub data HierarchyError : Type 0 where
  bad_source bad_source_version half_provenance bad_provenance no_chunks no_chapters :
      HierarchyError
  bad_range chapters_overlap no_paragraphs paragraph_outside paragraphs_overlap empty_text :
      HierarchyError
  no_ownership indexes_unordered index_out_of_range chunk_incomplete chunk_outside not_owned_once :
      HierarchyError
  no_specs empty_body bad_chunk_range chunks_overlap ordinal_differs not_uuid4 uuid_repeated :
      HierarchyError
  refused other_source other_block other_chapter order_differs : HierarchyError

abbrev pub Raises : Type 0 → Type 0
Raises = Result HierarchyError

pub record ChunkSpec : Type 0 where
  pub body : Text
  pub start : ℤ
  pub end : ℤ
  pub ordinal : ℕ

-- The fields of a `SemanticChunk` that the payload states and the validation reads.
pub record Built : Type 0 where
  pub uuid : ℕ
  pub source_id : ℕ
  pub block_id : ℕ
  pub chapter_id : ℕ
  pub body : Text
  pub ordinal : ℕ
  pub block_index : ℕ
  pub start : Option ℤ
  pub end : Option ℤ

-- What stands outside the repository: `uuid4()` by the number of its call, the version of a UUID, and the chunk that
-- the adapter's factory and its validator make of a payload.
pub record Environment : Type 0 where
  pub uuid4 : ℕ → ℕ
  pub is_uuid4 : ℕ → Bool
  pub construct : Built → Option Built

-- A paragraph in its hierarchy.
pub record Place : Type 0 where
  pub document_id : ℕ
  pub chapter_id : ℕ
  pub paragraph_id : ℕ

abbrev pub or_raise : {A : Type 0} → Option A → HierarchyError → Raises A
or_raise none e = err e
or_raise (some a) e = ok a

-- `previous_end = -1`
abbrev pub before_all : ℤ
before_all = negsuc 0

unfoldable pub bad_bounds : ℤ → ℤ → Bool
bad_bounds start end = ltb_ℤ start (pos 0) || not (ltb_ℤ start end)

unfoldable pub payload_of : Place → ℕ → ChunkSpec → ℕ → Built
payload_of place index spec uuid = record {
  uuid = uuid;
  source_id = place.document_id;
  block_id = place.paragraph_id;
  chapter_id = place.chapter_id;
  body = spec.body;
  ordinal = index;
  block_index = index;
  start = some spec.start;
  end = some spec.end;
}

module _ (env : Environment) where
  unfoldable pub check_place : Place → Raises (Unit {0})
  check_place place =
      raise_if
        (not (
          env.is_uuid4 place.document_id
          && (env.is_uuid4 place.chapter_id && env.is_uuid4 place.paragraph_id)))
        not_uuid4

  -- One specification: its chunk, from the next `uuid4()`.
  unfoldable pub build_chunk : Place → ℕ → ℤ → List ℕ → ℕ → ChunkSpec → Raises Built
  unfolding bad_bounds payload_of
  build_chunk place index previous_end seen calls spec = do
    raise_if (is_empty spec.body) empty_body
    raise_if (bad_bounds spec.start spec.end) bad_chunk_range
    raise_if (ltb_ℤ spec.start previous_end) chunks_overlap
    raise_if (not (spec.ordinal == index)) ordinal_differs
    raise_if (not (env.is_uuid4 (env.uuid4 calls))) not_uuid4
    raise_if (contains (env.uuid4 calls) seen) uuid_repeated
    or_raise (env.construct (payload_of place index spec (env.uuid4 calls))) refused

  -- The loop over the specifications, with the identifiers that were seen.
  unfoldable pub build_loop : Place → ℕ → ℤ → List ℕ → ℕ → List ChunkSpec → Raises (List Built)
  unfolding build_chunk
  build_loop place index previous_end seen calls [] = ok []
  build_loop place index previous_end seen calls (spec ∷ specs) = do
    chunk ← build_chunk place index previous_end seen calls spec
    rest ← build_loop place (suc index) spec.end (env.uuid4 calls ∷ seen) (suc calls) specs
    ok (chunk ∷ rest)

  -- One chunk of `validate_semantic_chunks`, and its end.
  unfoldable pub validate_chunk : Place → ℕ → ℤ → List ℕ → Built → Raises ℤ
  validate_chunk place index previous_end seen chunk = do
    raise_if (not (chunk.source_id == place.document_id)) other_source
    raise_if (not (chunk.block_id == place.paragraph_id)) other_block
    raise_if (not (chunk.chapter_id == place.chapter_id)) other_chapter
    raise_if (not (env.is_uuid4 chunk.uuid)) not_uuid4
    raise_if (contains chunk.uuid seen) uuid_repeated
    raise_if (not (chunk.ordinal == index) || not (chunk.block_index == index)) order_differs
    start ← or_raise chunk.start bad_chunk_range
    finish ← or_raise chunk.end bad_chunk_range
    raise_if (not (ltb_ℤ start finish)) bad_chunk_range
    raise_if (ltb_ℤ start previous_end) chunks_overlap
    ok finish

  unfoldable pub validate_loop : Place → ℕ → ℤ → List ℕ → List Built → Raises (Unit {0})
  unfolding validate_chunk
  validate_loop place index previous_end seen [] = ok tt
  validate_loop place index previous_end seen (chunk ∷ chunks) = do
    finish ← validate_chunk place index previous_end seen chunk
    validate_loop place (suc index) finish (chunk.uuid ∷ seen) chunks

  unfoldable pub build_semantic_chunks : Place → ℕ → List ChunkSpec → Raises (List Built)
  unfolding check_place build_loop validate_loop
  build_semantic_chunks place calls [] = check_place place >> err no_specs
  build_semantic_chunks place calls (spec ∷ specs) = do
    check_place place
    chunks ← build_loop place 0 before_all [] calls (spec ∷ specs)
    validate_loop place 0 before_all [] chunks
    ok chunks

-- ===== src/Chunking.antt =====
-- ingestion/svo_chunking.py: the chunks that an external service returns, validated against their source text.
pub mod Range
pub mod Wrapper
pub mod Presets
pub mod Boundary
pub mod Validated
pub mod Accepting
use vvz_doc_store.Prelude.{
  ℕ, suc, ◌+◌, String, Bool, true, false, not, ◌&&◌, ◌||◌, Option, none, some, List, [], ◌∷◌, ltb,
  leb, ◌==◌, length, drop, if◌then◌else◌, ℤ, pos, ltb_ℤ, Result, ok, err, ◌>>=◌, ◌>>◌, raise_if,
}
use vvz_doc_store.Text.{Text, text_eq, slice, or_default}
use vvz_doc_store.Text.Words.{is_empty, split, strip}
use vvz_doc_store.Text.Search.{find, search_words}
use vvz_doc_store.Json.{Fields}
use mathlib.Core.Option as Option

-- The messages of CHUNKER_CONTRACT_ERROR.
pub data Breach : Type 0 where
  other_source no_integer_range empty_body not_located unordered ordinal_not_sequential not_uuid4 :
      Breach
  batch_lengths outside_paragraph : Breach

-- The codes of `ChunkerError`; `bad_uuid` is the `ValueError` of `UUID(...)`.
pub data ChunkerError : Type 0 where
  invalid_response empty_result unavailable internal_error batch_unavailable unsupported_strategy :
      ChunkerError
  contract_error : Breach → ChunkerError
  bad_uuid : ChunkerError

abbrev pub Raises : Type 0 → Type 0
Raises = Result ChunkerError

pub record RuntimeChunk : Type 0 where
  pub uuid : ℕ
  pub text : Text
  pub start : ℤ
  pub end : ℤ
  pub ordinal : ℕ
  pub metadata : Fields

-- The fields of a `SemanticChunk` that are read; a range bound is `none` if it is no integer.
pub record SemanticChunk : Type 0 where
  pub uuid : Text
  pub source_id : Option Text
  pub text : Option Text
  pub body : Option Text
  pub start : Option ℤ
  pub end : Option ℤ
  pub ordinal : Option ℤ

-- What a service returns: no list, or its items.
pub data Answer (Item : Type 0) : Type 0 where
  not_a_list : Answer Item
  items : List Item → Answer Item

pub data RawItem : Type 0 where
  other_object : RawItem
  semantic : SemanticChunk → RawItem

-- Python's `uuid` and the adapter's serializers: `adapt` is the payload of a chunk, and the chunk that is
-- read from it again.
pub record Libraries : Type 0 where
  pub parse_uuid : Text → Option ℕ
  pub print_uuid : ℕ → Text
  pub uuid_version : ℕ → Option ℕ
  pub adapt : SemanticChunk → Option (Fields × SemanticChunk)

-- `value or default`
abbrev pub or_text : Option Text → Text → Text
or_text none default = default
or_text (some []) default = default
or_text (some (c ∷ value)) default = c ∷ value

holds : Text → List Text → Bool
holds candidate [] = false
holds candidate (value ∷ values) = text_eq candidate value || holds candidate values

-- The loop over the candidates, with the values that were taken before.
take_candidates : List Text → List Text → List Text
unfolding holds
take_candidates values [] = []
take_candidates values (candidate ∷ candidates) =
    if not (is_empty candidate) && not (holds candidate values)
    then candidate ∷ take_candidates (candidate ∷ values) candidates
    else take_candidates values candidates

unfoldable pub range_candidates : Text → Text → List Text
unfolding take_candidates
range_candidates raw_body text_body =
    take_candidates [] (raw_body ∷ text_body ∷ strip raw_body ∷ strip text_body ∷ [])

-- The range that the service gives holds one of the bodies, behind the previous chunk.
unfoldable pub is_exact : Text → ℕ → ℤ → ℤ → Text → Text → Bool
is_exact source previous_end start end raw_body text_body =
    not (ltb_ℤ start (pos 0))
    && ltb_ℤ start end
    && not (ltb_ℤ (pos (length source)) end)
    && not (ltb_ℤ start (pos previous_end))
    && (text_eq (slice source start end) raw_body || text_eq (slice source start end) text_body)

abbrev pub or_else : Option (ℕ × ℕ) → Option (ℕ × ℕ) → Option (ℕ × ℕ)
or_else none other = other
or_else (some found) other = some found

-- The first candidate that is found.
unfoldable pub find_candidate : Text → ℕ → List Text → Option (ℕ × ℕ)
find_candidate source previous_end [] = none
find_candidate source previous_end (candidate ∷ candidates) =
    or_else
      (Option.map (λ (found : ℕ). (found, found + length candidate))
        (find source candidate previous_end))
      (find_candidate source previous_end candidates)

-- The words of the text, however the white space between them is written.
unfoldable pub find_pattern : Text → ℕ → Text → Option (ℕ × ℕ)
find_pattern source previous_end text_body =
    let stripped = strip text_body in
    if is_empty stripped
    then none
    else Option.map (λ (m : ℕ × ℕ). (previous_end + m.0, previous_end + m.1))
        (search_words (split stripped) (drop previous_end source))

abbrev pub natural : ℤ → ℕ
natural (pos n) = n
natural _ = 0

unfoldable pub resolve_runtime_range : Text → ℕ → ℤ → ℤ → Text → Text → Option (ℕ × ℕ)
unfolding is_exact find_candidate find_pattern
resolve_runtime_range source previous_end start end raw_body text_body =
    if is_exact source previous_end start end raw_body text_body
    then some (natural start, natural end)
    else or_else (find_candidate source previous_end (range_candidates raw_body text_body))
        (find_pattern source previous_end text_body)

abbrev ordinal_differs : Option ℤ → ℕ → Bool
ordinal_differs none index = false
ordinal_differs (some z) index = ltb_ℤ z (pos index) || ltb_ℤ (pos index) z

abbrev is_four : Option ℕ → Bool
is_four none = false
is_four (some version) = version == 4

abbrev same_source : Option Text → Text → Bool
same_source none expected = false
same_source (some actual) expected = text_eq actual expected

abbrev pub or_raise : {A : Type 0} → Option A → ChunkerError → Raises A
or_raise none e = err e
or_raise (some a) e = ok a

module _ (libraries : Libraries) where
  -- The tests on a chunk whose range is found.
  unfoldable pub accept_chunk : ℕ → ℕ → Fields → SemanticChunk → Text → ℕ × ℕ → Raises RuntimeChunk
  accept_chunk index previous_end payload chunk body range = do
    raise_if (ltb (range.0) previous_end) (contract_error unordered)
    raise_if (ordinal_differs chunk.ordinal index) (contract_error ordinal_not_sequential)
    uuid ← or_raise (libraries.parse_uuid chunk.uuid) bad_uuid
    raise_if (not (is_four (libraries.uuid_version uuid))) (contract_error not_uuid4)
    ok (record {
      uuid = uuid;
      text = body;
      start = pos (range.0);
      end = pos (range.1);
      ordinal = index;
      metadata = payload;
    })

  -- The tests on the fields, up to the search of the range.
  unfoldable pub read_chunk : Text → Text → ℕ → ℕ → Fields → SemanticChunk → Raises RuntimeChunk
  unfolding resolve_runtime_range accept_chunk
  read_chunk source expected index previous_end payload chunk = do
    let raw_body = or_text chunk.body []
    let body = or_text chunk.text raw_body
    raise_if (not (same_source chunk.source_id expected)) (contract_error other_source)
    start ← or_raise chunk.start (contract_error no_integer_range)
    finish ← or_raise chunk.end (contract_error no_integer_range)
    raise_if (is_empty body) (contract_error empty_body)
    range ←
        or_raise (resolve_runtime_range source previous_end start finish raw_body body)
          (contract_error not_located)
    accept_chunk index previous_end payload chunk body range

  unfoldable pub read_item : Text → Text → ℕ → ℕ → RawItem → Raises RuntimeChunk
  unfolding read_chunk
  read_item source expected index previous_end other_object = err invalid_response
  read_item source expected index previous_end (semantic raw) = do
    adapted ← or_raise (libraries.adapt raw) invalid_response
    read_chunk source expected index previous_end (adapted.0) (adapted.1)

  -- The loop over the items, with the end of the chunk before.
  unfoldable pub read_items : Text → Text → ℕ → ℕ → List RawItem → Raises (List RuntimeChunk)
  unfolding read_item
  read_items source expected index previous_end [] = ok []
  read_items source expected index previous_end (item ∷ rest) = do
    chunk ← read_item source expected index previous_end item
    chunks ← read_items source expected (suc index) (natural chunk.end) rest
    ok (chunk ∷ chunks)

  unfoldable pub validate_runtime_chunks : Answer RawItem → Text → Text → Raises (List RuntimeChunk)
  unfolding read_items
  validate_runtime_chunks not_a_list source source_id = err invalid_response
  validate_runtime_chunks (items []) source source_id = err empty_result
  validate_runtime_chunks (items (item ∷ rest)) source source_id = do
    parsed ← or_raise (libraries.parse_uuid source_id) bad_uuid
    read_items source (libraries.print_uuid parsed) 0 0 (item ∷ rest)

-- ===== src/Chunking/Wrapper.antt =====
-- ingestion/svo_chunking.py: `SvoRuntimeChunker`, the calls of the external service and the errors they raise.
use vvz_doc_store.Prelude.{
  ℕ, String, Bool, true, false, not, ◌&&◌, ◌||◌, Option, none, some, List, [], ◌∷◌, ◌==◌, length,
  if◌then◌else◌, ok, err, ◌>>=◌, ◌>>◌, raise_if,
}
use Prim.Native.Char.{code}
use vvz_doc_store.Text.{Text, text_eq}
use vvz_doc_store.Text.Search.{find_in}
use vvz_doc_store.Chunking.{
  ChunkerError, invalid_response, unavailable, internal_error, batch_unavailable,
  unsupported_strategy, contract_error, batch_lengths, Raises, RuntimeChunk, Answer, not_a_list,
  items, RawItem, Libraries, validate_runtime_chunks,
}

-- The code points of a name.
abbrev pub codes : String → Text
codes String.[] = []
codes (String.◌∷◌ c name) = code c ∷ codes name

pub data Strategy : Type 0 where
  by_paragraph by_sentence semantic_preset other_strategy : Strategy

pub data AggregationMode : Type 0 where
  paragraph_mode sentence_mode : AggregationMode

-- The keyword arguments that depend on the call.
pub record Params : Type 0 where
  pub aggregation_mode : AggregationMode
  pub chunk_set : Option Text
  pub language : Option Text
  pub project : Option Text

pub record Config : Type 0 where
  pub chunk_sets : Strategy → Option Text
  pub language : Option Text
  pub project : Option Text

-- How the service fails: with its own error, a `TimeoutError` or `OSError`, an `AttributeError`, or another
-- exception, by the lower-cased name of its type.
pub data Failure : Type 0 where
  chunker_error : ChunkerError → Failure
  timeout_or_os attribute_error : Failure
  other_exception : Text → Failure

pub data Response (Item : Type 0) : Type 0 where
  failed : Failure → Response Item
  answered : Answer Item → Response Item

-- The service, for one text and for several.
pub record Client : Type 0 where
  pub chunk : Text → Text → Params → Response RawItem
  pub chunk_batch : List Text → Option Text → Params → Response (Answer RawItem)

abbrev default_preset : Text
default_preset = codes "technical_text"

unfoldable pub strategy_params : Strategy → Raises Params
strategy_params by_paragraph = ok (record {
  aggregation_mode = paragraph_mode;
  chunk_set = none;
  language = none;
  project = none;
})
strategy_params by_sentence =
    ok (record {
      aggregation_mode = sentence_mode;
      chunk_set = none;
      language = none;
      project = none;
    })
strategy_params semantic_preset = ok (record {
  aggregation_mode = sentence_mode;
  chunk_set = some default_preset;
  language = none;
  project = none;
})
strategy_params other_strategy = err unsupported_strategy

-- `if value: params[key] = value`
abbrev set_param : Option Text → Option Text → Option Text
set_param (some (c ∷ value)) old = some (c ∷ value)
set_param _ old = old

unfoldable pub with_config : Config → Strategy → Params → Params
with_config config strategy params = record params {
  chunk_set = set_param (config.chunk_sets strategy) params.chunk_set;
  language = set_param config.language params.language;
  project = set_param config.project params.project;
}

abbrev is_found : Option ℕ → Bool
is_found none = false
is_found (some place) = true

unfoldable pub looks_like_connection_error : Text → Bool
looks_like_connection_error name =
    is_found (find_in (codes "timeout") name)
    || is_found (find_in (codes "connection") name)
    || is_found (find_in (codes "connect") name)

-- The `except` clauses that both methods share.
unfoldable pub classify : Failure → ChunkerError
unfolding looks_like_connection_error
classify (chunker_error e) = e
classify timeout_or_os = unavailable
classify attribute_error = internal_error
classify (other_exception name) =
    if looks_like_connection_error name then unavailable else internal_error

-- `chunk_batch` tests for an `AttributeError` first.
unfoldable pub classify_batch : Failure → ChunkerError
unfolding classify
classify_batch attribute_error = batch_unavailable
classify_batch failure = classify failure

unfoldable pub called :
    {Item : Type 0} → (Failure → ChunkerError) → Response Item → Raises (Answer Item)
called handle (failed failure) = err (handle failure)
called handle (answered answer) = ok answer

unfoldable pub all_same : Text → List Text → Bool
all_same first [] = true
all_same first (id ∷ ids) = text_eq first id && all_same first ids

-- The one source identifier, if all are the same.
unfoldable pub common_source : List Text → Option Text
unfolding all_same
common_source [] = none
common_source (first ∷ ids) = if all_same first ids then some first else none

-- `isinstance` and the count of the batches.
unfoldable pub batches_of : ℕ → Answer (Answer RawItem) → Raises (List (Answer RawItem))
batches_of expected not_a_list = err invalid_response
batches_of expected (items batches) = do
  raise_if (not (length batches == expected)) invalid_response
  ok batches

module _ (libraries : Libraries) where
  -- `tuple(... for ... in zip(raw_batches, texts, source_ids, strict=True))`, on lists of one length.
  unfoldable pub validate_batches :
      List (Answer RawItem) → List Text → List Text → Raises (List (List RuntimeChunk))
  unfolding validate_runtime_chunks
  validate_batches (answer ∷ answers) (text ∷ texts) (id ∷ ids) = do
    chunks ← validate_runtime_chunks libraries answer text id
    rest ← validate_batches answers texts ids
    ok (chunks ∷ rest)
  validate_batches _ _ _ = ok []

  module _ (client : Client) (config : Config) where
    unfoldable pub chunk : Text → Strategy → Text → Raises (List RuntimeChunk)
    unfolding validate_runtime_chunks strategy_params with_config called classify
    chunk text strategy source_id = do
      params ← strategy_params strategy
      answer ← called classify (client.chunk text source_id (with_config config strategy params))
      validate_runtime_chunks libraries answer text source_id

    unfoldable pub chunk_batch :
        List Text → Strategy → List Text → Raises (List (List RuntimeChunk))
    unfolding strategy_params with_config called classify_batch common_source batches_of
        validate_batches
    chunk_batch [] strategy [] = ok []
    chunk_batch texts strategy source_ids = do
      raise_if (not (length texts == length source_ids)) (contract_error batch_lengths)
      params ← strategy_params strategy
      answer ←
          called classify_batch (
            client.chunk_batch texts (common_source source_ids)
              (with_config config strategy params))
      batches ← batches_of (length texts) answer
      validate_batches batches texts source_ids

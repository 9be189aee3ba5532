-- ===== src/Lib.antt =====
-- The document store's server (src/doc_store_server): what makes a published source text come back byte for
-- byte.
--
-- A file's text is split into paragraphs and sentences by an external service, whose chunks are checked and
-- located in the text. Publication derives from them the exact
-- pieces (the gap before each chunk, the exact source text where it differs from the stored one, and one
-- final suffix) and stores each in the metadata of its chunk's text. Reconstruction selects the pieces of
-- the rows and joins them, within a bound on the characters; the publication boundary reads the same scope
-- back and compares its bytes with the source.
--
-- Beside the texts, registered objects have a history of assertions over half-open effective intervals. It is
-- append-only: a correction, a deletion or a restoration appends rows that supersede an earlier one, behind a
-- guard that refuses a second accepted row over one instant; a publication appends its source state without that
-- guard. A chunk's text has versions, of which one is current and projected to the text that reconstruction reads.
--
-- The files, paths from src/doc_store_server:
--   Text, Json, Prelude   Python's str, JSON values, dicts and raising code. A text is the list of its code
--                         points, an identifier (a UUID) is a number, an int is a natural number or a ℤ.
--   Exact                 runtime/exact_reconstruction.py: `build_exact_reconstruction_pieces` with its loop
--                         `build_pieces`, `metadata_for_piece`, `merge_piece_metadata`,
--                         `select_exact_reconstruction_piece`, `parse_piece` for `_parse_piece`.
--                         Exact/Build and Exact/Accepted are about the pieces built, Exact/Metadata about the
--                         metadata.
--   Preview               runtime/previews.py.
--   Reconstruct           runtime/text_reconstruction.py: `select_exact_pieces`, and in Reconstruct/Assemble
--                         the loop of `_assemble` as `assemble_text`, whose State holds the loop's variables.
--                         Reconstruct/Roundtrip and the children of Reconstruct/Assemble are proofs.
--   Chunking              ingestion/svo_chunking.py: the chunks of an answer of the external service, read one by one
--                         (`read_items` is the loop of `validate_runtime_chunks`), with the search of their
--                         ranges; Chunking/Wrapper the calls of SvoRuntimeChunker; Chunking/Presets and
--                         Chunking/Boundary SvoChunkingBoundary, with what is proved of it. Chunking/Range,
--                         Chunking/Validated and Chunking/Accepting are proofs.
--   Sentences             ingestion/runtime_boundary.py: the sentences of a batch at their places in the source
--                         (`place_batches`), and the sentences of one paragraph; Sentences/Placed and
--                         Sentences/Grouped are proofs.
--   Plan                  ingestion/publication_repository.py: `exact_sentence_plan`, with the pieces' dict, and
--                         `chunk_at_offset`; Plan/Published has `chunk_units` for `_chunk_units`. Plan/Total, Plan/Spans and
--                         Plan/Published are proofs.
--   Integrity             ingestion/runtime_boundary.py: `reconstructed_scope_text`, `integrity_verdict`, with the
--                         UTF-8 encoding, which a lone surrogate does not have; Integrity/Utf8, Integrity/Scope and Integrity/Difference are proofs.
--   Diagnostic            ingestion/integrity_diagnostics.py: `build_integrity_diagnostic`; `located` is the character
--                         index of a byte offset, `describe` the diagnostic of a request that passed its tests,
--                         `sub_mask` a pattern's substitution. The patterns, the digest and the identifier are
--                         the Environment's. Diagnostic/Disclosure, Diagnostic/Located and Diagnostic/Totality
--                         are its proofs.
--   Hierarchy             ingestion/hierarchy_enrichment.py: `enrich_hierarchy`, whose loops are `enrich_chapters` and
--                         `enrich_paragraphs` over the lists in Progress; Hierarchy/Chunks domain/semantic_chunk.py.
--                         Hierarchy/Owned and Hierarchy/Accepted are proofs.
--   Vectorize             runtime/vectorization.py: `rebuild`, whose loop is `run`; `choose` is a round's selection with
--                         the tests that leave the loop, `persist` the flags that `_persist_vectors` clears.
--                         Vectorize/Counting, Vectorize/Ending, Vectorize/Forever, Vectorize/Left,
--                         Vectorize/Covering and Vectorize/Flags are proofs.
--   Temporal              runtime/temporal_assertions.py: the intervals; Temporal/Table the rows, the guard and
--                         `append`; Temporal/Writes the writes and `split`; Temporal/Deletion `soft_delete`;
--                         Temporal/SourceState the publication's own append, `_append_source_state` of
--                         ingestion/runtime_boundary.py, without the row of source_states.
--                         The State is the table, the registry with each object's kind, and the calls of the
--                         payload callbacks. Temporal/Appending reads the service's writes as guarded
--                         appends; Temporal/Steps has all committed writes, Temporal/Histories the
--                         tables that sequences of them reach,
--                         Temporal/Partition the split intervals, Temporal/Progress and
--                         Temporal/Replacement a correction that succeeds.
--   Versions              runtime/chunk_versions.py: the rows of one chunk, `activate`, `insert_version`;
--                         Versions/Operations the writes of ChunkTextVersionService, with the cascading foreign
--                         key of migrations/versions/0016_semantic_chunk_versions.py as `cascade`, and those of
--                         0017_semantic_chunk_version_lifecycle.py between versions as `release`.
--                         Versions/Coherent, Versions/Numbers, Versions/Keeping and Versions/Losing are proofs.
--   Tests                 runs at concrete data.
--
-- The chunking service, Python's uuid and the adapter of its chunks are parameters: whatever they answer, the
-- theorems hold of the answers that the code accepts. A regular expression of words joined by `\s+` is
-- `search_words`: a word has no white space, so greedy matching needs no way back.
--
-- A ValueError is the `err` of a Result. Loops are recursions on their lists; only the loop of `rebuild` takes fuel,
-- two rounds more than there are documents. A text is a list of code points, lone surrogates included. The SQL
-- queries of the texts are not modelled: their rows are arguments, in the order of the query. A transaction's
-- `now()` and `uuid4()` are given with it; transactions run one after the other, and one that raises leaves
-- the state as it was. An instant is a number of microseconds. Digests, environment
-- variables and the parsing of requests are not modelled.
pub mod Chunking
pub mod Diagnostic
pub mod Exact
pub mod Hierarchy
pub mod Integrity
pub mod Json
pub mod Plan
pub mod Prelude
pub mod Preview
pub mod Reconstruct
pub mod Sentences
pub mod Temporal
pub mod Tests
pub mod Text
pub mod Vectorize
pub mod Versions

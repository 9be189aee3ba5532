-- ===== src/Tests/Texts.antt =====
-- One source text of two chunks, from the publication to the verdict.
use vvz_doc_store.Prelude.{
  ℕ, ◌≤◌, ◌≡◌, ◌⊎◌, refl, inl, arith, true, false, none, some, List, [], ◌∷◌, pos, ok, err, map_ok,
  length, Distinct,
}
use vvz_doc_store.Text.{Text, slice}
use vvz_doc_store.Json.{obj, str, Fields, no_fields, field}
use vvz_doc_store.Exact.{
  slice_mismatch, Piece, ChunkInput, build_exact_reconstruction_pieces, metadata_for_piece,
  merge_piece_metadata, select_exact_reconstruction_piece, or_length,
}
use vvz_doc_store.Exact.Accepted.{InOrder, build_exact_reconstruction_pieces-total}
use vvz_doc_store.Exact.Metadata.{select-merge_piece_metadata}
use vvz_doc_store.Exact.Build.{Rebuilds, build_lem}
use vvz_doc_store.Reconstruct.{Row, Pieces, select_exact_pieces}
use vvz_doc_store.Reconstruct.Assemble.{assemble_text}
use vvz_doc_store.Reconstruct.Assemble.Loop.{clip, Reaches, Exceeds}
use vvz_doc_store.Reconstruct.Assemble.Prefix.{AddsNothing, whole_text, assemble_text_lem}
use vvz_doc_store.Reconstruct.Roundtrip.{Written, ids, build-select}
use vvz_doc_store.Integrity.{
  matched, surrogates_not_allowed, integrity_verdict, reconstructed_scope_text,
}
use vvz_doc_store.Integrity.Scope.{reconstructed_scope_text_lem, publication_matches}
use vvz_doc_store.Integrity.Difference.{Judged, integrity_verdict_lem}

-- "Hi. Yo! "
abbrev source : Text
source = 72 ∷ 105 ∷ 46 ∷ 32 ∷ 89 ∷ 111 ∷ 33 ∷ 32 ∷ []

-- The second chunk's stored text is "yo!".
abbrev chunks : List ChunkInput
chunks =
    record { text = 72 ∷ 105 ∷ 46 ∷ []; source_start = some (pos 0); source_end = some (pos 3) }
    ∷ record { text = 121 ∷ 111 ∷ 33 ∷ []; source_start = some (pos 4); source_end = some (pos 7) }
    ∷ []

abbrev first_piece : Piece
first_piece = record { gap_before = []; source_text = none; suffix_after = none }

abbrev second_piece : Piece
second_piece = record {
  gap_before = 32 ∷ [];
  source_text = some (89 ∷ 111 ∷ 33 ∷ []);
  suffix_after = some (32 ∷ []);
}

abbrev pieces : List Piece
pieces = first_piece ∷ second_piece ∷ []

built : build_exact_reconstruction_pieces source chunks (pos 0) none true ≡ ok pieces
unfolding build_exact_reconstruction_pieces slice
built = refl

refused : build_exact_reconstruction_pieces source chunks (pos 0) none false ≡ err slice_mismatch
unfolding build_exact_reconstruction_pieces slice
refused = refl

abbrev meta : Fields
meta = field "lang" (str (101 ∷ 110 ∷ [])) no_fields

abbrev row : ℕ → ℕ → Text → Piece → Row
row chunk_id order text piece = record {
  chunk_id = chunk_id;
  paragraph_id = 5;
  chapter_id = 6;
  document_id = 7;
  order_index = pos order;
  paragraph_order_index = pos 0;
  text = text;
  source_start = none;
  source_end = none;
  source_name = none;
  source_path = none;
  file_id = none;
  chunk_block_meta = obj meta;
  text_block_meta = obj (merge_piece_metadata meta piece);
}

abbrev rows : List Row
rows = row 11 0 (72 ∷ 105 ∷ 46 ∷ []) first_piece ∷ row 12 1 (121 ∷ 111 ∷ 33 ∷ []) second_piece ∷ []

written : Written rows chunks pieces
written = (
  record { metadata = meta; unmarked = refl; chunk_meta = refl; text_meta = refl; stored = refl },
  (
    record { metadata = meta; unmarked = refl; chunk_meta = refl; text_meta = refl; stored = refl },
    tt,
  ),
)

distinct : Distinct (ids rows)
distinct = (refl, (refl, tt))

abbrev found : Pieces
found = (11, first_piece) ∷ (12, second_piece) ∷ []

selected : select_exact_pieces rows ≡ ok found
unfolding select_exact_pieces merge_piece_metadata metadata_for_piece
selected = refl

publication_matches_example :
    (reconstructed_scope_text rows ≡ ok source)
    × (map_ok (integrity_verdict source) (reconstructed_scope_text rows)
        ≡ ok (ok (record { outcome = matched; offset = none })))
publication_matches_example =
    publication_matches source chunks true pieces rows built written distinct

build-select_example :
    (found' : Pieces) × (select_exact_pieces rows ≡ ok found')
    × (whole_text found' rows ≡ slice source (pos 0) (or_length source none))
build-select_example =
    build-select source chunks (pos 0) none true pieces rows built written distinct

reconstructed_scope_text_lem_example : reconstructed_scope_text rows ≡ ok (whole_text found rows)
reconstructed_scope_text_lem_example = reconstructed_scope_text_lem rows found selected

assemble_text_lem_example :
    let s = assemble_text 160 5 found rows in
    (s.body ≡ clip 5 (whole_text found rows))
    × (s.cursor ≡ length s.body)
    × (s.truncated ≡ false → s.body ≡ whole_text found rows)
    × (s.truncated ≡ true
        → Reaches 5 (whole_text found rows)
          × (Exceeds 5 (whole_text found rows) ⊎ AddsNothing found none rows))
assemble_text_lem_example = assemble_text_lem 160 5 found rows

-- The bound of five characters is reached.
truncated :
    ((assemble_text 160 5 found rows).body ≡ 72 ∷ 105 ∷ 46 ∷ 32 ∷ 89 ∷ [])
    × ((assemble_text 160 5 found rows).truncated ≡ true)
unfolding assemble_text
truncated = (refl, refl)

build_lem_example :
    (a b : ℕ) × (pos 0 ≡ pos a)
    × (or_length source none ≡ pos b)
    × (a ≤ b)
    × (b ≤ length source)
    × Rebuilds source chunks a b pieces
build_lem_example = build_lem source chunks (pos 0) none true pieces built

select-merge_piece_metadata_example :
    select_exact_reconstruction_piece (obj meta) (obj (merge_piece_metadata meta second_piece))
    ≡ ok (some second_piece)
select-merge_piece_metadata_example = select-merge_piece_metadata meta second_piece refl

integrity_verdict_lem_example :
    Judged source (72 ∷ 105 ∷ []) (integrity_verdict source (72 ∷ 105 ∷ []))
integrity_verdict_lem_example = integrity_verdict_lem source (72 ∷ 105 ∷ [])

-- A lone surrogate has no encoding.
no_encoding : integrity_verdict (0xd800 ∷ []) [] ≡ err surrogates_not_allowed
unfolding integrity_verdict
no_encoding = refl

abbrev euro : Text
euro = 0x20ac ∷ []

in_order : InOrder source true 8 0 chunks
in_order = (
  0,
  3,
  refl,
  refl,
  omega arith,
  omega arith,
  omega arith,
  inl refl,
  (4, 7, refl, refl, omega arith, omega arith, omega arith, inl refl, tt),
)

-- The second chunk of the two.
abbrev second_chunk : ChunkInput
second_chunk = record {
  text = 121 ∷ 111 ∷ 33 ∷ [];
  source_start = some (pos 4);
  source_end = some (pos 7);
}

abbrev first_chunk : ChunkInput
first_chunk = record {
  text = 72 ∷ 105 ∷ 46 ∷ [];
  source_start = some (pos 0);
  source_end = some (pos 3);
}

build_exact_reconstruction_pieces-total_example :
    (pieces' : List Piece) × (build_exact_reconstruction_pieces source
        (first_chunk ∷ second_chunk ∷ [])
        (pos 0)
        (some (pos 8))
        true
      ≡ ok pieces')
build_exact_reconstruction_pieces-total_example =
    build_exact_reconstruction_pieces-total source first_chunk (second_chunk ∷ []) 0 8 true
      (omega arith) (omega arith) in_order

-- ===== src/Exact/Metadata.antt =====
-- Metadata of pieces: what is written is what is read.
use text.Mathlib.TextEquality.{eq_iff}
use text.Mathlib.TextPositions.{eq_refl}
use vvz_doc_store.Prelude.{String, ◌≡◌, Option, none, some, arith, ok}
use vvz_doc_store.Json.{Json, obj, Fields, no_fields, field, get, put}
use vvz_doc_store.Exact.{
  Piece, exact_key, metadata_for_piece, merge_piece_metadata, parse_piece, select_from, select_next,
  select_exact_reconstruction_piece,
}

get-put_self : (k : String) (v : Json) (fs : Fields) → get k (put k v fs) ≡ some v
get-put_self k v no_fields = rw eq_refl
get-put_self k v (field j w fs) = ground (arith, eq_iff k j, eq_refl k, get-put_self k v fs)

parse_piece-metadata_for_piece :
    (piece : Piece) → parse_piece (obj (metadata_for_piece piece)) ≡ ok piece
unfolding parse_piece metadata_for_piece
parse_piece-metadata_for_piece piece = ground arith

select_from-absent :
    (metadata : Fields) (selected : Option Piece)
    → get exact_key metadata ≡ none
    → select_from selected (obj metadata) ≡ ok selected
unfolding select_from
select_from-absent metadata selected h = rw (h, select_next)

select_from-present :
    (metadata : Fields) (piece : Piece)
    → get exact_key metadata ≡ some (obj (metadata_for_piece piece))
    → select_from none (obj metadata) ≡ ok (some piece)
unfolding select_from
select_from-present metadata piece h = rw (h, select_next, parse_piece-metadata_for_piece)

-- The piece merged into a chunk's text metadata is the piece selected, if the chunk's own metadata
-- holds none.
pub select-merge_piece_metadata :
    (metadata : Fields) (piece : Piece)
    → get exact_key metadata ≡ none
    → select_exact_reconstruction_piece (obj metadata) (obj (merge_piece_metadata metadata piece))
      ≡ ok (some piece)
unfolding select_exact_reconstruction_piece merge_piece_metadata
select-merge_piece_metadata metadata piece h = rw (select_from-absent metadata none h) (
    select_from-present (merge_piece_metadata metadata piece) piece
      (get-put_self exact_key (obj (metadata_for_piece piece)) metadata))

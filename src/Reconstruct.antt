-- ===== src/Reconstruct.antt =====
-- runtime/text_reconstruction.py: the rows of the current chunks, the choice of their exact pieces, and
-- the assembly of one bounded text with its range map. The rows stand in the order of the query.
pub mod Assemble
pub mod Roundtrip
use vvz_doc_store.Prelude.{
  ℕ, zero, suc, ◌+◌, ◌-◌, min, String, Bool, true, false, not, ◌&&◌, ◌||◌, Option, none, some, List,
  [], ◌∷◌, ◌++◌, map, ◌==◌, ltb, leb, length, take, if◌then◌else◌, ℤ, pos, Result, ok, err, ◌>>=◌,
  ◌>>◌, raise_if, lookup, insert,
}
use vvz_doc_store.Text.{Text}
use vvz_doc_store.Json.{Json, null, obj, arr, nil, Fields, no_fields, field}
use vvz_doc_store.Preview.{chunk_preview}
use vvz_doc_store.Exact.{
  ReconstructionError, mixed_metadata, missing_metadata, one_final_suffix, final_row_missing,
  suffix_not_final, suffix_before_final, Raises, Piece, select_exact_reconstruction_piece,
}

pub record Row : Type 0 where
  pub chunk_id : ℕ
  pub paragraph_id : ℕ
  pub chapter_id : ℕ
  pub document_id : ℕ
  pub order_index : ℤ
  pub paragraph_order_index : ℤ
  pub text : Text
  pub source_start : Option ℤ
  pub source_end : Option ℤ
  pub source_name : Option Text
  pub source_path : Option Text
  pub file_id : Option Text
  pub chunk_block_meta : Json
  pub text_block_meta : Json

abbrev pub Pieces : Type 0
Pieces = List (ℕ × Piece)

unfoldable pub legacy_separator : Option ℕ → ℕ → Text
legacy_separator none paragraph_id = []
legacy_separator (some previous) paragraph_id =
    if paragraph_id == previous then 32 ∷ [] else 10 ∷ 10 ∷ []

-- What the first loop over the rows collects.
pub record Selection : Type 0 where
  pub pieces : Pieces
  pub legacy_rows : ℕ
  pub suffix_rows : ℕ

abbrev pub is_some : Option Text → Bool
is_some none = false
is_some (some text) = true

unfoldable pub count_suffix : Option Text → ℕ → ℕ
count_suffix none n = n
count_suffix (some suffix) n = n + 1

unfoldable pub collect_piece : ℕ → Option Piece → Selection → Selection
unfolding count_suffix
collect_piece chunk_id none s = record s { legacy_rows = s.legacy_rows + 1 }
collect_piece chunk_id (some piece) s = record s {
  pieces = insert chunk_id piece s.pieces;
  suffix_rows = count_suffix piece.suffix_after s.suffix_rows;
}

unfoldable pub collect_pieces : List Row → Selection → Raises Selection
unfolding collect_piece select_exact_reconstruction_piece
collect_pieces [] s = ok s
collect_pieces (row ∷ rows) s = do
  piece ← select_exact_reconstruction_piece row.chunk_block_meta row.text_block_meta
  collect_pieces rows (collect_piece row.chunk_id piece s)

abbrev pub no_selection : Selection
no_selection = record { pieces = []; legacy_rows = 0; suffix_rows = 0 }

-- `pieces[chunk_id].suffix_after is not None`, where the chunk has a piece.
unfoldable pub has_suffix : Pieces → ℕ → Bool
has_suffix pieces chunk_id = elim (lookup chunk_id pieces) [
  | none ↦ false
  | some piece ↦ is_some piece.suffix_after
]

abbrev pub has_piece : Pieces → ℕ → Bool
has_piece pieces chunk_id = elim (lookup chunk_id pieces) [ none ↦ false | some piece ↦ true ]

-- `rows[-1].chunk_id`
abbrev pub final_id : Row → List Row → ℕ
final_id row [] = row.chunk_id
final_id row (next ∷ rows) = final_id next rows

-- Some row before the last one has a suffix.
unfoldable pub suffix_before : Pieces → Row → List Row → Bool
suffix_before pieces row [] = false
suffix_before pieces row (next ∷ rows) =
    has_suffix pieces row.chunk_id || suffix_before pieces next rows

-- The tests behind the loop, in order; without a piece none of them raises.
unfoldable pub check_selection : Selection → List Row → Raises (Unit {0})
unfolding suffix_before has_suffix
check_selection s [] = ok tt
check_selection s (row ∷ rows) = if length s.pieces == 0 then ok tt else (do
  raise_if (not (s.legacy_rows == 0)) mixed_metadata
  raise_if (not (length s.pieces == length (row ∷ rows))) missing_metadata
  raise_if (not (s.suffix_rows == 1)) one_final_suffix
  raise_if (not (has_piece s.pieces (final_id row rows))) final_row_missing
  raise_if (not (has_suffix s.pieces (final_id row rows))) suffix_not_final
  raise_if (suffix_before s.pieces row rows) suffix_before_final)

unfoldable pub select_exact_pieces : List Row → Raises Pieces
unfolding collect_pieces check_selection
select_exact_pieces rows = do
  s ← collect_pieces rows no_selection
  check_selection s rows
  ok s.pieces

-- ===== src/Integrity.antt =====
-- ingestion/runtime_boundary.py: the scope read back after a publication, and the verdict on it.
pub mod Utf8
pub mod Scope
pub mod Difference
use vvz_doc_store.Prelude.{
  ℕ, zero, suc, ◌+◌, Bool, true, false, not, ◌&&◌, ◌||◌, Option, none, some, List, [], ◌∷◌, ◌++◌,
  ◌==◌, ltb, length, if◌then◌else◌, Result, err, ok, ◌>>=◌, ◌>>◌, raise_if, lookup, min, ◌/◌, ◌%◌,
}
use vvz_doc_store.Text.{Text, or_default, text_eq}
use vvz_doc_store.Exact.{
  Raises, Piece, mixed_metadata, missing_metadata, one_final_suffix, suffix_not_final,
}
use vvz_doc_store.Reconstruct.{
  Row, Pieces, Selection, collect_pieces, no_selection, has_suffix, final_id,
}

-- The tests behind the first loop: a missing final piece and a missing suffix raise alike.
unfoldable pub check_scope : Selection → List Row → Raises (Unit {0})
unfolding has_suffix
check_scope s [] = ok tt
check_scope s (row ∷ rows) = if length s.pieces == 0 then ok tt else (do
  raise_if (not (s.legacy_rows == 0)) mixed_metadata
  raise_if (not (length s.pieces == length (row ∷ rows))) missing_metadata
  raise_if (not (s.suffix_rows == 1)) one_final_suffix
  raise_if (not (has_suffix s.pieces (final_id row rows))) suffix_not_final)

-- The separator and the text of one row.
unfoldable pub scope_separator : Option Piece → Option ℕ → ℕ → Text
scope_separator (some piece) previous paragraph_id = piece.gap_before
scope_separator none none paragraph_id = []
scope_separator none (some previous) paragraph_id =
    if paragraph_id == previous then 32 ∷ [] else 10 ∷ 10 ∷ []

unfoldable pub scope_chunk : Option Piece → Text → Text
scope_chunk (some piece) stored = or_default piece.source_text stored
scope_chunk none stored = stored

-- The second loop, its pieces joined.
unfoldable pub scope_text : Pieces → Option ℕ → List Row → Text
unfolding scope_separator scope_chunk
scope_text pieces previous [] = []
scope_text pieces previous (row ∷ rows) =
    let piece = lookup row.chunk_id pieces in
    (scope_separator piece previous row.paragraph_id ++ scope_chunk piece row.text)
    ++ scope_text pieces (some row.paragraph_id) rows

-- `exact_by_chunk[str(rows[-1]["chunk_id"])].suffix_after or ""`, where there are exact pieces.
unfoldable pub scope_suffix : Pieces → List Row → Text
scope_suffix pieces [] = []
scope_suffix pieces (row ∷ rows) = elim (lookup (final_id row rows) pieces) [
  | none ↦ []
  | some piece ↦ or_default piece.suffix_after []
]

unfoldable pub reconstructed_scope_text : List Row → Raises Text
unfolding collect_pieces check_scope scope_text scope_suffix
reconstructed_scope_text rows = do
  s ← collect_pieces rows no_selection
  check_scope s rows
  ok (scope_text s.pieces none rows ++ scope_suffix s.pieces rows)

pub data Outcome : Type 0 where
  matched mismatch length_boundary : Outcome

pub record Verdict : Type 0 where
  pub outcome : Outcome
  pub offset : Option ℕ

-- `while offset < shared and source_bytes[offset] == reconstructed_bytes[offset]: offset += 1`
unfoldable pub shared_prefix : List ℕ → List ℕ → ℕ
shared_prefix [] right = 0
shared_prefix (x ∷ left) [] = 0
shared_prefix (x ∷ left) (y ∷ right) = if x == y then suc (shared_prefix left right) else 0

unfoldable pub compare_bytes : List ℕ → List ℕ → Verdict
unfolding shared_prefix
compare_bytes source reconstructed =
    let shared = min (length source) (length reconstructed) in
    let offset = shared_prefix source reconstructed in
    if offset == shared
    then record { outcome = length_boundary; offset = some shared }
    else record { outcome = mismatch; offset = some offset }

-- One code point in UTF-8.
unfoldable pub encode_char : ℕ → List ℕ
encode_char c =
    if ltb c 0x80
    then c ∷ []
    else if ltb c 0x800
    then (0xc0 + c / 64) ∷ (0x80 + c % 64) ∷ []
    else if ltb c 0x10000
    then (0xe0 + c / 4096) ∷ (0x80 + c / 64 % 64) ∷ (0x80 + c % 64) ∷ []
    else (0xf0 + c / 262144) ∷ (0x80 + c / 4096 % 64) ∷ (0x80 + c / 64 % 64) ∷ (0x80 + c % 64) ∷ []

unfoldable pub utf8 : Text → List ℕ
unfolding encode_char
utf8 [] = []
utf8 (c ∷ text) = encode_char c ++ utf8 text

-- The `UnicodeEncodeError` of a code point that has no encoding.
pub data EncodeError : Type 0 where
  surrogates_not_allowed : EncodeError

unfoldable pub has_surrogate : Text → Bool
has_surrogate [] = false
has_surrogate (c ∷ text) = not (ltb c 0xd800) && ltb c 0xe000 || has_surrogate text

-- `text.encode("utf-8")`
unfoldable pub encode : Text → Result EncodeError (List ℕ)
unfolding utf8 has_surrogate
encode text = if has_surrogate text then err surrogates_not_allowed else ok (utf8 text)

unfoldable pub integrity_verdict : Text → Text → Result EncodeError Verdict
unfolding compare_bytes encode
integrity_verdict source reconstructed =
    if text_eq source reconstructed then ok (record { outcome = matched; offset = none }) else (do
      source_bytes ← encode source
      reconstructed_bytes ← encode reconstructed
      ok (compare_bytes source_bytes reconstructed_bytes))

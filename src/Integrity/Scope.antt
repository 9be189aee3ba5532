-- ===== src/Integrity/Scope.antt =====
-- The scope that is read back, beside the text of the reconstruction service.
use vvz_doc_store.Prelude.{
  ℕ, ◌≡◌, refl, ap, ap₂, ◌∙◌, Bool, Option, none, some, List, [], ◌∷◌, ◌++◌, arith, pos, ok,
  >>=-eq-ok, lookup, Distinct, map_ok, >>-eq-ok,
}
use vvz_doc_store.Text.{Text, slice, cut_whole, text_eq_refl}
use vvz_doc_store.Exact.{Piece, ChunkInput, build_exact_reconstruction_pieces}
use vvz_doc_store.Reconstruct.{
  Row, Pieces, Selection, collect_pieces, no_selection, check_selection, select_exact_pieces,
}
use vvz_doc_store.Reconstruct.Assemble.{separator_of, chunk_text, suffix_of}
use vvz_doc_store.Reconstruct.Assemble.Prefix.{joined, final_suffix, whole_text}
use vvz_doc_store.Reconstruct.Roundtrip.{Written, ids, build-select}
use vvz_doc_store.Integrity.{
  check_scope, scope_separator, scope_chunk, scope_text, scope_suffix, reconstructed_scope_text,
  matched, integrity_verdict,
}

scope_separator-separator_of :
    (piece : Option Piece) (previous : Option ℕ) (paragraph_id : ℕ)
    → scope_separator piece previous paragraph_id ≡ separator_of piece previous paragraph_id
unfolding scope_separator separator_of
scope_separator-separator_of none none paragraph_id = refl
scope_separator-separator_of none (some previous) paragraph_id = refl
scope_separator-separator_of (some piece) previous paragraph_id = refl

scope_chunk-chunk_text :
    (piece : Option Piece) (stored : Text) → scope_chunk piece stored ≡ chunk_text piece stored
unfolding scope_chunk chunk_text
scope_chunk-chunk_text none stored = refl
scope_chunk-chunk_text (some piece) stored = refl

scope_text-joined :
    (pieces : Pieces) (previous : Option ℕ) (rows : List Row)
    → scope_text pieces previous rows ≡ joined pieces previous rows
unfolding scope_text
scope_text-joined pieces previous [] = refl
scope_text-joined pieces previous (row ∷ rows) =
    let piece = lookup row.chunk_id pieces in
    ap₂ ◌++◌
      (ap₂ ◌++◌ (scope_separator-separator_of piece previous row.paragraph_id)
        (scope_chunk-chunk_text piece row.text))
      (scope_text-joined pieces (some row.paragraph_id) rows)

scope_suffix-final_suffix :
    (pieces : Pieces) (rows : List Row) → scope_suffix pieces rows ≡ final_suffix pieces rows
unfolding scope_suffix suffix_of
scope_suffix-final_suffix [] [] = refl
scope_suffix-final_suffix [] (row ∷ rows) = refl
scope_suffix-final_suffix (piece ∷ pieces) [] = refl
scope_suffix-final_suffix (piece ∷ pieces) (row ∷ rows) = ground arith

-- A selection that passes its tests passes the scope's.
check_scope_lem :
    (s : Selection) (rows : List Row) → check_selection s rows ≡ ok tt → check_scope s rows ≡ ok tt
unfolding check_selection check_scope
check_scope_lem s [] h = refl
check_scope_lem s (row ∷ rows) h = ground arith

-- Where the service's selection succeeds, the boundary reads back the service's whole text.
pub reconstructed_scope_text_lem :
    (rows : List Row) (found : Pieces)
    → select_exact_pieces rows ≡ ok found
    → reconstructed_scope_text rows ≡ ok (whole_text found rows)
unfolding select_exact_pieces reconstructed_scope_text
reconstructed_scope_text_lem rows found h =
    let (s, h₁, h₂) = >>=-eq-ok (collect_pieces rows no_selection) _ h in
    let (passes, e) = >>-eq-ok (check_selection s rows) _ h₂ in
    let same : s.pieces ≡ found = cc in
    rw (h₁, check_scope_lem s rows passes)
      (ap ok (
        rw same
          (ap₂ ◌++◌ (scope_text-joined found none rows) (scope_suffix-final_suffix found rows))))

-- After a publication of accepted pieces over a whole source text, with distinct chunk identifiers, the
-- boundary reads the source text back, and the verdict is a match with no offset.
pub publication_matches :
    (source : Text) (chunks : List ChunkInput) (allow : Bool) (pieces : List Piece)
    (rows : List Row)
    → build_exact_reconstruction_pieces source chunks (pos 0) none allow ≡ ok pieces
    → Written rows chunks pieces
    → Distinct (ids rows)
    → (reconstructed_scope_text rows ≡ ok source)
      × (map_ok (integrity_verdict source) (reconstructed_scope_text rows)
          ≡ ok (ok (record { outcome = matched; offset = none })))
unfolding integrity_verdict slice
publication_matches source chunks allow pieces rows built w d =
    let (found, selected, whole) =
      build-select source chunks (pos 0) none allow pieces rows built w d in
    let read : reconstructed_scope_text rows ≡ ok source =
      reconstructed_scope_text_lem rows found selected ∙ ap ok (whole ∙ cut_whole source) in
    (read, rw (read, text_eq_refl))

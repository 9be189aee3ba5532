-- ===== src/Reconstruct/Roundtrip.antt =====
-- What a publication writes for accepted pieces, selected and assembled again.
use vvz_doc_store.Prelude.{
  ℕ, suc, ◌≡◌, refl, ap, ap₂, sym, ◌∙◌, Bool, true, false, Option, none, some, List, [], ◌∷◌, ◌++◌,
  append_assoc, append-nil, arith, length, ℤ, ok, lookup, insert, contains, Distinct, All, subst,
}
use vvz_doc_store.Text.{Text, or_default, slice}
use vvz_doc_store.Json.{obj, Fields, get}
use vvz_doc_store.Exact.{
  Piece, ChunkInput, exact_key, merge_piece_metadata, select_exact_reconstruction_piece, or_length,
  build_exact_reconstruction_pieces,
}
use vvz_doc_store.Exact.Metadata.{select-merge_piece_metadata}
use vvz_doc_store.Exact.Build.{spell, texts, last_suffix, SuffixLast, build_lem}
use vvz_doc_store.Reconstruct.{
  Row, Pieces, has_piece, is_some, collect_pieces, has_suffix, final_id, suffix_before,
  check_selection, select_exact_pieces, count_suffix,
}
use vvz_doc_store.Reconstruct.Assemble.{separator_of, chunk_text, suffix_of}
use vvz_doc_store.Reconstruct.Assemble.Prefix.{joined, whole_text}

-- A row as the publication writes it for a chunk and its piece: the piece goes into the metadata of the
-- chunk's text only.
pub record IsWritten (row : Row) (chunk : ChunkInput) (piece : Piece) : Type 0 where
  pub metadata : Fields
  pub unmarked : get exact_key metadata ≡ none
  pub chunk_meta : row.chunk_block_meta ≡ obj metadata
  pub text_meta : row.text_block_meta ≡ obj (merge_piece_metadata metadata piece)
  pub stored : row.text ≡ chunk.text

abbrev pub Written : List Row → List ChunkInput → List Piece → Type 0
Written [] [] [] = Unit
Written (row ∷ rows) (chunk ∷ chunks) (piece ∷ pieces) =
    IsWritten row chunk piece × Written rows chunks pieces
Written _ _ _ = ⊥

abbrev pub ids : List Row → List ℕ
ids [] = []
ids (row ∷ rows) = row.chunk_id ∷ ids rows

-- Each row's piece is found under its identifier.
abbrev Finds : Pieces → List Row → List Piece → Type 0
Finds found [] [] = Unit
Finds found (row ∷ rows) (piece ∷ pieces) =
    (lookup row.chunk_id found ≡ some piece) × Finds found rows pieces
Finds found _ _ = ⊥

abbrev entries : List Row → List Piece → Pieces
entries (row ∷ rows) (piece ∷ pieces) = (row.chunk_id, piece) ∷ entries rows pieces
entries _ _ = []

-- No row's identifier is a key yet.
abbrev Fresh : Pieces → List Row → Type 0
Fresh found rows = All (λ row. lookup row.chunk_id found ≡ none) rows

lookup-append : (k : ℕ) (d e : Pieces) → lookup k d ≡ none → lookup k (d ++ e) ≡ lookup k e
lookup-append k [] e h = refl
lookup-append k ((j, v) ∷ d) e h = ground (arith, lookup-append k d e)

insert-fresh :
    (k : ℕ) (v : Piece) (d : Pieces) → lookup k d ≡ none → insert k v d ≡ d ++ (k, v) ∷ []
insert-fresh k v [] h = refl
insert-fresh k v ((j, w) ∷ d) h = ground (arith, insert-fresh k v d)

Fresh-snoc :
    (k : ℕ) (v : Piece) (d : Pieces) (rows : List Row)
    → contains k (ids rows) ≡ false
    → Fresh d rows
    → Fresh (d ++ (k, v) ∷ []) rows
Fresh-snoc k v d [] h f = tt
Fresh-snoc k v d (row ∷ rows) h f = (
  rw (lookup-append row.chunk_id d ((k, v) ∷ []) f.0) (ground arith),
  Fresh-snoc k v d rows (ground arith) f.1,
)

Fresh-nil : (rows : List Row) → Fresh [] rows
Fresh-nil [] = tt
Fresh-nil (row ∷ rows) = (refl, Fresh-nil rows)

-- How many of the pieces have a suffix.
abbrev suffixes : List Piece → ℕ → ℕ
suffixes [] n = n
suffixes (piece ∷ pieces) n = suffixes pieces (count_suffix piece.suffix_after n)

select-IsWritten :
    (row : Row) (chunk : ChunkInput) (piece : Piece)
    → IsWritten row chunk piece
    → select_exact_reconstruction_piece row.chunk_block_meta row.text_block_meta ≡ ok (some piece)
select-IsWritten row chunk piece w =
    rw (w.chunk_meta, w.text_meta) (select-merge_piece_metadata w.metadata piece w.unmarked)

collect_pieces-Written :
    (rows : List Row) (chunks : List ChunkInput) (pieces : List Piece) (found : Pieces) (n : ℕ)
    → Written rows chunks pieces
    → Distinct (ids rows)
    → Fresh found rows
    → collect_pieces rows (record { pieces = found; legacy_rows = 0; suffix_rows = n })
      ≡ ok (record {
        pieces = found ++ entries rows pieces;
        legacy_rows = 0;
        suffix_rows = suffixes pieces n;
      })
unfolding collect_pieces
collect_pieces-Written [] [] [] found n w d f = rw append-nil
collect_pieces-Written (row ∷ rows) (chunk ∷ chunks) (piece ∷ pieces) found n w d f =
    let found' = found ++ (row.chunk_id, piece) ∷ [] in
    rw (select-IsWritten row chunk piece w.0, insert-fresh row.chunk_id piece found f.0)
      (collect_pieces-Written rows chunks pieces found' (count_suffix piece.suffix_after n) w.1 d.1
          (Fresh-snoc row.chunk_id piece found rows d.0 f.1)
        ∙ ap
            (λ p. ok (record {
              pieces = p;
              legacy_rows = 0;
              suffix_rows = suffixes pieces (count_suffix piece.suffix_after n);
            }))
            (append_assoc found ((row.chunk_id, piece) ∷ []) (entries rows pieces)))
collect_pieces-Written _ _ _ found n w d f = absurd w

Finds-entries :
    (rows : List Row) (chunks : List ChunkInput) (pieces : List Piece) (found : Pieces)
    → Written rows chunks pieces
    → Distinct (ids rows)
    → Fresh found rows
    → Finds (found ++ entries rows pieces) rows pieces
Finds-entries [] [] [] found w d f = tt
Finds-entries (row ∷ rows) (chunk ∷ chunks) (piece ∷ pieces) found w d f = (
  lookup-append row.chunk_id found ((row.chunk_id, piece) ∷ entries rows pieces) f.0 ∙ ground arith,
  subst (λ p. Finds p rows pieces)
      (append_assoc found ((row.chunk_id, piece) ∷ []) (entries rows pieces))
      (Finds-entries rows chunks pieces (found ++ (row.chunk_id, piece) ∷ []) w.1 d.1
        (Fresh-snoc row.chunk_id piece found rows d.0 f.1)),
)
Finds-entries _ _ _ found w d f = absurd w

length-entries :
    (rows : List Row) (chunks : List ChunkInput) (pieces : List Piece)
    → Written rows chunks pieces
    → length (entries rows pieces) ≡ length rows
length-entries [] [] [] w = refl
length-entries (row ∷ rows) (chunk ∷ chunks) (piece ∷ pieces) w =
    ap suc (length-entries rows chunks pieces w.1)
length-entries _ _ _ w = absurd w

-- With every piece found, the rows' text is what the pieces spell.
joined-spell :
    (rows : List Row) (chunks : List ChunkInput) (pieces : List Piece) (found : Pieces)
    (previous : Option ℕ)
    → Written rows chunks pieces
    → Finds found rows pieces
    → joined found previous rows ≡ spell pieces (texts chunks)
unfolding separator_of chunk_text
joined-spell [] [] [] found previous w f = refl
joined-spell (row ∷ rows) (chunk ∷ chunks) (piece ∷ pieces) found previous w f =
    rw (f.0, w.0.stored)
      (append_assoc piece.gap_before (or_default piece.source_text chunk.text) _
        ∙ ap (λ u. piece.gap_before ++ (or_default piece.source_text chunk.text ++ u))
            (joined-spell rows chunks pieces found (some row.paragraph_id) w.1 f.1))
joined-spell _ _ _ found previous w f = absurd w

-- The final row's piece is the last one.
suffix_of-last :
    (rows : List Row) (pieces : List Piece) (found : Pieces)
    → Finds found rows pieces
    → suffix_of found rows ≡ last_suffix pieces
unfolding suffix_of
suffix_of-last [] [] found f = refl
suffix_of-last (row ∷ []) (piece ∷ []) found f = rw (f.0, suffix_of)
suffix_of-last (row ∷ next ∷ rows) (piece ∷ piece' ∷ pieces) found f =
    suffix_of-last (next ∷ rows) (piece' ∷ pieces) found f.1
suffix_of-last [] (piece ∷ pieces) found f = absurd f
suffix_of-last (row ∷ rows) [] found f = absurd f
suffix_of-last (row ∷ []) (piece ∷ piece' ∷ pieces) found f = absurd f.1
suffix_of-last (row ∷ next ∷ rows) (piece ∷ []) found f = absurd f.1

suffixes-SuffixLast : (pieces : List Piece) → SuffixLast pieces → suffixes pieces 0 ≡ 1
unfolding count_suffix
suffixes-SuffixLast [] one = absurd one
suffixes-SuffixLast (piece ∷ []) one = rw (one.1, count_suffix)
suffixes-SuffixLast (piece ∷ next ∷ pieces) one =
    rw (one.0, count_suffix) (suffixes-SuffixLast (next ∷ pieces) one.1)

-- The tests on the final row and on those before it.
record Ends (found : Pieces) (row : Row) (rows : List Row) : Type 0 where
  piece_there : has_piece found (final_id row rows) ≡ true
  suffix_there : has_suffix found (final_id row rows) ≡ true
  none_before : suffix_before found row rows ≡ false

has_suffix-found :
    (found : Pieces) (k : ℕ) (piece : Piece)
    → lookup k found ≡ some piece
    → has_suffix found k ≡ is_some piece.suffix_after
unfolding has_suffix
has_suffix-found found k piece h = rw (h, has_suffix)

Finds-Ends :
    (row : Row) (rows : List Row) (piece : Piece) (pieces : List Piece) (found : Pieces)
    → Finds found (row ∷ rows) (piece ∷ pieces)
    → SuffixLast (piece ∷ pieces)
    → Ends found row rows
unfolding suffix_before
Finds-Ends row [] piece [] found f one = record {
  piece_there = rw (f.0, has_piece);
  suffix_there = rw (has_suffix-found found row.chunk_id piece f.0, one.1);
  none_before = refl;
}
Finds-Ends row (next ∷ rows) piece (piece' ∷ pieces) found f one =
    let e = Finds-Ends next rows piece' pieces found f.1 one.1 in
    record {
      piece_there = e.piece_there;
      suffix_there = e.suffix_there;
      none_before = rw (has_suffix-found found row.chunk_id piece f.0, one.0) e.none_before;
    }
Finds-Ends row [] piece (piece' ∷ pieces) found f one = absurd f.1
Finds-Ends row (next ∷ rows) piece [] found f one = absurd f.1

check_selection-passes :
    (row : Row) (rows : List Row) (found : Pieces)
    → length found ≡ suc (length rows)
    → Ends found row rows
    → check_selection (record { pieces = found; legacy_rows = 0; suffix_rows = 1 }) (row ∷ rows)
      ≡ ok tt
unfolding check_selection
check_selection-passes row rows found l e =
    rw (l, e.piece_there, e.suffix_there, e.none_before) (ground arith)

-- The selection over written rows succeeds, and the whole text is what their pieces spell.
select-Written_rows :
    (rows : List Row) (chunks : List ChunkInput) (pieces : List Piece)
    → Written rows chunks pieces
    → Distinct (ids rows)
    → SuffixLast pieces
    → (select_exact_pieces rows ≡ ok (entries rows pieces))
      × (whole_text (entries rows pieces) rows ≡ spell pieces (texts chunks) ++ last_suffix pieces)
unfolding select_exact_pieces
select-Written_rows [] [] [] w d one = absurd one
select-Written_rows (row ∷ rows) (chunk ∷ chunks) (piece ∷ pieces) w d one =
    let found = entries (row ∷ rows) (piece ∷ pieces) in
    let finds =
      Finds-entries (row ∷ rows) (chunk ∷ chunks) (piece ∷ pieces) [] w d
        (Fresh-nil (row ∷ rows)) in
    let collected =
      collect_pieces-Written (row ∷ rows) (chunk ∷ chunks) (piece ∷ pieces) [] 0 w d
        (Fresh-nil (row ∷ rows)) in
    (
      rw (collected, suffixes-SuffixLast (piece ∷ pieces) one)
          (rw
            (check_selection-passes row rows found
              (length-entries (row ∷ rows) (chunk ∷ chunks) (piece ∷ pieces) w)
              (Finds-Ends row rows piece pieces found finds one))
            refl),
      ap₂ ◌++◌ (joined-spell (row ∷ rows) (chunk ∷ chunks) (piece ∷ pieces) found none w finds)
          (suffix_of-last (row ∷ rows) (piece ∷ pieces) found finds),
    )
select-Written_rows _ _ _ w d one = absurd w

-- If pieces are built for a scope of a source text and written with distinct chunk identifiers, the
-- selection succeeds, and the whole text of the rows is the scope of the source text.
pub build-select :
    (source : Text) (chunks : List ChunkInput) (scope_start : ℤ) (scope_end? : Option ℤ)
    (allow : Bool) (pieces : List Piece) (rows : List Row)
    → build_exact_reconstruction_pieces source chunks scope_start scope_end? allow ≡ ok pieces
    → Written rows chunks pieces
    → Distinct (ids rows)
    → (found : Pieces) × (select_exact_pieces rows ≡ ok found)
      × (whole_text found rows ≡ slice source scope_start (or_length source scope_end?))
unfolding slice
build-select source chunks scope_start scope_end? allow pieces rows built w d =
    let (a, b, ea, eb, _, _, r) =
      build_lem source chunks scope_start scope_end? allow pieces built in
    let (selected, whole) = select-Written_rows rows chunks pieces w d r.suffix_last in
    (entries rows pieces, selected, whole ∙ r.spelled ∙ sym (ap₂ (λ u v. slice source u v) ea eb))

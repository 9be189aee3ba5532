-- ===== src/Exact/Accepted.antt =====
-- Chunks whose ranges lie in order in their scope.
use vvz_doc_store.Prelude.{
  ℕ, suc, ◌≤◌, ◌≡◌, refl, ap, ◌∙◌, ◌⊎◌, inl, inr, Bool, true, false, Bool-cases, none, some, List,
  [], ◌∷◌, arith, length, ℤ, pos, ok,
}
use vvz_doc_store.Text.{Text, text_eq, text_eq_refl, cut, slice}
use vvz_doc_store.Exact.{
  Piece, ChunkInput, build_piece, range_fails, accept_range, build_pieces, with_suffix, scope_fails,
  build_exact_reconstruction_pieces,
}

-- The chunks' ranges follow one another from `cursor` and end within `stop`; where no override is allowed,
-- each chunk has the text of its range.
abbrev pub InOrder : Text → Bool → ℕ → ℕ → List ChunkInput → Type 0
InOrder source allow stop cursor [] = Unit
InOrder source allow stop cursor (chunk ∷ chunks) =
    (start end : ℕ) × (chunk.source_start ≡ some (pos start))
    × (chunk.source_end ≡ some (pos end))
    × (cursor ≤ start)
    × (start ≤ end)
    × (end ≤ stop)
    × ((allow ≡ true) ⊎ (cut source start end ≡ chunk.text))
    × InOrder source allow stop end chunks

build_piece-ok :
    (source : Text) (allow : Bool) (text : Text) (cursor start end : ℕ)
    → (allow ≡ true) ⊎ (cut source start end ≡ text)
    → (piece : Piece) × (build_piece source allow text (pos cursor) (pos start) (pos end)
        ≡ ok piece)
unfolding build_piece slice
build_piece-ok source allow text cursor start end (inr same) = (
  record {
    gap_before = slice source (pos cursor) (pos start);
    source_text = none;
    suffix_after = none;
  },
  rw (same, text_eq_refl text) refl,
)
build_piece-ok source allow text cursor start end (inl allowed) =
    elim (Bool-cases (text_eq (cut source start end) text)) [
      | inl same ↦ (
        record {
          gap_before = slice source (pos cursor) (pos start);
          source_text = none;
          suffix_after = none;
        },
        rw same refl,
      )
      | inr other ↦ (
        record {
          gap_before = slice source (pos cursor) (pos start);
          source_text = some (slice source (pos start) (pos end));
          suffix_after = none;
        },
        rw (other, allowed) refl,
      )
    ]

range_fails-not :
    (cursor stop start end : ℕ)
    → cursor ≤ start
    → start ≤ end
    → end ≤ stop
    → range_fails (pos cursor) (pos stop) (pos start) (pos end) ≡ false
unfolding range_fails
range_fails-not cursor stop start end a b c = ground arith

module _ (source : Text) (allow : Bool) (stop : ℕ) where
  build_pieces-ok :
      (cursor : ℕ) (chunks : List ChunkInput)
      → InOrder source allow stop cursor chunks
      → (pieces : List Piece) × (last : ℤ) × (build_pieces source allow
            (pos stop)
            (pos cursor)
            chunks
          ≡ ok (pieces, last))
        × (length pieces ≡ length chunks)
  unfolding build_pieces accept_range
  build_pieces-ok cursor [] o = ([], pos cursor, refl, refl)
  build_pieces-ok cursor (chunk ∷ chunks) (start, end, es, ee, a, b, c, same, o) =
      let (piece, built) = build_piece-ok source allow chunk.text cursor start end same in
      let (pieces, last, rest, counted) = build_pieces-ok end chunks o in
      (
        piece ∷ pieces,
        last,
        rw (es, ee, range_fails-not cursor stop start end a b c, built, rest) refl,
        ap suc counted,
      )

with_suffix-ok :
    (suffix : Text) (pieces : List Piece) (n : ℕ)
    → length pieces ≡ suc n
    → (r : List Piece) × (with_suffix suffix pieces ≡ ok r) × (length r ≡ length pieces)
unfolding with_suffix
with_suffix-ok suffix [] n h = absurd (omega arith)
with_suffix-ok suffix (piece ∷ []) n h =
    (record piece { suffix_after = some suffix } ∷ [], refl, refl)
with_suffix-ok suffix (piece ∷ next ∷ pieces) n h =
    let (r, e, counted) = with_suffix-ok suffix (next ∷ pieces) (length pieces) refl in
    (piece ∷ r, rw e refl, ap suc counted)

scope_fails-not :
    (source : Text) (a b : ℕ)
    → a ≤ b
    → b ≤ length source
    → scope_fails source (pos a) (pos b) ≡ false
unfolding scope_fails
scope_fails-not source a b h k = ground arith

-- One piece is built for each chunk.
pub accepted_pieces :
    (source : Text) (chunk : ChunkInput) (chunks : List ChunkInput) (a b : ℕ) (allow : Bool)
    → a ≤ b
    → b ≤ length source
    → InOrder source allow b a (chunk ∷ chunks)
    → (pieces : List Piece) × (build_exact_reconstruction_pieces source
          (chunk ∷ chunks)
          (pos a)
          (some (pos b))
          allow
        ≡ ok pieces)
      × (length pieces ≡ length (chunk ∷ chunks))
unfolding build_exact_reconstruction_pieces
accepted_pieces source chunk chunks a b allow h k o =
    let (pieces, last, built, counted) = build_pieces-ok source allow b a (chunk ∷ chunks) o in
    let (r, e, same) = with_suffix-ok (slice source last (pos b)) pieces (length chunks) counted in
    (r, rw (scope_fails-not source a b h k, built, e) refl, same ∙ counted)

-- For a scope inside the source text and at least one chunk, chunks whose ranges follow one another within the
-- scope are built into pieces, where each chunk has the text of its range or overrides are allowed.
pub build_exact_reconstruction_pieces-total :
    (source : Text) (chunk : ChunkInput) (chunks : List ChunkInput) (a b : ℕ) (allow : Bool)
    → a ≤ b
    → b ≤ length source
    → InOrder source allow b a (chunk ∷ chunks)
    → (pieces : List Piece) × (build_exact_reconstruction_pieces source
          (chunk ∷ chunks)
          (pos a)
          (some (pos b))
          allow
        ≡ ok pieces)
build_exact_reconstruction_pieces-total source chunk chunks a b allow h k o =
    let (pieces, built, counted) = accepted_pieces source chunk chunks a b allow h k o in
    (pieces, built)

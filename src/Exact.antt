-- ===== src/Exact.antt =====
-- runtime/exact_reconstruction.py: the gap before each chunk, the chunk's exact source text where it
-- differs from the stored one, and the suffix after the last chunk.
pub mod Metadata
pub mod Build
pub mod Accepted
use vvz_doc_store.Prelude.{
  ℕ, String, Bool, true, false, not, ◌&&◌, ◌||◌, Option, none, some, List, [], ◌∷◌, ◌==◌, length,
  if◌then◌else◌, ℤ, pos, ltb_ℤ, Result, ok, err, ◌>>=◌, ◌>>◌, raise_if,
}
use vvz_doc_store.Text.{Text, text_eq, slice}
use vvz_doc_store.Json.{Json, null, boolean, num, str, obj, Fields, no_fields, field, get, put}

-- The `ValueError`s of the two reconstruction modules, one constructor for each message.
pub data ReconstructionError : Type 0 where
  scope_outside coordinates_required ranges_not_monotonic slice_mismatch no_chunks :
      ReconstructionError
  not_an_object unsupported_version bad_gap_before bad_suffix_after bad_source_text :
      ReconstructionError
  conflicting_metadata mixed_metadata missing_metadata one_final_suffix : ReconstructionError
  final_row_missing suffix_not_final suffix_before_final negative_max_chars : ReconstructionError

abbrev pub Raises : Type 0 → Type 0
Raises = Result ReconstructionError

pub record Piece : Type 0 where
  pub gap_before : Text
  pub source_text : Option Text
  pub suffix_after : Option Text

pub record ChunkInput : Type 0 where
  pub text : Text
  pub source_start : Option ℤ
  pub source_end : Option ℤ

-- One accepted range of the loop: the piece, or the error of its first failing test.
unfoldable pub build_piece : Text → Bool → Text → ℤ → ℤ → ℤ → Raises Piece
build_piece source allow text cursor start end =
    let chunk_source_text = slice source start end in
    let gap = slice source cursor start in
    if text_eq chunk_source_text text
    then ok (record { gap_before = gap; source_text = none; suffix_after = none })
    else if allow
    then ok (record { gap_before = gap; source_text = some chunk_source_text; suffix_after = none })
    else err slice_mismatch

unfoldable pub range_fails : ℤ → ℤ → ℤ → ℤ → Bool
range_fails cursor scope_end start end =
    ltb_ℤ start cursor || ltb_ℤ end start || ltb_ℤ scope_end end

-- One round: the piece, and the cursor behind it.
unfoldable pub accept_range : Text → Bool → ℤ → ℤ → Text → Option ℤ → Option ℤ → Raises (Piece × ℤ)
unfolding build_piece range_fails
accept_range source allow scope_end cursor text (some start) (some finish) = do
  raise_if (range_fails cursor scope_end start finish) ranges_not_monotonic
  piece ← build_piece source allow text cursor start finish
  ok (piece, finish)
accept_range source allow scope_end cursor text _ _ = err coordinates_required

-- The loop over the chunks, with the cursor behind the last accepted one.
unfoldable pub build_pieces : Text → Bool → ℤ → ℤ → List ChunkInput → Raises (List Piece × ℤ)
unfolding accept_range
build_pieces source allow scope_end cursor [] = ok ([], cursor)
build_pieces source allow scope_end cursor (chunk ∷ chunks) = do
  accepted ←
      accept_range source allow scope_end cursor chunk.text chunk.source_start chunk.source_end
  rest ← build_pieces source allow scope_end accepted.1 chunks
  ok (accepted.0 ∷ rest.0, rest.1)

-- `pieces[-1]` is given the suffix.
unfoldable pub with_suffix : Text → List Piece → Raises (List Piece)
with_suffix suffix [] = err no_chunks
with_suffix suffix (piece ∷ []) = ok (record piece { suffix_after = some suffix } ∷ [])
with_suffix suffix (piece ∷ next ∷ pieces) = do
  rest ← with_suffix suffix (next ∷ pieces)
  ok (piece ∷ rest)

abbrev pub or_length : Text → Option ℤ → ℤ
or_length source none = pos (length source)
or_length source (some scope_end) = scope_end

unfoldable pub scope_fails : Text → ℤ → ℤ → Bool
scope_fails source scope_start scope_end =
    ltb_ℤ scope_start (pos 0)
    || ltb_ℤ scope_end scope_start
    || ltb_ℤ (pos (length source)) scope_end

unfoldable pub build_exact_reconstruction_pieces :
    Text → List ChunkInput → ℤ → Option ℤ → Bool → Raises (List Piece)
unfolding build_pieces with_suffix scope_fails
build_exact_reconstruction_pieces source chunks scope_start scope_end? allow = do
  let scope_end = or_length source scope_end?
  raise_if (scope_fails source scope_start scope_end) scope_outside
  built ← build_pieces source allow scope_end scope_start chunks
  with_suffix (slice source built.1 scope_end) built.0

abbrev pub exact_key : String
exact_key = "doc_store_exact_reconstruction"

optional_text_field : String → Option Text → Fields → Fields
optional_text_field key none fields = fields
optional_text_field key (some value) fields = field key (str value) fields

unfoldable pub metadata_for_piece : Piece → Fields
unfolding optional_text_field
metadata_for_piece piece = field "version" (num 1) (
    field "gap_before" (str piece.gap_before) (
      optional_text_field "source_text" piece.source_text
        (optional_text_field "suffix_after" piece.suffix_after no_fields)))

unfoldable pub merge_piece_metadata : Fields → Piece → Fields
merge_piece_metadata metadata piece = put exact_key (obj (metadata_for_piece piece)) metadata

-- `value.get("version") == 1`: in Python `True == 1` holds too.
is_version : Option Json → Bool
is_version (some (num n)) = n == 1
is_version (some (boolean b)) = b
is_version _ = false

text_field : Option Json → ReconstructionError → Raises Text
text_field (some (str value)) e = ok value
text_field _ e = err e

optional_text : Option Json → ReconstructionError → Raises (Option Text)
optional_text none e = ok none
optional_text (some null) e = ok none
optional_text (some (str value)) e = ok (some value)
optional_text _ e = err e

unfoldable pub parse_piece : Json → Raises Piece
unfolding is_version text_field optional_text
parse_piece (obj value) = do
  raise_if (not (is_version (get "version" value))) unsupported_version
  gap ← text_field (get "gap_before" value) bad_gap_before
  suffix ← optional_text (get "suffix_after" value) bad_suffix_after
  source ← optional_text (get "source_text" value) bad_source_text
  ok (record { gap_before = gap; source_text = source; suffix_after = suffix })
parse_piece _ = err not_an_object

option_text_eq : Option Text → Option Text → Bool
option_text_eq none none = true
option_text_eq (some a) (some b) = text_eq a b
option_text_eq _ _ = false

-- The dataclass's `==`.
unfoldable pub piece_eq : Piece → Piece → Bool
unfolding option_text_eq
piece_eq p q =
    text_eq p.gap_before q.gap_before
    && option_text_eq p.source_text q.source_text
    && option_text_eq p.suffix_after q.suffix_after

conflicts : Option Piece → Piece → Bool
conflicts none piece = false
conflicts (some selected) piece = not (piece_eq selected piece)

-- What the metadata holds under the key, against what was selected before.
select_next : Option Piece → Option Json → Raises (Option Piece)
unfolding conflicts parse_piece piece_eq
select_next selected none = ok selected
select_next selected (some value) = do
  piece ← parse_piece value
  raise_if (conflicts selected piece) conflicting_metadata
  ok (some piece)

-- One round of the loop over the two metadata values.
select_from : Option Piece → Json → Raises (Option Piece)
unfolding select_next
select_from selected (obj metadata) = select_next selected (get exact_key metadata)
select_from selected _ = ok selected

unfoldable pub select_exact_reconstruction_piece : Json → Json → Raises (Option Piece)
unfolding select_from
select_exact_reconstruction_piece chunk_metadata text_metadata = do
  selected ← select_from none chunk_metadata
  select_from selected text_metadata

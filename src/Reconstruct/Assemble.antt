-- ===== src/Reconstruct/Assemble.antt =====
-- `TextReconstructionService._assemble` of runtime/text_reconstruction.py.
pub mod Loop
pub mod Prefix
use vvz_doc_store.Prelude.{
  ℕ, suc, ◌+◌, ◌-◌, min, Bool, true, false, not, ◌&&◌, ◌||◌, Option, none, some, List, [], ◌∷◌,
  ◌++◌, map, ◌==◌, ltb, length, take, if◌then◌else◌, ℤ, pos, negsuc, ok, err, ◌>>=◌, lookup,
}
use vvz_doc_store.Text.{Text, or_default}
use vvz_doc_store.Json.{Json, null, obj, arr, nil, Fields, no_fields, field}
use vvz_doc_store.Preview.{chunk_preview}
use vvz_doc_store.Exact.{Raises, Piece, negative_max_chars}
use vvz_doc_store.Reconstruct.{Row, Pieces, legacy_separator, final_id, select_exact_pieces}

pub record RangeEntry : Type 0 where
  pub chunk_id : ℕ
  pub paragraph_id : ℕ
  pub chapter_id : ℕ
  pub document_id : ℕ
  pub file_id : Option Text
  pub order_index : ℤ
  pub paragraph_order_index : ℤ
  pub text_start : ℕ
  pub text_end : ℕ
  pub source_start : Option ℤ
  pub source_end : Option ℤ
  pub preview : Text

-- The loop's variables; `pieces` is joined already.
pub record State : Type 0 where
  pub body : Text
  pub range_map : List RangeEntry
  pub cursor : ℕ
  pub truncated : Bool
  pub previous : Option ℕ

abbrev pub start : State
start = record { body = []; range_map = []; cursor = 0; truncated = false; previous = none }

unfoldable pub separator_of : Option Piece → Option ℕ → ℕ → Text
unfolding legacy_separator
separator_of none previous paragraph_id = legacy_separator previous paragraph_id
separator_of (some piece) previous paragraph_id = piece.gap_before

unfoldable pub chunk_text : Option Piece → Text → Text
chunk_text none stored = stored
chunk_text (some piece) stored = or_default piece.source_text stored

-- `candidate[:available] if max_chars else candidate`, with `available = max_chars - cursor`.
unfoldable pub emit : ℕ → ℕ → Text → Text
emit max_chars cursor candidate =
    if max_chars == 0 then candidate else take (max_chars - cursor) candidate

-- `if max_chars and available <= 0`
abbrev pub is_full : ℕ → ℕ → Bool
is_full max_chars cursor = not (max_chars == 0) && max_chars - cursor == 0

unfoldable pub range_entry : ℕ → Row → ℕ → ℕ → Text → RangeEntry
range_entry preview_limit row text_start text_end text = record {
  chunk_id = row.chunk_id;
  paragraph_id = row.paragraph_id;
  chapter_id = row.chapter_id;
  document_id = row.document_id;
  file_id = row.file_id;
  order_index = row.order_index;
  paragraph_order_index = row.paragraph_order_index;
  text_start = text_start;
  text_end = text_end;
  source_start = row.source_start;
  source_end = row.source_end;
  preview = chunk_preview preview_limit text;
}

-- The body of the loop for a row that is not refused by a full text.
unfoldable pub take_row : ℕ → ℕ → Row → Text → Text → State → State
unfolding emit range_entry
take_row preview_limit max_chars row separator text s =
    let candidate = separator ++ text in
    let emitted = emit max_chars s.cursor candidate in
    let text_start = s.cursor + min (length separator) (length emitted) in
    let chunk_length = length emitted - length separator in
    let entry = range_entry preview_limit row text_start (text_start + chunk_length) text in
    record {
      body = s.body ++ emitted;
      range_map = if chunk_length == 0 then s.range_map else s.range_map ++ entry ∷ [];
      cursor = s.cursor + length emitted;
      truncated = ltb (length emitted) (length candidate);
      previous = some row.paragraph_id;
    }

-- The loop over the rows, left at once when the text is truncated.
unfoldable pub assemble_rows : ℕ → ℕ → Pieces → List Row → State → State
assemble_rows preview_limit max_chars pieces [] s = s
assemble_rows preview_limit max_chars pieces (row ∷ rows) s =
    let piece = lookup row.chunk_id pieces in
    let s' =
      take_row preview_limit max_chars row (separator_of piece s.previous row.paragraph_id)
        (chunk_text piece row.text) s in
    let rest = assemble_rows preview_limit max_chars pieces rows s' in
    if is_full max_chars s.cursor
    then record s { truncated = true }
    else if s'.truncated
    then s'
    else rest

-- `exact_pieces[rows[-1].chunk_id].suffix_after or ""`
unfoldable pub suffix_of : Pieces → List Row → Text
suffix_of pieces [] = []
suffix_of pieces (row ∷ rows) = elim (lookup (final_id row rows) pieces) [
  | none ↦ []
  | some piece ↦ or_default piece.suffix_after []
]

abbrev pub is_nil {ℓ} : {A : Type ℓ} → List A → Bool
is_nil [] = true
is_nil (x ∷ xs) = false

-- What stands behind the loop: the suffix, within the bound.
unfoldable pub add_suffix : ℕ → Text → State → State
unfolding emit
add_suffix max_chars suffix s =
    let emitted = emit max_chars s.cursor suffix in
    if is_full max_chars s.cursor then record s { truncated = not (is_nil suffix) } else record s {
      body = s.body ++ emitted;
      cursor = s.cursor + length emitted;
      truncated = ltb (length emitted) (length suffix);
    }

unfoldable pub finish : ℕ → Pieces → List Row → State → State
finish max_chars pieces rows s =
    if not (is_nil pieces) && not s.truncated
    then add_suffix max_chars (suffix_of pieces rows) s
    else s

-- The text and its range map, for a bound that is not negative.
unfoldable pub assemble_text : ℕ → ℕ → Pieces → List Row → State
unfolding assemble_rows take_row separator_of chunk_text finish add_suffix suffix_of
assemble_text preview_limit max_chars pieces rows =
    finish max_chars pieces rows (assemble_rows preview_limit max_chars pieces rows start)

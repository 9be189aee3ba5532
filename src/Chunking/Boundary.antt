-- ===== src/Chunking/Boundary.antt =====
-- ingestion/svo_chunking.py: `SvoChunkingBoundary`, one request's chunks under a preset.
use vvz_doc_store.Prelude.{
  ℕ, suc, ◌≡◌, ◌≤◌, ◌<◌, refl, ap, sym, ◌∙◌, Bool, true, false, not, ◌||◌, Option, none, some, List,
  [], ◌∷◌, arith, length, if◌then◌else◌, ℤ, pos, ltb_ℤ, Result, ok, err, ◌>>=◌, ◌>>◌, raise_if,
  raise_if-eq-ok, >>=-eq-ok, of_ok, subst,
}
use vvz_doc_store.Text.{Text}
use vvz_doc_store.Text.Words.{is_empty, strip}
use vvz_doc_store.Json.{Fields}
use vvz_doc_store.Chunking.{
  SemanticChunk, Answer, not_a_list, items, RawItem, other_object, semantic, Libraries,
}
use vvz_doc_store.Chunking.Wrapper.{codes}
use vvz_doc_store.Chunking.Presets.{Value, contains_text, query_supported_presets}

-- The messages of `SvoChunkingError`.
pub data SvoError : Type 0 where
  catalogue_unavailable unsupported_preset foreign_shape empty_collection not_a_chunk
        adapter_failed :
      SvoError
  invalid_range out_of_bounds out_of_order order_not_kept : SvoError

abbrev pub Raises : Type 0 → Type 0
Raises = Result SvoError

pub record ChunkingResult : Type 0 where
  pub chunks : List SemanticChunk
  pub serialized_chunks : List Fields
  pub preset : Text
  pub chunk_count : ℕ

-- The preset of a request, if it is not blank.
unfoldable pub request_preset : Option Text → Option Text
request_preset none = none
request_preset (some preset) = if is_empty (strip preset) then none else some (strip preset)

-- `preset if preset is not None else _request_preset(request)`, and `requested or DEFAULT_PRESET`.
unfoldable pub selected_preset : Option Text → Option Text → Text
unfolding request_preset
selected_preset (some (c ∷ preset)) requested = c ∷ preset
selected_preset (some []) requested = codes "technical_text"
selected_preset none requested = elim (request_preset requested) [
  | none ↦ codes "technical_text"
  | some preset ↦ preset
]

abbrev pub or_raise : {A : Type 0} → Option A → SvoError → Raises A
or_raise none e = err e
or_raise (some a) e = ok a

abbrev differs : Option ℤ → ℕ → Bool
differs none index = false
differs (some z) index = ltb_ℤ z (pos index) || ltb_ℤ (pos index) z

unfoldable pub is_outside : Text → ℤ → ℤ → Bool
is_outside source start end =
    ltb_ℤ start (pos 0) || not (ltb_ℤ start end) || ltb_ℤ (pos (length source)) end

module _ (libraries : Libraries) where
  -- One item: the payload and the chunk, and where it ends.
  unfoldable pub check_item : Text → ℕ → ℤ → RawItem → Raises (Fields × SemanticChunk × ℤ)
  unfolding is_outside
  check_item source index previous_end other_object = err not_a_chunk
  check_item source index previous_end (semantic raw) = do
    adapted ← or_raise (libraries.adapt raw) adapter_failed
    start ← or_raise (adapted.1).start invalid_range
    finish ← or_raise (adapted.1).end invalid_range
    raise_if (is_outside source start finish) out_of_bounds
    raise_if (ltb_ℤ start previous_end) out_of_order
    raise_if (differs (adapted.1).ordinal index) order_not_kept
    ok (adapted.0, adapted.1, finish)

  unfoldable pub check_items :
      Text → ℕ → ℤ → List RawItem → Raises (List SemanticChunk × List Fields)
  unfolding check_item
  check_items source index previous_end [] = ok ([], [])
  check_items source index previous_end (item ∷ rest) = do
    one ← check_item source index previous_end item
    others ← check_items source (suc index) (one.2) rest
    ok (one.1 ∷ others.0, one.0 ∷ others.1)

  unfoldable pub validate_result : Answer RawItem → Text → Raises (List SemanticChunk × List Fields)
  unfolding check_items
  validate_result not_a_list source = err foreign_shape
  validate_result (items []) source = err empty_collection
  validate_result (items (item ∷ rest)) source = check_items source 0 (pos 0) (item ∷ rest)

  -- The client's catalogue methods and its `chunk` under a preset are parameters.
  module _ (normalized : Text → Text) (catalogue : List (Option Value))
      (answers : Text → Answer RawItem) where
    unfoldable pub boundary_chunk : Text → Option Text → Option Text → Raises ChunkingResult
    unfolding query_supported_presets selected_preset validate_result
    boundary_chunk source request preset = do
      supported ← or_raise (query_supported_presets normalized catalogue) catalogue_unavailable
      let selected = selected_preset preset request
      raise_if (not (contains_text selected supported)) unsupported_preset
      chunks ← validate_result (answers selected) source
      ok (record {
        chunks = chunks.0;
        serialized_chunks = chunks.1;
        preset = selected;
        chunk_count = length (chunks.0);
      })

-- Integer ranges that are not empty, in order from `cursor` and inside the source, with ordinals that fit.
abbrev pub InSequence : Text → ℕ → ℕ → List SemanticChunk → Type 0
InSequence source index cursor [] = Unit
InSequence source index cursor (chunk ∷ chunks) =
    (start end : ℕ) × (chunk.start ≡ some (pos start))
    × (chunk.end ≡ some (pos end))
    × (cursor ≤ start)
    × (start < end)
    × (end ≤ length source)
    × (differs chunk.ordinal index ≡ false)
    × InSequence source (suc index) end chunks

or_raise-eq-ok :
    {A : Type 0} (o : Option A) (e : SvoError) {a : A} → or_raise o e ≡ ok a → o ≡ some a
or_raise-eq-ok none e h = cc
or_raise-eq-ok (some x) e h = cc

bounds :
    (source : Text) (cursor : ℕ) (start end : ℤ)
    → is_outside source start end ≡ false
    → ltb_ℤ start (pos cursor) ≡ false
    → (a b : ℕ) × (start ≡ pos a) × (end ≡ pos b) × (cursor ≤ a) × (a < b) × (b ≤ length source)
unfolding is_outside
bounds source cursor (pos a) (pos b) h k =
    (a, b, refl, refl, ground arith, ground arith, ground arith)
bounds source cursor (pos a) (ℤ.negsuc b) h k = absurd (ground arith)
bounds source cursor (ℤ.negsuc a) end h k = absurd (ground arith)

module _ (libraries : Libraries) (source : Text) where
  check_items-InSequence :
      (index cursor : ℕ) (raws : List RawItem) (chunks : List SemanticChunk)
      (payloads : List Fields)
      → check_items libraries source index (pos cursor) raws ≡ ok (chunks, payloads)
      → InSequence source index cursor chunks × (length chunks ≡ length raws)
  unfolding check_items check_item
  check_items-InSequence index cursor [] chunks payloads h =
      of_ok
        (λ (r : List SemanticChunk × List Fields).
          InSequence source index cursor r.0 × (length (r.0) ≡ 0))
        h (tt, refl)
  check_items-InSequence index cursor (other_object ∷ raws) chunks payloads h = absurd (cc)
  check_items-InSequence index cursor (semantic raw ∷ raws) chunks payloads h =
      let (one, e₁, h₁) =
        >>=-eq-ok (check_item libraries source index (pos cursor) (semantic raw)) _ h in
      let (others, e₂, h₂) =
        >>=-eq-ok (check_items libraries source (suc index) (one.2) raws) _ h₁ in
      let (adapted, a₁, r₁) = >>=-eq-ok (or_raise (libraries.adapt raw) adapter_failed) _ e₁ in
      let (start, a₂, r₂) = >>=-eq-ok (or_raise (adapted.1).start invalid_range) _ r₁ in
      let (finish, a₃, r₃) = >>=-eq-ok (or_raise (adapted.1).end invalid_range) _ r₂ in
      let (inside, r₄) = raise_if-eq-ok (is_outside source start finish) out_of_bounds _ r₃ in
      let (later, r₅) = raise_if-eq-ok (ltb_ℤ start (pos cursor)) out_of_order _ r₄ in
      let (fits, r₆) = raise_if-eq-ok (differs (adapted.1).ordinal index) order_not_kept _ r₅ in
      let (a, b, sa, sb, i, j, k) = bounds source cursor start finish inside later in
      let same =
        of_ok (λ (r : Fields × SemanticChunk × ℤ). (r.1 ≡ adapted.1) × (r.2 ≡ finish)) r₆
          (refl, refl) in
      let rest =
        subst (λ z. check_items libraries source (suc index) z raws ≡ ok others) (same.1 ∙ sb) e₂ in
      let (seq, counted) = check_items-InSequence (suc index) b raws (others.0) (others.1) rest in
      of_ok
        (λ (r : List SemanticChunk × List Fields).
          InSequence source index cursor r.0 × (length (r.0) ≡ suc (length raws)))
        h₂
        (
          (
            a,
            b,
            ap (λ (c : SemanticChunk). c.start) same.0
                ∙ or_raise-eq-ok (adapted.1).start invalid_range a₂
                ∙ ap some sa,
            ap (λ (c : SemanticChunk). c.end) same.0
                ∙ or_raise-eq-ok (adapted.1).end invalid_range a₃
                ∙ ap some sb,
            i,
            j,
            k,
            subst (λ (c : SemanticChunk). differs c.ordinal index ≡ false) (sym same.0) fits,
            seq,
          ),
          ap suc counted,
        )

validate_result-InSequence :
    (libraries : Libraries) (answer : Answer RawItem) (source : Text) (chunks : List SemanticChunk)
    (payloads : List Fields)
    → validate_result libraries answer source ≡ ok (chunks, payloads)
    → InSequence source 0 0 chunks × (0 < length chunks)
unfolding validate_result
validate_result-InSequence libraries not_a_list source chunks payloads h = absurd (cc)
validate_result-InSequence libraries (items []) source chunks payloads h = absurd (cc)
validate_result-InSequence libraries (items (raw ∷ raws)) source chunks payloads h =
    let (seq, counted) =
      check_items-InSequence libraries source 0 0 (raw ∷ raws) chunks payloads h in
    (seq, omega arith)

-- A request that is answered has a preset that the service's catalogue names, and at least one chunk; the
-- chunks have integer ranges that are not empty, follow one another and lie inside the source text, their ordinals
-- fit, and they are counted.
pub boundary_chunk-InSequence :
    (libraries : Libraries) (normalized : Text → Text) (catalogue : List (Option Value))
    (answers : Text → Answer RawItem) (source : Text) (request preset : Option Text)
    (r : ChunkingResult)
    → boundary_chunk libraries normalized catalogue answers source request preset ≡ ok r
    → (supported : List Text) × (query_supported_presets normalized catalogue ≡ some supported)
      × (contains_text r.preset supported ≡ true)
      × InSequence source 0 0 r.chunks
      × (0 < r.chunk_count)
      × (r.chunk_count ≡ length r.chunks)
unfolding boundary_chunk
boundary_chunk-InSequence libraries normalized catalogue answers source request preset r h =
    let selected = selected_preset preset request in
    let (supported, e₁, h₁) =
      >>=-eq-ok (or_raise (query_supported_presets normalized catalogue) catalogue_unavailable) _
        h in
    let (named, h₂) =
      raise_if-eq-ok (not (contains_text selected supported)) unsupported_preset _ h₁ in
    let (chunks, e₃, h₃) = >>=-eq-ok (validate_result libraries (answers selected) source) _ h₂ in
    let (seq, some_chunk) =
      validate_result-InSequence libraries (answers selected) source (chunks.0) (chunks.1) e₃ in
    of_ok
      (λ (x : ChunkingResult).
        (s : List Text) × (query_supported_presets normalized catalogue ≡ some s)
        × (contains_text x.preset s ≡ true)
        × InSequence source 0 0 x.chunks
        × (0 < x.chunk_count)
        × (x.chunk_count ≡ length x.chunks))
      h₃
      (
        supported,
        or_raise-eq-ok (query_supported_presets normalized catalogue) catalogue_unavailable e₁,
        ground (arith, named),
        seq,
        some_chunk,
        refl,
      )

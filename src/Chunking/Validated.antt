-- ===== src/Chunking/Validated.antt =====
-- ingestion/svo_chunking.py: what a validated list of chunks is.
use vvz_doc_store.Prelude.{
  ℕ, suc, ◌≡◌, refl, ap, false, not, Option, none, some, List, [], ◌∷◌, arith, ltb, ℤ, pos, ok,
  >>=-eq-ok, raise_if-eq-ok, of_ok, subst,
}
use vvz_doc_store.Text.{Text, text_eq_sound}
use vvz_doc_store.Text.Words.{is_empty}
use vvz_doc_store.Chunking.{
  ChunkerError, contract_error, other_source, no_integer_range, empty_body, not_located, unordered,
  ordinal_not_sequential, not_uuid4, invalid_response, bad_uuid, RuntimeChunk, SemanticChunk,
  Answer, items, not_a_list, RawItem, semantic, other_object, Libraries, or_text, or_raise, natural,
  resolve_runtime_range, accept_chunk, read_chunk, read_item, read_items, validate_runtime_chunks,
  same_source, ordinal_differs, is_four,
}
use vvz_doc_store.Chunking.Range.{IsLocated, resolve_runtime_range-IsLocated}

pub or_raise-eq-ok :
    {A : Type 0} (o : Option A) (e : ChunkerError) {a : A} → or_raise o e ≡ ok a → o ≡ some a
or_raise-eq-ok none e h = cc
or_raise-eq-ok (some x) e h = cc

-- An ordinal that the service leaves out, or the place of the item.
abbrev pub FitsOrdinal : Option ℤ → ℕ → Type 0
FitsOrdinal none index = Unit
FitsOrdinal (some z) index = z ≡ pos index

module _ (libraries : Libraries) (source expected : Text) where
  -- The chunk that an item becomes, behind the chunk that ends at `previous_end`.
  pub record IsRead (index previous_end : ℕ) (raw : SemanticChunk) (made : RuntimeChunk)
      (start end : ℕ) : Type 0 where
    pub chunk : SemanticChunk
    pub adapted : libraries.adapt raw ≡ some (made.metadata, chunk)
    pub from_source : chunk.source_id ≡ some expected
    pub body : made.text ≡ or_text chunk.text (or_text chunk.body [])
    pub has_body : is_empty made.text ≡ false
    pub starts : made.start ≡ pos start
    pub ends : made.end ≡ pos end
    pub located : IsLocated source previous_end (or_text chunk.body []) made.text start end
    pub numbered : made.ordinal ≡ index
    pub fits : FitsOrdinal chunk.ordinal index
    pub identified : libraries.parse_uuid chunk.uuid ≡ some made.uuid
    pub version : libraries.uuid_version made.uuid ≡ some 4

  -- Every item is a chunk, read behind the chunk before it.
  abbrev pub Read : ℕ → ℕ → List RawItem → List RuntimeChunk → Type 0
  Read index previous_end [] [] = Unit
  Read index previous_end (semantic raw ∷ rest) (made ∷ chunks) =
      (start end : ℕ) × IsRead index previous_end raw made start end
      × Read (suc index) end rest chunks
  Read index previous_end _ _ = ⊥

same_source-eq :
    (o : Option Text) (expected : Text) → not (same_source o expected) ≡ false → o ≡ some expected
same_source-eq none expected h = cc
same_source-eq (some actual) expected h = ap some (text_eq_sound actual expected (ground arith))

ordinal_differs-Fits :
    (o : Option ℤ) (index : ℕ) → ordinal_differs o index ≡ false → FitsOrdinal o index
ordinal_differs-Fits none index h = tt
ordinal_differs-Fits (some z) index h = ground arith

is_four-eq : (o : Option ℕ) → not (is_four o) ≡ false → o ≡ some 4
is_four-eq none h = cc
is_four-eq (some n) h = ground arith

module _ (libraries : Libraries) (source expected : Text) where
  read_item-IsRead :
      (index previous_end : ℕ) (raw : SemanticChunk) (made : RuntimeChunk)
      → read_item libraries source expected index previous_end (semantic raw) ≡ ok made
      → (start end : ℕ) × IsRead libraries source expected index previous_end raw made start end
  unfolding read_item read_chunk accept_chunk
  read_item-IsRead index previous_end raw made h =
      let ((payload, chunk), e₁, h₁) =
        >>=-eq-ok (or_raise (libraries.adapt raw) invalid_response) _ h in
      let raw_body = or_text chunk.body [] in
      let body = or_text chunk.text raw_body in
      let (s, h₂) =
        raise_if-eq-ok (not (same_source chunk.source_id expected)) (contract_error other_source) _
          h₁ in
      let (a, e₃, h₃) = >>=-eq-ok (or_raise chunk.start (contract_error no_integer_range)) _ h₂ in
      let (b, e₄, h₄) = >>=-eq-ok (or_raise chunk.end (contract_error no_integer_range)) _ h₃ in
      let (full, h₅) = raise_if-eq-ok (is_empty body) (contract_error empty_body) _ h₄ in
      let ((start, end), e₆, h₆) =
        >>=-eq-ok
          (or_raise (resolve_runtime_range source previous_end a b raw_body body)
            (contract_error not_located))
          _ h₅ in
      let (later, h₇) = raise_if-eq-ok (ltb start previous_end) (contract_error unordered) _ h₆ in
      let (same, h₈) =
        raise_if-eq-ok (ordinal_differs chunk.ordinal index) (contract_error ordinal_not_sequential)
          _ h₇ in
      let (uuid, e₉, h₉) = >>=-eq-ok (or_raise (libraries.parse_uuid chunk.uuid) bad_uuid) _ h₈ in
      let (four, h₁₀) =
        raise_if-eq-ok (not (is_four (libraries.uuid_version uuid))) (contract_error not_uuid4) _
          h₉ in
      (
        start,
        end,
        of_ok (λ m. IsRead libraries source expected index previous_end raw m start end) h₁₀
            (record {
              chunk = chunk;
              adapted = or_raise-eq-ok (libraries.adapt raw) invalid_response e₁;
              from_source = same_source-eq chunk.source_id expected s;
              body = refl;
              has_body = full;
              starts = refl;
              ends = refl;
              located =
                  resolve_runtime_range-IsLocated source previous_end raw_body body a b start end (
                    or_raise-eq-ok (resolve_runtime_range source previous_end a b raw_body body)
                      (contract_error not_located) e₆);
              numbered = refl;
              fits = ordinal_differs-Fits chunk.ordinal index same;
              identified = or_raise-eq-ok (libraries.parse_uuid chunk.uuid) bad_uuid e₉;
              version = is_four-eq (libraries.uuid_version uuid) four;
            }),
      )

  read_items-Read :
      (index previous_end : ℕ) (raws : List RawItem) (chunks : List RuntimeChunk)
      → read_items libraries source expected index previous_end raws ≡ ok chunks
      → Read libraries source expected index previous_end raws chunks
  unfolding read_items read_item
  read_items-Read index previous_end [] [] h = tt
  read_items-Read index previous_end [] (made ∷ chunks) h = cc
  read_items-Read index previous_end (other_object ∷ raws) chunks h = cc
  read_items-Read index previous_end (semantic raw ∷ raws) chunks h =
      let (made, e₁, h₁) =
        >>=-eq-ok (read_item libraries source expected index previous_end (semantic raw)) _ h in
      let (rest, e₂, h₂) =
        >>=-eq-ok (read_items libraries source expected (suc index) (natural made.end) raws) _ h₁ in
      let (start, end, r) = read_item-IsRead index previous_end raw made e₁ in
      let behind : Read libraries source expected (suc index) end raws rest =
        subst (λ k. Read libraries source expected (suc index) k raws rest) (ap natural r.ends)
          (read_items-Read (suc index) (natural made.end) raws rest e₂) in
      of_ok (λ cs. Read libraries source expected index previous_end (semantic raw ∷ raws) cs) h₂
        (start, end, r, behind)

-- Chunks that are returned are one for each item of a list that is not empty: each has the words of its item at a
-- range that is not empty, lies behind the range before it and inside the source text, and has its place as
-- ordinal, a version 4 identifier and the source's identifier.
pub validate_runtime_chunks-Read :
    (libraries : Libraries) (answer : Answer RawItem) (source source_id : Text)
    (chunks : List RuntimeChunk)
    → validate_runtime_chunks libraries answer source source_id ≡ ok chunks
    → (raw : RawItem) × (raws : List RawItem) × (id : ℕ) × (answer ≡ items (raw ∷ raws))
      × (libraries.parse_uuid source_id ≡ some id)
      × Read libraries source (libraries.print_uuid id) 0 0 (raw ∷ raws) chunks
unfolding validate_runtime_chunks
validate_runtime_chunks-Read libraries not_a_list source source_id chunks h = cc
validate_runtime_chunks-Read libraries (items []) source source_id chunks h = cc
validate_runtime_chunks-Read libraries (items (raw ∷ raws)) source source_id chunks h =
    let (id, e, h₁) = >>=-eq-ok (or_raise (libraries.parse_uuid source_id) bad_uuid) _ h in
    (
      raw,
      raws,
      id,
      refl,
      or_raise-eq-ok (libraries.parse_uuid source_id) bad_uuid e,
      read_items-Read libraries source (libraries.print_uuid id) 0 0 (raw ∷ raws) chunks h₁,
    )

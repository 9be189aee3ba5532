-- ===== src/Hierarchy/Owned.antt =====
-- ingestion/hierarchy_enrichment.py: the chunks that a paragraph owns.
use vvz_doc_store.Prelude.{
  Bool, ℕ, suc, ◌≡◌, refl, ap, false, not, ◌||◌, Option, none, some, List, [], ◌∷◌, arith, length,
  ◌==◌, get_elem?, ℤ, pos, pos_part, ltb_ℤ, ltb_ℤ-false, ◌≤ℤ◌, ◌<ℤ◌, contains, ok, >>=-eq-ok,
  >>-eq-ok, raise_if-eq-ok, of_ok, subst,
}
use vvz_doc_store.Text.{Text}
use vvz_doc_store.Text.Words.{is_empty}
use vvz_doc_store.Hierarchy.Chunks.{
  HierarchyError, ChunkSpec, Built, Environment, Place, or_raise, before_all, bad_bounds,
  check_place, build_chunk, build_loop, validate_chunk, validate_loop, build_semantic_chunks,
  empty_body, bad_chunk_range, chunks_overlap, not_uuid4, uuid_repeated, other_source, other_block,
  other_chapter, index_out_of_range, chunk_incomplete, chunk_outside, order_differs,
}
use vvz_doc_store.Hierarchy.{ParagraphInput, Payload, read_spec, read_specs}

-- Ranges that are not empty, in order from `previous_end`.
abbrev pub SpecsInOrder : ℤ → List ChunkSpec → Type 0
SpecsInOrder previous_end [] = Unit
SpecsInOrder previous_end (spec ∷ specs) =
    (is_empty spec.body ≡ false)
    × (previous_end ≤ℤ spec.start)
    × (spec.start <ℤ spec.end)
    × SpecsInOrder spec.end specs

-- The built chunks name their place, and are numbered.
abbrev pub Placed : Place → ℕ → List Built → Type 0
Placed place index [] = Unit
Placed place index (chunk ∷ chunks) =
    (chunk.source_id ≡ place.document_id)
    × (chunk.block_id ≡ place.paragraph_id)
    × (chunk.chapter_id ≡ place.chapter_id)
    × (chunk.ordinal ≡ index)
    × Placed place (suc index) chunks

pub bad_bounds-false : (a b : ℤ) → bad_bounds a b ≡ false → (pos 0 ≤ℤ a) × (a <ℤ b)
unfolding bad_bounds
bad_bounds-false a b h = ground arith

==-false : (a b : ℕ) → not (a == b) ≡ false → a ≡ b
==-false a b h = ground arith

or_false-left : (x y : Bool) → (x || y) ≡ false → x ≡ false
or_false-left x y h = ground arith

module _ (env : Environment) (place : Place) where
  build_loop-InOrder :
      (index : ℕ) (previous_end : ℤ) (seen : List ℕ) (calls : ℕ) (specs : List ChunkSpec)
      (built : List Built)
      → build_loop env place index previous_end seen calls specs ≡ ok built
      → SpecsInOrder previous_end specs × (length built ≡ length specs)
  unfolding build_loop build_chunk
  build_loop-InOrder index previous_end seen calls [] built h =
      (tt, of_ok (λ l. length l ≡ 0) h refl)
  build_loop-InOrder index previous_end seen calls (spec ∷ specs) built h =
      let (one, e₁, h₁) =
        >>=-eq-ok (build_chunk env place index previous_end seen calls spec) _ h in
      let (rest, e₂, h₂) =
        >>=-eq-ok
          (build_loop env place (suc index) spec.end (env.uuid4 calls ∷ seen) (suc calls) specs) _
          h₁ in
      let (full, r₁) = raise_if-eq-ok (is_empty spec.body) empty_body _ e₁ in
      let (bounds, r₂) = raise_if-eq-ok (bad_bounds spec.start spec.end) bad_chunk_range _ r₁ in
      let (later, r₃) = raise_if-eq-ok (ltb_ℤ spec.start previous_end) chunks_overlap _ r₂ in
      let (o, l) =
        build_loop-InOrder (suc index) spec.end (env.uuid4 calls ∷ seen) (suc calls) specs rest
          e₂ in
      (
        (
          full,
          ltb_ℤ-false spec.start previous_end later,
          (bad_bounds-false spec.start spec.end bounds).1,
          o,
        ),
        of_ok (λ (b : List Built). length b ≡ suc (length specs)) h₂ (ap suc l),
      )

  validate_loop-Placed :
      (index : ℕ) (previous_end : ℤ) (seen : List ℕ) (chunks : List Built)
      → validate_loop env place index previous_end seen chunks ≡ ok tt
      → Placed place index chunks
  unfolding validate_loop validate_chunk
  validate_loop-Placed index previous_end seen [] h = tt
  validate_loop-Placed index previous_end seen (chunk ∷ chunks) h =
      let (finish, e, h₁) =
        >>=-eq-ok (validate_chunk env place index previous_end seen chunk) _ h in
      let (s, r₁) = raise_if-eq-ok (not (chunk.source_id == place.document_id)) other_source _ e in
      let (b, r₂) = raise_if-eq-ok (not (chunk.block_id == place.paragraph_id)) other_block _ r₁ in
      let (c, r₃) =
        raise_if-eq-ok (not (chunk.chapter_id == place.chapter_id)) other_chapter _ r₂ in
      let (v, r₄) = raise_if-eq-ok (not (env.is_uuid4 chunk.uuid)) not_uuid4 _ r₃ in
      let (u, r₅) = raise_if-eq-ok (contains chunk.uuid seen) uuid_repeated _ r₄ in
      let (o, r₆) =
        raise_if-eq-ok (not (chunk.ordinal == index) || not (chunk.block_index == index))
          order_differs _ r₅ in
      (
        ==-false chunk.source_id place.document_id s,
        ==-false chunk.block_id place.paragraph_id b,
        ==-false chunk.chapter_id place.chapter_id c,
        ==-false chunk.ordinal index (or_false-left _ _ o),
        validate_loop-Placed (suc index) finish (chunk.uuid ∷ seen) chunks h₁,
      )

  pub build_semantic_chunks-Placed :
      (calls : ℕ) (specs : List ChunkSpec) (built : List Built)
      → build_semantic_chunks env place calls specs ≡ ok built
      → SpecsInOrder before_all specs × (length built ≡ length specs) × Placed place 0 built
  unfolding build_semantic_chunks
  build_semantic_chunks-Placed calls [] built h =
      let (u, e) = >>-eq-ok (check_place env place) _ h in absurd (cc)
  build_semantic_chunks-Placed calls (spec ∷ specs) built h =
      let (u, h₁) = >>-eq-ok (check_place env place) _ h in
      let (chunks, e₁, h₂) =
        >>=-eq-ok (build_loop env place 0 before_all [] calls (spec ∷ specs)) _ h₁ in
      let (v, h₃) = >>-eq-ok (validate_loop env place 0 before_all [] chunks) _ h₂ in
      let (o, l) = build_loop-InOrder 0 before_all [] calls (spec ∷ specs) chunks e₁ in
      of_ok
        (λ b.
          SpecsInOrder before_all (spec ∷ specs)
          × (length b ≡ suc (length specs))
          × Placed place 0 b)
        h₃ (o, l, validate_loop-Placed 0 before_all [] chunks v)

-- The chunks that a paragraph owns lie in it, in order and with text.
abbrev pub Owns : List Payload → ParagraphInput → ℤ → List ℤ → Type 0
Owns chunks paragraph previous_end [] = Unit
Owns chunks paragraph previous_end (i ∷ indexes) =
    (payload : Payload) × (body : Text) × (start end : ℤ) × (get_elem? chunks (pos_part i)
      ≡ some payload)
    × (payload.body ≡ some body)
    × (payload.start ≡ some start)
    × (payload.end ≡ some end)
    × (is_empty body ≡ false)
    × (previous_end ≤ℤ start)
    × (start <ℤ end)
    × (paragraph.start ≤ℤ start)
    × (end ≤ℤ paragraph.end)
    × Owns chunks paragraph end indexes

or_raise-eq-ok :
    {A : Type 0} (o : Option A) (e : HierarchyError) {a : A} → or_raise o e ≡ ok a → o ≡ some a
or_raise-eq-ok none e h = cc
or_raise-eq-ok (some x) e h = cc

pub outside-false : (a b c d : ℤ) → (ltb_ℤ a b || ltb_ℤ c d) ≡ false → (b ≤ℤ a) × (d ≤ℤ c)
outside-false a b c d h = ground arith

module _ (env : Environment) (chunks : List Payload) where
  pub read_specs-Owns :
      (paragraph : ParagraphInput) (ordinal : ℕ) (previous_end : ℤ) (indexes : List ℤ)
      (specs : List ChunkSpec)
      → read_specs env chunks paragraph ordinal indexes ≡ ok specs
      → SpecsInOrder previous_end specs
      → Owns chunks paragraph previous_end indexes × (length specs ≡ length indexes)
  unfolding read_specs read_spec
  read_specs-Owns paragraph ordinal previous_end [] specs h o =
      (tt, of_ok (λ l. length l ≡ 0) h refl)
  read_specs-Owns paragraph ordinal previous_end (i ∷ indexes) specs h o =
      let (payload, e₁, h₁) =
        >>=-eq-ok (or_raise (get_elem? chunks (pos_part i)) index_out_of_range) _ h in
      let (spec, e₂, h₂) = >>=-eq-ok (read_spec env paragraph ordinal payload) _ h₁ in
      let (rest, e₃, h₃) = >>=-eq-ok (read_specs env chunks paragraph (suc ordinal) indexes) _ h₂ in
      let (body, b, r₁) = >>=-eq-ok (or_raise payload.body chunk_incomplete) _ e₂ in
      let (start, st, r₂) = >>=-eq-ok (or_raise payload.start chunk_incomplete) _ r₁ in
      let (finish, f, r₃) = >>=-eq-ok (or_raise payload.end chunk_incomplete) _ r₂ in
      let (inside, r₄) =
        raise_if-eq-ok (ltb_ℤ start paragraph.start || ltb_ℤ paragraph.end finish) chunk_outside _
          r₃ in
      let (from, to) = outside-false start paragraph.start paragraph.end finish inside in
      let given =
        of_ok (λ (x : ChunkSpec). (x.body ≡ body) × (x.start ≡ start) × (x.end ≡ finish)) r₄
          (refl, refl, refl) in
      of_ok
        (λ (l : List ChunkSpec).
          SpecsInOrder previous_end l
          → Owns chunks paragraph previous_end (i ∷ indexes) × (length l ≡ suc (length indexes)))
        h₃
        (λ (q : SpecsInOrder previous_end (spec ∷ rest)).
          let (owns, counted) =
            read_specs-Owns paragraph (suc ordinal) spec.end indexes rest e₃ q.3 in
          (
            (
              payload,
              body,
              start,
              finish,
              or_raise-eq-ok (get_elem? chunks (pos_part i)) index_out_of_range e₁,
              or_raise-eq-ok payload.body chunk_incomplete b,
              or_raise-eq-ok payload.start chunk_incomplete st,
              or_raise-eq-ok payload.end chunk_incomplete f,
              subst (λ (t : Text). is_empty t ≡ false) given.0 q.0,
              subst (λ z. previous_end ≤ℤ z) given.1 q.1,
              subst (λ z. start <ℤ z) given.2 (subst (λ z. z <ℤ spec.end) given.1 q.2),
              from,
              to,
              subst (λ z. Owns chunks paragraph z indexes) given.2 owns,
            ),
            ap suc counted,
          ))
        o

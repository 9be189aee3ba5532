-- ===== src/Hierarchy/Accepted.antt =====
-- ingestion/hierarchy_enrichment.py: what an accepted hierarchy is.
use vvz_doc_store.Prelude.{
  ℕ, zero, suc, ◌≡◌, refl, ap, ap₂, sym, ◌∙◌, true, false, not, ◌||◌, Option, List, [], ◌∷◌, ◌++◌,
  append_assoc, append-nil, arith, length, length-append, ℤ, pos, ltb_ℤ, ltb_ℤ-false, ◌≤ℤ◌, ◌<ℤ◌,
  ok, >>=-eq-ok, >>-eq-ok, raise_if-eq-ok, of_ok, All, subst,
}
use vvz_doc_store.Text.Words.{is_empty}
use vvz_doc_store.Hierarchy.Chunks.{
  Built, Environment, Place, before_all, bad_bounds, build_semantic_chunks, bad_range,
  paragraph_outside, paragraphs_overlap, empty_text, no_ownership, chapters_overlap, no_paragraphs,
  no_chunks, no_chapters, not_owned_once,
}
use vvz_doc_store.Hierarchy.{
  ParagraphInput, ChapterInput, Payload, SourceVersion, Progress, Aggregate, range_from,
  same_indexes, read_specs, check_paragraph, enrich_paragraph, enrich_paragraphs, enrich_chapters,
  enrich_hierarchy, no_payload, no_chapter, no_paragraph, no_progress, validate_source,
  validate_provenance, assemble_aggregate, no_index,
}
use vvz_doc_store.Hierarchy.Owned.{
  Placed, Owns, bad_bounds-false, outside-false, build_semantic_chunks-Placed, read_specs-Owns,
}

module _ (env : Environment) (chunks : List Payload) where
  -- Paragraphs with text, in order within their chapter, each with at least one chunk.
  abbrev pub ParagraphsInOrder : ChapterInput → ℤ → List ParagraphInput → Type 0
  ParagraphsInOrder chapter previous_end [] = Unit
  ParagraphsInOrder chapter previous_end (p ∷ ps) =
      (p.start <ℤ p.end)
      × (chapter.start ≤ℤ p.start)
      × (p.end ≤ℤ chapter.end)
      × (previous_end ≤ℤ p.start)
      × (is_empty p.text ≡ false)
      × (no_index p.chunk_indexes ≡ false)
      × Owns chunks p before_all p.chunk_indexes
      × ParagraphsInOrder chapter p.end ps

abbrev pub indexes_of : List ParagraphInput → List ℤ
indexes_of [] = []
indexes_of (p ∷ ps) = p.chunk_indexes ++ indexes_of ps

abbrev pub all_indexes : List ChapterInput → List ℤ
all_indexes [] = []
all_indexes (c ∷ cs) = indexes_of c.paragraphs ++ all_indexes cs

-- What a part of the loop adds: the indexes, and one chunk of the document for each.
abbrev pub Adds : ℕ → Progress → List ℤ → Progress → Type 0
Adds document_id before indexes after =
    (built : List Built) × (after.chunks ≡ before.chunks ++ built)
    × (after.seen_indexes ≡ before.seen_indexes ++ indexes)
    × (length built ≡ length indexes)
    × All (λ (c : Built). c.source_id ≡ document_id) built

Placed-All :
    (place : Place) (index : ℕ) (built : List Built)
    → Placed place index built
    → All (λ (c : Built). c.source_id ≡ place.document_id) built
Placed-All place index [] h = tt
Placed-All place index (c ∷ cs) h = (h.0, Placed-All place (suc index) cs h.4)

All-append : (P : Built → Type 0) (xs ys : List Built) → All P xs → All P ys → All P (xs ++ ys)
All-append P [] ys a b = b
All-append P (x ∷ xs) ys a b = (a.0, All-append P xs ys a.1 b)

Adds-none : (document_id : ℕ) (s : Progress) → Adds document_id s [] s
Adds-none document_id s = ([], sym (append-nil s.chunks), sym (append-nil s.seen_indexes), refl, tt)

Adds-trans :
    (document_id : ℕ) (s t u : Progress) (xs ys : List ℤ)
    → Adds document_id s xs t
    → Adds document_id t ys u
    → Adds document_id s (xs ++ ys) u
Adds-trans document_id s t u xs ys (b, c, i, l, a) (b', c', i', l', a') = (
  b ++ b',
  c' ∙ ap (λ z. z ++ b') c ∙ append_assoc s.chunks b b',
  i' ∙ ap (λ z. z ++ ys) i ∙ append_assoc s.seen_indexes xs ys,
  omega (arith, length-append {0} b b', length-append {0} xs ys, l, l'),
  All-append (λ (x : Built). x.source_id ≡ document_id) b b' a a',
)

module _ (env : Environment) (chunks : List Payload) (document_id : ℕ) where
  enrich_paragraph-InOrder :
      (chapter_id : ℕ) (chapter : ChapterInput) (previous_end : ℤ) (s t : Progress)
      (p : ParagraphInput)
      → enrich_paragraph env chunks document_id chapter_id chapter previous_end s p ≡ ok t
      → ParagraphsInOrder env chunks chapter previous_end (p ∷ [])
        × Adds document_id s p.chunk_indexes t
  unfolding enrich_paragraph check_paragraph
  enrich_paragraph-InOrder chapter_id chapter previous_end s t p h =
      let place : Place = record {
        document_id = document_id;
        chapter_id = chapter_id;
        paragraph_id = env.uuid4 s.calls;
      } in
      let (c, h₁) = >>-eq-ok (check_paragraph env chunks chapter previous_end p) _ h in
      let (specs, e₂, h₂) = >>=-eq-ok (read_specs env chunks p 0 p.chunk_indexes) _ h₁ in
      let (built, e₃, h₃) = >>=-eq-ok (build_semantic_chunks env place (suc s.calls) specs) _ h₂ in
      let (bounds, r₁) = raise_if-eq-ok (bad_bounds p.start p.end) bad_range _ c in
      let (inside, r₂) =
        raise_if-eq-ok (ltb_ℤ p.start chapter.start || ltb_ℤ chapter.end p.end) paragraph_outside _
          r₁ in
      let (later, r₃) = raise_if-eq-ok (ltb_ℤ p.start previous_end) paragraphs_overlap _ r₂ in
      let (full, r₄) = raise_if-eq-ok (is_empty p.text) empty_text _ r₃ in
      let (owning, r₅) = raise_if-eq-ok (no_index p.chunk_indexes) no_ownership _ r₄ in
      let (from, to) = outside-false p.start chapter.start chapter.end p.end inside in
      let (o, l, placed) = build_semantic_chunks-Placed env place (suc s.calls) specs built e₃ in
      let (owns, counted) = read_specs-Owns env chunks p 0 before_all p.chunk_indexes specs e₂ o in
      (
        (
          (bad_bounds-false p.start p.end bounds).1,
          from,
          to,
          ltb_ℤ-false p.start previous_end later,
          full,
          owning,
          owns,
          tt,
        ),
        of_ok (λ (u : Progress). Adds document_id s p.chunk_indexes u) h₃
            (built, refl, refl, l ∙ counted, Placed-All place 0 built placed),
      )

  enrich_paragraphs-InOrder :
      (chapter_id : ℕ) (chapter : ChapterInput) (previous_end : ℤ) (s t : Progress)
      (ps : List ParagraphInput)
      → enrich_paragraphs env chunks document_id chapter_id chapter previous_end s ps ≡ ok t
      → ParagraphsInOrder env chunks chapter previous_end ps × Adds document_id s (indexes_of ps) t
  unfolding enrich_paragraphs
  enrich_paragraphs-InOrder chapter_id chapter previous_end s t [] h =
      (tt, of_ok (λ (u : Progress). Adds document_id s [] u) h (Adds-none document_id s))
  enrich_paragraphs-InOrder chapter_id chapter previous_end s t (p ∷ ps) h =
      let (u, e, h₁) =
        >>=-eq-ok (enrich_paragraph env chunks document_id chapter_id chapter previous_end s p) _
          h in
      let ((a, b, c, d, f, g, o, z), adds) =
        enrich_paragraph-InOrder chapter_id chapter previous_end s u p e in
      let (rest, adds') = enrich_paragraphs-InOrder chapter_id chapter p.end u t ps h₁ in
      (
        (a, b, c, d, f, g, o, rest),
        Adds-trans document_id s u t p.chunk_indexes (indexes_of ps) adds adds',
      )

  -- Chapters in order, each with at least one paragraph.
  abbrev pub ChaptersInOrder : ℤ → List ChapterInput → Type 0
  ChaptersInOrder previous_end [] = Unit
  ChaptersInOrder previous_end (c ∷ cs) =
      (pos 0 ≤ℤ c.start)
      × (c.start <ℤ c.end)
      × (previous_end ≤ℤ c.start)
      × (no_paragraph env c.paragraphs ≡ false)
      × ParagraphsInOrder env chunks c before_all c.paragraphs
      × ChaptersInOrder c.end cs

  enrich_chapters-InOrder :
      (previous_end : ℤ) (s t : Progress) (cs : List ChapterInput)
      → enrich_chapters env chunks document_id previous_end s cs ≡ ok t
      → ChaptersInOrder previous_end cs × Adds document_id s (all_indexes cs) t
  unfolding enrich_chapters
  enrich_chapters-InOrder previous_end s t [] h =
      (tt, of_ok (λ (u : Progress). Adds document_id s [] u) h (Adds-none document_id s))
  enrich_chapters-InOrder previous_end s t (c ∷ cs) h =
      let (bounds, h₁) = raise_if-eq-ok (bad_bounds c.start c.end) bad_range _ h in
      let (later, h₂) = raise_if-eq-ok (ltb_ℤ c.start previous_end) chapters_overlap _ h₁ in
      let (full, h₃) = raise_if-eq-ok (no_paragraph env c.paragraphs) no_paragraphs _ h₂ in
      let id = env.uuid4 s.calls in
      let begun : Progress = record s {
        calls = suc s.calls;
        chapter_ids = s.chapter_ids ++ id ∷ [];
      } in
      let (u, e, h₄) =
        >>=-eq-ok (enrich_paragraphs env chunks document_id id c before_all begun c.paragraphs) _
          h₃ in
      let (ps, adds) = enrich_paragraphs-InOrder id c before_all begun u c.paragraphs e in
      let (rest, adds') = enrich_chapters-InOrder c.end u t cs h₄ in
      let (low, less) = bad_bounds-false c.start c.end bounds in
      (
        (low, less, ltb_ℤ-false c.start previous_end later, full, ps, rest),
        Adds-trans document_id s u t (indexes_of c.paragraphs) (all_indexes cs) adds adds',
      )

ℤ_antisym : (i j : ℤ) → ltb_ℤ i j ≡ false → ltb_ℤ j i ≡ false → i ≡ j
ℤ_antisym i j h k = ground arith

same_indexes-eq : (is js : List ℤ) → same_indexes is js ≡ true → is ≡ js
same_indexes-eq [] [] h = refl
same_indexes-eq [] (j ∷ js) h = cc
same_indexes-eq (i ∷ is) [] h = cc
same_indexes-eq (i ∷ is) (j ∷ js) h =
    ap₂ ◌∷◌ (ℤ_antisym i j (ground arith) (ground arith)) (same_indexes-eq is js (ground arith))

length-range_from : (first count : ℕ) → length (range_from first count) ≡ count
unfolding range_from
length-range_from first zero = refl
length-range_from first (suc count) = ap suc (length-range_from (suc first) count)

-- An accepted hierarchy has chapters in order, paragraphs with text in order within their chapters, and chunks with
-- text in order within their paragraphs; every chunk is owned once, in the order of the chunks, and the
-- aggregate has one chunk of its document for each.
pub enrich_hierarchy-InOrder :
    (env : Environment) (source_upload_id : ℕ) (version : SourceVersion) (assertion run : Option ℕ)
    (chapters : List ChapterInput) (chunks : List Payload) (a : Aggregate)
    → enrich_hierarchy env source_upload_id version assertion run chapters chunks ≡ ok a
    → ChaptersInOrder env chunks a.document_id before_all chapters
      × (all_indexes chapters ≡ range_from 0 (length chunks))
      × (length a.chunks ≡ length chunks)
      × All (λ (c : Built). c.source_id ≡ a.document_id) a.chunks
unfolding enrich_hierarchy assemble_aggregate
enrich_hierarchy-InOrder env source_upload_id version assertion run chapters chunks a h =
    let (v, h₁) = >>-eq-ok (validate_source env source_upload_id version) _ h in
    let (w, h₂) = >>-eq-ok (validate_provenance env assertion run) _ h₁ in
    let (some_chunks, h₃) = raise_if-eq-ok (no_payload env chunks) no_chunks _ h₂ in
    let (some_chapters, h₄) = raise_if-eq-ok (no_chapter env chapters) no_chapters _ h₃ in
    let (s, e, h₅) =
      >>=-eq-ok (enrich_chapters env chunks (env.uuid4 0) before_all (no_progress env) chapters) _
        h₄ in
    let (owned, h₆) =
      raise_if-eq-ok (not (same_indexes s.seen_indexes (range_from 0 (length chunks))))
        not_owned_once _ h₅ in
    let (order, (built, made, seen, counted, all)) =
      enrich_chapters-InOrder env chunks (env.uuid4 0) before_all (no_progress env) s chapters e in
    let once : all_indexes chapters ≡ range_from 0 (length chunks) =
      sym seen
      ∙ same_indexes-eq s.seen_indexes (range_from 0 (length chunks)) (ground (arith, owned)) in
    of_ok
      (λ (x : Aggregate).
        ChaptersInOrder env chunks x.document_id before_all chapters
        × (all_indexes chapters ≡ range_from 0 (length chunks))
        × (length x.chunks ≡ length chunks)
        × All (λ (c : Built). c.source_id ≡ x.document_id) x.chunks)
      h₆
      (
        order,
        once,
        ap length made ∙ counted ∙ ap length once ∙ length-range_from 0 (length chunks),
        subst (λ l. All (λ (c : Built). c.source_id ≡ env.uuid4 0) l) (sym made) all,
      )

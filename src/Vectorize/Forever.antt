-- ===== src/Vectorize/Forever.antt =====
-- runtime/vectorization.py: when the loop of `rebuild` does not end.
use vvz_doc_store.Prelude.{
  ℕ, zero, suc, ◌≡◌, refl, ap, ap₂, ◌∙◌, Bool, true, false, ◌&&◌, ◌||◌, Option, none, some, List,
  [], ◌∷◌, map, arith, ◌==◌, take, ℤ, pos, ok,
}
use vvz_doc_store.Vectorize.{
  Document, Tables, RebuildRequest, LoopState, is_live, filter_documents, document_ids, select_one,
  select_flagged, batch_limit, choose_one, unless_empty, choose_flagged, choose, clear_document,
  persist, advance, run, initial, rebuild,
}
use vvz_doc_store.Vectorize.Ending.{one_of, flagged_of, run-go}

map_same :
    (f : Document → Document) (ds : List Document) → ((d : Document) → f d ≡ d) → map f ds ≡ ds
map_same f [] h = refl
map_same f (d ∷ ds) h = ap₂ ◌∷◌ (h d) (map_same f ds h)

documents_kept : (now : ℕ) (t : Tables) → (persist [] now t).documents ≡ t.documents
unfolding persist clear_document
documents_kept now t = map_same (clear_document [] now) t.documents (λ d. refl)

run_out :
    (embeds : List ℕ → Bool) (now : ℕ) (request : RebuildRequest) (size : ℕ) (s : LoopState)
    → run embeds now 0 request size s ≡ none
unfolding run
run_out embeds now request size s = refl

processed_kept :
    (embeds : List ℕ → Bool) (now : ℕ) (dry : Bool) (s : LoopState)
    → s.processed ≡ []
    → (advance embeds now dry s [] s.after).processed ≡ []
unfolding advance
processed_kept embeds now dry s h = rw h refl

none_left :
    (embeds : List ℕ → Bool) (now : ℕ) (dry : Bool) (id : ℕ) (s : LoopState)
    → select_one id s.tables ≡ []
    → select_one id (advance embeds now dry s [] s.after).tables ≡ []
unfolding advance select_one
none_left embeds now true id s h = h
none_left embeds now false id s h =
    ap (λ ds. document_ids (take 1 (filter_documents (λ d. is_live d && d.id == id) ds)))
      (documents_kept now s.tables)
    ∙ h

module _ (embeds : List ℕ → Bool) (now : ℕ) where
  forever_one :
      (id : ℕ) (all dry : Bool) (limit : Option ℤ) (size fuel : ℕ) (s : LoopState)
      → (dry || embeds []) ≡ true
      → s.processed ≡ []
      → select_one id s.tables ≡ []
      → run embeds now fuel (one_of id all limit dry) size s ≡ none
  unfolding choose choose_one
  forever_one id all dry limit size zero s e p h =
      run_out embeds now (one_of id all limit dry) size s
  forever_one id all dry limit size (suc fuel) s e p h =
      let goes : choose_one id s ≡ some ([], s.after) = rw (p, h) refl in
      run-go embeds now (one_of id all limit dry) size fuel s [] s.after goes e
      ∙ forever_one id all dry limit size fuel (advance embeds now dry s [] s.after) e
          (processed_kept embeds now dry s p) (none_left embeds now dry id s h)

  -- For a positive batch size, and where an empty batch is embedded, a document that is missing or deleted is asked
  -- for again and again: the loop ends on no fuel.
  pub rebuild_forever :
      (id : ℕ) (all dry : Bool) (limit : Option ℤ) (size fuel : ℕ) (t : Tables)
      → embeds [] ≡ true
      → select_one id t ≡ []
      → rebuild embeds now fuel (one_of id all limit dry) (pos (suc size)) t ≡ ok none
  unfolding rebuild
  rebuild_forever id all dry limit size fuel t e h =
      ap ok (forever_one id all dry limit (suc size) fuel (initial t) (ground arith) refl h)

  forever_dry :
      (size fuel : ℕ) (s : LoopState) (id : ℕ) (rest : List ℕ)
      → select_flagged size s.tables ≡ id ∷ rest
      → run embeds now fuel (flagged_of none true) size s ≡ none
  unfolding choose choose_flagged batch_limit advance
  forever_dry size zero s id rest h = run_out embeds now (flagged_of none true) size s
  forever_dry size (suc fuel) s id rest h =
      let goes : unless_empty s.after (select_flagged size s.tables) ≡ some (id ∷ rest, s.after) =
        rw (h, unless_empty) refl in
      run-go embeds now (flagged_of none true) size fuel s (id ∷ rest) s.after goes refl
      ∙ forever_dry size fuel (advance embeds now true s (id ∷ rest) s.after) id rest h

  -- A dry run over flagged documents with no limit, where there is one, chooses the same ones again and again: the loop
  -- ends on no fuel.
  pub rebuild_dry_forever :
      (size fuel : ℕ) (t : Tables) (id : ℕ) (rest : List ℕ)
      → select_flagged (suc size) t ≡ id ∷ rest
      → rebuild embeds now fuel (flagged_of none true) (pos (suc size)) t ≡ ok none
  unfolding rebuild
  rebuild_dry_forever size fuel t id rest h =
      ap ok (forever_dry (suc size) fuel (initial t) id rest h)

-- ===== src/Vectorize/Covering.antt =====
-- runtime/vectorization.py: which documents a rebuild has processed when it ends.
use vvz_doc_store.Prelude.{
  ℕ, zero, suc, ◌≡◌, refl, ap, ap₂, sym, ◌∙◌, inl, inr, Bool, true, ◌||◌, none, some, Option-cases,
  List, [], ◌∷◌, ◌++◌, append_assoc, append-nil, take, of_some, pos, ok, of_ok,
}
use vvz_doc_store.Vectorize.{
  Document, Tables, LoopState, is_live, is_behind, filter_documents, document_ids, select_behind,
  last_id, batch_limit, choose_behind, move_after, choose, rebuilt, RebuildOutcome, advance, run,
  initial, rebuild,
}
use vvz_doc_store.Vectorize.Ending.{all_of, chosen, run-stop, run-go, choose_behind-eq}
use vvz_doc_store.Vectorize.Left.{
  Ascending, left_ids, left_ids-round, advance-left_ids, advance-Ascending, advance-processed,
  advance-after,
}

take_one : (n : ℕ) (ds : List Document) → document_ids (take (suc n) ds) ≡ [] → ds ≡ []
unfolding document_ids
take_one n [] h = refl
take_one n (d ∷ ds) h = cc

move_after-none : (l : List ℕ) → move_after l ≡ none → l ≡ []
unfolding move_after
move_after-none [] h = refl
move_after-none (id ∷ rest) h = cc

module _ (embeds : List ℕ → Bool) (now size : ℕ) (dry : Bool)
    (available : (docs : List ℕ) → (dry || embeds docs) ≡ true) where
  run-covers :
      (fuel : ℕ) (s : LoopState) (o : RebuildOutcome)
      → Ascending s.tables.documents
      → run embeds now fuel (all_of none dry) (suc size) s ≡ some o
      → (o.status ≡ rebuilt) × (o.processed ≡ s.processed ++ left_ids s.after s.tables.documents)
  unfolding choose choose_behind batch_limit select_behind left_ids run
  run-covers zero s o a h = cc
  run-covers (suc fuel) s o a h = elim (Option-cases (chosen (all_of none dry) (suc size) s)) [
    | inl stops ↦
        let same = sym (run-stop embeds now (all_of none dry) (suc size) fuel s stops) ∙ h in
        let nothing =
          take_one size (filter_documents (is_behind s.after) s.tables.documents)
            (move_after-none (select_behind (suc size) s.after s.tables) stops) in
        of_some
          (λ (r : RebuildOutcome).
            (r.status ≡ rebuilt)
            × (r.processed ≡ s.processed ++ left_ids s.after s.tables.documents))
          same
          (
            refl,
            sym (append-nil s.processed) ∙ ap (λ l. s.processed ++ document_ids l) (sym nothing),
          )
    | inr ((docs, after), goes) ↦
        let (n, id, rest, e, picked, d, moved) =
          choose_behind-eq (batch_limit none (suc size) s.processed) s docs after goes in
        let next = advance embeds now dry s docs after in
        let (status, rest') =
          run-covers fuel next o (advance-Ascending embeds now dry s docs after a) (
            sym (
              run-go embeds now (all_of none dry) (suc size) fuel s docs after goes
                (available docs))
            ∙ h) in
        (
          status,
          rest'
              ∙ ap₂ ◌++◌ (advance-processed embeds now dry s docs after) (
                  advance-left_ids embeds now dry s docs after next.after
                  ∙ ap (λ b. left_ids b s.tables.documents)
                      (advance-after embeds now dry s docs after ∙ moved))
              ∙ append_assoc s.processed docs (left_ids (some (last_id id rest)) s.tables.documents)
              ∙ ap (λ l. s.processed ++ l)
                  (ap (λ l. l ++ left_ids (some (last_id id rest)) s.tables.documents) d
                    ∙ left_ids-round s.after n s.tables.documents id rest a picked),
        )
  ]

  -- For documents in ascending order of their identifiers, and every batch embedded or a dry run: a rebuild of all
  -- documents with no limit that ends has the status of success, and has processed every live document once, in the
  -- order of the identifiers.
  pub rebuild-covers :
      (fuel : ℕ) (t : Tables) (o : RebuildOutcome)
      → Ascending t.documents
      → rebuild embeds now fuel (all_of none dry) (pos (suc size)) t ≡ ok (some o)
      → (o.status ≡ rebuilt) × (o.processed ≡ document_ids (filter_documents is_live t.documents))
  unfolding rebuild left_ids is_behind
  rebuild-covers fuel t o a h =
      run-covers fuel (initial t) o a
        (of_ok (λ r. run embeds now fuel (all_of none dry) (suc size) (initial t) ≡ r) h refl)

-- ===== src/Temporal/Steps.antt =====
-- The committed writes to the table of assertions: those of `TemporalAssertionService`, and the publication's.
use vvz_doc_store.Prelude.{
  ℕ, ◌≡◌, ◌≢◌, refl, inl, inr, Option-cases, lookup, of_ok, ◌+◌, Bool, Option, List, [], ◌∷◌, ◌++◌,
  ok, err,
}
use vvz_doc_store.Text.{Text}
use vvz_doc_store.Temporal.{TemporalError, Writes}
use vvz_doc_store.Temporal.Table.{
  Kind, Acceptance, Assertion, State, Transaction, max_revision, new_row,
}
use vvz_doc_store.Temporal.Writes.{
  Until, create_assertion, supersede_assertion, Segments, replace_interval, restore,
}
use vvz_doc_store.Temporal.Deletion.{Deleted, soft_delete}
use vvz_doc_store.Temporal.SourceState.{source_state_family, append_source_state}
use vvz_doc_store.Temporal.Appending.{
  Extends, create_assertion_lem, supersede_assertion_lem, replace_interval_lem, restore_lem,
}
use vvz_doc_store.Temporal.Appending.Deletes.{soft_delete_lem}

-- One write of the service that is committed; `close_interval` is a supersession.
pub data ServiceStep : State → State → Type 0 where
  created :
      (tx : Transaction) (object_id from : ℕ) (until : Option ℕ) (family? : Option Text)
      (kind : Kind) (acceptance : Acceptance) (s : State) (r : Assertion × State)
      → create_assertion tx object_id from until family? kind acceptance s ≡ ok r
      → ServiceStep s r.1
  corrected :
      (tx : Transaction) (prior_id : ℕ) (from : Option ℕ) (until : Until) (kind : Kind)
      (copies : Bool) (acceptance : Acceptance) (s : State) (r : Assertion × State)
      → supersede_assertion tx prior_id from until kind copies acceptance s ≡ ok r
      → ServiceStep s r.1
  replaced :
      (tx : Transaction) (prior_id from : ℕ) (until : Option ℕ) (copies writes : Bool)
      (acceptance : Acceptance) (s : State) (r : Segments × State)
      → replace_interval tx prior_id from until copies writes acceptance s ≡ ok r
      → ServiceStep s r.1
  restored :
      (tx : Transaction) (deletion_id : ℕ) (copies : Bool) (acceptance : Acceptance) (s : State)
      (r : Assertion × State)
      → restore tx deletion_id copies acceptance s ≡ ok r
      → ServiceStep s r.1
  deleted :
      (tx : Transaction) (from : Option ℕ) (until : Until) (family? : Option Text) (copies : Bool)
      (acceptance : Acceptance) (roots descendants : List ℕ) (s : State) (r : List Deleted × State)
      → soft_delete tx roots descendants from until family? copies acceptance s ≡ ok r
      → ServiceStep s r.1

pub ServiceStep-Extends : (s s' : State) → ServiceStep s s' → Extends s s'
ServiceStep-Extends _ _ (created tx object_id from until family? kind acceptance s r h) =
    create_assertion_lem tx object_id from until family? kind acceptance s r h
ServiceStep-Extends _ _ (corrected tx prior_id from until kind copies acceptance s r h) =
    supersede_assertion_lem tx prior_id from until kind copies acceptance s r h
ServiceStep-Extends _ _ (replaced tx prior_id from until copies writes acceptance s r h) =
    replace_interval_lem tx prior_id from until copies writes acceptance s r h
ServiceStep-Extends _ _ (restored tx deletion_id copies acceptance s r h) =
    restore_lem tx deletion_id copies acceptance s r h
ServiceStep-Extends _ _ (deleted tx from until family? copies acceptance roots descendants s r h) =
    soft_delete_lem tx from until family? copies acceptance roots descendants s r h

-- One write to the table that is committed: the service's, or a publication's source state.
pub data Step : State → State → Type 0 where
  asserted : (s s' : State) → ServiceStep s s' → Step s s'
  published :
      (tx : Transaction) (document_id : ℕ) (acceptance : Acceptance) (s : State)
      (r : Assertion × State)
      → append_source_state tx document_id acceptance s ≡ ok r
      → Step s r.1

-- A source state that a publication appends, numbered behind its document's rows.
pub record Published (s s' : State) : Type 0 where
  pub row : Assertion
  pub rows : s'.rows ≡ s.rows ++ row ∷ []
  pub registry : s'.registry ≡ s.registry
  pub family : row.family ≡ source_state_family
  pub numbered : row.revision_no ≡ max_revision row.object_id s.rows + 1

of_err :
    {e : TemporalError} {r : Assertion × State}
    → ◌≢◌ {A = Writes (Assertion × State)} (err e) (ok r)
of_err h = cc

pub append_source_state-Published :
    (tx : Transaction) (document_id : ℕ) (acceptance : Acceptance) (s : State)
    (r : Assertion × State)
    → append_source_state tx document_id acceptance s ≡ ok r
    → Published s r.1
unfolding append_source_state new_row
append_source_state-Published tx document_id acceptance s r h =
    elim (Option-cases (lookup document_id s.registry)) [
      | inl unknown ↦ absurd (of_err (rw (append_source_state, unknown) at h))
      | inr (locator, found) ↦
          of_ok (λ r. Published s r.1) (rw (append_source_state, found) at h)
            (record { row = _; rows = refl; registry = refl; family = refl; numbered = refl })
    ]

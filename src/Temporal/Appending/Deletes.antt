-- ===== src/Temporal/Appending/Deletes.antt =====
-- Deletions as sequences of guarded appends.
use vvz_doc_store.Prelude.{
  ℕ, ◌≡◌, refl, Bool, false, Option, none, some, List, [], ◌∷◌, ◌++◌, ok, >>=-eq-ok, of_ok,
}
use vvz_doc_store.Text.{Text}
use vvz_doc_store.Temporal.{make_interval}
use vvz_doc_store.Temporal.Table.{deletion, Acceptance, Assertion, State, Transaction, append}
use vvz_doc_store.Temporal.Writes.{payload_family, from_or, until_or, Until, split}
use vvz_doc_store.Temporal.Deletion.{
  Deleted, accepted_payload_rows, deletion_prior, delete_from, delete_one, lock_all, delete_targets,
  soft_delete,
}
use vvz_doc_store.Temporal.Appending.{same, Extends, Extends-trans, append_lem, split_lem}

delete_from_lem :
    (tx : Transaction) (object_id : ℕ) (family : Text) (from : Option ℕ) (until : Until)
    (copies : Bool) (acceptance : Acceptance) (prior : Option Assertion) (s : State)
    (r : Deleted × State)
    → delete_from tx object_id family from until copies acceptance prior s ≡ ok r
    → Extends s r.1
unfolding delete_from
delete_from_lem tx object_id family from until copies acceptance none s r h =
    let (interval, _, h₁) =
      >>=-eq-ok (make_interval (from_or from tx.now) (until_or until none)) _ h in
    let (appended, e, h₂) =
      >>=-eq-ok (append tx object_id family deletion interval none acceptance [] s) _ h₁ in
    of_ok (λ r. Extends s r.1) h₂
      (append_lem tx object_id family deletion interval none acceptance s appended e)
delete_from_lem tx object_id family from until copies acceptance (some prior) s r h =
    let (window, _, h₁) =
      >>=-eq-ok
        (make_interval (from_or from prior.interval.start) (until_or until prior.interval.until)) _
        h in
    let (segments, e, h₂) =
      >>=-eq-ok (split tx prior window deletion copies false acceptance s) _ h₁ in
    of_ok (λ r. Extends s r.1) h₂
      (split_lem tx prior acceptance window deletion copies false s segments e)

module _ (tx : Transaction) (from : Option ℕ) (until : Until) (family? : Option Text)
    (copies : Bool) (acceptance : Acceptance) where
  delete_one_lem :
      (object_id : ℕ) (registered : Text) (s : State) (r : Deleted × State)
      → delete_one tx object_id registered from until family? copies acceptance s ≡ ok r
      → Extends s r.1
  unfolding delete_one
  delete_one_lem object_id registered s r h =
      let (family, _, h₁) = >>=-eq-ok (payload_family family? registered) _ h in
      let (prior, _, h₂) =
        >>=-eq-ok (deletion_prior from until (accepted_payload_rows s.rows object_id family s.rows))
          _ h₁ in
      delete_from_lem tx object_id family from until copies acceptance prior s r h₂

  delete_targets_lem :
      (targets : List (ℕ × Text)) (s : State) (r : List Deleted × State)
      → delete_targets tx targets from until family? copies acceptance s ≡ ok r
      → Extends s r.1
  unfolding delete_targets
  delete_targets_lem [] s r h =
      of_ok (λ r. Extends s r.1) h (record { rows = same s.rows; registry = refl })
  delete_targets_lem ((id, registered) ∷ targets) s r h =
      let (deleted, e₁, h₁) =
        >>=-eq-ok (delete_one tx id registered from until family? copies acceptance s) _ h in
      let (rest, e₂, h₂) =
        >>=-eq-ok (delete_targets tx targets from until family? copies acceptance deleted.1) _ h₁ in
      of_ok (λ r. Extends s r.1) h₂
        (Extends-trans s deleted.1 rest.1 (delete_one_lem id registered s deleted e₁)
          (delete_targets_lem targets deleted.1 rest e₂))

  pub soft_delete_lem :
      (roots descendants : List ℕ) (s : State) (r : List Deleted × State)
      → soft_delete tx roots descendants from until family? copies acceptance s ≡ ok r
      → Extends s r.1
  unfolding soft_delete
  soft_delete_lem [] descendants s r h =
      of_ok (λ r. Extends s r.1) h (record { rows = same s.rows; registry = refl })
  soft_delete_lem (root ∷ roots) descendants s r h =
      let (targets, _, h₁) = >>=-eq-ok (lock_all ((root ∷ roots) ++ descendants) [] s) _ h in
      delete_targets_lem targets s r h₁

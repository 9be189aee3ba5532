-- ===== src/Temporal/Appending.antt =====
-- Writes as sequences of guarded appends.
pub mod Deletes
use vvz_doc_store.Prelude.{
  ℕ, suc, ◌+◌, ◌≤◌, ◌<◌, ◌≡◌, refl, ap, ap₂, sym, ◌∙◌, ◌⊎◌, inl, inr, Bool, true, false, not, ◌&&◌,
  ◌||◌, Option, none, some, List, [], ◌∷◌, ◌++◌, append_assoc, append-nil, arith, ok, err, ◌>>=◌,
  ◌>>◌, >>=-eq-ok, >>-eq-ok, raise_if-eq-ok, of_ok, if_cases, Option-cases,
}
use vvz_doc_store.Text.{Text}
use vvz_doc_store.Temporal.{
  Writes, Interval, clipped_to, make_interval, left_segment, right_segment,
}
use vvz_doc_store.Temporal.Table.{
  Kind, supersession, deletion, restoration, Acceptance, Assertion, State, Transaction,
  guard_unambiguous, max_revision, append, new_row, locked_object, acceptable_prior,
}
use vvz_doc_store.Temporal.Writes.{
  payload_family, from_or, until_or, is_deletion, Until, copy_payload, write_payload,
  create_assertion, supersede_assertion, close_interval, Segments, append_copy, append_corrected,
  append_segments, split, replace_interval, restore,
}
use vvz_doc_store.Temporal.Deletion.{
  Deleted, accepted_payload_rows, deletion_prior, delete_from, delete_one, lock_all, delete_targets,
  soft_delete,
}

-- The identifiers that the guard may pass over are those that the new row supersedes.
abbrev pub ignored : Option ℕ → List ℕ
ignored none = []
ignored (some id) = id ∷ []

-- One row that passed the guard, numbered behind its object's rows.
pub record Appended (rows : List Assertion) (row : Assertion) : Type 0 where
  pub guarded :
      guard_unambiguous rows row.object_id row.family row.interval (ignored row.supersedes) ≡ ok tt
  pub numbered : row.revision_no ≡ max_revision row.object_id rows + 1

-- From one table to a later one, by appends only.
pub data Appends : List Assertion → List Assertion → Type 0 where
  same : (rows : List Assertion) → Appends rows rows
  more :
      (rows later : List Assertion) (row : Assertion)
      → Appended rows row
      → Appends (rows ++ row ∷ []) later
      → Appends rows later

-- What a write leaves: appended rows and the registry as it was.
pub record Extends (s s' : State) : Type 0 where
  pub rows : Appends s.rows s'.rows
  pub registry : s'.registry ≡ s.registry

pub Appends-trans : {a b c : List Assertion} → Appends a b → Appends b c → Appends a c
Appends-trans (same rows) q = q
Appends-trans (more rows later row p rest) q = more rows _ row p (Appends-trans rest q)

pub Extends-trans : (s t u : State) → Extends s t → Extends t u → Extends s u
Extends-trans s t u p q = record {
  rows = Appends-trans p.rows q.rows;
  registry = q.registry ∙ p.registry;
}

pub append_lem :
    (tx : Transaction) (object_id : ℕ) (family : Text) (kind : Kind) (interval : Interval)
    (supersedes : Option ℕ) (acceptance : Acceptance) (s : State) (r : Assertion × State)
    → append tx object_id family kind interval supersedes acceptance (ignored supersedes) s ≡ ok r
    → Extends s r.1
unfolding append new_row
append_lem tx object_id family kind interval supersedes acceptance s r h =
    let (guarded, e) =
      >>-eq-ok (guard_unambiguous s.rows object_id family interval (ignored supersedes)) _ h in
    let row = new_row tx s.rows object_id family kind interval supersedes acceptance in
    of_ok (λ r. Extends s r.1) e
      (record {
        rows =
            more s.rows (s.rows ++ row ∷ []) row (record { guarded = guarded; numbered = refl })
              (same (s.rows ++ row ∷ []));
        registry = refl;
      })

pub copy_payload_lem :
    (copies : Bool) (source target : ℕ) (s : State)
    → Extends s (copy_payload copies source target s)
unfolding copy_payload
copy_payload_lem false source target s = record { rows = same s.rows; registry = refl }
copy_payload_lem true source target s = record { rows = same s.rows; registry = refl }

write_payload_lem :
    (writes : Bool) (kind : Kind) (target : ℕ) (s : State)
    → Extends s (write_payload writes kind target s)
unfolding write_payload
write_payload_lem writes kind target s =
    if_cases (λ t. Extends s t) (not (is_deletion kind) && writes)
      (λ _. record { rows = same s.rows; registry = refl })
      (λ _. record { rows = same s.rows; registry = refl })

pub create_assertion_lem :
    (tx : Transaction) (object_id from : ℕ) (until : Option ℕ) (family? : Option Text) (kind : Kind)
    (acceptance : Acceptance) (s : State) (r : Assertion × State)
    → create_assertion tx object_id from until family? kind acceptance s ≡ ok r
    → Extends s r.1
unfolding create_assertion
create_assertion_lem tx object_id from until family? kind acceptance s r h =
    let (interval, _, h₁) = >>=-eq-ok (make_interval from until) _ h in
    let (registered, _, h₂) = >>=-eq-ok (locked_object object_id s) _ h₁ in
    let (family, _, h₃) = >>=-eq-ok (payload_family family? registered) _ h₂ in
    append_lem tx object_id family kind interval none acceptance s r h₃

pub supersede_assertion_lem :
    (tx : Transaction) (prior_id : ℕ) (from : Option ℕ) (until : Until) (kind : Kind)
    (copies : Bool) (acceptance : Acceptance) (s : State) (r : Assertion × State)
    → supersede_assertion tx prior_id from until kind copies acceptance s ≡ ok r
    → Extends s r.1
unfolding supersede_assertion
supersede_assertion_lem tx prior_id from until kind copies acceptance s r h =
    let (prior, _, h₁) = >>=-eq-ok (acceptable_prior prior_id s) _ h in
    let (registered, _, h₂) = >>=-eq-ok (locked_object prior.object_id s) _ h₁ in
    let (interval, _, h₃) =
      >>=-eq-ok
        (make_interval (from_or from prior.interval.start) (until_or until prior.interval.until)) _
        h₂ in
    let (appended, e, h₄) =
      >>=-eq-ok
        (append tx prior.object_id prior.family kind interval (some prior_id) acceptance
          (prior_id ∷ []) s)
        _ h₃ in
    of_ok (λ r. Extends s r.1) h₄
      (Extends-trans s appended.1 _
        (append_lem tx prior.object_id prior.family kind interval (some prior_id) acceptance s
          appended e)
        (copy_payload_lem copies prior_id appended.0.assertion_id appended.1))

pub restore_lem :
    (tx : Transaction) (deletion_id : ℕ) (copies : Bool) (acceptance : Acceptance) (s : State)
    (r : Assertion × State)
    → restore tx deletion_id copies acceptance s ≡ ok r
    → Extends s r.1
unfolding restore
restore_lem tx deletion_id copies acceptance s r h =
    let (removed, _, h₁) = >>=-eq-ok (acceptable_prior deletion_id s) _ h in
    let (_, h₂) = raise_if-eq-ok (not (is_deletion removed.kind)) _ _ h₁ in
    let (registered, _, h₃) = >>=-eq-ok (locked_object removed.object_id s) _ h₂ in
    let (appended, e, h₄) =
      >>=-eq-ok
        (append tx removed.object_id removed.family restoration removed.interval (some deletion_id)
          acceptance (deletion_id ∷ []) s)
        _ h₃ in
    of_ok (λ r. Extends s r.1) h₄
      (Extends-trans s appended.1 _
        (append_lem tx removed.object_id removed.family restoration removed.interval
          (some deletion_id) acceptance s appended e)
        (copy_payload_lem copies (from_or removed.supersedes deletion_id) appended.0.assertion_id
          appended.1))

module _ (tx : Transaction) (prior : Assertion) (acceptance : Acceptance) where
  append_copy_lem :
      (copies : Bool) (segment : Option Interval) (s : State) (r : Option Assertion × State)
      → append_copy tx prior copies acceptance segment s ≡ ok r
      → Extends s r.1
  unfolding append_copy
  append_copy_lem copies none s r h =
      of_ok (λ r. Extends s r.1) h (record { rows = same s.rows; registry = refl })
  append_copy_lem copies (some interval) s r h =
      let id = prior.assertion_id in
      let (appended, e, h₁) =
        >>=-eq-ok
          (append tx prior.object_id prior.family prior.kind interval (some id) acceptance (id ∷ [])
            s)
          _ h in
      of_ok (λ r. Extends s r.1) h₁
        (Extends-trans s appended.1 _
          (append_lem tx prior.object_id prior.family prior.kind interval (some id) acceptance s
            appended e)
          (copy_payload_lem copies id appended.0.assertion_id appended.1))

  append_corrected_lem :
      (kind : Kind) (writes : Bool) (interval : Interval) (s : State) (r : Assertion × State)
      → append_corrected tx prior kind writes acceptance interval s ≡ ok r
      → Extends s r.1
  unfolding append_corrected
  append_corrected_lem kind writes interval s r h =
      let id = prior.assertion_id in
      let (appended, e, h₁) =
        >>=-eq-ok
          (append tx prior.object_id prior.family kind interval (some id) acceptance (id ∷ []) s) _
          h in
      of_ok (λ r. Extends s r.1) h₁
        (Extends-trans s appended.1 _
          (append_lem tx prior.object_id prior.family kind interval (some id) acceptance s appended
            e)
          (write_payload_lem writes kind appended.0.assertion_id appended.1))

  append_segments_lem :
      (kind : Kind) (copies writes : Bool) (corrected : Interval) (s : State) (r : Segments × State)
      → append_segments tx prior kind copies writes acceptance corrected s ≡ ok r
      → Extends s r.1
  unfolding append_segments
  append_segments_lem kind copies writes corrected s r h =
      let left_interval = left_segment prior.interval corrected in
      let right_interval = right_segment prior.interval corrected in
      let (left, e₁, h₁) = >>=-eq-ok (append_copy tx prior copies acceptance left_interval s) _ h in
      let (middle, e₂, h₂) =
        >>=-eq-ok (append_corrected tx prior kind writes acceptance corrected left.1) _ h₁ in
      let (right, e₃, h₃) =
        >>=-eq-ok (append_copy tx prior copies acceptance right_interval middle.1) _ h₂ in
      of_ok (λ r. Extends s r.1) h₃
        (Extends-trans s left.1 right.1 (append_copy_lem copies left_interval s left e₁) (
          Extends-trans left.1 middle.1 right.1
            (append_corrected_lem kind writes corrected left.1 middle e₂)
            (append_copy_lem copies right_interval middle.1 right e₃)))

  pub split_lem :
      (window : Interval) (kind : Kind) (copies writes : Bool) (s : State) (r : Segments × State)
      → split tx prior window kind copies writes acceptance s ≡ ok r
      → Extends s r.1
  unfolding split
  split_lem window kind copies writes s r h =
      elim (Option-cases (clipped_to window prior.interval)) [
        | inl e ↦ let k = rw (e, split) at h in cc
        | inr (corrected, e) ↦
            append_segments_lem kind copies writes corrected s r (rw (e, split) at h)
      ]

pub replace_interval_lem :
    (tx : Transaction) (prior_id from : ℕ) (until : Option ℕ) (copies writes : Bool)
    (acceptance : Acceptance) (s : State) (r : Segments × State)
    → replace_interval tx prior_id from until copies writes acceptance s ≡ ok r
    → Extends s r.1
unfolding replace_interval
replace_interval_lem tx prior_id from until copies writes acceptance s r h =
    let (window, _, h₁) = >>=-eq-ok (make_interval from until) _ h in
    let (prior, _, h₂) = >>=-eq-ok (acceptable_prior prior_id s) _ h₁ in
    let (registered, _, h₃) = >>=-eq-ok (locked_object prior.object_id s) _ h₂ in
    split_lem tx prior acceptance window supersession copies writes s r h₃

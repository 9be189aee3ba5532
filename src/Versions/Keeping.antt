-- ===== src/Versions/Keeping.antt =====
-- What the operations leave current.
use vvz_doc_store.Prelude.{
  ℕ, suc, ◌+◌, length, length-append, ◌≡◌, refl, ap, ◌∙◌, inl, inr, String, Bool, true, false,
  Bool-cases, Option, none, some, List, [], ◌∷◌, ◌++◌, arith, ◌==◌, ==_refl, ok, >>=-eq-ok,
  >>-eq-ok, raise_if-eq-ok, of_ok,
}
use vvz_doc_store.Text.{Text, text_eq, text_eq_sound}
use vvz_doc_store.Versions.{
  Version, Chunk, Call, version_by_no, version_by_id, activate_rows, activate, max_version_no,
  insert_version, current_version, assert_expected_current,
}
use vvz_doc_store.Versions.Operations.{
  Outcome, holds_text, id_of, require_version, append_and_activate, restore_version, set_current,
}
use vvz_doc_store.Versions.Numbers.{version_by_id-of_no}
use vvz_doc_store.Versions.Coherent.{
  OnlyCurrent, IsCoherent, Ordered, activate-IsCoherent, activate_rows-OnlyCurrent,
  version_by_id-activate_rows,
}

-- A coherent chunk whose text is this one.
abbrev pub Shows : Text → Chunk → Type 0
Shows text c = IsCoherent c × (c.projection.text ≡ text)

activate-Shows :
    (call : Call) (row : Version) (operation : Option String) (c : Chunk)
    → version_by_id row.id c.versions ≡ some row
    → Shows row.text (activate call row operation c)
unfolding activate
activate-Shows call row operation c h = (activate-IsCoherent call row operation c h, refl)

version_by_id-snoc :
    (vs : List Version) (row : Version)
    → version_by_id row.id vs ≡ none
    → version_by_id row.id (vs ++ row ∷ []) ≡ some row
unfolding version_by_id
version_by_id-snoc [] row h = rw (==_refl row.id) refl
version_by_id-snoc (v ∷ vs) row h = ground (arith, version_by_id-snoc vs row)

-- An inserted version, activated.
insert_version-Shows :
    (call : Call) (text : Text) (operation : String) (previous restored_from : Option ℕ) (c : Chunk)
    → version_by_id call.new_id c.versions ≡ none
    → let inserted = insert_version call text operation previous restored_from c in
      Shows text (activate call inserted.0 (some operation) inserted.1)
unfolding insert_version
insert_version-Shows call text operation previous restored_from c fresh =
    let inserted = insert_version call text operation previous restored_from c in
    activate-Shows call inserted.0 (some operation) inserted.1
      (version_by_id-snoc c.versions inserted.0 fresh)

holds_text-Shows :
    (c : Chunk) (text : Text)
    → IsCoherent c
    → holds_text (current_version c) text ≡ true
    → Shows text c
unfolding current_version holds_text
holds_text-Shows c text k h =
    let e : text_eq k.row.text text ≡ true = rw (k.named, k.projects.there) at h in
    (k, k.projects.text ∙ text_eq_sound k.row.text text e)

-- After an append or an update of a coherent chunk that succeeds, with an identifier that no version has, the
-- chunk is coherent and its text is the given one, whether a version was appended or not.
pub append_and_activate-Shows :
    (call : Call) (text : Text) (operation : String) (expected : Option ℕ) (c : Chunk)
    (r : Outcome × Chunk)
    → IsCoherent c
    → version_by_id call.new_id c.versions ≡ none
    → append_and_activate call text operation expected c ≡ ok r
    → Shows text r.1
unfolding append_and_activate
append_and_activate-Shows call text operation expected c r k fresh h =
    let (_, h₁) = >>-eq-ok (assert_expected_current expected c) _ h in
    elim (Bool-cases (holds_text (current_version c) text)) [
      | inl same ↦ of_ok (λ r. Shows text r.1) (rw same at h₁) (holds_text-Shows c text k same)
      | inr other ↦
          of_ok (λ r. Shows text r.1) (rw other at h₁)
            (insert_version-Shows call text operation (id_of (current_version c)) none c fresh)
    ]

pub require_version-ok :
    (hidden : Bool) (n : ℕ) (c : Chunk) (row : Version)
    → require_version hidden n c ≡ ok row
    → version_by_no n c.versions ≡ some row
unfolding require_version
require_version-ok hidden n c row h = ground arith

require_version-open :
    (n : ℕ) (c : Chunk) (row : Version) → require_version false n c ≡ ok row → row.deleted_at ≡ none
unfolding require_version
require_version-open n c row h = ground arith

-- A version in the table that is restored from another one: with the next number, and with that one's text.
pub record RestoredFrom (origin : Version) (before : Chunk) (row : Version) : Type 0 where
  pub source : row.restored_from ≡ some origin.id
  pub number : row.version_no ≡ max_version_no before.versions + 1
  pub text : row.text ≡ origin.text

-- A chunk with one more version, which it names.
pub record Restores (source : Version) (new_id : ℕ) (before after : Chunk) : Type 0 where
  pub named : after.current ≡ some new_id
  pub counted : length after.versions ≡ suc (length before.versions)
  pub new :
      (row : Version) × (version_by_id new_id after.versions ≡ some row)
      × RestoredFrom source before row

activate_rows-length :
    (call : Call) (id : ℕ) (operation : Option String) (vs : List Version)
    → length (activate_rows call id operation vs) ≡ length vs
unfolding activate_rows
activate_rows-length call id operation [] = refl
activate_rows-length call id operation (v ∷ vs) = ap suc (activate_rows-length call id operation vs)

insert_version-Restores :
    (call : Call) (source : Version) (operation : String) (previous : Option ℕ) (c : Chunk)
    → version_by_id call.new_id c.versions ≡ none
    → let inserted = insert_version call source.text operation previous (some source.id) c in
      Restores source call.new_id c (activate call inserted.0 (some operation) inserted.1)
unfolding insert_version activate
insert_version-Restores call source operation previous c fresh =
    let inserted = insert_version call source.text operation previous (some source.id) c in
    let (w, found, kept, live) =
      version_by_id-activate_rows call call.new_id (some operation) inserted.1.versions inserted.0
        (version_by_id-snoc c.versions inserted.0 fresh) in
    record {
      named = refl;
      counted =
          activate_rows-length call call.new_id (some operation) inserted.1.versions
          ∙ length-append c.versions (inserted.0 ∷ [])
          ∙ omega arith;
      new = (
        w,
        found,
        record { source = kept.same_restored; number = kept.same_no; text = kept.same_text },
      );
    }

-- After a version is restored, with an identifier that no version has, the chunk is coherent and its text is
-- that of the version under the given number. It has one more version, the current one, under the new identifier and
-- the next number, which holds that text and names the version that it was restored from.
pub restore_version-Shows :
    (call : Call) (n : ℕ) (expected : Option ℕ) (c : Chunk) (r : Outcome × Chunk)
    → version_by_id call.new_id c.versions ≡ none
    → restore_version call n expected c ≡ ok r
    → (source : Version) × (version_by_no n c.versions ≡ some source)
      × Shows source.text r.1
      × Restores source call.new_id c r.1
unfolding restore_version
restore_version-Shows call n expected c r fresh h =
    let (_, h₁) = raise_if-eq-ok (n == 0) _ _ h in
    let (source, e, h₂) = >>=-eq-ok (require_version true n c) _ h₁ in
    let (_, h₃) = >>-eq-ok (assert_expected_current expected c) _ h₂ in
    let (shown, restored) =
      of_ok (λ r. Shows source.text r.1 × Restores source call.new_id c r.1) h₃
        (
          insert_version-Shows call source.text "restore" none (some source.id) c fresh,
          insert_version-Restores call source "restore" none c fresh,
        ) in
    (source, require_version-ok true n c source e, shown, restored)

-- Where identifiers differ and numbers grow, a version that is set current is found under its number and not
-- marked as deleted; the chunk is coherent afterwards, it names that version and marks no other one as current,
-- and its text is that version's.
pub set_current-Shows :
    (call : Call) (n : ℕ) (c : Chunk) (r : Outcome × Chunk)
    → Ordered c.versions
    → set_current call n c ≡ ok r
    → (row : Version) × (version_by_no n c.versions ≡ some row)
      × (row.deleted_at ≡ none)
      × Shows row.text r.1
      × (r.1.current ≡ some row.id)
      × OnlyCurrent row.id r.1.versions
unfolding set_current activate
set_current-Shows call n c r o h =
    let (_, h₁) = raise_if-eq-ok (n == 0) _ _ h in
    let (row, e, h₂) = >>=-eq-ok (require_version false n c) _ h₁ in
    let found = require_version-ok false n c row e in
    let (shown, named, only) =
      of_ok
        (λ r. Shows row.text r.1 × (r.1.current ≡ some row.id) × OnlyCurrent row.id r.1.versions) h₂
        (
          activate-Shows call row (some "set_current") c
              (version_by_id-of_no n c.versions row o found),
          refl,
          activate_rows-OnlyCurrent call row.id (some "set_current") c.versions,
        ) in
    (row, found, require_version-open n c row e, shown, named, only)

-- ===== src/Temporal/Deletion.antt =====
-- `soft_delete` and `_delete_one`. The order of the accepted rows is left out: only one row at most is used.
use vvz_doc_store.Prelude.{
  ℕ, Bool, false, not, ◌&&◌, Option, none, some, List, [], ◌∷◌, ◌++◌, leb, ◌==◌, if◌then◌else◌, ok,
  err, ◌>>=◌, ◌>>◌, raise_if,
}
use vvz_doc_store.Text.{Text, text_eq}
use vvz_doc_store.Temporal.{
  Writes, Interval, overlaps, contains_interval, contains_instant, make_interval,
  ambiguous_interval, disjoint_window,
}
use vvz_doc_store.Temporal.Table.{
  deletion, Acceptance, Assertion, State, Transaction, superseded, append, locked_object,
}
use vvz_doc_store.Temporal.Writes.{
  payload_family, Until, unset, given, until_or, from_or, is_deletion, split,
}

-- The accepted rows of one object and family that are not deletions; `table` is the whole table.
unfoldable pub accepted_payload_rows : List Assertion → ℕ → Text → List Assertion → List Assertion
unfolding superseded
accepted_payload_rows table object_id family [] = []
accepted_payload_rows table object_id family (row ∷ rows) =
    let rest = accepted_payload_rows table object_id family rows in
    let accepted = row.object_id == object_id && not (superseded table row.assertion_id) in
    if accepted && (text_eq row.family family && not (is_deletion row.kind))
    then row ∷ rest
    else rest

unfoldable pub keep_overlapping : Interval → List Assertion → List Assertion
unfolding overlaps
keep_overlapping window [] = []
keep_overlapping window (row ∷ rows) =
    let rest = keep_overlapping window rows in
    if overlaps row.interval window then row ∷ rest else rest

unfoldable pub keep_containing : ℕ → List Assertion → List Assertion
unfolding contains_instant
keep_containing instant [] = []
keep_containing instant (row ∷ rows) =
    let rest = keep_containing instant rows in
    if contains_instant row.interval instant then row ∷ rest else rest

-- `rows[0] if rows else None`, where several rows are ambiguous.
unfoldable pub at_most_one : List Assertion → Writes (Option Assertion)
at_most_one [] = ok none
at_most_one (row ∷ []) = ok (some row)
at_most_one (row ∷ next ∷ rows) = err ambiguous_interval

unfoldable pub exactly_one : List Assertion → Writes Assertion
exactly_one (row ∷ []) = ok row
exactly_one _ = err ambiguous_interval

unfoldable pub row_for_window : Interval → List Assertion → Writes (Option Assertion)
unfolding exactly_one keep_overlapping contains_interval
row_for_window window [] = ok none
row_for_window window (row ∷ rows) = do
  prior ← exactly_one (keep_overlapping window (row ∷ rows))
  raise_if (not (contains_interval prior.interval window)) disjoint_window
  ok (some prior)

unfoldable pub row_for_instant : ℕ → List Assertion → Writes (Option Assertion)
unfolding exactly_one keep_containing
row_for_instant instant [] = ok none
row_for_instant instant (row ∷ rows) = do
  prior ← exactly_one (keep_containing instant (row ∷ rows))
  ok (some prior)

-- The assertion that the deletion corrects, by what the caller gives of the window.
unfoldable pub deletion_prior : Option ℕ → Until → List Assertion → Writes (Option Assertion)
unfolding make_interval at_most_one row_for_window row_for_instant
deletion_prior none until rows = at_most_one rows
deletion_prior (some from) unset rows = row_for_instant from rows
deletion_prior (some from) (given until) rows = do
  window ← make_interval from until
  row_for_window window rows

pub record Deleted : Type 0 where
  pub object_id : ℕ
  pub superseded_id : Option ℕ
  pub deletion : Assertion
  pub left : Option Assertion
  pub right : Option Assertion

-- Without a prior, a deletion assertion stands alone; with one, the window splits it.
unfoldable pub delete_from :
    Transaction
    → ℕ
    → Text
    → Option ℕ
    → Until
    → Bool
    → Acceptance
    → Option Assertion
    → State
    → Writes (Deleted × State)
unfolding make_interval append split
delete_from tx object_id family from until copies acceptance none s = do
  interval ← make_interval (from_or from tx.now) (until_or until none)
  appended ← append tx object_id family deletion interval none acceptance [] s
  ok (
    record {
      object_id = object_id;
      superseded_id = none;
      deletion = appended.0;
      left = none;
      right = none;
    },
    appended.1,
  )
delete_from tx object_id family from until copies acceptance (some prior) s = do
  window ← make_interval (from_or from prior.interval.start) (until_or until prior.interval.until)
  segments ← split tx prior window deletion copies false acceptance s
  ok (
    record {
      object_id = object_id;
      superseded_id = some prior.assertion_id;
      deletion = segments.0.corrected;
      left = segments.0.left;
      right = segments.0.right;
    },
    segments.1,
  )

unfoldable pub delete_one :
    Transaction
    → ℕ
    → Text
    → Option ℕ
    → Until
    → Option Text
    → Bool
    → Acceptance
    → State
    → Writes (Deleted × State)
unfolding payload_family accepted_payload_rows deletion_prior delete_from
delete_one tx object_id registered from until family? copies acceptance s = do
  family ← payload_family family? registered
  prior ← deletion_prior from until (accepted_payload_rows s.rows object_id family s.rows)
  delete_from tx object_id family from until copies acceptance prior s

-- The targets stand in the order of their identifiers, each once.
unfoldable pub insert_sorted : ℕ → Text → List (ℕ × Text) → List (ℕ × Text)
insert_sorted id registered [] = (id, registered) ∷ []
insert_sorted id registered ((other, kind) ∷ done) =
    if id == other
    then (other, kind) ∷ done
    else if leb id other
    then (id, registered) ∷ (other, kind) ∷ done
    else (other, kind) ∷ insert_sorted id registered done

-- `registries`: every target locked once, in order.
unfoldable pub lock_all : List ℕ → List (ℕ × Text) → State → Writes (List (ℕ × Text))
unfolding locked_object insert_sorted
lock_all [] done s = ok done
lock_all (id ∷ ids) done s = do
  registered ← locked_object id s
  lock_all ids (insert_sorted id registered done) s

unfoldable pub delete_targets :
    Transaction
    → List (ℕ × Text)
    → Option ℕ
    → Until
    → Option Text
    → Bool
    → Acceptance
    → State
    → Writes (List Deleted × State)
unfolding delete_one
delete_targets tx [] from until family? copies acceptance s = ok ([], s)
delete_targets tx ((id, registered) ∷ targets) from until family? copies acceptance s = do
  deleted ← delete_one tx id registered from until family? copies acceptance s
  rest ← delete_targets tx targets from until family? copies acceptance deleted.1
  ok (deleted.0 ∷ rest.0, rest.1)

-- The roots, then the registered descendants that a caller asks for, in the order of their identifiers.
unfoldable pub soft_delete :
    Transaction
    → List ℕ
    → List ℕ
    → Option ℕ
    → Until
    → Option Text
    → Bool
    → Acceptance
    → State
    → Writes (List Deleted × State)
unfolding lock_all delete_targets
soft_delete tx [] descendants from until family? copies acceptance s = ok ([], s)
soft_delete tx (root ∷ roots) descendants from until family? copies acceptance s = do
  targets ← lock_all ((root ∷ roots) ++ descendants) [] s
  delete_targets tx targets from until family? copies acceptance s

-- ===== src/Temporal/Table.antt =====
-- The table of assertions: its rows are appended, and a guard refuses a second accepted row over one instant.
use vvz_doc_store.Prelude.{
  ℕ, ◌+◌, max, Bool, false, not, ◌&&◌, ◌||◌, Option, none, some, List, [], ◌∷◌, ◌++◌, ◌==◌,
  if◌then◌else◌, contains, lookup, ok, err, ◌>>◌, raise_if,
}
use vvz_doc_store.Text.{Text, text_eq}
use vvz_doc_store.Temporal.{
  Writes, Interval, overlaps, object_not_registered, assertion_not_found, already_superseded,
  ambiguous_interval,
}

pub data Kind : Type 0 where
  payload interval_boundary supersession deletion restoration : Kind

pub record Acceptance : Type 0 where
  pub accepted_by : Option Text
  pub accepted_via : Option Text
  pub operation_id : Option ℕ
  pub comment : Option Text

pub record Assertion : Type 0 where
  pub assertion_id : ℕ
  pub object_id : ℕ
  pub family : Text
  pub kind : Kind
  pub revision_no : ℕ
  pub supersedes : Option ℕ
  pub interval : Interval
  pub recorded_at : ℕ
  pub acceptance : Acceptance

-- A call of a payload family's callback within the transaction.
pub data Call : Type 0 where
  copy : ℕ → ℕ → Call
  write : ℕ → Call

-- The registry gives an object's kind, which its table locator stands for; the calls are in order.
pub record State : Type 0 where
  pub rows : List Assertion
  pub registry : List (ℕ × Text)
  pub calls : List Call

-- What the database and Python give a transaction: its `now()`, and `uuid4()` over the rows so far.
pub record Transaction : Type 0 where
  pub now : ℕ
  pub uuid4 : List Assertion → ℕ

abbrev pub is_id : Option ℕ → ℕ → Bool
is_id none id = false
is_id (some other) id = other == id

-- `EXISTS (SELECT 1 … WHERE s.supersedes_assertion_id = a.assertion_id)`
unfoldable pub superseded : List Assertion → ℕ → Bool
superseded [] id = false
superseded (row ∷ rows) id = is_id row.supersedes id || superseded rows id

-- The rows of one object and family that share an instant.
unfoldable pub clash : Assertion → ℕ → Text → Interval → Bool
clash row object_id family interval =
    row.object_id == object_id && text_eq row.family family && overlaps row.interval interval

-- Some row of the list clashes; `table` is the whole table.
unfoldable pub clashes : List Assertion → ℕ → Text → Interval → List ℕ → List Assertion → Bool
unfolding clash superseded
clashes table object_id family interval ignore [] = false
clashes table object_id family interval ignore (row ∷ rows) =
    not (contains row.assertion_id ignore)
      && (not (superseded table row.assertion_id) && clash row object_id family interval)
    || clashes table object_id family interval ignore rows

unfoldable pub guard_unambiguous : List Assertion → ℕ → Text → Interval → List ℕ → Writes (Unit {0})
unfolding clashes
guard_unambiguous rows object_id family interval ignore =
    raise_if (clashes rows object_id family interval ignore rows) ambiguous_interval

-- `COALESCE(MAX(revision_no), 0)` over the object's rows.
unfoldable pub max_revision : ℕ → List Assertion → ℕ
max_revision object_id [] = 0
max_revision object_id (row ∷ rows) =
    let rest = max_revision object_id rows in
    if row.object_id == object_id then max row.revision_no rest else rest

unfoldable pub new_row :
    Transaction → List Assertion → ℕ → Text → Kind → Interval → Option ℕ → Acceptance → Assertion
unfolding max_revision
new_row tx rows object_id family kind interval supersedes acceptance = record {
  assertion_id = tx.uuid4 rows;
  object_id = object_id;
  family = family;
  kind = kind;
  revision_no = max_revision object_id rows + 1;
  supersedes = supersedes;
  interval = interval;
  recorded_at = tx.now;
  acceptance = acceptance;
}

unfoldable pub append :
    Transaction
    → ℕ
    → Text
    → Kind
    → Interval
    → Option ℕ
    → Acceptance
    → List ℕ
    → State
    → Writes (Assertion × State)
unfolding guard_unambiguous new_row
append tx object_id family kind interval supersedes acceptance ignore s = do
  guard_unambiguous s.rows object_id family interval ignore
  let row = new_row tx s.rows object_id family kind interval supersedes acceptance
  ok (row, record s { rows = s.rows ++ row ∷ [] })

unfoldable pub locked_object : ℕ → State → Writes Text
locked_object object_id s = elim (lookup object_id s.registry) [
  | none ↦ err object_not_registered
  | some kind ↦ ok kind
]

unfoldable pub find : ℕ → List Assertion → Option Assertion
find id [] = none
find id (row ∷ rows) = if row.assertion_id == id then some row else find id rows

unfoldable pub acceptable_prior : ℕ → State → Writes Assertion
unfolding find superseded
acceptable_prior id s = elim (find id s.rows) [
  | none ↦ err assertion_not_found
  | some row ↦ if superseded s.rows id then err already_superseded else ok row
]

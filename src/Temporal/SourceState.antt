-- ===== src/Temporal/SourceState.antt =====
-- ingestion/runtime_boundary.py: `_append_source_state`, which writes to the table of assertions without the guard of
-- `TemporalAssertionService`. The payload's own row, in `source_states`, is left out.
use vvz_doc_store.Prelude.{
  ℕ, not, ◌&&◌, Option, none, some, List, [], ◌∷◌, ◌++◌, ◌==◌, ltb, if◌then◌else◌, lookup, ok, err,
}
use vvz_doc_store.Text.{Text, text_eq}
use vvz_doc_store.Temporal.{Writes, value_error}
use vvz_doc_store.Temporal.Table.{
  Kind, payload, supersession, Acceptance, Assertion, State, Transaction, superseded, new_row,
}
use vvz_doc_store.Temporal.Writes.{is_deletion}

-- `SOURCE_STATE_PAYLOAD_FAMILY`, "source_state".
abbrev pub source_state_family : Text
source_state_family = 115 ∷ 111 ∷ 117 ∷ 114 ∷ 99 ∷ 101 ∷ 95 ∷ 115 ∷ 116 ∷ 97 ∷ 116 ∷ 101 ∷ []

-- The accepted state with the greatest revision number, `ORDER BY a.revision_no DESC LIMIT 1`.
unfoldable pub accepted_state : List Assertion → ℕ → List Assertion → Option Assertion
unfolding superseded
accepted_state table object_id [] = none
accepted_state table object_id (row ∷ rows) =
    let rest = accepted_state table object_id rows in
    let is_state = row.object_id == object_id && text_eq row.family source_state_family in
    if is_state && (not (is_deletion row.kind) && not (superseded table row.assertion_id))
    then elim rest [
      | none ↦ some row
      | some other ↦ if ltb other.revision_no row.revision_no then some row else some other
    ]
    else rest

abbrev pub state_kind : Option Assertion → Kind
state_kind none = payload
state_kind (some row) = supersession

abbrev pub state_prior : Option Assertion → Option ℕ
state_prior none = none
state_prior (some row) = some row.assertion_id

unfoldable pub append_source_state :
    Transaction → ℕ → Acceptance → State → Writes (Assertion × State)
unfolding accepted_state new_row
append_source_state tx document_id acceptance s = elim (lookup document_id s.registry) [
  | none ↦ err value_error
  | some locator ↦
      let prior = accepted_state s.rows document_id s.rows in
      let row =
        new_row tx s.rows document_id source_state_family (state_kind prior)
          (record { start = tx.now; until = none }) (state_prior prior) acceptance in
      ok (row, record s { rows = s.rows ++ row ∷ [] })
]

-- ===== src/Temporal/Writes.antt =====
-- The writes of `TemporalAssertionService`, each one transaction.
use vvz_doc_store.Prelude.{
  ℕ, Bool, true, false, not, ◌&&◌, ◌||◌, Option, none, some, [], ◌∷◌, ◌++◌, ltb, length, ◌==◌,
  if◌then◌else◌, ok, err, ◌>>=◌, ◌>>◌, raise_if,
}
use vvz_doc_store.Text.{Text}
use vvz_doc_store.Text.Words.{strip}
use vvz_doc_store.Temporal.{
  Writes, Interval, clipped_to, make_interval, left_segment, right_segment, disjoint_window,
  not_a_deletion, value_error,
}
use vvz_doc_store.Temporal.Table.{
  Kind, interval_boundary, supersession, deletion, restoration, Acceptance, Assertion, copy, write,
  State, Transaction, append, locked_object, acceptable_prior,
}

unfoldable pub payload_family : Option Text → Text → Writes Text
unfolding strip
payload_family none kind = ok kind
payload_family (some given) kind =
    let family = strip given in
    if length family == 0 || ltb 64 (length family) then err value_error else ok family

-- `effective_until` as a caller leaves it: `UNSET`, or a bound.
pub data Until : Type 0 where
  unset : Until
  given : Option ℕ → Until

abbrev pub until_or : Until → Option ℕ → Option ℕ
until_or unset until = until
until_or (given until) default = until

abbrev pub from_or : Option ℕ → ℕ → ℕ
from_or none default = default
from_or (some from) default = from

abbrev pub is_deletion : Kind → Bool
is_deletion deletion = true
is_deletion _ = false

-- A callback runs where it is given.
unfoldable pub copy_payload : Bool → ℕ → ℕ → State → State
copy_payload false source target s = s
copy_payload true source target s = record s { calls = s.calls ++ copy source target ∷ [] }

-- `corrected_kind != "deletion" and payload_writer is not None`
unfoldable pub write_payload : Bool → Kind → ℕ → State → State
write_payload writes kind target s =
    if not (is_deletion kind) && writes
    then record s { calls = s.calls ++ write target ∷ [] }
    else s

unfoldable pub create_assertion :
    Transaction
    → ℕ
    → ℕ
    → Option ℕ
    → Option Text
    → Kind
    → Acceptance
    → State
    → Writes (Assertion × State)
unfolding make_interval locked_object payload_family
create_assertion tx object_id from until family? kind acceptance s = do
  interval ← make_interval from until
  registered ← locked_object object_id s
  family ← payload_family family? registered
  append tx object_id family kind interval none acceptance [] s

unfoldable pub supersede_assertion :
    Transaction
    → ℕ
    → Option ℕ
    → Until
    → Kind
    → Bool
    → Acceptance
    → State
    → Writes (Assertion × State)
unfolding acceptable_prior locked_object make_interval copy_payload
supersede_assertion tx prior_id from until kind copies acceptance s = do
  prior ← acceptable_prior prior_id s
  registered ← locked_object prior.object_id s
  interval ← make_interval (from_or from prior.interval.start) (until_or until prior.interval.until)
  appended ←
      append tx prior.object_id prior.family kind interval (some prior_id) acceptance
        (prior_id ∷ []) s
  ok (appended.0, copy_payload copies prior_id appended.0.assertion_id appended.1)

unfoldable pub close_interval :
    Transaction → ℕ → Option ℕ → Bool → Acceptance → State → Writes (Assertion × State)
unfolding supersede_assertion
close_interval tx prior_id until copies acceptance =
    supersede_assertion tx prior_id none (given until) interval_boundary copies acceptance

pub record Segments : Type 0 where
  pub left : Option Assertion
  pub corrected : Assertion
  pub right : Option Assertion

-- One round of the loop for an original copy, which an empty segment skips.
unfoldable pub append_copy :
    Transaction
    → Assertion
    → Bool
    → Acceptance
    → Option Interval
    → State
    → Writes (Option Assertion × State)
unfolding copy_payload
append_copy tx prior copies acceptance none s = ok (none, s)
append_copy tx prior copies acceptance (some interval) s = do
  let id = prior.assertion_id
  appended ←
      append tx prior.object_id prior.family prior.kind interval (some id) acceptance (id ∷ []) s
  ok (some appended.0, copy_payload copies id appended.0.assertion_id appended.1)

-- The round for the corrected segment.
unfoldable pub append_corrected :
    Transaction
    → Assertion
    → Kind
    → Bool
    → Acceptance
    → Interval
    → State
    → Writes (Assertion × State)
unfolding write_payload
append_corrected tx prior kind writes acceptance interval s = do
  let id = prior.assertion_id
  appended ← append tx prior.object_id prior.family kind interval (some id) acceptance (id ∷ []) s
  ok (appended.0, write_payload writes kind appended.0.assertion_id appended.1)

unfoldable pub append_segments :
    Transaction
    → Assertion
    → Kind
    → Bool
    → Bool
    → Acceptance
    → Interval
    → State
    → Writes (Segments × State)
unfolding append_copy append_corrected left_segment right_segment
append_segments tx prior kind copies writes acceptance corrected s = do
  left ← append_copy tx prior copies acceptance (left_segment prior.interval corrected) s
  middle ← append_corrected tx prior kind writes acceptance corrected left.1
  right ← append_copy tx prior copies acceptance (right_segment prior.interval corrected) middle.1
  ok (record { left = left.0; corrected = middle.0; right = right.0 }, right.1)

unfoldable pub split :
    Transaction
    → Assertion
    → Interval
    → Kind
    → Bool
    → Bool
    → Acceptance
    → State
    → Writes (Segments × State)
unfolding clipped_to append_segments
split tx prior window kind copies writes acceptance s = elim (clipped_to window prior.interval) [
  | none ↦ err disjoint_window
  | some corrected ↦ append_segments tx prior kind copies writes acceptance corrected s
]

unfoldable pub replace_interval :
    Transaction → ℕ → ℕ → Option ℕ → Bool → Bool → Acceptance → State → Writes (Segments × State)
unfolding make_interval acceptable_prior locked_object split
replace_interval tx prior_id from until copies writes acceptance s = do
  window ← make_interval from until
  prior ← acceptable_prior prior_id s
  registered ← locked_object prior.object_id s
  split tx prior window supersession copies writes acceptance s

unfoldable pub restore : Transaction → ℕ → Bool → Acceptance → State → Writes (Assertion × State)
unfolding acceptable_prior locked_object copy_payload
restore tx deletion_id copies acceptance s = do
  removed ← acceptable_prior deletion_id s
  raise_if (not (is_deletion removed.kind)) not_a_deletion
  registered ← locked_object removed.object_id s
  appended ←
      append tx removed.object_id removed.family restoration removed.interval (some deletion_id)
        acceptance (deletion_id ∷ []) s
  let source = from_or removed.supersedes deletion_id
  ok (appended.0, copy_payload copies source appended.0.assertion_id appended.1)

-- ===== src/Tests/Assertions.antt =====
-- The history of one document's assertions.
use vvz_doc_store.Prelude.{
  ℕ, ◌+◌, ◌≡◌, refl, true, false, map, Option, none, some, List, [], ◌∷◌, ◌++◌, ok, err, Pairwise,
  length,
}
use vvz_doc_store.Text.{Text}
use vvz_doc_store.Temporal.{
  Interval, clipped_to, overlaps, left_segment, right_segment, disjoint_window,
}
use vvz_doc_store.Temporal.Table.{
  Kind, payload, supersession, deletion, restoration, Acceptance, Assertion, copy, write, State,
  Transaction, append, superseded,
}
use vvz_doc_store.Temporal.Writes.{unset, create_assertion, Segments, replace_interval, restore}
use vvz_doc_store.Temporal.Deletion.{Deleted, soft_delete}
use vvz_doc_store.Temporal.SourceState.{source_state_family, append_source_state}
use vvz_doc_store.Temporal.Partition.{Clips, Covers, segments_lem}
use vvz_doc_store.Temporal.Steps.{created, replaced, Step, asserted, published}
use vvz_doc_store.Temporal.Histories.{
  Reachable, empty, after, Step-append_only, Numbered, Reachable-Numbered, NeverBoth, one_accepted,
}

abbrev tx : Transaction
tx = record { now = 50; uuid4 = λ rows. 100 + length rows }

abbrev acceptance : Acceptance
acceptance = record { accepted_by = none; accepted_via = none; operation_id = none; comment = none }

abbrev document : Text
document = 100 ∷ 111 ∷ 99 ∷ []

abbrev start : State
start = record { rows = []; registry = (1, document) ∷ []; calls = [] }

abbrev row : ℕ → Kind → ℕ → Option ℕ → ℕ → ℕ → Assertion
row id kind revision_no supersedes from until = record {
  assertion_id = id;
  object_id = 1;
  family = document;
  kind = kind;
  revision_no = revision_no;
  supersedes = supersedes;
  interval = record { start = from; until = some until };
  recorded_at = 50;
  acceptance = acceptance;
}

abbrev first_row : Assertion
first_row = row 100 payload 1 none 10 20

abbrev second : State
second = record { rows = first_row ∷ []; registry = (1, document) ∷ []; calls = [] }

create_run :
    create_assertion tx 1 10 (some 20) none payload acceptance start ≡ ok (first_row, second)
unfolding create_assertion append
create_run = refl

abbrev segments : Segments
segments = record {
  left = some (row 101 payload 2 (some 100) 10 12);
  corrected = row 102 supersession 3 (some 100) 12 15;
  right = some (row 103 payload 4 (some 100) 15 20);
}

abbrev third : State
third = record {
  rows =
      first_row
      ∷ row 101 payload 2 (some 100) 10 12
      ∷ row 102 supersession 3 (some 100) 12 15
      ∷ row 103 payload 4 (some 100) 15 20
      ∷ [];
  registry = (1, document) ∷ [];
  calls = copy 100 101 ∷ write 102 ∷ copy 100 103 ∷ [];
}

replace_run :
    replace_interval tx 100 12 (some 15) true true acceptance second ≡ ok (segments, third)
unfolding replace_interval append overlaps
replace_run = refl

-- The window starts where the original ends.
disjoint_run : replace_interval tx 100 20 none true true acceptance second ≡ err disjoint_window
unfolding replace_interval append overlaps
disjoint_run = refl

-- A whole interval is deleted, and restored.
deleted_run :
    (r : List Deleted × State) × (soft_delete tx (1 ∷ []) [] none unset none true acceptance second
      ≡ ok r)
    × (r.1.rows ≡ first_row ∷ row 101 deletion 2 (some 100) 10 20 ∷ [])
    × (r' : Assertion × State) × (restore tx 101 true acceptance r.1 ≡ ok r')
    × (r'.0 ≡ row 102 restoration 3 (some 101) 10 20)
unfolding soft_delete restore append
deleted_run = (_, refl, refl, _, refl, refl)

-- The document's state is published behind the corrections.
abbrev state_row : Assertion
state_row = record {
  assertion_id = 104;
  object_id = 1;
  family = source_state_family;
  kind = payload;
  revision_no = 5;
  supersedes = none;
  interval = record { start = 50; until = none };
  recorded_at = 50;
  acceptance = acceptance;
}

abbrev fourth : State
fourth = record {
  rows = third.rows ++ state_row ∷ [];
  registry = (1, document) ∷ [];
  calls = copy 100 101 ∷ write 102 ∷ copy 100 103 ∷ [];
}

publish_run : append_source_state tx 1 acceptance third ≡ ok (state_row, fourth)
unfolding append_source_state
publish_run = refl

publishes : Step third fourth
publishes = published tx 1 acceptance third (state_row, fourth) publish_run

reached : Reachable fourth
reached =
    after third fourth
      (after second third
        (after start second (empty start refl) (
          asserted start second (
            created tx 1 10 (some 20) none payload acceptance start (first_row, second)
              create_run)))
        (asserted second third
          (replaced tx 100 12 (some 15) true true acceptance second (segments, third) replace_run)))
      publishes

-- A published state that is deleted and published again leaves two accepted rows over one instant.
republished_run :
    (r : Assertion × State) × (append_source_state tx 1 acceptance start ≡ ok r)
    × (d : List Deleted × State) × (soft_delete tx
          (1 ∷ [])
          []
          none
          unset
          (some source_state_family)
          true
          acceptance
          r.1
        ≡ ok d)
    × (r' : Assertion × State) × (append_source_state tx 1 acceptance d.1 ≡ ok r')
    × (map (λ (a : Assertion). superseded r'.1.rows a.assertion_id) r'.1.rows
        ≡ true ∷ false ∷ false ∷ [])
    × (map (λ (a : Assertion). overlaps a.interval r'.0.interval) r'.1.rows
        ≡ true ∷ true ∷ true ∷ [])
unfolding soft_delete append_source_state append overlaps superseded
republished_run = (_, refl, _, refl, _, refl, refl, refl)

one_accepted_example : Pairwise (NeverBoth fourth.rows) fourth.rows
one_accepted_example = one_accepted fourth reached

Reachable-Numbered_example : Numbered fourth.rows
Reachable-Numbered_example = Reachable-Numbered fourth reached

Step-append_only_example :
    (new : List Assertion) × (fourth.rows ≡ third.rows ++ new) × (fourth.registry ≡ third.registry)
Step-append_only_example = Step-append_only third fourth publishes

abbrev window : Interval
window = record { start = 12; until = some 15 }

clipped : clipped_to window first_row.interval ≡ some window
unfolding clipped_to
clipped = refl

segments_lem_example :
    Clips window first_row.interval window
    × Covers first_row.interval
        (left_segment first_row.interval window)
        window
        (right_segment first_row.interval window)
segments_lem_example = segments_lem window first_row.interval window clipped

-- ===== src/Temporal.antt =====
-- runtime/temporal_assertions.py: the half-open effective intervals. An instant is the number of
-- microseconds since the first one that Python's `datetime` has, in UTC.
pub mod Table
pub mod Writes
pub mod Deletion
pub mod SourceState
pub mod Partition
pub mod Appending
pub mod Steps
pub mod Histories
pub mod Progress
pub mod Replacement
use vvz_doc_store.Prelude.{
  ℕ, ◌≤◌, ◌<◌, min, max, Bool, true, false, not, ◌&&◌, Option, none, some, ltb, leb, if◌then◌else◌,
  Result, ok, err,
}

-- The codes of `TemporalAssertionError`; `value_error` is any of the module's `ValueError`s.
pub data TemporalError : Type 0 where
  object_not_registered assertion_not_found already_superseded : TemporalError
  invalid_interval ambiguous_interval disjoint_window not_a_deletion value_error : TemporalError

abbrev pub Writes : Type 0 → Type 0
Writes = Result TemporalError

-- `until` is `none` for an interval without an end.
pub record Interval : Type 0 where
  pub start : ℕ
  pub until : Option ℕ

unfoldable pub before : Option ℕ → Option ℕ → Bool
before left none = true
before none (some right) = false
before (some left) (some right) = ltb left right

unfoldable pub earliest : Option ℕ → Option ℕ → Option ℕ
earliest none right = right
earliest (some left) none = some left
earliest (some left) (some right) = some (min left right)

unfoldable pub overlaps : Interval → Interval → Bool
unfolding before
overlaps a b = before (some a.start) b.until && before (some b.start) a.until

unfoldable pub clipped_to : Interval → Interval → Option Interval
unfolding before earliest
clipped_to a b =
    let start = max a.start b.start in
    let until = earliest a.until b.until in
    if not (before (some start) until) then none else some (record { start = start; until = until })

unfoldable pub contains_instant : Interval → ℕ → Bool
unfolding before
contains_instant container instant =
    leb container.start instant && before (some instant) container.until

ends_inside : Option ℕ → Option ℕ → Bool
ends_inside none contained = true
ends_inside (some container) none = false
ends_inside (some container) (some contained) = leb contained container

unfoldable pub contains_interval : Interval → Interval → Bool
unfolding ends_inside
contains_interval container contained =
    if ltb contained.start container.start
    then false
    else ends_inside container.until contained.until

-- `_interval`, for instants that are parsed already.
unfoldable pub make_interval : ℕ → Option ℕ → Writes Interval
make_interval start none = ok (record { start = start; until = none })
make_interval start (some until) =
    if leb until start
    then err invalid_interval
    else ok (record { start = start; until = some until })

-- An interval that has an instant.
abbrev pub IsProper : Interval → Type 0
IsProper i = elim i.until [ none ↦ Unit | some until ↦ i.start < until ]

-- The two copies that a correction leaves of the original.
unfoldable pub left_segment : Interval → Interval → Option Interval
left_segment original corrected =
    if ltb original.start corrected.start
    then some (record { start = original.start; until = some corrected.start })
    else none

unfoldable pub right_segment : Interval → Interval → Option Interval
unfolding before
right_segment original corrected = elim corrected.until [
  | none ↦ none
  | some until ↦
      if before (some until) original.until
      then some (record { start = until; until = original.until })
      else none
]

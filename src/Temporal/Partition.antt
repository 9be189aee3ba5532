-- ===== src/Temporal/Partition.antt =====
-- A corrected interval and the copies beside it.
use vvz_doc_store.Prelude.{ℕ, ◌≡◌, Bool, false, ◌&&◌, ◌||◌, Option, none, some, arith}
use vvz_doc_store.Temporal.{
  Interval, IsProper, before, earliest, overlaps, clipped_to, contains_instant, left_segment,
  right_segment,
}

abbrev pub covers : Option Interval → ℕ → Bool
covers none t = false
covers (some i) t = contains_instant i t

abbrev mk : ℕ → Option ℕ → Interval
mk start until = record { start = start; until = until }

-- What a corrected interval and its original have to do with a window.
abbrev pub Clips : Interval → Interval → Interval → Type 0
Clips window original corrected =
    IsProper corrected
    × ((t : ℕ)
        → contains_instant corrected t ≡ contains_instant window t && contains_instant original t)

clipped_to-of :
    (w : ℕ) (v : Option ℕ) (o : ℕ) (u : Option ℕ) (corrected : Interval)
    → clipped_to (mk w v) (mk o u) ≡ some corrected
    → Clips (mk w v) (mk o u) corrected
unfolding clipped_to before earliest contains_instant
clipped_to-of w v o u corrected h = ground arith

-- The clipped interval is proper, and has the instants of both.
pub clipped_to_lem :
    (window original corrected : Interval)
    → clipped_to window original ≡ some corrected
    → Clips window original corrected
clipped_to_lem window original corrected h =
    clipped_to-of window.start window.until original.start original.until corrected h

abbrev pub ProperSegment : Option Interval → Type 0
ProperSegment none = Unit
ProperSegment (some i) = IsProper i

-- Three segments that cover an interval, no instant twice.
pub record Covers (original : Interval) (left : Option Interval) (corrected : Interval)
    (right : Option Interval) : Type 0 where
  pub whole :
      (t : ℕ)
      → contains_instant original t
        ≡ covers left t || contains_instant corrected t || covers right t
  pub left_apart : (t : ℕ) → covers left t && contains_instant corrected t ≡ false
  pub right_apart : (t : ℕ) → contains_instant corrected t && covers right t ≡ false
  pub ends_apart : (t : ℕ) → covers left t && covers right t ≡ false
  pub left_proper : ProperSegment left
  pub right_proper : ProperSegment right

segments-of :
    (w : ℕ) (v : Option ℕ) (o : ℕ) (u : Option ℕ) (corrected : Interval)
    → clipped_to (mk w v) (mk o u) ≡ some corrected
    → Covers (mk o u) (left_segment (mk o u) corrected) corrected (right_segment (mk o u) corrected)
unfolding clipped_to before earliest contains_instant left_segment right_segment
segments-of w v o u corrected h = record {
  whole = λ t. ground arith;
  left_apart = λ t. ground arith;
  right_apart = λ t. ground arith;
  ends_apart = λ t. ground arith;
  left_proper = ground arith;
  right_proper = ground arith;
}

-- Where a window clips an original interval, the corrected segment is proper and has the instants of both;
-- with the copies left and right of it, it covers exactly the original, no instant twice, and no copy is
-- empty.
pub segments_lem :
    (window original corrected : Interval)
    → clipped_to window original ≡ some corrected
    → Clips window original corrected
      × Covers original
          (left_segment original corrected)
          corrected
          (right_segment original corrected)
segments_lem window original corrected h = (
  clipped_to_lem window original corrected h,
  segments-of window.start window.until original.start original.until corrected h,
)

clipped_to-none-of :
    (w : ℕ) (v : Option ℕ) (o : ℕ) (u : Option ℕ)
    → clipped_to (mk w v) (mk o u) ≡ none
    → (t : ℕ) → contains_instant (mk w v) t && contains_instant (mk o u) t ≡ false
unfolding clipped_to before earliest contains_instant
clipped_to-none-of w v o u h t = ground arith

-- A window that clips nothing shares no instant with the original.
pub clipped_to-none :
    (window original : Interval)
    → clipped_to window original ≡ none
    → (t : ℕ) → contains_instant window t && contains_instant original t ≡ false
clipped_to-none window original =
    clipped_to-none-of window.start window.until original.start original.until

-- An empty segment overlaps nothing.
abbrev pub overlap : Option Interval → Option Interval → Bool
overlap none right = false
overlap (some left) none = false
overlap (some left) (some right) = overlaps left right

abbrev pub Within : Option Interval → Interval → Type 0
Within part whole =
    (other : Interval) → overlaps other whole ≡ false → overlap (some other) part ≡ false

-- How three segments lie in an original interval, as the guard of the table reads it.
pub record Fits (original : Interval) (left corrected right : Option Interval) : Type 0 where
  pub left_within : Within left original
  pub corrected_within : Within corrected original
  pub right_within : Within right original
  pub left_corrected : overlap left corrected ≡ false
  pub left_right : overlap left right ≡ false
  pub corrected_right : overlap corrected right ≡ false

Fits-of :
    (w : ℕ) (v : Option ℕ) (o : ℕ) (u : Option ℕ) (corrected : Interval)
    → clipped_to (mk w v) (mk o u) ≡ some corrected
    → Fits
        (mk o u)
        (left_segment (mk o u) corrected)
        (some corrected)
        (right_segment (mk o u) corrected)
unfolding clipped_to before earliest overlaps left_segment right_segment
Fits-of w v o u corrected h = record {
  left_within = λ other no. ground arith;
  corrected_within = λ other no. ground arith;
  right_within = λ other no. ground arith;
  left_corrected = ground arith;
  left_right = ground arith;
  corrected_right = ground arith;
}

pub segments-Fits :
    (window original corrected : Interval)
    → clipped_to window original ≡ some corrected
    → Fits original
        (left_segment original corrected)
        (some corrected)
        (right_segment original corrected)
segments-Fits window original corrected h =
    Fits-of window.start window.until original.start original.until corrected h

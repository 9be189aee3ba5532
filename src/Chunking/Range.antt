-- ===== src/Chunking/Range.antt =====
-- ingestion/svo_chunking.py: the range that is found for a chunk.
use vvz_doc_store.Prelude.{
  ℕ, ◌+◌, ◌≤◌, ◌<◌, ◌≡◌, refl, ap, sym, subst, ◌∙◌, ◌⊎◌, inl, inr, true, false, ◌||◌, Bool-cases,
  Option, none, some, Option-cases, List, [], ◌∷◌, ◌++◌, append_assoc, arith, length, drop, take,
  All, ℤ, pos, negsuc, of_some, length-append, length-take, length-drop, take-append-drop,
}
use vvz_doc_store.Text.{Text, text_eq, text_eq_sound, cut, slice, slice-pos, cut-middle}
use vvz_doc_store.Text.Words.{is_empty, split, strip}
use vvz_doc_store.Text.Search.{find_in, find, search_words}
use vvz_doc_store.Text.Located.{Occurs, find_in-Occurs, search_words-Occurs}
use vvz_doc_store.Text.Spelling.{split-All, split-Spells, split-strip, strip-nil}
use vvz_doc_store.Chunking.{
  holds, take_candidates, range_candidates, is_exact, find_candidate, find_pattern, natural,
  resolve_runtime_range,
}

-- The words of one of the two bodies.
abbrev pub SameWords : Text → Text → Text → Type 0
SameWords raw_body text_body part = (split part ≡ split raw_body) ⊎ (split part ≡ split text_body)

-- A range behind the previous chunk and inside the source, whose text has the words of one of the bodies.
pub record IsLocated (source : Text) (previous_end : ℕ) (raw_body text_body : Text) (a b : ℕ)
    : Type 0 where
  pub behind : previous_end ≤ a
  pub not_empty : a < b
  pub inside : b ≤ length source
  pub words : SameWords raw_body text_body (cut source a b)

is_empty-false : (text : Text) → is_empty text ≡ false → 0 < length text
is_empty-false [] h = cc
is_empty-false (c ∷ text) h = omega arith

-- What occurs behind a place of the text.
Occurs-cut :
    (source : Text) (p : ℕ) (part : Text) (a b : ℕ)
    → Occurs (drop p source) part a b
    → 0 < length part
    → (a < b) × (p + b ≤ length source) × (cut source (p + a) (p + b) ≡ part)
Occurs-cut source p part a b o h =
    let from = o.from in
    let to = o.to in
    let long : length (drop p source) ≡ length (o.before ++ (part ++ o.after)) =
      ap length o.whole in
    let counted = length-append {0} o.before (part ++ o.after) in
    let counted' = length-append {0} part o.after in
    let dropped = length-drop {0} p source in
    let start = take p source ++ o.before in
    let whole : source ≡ start ++ (part ++ o.after) =
      sym (take-append-drop p source)
      ∙ ap (λ (t : Text). take p source ++ t) o.whole
      ∙ sym (append_assoc (take p source) o.before (part ++ o.after)) in
    let started : length start ≡ p + a =
      omega (arith, length-append {0} (take p source) o.before, length-take {0} p source) in
    let ended : length start + length part ≡ p + b = omega arith in
    (
      omega arith,
      omega arith,
      ap (λ (t : Text). cut t (p + a) (p + b)) whole
          ∙ subst (λ n. cut (start ++ (part ++ o.after)) n (p + b) ≡ part) started
              (subst (λ n. cut (start ++ (part ++ o.after)) (length start) n ≡ part) ended
                (cut-middle start part o.after)),
    )

-- What has the words of a text that is not blank is not empty.
not_blank :
    (part text : Text)
    → split part ≡ split (strip text)
    → is_empty (strip text) ≡ false
    → 0 < length part
unfolding split
not_blank [] text words full =
    let nothing : strip text ≡ [] = strip-nil text (sym (words ∙ split-strip text)) in
    let e = rw nothing at full in cc
not_blank (c ∷ part) text words full = omega arith

module _ (source : Text) (previous_end : ℕ) (raw_body text_body : Text) where
  abbrev Located : ℕ → ℕ → Type 0
  Located = IsLocated source previous_end raw_body text_body

  Occurs-Located :
      (part : Text) (a b : ℕ)
      → Occurs (drop previous_end source) part a b
      → 0 < length part
      → SameWords raw_body text_body part
      → Located (previous_end + a) (previous_end + b)
  Occurs-Located part a b o h same =
      let (less, inside, content) = Occurs-cut source previous_end part a b o h in
      record {
        behind = omega arith;
        not_empty = omega arith;
        inside = inside;
        words = subst (SameWords raw_body text_body) (sym content) same;
      }

  -- Candidates are not empty and have the words of a body.
  abbrev Fits : Text → Type 0
  Fits part = (0 < length part) × SameWords raw_body text_body part

  take_candidates-Fits :
      (values candidates : List Text)
      → All (SameWords raw_body text_body) candidates
      → All Fits (take_candidates values candidates)
  unfolding take_candidates
  take_candidates-Fits values [] h = tt
  take_candidates-Fits values (candidate ∷ candidates) h = elim (Bool-cases (is_empty candidate)) [
    | inl empty ↦ rw empty (take_candidates-Fits values candidates h.1)
    | inr full ↦ elim (Bool-cases (holds candidate values)) [
      | inl old ↦ rw (full, old) (take_candidates-Fits values candidates h.1)
      | inr new ↦
          rw (full, new)
            (
              (is_empty-false candidate full, h.0),
              take_candidates-Fits (candidate ∷ values) candidates h.1,
            )
    ]
  ]

  range_candidates-Fits : All Fits (range_candidates raw_body text_body)
  unfolding range_candidates
  range_candidates-Fits =
      take_candidates-Fits [] (raw_body ∷ text_body ∷ strip raw_body ∷ strip text_body ∷ [])
        (inl refl, (inr refl, (inl (split-strip raw_body), (inr (split-strip text_body), tt))))

  find_candidate-Located :
      (candidates : List Text) (a b : ℕ)
      → All Fits candidates
      → find_candidate source previous_end candidates ≡ some (a, b)
      → Located a b
  unfolding find_candidate find
  find_candidate-Located [] a b fits h = cc
  find_candidate-Located (candidate ∷ candidates) a b fits h =
      elim (Option-cases (find_in candidate (drop previous_end source))) [
        | inl missing ↦ find_candidate-Located candidates a b fits.1 (rw missing at h)
        | inr (n, found) ↦
            let e : ◌≡◌ {A = Option (ℕ × ℕ)}
                (some (previous_end + n, previous_end + n + length candidate)) (some (a, b)) =
              rw found at h in
            let there : Located (previous_end + n) (previous_end + (n + length candidate)) =
              Occurs-Located candidate n (n + length candidate)
                (find_in-Occurs candidate (drop previous_end source) n found) fits.0.0 fits.0.1 in
            let step : previous_end + (n + length candidate) ≡ previous_end + n + length candidate =
              omega arith in
            of_some (λ (m : ℕ × ℕ). Located (m.0) (m.1)) e
              (subst (λ k. Located (previous_end + n) k) step there)
      ]

  find_pattern-Located :
      (a b : ℕ) → find_pattern source previous_end text_body ≡ some (a, b) → Located a b
  unfolding find_pattern
  find_pattern-Located a b h = elim (Bool-cases (is_empty (strip text_body))) [
    | inl empty ↦ let e : ◌≡◌ {A = Option (ℕ × ℕ)} none (some (a, b)) = rw empty at h in cc
    | inr full ↦
        elim (Option-cases (search_words (split (strip text_body)) (drop previous_end source))) [
          | inl missing ↦
              let e : ◌≡◌ {A = Option (ℕ × ℕ)} none (some (a, b)) = rw (full, missing) at h in cc
          | inr ((i, j), found) ↦
              let e : ◌≡◌ {A = Option (ℕ × ℕ)} (some (previous_end + i, previous_end + j))
                  (some (a, b)) =
                rw (full, found) at h in
              let (part, o, spelled) =
                search_words-Occurs (split (strip text_body)) (drop previous_end source) i j
                  found in
              let words : split part ≡ split (strip text_body) =
                split-Spells (split (strip text_body)) part (split-All (strip text_body)) spelled in
              of_some (λ (m : ℕ × ℕ). Located (m.0) (m.1)) e
                (Occurs-Located part i j o (not_blank part text_body words full)
                  (inr (words ∙ split-strip text_body)))
        ]
  ]

  is_exact-Located :
      (start end : ℤ)
      → is_exact source previous_end start end raw_body text_body ≡ true
      → Located (natural start) (natural end)
  unfolding is_exact
  is_exact-Located (negsuc s) end h = absurd (ground arith)
  is_exact-Located (pos s) (negsuc e) h = absurd (ground arith)
  is_exact-Located (pos s) (pos e) h =
      let same : (text_eq (slice source (pos s) (pos e)) raw_body
            || text_eq (slice source (pos s) (pos e)) text_body)
          ≡ true =
        ground arith in
      record {
        behind = ground arith;
        not_empty = ground arith;
        inside = ground arith;
        words = elim (Bool-cases (text_eq (slice source (pos s) (pos e)) raw_body)) [
          | inl raw ↦ inl (ap split (sym (slice-pos source s e) ∙ text_eq_sound _ raw_body raw))
          | inr other ↦
              inr (
                ap split
                  (sym (slice-pos source s e) ∙ text_eq_sound _ text_body (rw other at same)))
        ];
      }

  -- A range that is found lies behind the previous chunk and inside the source text, is not empty, and its text has
  -- the words of one of the two bodies.
  pub resolve_runtime_range-IsLocated :
      (start end : ℤ) (a b : ℕ)
      → resolve_runtime_range source previous_end start end raw_body text_body ≡ some (a, b)
      → IsLocated source previous_end raw_body text_body a b
  unfolding resolve_runtime_range
  resolve_runtime_range-IsLocated start end a b h =
      elim (Bool-cases (is_exact source previous_end start end raw_body text_body)) [
        | inl exact ↦
            let e : ◌≡◌ {A = Option (ℕ × ℕ)} (some (natural start, natural end)) (some (a, b)) =
              rw exact at h in
            of_some (λ (m : ℕ × ℕ). Located (m.0) (m.1)) e (is_exact-Located start end exact)
        | inr other ↦
            elim (Option-cases
              (find_candidate source previous_end (range_candidates raw_body text_body))) [
                | inl missing ↦ find_pattern-Located a b (rw (other, missing) at h)
                | inr ((i, j), found) ↦
                    let e : ◌≡◌ {A = Option (ℕ × ℕ)} (some (i, j)) (some (a, b)) =
                      rw (other, found) at h in
                    of_some (λ (m : ℕ × ℕ). Located (m.0) (m.1)) e
                      (find_candidate-Located (range_candidates raw_body text_body) i j
                        range_candidates-Fits found)
              ]
      ]

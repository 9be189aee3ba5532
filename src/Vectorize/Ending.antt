-- ===== src/Vectorize/Ending.antt =====
-- runtime/vectorization.py: when the loop of `rebuild` ends.
use vvz_doc_store.Prelude.{
  ℕ, zero, suc, ◌+◌, ◌≤◌, ◌<◌, ◌≡◌, ◌≢◌, refl, ap, sym, ◌∙◌, ◌⊎◌, inl, inr, Bool, true, false, ◌||◌,
  Bool-cases, Option, none, some, Option-cases, List, [], ◌∷◌, arith, length, subst, of_some, ℤ,
  pos, ok,
}
use mathlib.Core.Path.{fun_ext}
use vvz_doc_store.Vectorize.{
  Tables, RebuildRequest, LoopState, is_flagged, is_behind, select_one, select_behind,
  select_flagged, batch_limit, last_id, Choice, choose_one, move_after, choose_behind, unless_empty,
  choose_flagged, choose, clear_document, persist, rebuilt, embedding_unavailable, RebuildOutcome,
  advance, run, initial, rebuild,
}
use vvz_doc_store.Vectorize.Counting.{
  count, count-map, count-is_behind, is_behind-clear, count-is_flagged, count-le-length,
}

abbrev pub all_of : Option ℤ → Bool → RebuildRequest
all_of limit dry = record {
  document_id = none;
  all_documents = true;
  document_limit = limit;
  dry_run = dry;
}

abbrev pub flagged_of : Option ℤ → Bool → RebuildRequest
flagged_of limit dry = record {
  document_id = none;
  all_documents = false;
  document_limit = limit;
  dry_run = dry;
}

abbrev pub one_of : ℕ → Bool → Option ℤ → Bool → RebuildRequest
one_of id all limit dry = record {
  document_id = some id;
  all_documents = all;
  document_limit = limit;
  dry_run = dry;
}

-- The choice of a request.
abbrev pub chosen : RebuildRequest → ℕ → LoopState → Choice
chosen request size s =
    choose request.document_id request.all_documents request.document_limit size s

module _ (embeds : List ℕ → Bool) (now : ℕ) (request : RebuildRequest) (size : ℕ) where
  abbrev Goes : ℕ → LoopState → Type 0
  Goes fuel s = (o : RebuildOutcome) × (run embeds now fuel request size s ≡ some o)

  pub run-stop :
      (fuel : ℕ) (s : LoopState)
      → chosen request size s ≡ none
      → run embeds now (suc fuel) request size s
        ≡ some (record { status = rebuilt; processed = s.processed; tables = s.tables })
  unfolding run
  run-stop fuel s h = rw (h, run) refl

  pub run-go :
      (fuel : ℕ) (s : LoopState) (docs : List ℕ) (after : Option ℕ)
      → chosen request size s ≡ some (docs, after)
      → (request.dry_run || embeds docs) ≡ true
      → run embeds now (suc fuel) request size s
        ≡ run embeds now fuel request size (advance embeds now request.dry_run s docs after)
  unfolding run
  run-go fuel s docs after h e = rw (h, run) (rw e refl)

  pub run-fail :
      (fuel : ℕ) (s : LoopState) (docs : List ℕ) (after : Option ℕ)
      → chosen request size s ≡ some (docs, after)
      → (request.dry_run || embeds docs) ≡ false
      → run embeds now (suc fuel) request size s
        ≡ some
            (record { status = embedding_unavailable; processed = s.processed; tables = s.tables })
  unfolding run
  run-fail fuel s docs after h e = rw (h, run) (rw e refl)

  -- A round ends the loop, or leaves it to the rounds behind it.
  ends_by_round :
      (fuel : ℕ) (s : LoopState)
      → ((docs : List ℕ) (after : Option ℕ)
          → chosen request size s ≡ some (docs, after)
          → (request.dry_run || embeds docs) ≡ true
          → Goes fuel (advance embeds now request.dry_run s docs after))
      → Goes (suc fuel) s
  ends_by_round fuel s behind = elim (Option-cases (chosen request size s)) [
    | inl stops ↦ (
      record { status = rebuilt; processed = s.processed; tables = s.tables },
      run-stop fuel s stops,
    )
    | inr ((docs, after), goes) ↦ elim (Bool-cases (request.dry_run || embeds docs)) [
      | inl embedded ↦
          let (o, e) = behind docs after goes embedded in
          (o, run-go fuel s docs after goes embedded ∙ e)
      | inr failed ↦ (
        record { status = embedding_unavailable; processed = s.processed; tables = s.tables },
        run-fail fuel s docs after goes failed,
      )
    ]
  ]

move_after-eq :
    (l docs : List ℕ) (after : Option ℕ)
    → move_after l ≡ some (docs, after)
    → (id : ℕ) × (rest : List ℕ) × (l ≡ id ∷ rest)
      × (docs ≡ id ∷ rest)
      × (after ≡ some (last_id id rest))
unfolding move_after
move_after-eq [] docs after h = cc
move_after-eq (id ∷ rest) docs after h = (id, rest, refl, cc, cc)

unless_empty-eq :
    (old : Option ℕ) (l docs : List ℕ) (after : Option ℕ)
    → unless_empty old l ≡ some (docs, after)
    → (id : ℕ) × (rest : List ℕ) × (l ≡ id ∷ rest) × (docs ≡ id ∷ rest)
unfolding unless_empty
unless_empty-eq old [] docs after h = cc
unless_empty-eq old (id ∷ rest) docs after h = (id, rest, refl, cc)

pub choose_behind-eq :
    (limit : Option ℕ) (s : LoopState) (docs : List ℕ) (after : Option ℕ)
    → choose_behind limit s ≡ some (docs, after)
    → (n id : ℕ) × (rest : List ℕ) × (limit ≡ some n)
      × (select_behind n s.after s.tables ≡ id ∷ rest)
      × (docs ≡ id ∷ rest)
      × (after ≡ some (last_id id rest))
unfolding choose_behind
choose_behind-eq none s docs after h = cc
choose_behind-eq (some n) s docs after h =
    let (id, rest, e, d, a) = move_after-eq (select_behind n s.after s.tables) docs after h in
    (n, id, rest, refl, e, d, a)

choose_flagged-eq :
    (limit : Option ℕ) (s : LoopState) (docs : List ℕ) (after : Option ℕ)
    → choose_flagged limit s ≡ some (docs, after)
    → (n id : ℕ) × (rest : List ℕ) × (select_flagged n s.tables ≡ id ∷ rest) × (docs ≡ id ∷ rest)
unfolding choose_flagged
choose_flagged-eq none s docs after h = cc
choose_flagged-eq (some n) s docs after h =
    let (id, rest, e, d) = unless_empty-eq s.after (select_flagged n s.tables) docs after h in
    (n, id, rest, e, d)

one_chosen :
    (id : ℕ) (s : LoopState) (docs : List ℕ) (after : Option ℕ)
    → s.processed ≡ []
    → choose_one id s ≡ some (docs, after)
    → select_one id s.tables ≡ docs
unfolding choose_one
one_chosen id s docs after e h =
    let h₁ : ◌≡◌ {A = Choice} (some (select_one id s.tables, s.after)) (some (docs, after)) =
      rw e at h in
    of_some (λ (c : List ℕ × Option ℕ). select_one id s.tables ≡ c.0) h₁ refl

one_left :
    (id : ℕ) (s : LoopState) (docs : List ℕ) (after : Option ℕ) (d : ℕ) (ds : List ℕ)
    → s.processed ≡ d ∷ ds
    → choose_one id s ≢ some (docs, after)
unfolding choose_one
one_left id s docs after d ds e h =
    let h₁ : ◌≡◌ {A = Choice} none (some (docs, after)) = rw e at h in cc

-- Flags do not change what lies behind.
count-behind_kept :
    (embeds : List ℕ → Bool) (now : ℕ) (dry : Bool) (s : LoopState) (docs : List ℕ)
    (after bound : Option ℕ)
    → count (is_behind bound) (advance embeds now dry s docs after).tables.documents
      ≡ count (is_behind bound) s.tables.documents
unfolding advance persist
count-behind_kept embeds now true s docs after bound = refl
count-behind_kept embeds now false s docs after bound =
    count-map (is_behind bound) (clear_document docs now) s.tables.documents
    ∙ ap (λ test. count test s.tables.documents) (fun_ext (λ d. is_behind-clear docs now bound d))

behind_shrinks :
    (embeds : List ℕ → Bool) (now : ℕ) (dry : Bool) (s : LoopState) (docs : List ℕ)
    (after : Option ℕ) (n id : ℕ) (rest : List ℕ)
    → select_behind n s.after s.tables ≡ id ∷ rest
    → after ≡ some (last_id id rest)
    → count
        (is_behind (advance embeds now dry s docs after).after)
        (advance embeds now dry s docs after).tables.documents
      < count (is_behind s.after) s.tables.documents
unfolding advance select_behind
behind_shrinks embeds now dry s docs after n id rest picked a =
    subst (λ k. k < count (is_behind s.after) s.tables.documents)
      (sym (count-behind_kept embeds now dry s docs after after))
      (subst
        (λ b. count (is_behind b) s.tables.documents < count (is_behind s.after) s.tables.documents)
        (sym a) (count-is_behind s.after n s.tables.documents id rest picked))

flagged_shrinks :
    (embeds : List ℕ → Bool) (now : ℕ) (s : LoopState) (docs : List ℕ) (after : Option ℕ) (n id : ℕ)
    (rest : List ℕ)
    → select_flagged n s.tables ≡ id ∷ rest
    → docs ≡ id ∷ rest
    → count
        (is_flagged (advance embeds now false s docs after).tables.files)
        (advance embeds now false s docs after).tables.documents
      < count (is_flagged s.tables.files) s.tables.documents
unfolding advance select_flagged
flagged_shrinks embeds now s docs after n id rest picked d =
    subst
      (λ c.
        count (is_flagged (persist c now s.tables).files) (persist c now s.tables).documents
        < count (is_flagged s.tables.files) s.tables.documents)
      (sym d) (count-is_flagged now n s.tables id rest picked)

module _ (embeds : List ℕ → Bool) (now : ℕ) (limit : Option ℤ) (size : ℕ) where
  -- All documents: every round moves on.
  ends_behind :
      (dry : Bool) (fuel : ℕ) (s : LoopState)
      → count (is_behind s.after) s.tables.documents < fuel
      → Goes embeds now (all_of limit dry) size fuel s
  unfolding choose
  ends_behind dry zero s h = absurd (omega arith)
  ends_behind dry (suc fuel) s h =
      ends_by_round embeds now (all_of limit dry) size fuel s λ docs after goes embedded.
        let (n, id, rest, e, picked, d, a) =
          choose_behind-eq (batch_limit limit size s.processed) s docs after goes in
        ends_behind dry fuel (advance embeds now dry s docs after)
          (omega (arith, behind_shrinks embeds now dry s docs after n id rest picked a))

  -- Flagged documents: every round clears a flag.
  ends_flagged :
      (fuel : ℕ) (s : LoopState)
      → count (is_flagged s.tables.files) s.tables.documents < fuel
      → Goes embeds now (flagged_of limit false) size fuel s
  unfolding choose
  ends_flagged zero s h = absurd (omega arith)
  ends_flagged (suc fuel) s h =
      ends_by_round embeds now (flagged_of limit false) size fuel s λ docs after goes embedded.
        let (n, id, rest, picked, d) =
          choose_flagged-eq (batch_limit limit size s.processed) s docs after goes in
        ends_flagged fuel (advance embeds now false s docs after)
          (omega (arith, flagged_shrinks embeds now s docs after n id rest picked d))

  -- One document: the second round ends the loop.
  ends_one :
      (id : ℕ) (all dry : Bool) (fuel : ℕ) (t : Tables) (d : ℕ) (ds : List ℕ)
      → select_one id t ≡ d ∷ ds
      → Goes embeds now (one_of id all limit dry) size (suc (suc fuel)) (initial t)
  unfolding choose choose_one advance
  ends_one id all dry fuel t d ds picked =
      ends_by_round embeds now (one_of id all limit dry) size (suc fuel) (initial t)
        λ docs after goes embedded.
          ends_by_round embeds now (one_of id all limit dry) size fuel
            (advance embeds now dry (initial t) docs after)
            λ docs' after' goes' embedded'.
              let same : d ∷ ds ≡ docs =
                sym picked ∙ one_chosen id (initial t) docs after refl goes in
              absurd (
                one_left id (advance embeds now dry (initial t) docs after) docs' after' d ds
                  (sym same) goes')

-- A request that the loop can meet: one document that lives, all documents, or the flagged ones where
-- flags are cleared.
abbrev pub Meets : Option ℕ → Bool → Bool → Tables → Type 0
Meets (some id) all dry t = select_one id t ≢ []
Meets none all dry t = (all ≡ true) ⊎ (dry ≡ false)

select_one-cases :
    (id : ℕ) (t : Tables)
    → (select_one id t ≡ []) ⊎ ((d : ℕ) × (ds : List ℕ) × (select_one id t ≡ d ∷ ds))
select_one-cases id t = cases (select_one id t)
  where
    cases : (l : List ℕ) → (l ≡ []) ⊎ ((d : ℕ) × (ds : List ℕ) × (l ≡ d ∷ ds))
    cases [] = inl refl
    cases (d ∷ ds) = inr (d, ds, refl)

run-ends :
    (embeds : List ℕ → Bool) (now : ℕ) (id : Option ℕ) (all : Bool) (limit : Option ℤ) (dry : Bool)
    (size fuel : ℕ) (t : Tables)
    → Meets id all dry t
    → length t.documents < fuel
    → Goes embeds now
        (record { document_id = id; all_documents = all; document_limit = limit; dry_run = dry })
        size
        (suc fuel)
        (initial t)
run-ends embeds now (some id) all limit dry size zero t m h = absurd (omega arith)
run-ends embeds now (some id) all limit dry size (suc fuel) t m h = elim (select_one-cases id t) [
  | inl empty ↦ absurd (m empty)
  | inr (d, ds, picked) ↦ ends_one embeds now limit size id all dry fuel t d ds picked
]
run-ends embeds now none true limit dry size fuel t m h =
    ends_behind embeds now limit size dry (suc fuel) (initial t)
      (omega (arith, count-le-length (is_behind none) t.documents))
run-ends embeds now none false limit true size fuel t (inl m) h = cc
run-ends embeds now none false limit true size fuel t (inr m) h = cc
run-ends embeds now none false limit false size fuel t m h =
    ends_flagged embeds now limit size (suc fuel) (initial t)
      (omega (arith, count-le-length (is_flagged t.files) t.documents))

-- For a positive batch size, and one document that lives, all documents, or the flagged ones where this is no
-- dry run: two rounds more than there are documents are enough for the loop to end, with or without a
-- limit, and whatever batches the service embeds.
pub rebuild-ends :
    (embeds : List ℕ → Bool) (now : ℕ) (request : RebuildRequest) (size fuel : ℕ) (t : Tables)
    → Meets request.document_id request.all_documents request.dry_run t
    → length t.documents + 2 ≤ fuel
    → (o : RebuildOutcome) × (rebuild embeds now fuel request (pos (suc size)) t ≡ ok (some o))
unfolding rebuild
rebuild-ends embeds now request size zero t m h = absurd (omega arith)
rebuild-ends embeds now request size (suc fuel) t m h =
    let (o, e) =
      run-ends embeds now request.document_id request.all_documents request.document_limit
        request.dry_run (suc size) fuel t m (omega arith) in
    (o, ap ok e)

-- ===== src/Sentences/Grouped.antt =====
-- ingestion/runtime_boundary.py: each paragraph is given its own sentences again.
use vvz_doc_store.Prelude.{
  ℕ, suc, ◌≤◌, ◌<◌, ◌≡◌, refl, ap, ap₂, ◌∙◌, Bool, true, false, not, ◌&&◌, ◌||◌, List, [], ◌∷◌,
  ◌++◌, append-nil, arith, ltb_ℤ, pos, ok, All,
}
use vvz_doc_store.Chunking.{RuntimeChunk}
use vvz_doc_store.Sentences.{
  keep, starts_inside, key_lt, insert_by_key, sort_chunks, no_chunk, sentence_chunks_for_paragraph,
}
use vvz_doc_store.Sentences.Placed.{Chained, Placed, concat}

keep-append :
    (test : RuntimeChunk → Bool) (xs ys : List RuntimeChunk)
    → keep test (xs ++ ys) ≡ keep test xs ++ keep test ys
unfolding keep
keep-append test [] ys = refl
keep-append test (x ∷ xs) ys = ground (arith, keep-append test xs ys)

pub Chained-weaken : (a b z : ℕ) (cs : List RuntimeChunk) → a ≤ b → Chained b z cs → Chained a z cs
Chained-weaken a b z [] i h = tt
Chained-weaken a b z (c ∷ cs) i (s, e, hs, he, j, k, l, h) = (s, e, hs, he, omega arith, k, l, h)

-- The ranges end at or before `limit`.
abbrev pub Before : ℕ → List RuntimeChunk → Type 0
Before limit = All (λ c. (s e : ℕ) × (c.start ≡ pos s) × (c.end ≡ pos e) × (s < e) × (e ≤ limit))

pub Before-le : (a b : ℕ) (cs : List RuntimeChunk) → a ≤ b → Before a cs → Before b cs
Before-le a b [] h t = tt
Before-le a b (c ∷ cs) h ((s, e, hs, he, i, j), t) =
    ((s, e, hs, he, i, omega arith), Before-le a b cs h t)

pub Before-append :
    (a : ℕ) (cs ds : List RuntimeChunk) → Before a cs → Before a ds → Before a (cs ++ ds)
Before-append a [] ds t u = u
Before-append a (c ∷ cs) ds t u = (t.0, Before-append a cs ds t.1 u)

pub Chained-Before : (a z : ℕ) (cs : List RuntimeChunk) → Chained a z cs → Before z cs
Chained-Before a z [] h = tt
Chained-Before a z (c ∷ cs) (s, e, hs, he, i, j, k, h) =
    ((s, e, hs, he, j, k), Chained-Before e z cs h)

-- The ranges start at or behind `limit`.
abbrev pub Behind : ℕ → List RuntimeChunk → Type 0
Behind limit = All (λ c. (s : ℕ) × (c.start ≡ pos s) × (limit ≤ s))

Behind-append :
    (a : ℕ) (cs ds : List RuntimeChunk) → Behind a cs → Behind a ds → Behind a (cs ++ ds)
Behind-append a [] ds t u = u
Behind-append a (c ∷ cs) ds t u = (t.0, Behind-append a cs ds t.1 u)

Chained-Behind : (l a z : ℕ) (cs : List RuntimeChunk) → l ≤ a → Chained a z cs → Behind l cs
Chained-Behind l a z [] i h = tt
Chained-Behind l a z (c ∷ cs) i (s, e, hs, he, j, k, m, h) =
    ((s, hs, omega arith), Chained-Behind l e z cs (omega arith) h)

pub Placed-Behind :
    (l a z : ℕ) (ps : List RuntimeChunk) (bs : List (List RuntimeChunk))
    → l ≤ a
    → Placed a z ps bs
    → Behind l (concat bs)
Placed-Behind l a z [] [] i h = tt
Placed-Behind l a z [] (b ∷ bs) i h = absurd h
Placed-Behind l a z (p ∷ ps) [] i h = absurd h
Placed-Behind l a z (p ∷ ps) (b ∷ bs) i (s, e, hs, he, j, k, m, full, c, h) =
    Behind-append l b (concat bs) (Chained-Behind l s e b (omega arith) c)
      (Placed-Behind l e z ps bs (omega arith) h)

module _ (p : RuntimeChunk) (a z : ℕ) (starts : p.start ≡ pos a) (ends : p.end ≡ pos z) where
  starts_inside-at :
      (c : RuntimeChunk) (s : ℕ)
      → c.start ≡ pos s
      → starts_inside p c ≡ (not (ltb_ℤ (pos s) (pos a)) && ltb_ℤ (pos s) (pos z))
  unfolding starts_inside
  starts_inside-at c s hs = ap₂ ◌&&◌ (ap not (ap₂ ltb_ℤ hs starts)) (ap₂ ltb_ℤ hs ends)

  -- Sentences in front of the paragraph are left out,
  keep-Before : (cs : List RuntimeChunk) → Before a cs → keep (starts_inside p) cs ≡ []
  unfolding keep
  keep-Before [] h = refl
  keep-Before (c ∷ cs) ((s, e, hs, he, i, j), h) =
      let out : starts_inside p c ≡ false = starts_inside-at c s hs ∙ ground arith in
      rw out (keep-Before cs h)

  -- those in the paragraph are kept,
  keep-Chained :
      (b : ℕ) (cs : List RuntimeChunk) → a ≤ b → Chained b z cs → keep (starts_inside p) cs ≡ cs
  unfolding keep
  keep-Chained b [] l h = refl
  keep-Chained b (c ∷ cs) l (s, e, hs, he, i, j, k, h) =
      let in' : starts_inside p c ≡ true = starts_inside-at c s hs ∙ ground arith in
      rw in' (ap (λ r. c ∷ r) (keep-Chained e cs (omega arith) h))

  -- and those behind it are left out.
  keep-Behind : (cs : List RuntimeChunk) → Behind z cs → keep (starts_inside p) cs ≡ []
  unfolding keep
  keep-Behind [] h = refl
  keep-Behind (c ∷ cs) ((s, hs, i), h) =
      let out : starts_inside p c ≡ false = starts_inside-at c s hs ∙ ground arith in
      rw out (keep-Behind cs h)

neither : {x y : Bool} (w : Bool) → x ≡ false → y ≡ true → (x || not y && w) ≡ false
neither w h k = ground arith

-- A sentence in front of others stays there.
insert_by_key-first :
    (c : RuntimeChunk) (cs : List RuntimeChunk) (s z : ℕ)
    → c.start ≡ pos s
    → Chained (suc s) z cs
    → insert_by_key c cs ≡ c ∷ cs
unfolding insert_by_key key_lt
insert_by_key-first c [] s z hs h = refl
insert_by_key-first c (d ∷ ds) s z hs (t, e, ht, he, i, j, k, h) =
    let later : key_lt d c ≡ false =
      neither _ (ap₂ ltb_ℤ ht hs ∙ ground arith) (ap₂ ltb_ℤ hs ht ∙ ground arith) in
    rw later refl

sort_chunks-Chained : (a z : ℕ) (cs : List RuntimeChunk) → Chained a z cs → sort_chunks cs ≡ cs
unfolding sort_chunks
sort_chunks-Chained a z [] h = refl
sort_chunks-Chained a z (c ∷ cs) (s, e, hs, he, i, j, k, h) =
    ap (insert_by_key c) (sort_chunks-Chained e z cs h)
    ∙ insert_by_key-first c cs s z hs (Chained-weaken (suc s) e z cs (omega arith) h)

-- A paragraph's own sentences, which are not empty, are what it is given.
pub sentence_chunks_for_paragraph-own :
    (p : RuntimeChunk) (before own later : List RuntimeChunk) (a z : ℕ)
    → p.start ≡ pos a
    → p.end ≡ pos z
    → Before a before
    → no_chunk own ≡ false
    → Chained a z own
    → Behind z later
    → sentence_chunks_for_paragraph p (before ++ (own ++ later)) ≡ ok own
unfolding sentence_chunks_for_paragraph
sentence_chunks_for_paragraph-own p before [] later a z starts ends f full c l = cc
sentence_chunks_for_paragraph-own p before (o ∷ own) later a z starts ends f full c l =
    let kept : keep (starts_inside p) (before ++ ((o ∷ own) ++ later)) ≡ o ∷ own =
      keep-append (starts_inside p) before ((o ∷ own) ++ later)
      ∙ ap₂ ◌++◌ (keep-Before p a z starts ends before f) (
          keep-append (starts_inside p) (o ∷ own) later
          ∙ ap₂ ◌++◌ (keep-Chained p a z starts ends a (o ∷ own) (omega arith) c)
              (keep-Behind p a z starts ends later l)
          ∙ append-nil (o ∷ own)) in
    rw kept (ap ok (sort_chunks-Chained a z (o ∷ own) c))

-- ===== src/Vectorize/Left.antt =====
-- runtime/vectorization.py: the documents that a round over all documents leaves.
use vvz_doc_store.Prelude.{
  ℕ, zero, suc, ◌≤◌, ◌<◌, ◌≡◌, refl, ap, ap₂, sym, ◌∙◌, inl, inr, Bool, true, false, Bool-cases,
  Option, none, some, List, [], ◌∷◌, ◌++◌, map, arith, take, drop, take-append-drop, contains,
  subst, if_cases, All,
}
use vvz_doc_store.Vectorize.{
  Document, LoopState, is_live, is_behind, filter_documents, document_ids, last_id, clear_document,
  persist, advance,
}
use vvz_doc_store.Vectorize.Counting.{Any, Any-filter, last-Any, is_behind-clear, is_behind_trans}

-- Ascending identifiers.
abbrev pub Ascending : List Document → Type 0
Ascending [] = Unit
Ascending (d ∷ ds) = All (λ (e : Document). d.id < e.id) ds × Ascending ds

All-filter :
    (P : Document → Type 0) (test : Document → Bool) (ds : List Document)
    → All P ds
    → All P (filter_documents test ds)
unfolding filter_documents
All-filter P test [] a = tt
All-filter P test (d ∷ ds) a = elim (Bool-cases (test d)) [
  | inl passes ↦ rw passes (a.0, All-filter P test ds a.1)
  | inr fails ↦ rw fails (All-filter P test ds a.1)
]

Ascending-filter :
    (test : Document → Bool) (ds : List Document)
    → Ascending ds
    → Ascending (filter_documents test ds)
unfolding filter_documents
Ascending-filter test [] a = tt
Ascending-filter test (d ∷ ds) a = elim (Bool-cases (test d)) [
  | inl passes ↦ rw passes (All-filter (λ e. d.id < e.id) test ds a.0, Ascending-filter test ds a.1)
  | inr fails ↦ rw fails (Ascending-filter test ds a.1)
]

filter-filter :
    (p q : Document → Bool) (ds : List Document)
    → ((d : Document) → p d ≡ true → q d ≡ true)
    → filter_documents p (filter_documents q ds) ≡ filter_documents p ds
unfolding filter_documents
filter-filter p q [] h = refl
filter-filter p q (d ∷ ds) h = ground (arith, h d, filter-filter p q ds h)

filter-All :
    (p : Document → Bool) (ds : List Document)
    → All (λ d. p d ≡ true) ds
    → filter_documents p ds ≡ ds
unfolding filter_documents
filter-All p [] a = refl
filter-All p (d ∷ ds) a = rw a.0 (ap (λ l. d ∷ l) (filter-All p ds a.1))

-- A chosen identifier behind another one.
Any-All-lt :
    (x y : ℕ) (ds : List Document)
    → Any (λ d. d.id ≡ y) ds
    → All (λ (d : Document). x < d.id) ds
    → x < y
Any-All-lt x y [] a l = absurd a
Any-All-lt x y (d ∷ ds) (inl e) l = omega (arith, l.0)
Any-All-lt x y (d ∷ ds) (inr a) l = Any-All-lt x y ds a l.1

take_nil : (n : ℕ) (ds : List Document) → document_ids (take n ds) ≡ [] → drop n ds ≡ ds
unfolding document_ids
take_nil zero ds h = refl
take_nil (suc n) [] h = refl
take_nil (suc n) (d ∷ ds) h = cc

skip :
    (p : Document → Bool) (d : Document) (ds : List Document)
    → p d ≡ false
    → filter_documents p (d ∷ ds) ≡ filter_documents p ds
unfolding filter_documents
skip p d ds h = rw h refl

behind-All :
    (x : ℕ) (ds : List Document)
    → All (λ (d : Document). x < d.id) ds
    → All (λ d. is_live d ≡ true) ds
    → All (λ d. is_behind (some x) d ≡ true) ds
unfolding is_behind
behind-All x [] a l = tt
behind-All x (d ∷ ds) a l = (ground (arith, a.0, l.0), behind-All x ds a.1 l.1)

not_behind : (x : ℕ) (d : Document) → d.id ≤ x → is_behind (some x) d ≡ false
unfolding is_behind
not_behind x d h = ground arith

-- What is not taken lies behind the last that is taken.
filter-drop :
    (n : ℕ) (ds : List Document) (id : ℕ) (rest : List ℕ)
    → Ascending ds
    → All (λ d. is_live d ≡ true) ds
    → document_ids (take n ds) ≡ id ∷ rest
    → filter_documents (is_behind (some (last_id id rest))) ds ≡ drop n ds
unfolding document_ids last_id
filter-drop zero ds id rest a l h = cc
filter-drop (suc n) [] id rest a l h = cc
filter-drop (suc n) (d ∷ ds) id [] a l h =
    let e : d.id ≡ id = cc in
    skip (is_behind (some id)) d ds (not_behind id d (omega arith))
    ∙ filter-All (is_behind (some id)) ds
        (behind-All id ds (subst (λ x. All (λ (c : Document). x < c.id) ds) e a.0) l.1)
    ∙ sym (take_nil n ds (cc))
filter-drop (suc n) (d ∷ ds) id (next ∷ rest) a l h =
    let h₁ : document_ids (take n ds) ≡ next ∷ rest = cc in
    let x = last_id next rest in
    skip (is_behind (some x)) d ds
      (not_behind x d (omega (arith, Any-All-lt d.id x ds (last-Any n ds next rest h₁) a.0)))
    ∙ filter-drop n ds next rest a.1 l.1 h₁

document_ids-append :
    (ds es : List Document) → document_ids (ds ++ es) ≡ document_ids ds ++ document_ids es
unfolding document_ids
document_ids-append [] es = refl
document_ids-append (d ∷ ds) es = ap (λ l. d.id ∷ l) (document_ids-append ds es)

pub is_behind-live : (after : Option ℕ) (d : Document) → is_behind after d ≡ true → is_live d ≡ true
unfolding is_behind
is_behind-live none d h = h
is_behind-live (some x) d h = ground arith

filter-live :
    (after : Option ℕ) (ds : List Document)
    → All (λ d. is_live d ≡ true) (filter_documents (is_behind after) ds)
unfolding filter_documents
filter-live after [] = tt
filter-live after (d ∷ ds) = elim (Bool-cases (is_behind after d)) [
  | inl passes ↦ rw passes (is_behind-live after d passes, filter-live after ds)
  | inr fails ↦ rw fails (filter-live after ds)
]

-- The identifiers that lie behind another one.
unfoldable pub left_ids : Option ℕ → List Document → List ℕ
left_ids after ds = document_ids (filter_documents (is_behind after) ds)

-- A round takes the first of the documents that lie behind, and leaves the others.
pub left_ids-round :
    (after : Option ℕ) (n : ℕ) (ds : List Document) (id : ℕ) (rest : List ℕ)
    → Ascending ds
    → document_ids (take n (filter_documents (is_behind after) ds)) ≡ id ∷ rest
    → (id ∷ rest) ++ left_ids (some (last_id id rest)) ds ≡ left_ids after ds
unfolding left_ids
left_ids-round after n ds id rest a h =
    let x = last_id id rest in
    let all = filter_documents (is_behind after) ds in
    let found = Any-filter (λ d. d.id ≡ x) (is_behind after) ds (last-Any n all id rest h) in
    let behind : filter_documents (is_behind (some x)) ds ≡ drop n all =
      sym
        (filter-filter (is_behind (some x)) (is_behind after) ds (is_behind_trans after x ds found))
      ∙ filter-drop n all id rest (Ascending-filter (is_behind after) ds a) (filter-live after ds)
          h in
    ap₂ ◌++◌ (sym h) (ap document_ids behind)
    ∙ sym (document_ids-append (take n all) (drop n all))
    ∙ ap document_ids (take-append-drop n all)

module _ (chosen : List ℕ) (now : ℕ) where
  clear-id : (d : Document) → (clear_document chosen now d).id ≡ d.id
  unfolding clear_document
  clear-id d =
      if_cases (λ (c : Document). c.id ≡ d.id) (contains d.id chosen) (λ t. refl) (λ f. refl)

  left_ids-clear :
      (after : Option ℕ) (ds : List Document)
      → left_ids after (map (clear_document chosen now) ds) ≡ left_ids after ds
  unfolding left_ids filter_documents document_ids
  left_ids-clear after [] = refl
  left_ids-clear after (d ∷ ds) = elim (Bool-cases (is_behind after d)) [
    | inl passes ↦
        rw (is_behind-clear chosen now after d, passes)
          (ap₂ ◌∷◌ (clear-id d) (left_ids-clear after ds))
    | inr fails ↦ rw (is_behind-clear chosen now after d, fails) (left_ids-clear after ds)
  ]

  All-clear :
      (x : ℕ) (ds : List Document)
      → All (λ (d : Document). x < d.id) ds
      → All (λ (d : Document). x < d.id) (map (clear_document chosen now) ds)
  All-clear x [] a = tt
  All-clear x (d ∷ ds) a = (rw (clear-id d) a.0, All-clear x ds a.1)

  Ascending-clear :
      (ds : List Document) → Ascending ds → Ascending (map (clear_document chosen now) ds)
  Ascending-clear [] a = tt
  Ascending-clear (d ∷ ds) a = (rw (clear-id d) (All-clear d.id ds a.0), Ascending-clear ds a.1)

module _ (embeds : List ℕ → Bool) (now : ℕ) (dry : Bool) (s : LoopState) (docs : List ℕ)
    (after : Option ℕ) where
  pub advance-left_ids :
      (bound : Option ℕ)
      → left_ids bound (advance embeds now dry s docs after).tables.documents
        ≡ left_ids bound s.tables.documents
  unfolding advance persist
  advance-left_ids bound =
      elim dry
        as (λ b.
          left_ids bound (advance embeds now b s docs after).tables.documents
          ≡ left_ids bound s.tables.documents) [
            | true ↦ refl
            | false ↦ left_ids-clear docs now bound s.tables.documents
          ]

  pub advance-Ascending :
      Ascending s.tables.documents
      → Ascending (advance embeds now dry s docs after).tables.documents
  unfolding advance persist
  advance-Ascending a =
      elim dry as (λ b. Ascending (advance embeds now b s docs after).tables.documents) [
        | true ↦ a
        | false ↦ Ascending-clear docs now s.tables.documents a
      ]

  pub advance-processed : (advance embeds now dry s docs after).processed ≡ s.processed ++ docs
  unfolding advance
  advance-processed = refl

  pub advance-after : (advance embeds now dry s docs after).after ≡ after
  unfolding advance
  advance-after = refl

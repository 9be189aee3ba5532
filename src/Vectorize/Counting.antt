-- ===== src/Vectorize/Counting.antt =====
-- runtime/vectorization.py: how many documents a round leaves to be chosen.
use vvz_doc_store.Prelude.{
  ℕ, zero, suc, ◌≤◌, ◌<◌, ◌≡◌, ◌≢◌, refl, sym, ◌∙◌, ◌⊎◌, inl, inr, Bool, true, false, Bool-cases,
  Option, none, some, List, [], ◌∷◌, map, arith, length, take, All, contains, subst, All-map,
}
use vvz_doc_store.Vectorize.{
  Document, File, Tables, file_needs, is_live, is_flagged, is_behind, filter_documents,
  document_ids, is_older, insert_older, oldest_first, last_id, clear_document, owners_of, is_owner,
  clear_file, persist,
}

-- Some element has the property.
abbrev pub Any : (Document → Type 0) → List Document → Type 0
Any P [] = ⊥
Any P (d ∷ ds) = P d ⊎ Any P ds

Any-map :
    (P Q : Document → Type 0) (ds : List Document)
    → ((d : Document) → P d → Q d)
    → Any P ds
    → Any Q ds
Any-map P Q [] f a = a
Any-map P Q (d ∷ ds) f (inl p) = inl (f d p)
Any-map P Q (d ∷ ds) f (inr a) = inr (Any-map P Q ds f a)

Any-All :
    (P Q : Document → Type 0) (ds : List Document) → Any P ds → All Q ds → Any (λ d. P d × Q d) ds
Any-All P Q [] a l = a
Any-All P Q (d ∷ ds) (inl p) l = inl (p, l.0)
Any-All P Q (d ∷ ds) (inr a) l = inr (Any-All P Q ds a l.1)

either : {A B C : Type 0} → (A → C) → (B → C) → A ⊎ B → C
either f g (inl a) = f a
either f g (inr b) = g b

pub Any-filter :
    (P : Document → Type 0) (test : Document → Bool) (ds : List Document)
    → Any P (filter_documents test ds)
    → Any (λ d. P d × (test d ≡ true)) ds
unfolding filter_documents
Any-filter P test [] a = a
Any-filter P test (d ∷ ds) a = elim (Bool-cases (test d)) [
  | inl passes ↦
      either (λ (p : P d). inl (p, passes))
        (λ (b : Any P (filter_documents test ds)). inr (Any-filter P test ds b)) (rw passes at a)
  | inr fails ↦ inr (Any-filter P test ds (rw fails at a))
]

Any-insert :
    (P : Document → Type 0) (d : Document) (ds : List Document)
    → Any P (insert_older d ds)
    → P d ⊎ Any P ds
unfolding insert_older
Any-insert P d [] a = a
Any-insert P d (e ∷ es) a = elim (Bool-cases (is_older e d)) [
  | inl older ↦
      either (λ (p : P e). inr (inl p))
        (λ (b : Any P (insert_older d es)).
          either inl (λ (c : Any P es). inr (inr c)) (Any-insert P d es b))
        (rw older at a)
  | inr newer ↦ rw newer at a
]

pub Any-oldest_first :
    (P : Document → Type 0) (ds : List Document) → Any P (oldest_first ds) → Any P ds
unfolding oldest_first
Any-oldest_first P [] a = a
Any-oldest_first P (d ∷ ds) a =
    either inl (λ (b : Any P (oldest_first ds)). inr (Any-oldest_first P ds b))
      (Any-insert P d (oldest_first ds) a)

-- The first of the chosen identifiers belongs to a document,
pub first-Any :
    (n : ℕ) (ds : List Document) (id : ℕ) (rest : List ℕ)
    → document_ids (take n ds) ≡ id ∷ rest
    → Any (λ d. d.id ≡ id) ds
unfolding document_ids
first-Any zero ds id rest h = cc
first-Any (suc n) [] id rest h = cc
first-Any (suc n) (d ∷ ds) id rest h = inl (cc)

-- and so does the last one.
pub last-Any :
    (n : ℕ) (ds : List Document) (id : ℕ) (rest : List ℕ)
    → document_ids (take n ds) ≡ id ∷ rest
    → Any (λ d. d.id ≡ last_id id rest) ds
unfolding document_ids last_id
last-Any zero ds id rest h = cc
last-Any (suc n) [] id rest h = cc
last-Any (suc n) (d ∷ ds) id [] h = inl (cc)
last-Any (suc n) (d ∷ ds) id (next ∷ rest) h = inr (last-Any n ds next rest (cc))

pub count : (Document → Bool) → List Document → ℕ
count test ds = length (filter_documents test ds)

module _ (p q : Document → Bool) (implies : (d : Document) → p d ≡ true → q d ≡ true) where
  pub count-le : (ds : List Document) → count p ds ≤ count q ds
  unfolding count filter_documents
  count-le [] = omega arith
  count-le (d ∷ ds) = ground (arith, implies d, count-le ds)

  -- A document that only the second test passes makes the difference.
  pub count-lt :
      (ds : List Document) → Any (λ d. (q d ≡ true) × (p d ≡ false)) ds → count p ds < count q ds
  unfolding count filter_documents
  count-lt [] a = absurd a
  count-lt (d ∷ ds) (inl (yes', no')) = rw (yes', no') (omega (arith, count-le ds))
  count-lt (d ∷ ds) (inr a) = ground (arith, implies d, count-lt ds a)

pub count-map :
    (test : Document → Bool) (f : Document → Document) (ds : List Document)
    → count test (map f ds) ≡ count (λ d. test (f d)) ds
unfolding count filter_documents
count-map test f [] = refl
count-map test f (d ∷ ds) = ground (arith, count-map test f ds)

pub Any-lt :
    (a x : ℕ) (ds : List Document)
    → Any (λ d. (d.id ≡ x) × (is_behind (some a) d ≡ true)) ds
    → a < x
unfolding is_behind
Any-lt a x [] h = absurd h
Any-lt a x (d ∷ ds) (inl (e, b)) = ground arith
Any-lt a x (d ∷ ds) (inr h) = Any-lt a x ds h

pub is_behind_trans :
    (after : Option ℕ) (x : ℕ) (ds : List Document)
    → Any (λ d. (d.id ≡ x) × (is_behind after d ≡ true)) ds
    → (d : Document) → is_behind (some x) d ≡ true
    → is_behind after d ≡ true
unfolding is_behind
is_behind_trans none x ds a d h = ground arith
is_behind_trans (some b) x ds a d h = ground (arith, Any-lt b x ds a)

-- Fewer documents lie behind the last chosen one.
pub count-is_behind :
    (after : Option ℕ) (n : ℕ) (ds : List Document) (id : ℕ) (rest : List ℕ)
    → document_ids (take n (filter_documents (is_behind after) ds)) ≡ id ∷ rest
    → count (is_behind (some (last_id id rest))) ds < count (is_behind after) ds
unfolding is_behind
count-is_behind after n ds id rest h =
    let x = last_id id rest in
    let found =
      Any-filter (λ d. d.id ≡ x) (is_behind after) ds
        (last-Any n (filter_documents (is_behind after) ds) id rest h) in
    count-lt (is_behind (some x)) (is_behind after) (is_behind_trans after x ds found) ds (
      Any-map (λ d. (d.id ≡ x) × (is_behind after d ≡ true))
        (λ d. (is_behind after d ≡ true) × (is_behind (some x) d ≡ false)) ds
        (λ d f. (f.1, ground (arith, f.0))) found)

pub is_behind-clear :
    (chosen : List ℕ) (now : ℕ) (after : Option ℕ) (d : Document)
    → is_behind after (clear_document chosen now d) ≡ is_behind after d
unfolding is_behind clear_document
is_behind-clear chosen now none d = ground arith
is_behind-clear chosen now (some a) d = ground arith

true_ne_false : true ≢ false
true_ne_false h = cc

-- The owner of a document, if it has one.
abbrev pub Owned : Option ℕ → List (Option ℕ) → Type 0
Owned none owners = Unit
Owned (some owner) owners = is_owner owner owners ≡ true

Owned-cons : (o p : Option ℕ) (owners : List (Option ℕ)) → Owned o owners → Owned o (p ∷ owners)
Owned-cons none p owners h = tt
Owned-cons (some o) p owners h = ground arith

Owned-here : (o : Option ℕ) (owners : List (Option ℕ)) → Owned o (o ∷ owners)
Owned-here none owners = tt
Owned-here (some o) owners = ground arith

pub owners_of-Owned :
    (chosen : List ℕ) (ds : List Document)
    → All (λ d. contains d.id chosen ≡ true → Owned d.owner_id (owners_of chosen ds)) ds
unfolding owners_of
owners_of-Owned chosen [] = tt
owners_of-Owned chosen (d ∷ ds) = elim (Bool-cases (contains d.id chosen)) [
  | inl taken ↦
      let e : d.owner_id ∷ owners_of chosen ds ≡ owners_of chosen (d ∷ ds) = rw taken refl in
      subst (λ owners. All (λ x. contains x.id chosen ≡ true → Owned x.owner_id owners) (d ∷ ds)) e
        (
          λ h. Owned-here d.owner_id (owners_of chosen ds),
          All-map ds (λ x f h. Owned-cons x.owner_id d.owner_id (owners_of chosen ds) (f h))
              (owners_of-Owned chosen ds),
        )
  | inr left ↦
      let e : owners_of chosen ds ≡ owners_of chosen (d ∷ ds) = rw left refl in
      subst (λ owners. All (λ x. contains x.id chosen ≡ true → Owned x.owner_id owners) (d ∷ ds)) e
        (λ h. absurd (true_ne_false (sym h ∙ left)), owners_of-Owned chosen ds)
]

file_needs-cleared :
    (owners : List (Option ℕ)) (files : List File) (o : Option ℕ)
    → Owned o owners
    → file_needs (map (clear_file owners) files) o ≡ false
unfolding file_needs clear_file
file_needs-cleared owners files none h = refl
file_needs-cleared owners [] (some o) h = refl
file_needs-cleared owners (f ∷ files) (some o) h =
    ground (arith, file_needs-cleared owners files (some o) h)

file_needs-kept :
    (owners : List (Option ℕ)) (files : List File) (o : Option ℕ)
    → file_needs (map (clear_file owners) files) o ≡ true
    → file_needs files o ≡ true
unfolding file_needs clear_file
file_needs-kept owners files none h = h
file_needs-kept owners [] (some o) h = h
file_needs-kept owners (f ∷ files) (some o) h =
    ground (arith, file_needs-kept owners files (some o))

module _ (chosen : List ℕ) (now : ℕ) (t : Tables) where
  abbrev pub left_flagged : Document → Bool
  left_flagged d = is_flagged (persist chosen now t).files (clear_document chosen now d)

  pub left_flagged-before : (d : Document) → left_flagged d ≡ true → is_flagged t.files d ≡ true
  unfolding is_flagged is_live persist clear_document
  left_flagged-before d h =
      ground (arith, file_needs-kept (owners_of chosen t.documents) t.files d.owner_id)

  pub left_flagged-chosen :
      (d : Document)
      → contains d.id chosen ≡ true
      → Owned d.owner_id (owners_of chosen t.documents)
      → left_flagged d ≡ false
  unfolding is_flagged is_live persist clear_document
  left_flagged-chosen d h o =
      ground (arith, file_needs-cleared (owners_of chosen t.documents) t.files d.owner_id o)

-- Fewer documents are flagged behind a round that has chosen one of them.
pub count-is_flagged :
    (now n : ℕ) (t : Tables) (id : ℕ) (rest : List ℕ)
    → document_ids (take n (oldest_first (filter_documents (is_flagged t.files) t.documents)))
      ≡ id ∷ rest
    → count (is_flagged (persist (id ∷ rest) now t).files) (persist (id ∷ rest) now t).documents
      < count (is_flagged t.files) t.documents
unfolding persist
count-is_flagged now n t id rest h =
    let chosen = id ∷ rest in
    let flagged = filter_documents (is_flagged t.files) t.documents in
    let found =
      Any-filter (λ d. d.id ≡ id) (is_flagged t.files) t.documents
        (Any-oldest_first (λ d. d.id ≡ id) flagged
          (first-Any n (oldest_first flagged) id rest h)) in
    let owned =
      Any-All (λ d. (d.id ≡ id) × (is_flagged t.files d ≡ true))
        (λ d. contains d.id chosen ≡ true → Owned d.owner_id (owners_of chosen t.documents))
        t.documents found (owners_of-Owned chosen t.documents) in
    subst (λ k. k < count (is_flagged t.files) t.documents)
      (sym (
        count-map (is_flagged (persist chosen now t).files) (clear_document chosen now)
          t.documents))
      (count-lt (left_flagged chosen now t) (is_flagged t.files) (left_flagged-before chosen now t)
        t.documents
        (Any-map
          (λ d.
            ((d.id ≡ id) × (is_flagged t.files d ≡ true))
            × (contains d.id chosen ≡ true → Owned d.owner_id (owners_of chosen t.documents)))
          (λ d. (is_flagged t.files d ≡ true) × (left_flagged chosen now t d ≡ false)) t.documents
          (λ d f.
            let taken : contains d.id chosen ≡ true = ground (arith, f.0.0) in
            (f.0.1, left_flagged-chosen chosen now t d taken (f.1 taken)))
          owned))

pub count-le-length : (test : Document → Bool) (ds : List Document) → count test ds ≤ length ds
unfolding count filter_documents
count-le-length test [] = omega arith
count-le-length test (d ∷ ds) = ground (arith, count-le-length test ds)

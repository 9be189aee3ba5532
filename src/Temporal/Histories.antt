-- ===== src/Temporal/Histories.antt =====
-- The tables that writes can lead to.
use vvz_doc_store.Prelude.{
  ℕ, ◌≤◌, ◌<◌, ◌≡◌, ◌≢◌, refl, sym, ◌∙◌, subst, inl, inr, Bool-cases, ◌+◌, true, false, ◌&&◌, ◌||◌,
  Option, none, some, List, [], ◌∷◌, ◌++◌, append_assoc, append-nil, arith, raise_if-ok, All,
  Pairwise, All-map, Pairwise-map, Pairwise-snoc, contains,
}
use vvz_doc_store.Text.{Text, text_eq, text_eq_refl, text_eq_sound}
use vvz_doc_store.Temporal.{Interval, ambiguous_interval, overlaps, contains_instant}
use vvz_doc_store.Temporal.Table.{
  Assertion, State, is_id, superseded, clash, clashes, guard_unambiguous, max_revision,
}
use vvz_doc_store.Temporal.SourceState.{source_state_family}
use vvz_doc_store.Temporal.Appending.{ignored, Appended, Appends, same, more}
use vvz_doc_store.Temporal.Steps.{
  ServiceStep-Extends, Step, asserted, published, append_source_state-Published,
}

-- A history starts with an empty table over some registry.
pub data Reachable : State → Type 0 where
  empty : (s : State) → s.rows ≡ [] → Reachable s
  after : (s s' : State) → Reachable s → Step s s' → Reachable s'

Appends-prefix :
    (rows later : List Assertion)
    → Appends rows later
    → (new : List Assertion) × (later ≡ rows ++ new)
Appends-prefix rows _ (same _) = ([], sym (append-nil rows))
Appends-prefix _ _ (more rows later row p rest) =
    let (new, e) = Appends-prefix (rows ++ row ∷ []) later rest in
    (row ∷ new, e ∙ append_assoc rows (row ∷ []) new)

-- A write of the service or of a publication keeps the registry and every row of the table, in place, and appends
-- its new rows behind them.
pub Step-append_only :
    (s s' : State)
    → Step s s'
    → (new : List Assertion) × (s'.rows ≡ s.rows ++ new) × (s'.registry ≡ s.registry)
Step-append_only _ _ (asserted s s' step) =
    let e = ServiceStep-Extends s s' step in
    let (new, same_rows) = Appends-prefix s.rows s'.rows e.rows in (new, same_rows, e.registry)
Step-append_only _ _ (published tx document_id acceptance s r h) =
    let p = append_source_state-Published tx document_id acceptance s r h in
    (p.row ∷ [], p.rows, p.registry)

-- Two accepted rows of one object and family share no instant; `table` is the whole table.
abbrev pub Apart : List Assertion → Assertion → Assertion → Type 0
Apart table a b =
    superseded table a.assertion_id ≡ false
    → superseded table b.assertion_id ≡ false
    → clash a b.object_id b.family b.interval ≡ false

abbrev pub Unambiguous : List Assertion → Type 0
Unambiguous rows = Pairwise (Apart rows) rows

-- The same, for rows that are no source states.
abbrev OtherApart : List Assertion → Assertion → Assertion → Type 0
OtherApart table a b = a.family ≢ source_state_family → Apart table a b

abbrev OthersUnambiguous : List Assertion → Type 0
OthersUnambiguous rows = Pairwise (OtherApart rows) rows

-- A later row of an object has a greater revision number.
abbrev pub Numbered : List Assertion → Type 0
Numbered = Pairwise (λ a b. a.object_id ≡ b.object_id → a.revision_no < b.revision_no)

superseded-snoc :
    (rows : List Assertion) (row : Assertion) (id : ℕ)
    → superseded (rows ++ row ∷ []) id ≡ superseded rows id || is_id row.supersedes id
unfolding superseded
superseded-snoc [] row id = ground arith
superseded-snoc (next ∷ rows) row id = ground (arith, superseded-snoc rows row id)

pub superseded-before :
    (rows : List Assertion) (row : Assertion) (id : ℕ)
    → superseded (rows ++ row ∷ []) id ≡ false
    → superseded rows id ≡ false
superseded-before rows row id h = ground (arith, superseded-snoc rows row id)

clashes-All :
    (table rows : List Assertion) (object_id : ℕ) (family : Text) (interval : Interval)
    (ignore : List ℕ)
    → clashes table object_id family interval ignore rows ≡ false
    → All
        (λ a.
          contains a.assertion_id ignore ≡ false
          → superseded table a.assertion_id ≡ false
          → clash a object_id family interval ≡ false)
        rows
unfolding clashes
clashes-All table [] object_id family interval ignore h = tt
clashes-All table (row ∷ rows) object_id family interval ignore h =
    (λ p q. ground arith, clashes-All table rows object_id family interval ignore (ground arith))

not_ignored :
    (supersedes : Option ℕ) (id : ℕ)
    → is_id supersedes id ≡ false
    → contains id (ignored supersedes) ≡ false
not_ignored none id h = refl
not_ignored (some other) id h = ground arith

Unambiguous-snoc :
    (rows : List Assertion) (row : Assertion)
    → Appended rows row
    → OthersUnambiguous rows
    → OthersUnambiguous (rows ++ row ∷ [])
unfolding guard_unambiguous
Unambiguous-snoc rows row p u =
    Pairwise-snoc (OtherApart (rows ++ row ∷ [])) rows row
      (Pairwise-map rows
        (λ a b apart other ha hb.
          apart other (superseded-before rows row a.assertion_id ha)
            (superseded-before rows row b.assertion_id hb))
        u)
      (All-map rows
        (λ a free other ha hb.
          free (not_ignored row.supersedes a.assertion_id (not_it a.assertion_id ha))
            (superseded-before rows row a.assertion_id ha))
        (clashes-All rows rows row.object_id row.family row.interval (ignored row.supersedes)
          passes))
  where
    passes :
        clashes rows row.object_id row.family row.interval (ignored row.supersedes) rows ≡ false
    passes = raise_if-ok _ ambiguous_interval p.guarded

    not_it : (id : ℕ) → superseded (rows ++ row ∷ []) id ≡ false → is_id row.supersedes id ≡ false
    not_it id h = ground (arith, superseded-snoc rows row id)

text_eq-ne : (s t : Text) → s ≢ t → text_eq s t ≡ false
text_eq-ne s t ne = elim (Bool-cases (text_eq s t)) [
  | inl it ↦ absurd (ne (text_eq_sound s t it))
  | inr other ↦ other
]

-- A row of another family than a source state is not compared with one.
clash-other :
    (a row : Assertion)
    → row.family ≡ source_state_family
    → a.family ≢ source_state_family
    → clash a row.object_id row.family row.interval ≡ false
unfolding clash
clash-other a row state other =
    let differs : text_eq a.family row.family ≡ false =
      text_eq-ne a.family row.family (λ e. other (e ∙ state)) in
    ground arith

All-any {ℓ κ} : {A : Type ℓ} (P : A → Type κ) (xs : List A) → ((x : A) → P x) → All P xs
All-any P [] h = tt
All-any P (x ∷ xs) h = (h x, All-any P xs h)

Unambiguous-state :
    (rows : List Assertion) (row : Assertion)
    → row.family ≡ source_state_family
    → OthersUnambiguous rows
    → OthersUnambiguous (rows ++ row ∷ [])
Unambiguous-state rows row state u =
    Pairwise-snoc (OtherApart (rows ++ row ∷ [])) rows row
      (Pairwise-map rows
        (λ a b apart other ha hb.
          apart other (superseded-before rows row a.assertion_id ha)
            (superseded-before rows row b.assertion_id hb))
        u)
      (All-any (λ a. OtherApart (rows ++ row ∷ []) a row) rows
        (λ a other ha hb. clash-other a row state other))

max_revision-All :
    (object_id : ℕ) (rows : List Assertion)
    → All (λ a. a.object_id ≡ object_id → a.revision_no ≤ max_revision object_id rows) rows
unfolding max_revision
max_revision-All object_id [] = tt
max_revision-All object_id (row ∷ rows) = (
  λ same_object. ground arith,
  All-map rows (λ a le same_object. ground (arith, le same_object))
      (max_revision-All object_id rows),
)

Numbered-snoc :
    (rows : List Assertion) (row : Assertion)
    → row.revision_no ≡ max_revision row.object_id rows + 1
    → Numbered rows
    → Numbered (rows ++ row ∷ [])
Numbered-snoc rows row e n =
    Pairwise-snoc (λ a b. a.object_id ≡ b.object_id → a.revision_no < b.revision_no) rows row n
      (All-map rows (λ a le same_object. let k = le same_object in omega arith)
        (max_revision-All row.object_id rows))

Appends-Unambiguous :
    (rows later : List Assertion)
    → Appends rows later
    → OthersUnambiguous rows
    → OthersUnambiguous later
Appends-Unambiguous rows _ (same _) u = u
Appends-Unambiguous _ _ (more rows later row p rest) u =
    Appends-Unambiguous (rows ++ row ∷ []) later rest (Unambiguous-snoc rows row p u)

Appends-Numbered :
    (rows later : List Assertion) → Appends rows later → Numbered rows → Numbered later
Appends-Numbered rows _ (same _) n = n
Appends-Numbered _ _ (more rows later row p rest) n =
    Appends-Numbered (rows ++ row ∷ []) later rest (Numbered-snoc rows row p.numbered n)

Step-Unambiguous : (s s' : State) → Step s s' → OthersUnambiguous s.rows → OthersUnambiguous s'.rows
Step-Unambiguous _ _ (asserted s s' step) u =
    Appends-Unambiguous s.rows s'.rows (ServiceStep-Extends s s' step).rows u
Step-Unambiguous _ _ (published tx document_id acceptance s r h) u =
    let p = append_source_state-Published tx document_id acceptance s r h in
    subst OthersUnambiguous (sym p.rows) (Unambiguous-state s.rows p.row p.family u)

Step-Numbered : (s s' : State) → Step s s' → Numbered s.rows → Numbered s'.rows
Step-Numbered _ _ (asserted s s' step) n =
    Appends-Numbered s.rows s'.rows (ServiceStep-Extends s s' step).rows n
Step-Numbered _ _ (published tx document_id acceptance s r h) n =
    let p = append_source_state-Published tx document_id acceptance s r h in
    subst Numbered (sym p.rows) (Numbered-snoc s.rows p.row p.numbered n)

Reachable-OthersUnambiguous : (s : State) → Reachable s → OthersUnambiguous s.rows
Reachable-OthersUnambiguous _ (empty s h) = rw h tt
Reachable-OthersUnambiguous _ (after s s' reached step) =
    Step-Unambiguous s s' step (Reachable-OthersUnambiguous s reached)

-- In every table that writes lead to, the revision numbers of an object's rows grow from row to row.
pub Reachable-Numbered : (s : State) → Reachable s → Numbered s.rows
Reachable-Numbered _ (empty s h) = rw h tt
Reachable-Numbered _ (after s s' reached step) =
    Step-Numbered s s' step (Reachable-Numbered s reached)

-- Two different rows that are both accepted, for one object and one family but that of the source states, hold at no
-- common instant.
abbrev pub NeverBoth : List Assertion → Assertion → Assertion → Type 0
NeverBoth table a b =
    a.family ≢ source_state_family
    → superseded table a.assertion_id ≡ false
    → superseded table b.assertion_id ≡ false
    → a.object_id ≡ b.object_id
    → a.family ≡ b.family
    → (t : ℕ) → contains_instant a.interval t && contains_instant b.interval t ≡ false

clash-never_both :
    (a b : Assertion)
    → clash a b.object_id b.family b.interval ≡ false
    → a.object_id ≡ b.object_id
    → a.family ≡ b.family
    → (t : ℕ) → contains_instant a.interval t && contains_instant b.interval t ≡ false
unfolding clash overlaps contains_instant
clash-never_both a b h same_object same_family t =
    let same_text : text_eq a.family b.family ≡ true = rw same_family (text_eq_refl b.family) in
    ground arith

-- In every table that writes of the service and of publications lead to, an object and a family other than the source
-- states' have at most one accepted assertion at an instant.
pub one_accepted : (s : State) → Reachable s → Pairwise (NeverBoth s.rows) s.rows
one_accepted s reached =
    Pairwise-map s.rows (λ a b apart other ha hb. clash-never_both a b (apart other ha hb))
      (Reachable-OthersUnambiguous s reached)

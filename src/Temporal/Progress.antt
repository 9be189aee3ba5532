-- ===== src/Temporal/Progress.antt =====
-- The room that an accepted assertion leaves in its table, and a guarded append within it.
use vvz_doc_store.Prelude.{
  ℕ, ◌≡◌, refl, ap, ◌∙◌, inl, inr, false, Bool-cases, Option, none, some, List, [], ◌∷◌, ◌++◌,
  arith, ok, All, All-map, All-snoc, Pairwise, ◌==◌, ==_iff, of_some,
}
use vvz_doc_store.Text.{Text, text_eq}
use vvz_doc_store.Temporal.{Writes, Interval, overlaps}
use vvz_doc_store.Temporal.Table.{
  Kind, Acceptance, Assertion, State, Transaction, superseded, clash, clashes, guard_unambiguous,
  new_row, append, find,
}
use vvz_doc_store.Temporal.Partition.{overlap, Within}
use vvz_doc_store.Temporal.Histories.{Apart, superseded-before}

text_eq_sym : (s t : Text) → text_eq s t ≡ text_eq t s
text_eq_sym [] [] = refl
text_eq_sym [] (y ∷ t) = refl
text_eq_sym (x ∷ s) [] = refl
text_eq_sym (x ∷ s) (y ∷ t) = ground (arith, text_eq_sym s t)

overlaps_sym : (a b : Interval) → overlaps a b ≡ overlaps b a
unfolding overlaps
overlaps_sym a b = ground arith

clash_sym :
    (a b : Assertion)
    → clash a b.object_id b.family b.interval ≡ clash b a.object_id a.family a.interval
unfolding clash
clash_sym a b = ground (arith, text_eq_sym a.family b.family, overlaps_sym a.interval b.interval)

pub find_id :
    (id : ℕ) (rows : List Assertion) (row : Assertion)
    → find id rows ≡ some row
    → row.assertion_id ≡ id
unfolding find
find_id id [] row h = cc
find_id id (next ∷ rows) row h = ground (arith, find_id id rows row)

All-find :
    (P : Assertion → Type 0) (id : ℕ) (rows : List Assertion) (row : Assertion)
    → find id rows ≡ some row
    → All P rows
    → P row
unfolding find
All-find P id [] row h a = cc
All-find P id (next ∷ rows) row h a = elim (Bool-cases (next.assertion_id == id)) [
  | inl it ↦ of_some P (rw (it, find) at h) a.0
  | inr other ↦ All-find P id rows row (rw (other, find) at h) a.1
]

-- No accepted row but the one with this identifier clashes.
abbrev pub Free : List Assertion → ℕ → ℕ → Text → Interval → List Assertion → Type 0
Free table id object_id family interval = All (λ a.
    (a.assertion_id == id) ≡ false
    → superseded table a.assertion_id ≡ false
    → clash a object_id family interval ≡ false)

Free-clashes :
    (table rows : List Assertion) (id object_id : ℕ) (family : Text) (interval : Interval)
    → Free table id object_id family interval rows
    → clashes table object_id family interval (id ∷ []) rows ≡ false
unfolding clashes
Free-clashes table [] id object_id family interval free = refl
Free-clashes table (row ∷ rows) id object_id family interval free =
    let rest = Free-clashes table rows id object_id family interval free.1 in
    ground (arith, rest, free.0)

pub Unambiguous-Free :
    (table rows : List Assertion) (id : ℕ) (prior : Assertion)
    → Pairwise (Apart table) rows
    → find id rows ≡ some prior
    → superseded table id ≡ false
    → Free table id prior.object_id prior.family prior.interval rows
unfolding find
Unambiguous-Free table [] id prior u h accepted = tt
Unambiguous-Free table (row ∷ rows) id prior u h accepted =
    elim (Bool-cases (row.assertion_id == id)) [
      | inl it ↦
          let same_id = (==_iff row.assertion_id id).0 it in
          let rest : Free table id row.object_id row.family row.interval rows =
            All-map rows
              (λ b apart _ alive.
                clash_sym b row ∙ apart (ap (superseded table) same_id ∙ accepted) alive)
              u.0 in
          (
            λ other. cc,
            of_some (λ p. Free table id p.object_id p.family p.interval rows) (rw (it, find) at h)
                rest,
          )
      | inr other ↦
          let h' : find id rows ≡ some prior = rw (other, find) at h in
          (
            λ _ alive.
                All-find (Apart table row) id rows prior h' u.0 alive
                  (rw (find_id id rows prior h') accepted),
            Unambiguous-Free table rows id prior u.1 h' accepted,
          )
    ]

-- A row over an interval apart from this one leaves it free.
Free-snoc :
    (rows : List Assertion) (row : Assertion) (id object_id : ℕ) (family : Text)
    (interval : Interval)
    → overlaps row.interval interval ≡ false
    → Free rows id object_id family interval rows
    → Free (rows ++ row ∷ []) id object_id family interval (rows ++ row ∷ [])
unfolding clash
Free-snoc rows row id object_id family interval apart free =
    All-snoc
      (λ a.
        (a.assertion_id == id) ≡ false
        → superseded (rows ++ row ∷ []) a.assertion_id ≡ false
        → clash a object_id family interval ≡ false)
      rows row
      (All-map rows (λ a f other alive. f other (superseded-before rows row a.assertion_id alive))
        free)
      (λ _ _. ground (arith, apart))

pub Free-Within :
    (table rows : List Assertion) (id object_id : ℕ) (family : Text) (part whole : Interval)
    → Within (some part) whole
    → Free table id object_id family whole rows
    → Free table id object_id family part rows
unfolding clash
Free-Within table rows id object_id family part whole within free =
    All-map rows (λ a f other alive. let g = f other alive in ground (arith, within a.interval))
      free

-- The segments that the table leaves free for the corrections of `prior`.
abbrev pub Room : Assertion → Option Interval → List Assertion → Type 0
Room prior none rows = Unit
Room prior (some interval) rows =
    Free rows prior.assertion_id prior.object_id prior.family interval rows

-- A step that succeeds, with the interval it appends; what is apart from that keeps its room.
pub record Done {A : Type 0} (prior : Assertion) (segment : Option Interval) (s : State)
    (run : Writes (A × State)) (interval_of : A → Option Interval) : Type 0 where
  pub result : A × State
  pub runs : run ≡ ok result
  pub interval : interval_of result.0 ≡ segment
  pub keeps :
      (other : Option Interval)
      → overlap segment other ≡ false
      → Room prior other s.rows
      → Room prior other result.1.rows

Room-snoc :
    (prior row : Assertion) (rows : List Assertion) (other : Option Interval)
    → overlap (some row.interval) other ≡ false
    → Room prior other rows
    → Room prior other (rows ++ row ∷ [])
Room-snoc prior row rows none apart room = tt
Room-snoc prior row rows (some interval) apart room =
    Free-snoc rows row prior.assertion_id prior.object_id prior.family interval apart room

abbrev pub interval_of : Assertion → Option Interval
interval_of row = some row.interval

abbrev pub interval_of? : Option Assertion → Option Interval
interval_of? none = none
interval_of? (some row) = some row.interval

module _ (tx : Transaction) (prior : Assertion) (acceptance : Acceptance) where
  pub append-Done :
      (kind : Kind) (interval : Interval) (s : State)
      → Room prior (some interval) s.rows
      → let id = prior.assertion_id in
        let run =
          append tx prior.object_id prior.family kind interval (some id) acceptance (id ∷ []) s in
        Done prior (some interval) s run interval_of
  unfolding append guard_unambiguous new_row
  append-Done kind interval s room =
      let id = prior.assertion_id in
      let row = new_row tx s.rows prior.object_id prior.family kind interval (some id) acceptance in
      record {
        result = (row, record s { rows = s.rows ++ row ∷ [] });
        runs = rw (Free-clashes s.rows s.rows id prior.object_id prior.family interval room) refl;
        interval = refl;
        keeps = λ other apart. Room-snoc prior row s.rows other apart;
      }

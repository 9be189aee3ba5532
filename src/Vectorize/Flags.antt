-- ===== src/Vectorize/Flags.antt =====
-- runtime/vectorization.py: which flags `_persist_vectors` clears.
use vvz_doc_store.Prelude.{
  ℕ, ◌≡◌, refl, ◌⊎◌, inl, inr, Bool, true, false, not, ◌&&◌, Bool-cases, List, [], ◌∷◌, map, All,
  contains, arith,
}
use vvz_doc_store.Vectorize.{Document, File, Tables, is_flagged, owners_of, clear_document, persist}
use vvz_doc_store.Vectorize.Counting.{
  Owned, owners_of-Owned, left_flagged-before, left_flagged-chosen,
}

-- A document before and behind a round: a chosen one is flagged no more, neither by itself nor by its file, another one
-- is the same and is not flagged anew, and none changes its place or its file.
pub record Cleared (chosen : List ℕ) (files files' : List File) (d d' : Document) : Type 0 where
  pub same_id : d'.id ≡ d.id
  pub same_file : d'.owner_id ≡ d.owner_id
  pub same_life : d'.deleted ≡ d.deleted
  pub cleared : contains d.id chosen && is_flagged files' d' ≡ false
  pub not_new : is_flagged files' d' && not (is_flagged files d) ≡ false
  pub other : (contains d.id chosen ≡ true) ⊎ (d' ≡ d)

abbrev pub AllCleared : List ℕ → List File → List File → List Document → List Document → Type 0
AllCleared chosen files files' [] [] = Unit
AllCleared chosen files files' (d ∷ ds) (d' ∷ ds') =
    Cleared chosen files files' d d' × AllCleared chosen files files' ds ds'
AllCleared chosen files files' _ _ = ⊥

and_false : (a b : Bool) → (a ≡ true → b ≡ false) → (a && b) ≡ false
and_false false b h = refl
and_false true b h = h refl

implied : (a b : Bool) → (a ≡ true → b ≡ true) → (a && not b) ≡ false
implied false b h = refl
implied true b h = ground (arith, h refl)

clear_document-other :
    (chosen : List ℕ) (now : ℕ) (d : Document)
    → (contains d.id chosen ≡ true) ⊎ (clear_document chosen now d ≡ d)
unfolding clear_document
clear_document-other chosen now d = elim (Bool-cases (contains d.id chosen)) [
  | inl taken ↦ inl taken
  | inr left ↦ inr (rw left refl)
]

clear_document-same :
    (chosen : List ℕ) (now : ℕ) (d : Document)
    → let d' = clear_document chosen now d in
      (d'.id ≡ d.id) × (d'.owner_id ≡ d.owner_id) × (d'.deleted ≡ d.deleted)
unfolding clear_document
clear_document-same chosen now d = elim (Bool-cases (contains d.id chosen)) [
  | inl taken ↦ rw taken (refl, refl, refl)
  | inr left ↦ rw left (refl, refl, refl)
]

module _ (chosen : List ℕ) (now : ℕ) (t : Tables) where
  map-AllCleared :
      (ds : List Document)
      → All (λ d. contains d.id chosen ≡ true → Owned d.owner_id (owners_of chosen t.documents)) ds
      → AllCleared chosen t.files
          (persist chosen now t).files
          ds
          (map (clear_document chosen now) ds)
  map-AllCleared [] a = tt
  map-AllCleared (d ∷ ds) a =
      let (id, file, life) = clear_document-same chosen now d in
      (
        record {
          same_id = id;
          same_file = file;
          same_life = life;
          cleared =
              and_false (contains d.id chosen) _
                (λ taken. left_flagged-chosen chosen now t d taken (a.0 taken));
          not_new = implied _ (is_flagged t.files d) (left_flagged-before chosen now t d);
          other = clear_document-other chosen now d;
        },
        map-AllCleared ds a.1,
      )

-- Behind a round over any chosen documents, each document stands at its place; none of the chosen ones is flagged, by
-- itself or by its file, no document is flagged that was not flagged before, and the rows of the others are the same.
pub persist-AllCleared :
    (chosen : List ℕ) (now : ℕ) (t : Tables)
    → let t' = persist chosen now t in AllCleared chosen t.files t'.files t.documents t'.documents
unfolding persist
persist-AllCleared chosen now t =
    map-AllCleared chosen now t t.documents (owners_of-Owned chosen t.documents)

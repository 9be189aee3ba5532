-- ===== src/Plan/Total.antt =====
-- ingestion/publication_repository.py: the plan of placed sentences.
use vvz_doc_store.Prelude.{
  ℕ, ◌≤◌, ◌≡◌, refl, ap, ap₂, subst, sym, ◌∙◌, true, false, inl, none, some, List, [], ◌∷◌, ◌++◌,
  map, append_assoc, arith, length, length-map, ◌==◌, ==_refl, pos, ok, lookup, insert,
  lookup-insert, contains, Distinct,
}
use vvz_doc_store.Text.{Text}
use vvz_doc_store.Exact.{Piece, ChunkInput, build_exact_reconstruction_pieces}
use vvz_doc_store.Exact.Accepted.{InOrder, accepted_pieces}
use vvz_doc_store.Chunking.{RuntimeChunk}
use vvz_doc_store.Sentences.Placed.{Chained, Placed, concat}
use vvz_doc_store.Sentences.Grouped.{
  Before, Before-le, Chained-weaken, Before-append, Chained-Before, Placed-Behind,
  sentence_chunks_for_paragraph-own,
}
use vvz_doc_store.Plan.{
  Group, Planned, group_sentences, ordered_sentences, chunk_input, piece_by_chunk_id, attach_pieces,
  attach_groups, exact_sentence_plan,
}

abbrev pub zip {ℓ κ} : {A : Type ℓ} {B : Type κ} → List A → List B → List (A × B)
zip (x ∷ xs) (y ∷ ys) = (x, y) ∷ zip xs ys
zip _ _ = []

abbrev pub uuids : List RuntimeChunk → List ℕ
uuids [] = []
uuids (chunk ∷ chunks) = chunk.uuid ∷ uuids chunks

abbrev pub paragraphs_of : List Planned → List RuntimeChunk
paragraphs_of [] = []
paragraphs_of ((paragraph, pairs) ∷ plan) = paragraph ∷ paragraphs_of plan

abbrev pub pairs_of : List Planned → List (RuntimeChunk × Piece)
pairs_of [] = []
pairs_of ((paragraph, pairs) ∷ plan) = pairs ++ pairs_of plan

-- The sentences under each paragraph.
abbrev sentences_in : List (RuntimeChunk × Piece) → List RuntimeChunk
sentences_in [] = []
sentences_in ((sentence, piece) ∷ pairs) = sentence ∷ sentences_in pairs

abbrev pub sentences_of : List Planned → List (List RuntimeChunk)
sentences_of [] = []
sentences_of ((paragraph, pairs) ∷ plan) = sentences_in pairs ∷ sentences_of plan

group_sentences-Placed :
    (cursor stop : ℕ) (before paragraphs : List RuntimeChunk) (placed : List (List RuntimeChunk))
    → Before cursor before
    → Placed cursor stop paragraphs placed
    → group_sentences paragraphs (before ++ concat placed) ≡ ok (zip paragraphs placed)
unfolding group_sentences
group_sentences-Placed cursor stop before [] [] f h = refl
group_sentences-Placed cursor stop before [] (b ∷ bs) f h = absurd h
group_sentences-Placed cursor stop before (p ∷ ps) [] f h = absurd h
group_sentences-Placed cursor stop before (p ∷ ps) (b ∷ bs) f
      (a, z, starts, ends, i, j, k, full, c, h) =
    let own =
      sentence_chunks_for_paragraph-own p before b (concat bs) a z starts ends
        (Before-le cursor a before i f) full c (Placed-Behind z z stop ps bs (omega arith) h) in
    let rest : group_sentences ps (before ++ (b ++ concat bs)) ≡ ok (zip ps bs) =
      ap (group_sentences ps) (sym (append_assoc before b (concat bs)))
      ∙ group_sentences-Placed z stop (before ++ b) ps bs
          (Before-append z before b (Before-le cursor z before (omega arith) f)
            (Chained-Before a z b c))
          h in
    rw (own, rest) refl

ordered_sentences-zip :
    (cursor stop : ℕ) (paragraphs : List RuntimeChunk) (placed : List (List RuntimeChunk))
    → Placed cursor stop paragraphs placed
    → ordered_sentences (zip paragraphs placed) ≡ concat placed
ordered_sentences-zip cursor stop [] [] h = refl
ordered_sentences-zip cursor stop [] (b ∷ bs) h = absurd h
ordered_sentences-zip cursor stop (p ∷ ps) [] h = absurd h
ordered_sentences-zip cursor stop (p ∷ ps) (b ∷ bs) (a, z, starts, ends, i, j, k, full, c, h) =
    ap (λ l. b ++ l) (ordered_sentences-zip z stop ps bs h)

abbrev inputs : List RuntimeChunk → List ChunkInput
inputs = map chunk_input

-- Ranges in order are accepted by the exact reconstruction, where overrides are allowed.
Chained-InOrder :
    (source : Text) (cursor middle stop : ℕ) (chunks later : List RuntimeChunk)
    → middle ≤ stop
    → cursor ≤ middle
    → Chained cursor middle chunks
    → ((last : ℕ) → last ≤ middle → InOrder source true stop last (inputs later))
    → InOrder source true stop cursor (inputs (chunks ++ later))
Chained-InOrder source cursor middle stop [] later m l c f = f cursor l
Chained-InOrder source cursor middle stop (chunk ∷ chunks) later m l (s, e, hs, he, i, j, k, c) f =
    (
      s,
      e,
      ap some hs,
      ap some he,
      i,
      omega arith,
      omega arith,
      inl refl,
      Chained-InOrder source e middle stop chunks later m k c f,
    )

Placed-InOrder :
    (source : Text) (cursor from stop : ℕ) (ps : List RuntimeChunk) (bs : List (List RuntimeChunk))
    → from ≤ cursor
    → Placed cursor stop ps bs
    → InOrder source true stop from (inputs (concat bs))
Placed-InOrder source cursor from stop [] [] l h = tt
Placed-InOrder source cursor from stop [] (b ∷ bs) l h = absurd h
Placed-InOrder source cursor from stop (p ∷ ps) [] l h = absurd h
Placed-InOrder source cursor from stop (p ∷ ps) (b ∷ bs) l
      (a, z, starts, ends, i, j, k, full, c, h) =
    Chained-InOrder source from z stop b (concat bs) k (omega arith)
      (Chained-weaken from a z b (omega arith) c)
      (λ last m. Placed-InOrder source z last stop ps bs m h)

-- Each sentence's piece is found under its identifier.
abbrev Finds : List (ℕ × Piece) → List RuntimeChunk → List Piece → Type 0
Finds found [] [] = Unit
Finds found (sentence ∷ sentences) (piece ∷ pieces) =
    (lookup sentence.uuid found ≡ some piece) × Finds found sentences pieces
Finds found _ _ = ⊥

piece_by_chunk_id-old :
    (id : ℕ) (sentences : List RuntimeChunk) (pieces : List Piece) (found : List (ℕ × Piece))
    → contains id (uuids sentences) ≡ false
    → lookup id (piece_by_chunk_id sentences pieces found) ≡ lookup id found
unfolding piece_by_chunk_id
piece_by_chunk_id-old id [] pieces found h = refl
piece_by_chunk_id-old id (s ∷ ss) [] found h = refl
piece_by_chunk_id-old id (s ∷ ss) (piece ∷ pieces) found h =
    let other : (id == s.uuid) ≡ false = ground arith in
    let rest : contains id (uuids ss) ≡ false = ground arith in
    piece_by_chunk_id-old id ss pieces (insert s.uuid piece found) rest
    ∙ lookup-insert id s.uuid piece found
    ∙ (rw other refl)

piece_by_chunk_id-Finds :
    (sentences : List RuntimeChunk) (pieces : List Piece) (found : List (ℕ × Piece))
    → Distinct (uuids sentences)
    → length pieces ≡ length sentences
    → Finds (piece_by_chunk_id sentences pieces found) sentences pieces
unfolding piece_by_chunk_id
piece_by_chunk_id-Finds [] [] found d h = tt
piece_by_chunk_id-Finds [] (piece ∷ pieces) found d h = absurd (omega arith)
piece_by_chunk_id-Finds (s ∷ ss) [] found d h = absurd (omega arith)
piece_by_chunk_id-Finds (s ∷ ss) (piece ∷ pieces) found d h = (
  piece_by_chunk_id-old s.uuid ss pieces (insert s.uuid piece found) d.0
      ∙ lookup-insert s.uuid s.uuid piece found
      ∙ (rw (==_refl s.uuid) refl),
  piece_by_chunk_id-Finds ss pieces (insert s.uuid piece found) d.1 (omega arith),
)

attach_pieces-ok :
    (found : List (ℕ × Piece)) (own later : List RuntimeChunk) (pieces : List Piece)
    → Finds found (own ++ later) pieces
    → (pairs : List (RuntimeChunk × Piece)) × (rest : List Piece) × (attach_pieces found own
        ≡ ok pairs)
      × (zip (own ++ later) pieces ≡ pairs ++ zip later rest)
      × Finds found later rest
      × (sentences_in pairs ≡ own)
unfolding attach_pieces
attach_pieces-ok found [] later pieces h = ([], pieces, refl, refl, h, refl)
attach_pieces-ok found (s ∷ ss) later [] h = absurd h
attach_pieces-ok found (s ∷ ss) later (piece ∷ pieces) h =
    let (pairs, rest, e, z, f, own) = attach_pieces-ok found ss later pieces h.1 in
    ((s, piece) ∷ pairs, rest, rw (h.0, e) refl, ap (λ l. (s, piece) ∷ l) z, f, ap (λ l. s ∷ l) own)

zip-nil : (pieces : List Piece) → [] ≡ zip {A = RuntimeChunk} [] pieces
zip-nil [] = refl
zip-nil (piece ∷ pieces) = refl

attach_groups-ok :
    (found : List (ℕ × Piece)) (cursor stop : ℕ) (ps : List RuntimeChunk)
    (bs : List (List RuntimeChunk)) (pieces : List Piece)
    → Placed cursor stop ps bs
    → Finds found (concat bs) pieces
    → (plan : List Planned) × (attach_groups found (zip ps bs) ≡ ok plan)
      × (paragraphs_of plan ≡ ps)
      × (pairs_of plan ≡ zip (concat bs) pieces)
      × (sentences_of plan ≡ bs)
unfolding attach_groups
attach_groups-ok found cursor stop [] [] pieces h f = ([], refl, refl, zip-nil pieces, refl)
attach_groups-ok found cursor stop [] (b ∷ bs) pieces h f = absurd h
attach_groups-ok found cursor stop (p ∷ ps) [] pieces h f = absurd h
attach_groups-ok found cursor stop (p ∷ ps) (b ∷ bs) pieces
      (a, z, starts, ends, i, j, k, full, c, h) f =
    let (pairs, rest, e, zipped, g, own) = attach_pieces-ok found b (concat bs) pieces f in
    let (plan, e', same, pairs', grouped) = attach_groups-ok found z stop ps bs rest h g in
    (
      (p, pairs) ∷ plan,
      rw (e, e') refl,
      ap (λ l. p ∷ l) same,
      ap (λ l. pairs ++ l) pairs' ∙ sym zipped,
      ap₂ (λ l ls. l ∷ ls) own grouped,
    )

-- The scope that is left out is the whole text.
whole_scope :
    (source : Text) (chunks : List ChunkInput) (pieces : List Piece)
    → build_exact_reconstruction_pieces source chunks (pos 0) (some (pos (length source))) true
      ≡ ok pieces
    → build_exact_reconstruction_pieces source chunks (pos 0) none true ≡ ok pieces
unfolding build_exact_reconstruction_pieces
whole_scope source chunks pieces h = h

plan_of :
    (source : Text) (paragraphs sentences : List RuntimeChunk) (groups : List Group)
    (pieces : List Piece) (plan : List Planned)
    → group_sentences paragraphs sentences ≡ ok groups
    → ordered_sentences groups ≡ sentences
    → build_exact_reconstruction_pieces source (inputs sentences) (pos 0) none true ≡ ok pieces
    → attach_groups (piece_by_chunk_id sentences pieces []) groups ≡ ok plan
    → exact_sentence_plan source paragraphs sentences ≡ ok plan
unfolding exact_sentence_plan
plan_of source paragraphs sentences groups pieces plan grouped ordered built attached =
    rw grouped (rw ordered (rw built attached))

-- For a source text and paragraphs in order with their sentences placed in them, at least one paragraph, and
-- sentences with distinct identifiers: the exact pieces are built, and the plan is made; its
-- paragraphs are the paragraphs, and its pairs are the sentences in order, each with its own piece,
-- one piece for each; the sentences under a paragraph lie within it.
pub exact_sentence_plan-total :
    (source : Text) (paragraph : RuntimeChunk) (paragraphs : List RuntimeChunk)
    (placed : List (List RuntimeChunk))
    → Placed 0 (length source) (paragraph ∷ paragraphs) placed
    → Distinct (uuids (concat placed))
    → (pieces : List Piece) × (plan : List Planned) × (build_exact_reconstruction_pieces source
          (map chunk_input (concat placed))
          (pos 0)
          none
          true
        ≡ ok pieces)
      × (exact_sentence_plan source (paragraph ∷ paragraphs) (concat placed) ≡ ok plan)
      × (paragraphs_of plan ≡ paragraph ∷ paragraphs)
      × (pairs_of plan ≡ zip (concat placed) pieces)
      × (length pieces ≡ length (concat placed))
      × Placed 0 (length source) (paragraph ∷ paragraphs) (sentences_of plan)
unfolding exact_sentence_plan
exact_sentence_plan-total source p ps [] h d = absurd h
exact_sentence_plan-total source p ps ([] ∷ bs) (a, z, starts, ends, i, j, k, full, c, h) d = cc
exact_sentence_plan-total source p ps ((s ∷ b) ∷ bs) h d =
    let sentences = (s ∷ b) ++ concat bs in
    let ordered = ordered_sentences-zip 0 (length source) (p ∷ ps) ((s ∷ b) ∷ bs) h in
    let grouped = group_sentences-Placed 0 (length source) [] (p ∷ ps) ((s ∷ b) ∷ bs) tt h in
    let (pieces, built, counted) =
      accepted_pieces source (chunk_input s) (inputs (b ++ concat bs)) 0 (length source) true
        (omega arith) (omega arith)
        (Placed-InOrder source 0 0 (length source) (p ∷ ps) ((s ∷ b) ∷ bs) (omega arith) h) in
    let found = piece_by_chunk_id sentences pieces [] in
    let finds : Finds found sentences pieces =
      piece_by_chunk_id-Finds sentences pieces [] d (counted ∙ length-map sentences chunk_input) in
    let (plan, attached, same, pairs, grouped_as) =
      attach_groups-ok found 0 (length source) (p ∷ ps) ((s ∷ b) ∷ bs) pieces h finds in
    let whole : build_exact_reconstruction_pieces source (inputs sentences) (pos 0) none true
        ≡ ok pieces =
      whole_scope source (inputs sentences) pieces built in
    (
      pieces,
      plan,
      whole,
      plan_of source (p ∷ ps) sentences (zip (p ∷ ps) ((s ∷ b) ∷ bs)) pieces plan grouped ordered
          whole attached,
      same,
      pairs,
      counted ∙ length-map sentences chunk_input,
      subst (Placed 0 (length source) (p ∷ ps)) (sym grouped_as) h,
    )

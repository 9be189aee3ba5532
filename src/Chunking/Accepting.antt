-- ===== src/Chunking/Accepting.antt =====
-- ingestion/svo_chunking.py: the answers that are accepted, and the item that is refused first.
use vvz_doc_store.Prelude.{
  ℕ, suc, ◌≤◌, ◌<◌, ◌≡◌, ◌⊎◌, inl, inr, refl, ap, sym, true, false, Option, none, some, List, [],
  ◌∷◌, arith, ltb, length, ℤ, pos, ok,
}
use vvz_doc_store.Text.{Text, text_eq_refl, cut, slice-pos, length-cut}
use vvz_doc_store.Text.Words.{is_empty}
use vvz_doc_store.Json.{Fields}
use vvz_doc_store.Chunking.{
  RuntimeChunk, SemanticChunk, items, RawItem, semantic, other_object, Libraries, or_text, natural,
  is_exact, resolve_runtime_range, accept_chunk, read_chunk, read_item, read_items,
  validate_runtime_chunks, ordinal_differs,
}
use vvz_doc_store.Chunking.Validated.{FitsOrdinal}

module _ (libraries : Libraries) (source expected : Text) where
  -- What a service that keeps to its contract returns for the range from `start` to `end`: one of the chunk's
  -- bodies is the source text of the range.
  pub record IsOffered (index previous_end : ℕ) (raw : SemanticChunk) (made : RuntimeChunk)
      (start end : ℕ) : Type 0 where
    pub payload : Fields
    pub chunk : SemanticChunk
    pub uuid : ℕ
    pub adapted : libraries.adapt raw ≡ some (payload, chunk)
    pub from_source : chunk.source_id ≡ some expected
    pub starts : chunk.start ≡ some (pos start)
    pub ends : chunk.end ≡ some (pos end)
    pub behind : previous_end ≤ start
    pub not_empty : start < end
    pub inside : end ≤ length source
    pub exact :
        (cut source start end ≡ or_text chunk.body [])
        ⊎ (cut source start end ≡ or_text chunk.text (or_text chunk.body []))
    pub fits : FitsOrdinal chunk.ordinal index
    pub identified : libraries.parse_uuid chunk.uuid ≡ some uuid
    pub version : libraries.uuid_version uuid ≡ some 4
    pub is_made : made ≡ record {
      uuid = uuid;
      text = or_text chunk.text (or_text chunk.body []);
      start = pos start;
      end = pos end;
      ordinal = index;
      metadata = payload;
    }

  abbrev pub Offered : ℕ → ℕ → List RawItem → List RuntimeChunk → Type 0
  Offered index previous_end [] [] = Unit
  Offered index previous_end (semantic raw ∷ rest) (made ∷ chunks) =
      (start end : ℕ) × IsOffered index previous_end raw made start end
      × Offered (suc index) end rest chunks
  Offered index previous_end _ _ = ⊥

or_text-full :
    (o : Option Text) (raw : Text) → is_empty raw ≡ false → is_empty (or_text o raw) ≡ false
or_text-full none raw h = h
or_text-full (some []) raw h = h
or_text-full (some (c ∷ t)) raw h = refl

ordinal_differs-not :
    (o : Option ℤ) (index : ℕ) → FitsOrdinal o index → ordinal_differs o index ≡ false
ordinal_differs-not none index h = refl
ordinal_differs-not (some z) index h = rw h (ground arith)

cut-full :
    (source : Text) (a b : ℕ) (text : Text)
    → a < b
    → b ≤ length source
    → cut source a b ≡ text
    → is_empty text ≡ false
cut-full source a b [] h k e = absurd (omega (arith, ap length e, length-cut source a b k))
cut-full source a b (c ∷ text) h k e = refl

is_exact-true :
    (source : Text) (previous_end a b : ℕ) (raw_body text_body : Text)
    → previous_end ≤ a
    → a < b
    → b ≤ length source
    → (cut source a b ≡ raw_body) ⊎ (cut source a b ≡ text_body)
    → is_exact source previous_end (pos a) (pos b) raw_body text_body ≡ true
unfolding is_exact
is_exact-true source previous_end a b raw_body text_body h k l (inl e) =
    rw (slice-pos source a b, e) (ground (arith, text_eq_refl raw_body))
is_exact-true source previous_end a b raw_body text_body h k l (inr e) =
    rw (slice-pos source a b, e) (ground (arith, text_eq_refl text_body))

module _ (libraries : Libraries) (source expected : Text) where
  body-full :
      (chunk : SemanticChunk) (a b : ℕ)
      → a < b
      → b ≤ length source
      → (cut source a b ≡ or_text chunk.body [])
        ⊎ (cut source a b ≡ or_text chunk.text (or_text chunk.body []))
      → is_empty (or_text chunk.text (or_text chunk.body [])) ≡ false
  body-full chunk a b h k (inl e) =
      or_text-full chunk.text (or_text chunk.body [])
        (cut-full source a b (or_text chunk.body []) h k e)
  body-full chunk a b h k (inr e) =
      cut-full source a b (or_text chunk.text (or_text chunk.body [])) h k e

  read_item-IsOffered :
      (index previous_end : ℕ) (raw : SemanticChunk) (made : RuntimeChunk) (start end : ℕ)
      → IsOffered libraries source expected index previous_end raw made start end
      → read_item libraries source expected index previous_end (semantic raw) ≡ ok made
  unfolding read_item read_chunk accept_chunk resolve_runtime_range
  read_item-IsOffered index previous_end raw made start end o =
      let chunk = o.chunk in
      let later : ltb start previous_end ≡ false = ground (arith, o.behind) in
      rw
        (
          o.adapted,
          o.from_source,
          text_eq_refl expected,
          o.starts,
          o.ends,
          body-full chunk start end o.not_empty o.inside o.exact,
          is_exact-true source previous_end start end (or_text chunk.body [])
              (or_text chunk.text (or_text chunk.body [])) o.behind o.not_empty o.inside o.exact,
          later,
          ordinal_differs-not chunk.ordinal index o.fits,
          o.identified,
          o.version,
        )
        (ap ok (sym o.is_made))

  read_items-Offered :
      (index previous_end : ℕ) (raws : List RawItem) (chunks : List RuntimeChunk)
      → Offered libraries source expected index previous_end raws chunks
      → read_items libraries source expected index previous_end raws ≡ ok chunks
  unfolding read_items
  read_items-Offered index previous_end [] [] o = refl
  read_items-Offered index previous_end [] (made ∷ chunks) o = elim o [ ]
  read_items-Offered index previous_end (other_object ∷ raws) chunks o = elim o [ ]
  read_items-Offered index previous_end (semantic raw ∷ raws) [] o = elim o [ ]
  read_items-Offered index previous_end (semantic raw ∷ raws) (made ∷ chunks)
        (start, end, o, rest) =
      let ends : natural made.end ≡ end = ap (λ (c : RuntimeChunk). natural c.end) o.is_made in
      rw
        (
          read_item-IsOffered index previous_end raw made start end o,
          ends,
          read_items-Offered (suc index) end raws chunks rest,
        )
        refl

-- An answer that keeps to the contract (consecutive ranges that are not empty inside the source text, each with
-- the text of its range as a body, the source's identifier, fitting ordinals and version 4 identifiers) is
-- accepted, and each chunk keeps the offered range.
pub validate_runtime_chunks-accepts :
    (libraries : Libraries) (source source_id : Text) (id : ℕ) (raw : RawItem) (raws : List RawItem)
    (chunks : List RuntimeChunk)
    → libraries.parse_uuid source_id ≡ some id
    → Offered libraries source (libraries.print_uuid id) 0 0 (raw ∷ raws) chunks
    → validate_runtime_chunks libraries (items (raw ∷ raws)) source source_id ≡ ok chunks
unfolding validate_runtime_chunks
validate_runtime_chunks-accepts libraries source source_id id raw raws chunks e o =
    rw e (read_items-Offered libraries source (libraries.print_uuid id) 0 0 (raw ∷ raws) chunks o)

-- ===== src/Exact/Build.antt =====
-- The pieces that `build_exact_reconstruction_pieces` accepts spell its scope of the source text.
use vvz_doc_store.Prelude.{
  ℕ, ◌≤◌, ◌≡◌, refl, ap, ap₂, sym, ◌∙◌, Bool, Option, none, some, List, [], ◌∷◌, ◌++◌, arith, ok, ℤ,
  pos, negsuc, All, raise_if-eq-ok, false, length, append_assoc, >>=-eq-ok,
}
use vvz_doc_store.Text.{Text, or_default, text_eq_sound, cut, slice, cut-append, cut_empty}
use vvz_doc_store.Exact.{
  Piece, ChunkInput, build_piece, build_pieces, with_suffix, range_fails, accept_range, scope_fails,
  or_length, build_exact_reconstruction_pieces,
}

-- What pieces spell over the stored texts, in order, suffixes left out.
abbrev pub spell : List Piece → List Text → Text
spell [] stored = []
spell (piece ∷ pieces) [] = []
spell (piece ∷ pieces) (text ∷ stored) =
    piece.gap_before ++ (or_default piece.source_text text ++ spell pieces stored)

abbrev pub texts : List ChunkInput → List Text
texts [] = []
texts (chunk ∷ chunks) = chunk.text ∷ texts chunks

-- The loop's result: a cursor inside the scope, and pieces that spell what lies behind the start.
record Spells (source : Text) (chunks : List ChunkInput) (start scope_end : ℕ)
    (built : List Piece × ℤ) : Type 0 where
  cursor : ℕ
  at_cursor : built.1 ≡ pos cursor
  from_start : start ≤ cursor
  in_scope : cursor ≤ scope_end
  spelled : spell built.0 (texts chunks) ≡ cut source start cursor
  no_suffixes : All (λ piece. piece.suffix_after ≡ none) built.0

-- A range that passes the tests lies between the cursor and the end of the scope.
range_in_scope :
    (cursor scope_end : ℕ) (start finish : ℤ)
    → range_fails (pos cursor) (pos scope_end) start finish ≡ false
    → (s t : ℕ) × (start ≡ pos s) × (finish ≡ pos t) × (cursor ≤ s) × (s ≤ t) × (t ≤ scope_end)
unfolding range_fails
range_in_scope cursor scope_end (pos s) (pos t) h =
    (s, t, refl, refl, ground arith, ground arith, ground arith)
range_in_scope cursor scope_end (pos s) (negsuc t) h = absurd (ground arith)
range_in_scope cursor scope_end (negsuc s) finish h = absurd (ground arith)

-- An accepted piece: the gap from the cursor, then the chunk's slice, and no suffix.
build_piece_lem :
    (source : Text) (allow : Bool) (text : Text) (cursor s t : ℕ) (piece : Piece)
    → build_piece source allow text (pos cursor) (pos s) (pos t) ≡ ok piece
    → (piece.gap_before ≡ cut source cursor s)
      × (or_default piece.source_text text ≡ cut source s t)
      × (piece.suffix_after ≡ none)
unfolding build_piece slice
build_piece_lem source allow text cursor s t piece h =
    ground (arith, text_eq_sound (cut source s t) text)

-- An accepted chunk moves the cursor inside the scope, and its piece spells what it passes.
record Accepted (source text : Text) (cursor scope_end : ℕ) (accepted : Piece × ℤ) : Type 0 where
  next : ℕ
  at_next : accepted.1 ≡ pos next
  forward : cursor ≤ next
  in_scope : next ≤ scope_end
  spelled : accepted.0.gap_before ++ or_default accepted.0.source_text text ≡ cut source cursor next
  no_suffix : accepted.0.suffix_after ≡ none

spell-cons :
    (text : Text) (stored : List Text) (piece : Piece) (pieces : List Piece) {first rest : Text}
    → piece.gap_before ++ or_default piece.source_text text ≡ first
    → spell pieces stored ≡ rest
    → spell (piece ∷ pieces) (text ∷ stored) ≡ first ++ rest
spell-cons text stored piece pieces p q =
    sym (append_assoc piece.gap_before (or_default piece.source_text text) (spell pieces stored))
    ∙ ap₂ ◌++◌ p q

module _ (source : Text) (allow : Bool) (scope_end : ℕ) where
  accept_range_lem :
      (text : Text) (cursor : ℕ) (start? end? : Option ℤ) (accepted : Piece × ℤ)
      → accept_range source allow (pos scope_end) (pos cursor) text start? end? ≡ ok accepted
      → Accepted source text cursor scope_end accepted
  unfolding accept_range
  accept_range_lem text cursor (some start) (some finish) accepted h =
      let (inside, h₁) =
        raise_if-eq-ok (range_fails (pos cursor) (pos scope_end) start finish) _ _ h in
      let (s, t, es, et, le₁, le₂, le₃) = range_in_scope cursor scope_end start finish inside in
      let (piece, h₂, e) =
        >>=-eq-ok (build_piece source allow text (pos cursor) start finish) _ h₁ in
      let h₃ : build_piece source allow text (pos cursor) (pos s) (pos t) ≡ ok piece =
        rw (← es, ← et) h₂ in
      let (gap, body, plain) = build_piece_lem source allow text cursor s t piece h₃ in
      let whole : accepted ≡ (piece, finish) = cc in
      rw whole (record {
        next = t;
        at_next = et;
        forward = omega arith;
        in_scope = le₃;
        spelled = rw (gap, body) (cut-append source cursor s t le₁ le₂);
        no_suffix = plain;
      })
  accept_range_lem text cursor (some start) none accepted h = cc
  accept_range_lem text cursor none end? accepted h = cc

  build_pieces_lem :
      (chunks : List ChunkInput) (start : ℕ) (built : List Piece × ℤ)
      → start ≤ scope_end
      → build_pieces source allow (pos scope_end) (pos start) chunks ≡ ok built
      → Spells source chunks start scope_end built
  unfolding build_pieces
  build_pieces_lem [] start built le h =
      let whole : built ≡ ([], pos start) = cc in
      rw whole (record {
        cursor = start;
        at_cursor = refl;
        from_start = omega arith;
        in_scope = le;
        spelled = sym (cut_empty source start);
        no_suffixes = tt;
      })
  build_pieces_lem (chunk ∷ chunks) start built le h =
      let (accepted, h₁, h₂) =
        >>=-eq-ok
          (accept_range source allow (pos scope_end) (pos start) chunk.text chunk.source_start
            chunk.source_end)
          _ h in
      let (rest, h₃, e) =
        >>=-eq-ok (build_pieces source allow (pos scope_end) accepted.1 chunks) _ h₂ in
      let a = accept_range_lem chunk.text start chunk.source_start chunk.source_end accepted h₁ in
      let h₄ : build_pieces source allow (pos scope_end) (pos a.next) chunks ≡ ok rest =
        rw (← a.at_next) h₃ in
      let r = build_pieces_lem chunks a.next rest a.in_scope h₄ in
      let whole : built ≡ (accepted.0 ∷ rest.0, rest.1) = cc in
      rw whole (record {
        cursor = r.cursor;
        at_cursor = r.at_cursor;
        from_start = omega (arith, a.forward, r.from_start);
        in_scope = r.in_scope;
        spelled =
            spell-cons chunk.text (texts chunks) accepted.0 rest.0 a.spelled r.spelled
            ∙ cut-append source start a.next r.cursor a.forward r.from_start;
        no_suffixes = (a.no_suffix, r.no_suffixes);
      })

-- The text of a whole list of pieces: what they spell, then the last one's suffix.
abbrev pub last_suffix : List Piece → Text
last_suffix [] = []
last_suffix (piece ∷ []) = or_default piece.suffix_after []
last_suffix (piece ∷ next ∷ pieces) = last_suffix (next ∷ pieces)

-- One suffix, on the last piece.
abbrev pub SuffixLast : List Piece → Type 0
SuffixLast [] = ⊥
SuffixLast (piece ∷ []) = (suffix : Text) × (piece.suffix_after ≡ some suffix)
SuffixLast (piece ∷ next ∷ pieces) = (piece.suffix_after ≡ none) × SuffixLast (next ∷ pieces)

SuffixLast-cons :
    (piece : Piece) (rest : List Piece)
    → piece.suffix_after ≡ none
    → SuffixLast rest
    → (last_suffix (piece ∷ rest) ≡ last_suffix rest) × SuffixLast (piece ∷ rest)
SuffixLast-cons piece [] plain one = absurd one
SuffixLast-cons piece (next ∷ rest) plain one = (refl, (plain, one))

with_suffix_lem :
    (suffix : Text) (pieces result : List Piece)
    → All (λ piece. piece.suffix_after ≡ none) pieces
    → with_suffix suffix pieces ≡ ok result
    → ((stored : List Text) → spell result stored ≡ spell pieces stored)
      × (last_suffix result ≡ suffix)
      × SuffixLast result
unfolding with_suffix
with_suffix_lem suffix [] result plain h = cc
with_suffix_lem suffix (piece ∷ []) result plain h =
    let whole : result ≡ record piece { suffix_after = some suffix } ∷ [] = cc in
    rw whole (spelling, refl, (suffix, refl))
  where
    spelling :
        (stored : List Text)
        → spell (record piece { suffix_after = some suffix } ∷ []) stored
          ≡ spell (piece ∷ []) stored
    spelling [] = refl
    spelling (text ∷ stored) = refl
with_suffix_lem suffix (piece ∷ next ∷ pieces) result plain h =
    let (rest, h₁, e) = >>=-eq-ok (with_suffix suffix (next ∷ pieces)) _ h in
    let (same, last, one) = with_suffix_lem suffix (next ∷ pieces) rest plain.1 h₁ in
    let (last', one') = SuffixLast-cons piece rest plain.0 one in
    let whole : result ≡ piece ∷ rest = cc in rw whole (spelling rest same, last' ∙ last, one')
  where
    spelling :
        (rest : List Piece)
        → ((stored : List Text) → spell rest stored ≡ spell (next ∷ pieces) stored)
        → (stored : List Text) → spell (piece ∷ rest) stored ≡ spell (piece ∷ next ∷ pieces) stored
    spelling rest same [] = refl
    spelling rest same (text ∷ stored) =
        ap (λ u. piece.gap_before ++ (or_default piece.source_text text ++ u)) (same stored)

-- What accepted pieces are: one suffix, at the end, and over the chunks' texts they spell the scope.
pub record Rebuilds (source : Text) (chunks : List ChunkInput) (first last : ℕ)
    (pieces : List Piece) : Type 0 where
  pub spelled : spell pieces (texts chunks) ++ last_suffix pieces ≡ cut source first last
  pub suffix_last : SuffixLast pieces

-- A scope that passes its test lies inside the source text.
scope_inside :
    (source : Text) (scope_start scope_end : ℤ)
    → scope_fails source scope_start scope_end ≡ false
    → (a b : ℕ) × (scope_start ≡ pos a) × (scope_end ≡ pos b) × (a ≤ b) × (b ≤ length source)
unfolding scope_fails
scope_inside source (pos a) (pos b) h = (a, b, refl, refl, ground arith, ground arith)
scope_inside source (pos a) (negsuc b) h = absurd (ground arith)
scope_inside source (negsuc a) scope_end h = absurd (ground arith)

-- If pieces are built, the scope lies inside the source text, only the last piece has a suffix, and the gaps
-- and texts of the pieces over the chunks' stored texts, with that suffix, spell the scope of the source.
pub build_lem :
    (source : Text) (chunks : List ChunkInput) (scope_start : ℤ) (scope_end? : Option ℤ)
    (allow : Bool) (pieces : List Piece)
    → build_exact_reconstruction_pieces source chunks scope_start scope_end? allow ≡ ok pieces
    → (a b : ℕ) × (scope_start ≡ pos a)
      × (or_length source scope_end? ≡ pos b)
      × (a ≤ b)
      × (b ≤ length source)
      × Rebuilds source chunks a b pieces
unfolding build_exact_reconstruction_pieces slice
build_lem source chunks scope_start scope_end? allow pieces h =
    let scope_end = or_length source scope_end? in
    let (inside, h₁) = raise_if-eq-ok (scope_fails source scope_start scope_end) _ _ h in
    let (a, b, ea, eb, le, le') = scope_inside source scope_start scope_end inside in
    let (built, h₂, h₃) = >>=-eq-ok (build_pieces source allow scope_end scope_start chunks) _ h₁ in
    let h₂' : build_pieces source allow (pos b) (pos a) chunks ≡ ok built = rw (← ea, ← eb) h₂ in
    let r = build_pieces_lem source allow b chunks a built le h₂' in
    let (same, last, one) =
      with_suffix_lem (slice source built.1 scope_end) built.0 pieces r.no_suffixes h₃ in
    let last' : last_suffix pieces ≡ cut source r.cursor b =
      last ∙ ap₂ (λ u v. slice source u v) r.at_cursor eb in
    (
      a,
      b,
      ea,
      eb,
      le,
      le',
      record {
        spelled =
            ap₂ ◌++◌ (same (texts chunks) ∙ r.spelled) last'
            ∙ cut-append source a r.cursor b r.from_start r.in_scope;
        suffix_last = one;
      },
    )

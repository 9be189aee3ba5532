-- ===== src/Reconstruct/Assemble/Prefix.antt =====
-- The assembled text and the whole text.
use mathlib.Core.Bool.{not-not}
use vvz_doc_store.Prelude.{
  if_cases, ℕ, zero, suc, ◌+◌, ◌≡◌, refl, ap, ap₂, sym, ◌∙◌, ◌⊎◌, inl, inr, true, false, not,
  Option, none, some, List, [], ◌∷◌, ◌++◌, Bool-cases, length, ltb, length-append, append_assoc,
  append-nil, subst, if◌then◌else◌, lookup,
}
use vvz_doc_store.Text.{Text}
use vvz_doc_store.Reconstruct.{Row, Pieces}
use vvz_doc_store.Reconstruct.Assemble.{
  State, start, emit, is_full, separator_of, chunk_text, take_row, assemble_rows, suffix_of, is_nil,
  add_suffix, finish, assemble_text,
}
use vvz_doc_store.Reconstruct.Assemble.Loop.{
  clip, Reaches, Exceeds, append-emit, emit_split, clip-append, Cut, Cut-append, Exceeds-Reaches,
  beyond, beyond_cons, Reaches-append, Reaches-is_full,
}

-- The whole text, by recursion on the rows: each chunk behind its separator.
abbrev pub joined : Pieces → Option ℕ → List Row → Text
joined pieces previous [] = []
joined pieces previous (row ∷ rows) =
    let piece = lookup row.chunk_id pieces in
    (separator_of piece previous row.paragraph_id ++ chunk_text piece row.text)
    ++ joined pieces (some row.paragraph_id) rows

-- The suffix that follows the rows, where they have exact pieces.
abbrev pub final_suffix : Pieces → List Row → Text
final_suffix pieces rows = if is_nil pieces then [] else suffix_of pieces rows

abbrev pub whole_text : Pieces → List Row → Text
whole_text pieces rows = joined pieces none rows ++ final_suffix pieces rows

-- Some row adds no character: its separator and its text are empty.
abbrev pub AddsNothing : Pieces → Option ℕ → List Row → Type 0
AddsNothing pieces previous [] = ⊥
AddsNothing pieces previous (row ∷ rows) =
    let piece = lookup row.chunk_id pieces in
    (separator_of piece previous row.paragraph_id ++ chunk_text piece row.text ≡ [])
    ⊎ AddsNothing pieces (some row.paragraph_id) rows

-- A state that stands for the text `full`, which more may follow; `Idle` is a reason to cut it early.
record Follows (Idle : Type 0) (max_chars : ℕ) (full : Text) (s : State) : Type 0 where
  counted : s.cursor ≡ length s.body
  clipped : s.body ≡ clip max_chars full
  complete : s.truncated ≡ false → s.body ≡ full
  filled : s.truncated ≡ true → Cut Idle max_chars full

-- A truncated state stands for every longer text.
Follows-append :
    (Idle : Type 0) (max_chars : ℕ) (full more : Text) (s : State)
    → s.truncated ≡ true
    → Follows Idle max_chars full s
    → Follows Idle max_chars (full ++ more) s
Follows-append Idle max_chars full more s cut f = record {
  counted = f.counted;
  clipped = f.clipped ∙ sym (clip-append max_chars full more (f.filled cut).0);
  complete = λ whole. cc;
  filled = λ _. Cut-append Idle max_chars full more (f.filled cut);
}

-- A full text is cut before what follows.
full-Follows :
    (Idle : Type 0) (max_chars : ℕ) (full more : Text) (s : State)
    → (Reaches max_chars full → Exceeds max_chars (full ++ more) ⊎ Idle)
    → Follows Idle max_chars full s
    → s.truncated ≡ false
    → is_full max_chars s.cursor ≡ true
    → Follows Idle max_chars (full ++ more) (record s { truncated = true })
full-Follows Idle max_chars full more s reason f go h =
    let same : s.body ≡ full = f.complete go in
    let reached : Reaches max_chars full =
      Reaches-is_full max_chars full (rw (← same, ← f.counted) h) in
    record {
      counted = f.counted;
      clipped = f.clipped ∙ sym (clip-append max_chars full more reached);
      complete = λ whole. cc;
      filled = λ _. (Reaches-append max_chars full more reached, reason reached);
    }

-- What one emission leaves.
emit-Follows :
    (Idle : Type 0) (max_chars : ℕ) (full candidate : Text) (s s' : State)
    → Follows Idle max_chars full s
    → s.truncated ≡ false
    → is_full max_chars s.cursor ≡ false
    → let emitted = emit max_chars s.cursor candidate in
      s'.body ≡ s.body ++ emitted
      → s'.cursor ≡ s.cursor + length emitted
      → s'.truncated ≡ ltb (length emitted) (length candidate)
      → Follows Idle max_chars (full ++ candidate) s'
emit-Follows Idle max_chars full candidate s s' f go room body cursor truncated =
    let same : s.body ≡ full = f.complete go in
    let e : s.cursor ≡ length full = f.counted ∙ ap length same in
    let room' : is_full max_chars (length full) ≡ false = rw (← e) room in
    let emitted = emit max_chars (length full) candidate in
    let body' : s'.body ≡ full ++ emitted =
      body ∙ ap₂ (λ u n. u ++ emit max_chars n candidate) same e in
    let truncated' : s'.truncated ≡ ltb (length emitted) (length candidate) =
      truncated ∙ ap (λ n. ltb (length (emit max_chars n candidate)) (length candidate)) e in
    let (all, part) = emit_split max_chars full candidate in
    record {
      counted =
          cursor
          ∙ ap (λ n. n + length (emit max_chars n candidate)) e
          ∙ sym (length-append full emitted)
          ∙ ap length (sym body');
      clipped = body' ∙ append-emit max_chars full candidate room';
      complete = λ h. body' ∙ ap (λ u. full ++ u) (all (sym truncated' ∙ h));
      filled = λ h.
          let long = part (sym truncated' ∙ h) in
          (Exceeds-Reaches max_chars (full ++ candidate) long, inl long);
    }

module _ (Idle : Type 0) (preview_limit max_chars : ℕ) where
  take_row-Follows :
      (row : Row) (separator text full : Text) (s : State)
      → Follows Idle max_chars full s
      → s.truncated ≡ false
      → is_full max_chars s.cursor ≡ false
      → Follows Idle max_chars
          (full ++ (separator ++ text))
          (take_row preview_limit max_chars row separator text s)
  unfolding take_row
  take_row-Follows row separator text full s f go room =
      emit-Follows Idle max_chars full (separator ++ text) s
        (take_row preview_limit max_chars row separator text s) f go room refl refl refl

  previous-take_row :
      (row : Row) (separator text : Text) (s : State)
      → (take_row preview_limit max_chars row separator text s).previous ≡ some row.paragraph_id
  unfolding take_row
  previous-take_row row separator text s = refl

add_suffix-Follows :
    (Idle : Type 0) (max_chars : ℕ) (full suffix : Text) (s : State)
    → Follows Idle max_chars full s
    → s.truncated ≡ false
    → Follows Idle max_chars (full ++ suffix) (add_suffix max_chars suffix s)
unfolding add_suffix
add_suffix-Follows Idle max_chars full suffix s f go =
    elim (Bool-cases (is_full max_chars s.cursor)) [
      | inl stop ↦ rw stop (at_end suffix stop)
      | inr room ↦ rw room (emit-Follows Idle max_chars full suffix s _ f go room refl refl refl)
    ]
  where
    at_end :
        (suffix : Text)
        → is_full max_chars s.cursor ≡ true
        → Follows Idle max_chars (full ++ suffix) (record s { truncated = not (is_nil suffix) })
    at_end [] stop = rw append-nil (record {
      counted = f.counted;
      clipped = f.clipped;
      complete = λ h. f.complete go;
      filled = λ h. cc;
    })
    at_end (c ∷ suffix) stop =
        full-Follows Idle max_chars full (c ∷ suffix) s
          (λ h. inl (beyond_cons max_chars full c suffix h)) f go stop

clip-nil : (max_chars : ℕ) → clip max_chars [] ≡ []
clip-nil zero = refl
clip-nil (suc n) = refl

finish-Follows :
    (Idle : Type 0) (max_chars : ℕ) (pieces : Pieces) (rows : List Row) (full : Text) (s : State)
    → Follows Idle max_chars full s
    → Follows Idle max_chars (full ++ final_suffix pieces rows) (finish max_chars pieces rows s)
unfolding finish
finish-Follows Idle max_chars [] rows full s f = rw append-nil f
finish-Follows Idle max_chars (piece ∷ pieces) rows full s f =
    if_cases (λ t. Follows Idle max_chars (full ++ suffix) t) (not s.truncated)
      (λ go. add_suffix-Follows Idle max_chars full suffix s f (cc (not-not s.truncated)))
      (λ cut. Follows-append Idle max_chars full suffix s (cc (not-not s.truncated)) f)
  where
    suffix : Text
    suffix = suffix_of (piece ∷ pieces) rows

module _ (Idle : Type 0) (preview_limit max_chars : ℕ) (pieces : Pieces) where
  assemble_rows-Follows :
      (rows : List Row) (full : Text) (s : State)
      → (AddsNothing pieces s.previous rows → Idle)
      → Follows Idle max_chars full s
      → s.truncated ≡ false
      → Follows Idle max_chars
          (full ++ joined pieces s.previous rows)
          (assemble_rows preview_limit max_chars pieces rows s)
  unfolding assemble_rows
  assemble_rows-Follows [] full s idle f go = rw append-nil f
  assemble_rows-Follows (row ∷ rows) full s idle f go =
      if_cases (λ t. Follows Idle max_chars (full ++ (candidate ++ later)) t)
        (is_full max_chars s.cursor)
        (full-Follows Idle max_chars full (candidate ++ later) s reason f go)
        (λ room.
          let f' =
            take_row-Follows Idle preview_limit max_chars row separator text full s f go room in
          rw (← append_assoc full candidate later) (
            if_cases (λ t. Follows Idle max_chars ((full ++ candidate) ++ later) t) s'.truncated
              (λ cut. Follows-append Idle max_chars (full ++ candidate) later s' cut f')
              (λ more.
                subst
                  (λ p.
                    Follows Idle max_chars ((full ++ candidate) ++ joined pieces p rows)
                      (assemble_rows preview_limit max_chars pieces rows s'))
                  (previous-take_row Idle preview_limit max_chars row separator text s)
                  (assemble_rows-Follows rows (full ++ candidate) s'
                    (λ a. idle (
                      inr (
                        subst (λ p. AddsNothing pieces p rows)
                          (previous-take_row Idle preview_limit max_chars row separator text s) a)))
                    f' more))))
    where
      separator : Text
      separator = separator_of (lookup row.chunk_id pieces) s.previous row.paragraph_id

      text : Text
      text = chunk_text (lookup row.chunk_id pieces) row.text

      candidate : Text
      candidate = separator ++ text

      later : Text
      later = joined pieces (some row.paragraph_id) rows

      reason : Reaches max_chars full → Exceeds max_chars (full ++ (candidate ++ later)) ⊎ Idle
      reason h = elim (beyond max_chars full candidate later h) [
        | inl long ↦ inl long
        | inr nothing ↦ inr (idle (inl nothing))
      ]

      s' : State
      s' = take_row preview_limit max_chars row separator text s

start-Follows : (Idle : Type 0) (max_chars : ℕ) → Follows Idle max_chars [] start
start-Follows Idle max_chars = record {
  counted = refl;
  clipped = sym (clip-nil max_chars);
  complete = λ h. refl;
  filled = λ h. cc;
}

assemble_text-Follows :
    (preview_limit max_chars : ℕ) (pieces : Pieces) (rows : List Row)
    → Follows
        (AddsNothing pieces none rows)
        max_chars
        (whole_text pieces rows)
        (assemble_text preview_limit max_chars pieces rows)
unfolding assemble_text
assemble_text-Follows preview_limit max_chars pieces rows =
    let Idle = AddsNothing pieces none rows in
    finish-Follows Idle max_chars pieces rows (joined pieces none rows)
      (assemble_rows preview_limit max_chars pieces rows start)
      (assemble_rows-Follows Idle preview_limit max_chars pieces rows [] start (λ a. a)
        (start-Follows Idle max_chars) refl)

-- The assembled text is the whole text cut at `max_chars` characters, 0 for no bound; its length is the
-- cursor; a text that is not reported as truncated is whole, and one that is reported reaches its bound: the
-- whole text is longer than the bound, or some row adds no character to it.
pub assemble_text_lem :
    (preview_limit max_chars : ℕ) (pieces : Pieces) (rows : List Row)
    → let s = assemble_text preview_limit max_chars pieces rows in
      let full = whole_text pieces rows in
      (s.body ≡ clip max_chars full)
      × (s.cursor ≡ length s.body)
      × (s.truncated ≡ false → s.body ≡ full)
      × (s.truncated ≡ true
          → Reaches max_chars full × (Exceeds max_chars full ⊎ AddsNothing pieces none rows))
assemble_text_lem preview_limit max_chars pieces rows =
    let f = assemble_text-Follows preview_limit max_chars pieces rows in
    (f.clipped, f.counted, f.complete, f.filled)

-- ===== src/Text/Spelling.antt =====
-- The words of a text: of one with its outer white space taken off, and of one that is spelled out.
use vvz_doc_store.Prelude.{
  ℕ, ◌≡◌, inl, inr, refl, ap, sym, ◌≢◌, ◌∙◌, true, false, Bool-cases, List, [], ◌∷◌, ◌++◌,
  append_assoc, append-nil, All, All-snoc,
}
use vvz_doc_store.Text.Defs.{Text}
use vvz_doc_store.Text.Words.{
  is_space, close_word, split_from, split, is_empty, strip_left, strip_right, strip,
}
use vvz_doc_store.Text.Located.{Blank, Spells, SpellsRest}

-- No white space.
abbrev pub Solid : Text → Type 0
Solid = All (λ c. is_space c ≡ false)

split_from-Solid :
    (word solid text : Text)
    → Solid solid
    → split_from word (solid ++ text) ≡ split_from (word ++ solid) text
unfolding split_from
split_from-Solid word [] text h = ap (λ w. split_from w text) (sym (append-nil word))
split_from-Solid word (c ∷ solid) text h = rw h.0 (
    split_from-Solid (word ++ c ∷ []) solid text h.1
    ∙ ap (λ w. split_from w text) (append_assoc word (c ∷ []) solid))

split_from-Blank :
    (blank text : Text) → Blank blank → split_from [] (blank ++ text) ≡ split_from [] text
unfolding split_from
split_from-Blank [] text h = refl
split_from-Blank (c ∷ blank) text h = rw h.0 (split_from-Blank blank text h.1)

-- White space behind a word closes it.
split_from-gap :
    (word : Text) (c : ℕ) (gap text : Text)
    → Blank (c ∷ gap)
    → split_from word ((c ∷ gap) ++ text) ≡ close_word word (split_from [] text)
unfolding split_from
split_from-gap word c gap text h = rw h.0 (ap (close_word word) (split_from-Blank gap text h.1))

-- A word of `split`.
abbrev pub IsWord : Text → Type 0
IsWord [] = ⊥
IsWord (c ∷ word) = Solid (c ∷ word)

IsWord-Solid : (word : Text) → IsWord word → Solid word
IsWord-Solid [] h = tt
IsWord-Solid (c ∷ word) h = h

close_word-IsWord :
    (word : Text) (words : List Text) → IsWord word → close_word word words ≡ word ∷ words
close_word-IsWord [] words h = absurd h
close_word-IsWord (c ∷ word) words h = refl

split_from-SpellsRest :
    (word : Text) (words : List Text) (text : Text)
    → IsWord word
    → All IsWord words
    → SpellsRest words text
    → split_from word text ≡ word ∷ words
unfolding split_from
split_from-SpellsRest word [] text w ws e = rw e (close_word-IsWord word [] w)
split_from-SpellsRest word (next ∷ words) text w ws (c, gap, rest, e, blank, s) =
    ap (split_from word) e
    ∙ split_from-gap word c gap (next ++ rest) blank
    ∙ ap (close_word word) (
        split_from-Solid [] next rest (IsWord-Solid next ws.0)
        ∙ split_from-SpellsRest next words rest ws.0 ws.1 s)
    ∙ close_word-IsWord word (next ∷ words) w

-- The words that are spelled out are the words.
pub split-Spells :
    (words : List Text) (text : Text) → All IsWord words → Spells words text → split text ≡ words
unfolding split split_from
split-Spells [] text ws e = rw e refl
split-Spells (word ∷ words) text ws (rest, e, s) =
    ap (split_from []) e
    ∙ split_from-Solid [] word rest (IsWord-Solid word ws.0)
    ∙ split_from-SpellsRest word words rest ws.0 ws.1 s

close_word-All :
    (word : Text) (words : List Text)
    → Solid word
    → All IsWord words
    → All IsWord (close_word word words)
close_word-All [] words h ws = ws
close_word-All (c ∷ word) words h ws = (h, ws)

split_from-All : (word text : Text) → Solid word → All IsWord (split_from word text)
unfolding split_from
split_from-All word [] h = close_word-All word [] h tt
split_from-All word (c ∷ text) h = elim (Bool-cases (is_space c)) [
  | inl space ↦ rw space (close_word-All word (split_from [] text) h (split_from-All [] text tt))
  | inr other ↦
      rw other
        (split_from-All (word ++ c ∷ []) text (All-snoc (λ d. is_space d ≡ false) word c h other))
]

pub split-All : (text : Text) → All IsWord (split text)
unfolding split
split-All text = split_from-All [] text tt

is_empty-eq : (text : Text) → is_empty text ≡ true → text ≡ []
is_empty-eq [] h = refl
is_empty-eq (c ∷ text) h = cc

split_from-strip_left : (text : Text) → split_from [] (strip_left text) ≡ split_from [] text
unfolding split_from strip_left
split_from-strip_left [] = refl
split_from-strip_left (c ∷ text) = elim (Bool-cases (is_space c)) [
  | inl space ↦ rw space (split_from-strip_left text)
  | inr other ↦ rw other (rw other refl)
]

split_from-strip_right :
    (word text : Text) → split_from word (strip_right text) ≡ split_from word text
unfolding split_from strip_right
split_from-strip_right word [] = refl
split_from-strip_right word (c ∷ text) = elim (Bool-cases (is_space c)) [
  | inl space ↦ elim (Bool-cases (is_empty (strip_right text))) [
    | inl empty ↦
        let nothing : split_from [] text ≡ [] =
          sym (split_from-strip_right [] text)
          ∙ ap (split_from []) (is_empty-eq (strip_right text) empty) in
        rw (space, empty) (rw nothing refl)
    | inr more ↦ rw (space, more) (rw space (ap (close_word word) (split_from-strip_right [] text)))
  ]
  | inr other ↦ rw other (rw other (split_from-strip_right (word ++ c ∷ []) text))
]

-- The white space around a text is in none of its words.
pub split-strip : (text : Text) → split (strip text) ≡ split text
unfolding split strip
split-strip text = split_from-strip_right [] (strip_left text) ∙ split_from-strip_left text

close_word-ne : (word : Text) (c : ℕ) (words : List Text) → close_word (word ++ c ∷ []) words ≢ []
close_word-ne [] c words h = cc
close_word-ne (d ∷ word) c words h = cc

split_from-ne : (word : Text) (c : ℕ) (text : Text) → split_from (word ++ c ∷ []) text ≢ []
unfolding split_from
split_from-ne word c [] = close_word-ne word c []
split_from-ne word c (d ∷ text) = elim (Bool-cases (is_space d)) [
  | inl space ↦ rw space (close_word-ne word c (split_from [] text))
  | inr other ↦ rw other (split_from-ne (word ++ c ∷ []) d text)
]

strip_left-nil : (text : Text) → split_from [] text ≡ [] → strip_left text ≡ []
unfolding split_from strip_left
strip_left-nil [] h = refl
strip_left-nil (c ∷ text) h = elim (Bool-cases (is_space c)) [
  | inl space ↦ rw space (strip_left-nil text (rw space at h))
  | inr other ↦ absurd (split_from-ne [] c text (rw other at h))
]

-- A text with no words is white space.
pub strip-nil : (text : Text) → split text ≡ [] → strip text ≡ []
unfolding split strip strip_right
strip-nil text h = rw (strip_left-nil text h) refl

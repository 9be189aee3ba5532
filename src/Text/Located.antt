-- ===== src/Text/Located.antt =====
-- Where a search finds a word, or words with white space between them.
use vvz_doc_store.Prelude.{
  ℕ, suc, ◌+◌, ◌≤◌, ◌≡◌, refl, ap, sym, ◌∙◌, inl, inr, true, false, Bool-cases, Option, none, some,
  Option-cases, List, [], ◌∷◌, ◌++◌, append_assoc, arith, ◌==◌, length, drop, take, All,
  length-append, take-append-drop, length-take, of_some, subst,
}
use vvz_doc_store.Text.Defs.{Text}
use vvz_doc_store.Text.Words.{is_space}
use vvz_doc_store.Text.Search.{
  is_prefix, find_in, count_spaces, match_rest, match_words, search_words,
}
use mathlib.Core.Option as Option

-- `part` stands in `text` from `a` to `b`.
pub record Occurs (text part : Text) (a b : ℕ) : Type 0 where
  pub before : Text
  pub after : Text
  pub whole : text ≡ before ++ (part ++ after)
  pub from : a ≡ length before
  pub to : b ≡ a + length part

pub is_prefix-eq :
    (word text : Text) → is_prefix word text ≡ true → text ≡ word ++ drop (length word) text
is_prefix-eq [] text h = refl
is_prefix-eq (c ∷ word) [] h = cc
is_prefix-eq (c ∷ word) (d ∷ text) h = ground (arith, is_prefix-eq word text)

-- One place further.
Occurs-cons :
    {text part : Text} {a b : ℕ} (c : ℕ)
    → Occurs text part a b
    → Occurs (c ∷ text) part (suc a) (suc b)
Occurs-cons c o = record {
  before = c ∷ o.before;
  after = o.after;
  whole = ap (λ (t : Text). c ∷ t) o.whole;
  from = omega (arith, o.from);
  to = omega (arith, o.to);
}

Occurs-here : (word text : Text) → is_prefix word text ≡ true → Occurs text word 0 (0 + length word)
Occurs-here word text h = record {
  before = [];
  after = drop (length word) text;
  whole = is_prefix-eq word text h;
  from = refl;
  to = refl;
}

find_in-behind :
    (word : Text) (c : ℕ) (text : Text) (n : ℕ)
    → Option.map suc (find_in word text) ≡ some n
    → ((m : ℕ) → find_in word text ≡ some m → Occurs text word m (m + length word))
    → Occurs (c ∷ text) word n (n + length word)
find_in-behind word c text n h behind = elim (Option-cases (find_in word text)) [
  | inl missing ↦ let e : none ≡ some n = rw missing at h in cc
  | inr (m, found) ↦
      let e : some (suc m) ≡ some n = rw found at h in
      let step : suc (m + length word) ≡ suc m + length word = omega arith in
      of_some (λ k. Occurs (c ∷ text) word k (k + length word)) e
        (subst (λ b. Occurs (c ∷ text) word (suc m) b) step (Occurs-cons c (behind m found)))
]

pub find_in-Occurs :
    (word text : Text) (n : ℕ) → find_in word text ≡ some n → Occurs text word n (n + length word)
unfolding find_in
find_in-Occurs word [] n h = elim (Bool-cases (is_prefix word [])) [
  | inl starts ↦
      let e : some 0 ≡ some n = rw starts at h in
      of_some (λ k. Occurs [] word k (k + length word)) e (Occurs-here word [] starts)
  | inr other ↦ let e : none ≡ some n = rw other at h in cc
]
find_in-Occurs word (c ∷ text) n h = elim (Bool-cases (is_prefix word (c ∷ text))) [
  | inl starts ↦
      let e : some 0 ≡ some n = rw starts at h in
      of_some (λ k. Occurs (c ∷ text) word k (k + length word)) e
        (Occurs-here word (c ∷ text) starts)
  | inr other ↦ find_in-behind word c text n (rw other at h) (find_in-Occurs word text)
]

-- White space only.
abbrev pub Blank : Text → Type 0
Blank = All (λ c. is_space c ≡ true)

-- White space and then a word, for each word.
abbrev pub SpellsRest : List Text → Text → Type 0
SpellsRest [] text = text ≡ []
SpellsRest (word ∷ words) text =
    (c : ℕ) × (gap rest : Text) × (text ≡ (c ∷ gap) ++ (word ++ rest))
    × Blank (c ∷ gap)
    × SpellsRest words rest

-- The words with white space between them.
abbrev pub Spells : List Text → Text → Type 0
Spells [] text = text ≡ []
Spells (word ∷ words) text = (rest : Text) × (text ≡ word ++ rest) × SpellsRest words rest

Blank-spaces : (text : Text) → Blank (take (count_spaces text) text)
unfolding count_spaces
Blank-spaces [] = tt
Blank-spaces (c ∷ text) = elim (Bool-cases (is_space c)) [
  | inl space ↦ rw space (space, Blank-spaces text)
  | inr other ↦ rw other tt
]

count_spaces-le : (text : Text) → count_spaces text ≤ length text
unfolding count_spaces
count_spaces-le [] = omega arith
count_spaces-le (c ∷ text) = ground (arith, count_spaces-le text)

-- The white space that is counted, if there is some.
spaces_lem :
    (text : Text)
    → (count_spaces text == 0) ≡ false
    → (c : ℕ) × (gap : Text) × (text ≡ (c ∷ gap) ++ drop (count_spaces text) text)
      × Blank (c ∷ gap)
      × (count_spaces text ≡ suc (length gap))
unfolding count_spaces
spaces_lem [] h = absurd (ground arith)
spaces_lem (c ∷ text) h = elim (Bool-cases (is_space c)) [
  | inl space ↦ rw space (
    c,
    take (count_spaces text) text,
    ap (λ (t : Text). c ∷ t) (sym (take-append-drop (count_spaces text) text)),
    (space, Blank-spaces text),
    omega (arith, length-take (count_spaces text) text, count_spaces-le text),
  )
  | inr other ↦ absurd (ground arith)
]

match_rest-SpellsRest :
    (words : List Text) (text : Text) (n : ℕ)
    → match_rest words text ≡ some n
    → (part after : Text) × (text ≡ part ++ after) × (n ≡ length part) × SpellsRest words part
unfolding match_rest
match_rest-SpellsRest [] text n h = ([], text, refl, ground arith, refl)
match_rest-SpellsRest (word ∷ words) text n h = elim (Bool-cases (count_spaces text == 0)) [
  | inl none_there ↦ let e : none ≡ some n = rw none_there at h in cc
  | inr spaces ↦
      let behind = drop (count_spaces text) text in
      let h₁ = rw spaces at h in
      elim (Bool-cases (is_prefix word behind)) [
        | inl starts ↦ elim (Option-cases (match_rest words (drop (length word) behind))) [
          | inl missing ↦ let e : none ≡ some n = rw (starts, missing) at h₁ in cc
          | inr (m, found) ↦
              let e : some (count_spaces text + (length word + m)) ≡ some n =
                rw (starts, found) at h₁ in
              let (c, gap, split_text, blank, counted) = spaces_lem text spaces in
              let (part, after, whole, long, spelled) =
                match_rest-SpellsRest words (drop (length word) behind) m found in
              (
                (c ∷ gap) ++ (word ++ part),
                after,
                split_text
                    ∙ ap (λ (t : Text). (c ∷ gap) ++ t)
                        (is_prefix-eq word behind starts
                          ∙ ap (λ (t : Text). word ++ t) whole
                          ∙ sym (append_assoc word part after))
                    ∙ sym (append_assoc (c ∷ gap) (word ++ part) after),
                of_some (λ k. k ≡ length ((c ∷ gap) ++ (word ++ part))) e
                    (omega (
                      arith,
                      length-append {0} (c ∷ gap) (word ++ part),
                      length-append {0} word part,
                    )),
                (c, gap, part, refl, blank, spelled),
              )
        ]
        | inr other ↦ let e : none ≡ some n = rw other at h₁ in cc
      ]
]

pub match_words-Spells :
    (words : List Text) (text : Text) (n : ℕ)
    → match_words words text ≡ some n
    → (part after : Text) × (text ≡ part ++ after) × (n ≡ length part) × Spells words part
unfolding match_words
match_words-Spells [] text n h = ([], text, refl, ground arith, refl)
match_words-Spells (word ∷ words) text n h = elim (Bool-cases (is_prefix word text)) [
  | inl starts ↦ elim (Option-cases (match_rest words (drop (length word) text))) [
    | inl missing ↦ let e : none ≡ some n = rw (starts, missing) at h in cc
    | inr (m, found) ↦
        let e : some (length word + m) ≡ some n = rw (starts, found) at h in
        let (part, after, whole, long, spelled) =
          match_rest-SpellsRest words (drop (length word) text) m found in
        (
          word ++ part,
          after,
          is_prefix-eq word text starts
              ∙ ap (λ (t : Text). word ++ t) whole
              ∙ sym (append_assoc word part after),
          of_some (λ k. k ≡ length (word ++ part)) e (omega (arith, length-append {0} word part)),
          (part, refl, spelled),
        )
  ]
  | inr other ↦ let e : none ≡ some n = rw other at h in cc
]

-- A match that starts at the first place.
starts_here :
    (words : List Text) (text : Text) (n a b : ℕ)
    → match_words words text ≡ some n
    → ◌≡◌ {A = Option (ℕ × ℕ)} (some (0, n)) (some (a, b))
    → (part : Text) × Occurs text part a b × Spells words part
starts_here words text n a b found e =
    let (part, after, whole, long, spelled) = match_words-Spells words text n found in
    let at : a ≡ 0 = cc in
    let to : b ≡ n = cc in
    (
      part,
      record { before = []; after = after; whole = whole; from = omega arith; to = omega arith },
      spelled,
    )

pub search_words-Occurs :
    (words : List Text) (text : Text) (a b : ℕ)
    → search_words words text ≡ some (a, b)
    → (part : Text) × Occurs text part a b × Spells words part
unfolding search_words
search_words-Occurs words [] a b h = elim (Option-cases (match_words words [])) [
  | inl missing ↦ let e : ◌≡◌ {A = Option (ℕ × ℕ)} none (some (a, b)) = rw missing at h in cc
  | inr (n, found) ↦ starts_here words [] n a b found (rw found at h)
]
search_words-Occurs words (c ∷ text) a b h = elim (Option-cases (match_words words (c ∷ text))) [
  | inl missing ↦ elim (Option-cases (search_words words text)) [
    | inl nowhere ↦
        let e : ◌≡◌ {A = Option (ℕ × ℕ)} none (some (a, b)) = rw (missing, nowhere) at h in cc
    | inr ((a', b'), found) ↦
        let e : ◌≡◌ {A = Option (ℕ × ℕ)} (some (suc a', suc b')) (some (a, b)) =
          rw (missing, found) at h in
        let (part, o, spelled) = search_words-Occurs words text a' b' found in
        of_some (λ (m : ℕ × ℕ). (p : Text) × Occurs (c ∷ text) p (m.0) (m.1) × Spells words p) e
          (part, Occurs-cons c o, spelled)
  ]
  | inr (n, found) ↦ starts_here words (c ∷ text) n a b found (rw found at h)
]

-- ===== src/Text/Search.antt =====
-- Python's `str.find` and the search for words joined by white space.
use vvz_doc_store.Prelude.{
  ℕ, suc, ◌+◌, Bool, true, false, ◌&&◌, Option, none, some, List, [], ◌∷◌, ◌==◌, length, drop,
  if◌then◌else◌,
}
use vvz_doc_store.Text.Defs.{Text}
use vvz_doc_store.Text.Words.{is_space}
use mathlib.Core.Option as Option

-- `text.startswith(word)`
abbrev pub is_prefix : Text → Text → Bool
is_prefix [] text = true
is_prefix (c ∷ word) [] = false
is_prefix (c ∷ word) (d ∷ text) = c == d && is_prefix word text

-- The first place of a word in a text.
unfoldable pub find_in : Text → Text → Option ℕ
find_in word [] = if is_prefix word [] then some 0 else none
find_in word (c ∷ text) =
    if is_prefix word (c ∷ text) then some 0 else Option.map suc (find_in word text)

-- `text.find(word, from)`, with `none` for -1.
unfoldable pub find : Text → Text → ℕ → Option ℕ
unfolding find_in
find text word from = Option.map (λ n. from + n) (find_in word (drop from text))

-- How far white space goes on.
unfoldable pub count_spaces : Text → ℕ
unfolding is_space
count_spaces [] = 0
count_spaces (c ∷ text) = if is_space c then suc (count_spaces text) else 0

-- `\s+` before each of the words: the length of the match. A word has no white space, so `\s+` takes all that
-- there is.
unfoldable pub match_rest : List Text → Text → Option ℕ
unfolding count_spaces
match_rest [] text = some 0
match_rest (word ∷ words) text =
    let spaces = count_spaces text in
    let behind = drop spaces text in
    let rest = match_rest words (drop (length word) behind) in
    if spaces == 0
    then none
    else if is_prefix word behind
    then Option.map (λ n. spaces + (length word + n)) rest
    else none

-- `re.match` of the words joined by `\s+`.
unfoldable pub match_words : List Text → Text → Option ℕ
unfolding match_rest
match_words [] text = some 0
match_words (word ∷ words) text =
    if is_prefix word text
    then Option.map (λ n. length word + n) (match_rest words (drop (length word) text))
    else none

abbrev pub or_behind : Option ℕ → Option (ℕ × ℕ) → Option (ℕ × ℕ)
or_behind (some n) behind = some (0, n)
or_behind none none = none
or_behind none (some (a, b)) = some (suc a, suc b)

-- `re.search` of the words joined by `\s+`: where the first match starts and ends.
unfoldable pub search_words : List Text → Text → Option (ℕ × ℕ)
unfolding match_words
search_words words [] = or_behind (match_words words []) none
search_words words (c ∷ text) = or_behind (match_words words (c ∷ text)) (search_words words text)

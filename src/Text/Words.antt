-- ===== src/Text/Words.antt =====
-- Python's white space: `split` and `strip`.
use vvz_doc_store.Prelude.{
  ℕ, Bool, true, false, ◌&&◌, ◌||◌, List, [], ◌∷◌, ◌++◌, ◌==◌, leb, if◌then◌else◌,
}
use vvz_doc_store.Text.Defs.{Text}

-- `str.isspace` of one code point.
unfoldable pub is_space : ℕ → Bool
is_space c =
    leb 9 c && leb c 13
    || leb 28 c && leb c 32
    || c == 133
    || c == 160
    || c == 5760
    || leb 8192 c && leb c 8202
    || c == 8232
    || c == 8233
    || c == 8239
    || c == 8287
    || c == 12288

-- The words before a text: what stands on the first word goes on while no white space is met.
abbrev pub close_word : Text → List Text → List Text
close_word [] words = words
close_word (c ∷ word) words = (c ∷ word) ∷ words

-- `text.split()`: `word` is the word that is being read, in order.
unfoldable pub split_from : Text → Text → List Text
unfolding is_space
split_from word [] = close_word word []
split_from word (c ∷ text) =
    let inside = split_from (word ++ c ∷ []) text in
    let outside = split_from [] text in if is_space c then close_word word outside else inside

unfoldable pub split : Text → List Text
unfolding split_from
split = split_from []

abbrev pub is_empty : Text → Bool
is_empty [] = true
is_empty (c ∷ text) = false

-- `text.lstrip()`
unfoldable pub strip_left : Text → Text
unfolding is_space
strip_left [] = []
strip_left (c ∷ text) = if is_space c then strip_left text else c ∷ text

-- `text.rstrip()`
unfoldable pub strip_right : Text → Text
unfolding is_space
strip_right [] = []
strip_right (c ∷ text) =
    let rest = strip_right text in if is_space c && is_empty rest then [] else c ∷ rest

-- `text.strip()`
unfoldable pub strip : Text → Text
unfolding strip_left strip_right
strip text = strip_right (strip_left text)

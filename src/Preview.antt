-- ===== src/Preview.antt =====
-- runtime/previews.py: a text with its white space collapsed, cut at a limit.
use vvz_doc_store.Prelude.{
  ℕ, zero, suc, ◌≤◌, Option, none, some, List, [], ◌∷◌, ◌++◌, arith, take, length, length-take, ℤ,
  pos_part,
}
use vvz_doc_store.Text.{Text}
use vvz_doc_store.Text.Words.{split}

unfoldable pub join : Text → List Text → Text
join separator [] = []
join separator (word ∷ []) = word
join separator (word ∷ next ∷ words) = word ++ (separator ++ join separator (next ∷ words))

-- `max(0, int(limit))`
abbrev non_negative : ℤ → ℕ
non_negative = pos_part

-- The variable's value, if it is set, and the number that `int` reads from it, if it reads one.
unfoldable pub preview_chars : Option (Option ℤ) → ℕ
preview_chars none = 220
preview_chars (some none) = 220
preview_chars (some (some limit)) = non_negative limit

unfoldable pub chunk_preview : ℕ → Text → Text
unfolding split join
chunk_preview zero value = []
chunk_preview (suc limit) value = take (suc limit) (join (32 ∷ []) (split value))

pub length-chunk_preview : (limit : ℕ) (value : Text) → length (chunk_preview limit value) ≤ limit
unfolding chunk_preview
length-chunk_preview zero value = omega arith
length-chunk_preview (suc limit) value =
    omega (arith, length-take (suc limit) (join (32 ∷ []) (split value)))

-- ===== src/Text/Defs.antt =====
-- Python's `str` as the list of its code points, its equality and its slices.
use vvz_doc_store.Prelude.{
  ℕ, suc, ◌-◌, ◌≡◌, refl, Bool, true, false, ◌&&◌, List, [], ◌∷◌, arith, ◌==◌, length, take, drop,
  ℤ, pos, negsuc, Option, none, some,
}

abbrev pub Text : Type 0
Text = List ℕ

abbrev pub text_eq : Text → Text → Bool
text_eq [] [] = true
text_eq [] (y ∷ ys) = false
text_eq (x ∷ xs) [] = false
text_eq (x ∷ xs) (y ∷ ys) = x == y && text_eq xs ys

pub text_eq_refl : (t : Text) → text_eq t t ≡ true
text_eq_refl [] = refl
text_eq_refl (x ∷ xs) = ground (arith, text_eq_refl xs)

pub text_eq_sound : (s t : Text) → text_eq s t ≡ true → s ≡ t
text_eq_sound [] [] h = refl
text_eq_sound [] (y ∷ ys) h = cc
text_eq_sound (x ∷ xs) [] h = cc
text_eq_sound (x ∷ xs) (y ∷ ys) h = ground (arith, text_eq_sound xs ys)

-- A slice's bound: a negative one counts from the end, and stops at 0.
abbrev pub bound : Text → ℤ → ℕ
bound t (pos n) = n
bound t (negsuc n) = length t - suc n

-- `t[a:b]` at bounds that are not negative.
unfoldable pub cut : Text → ℕ → ℕ → Text
cut t a b = take (b - a) (drop a t)

-- `t[a:b]`
unfoldable pub slice : Text → ℤ → ℤ → Text
unfolding cut
slice t a b = cut t (bound t a) (bound t b)

-- `value if value is not None else default`
abbrev pub or_default : Option Text → Text → Text
or_default none default = default
or_default (some value) default = value

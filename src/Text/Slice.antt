-- ===== src/Text/Slice.antt =====
-- How slices of one text join.
use vvz_doc_store.Prelude.{
  sym, ℕ, zero, suc, ◌+◌, ◌-◌, ◌≤◌, ◌≡◌, refl, ap, ◌∙◌, List, [], ◌∷◌, ◌++◌, arith, length, take,
  drop, take_all, take-append_le, length-take, length-drop, drop-drop, drop-append, pos,
}
use vvz_doc_store.Text.Defs.{Text, cut, slice}

pub slice-pos : (t : Text) (a b : ℕ) → slice t (pos a) (pos b) ≡ cut t a b
unfolding slice
slice-pos t a b = refl

take-add : {A : Type 0} (i j : ℕ) (xs : List A) → take i xs ++ take j (drop i xs) ≡ take (i + j) xs
take-add zero j xs = let e : 0 + j ≡ j = omega arith in rw e
take-add (suc i) zero [] = let e : suc i + 0 ≡ suc i = omega arith in rw e
take-add (suc i) (suc j) [] = let e : suc i + suc j ≡ suc (i + suc j) = omega arith in rw e
take-add (suc i) j (x ∷ xs) =
    let e : suc i + j ≡ suc (i + j) = omega arith in rw e (ap (λ ys. x ∷ ys) (take-add i j xs))

-- Two slices that meet are the slice over both.
pub cut-append : (t : Text) (a b c : ℕ) → a ≤ b → b ≤ c → cut t a b ++ cut t b c ≡ cut t a c
unfolding cut
cut-append t a b c h k =
    let e : a + (b - a) ≡ b = omega arith in
    let f : b - a + (c - b) ≡ c - a = omega arith in
    let d : drop b t ≡ drop (b - a) (drop a t) =
      sym (drop-drop (b - a) a t ∙ ap (λ n. drop n t) e) in
    ap (λ u. take (b - a) (drop a t) ++ take (c - b) u) d
    ∙ take-add (b - a) (c - b) (drop a t)
    ∙ ap (λ n. take n (drop a t)) f

pub length-cut : (t : Text) (a b : ℕ) → b ≤ length t → length (cut t a b) ≡ b - a
unfolding cut
length-cut t a b h = omega (arith, length-take (b - a) (drop a t), length-drop a t)

-- The slice over everything.
pub cut_whole : (t : Text) → cut t 0 (length t) ≡ t
unfolding cut
cut_whole t = take_all (length t - 0) t (omega arith)

-- A slice of a longer text finds what was joined there.
pub cut-middle : (xs ys zs : Text) → cut (xs ++ (ys ++ zs)) (length xs) (length xs + length ys) ≡ ys
unfolding cut
cut-middle xs ys zs =
    let e : length xs + length ys - length xs ≡ length ys = omega arith in
    rw (e, drop-append xs (ys ++ zs))
      (take-append_le (length ys) ys zs (omega arith) ∙ take_all (length ys) ys (omega arith))

pub cut_empty : (t : Text) (a : ℕ) → cut t a a ≡ []
unfolding cut
cut_empty t a = let e : a - a ≡ 0 = omega arith in rw e

-- ===== src/Prelude/Pairs.antt =====
-- Relations that hold between every element of a list and those behind it.
use mathlib.Core.List.{List, [], ◌∷◌, ◌++◌}
use vvz_doc_store.Prelude.Lists.{All}

module _ {ℓ κ ι} {A : Type ℓ} {P : A → Type κ} {Q : A → Type ι} where
  pub All-map : (xs : List A) → ((x : A) → P x → Q x) → All P xs → All Q xs
  All-map [] f a = tt
  All-map (x ∷ xs) f a = (f x a.0, All-map xs f a.1)

pub All-snoc {ℓ κ} :
    {A : Type ℓ} (P : A → Type κ) (xs : List A) (y : A) → All P xs → P y → All P (xs ++ y ∷ [])
All-snoc P [] y a p = (p, tt)
All-snoc P (x ∷ xs) y a p = (a.0, All-snoc P xs y a.1 p)

abbrev pub Pairwise {ℓ κ} : {A : Type ℓ} → (A → A → Type κ) → List A → Type κ
Pairwise R [] = Unit
Pairwise R (x ∷ xs) = All (R x) xs × Pairwise R xs

pub Pairwise-snoc {ℓ κ} :
    {A : Type ℓ} (R : A → A → Type κ) (xs : List A) (y : A)
    → Pairwise R xs
    → All (λ x. R x y) xs
    → Pairwise R (xs ++ y ∷ [])
Pairwise-snoc R [] y p a = (tt, tt)
Pairwise-snoc R (x ∷ xs) y p a = (All-snoc (R x) xs y p.0 a.0, Pairwise-snoc R xs y p.1 a.1)

module _ {ℓ κ ι} {A : Type ℓ} {R : A → A → Type κ} {S : A → A → Type ι} where
  pub Pairwise-map : (xs : List A) → ((x y : A) → R x y → S x y) → Pairwise R xs → Pairwise S xs
  Pairwise-map [] f p = tt
  Pairwise-map (x ∷ xs) f p = (All-map xs (f x) p.0, Pairwise-map xs f p.1)

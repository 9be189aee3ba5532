-- ===== src/Versions/Numbers.antt =====
-- Versions found by number and by identifier, in a table whose numbers grow and whose identifiers differ.
use vvz_doc_store.Prelude.{
  ℕ, ◌<◌, ◌≡◌, ◌≢◌, refl, ap, sym, ◌∙◌, inl, inr, false, Bool-cases, some, List, [], ◌∷◌, arith,
  ◌==◌, ==_iff, ==_refl, if_cases, if◌then◌else◌, All, All-map, of_some, subst,
}
use vvz_doc_store.Versions.{Version, version_by_no, version_by_id}
use vvz_doc_store.Versions.Operations.{remove_version}
use vvz_doc_store.Versions.Coherent.{OnlyCurrent, Ordered}

pub All-version_by_no :
    (P : Version → Type 0) (n : ℕ) (vs : List Version) (row : Version)
    → version_by_no n vs ≡ some row
    → All P vs
    → P row
unfolding version_by_no
All-version_by_no P n [] row h a = cc
All-version_by_no P n (v ∷ vs) row h a = elim (Bool-cases (v.version_no == n)) [
  | inl it ↦ of_some P (rw it at h) a.0
  | inr other ↦ All-version_by_no P n vs row (rw other at h) a.1
]

pub not-== : (a b : ℕ) → a ≢ b → (a == b) ≡ false
not-== a b h = ground arith

pub version_by_id-of_no :
    (n : ℕ) (vs : List Version) (row : Version)
    → Ordered vs
    → version_by_no n vs ≡ some row
    → version_by_id row.id vs ≡ some row
unfolding version_by_id version_by_no
version_by_id-of_no n [] row o h = cc
version_by_id-of_no n (v ∷ vs) row o h = elim (Bool-cases (v.version_no == n)) [
  | inl it ↦
      of_some (λ w. version_by_id w.id (v ∷ vs) ≡ some w) (rw it at h) (rw (==_refl v.id) refl)
  | inr other ↦
      let h' : version_by_no n vs ≡ some row = rw other at h in
      rw
        (not-== v.id row.id
          (All-version_by_no (λ w. (v.id ≢ w.id) × (v.version_no < w.version_no)) n vs row h'
            o.0).0)
        (version_by_id-of_no n vs row o.1 h')
]

version_no-version_by_no :
    (n : ℕ) (vs : List Version) (row : Version) → version_by_no n vs ≡ some row → row.version_no ≡ n
unfolding version_by_no
version_no-version_by_no n [] row h = cc
version_no-version_by_no n (v ∷ vs) row h = elim (Bool-cases (v.version_no == n)) [
  | inl it ↦ of_some (λ w. w.version_no ≡ n) (rw it at h) ((==_iff v.version_no n).0 it)
  | inr other ↦ version_no-version_by_no n vs row (rw other at h)
]

-- Different numbers are of different versions.
pub version_by_no-apart :
    (m n : ℕ) (vs : List Version) (v w : Version)
    → Ordered vs
    → version_by_no m vs ≡ some v
    → version_by_no n vs ≡ some w
    → (m == w.version_no) ≡ false
    → v.id ≢ w.id
version_by_no-apart m n vs v w o hv hw ne same =
    let found : version_by_id v.id vs ≡ some v = version_by_id-of_no m vs v o hv in
    let found' : version_by_id v.id vs ≡ some w =
      ap (λ id. version_by_id id vs) same ∙ version_by_id-of_no n vs w o hw in
    let number : v.version_no ≡ m = version_no-version_by_no m vs v hv in
    let same_number : v.version_no ≡ w.version_no =
      of_some (λ u. v.version_no ≡ u.version_no) (sym found ∙ found') refl in
    ground arith

remove_version-All :
    (P : Version → Type 0) (n : ℕ) (vs : List Version) → All P vs → All P (remove_version n vs)
unfolding remove_version
remove_version-All P n [] a = tt
remove_version-All P n (v ∷ vs) a =
    if_cases (All P) (v.version_no == n) (λ _. remove_version-All P n vs a.1)
      (λ _. (a.0, remove_version-All P n vs a.1))

-- Without the current version, no version is marked as current.
pub remove_version-unmarked :
    (n : ℕ) (vs : List Version) (row : Version)
    → Ordered vs
    → version_by_no n vs ≡ some row
    → OnlyCurrent row.id vs
    → All (λ v. v.is_current ≡ false) (remove_version n vs)
unfolding remove_version version_by_no
remove_version-unmarked n [] row o h a = tt
remove_version-unmarked n (v ∷ vs) row o h a =
    if_cases (All (λ v. v.is_current ≡ false)) (v.version_no == n)
      (λ it.
        of_some
          (λ u. OnlyCurrent u.id (v ∷ vs) → All (λ w. w.is_current ≡ false) (remove_version n vs))
          (rw it at h)
          (λ marks.
            remove_version-All (λ w. w.is_current ≡ false) n vs
              (Unmarked vs v.id v.version_no o.0 marks.1))
          a)
      (λ other.
        let h' : version_by_no n vs ≡ some row = rw other at h in
        let apart =
          (All-version_by_no (λ w. (v.id ≢ w.id) × (v.version_no < w.version_no)) n vs row h'
            o.0).0 in
        (a.0 ∙ not-== v.id row.id apart, remove_version-unmarked n vs row o.1 h' a.1))
  where
    Unmarked :
        (vs : List Version) (id m : ℕ)
        → All (λ w. (id ≢ w.id) × (m < w.version_no)) vs
        → OnlyCurrent id vs
        → All (λ w. w.is_current ≡ false) vs
    Unmarked [] id m o marks = tt
    Unmarked (w ∷ vs) id m o marks =
        (marks.0 ∙ not-== w.id id (λ e. o.0.0 (sym e)), Unmarked vs id m o.1 marks.1)

remove_version-none :
    (n : ℕ) (vs : List Version) → All (λ w. n < w.version_no) vs → remove_version n vs ≡ vs
unfolding remove_version
remove_version-none n [] a = refl
remove_version-none n (v ∷ vs) a =
    let greater : n < v.version_no = a.0 in
    let differs : (v.version_no == n) ≡ false = ground arith in
    rw differs (ap (λ ws. v ∷ ws) (remove_version-none n vs a.1))

-- A version that is removed by its number leaves the others to be found.
pub version_by_id-remove_version :
    (n id : ℕ) (vs : List Version) (row : Version)
    → Ordered vs
    → version_by_no n vs ≡ some row
    → row.id ≢ id
    → version_by_id id (remove_version n vs) ≡ version_by_id id vs
unfolding remove_version version_by_no version_by_id
version_by_id-remove_version n id [] row o h ne = refl
version_by_id-remove_version n id (v ∷ vs) row o h ne =
    if_cases (λ ws. version_by_id id ws ≡ version_by_id id (v ∷ vs)) (v.version_no == n)
      (λ it.
        let number = (==_iff v.version_no n).0 it in
        let same : v.id ≢ id = of_some (λ u. u.id ≢ id → v.id ≢ id) (rw it at h) (λ e. e) ne in
        rw (not-== v.id id same) (
          ap (version_by_id id) (
            remove_version-none n vs
              (All-map vs (λ w p. subst (λ m. m < w.version_no) number p.1) o.0))))
      (λ other.
        ap (λ found. if v.id == id then some v else found)
          (version_by_id-remove_version n id vs row o.1 (rw other at h) ne))

pub remove_version-OnlyCurrent :
    (n id : ℕ) (vs : List Version) → OnlyCurrent id vs → OnlyCurrent id (remove_version n vs)
remove_version-OnlyCurrent n id vs = remove_version-All (λ v. v.is_current ≡ (v.id == id)) n vs

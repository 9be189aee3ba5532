-- ===== src/Versions/Losing.antt =====
-- Versions that are retired or deleted.
use vvz_doc_store.Prelude.{
  ℕ, ◌≡◌, ◌≢◌, refl, ap, sym, ◌∙◌, inl, inr, String, false, Bool-cases, Option, none, some, List,
  [], ◌∷◌, arith, ◌==◌, ==_iff, ==_refl, length, if◌then◌else◌, if_cases, All, ok, >>=-eq-ok,
  >>-eq-ok, raise_if-eq-ok, of_some, of_ok,
}
use vvz_doc_store.Versions.{Version, Chunk, Call, version_by_no, version_by_id, activate}
use vvz_doc_store.Versions.Operations.{
  unlink, release, require_version, retire_row, replace_current, retire_version, active_count,
  remove_version, cascade, activate_replacement, delete_version,
}
use vvz_doc_store.Versions.Coherent.{OnlyCurrent, IsCoherent, Ordered, activate-IsCoherent}
use vvz_doc_store.Versions.Numbers.{
  All-version_by_no, not-==, version_by_id-of_no, version_by_no-apart, remove_version-unmarked,
  version_by_id-remove_version, remove_version-OnlyCurrent,
}
use vvz_doc_store.Versions.Keeping.{require_version-ok}

retire_row-OnlyCurrent :
    (call : Call) (id current : ℕ) (vs : List Version)
    → current ≢ id
    → OnlyCurrent current vs
    → OnlyCurrent current (retire_row call id vs)
unfolding retire_row
retire_row-OnlyCurrent call id current [] ne a = tt
retire_row-OnlyCurrent call id current (v ∷ vs) ne a =
    if_cases (OnlyCurrent current) (v.id == id)
      (λ it. (ground arith, retire_row-OnlyCurrent call id current vs ne a.1))
      (λ other. (a.0, retire_row-OnlyCurrent call id current vs ne a.1))

version_by_id-retire_row :
    (call : Call) (id current : ℕ) (vs : List Version)
    → current ≢ id
    → version_by_id current (retire_row call id vs) ≡ version_by_id current vs
unfolding retire_row version_by_id
version_by_id-retire_row call id current [] ne = refl
version_by_id-retire_row call id current (v ∷ vs) ne =
    let rest = version_by_id-retire_row call id current vs ne in
    if_cases (λ ws. version_by_id current ws ≡ version_by_id current (v ∷ vs)) (v.id == id)
      (λ it. rw (not-== v.id current (λ e. ne (sym e ∙ (==_iff v.id id).0 it))) rest)
      (λ other. ap (λ found. if v.id == current then some v else found) rest)

-- A row that is not the current one is retired without harm.
retire_row-IsCoherent :
    (call : Call) (id : ℕ) (c : Chunk) (k : IsCoherent c)
    → k.id ≢ id
    → IsCoherent (record c { versions = retire_row call id c.versions })
retire_row-IsCoherent call id c k ne = record {
  id = k.id;
  row = k.row;
  named = k.named;
  only = retire_row-OnlyCurrent call id k.id c.versions ne k.only;
  projects = record {
    there = version_by_id-retire_row call id k.id c.versions ne ∙ k.projects.there;
    is_active = k.projects.is_active;
    text = k.projects.text;
    digest = k.projects.digest;
    counted = k.projects.counted;
    chunk_counted = k.projects.chunk_counted;
  };
}

-- No row names this version as its previous one or as the one that it was restored from.
abbrev pub Forgotten : ℕ → List Version → Type 0
Forgotten id = All (λ v. (v.previous ≢ some id) × (v.restored_from ≢ some id))

cascade-ne : (id : ℕ) (named : Option ℕ) → cascade id named ≢ some id
unfolding cascade
cascade-ne id none h = cc
cascade-ne id (some other) h = ground arith

release-Forgotten : (id : ℕ) (vs : List Version) → Forgotten id (release id vs)
unfolding release unlink
release-Forgotten id [] = tt
release-Forgotten id (v ∷ vs) =
    ((cascade-ne id v.previous, cascade-ne id v.restored_from), release-Forgotten id vs)

release-OnlyCurrent :
    (id current : ℕ) (vs : List Version)
    → OnlyCurrent current vs
    → OnlyCurrent current (release id vs)
unfolding release unlink
release-OnlyCurrent id current [] a = tt
release-OnlyCurrent id current (v ∷ vs) a = (a.0, release-OnlyCurrent id current vs a.1)

release-unmarked :
    (id : ℕ) (vs : List Version)
    → All (λ v. v.is_current ≡ false) vs
    → All (λ v. v.is_current ≡ false) (release id vs)
unfolding release unlink
release-unmarked id [] a = tt
release-unmarked id (v ∷ vs) a = (a.0, release-unmarked id vs a.1)

version_by_id-release :
    (id current : ℕ) (vs : List Version) (row : Version)
    → version_by_id current vs ≡ some row
    → version_by_id current (release id vs) ≡ some (unlink id row)
unfolding release unlink version_by_id
version_by_id-release id current [] row h = cc
version_by_id-release id current (v ∷ vs) row h = elim (Bool-cases (v.id == current)) [
  | inl it ↦ rw it (of_some (λ w. some (unlink id v) ≡ some (unlink id w)) (rw it at h) refl)
  | inr other ↦ rw other (version_by_id-release id current vs row (rw other at h))
]

-- Where identifiers differ and numbers grow, one version is marked as current, which is also the one that
-- `semantic_chunk_current` names, and there is not just one version: deleting the current version under its
-- positive number succeeds, and leaves no version named or marked as current, and the projection as it was; its
-- row is gone, and no other row names it.
pub delete_version-loses :
    (call : Call) (n : ℕ) (c : Chunk) (row : Version)
    → Ordered c.versions
    → (n == 0) ≡ false
    → version_by_no n c.versions ≡ some row
    → c.current ≡ some row.id
    → OnlyCurrent row.id c.versions
    → (length c.versions == 1) ≡ false
    → (c' : Chunk) × (delete_version call n c ≡ ok c')
      × (c'.current ≡ none)
      × (c'.projection ≡ c.projection)
      × (c'.versions ≡ release row.id (remove_version n c.versions))
      × Forgotten row.id c'.versions
      × All (λ v. v.is_current ≡ false) c'.versions
unfolding delete_version require_version activate_replacement cascade
delete_version-loses call n c row o positive found named only several = (
  record c {
    versions = release row.id (remove_version n c.versions);
    current = none;
    assigned_version = cascade row.id c.assigned_version;
  },
  rw (positive, require_version, found, several, named, ==_refl row.id) refl,
  refl,
  refl,
  refl,
  release-Forgotten row.id (remove_version n c.versions),
  release-unmarked row.id (remove_version n c.versions)
      (remove_version-unmarked n c.versions row o found only),
)

-- A coherent chunk that names another version than this one.
abbrev Replaced : ℕ → Chunk → Type 0
Replaced id c = IsCoherent c × (c.current ≢ some id)

some-injective : (m n : ℕ) → some m ≡ some n → m ≡ n
some-injective m n h = of_some (λ k. m ≡ k) h refl

activate-Replaced :
    (call : Call) (other : Version) (operation : Option String) (id : ℕ) (c : Chunk)
    → version_by_id other.id c.versions ≡ some other
    → other.id ≢ id
    → Replaced id (activate call other operation c)
unfolding activate
activate-Replaced call other operation id c found ne =
    (activate-IsCoherent call other operation c found, λ same. ne (some-injective other.id id same))

unmarked-Replaced :
    (n : ℕ) (row : Version) (c : Chunk)
    → IsCoherent c
    → version_by_no n c.versions ≡ some row
    → row.is_current ≡ false
    → Replaced row.id c
unmarked-Replaced n row c k found other =
    let mark =
      All-version_by_no (λ v. v.is_current ≡ (v.id == k.id)) n c.versions row found k.only in
    let ne : (row.id == k.id) ≡ false = sym mark ∙ other in
    (k, λ same. let e = some-injective k.id row.id (sym k.named ∙ same) in ground arith)

replace_current-Replaced :
    (call : Call) (n : ℕ) (row : Version) (replacement : Option ℕ) (c c' : Chunk)
    → Ordered c.versions
    → IsCoherent c
    → version_by_no n c.versions ≡ some row
    → replace_current call row replacement c ≡ ok c'
    → Replaced row.id c'
unfolding replace_current
replace_current-Replaced call n row none c c' o k found h = elim (Bool-cases row.is_current) [
  | inl it ↦ let no = rw it at h in cc
  | inr other ↦ of_ok (Replaced row.id) (rw other at h) (unmarked-Replaced n row c k found other)
]
replace_current-Replaced call n row (some m) c c' o k found h = elim (Bool-cases row.is_current) [
  | inr other ↦ of_ok (Replaced row.id) (rw other at h) (unmarked-Replaced n row c k found other)
  | inl it ↦
      let (next, e, h₁) = >>=-eq-ok (require_version false m c) _ (rw it at h) in
      let (ne, h₂) = raise_if-eq-ok (m == row.version_no) _ _ h₁ in
      let found' = require_version-ok false m c next e in
      of_ok (Replaced row.id) h₂ (
        activate-Replaced call next (some "retire") row.id c
          (version_by_id-of_no m c.versions next o found')
          (version_by_no-apart m n c.versions next row o found' found ne))
]

-- Where identifiers differ and numbers grow, a version of a coherent chunk that is retired is found under its
-- number, and the chunk is coherent afterwards, with another version current.
pub retire_version-Replaced :
    (call : Call) (n : ℕ) (replacement : Option ℕ) (c c' : Chunk)
    → Ordered c.versions
    → IsCoherent c
    → retire_version call n replacement c ≡ ok c'
    → (row : Version) × (version_by_no n c.versions ≡ some row)
      × IsCoherent c'
      × (c'.current ≢ some row.id)
unfolding retire_version
retire_version-Replaced call n replacement c c' o k h =
    let (_, h₁) = raise_if-eq-ok (n == 0) _ _ h in
    let (_, h₂) = >>-eq-ok _ _ h₁ in
    let (row, e, h₃) = >>=-eq-ok (require_version false n c) _ h₂ in
    let (_, h₄) = raise_if-eq-ok (active_count c.versions == 1) _ _ h₃ in
    let (d, e', h₅) = >>=-eq-ok (replace_current call row replacement c) _ h₄ in
    let found = require_version-ok false n c row e in
    let (k', ne) = replace_current-Replaced call n row replacement c d o k found e' in
    let apart : k'.id ≢ row.id = λ same. ne (k'.named ∙ ap some same) in
    of_ok
      (λ c'.
        (row : Version) × (version_by_no n c.versions ≡ some row)
        × IsCoherent c'
        × (c'.current ≢ some row.id))
      h₅ (row, found, retire_row-IsCoherent call row.id d k' apart, ne)

-- Where identifiers differ and numbers grow, deleting a version of a coherent chunk that is not the current
-- one, if it succeeds, leaves the chunk coherent, with the same current version and projection, and no row that
-- names the deleted version.
pub delete_version-IsCoherent :
    (call : Call) (n : ℕ) (c c' : Chunk) (row : Version)
    → Ordered c.versions
    → IsCoherent c
    → version_by_no n c.versions ≡ some row
    → c.current ≢ some row.id
    → delete_version call n c ≡ ok c'
    → IsCoherent c'
      × (c'.current ≡ c.current)
      × (c'.projection ≡ c.projection)
      × Forgotten row.id c'.versions
unfolding delete_version require_version activate_replacement cascade unlink
delete_version-IsCoherent call n c c' row o k found other h =
    let (_, h₁) = raise_if-eq-ok (n == 0) _ _ h in
    let (_, h₂) = raise_if-eq-ok (length c.versions == 1) _ _ (rw (require_version, found) at h₁) in
    let ne : k.id ≢ row.id = λ same. other (k.named ∙ ap some same) in
    let apart = not-== k.id row.id ne in
    of_ok
      (λ d.
        IsCoherent d
        × (d.current ≡ c.current)
        × (d.projection ≡ c.projection)
        × Forgotten row.id d.versions)
      (rw (k.named, apart, apart) at h₂)
      (
        record {
          id = k.id;
          row = unlink row.id k.row;
          named = refl;
          only =
              release-OnlyCurrent row.id k.id (remove_version n c.versions)
                (remove_version-OnlyCurrent n k.id c.versions k.only);
          projects = record {
            there = version_by_id-release row.id k.id (remove_version n c.versions) k.row (
                version_by_id-remove_version n k.id c.versions row o found (λ e. ne (sym e))
                ∙ k.projects.there);
            is_active = k.projects.is_active;
            text = k.projects.text;
            digest = k.projects.digest;
            counted = k.projects.counted;
            chunk_counted = k.projects.chunk_counted;
          };
        },
        sym k.named,
        refl,
        release-Forgotten row.id (remove_version n c.versions),
      )

-- ===== src/Versions/Coherent.antt =====
-- A chunk of which one version is current, and its text is the projection's.
use vvz_doc_store.Prelude.{
  ℕ, ◌<◌, ◌≡◌, ◌≢◌, refl, ap, sym, ◌∙◌, inl, inr, String, Bool, true, false, not, ◌&&◌, Bool-cases,
  Option, some, List, [], ◌∷◌, arith, ◌==◌, length, if_cases, All, Pairwise, of_some,
}
use vvz_doc_store.Versions.{
  active, Version, Chunk, Call, version_by_id, retire_other, make_current, activate_rows, activate,
}

-- Exactly the version with this identifier is marked as current.
abbrev pub OnlyCurrent : ℕ → List Version → Type 0
OnlyCurrent id = All (λ v. v.is_current ≡ (v.id == id))

-- The current version is in the table, active, and projected.
pub record Projects (c : Chunk) (id : ℕ) (v : Version) : Type 0 where
  pub there : version_by_id id c.versions ≡ some v
  pub is_active : v.status ≡ active
  pub text : c.projection.text ≡ v.text
  pub digest : c.projection.digest ≡ v.digest
  pub counted : c.projection.char_count ≡ length v.text
  pub chunk_counted : c.char_count ≡ length v.text

pub record IsCoherent (c : Chunk) : Type 0 where
  pub id : ℕ
  pub row : Version
  pub named : c.current ≡ some id
  pub only : OnlyCurrent id c.versions
  pub projects : Projects c id row

-- No two versions have the same identifier or the same number, and the numbers grow.
abbrev pub Ordered : List Version → Type 0
Ordered = Pairwise (λ v w. (v.id ≢ w.id) × (v.version_no < w.version_no))

activate_row : Call → ℕ → Option String → Version → Version
activate_row call id operation v = make_current call id operation (retire_other call.now id v)

-- What an activation keeps of every row, and what it makes of its marks.
pub record Activated (id : ℕ) (v v' : Version) : Type 0 where
  pub same_id : v'.id ≡ v.id
  pub same_no : v'.version_no ≡ v.version_no
  pub same_text : v'.text ≡ v.text
  pub same_restored : v'.restored_from ≡ v.restored_from
  pub same_digest : v'.digest ≡ v.digest
  pub mark : v'.is_current ≡ (v.id == id)
  pub becomes_active : (v.id == id) ≡ true → v'.status ≡ active

-- What the first update keeps, and that it leaves no other row current.
record Retired (id : ℕ) (v v' : Version) : Type 0 where
  same_id : v'.id ≡ v.id
  same_no : v'.version_no ≡ v.version_no
  same_text : v'.text ≡ v.text
  same_restored : v'.restored_from ≡ v.restored_from
  same_digest : v'.digest ≡ v.digest
  unmarked : (v.id == id) ≡ false → v'.is_current ≡ false

retire_other_lem : (now id : ℕ) (v : Version) → Retired id v (retire_other now id v)
unfolding retire_other
retire_other_lem now id v =
    if_cases {A = Version} (Retired id v) (v.is_current && not (v.id == id))
      (λ _. record {
        same_id = refl;
        same_no = refl;
        same_text = refl;
        same_restored = refl;
        same_digest = refl;
        unmarked = λ _. refl;
      })
      (λ no. record {
        same_id = refl;
        same_no = refl;
        same_text = refl;
        same_restored = refl;
        same_digest = refl;
        unmarked = λ other. ground arith;
      })

activate_row-Activated :
    (call : Call) (id : ℕ) (operation : Option String) (v : Version)
    → Activated id v (activate_row call id operation v)
unfolding activate_row make_current
activate_row-Activated call id operation v =
    let w = retire_other call.now id v in
    let f = retire_other_lem call.now id v in
    let same : (w.id == id) ≡ (v.id == id) = ap (λ n. n == id) f.same_id in
    if_cases {A = Version} (Activated id v) (w.id == id)
      (λ it. record {
        same_id = f.same_id;
        same_no = f.same_no;
        same_text = f.same_text;
        same_restored = f.same_restored;
        same_digest = f.same_digest;
        mark = sym it ∙ same;
        becomes_active = λ _. refl;
      })
      (λ other. record {
        same_id = f.same_id;
        same_no = f.same_no;
        same_text = f.same_text;
        same_restored = f.same_restored;
        same_digest = f.same_digest;
        mark = f.unmarked (sym same ∙ other) ∙ sym other ∙ same;
        becomes_active = λ it. false-true (sym other ∙ same ∙ it);
      })
  where
    false-true : {A : Type 0} → ◌≡◌ {A = Bool} false true → A
    false-true h = cc

-- An activation marks exactly one identifier.
pub activate_rows-OnlyCurrent :
    (call : Call) (id : ℕ) (operation : Option String) (vs : List Version)
    → OnlyCurrent id (activate_rows call id operation vs)
unfolding activate_rows activate_row
activate_rows-OnlyCurrent call id operation [] = tt
activate_rows-OnlyCurrent call id operation (v ∷ vs) =
    let f = activate_row-Activated call id operation v in
    (f.mark ∙ ap (λ n. n == id) (sym f.same_id), activate_rows-OnlyCurrent call id operation vs)

-- The row that is activated is found again, with the same text.
pub version_by_id-activate_rows :
    (call : Call) (id : ℕ) (operation : Option String) (vs : List Version) (v : Version)
    → version_by_id id vs ≡ some v
    → (w : Version) × (version_by_id id (activate_rows call id operation vs) ≡ some w)
      × Activated id v w
      × (w.status ≡ active)
unfolding activate_rows version_by_id activate_row
version_by_id-activate_rows call id operation [] v h = cc
version_by_id-activate_rows call id operation (u ∷ us) v h =
    let f = activate_row-Activated call id operation u in
    let same : ((activate_row call id operation u).id == id) ≡ (u.id == id) =
      ap (λ n. n == id) f.same_id in
    elim (Bool-cases (u.id == id)) [
      | inl it ↦ (
        activate_row call id operation u,
        rw (same ∙ it) refl,
        of_some (λ v. Activated id v (activate_row call id operation u)) (rw it at h) f,
        f.becomes_active it,
      )
      | inr other ↦
          let (w, found, rest, live) =
            version_by_id-activate_rows call id operation us v (rw other at h) in
          (w, rw (same ∙ other) found, rest, live)
    ]

-- Activating a version that is in the table makes the chunk coherent, whatever was current before.
pub activate-IsCoherent :
    (call : Call) (row : Version) (operation : Option String) (c : Chunk)
    → version_by_id row.id c.versions ≡ some row
    → IsCoherent (activate call row operation c)
unfolding activate
activate-IsCoherent call row operation c h =
    let (w, found, f, live) = version_by_id-activate_rows call row.id operation c.versions row h in
    record {
      id = row.id;
      row = w;
      named = refl;
      only = activate_rows-OnlyCurrent call row.id operation c.versions;
      projects = record {
        there = found;
        is_active = live;
        text = sym f.same_text;
        digest = sym f.same_digest;
        counted = ap length (sym f.same_text);
        chunk_counted = ap length (sym f.same_text);
      };
    }

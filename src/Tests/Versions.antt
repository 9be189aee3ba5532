-- ===== src/Tests/Versions.antt =====
-- The versions of one chunk.
use vvz_doc_store.Prelude.{
  ℕ, ◌≡◌, ◌≢◌, refl, Bool, true, false, none, some, [], ◌∷◌, arith, ok, err, All, if◌then◌else◌,
}
use vvz_doc_store.Text.{Text}
use vvz_doc_store.Json.{null}
use vvz_doc_store.Versions.{
  active, retired, Version, Chunk, Call, current_version_mismatch, version_by_no, version_by_id,
  current_version,
}
use vvz_doc_store.Versions.Operations.{
  Outcome, unchanged, append_and_activate, restore_version, set_current, retire_version, release,
  remove_version, delete_version,
}
use vvz_doc_store.Versions.Coherent.{OnlyCurrent, IsCoherent, Ordered}
use vvz_doc_store.Versions.Keeping.{
  Shows, Restores, append_and_activate-Shows, restore_version-Shows, set_current-Shows,
}
use vvz_doc_store.Versions.Losing.{
  Forgotten, retire_version-Replaced, delete_version-loses, delete_version-IsCoherent,
}

abbrev call : Call
call = record {
  now = 7;
  new_id = 30;
  sha256 = λ text. text;
  comment = none;
  actor = none;
  operation_id = none;
}

abbrev version : ℕ → ℕ → Text → Bool → Version
version id n text is_current = record {
  id = id;
  version_no = n;
  previous = none;
  restored_from = none;
  text = text;
  digest = text;
  status = if is_current then active else retired;
  is_current = is_current;
  valid_from = 1;
  valid_to = none;
  deleted_at = none;
  comment = none;
  actor = none;
  operation = none;
  operation_id = none;
  block_meta = null;
}

abbrev old : Version
old = version 10 1 (97 ∷ []) false

abbrev latest : Version
latest = version 20 2 (98 ∷ []) true

abbrev chunk : Chunk
chunk = record {
  versions = old ∷ latest ∷ [];
  current = some 20;
  projection = record { text = 98 ∷ []; digest = 98 ∷ []; char_count = 1; block_meta = null };
  block_meta = null;
  char_count = 1;
  assigned_version = some 20;
  derived_rows = 4;
  active_embeddings = 1;
  needs_revectorize = false;
}

abbrev only : OnlyCurrent 20 chunk.versions
only = (refl, (refl, tt))

coherent : IsCoherent chunk
unfolding version_by_id
coherent = record {
  id = 20;
  row = latest;
  named = refl;
  only = only;
  projects = record {
    there = refl;
    is_active = refl;
    text = refl;
    digest = refl;
    counted = refl;
    chunk_counted = refl;
  };
}

different : old.id ≢ latest.id
different h = omega arith

ordered : Ordered chunk.versions
ordered = (((different, omega arith), tt), (tt, tt))

fresh : version_by_id 30 chunk.versions ≡ none
unfolding version_by_id
fresh = refl

found : version_by_no 2 chunk.versions ≡ some latest
unfolding version_by_no
found = refl

abbrev appended : Outcome × Chunk
appended = elim (append_and_activate call (99 ∷ []) "update" (some 2) chunk) [
  | ok r ↦ r
  | err e ↦ (unchanged, chunk)
]

append_run : append_and_activate call (99 ∷ []) "update" (some 2) chunk ≡ ok appended
unfolding append_and_activate current_version
append_run = refl

refused : append_and_activate call (99 ∷ []) "update" (some 1) chunk ≡ err current_version_mismatch
unfolding append_and_activate current_version
refused = refl

append_and_activate-Shows_example : Shows (99 ∷ []) appended.1
append_and_activate-Shows_example =
    append_and_activate-Shows call (99 ∷ []) "update" (some 2) chunk appended coherent fresh
      append_run

abbrev back : Outcome × Chunk
back = elim (restore_version call 1 none chunk) [ ok r ↦ r | err e ↦ (unchanged, chunk) ]

restore_run : restore_version call 1 none chunk ≡ ok back
unfolding restore_version
restore_run = refl

restore_version-Shows_example :
    (source : Version) × (version_by_no 1 chunk.versions ≡ some source)
    × Shows source.text back.1
    × Restores source 30 chunk back.1
restore_version-Shows_example = restore_version-Shows call 1 none chunk back fresh restore_run

abbrev switched : Outcome × Chunk
switched = elim (set_current call 1 chunk) [ ok r ↦ r | err e ↦ (unchanged, chunk) ]

set_run : set_current call 1 chunk ≡ ok switched
unfolding set_current
set_run = refl

set_current-Shows_example :
    (row : Version) × (version_by_no 1 chunk.versions ≡ some row)
    × (row.deleted_at ≡ none)
    × Shows row.text switched.1
    × (switched.1.current ≡ some row.id)
    × OnlyCurrent row.id switched.1.versions
set_current-Shows_example = set_current-Shows call 1 chunk switched ordered set_run

abbrev without : Chunk
without = elim (retire_version call 2 (some 1) chunk) [ ok c ↦ c | err e ↦ chunk ]

retire_run : retire_version call 2 (some 1) chunk ≡ ok without
unfolding retire_version
retire_run = refl

retire_version-Replaced_example :
    (row : Version) × (version_by_no 2 chunk.versions ≡ some row)
    × IsCoherent without
    × (without.current ≢ some row.id)
retire_version-Replaced_example =
    retire_version-Replaced call 2 (some 1) chunk without ordered coherent retire_run

delete_version-loses_example :
    (c' : Chunk) × (delete_version call 2 chunk ≡ ok c')
    × (c'.current ≡ none)
    × (c'.projection ≡ chunk.projection)
    × (c'.versions ≡ release latest.id (remove_version 2 chunk.versions))
    × Forgotten latest.id c'.versions
    × All (λ v. v.is_current ≡ false) c'.versions
delete_version-loses_example =
    delete_version-loses call 2 chunk latest ordered refl found refl only refl

abbrev pruned : Chunk
pruned = elim (delete_version call 1 chunk) [ ok c ↦ c | err e ↦ chunk ]

prune_run : delete_version call 1 chunk ≡ ok pruned
unfolding delete_version
prune_run = refl

found_old : version_by_no 1 chunk.versions ≡ some old
unfolding version_by_no
found_old = refl

not_current : chunk.current ≢ some old.id
not_current h = cc

delete_version-IsCoherent_example :
    IsCoherent pruned
    × (pruned.current ≡ chunk.current)
    × (pruned.projection ≡ chunk.projection)
    × Forgotten old.id pruned.versions
delete_version-IsCoherent_example =
    delete_version-IsCoherent call 1 chunk pruned old ordered coherent found_old not_current
      prune_run

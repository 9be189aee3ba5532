-- ===== src/Versions/Operations.antt =====
-- The operations of `ChunkTextVersionService` on a chunk that exists.
use vvz_doc_store.Prelude.{
  ℕ, suc, ltb, String, Bool, true, false, not, ◌&&◌, Option, none, some, List, [], ◌∷◌, ◌==◌,
  length, if◌then◌else◌, ok, err, ◌>>=◌, ◌>>◌, raise_if,
}
use vvz_doc_store.Text.{Text, text_eq}
use vvz_doc_store.Versions.{
  Attempt, version_not_found, last_version_delete, current_version_retire, invalid_version_number,
  no_replacement_row, Status, retired, deleted, Version, Chunk, Call, coalesce, version_by_no,
  activate, insert_version, current_version, assert_expected_current,
}

-- What an operation tells of the version that it leaves current.
pub data Outcome : Type 0 where
  unchanged appended restored set : Outcome

abbrev pub is_some {ℓ} : {A : Type ℓ} → Option A → Bool
is_some none = false
is_some (some a) = true

-- A version that is there; one that is marked as deleted counts only where `hidden` is true.
unfoldable pub require_version : Bool → ℕ → Chunk → Attempt Version
unfolding version_by_no
require_version hidden n c = elim (version_by_no n c.versions) [
  | none ↦ err version_not_found
  | some v ↦ if not hidden && is_some v.deleted_at then err version_not_found else ok v
]

unfoldable pub holds_text : Option Version → Text → Bool
holds_text none text = false
holds_text (some v) text = text_eq v.text text

abbrev pub id_of : Option Version → Option ℕ
id_of none = none
id_of (some v) = some v.id

-- `_append_and_activate`, of `append_version` and `update_text`.
unfoldable pub append_and_activate :
    Call → Text → String → Option ℕ → Chunk → Attempt (Outcome × Chunk)
unfolding assert_expected_current current_version insert_version activate holds_text
append_and_activate call text operation expected c = do
  assert_expected_current expected c
  let current = current_version c
  let inserted = insert_version call text operation (id_of current) none c
  if holds_text current text
      then ok (unchanged, c)
      else ok (appended, activate call inserted.0 (some operation) inserted.1)

unfoldable pub restore_version : Call → ℕ → Option ℕ → Chunk → Attempt (Outcome × Chunk)
unfolding assert_expected_current insert_version activate require_version
restore_version call n expected c = do
  raise_if (n == 0) invalid_version_number
  source ← require_version true n c
  assert_expected_current expected c
  let inserted = insert_version call source.text "restore" none (some source.id) c
  ok (restored, activate call inserted.0 (some "restore") inserted.1)

unfoldable pub set_current : Call → ℕ → Chunk → Attempt (Outcome × Chunk)
unfolding activate require_version
set_current call n c = do
  raise_if (n == 0) invalid_version_number
  row ← require_version false n c
  ok (set, activate call row (some "set_current") c)

is_deleted : Status → Bool
is_deleted deleted = true
is_deleted _ = false

unfoldable pub active_count : List Version → ℕ
unfolding is_deleted
active_count [] = 0
active_count (v ∷ vs) =
    let rest = active_count vs in
    if not (is_some v.deleted_at) && not (is_deleted v.status) then suc rest else rest

unfoldable pub retire_row : Call → ℕ → List Version → List Version
retire_row call id [] = []
retire_row call id (v ∷ vs) =
    let rest = retire_row call id vs in
    if v.id == id
    then record v {
      status = retired;
      is_current = false;
      valid_to = coalesce v.valid_to (some call.now);
      comment = coalesce call.comment v.comment;
      actor = coalesce call.actor v.actor;
      operation = some "retire";
    }
      ∷ rest
    else v ∷ rest

-- Where the version is current, its replacement is activated first.
unfoldable pub replace_current : Call → Version → Option ℕ → Chunk → Attempt Chunk
unfolding require_version activate
replace_current call row replacement c =
    if row.is_current
    then elim replacement [
      | none ↦ err current_version_retire
      | some n ↦ do
        other ← require_version false n c
        raise_if (n == row.version_no) version_not_found
        ok (activate call other (some "retire") c)
    ]
    else ok c

unfoldable pub retire_version : Call → ℕ → Option ℕ → Chunk → Attempt Chunk
unfolding require_version active_count replace_current retire_row
retire_version call n replacement c = do
  raise_if (n == 0) invalid_version_number
  raise_if (elim replacement [ none ↦ false | some m ↦ m == 0 ]) invalid_version_number
  row ← require_version false n c
  raise_if (active_count c.versions == 1) last_version_delete
  c' ← replace_current call row replacement c
  ok (record c' { versions = retire_row call row.id c'.versions })

unfoldable pub remove_version : ℕ → List Version → List Version
remove_version n [] = []
remove_version n (v ∷ vs) =
    let rest = remove_version n vs in if v.version_no == n then rest else v ∷ rest

-- The row of `semantic_chunk_current` goes with the version that it names, since its foreign key cascades;
-- an assignment's version is set to NULL.
unfoldable pub cascade : ℕ → Option ℕ → Option ℕ
cascade id none = none
cascade id (some current) = if current == id then none else some current

-- `previous_version_id` and `restored_from_version_id` of a row that is left are set to NULL where they name the
-- deleted version, ON DELETE SET NULL.
unfoldable pub unlink : ℕ → Version → Version
unfolding cascade
unlink id v = record v {
  previous = cascade id v.previous;
  restored_from = cascade id v.restored_from;
}

unfoldable pub release : ℕ → List Version → List Version
unfolding unlink
release id [] = []
release id (v ∷ vs) = unlink id v ∷ release id vs

-- `ORDER BY version_no DESC LIMIT 1` over the versions that are not marked as deleted.
unfoldable pub last_version : List Version → Option Version
last_version [] = none
last_version (v ∷ vs) = elim (last_version vs) [
  | none ↦ if is_some v.deleted_at then none else some v
  | some w ↦ if not (is_some v.deleted_at) && ltb w.version_no v.version_no then some v else some w
]

is_id : Option ℕ → ℕ → Bool
is_id none id = false
is_id (some current) id = current == id

-- What follows the DELETE: `current_id` is read behind it.
unfoldable pub activate_replacement : Call → ℕ → Chunk → Attempt Chunk
unfolding is_id last_version activate
activate_replacement call id c =
    if is_id c.current id
    then elim (last_version c.versions) [
      | none ↦ err no_replacement_row
      | some replacement ↦
          ok (activate (record call { comment = none; actor = none }) replacement (some "delete") c)
    ]
    else ok c

unfoldable pub delete_version : Call → ℕ → Chunk → Attempt Chunk
unfolding require_version remove_version release cascade activate_replacement
delete_version call n c = do
  raise_if (n == 0) invalid_version_number
  row ← require_version true n c
  raise_if (length c.versions == 1) last_version_delete
  activate_replacement call row.id (record c {
    versions = release row.id (remove_version n c.versions);
    current = cascade row.id c.current;
    assigned_version = cascade row.id c.assigned_version;
  })

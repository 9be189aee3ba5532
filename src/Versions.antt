-- ===== src/Versions.antt =====
-- runtime/chunk_versions.py: the text versions of one semantic chunk, and the one that is current.
pub mod Operations
pub mod Coherent
pub mod Numbers
pub mod Keeping
pub mod Losing
use text.Mathlib.Text.{◌==◌ as ◌is◌}
use vvz_doc_store.Prelude.{
  ℕ, suc, ◌+◌, max, String, Bool, true, false, not, ◌&&◌, ◌||◌, Option, none, some, List, [], ◌∷◌,
  ◌++◌, ◌==◌, length, if◌then◌else◌, ℤ, Result, ok, err, ◌>>=◌, ◌>>◌, raise_if,
}
use vvz_doc_store.Text.{Text, text_eq}
use vvz_doc_store.Json.{Json, null, obj, no_fields}

pub data VersionError : Type 0 where
  version_not_found last_version_delete current_version_retire current_version_mismatch :
      VersionError
  invalid_version_number no_replacement_row : VersionError

abbrev pub Attempt : Type 0 → Type 0
Attempt = Result VersionError

pub data Status : Type 0 where
  active retired deleted : Status

-- A row of `semantic_chunk_versions`, less the columns that are only copied from the chunk.
pub record Version : Type 0 where
  pub id : ℕ
  pub version_no : ℕ
  pub previous : Option ℕ
  pub restored_from : Option ℕ
  pub text : Text
  pub digest : Text
  pub status : Status
  pub is_current : Bool
  pub valid_from : ℕ
  pub valid_to : Option ℕ
  pub deleted_at : Option ℕ
  pub comment : Option Text
  pub actor : Option Text
  pub operation : Option String
  pub operation_id : Option ℕ
  pub block_meta : Json

-- The row of `semantic_chunk_texts`.
pub record Projection : Type 0 where
  pub text : Text
  pub digest : Text
  pub char_count : ℕ
  pub block_meta : Json

-- One chunk with its rows: the versions, the version that `semantic_chunk_current` names, the projection, and
-- what depends on the text: the version that its assignments name, how many rows of feedback, metrics, tokens
-- and tags it has, how many embeddings of it and of what holds it are active, and whether those are outdated.
pub record Chunk : Type 0 where
  pub versions : List Version
  pub current : Option ℕ
  pub projection : Projection
  pub block_meta : Json
  pub char_count : ℕ
  pub assigned_version : Option ℕ
  pub derived_rows : ℕ
  pub active_embeddings : ℕ
  pub needs_revectorize : Bool

-- Who asks, and what the transaction has: its time, a new identifier and the digest.
pub record Call : Type 0 where
  pub now : ℕ
  pub new_id : ℕ
  pub sha256 : Text → Text
  pub comment : Option Text
  pub actor : Option Text
  pub operation_id : Option ℕ

abbrev pub coalesce {ℓ} : {A : Type ℓ} → Option A → Option A → Option A
coalesce none b = b
coalesce (some a) b = some a

-- `block_meta or {}`: the column has an object or NULL.
unfoldable pub or_empty : Json → Json
or_empty null = obj no_fields
or_empty meta = meta

unfoldable pub version_by_no : ℕ → List Version → Option Version
version_by_no n [] = none
version_by_no n (v ∷ vs) = if v.version_no == n then some v else version_by_no n vs

unfoldable pub version_by_id : ℕ → List Version → Option Version
version_by_id n [] = none
version_by_id n (v ∷ vs) = if v.id == n then some v else version_by_id n vs

-- The first update of `_activate`, for one row.
unfoldable pub retire_other : ℕ → ℕ → Version → Version
retire_other now id v =
    if v.is_current && not (v.id == id)
    then record v {
      is_current = false;
      status = retired;
      valid_to = coalesce v.valid_to (some now);
    }
    else v

-- The second one.
unfoldable pub make_current : Call → ℕ → Option String → Version → Version
make_current call id operation v =
    if v.id == id
    then record v {
      is_current = true;
      status = active;
      deleted_at = none;
      valid_to = none;
      comment = coalesce call.comment v.comment;
      actor = coalesce call.actor v.actor;
      operation = coalesce operation v.operation;
    }
    else v

unfoldable pub activate_rows : Call → ℕ → Option String → List Version → List Version
unfolding retire_other make_current
activate_rows call id operation [] = []
activate_rows call id operation (v ∷ vs) =
    make_current call id operation (retire_other call.now id v) ∷ activate_rows call id operation vs

unfoldable pub activate : Call → Version → Option String → Chunk → Chunk
unfolding activate_rows or_empty
activate call row operation c = record c {
  versions = activate_rows call row.id operation c.versions;
  current = some row.id;
  projection = record {
    text = row.text;
    digest = row.digest;
    char_count = length row.text;
    block_meta = or_empty row.block_meta;
  };
  char_count = length row.text;
  assigned_version = some row.id;
  derived_rows = 0;
  active_embeddings = 0;
  needs_revectorize = true;
}

-- The versions keep the order of their numbers, so the greatest one is found by comparing all.
unfoldable pub max_version_no : List Version → ℕ
max_version_no [] = 0
max_version_no (v ∷ vs) = max v.version_no (max_version_no vs)

unfoldable pub insert_version : Call → Text → String → Option ℕ → Option ℕ → Chunk → Version × Chunk
unfolding max_version_no or_empty
insert_version call text operation previous restored_from c =
    let row : Version = record {
      id = call.new_id;
      version_no = max_version_no c.versions + 1;
      previous = previous;
      restored_from = restored_from;
      text = text;
      digest = call.sha256 text;
      status = active;
      is_current = false;
      valid_from = call.now;
      valid_to = none;
      deleted_at = none;
      comment = call.comment;
      actor = call.actor;
      operation = some operation;
      operation_id = call.operation_id;
      block_meta = or_empty c.block_meta;
    } in
    (row, record c { versions = c.versions ++ row ∷ [] })

unfoldable pub current_version : Chunk → Option Version
unfolding version_by_id
current_version c = elim c.current [ none ↦ none | some id ↦ version_by_id id c.versions ]

abbrev pub number_of : Option Version → Option ℕ
number_of none = none
number_of (some v) = some v.version_no

same_number : Option ℕ → ℕ → Bool
same_number none n = false
same_number (some m) n = m == n

-- `expected_current_version`: none is no demand, and a number must be positive.
unfoldable pub assert_expected_current : Option ℕ → Chunk → Attempt (Unit {0})
unfolding current_version same_number
assert_expected_current none c = ok tt
assert_expected_current (some expected) c = do
  raise_if (expected == 0) invalid_version_number
  raise_if (not (same_number (number_of (current_version c)) expected)) current_version_mismatch

-- ===== src/Vectorize.antt =====
-- runtime/vectorization.py: `VectorizationService.rebuild`, the loop over batches of documents.
pub mod Counting
pub mod Ending
pub mod Forever
pub mod Left
pub mod Covering
pub mod Flags
use vvz_doc_store.Prelude.{
  ℕ, zero, suc, ◌-◌, min, Bool, true, false, not, ◌&&◌, ◌||◌, Option, none, some, List, [], ◌∷◌,
  ◌++◌, map, ltb, ◌==◌, length, take, if◌then◌else◌, ℤ, pos, pos_part, ltb_ℤ, contains, Result, ok,
  err,
}
use mathlib.Core.Option as Option

-- The columns that are read; `needs` is `needs_revectorize`.
pub record Document : Type 0 where
  pub id : ℕ
  pub owner_id : Option ℕ
  pub deleted : Bool
  pub needs : Bool
  pub updated_at : Option ℕ
  pub created_at : ℕ

pub record File : Type 0 where
  pub id : ℕ
  pub needs : Bool

-- The documents stand in the order of their identifiers.
pub record Tables : Type 0 where
  pub documents : List Document
  pub files : List File

-- The left join's flag.
unfoldable pub file_needs : List File → Option ℕ → Bool
file_needs files none = false
file_needs [] (some owner) = false
file_needs (file ∷ files) (some owner) =
    let rest = file_needs files (some owner) in if file.id == owner then file.needs else rest

unfoldable pub is_live : Document → Bool
is_live d = not d.deleted

unfoldable pub is_flagged : List File → Document → Bool
unfolding is_live file_needs
is_flagged files d = is_live d && (d.needs || file_needs files d.owner_id)

unfoldable pub is_behind : Option ℕ → Document → Bool
unfolding is_live
is_behind none d = is_live d
is_behind (some after) d = is_live d && ltb after d.id

-- `WHERE`
unfoldable pub filter_documents : (Document → Bool) → List Document → List Document
filter_documents test [] = []
filter_documents test (d ∷ ds) =
    let rest = filter_documents test ds in if test d then d ∷ rest else rest

unfoldable pub document_ids : List Document → List ℕ
document_ids = map (λ (d : Document). d.id)

abbrev nulls_first : Option ℕ → Option ℕ → Bool
nulls_first none none = false
nulls_first none (some b) = true
nulls_first (some a) none = false
nulls_first (some a) (some b) = ltb a b

-- `d.updated_at ASC NULLS FIRST, d.created_at ASC, d.id ASC`
unfoldable pub is_older : Document → Document → Bool
is_older d e =
    nulls_first d.updated_at e.updated_at
    || not (nulls_first e.updated_at d.updated_at)
      && (ltb d.created_at e.created_at || not (ltb e.created_at d.created_at) && ltb d.id e.id)

unfoldable pub insert_older : Document → List Document → List Document
unfolding is_older
insert_older d [] = d ∷ []
insert_older d (e ∷ es) =
    let rest = insert_older d es in if is_older e d then e ∷ rest else d ∷ e ∷ es

unfoldable pub oldest_first : List Document → List Document
unfolding insert_older
oldest_first [] = []
oldest_first (d ∷ ds) = insert_older d (oldest_first ds)

pub record RebuildRequest : Type 0 where
  pub document_id : Option ℕ
  pub all_documents : Bool
  pub document_limit : Option ℤ
  pub dry_run : Bool

-- The loop's variables, and the tables.
pub record LoopState : Type 0 where
  pub tables : Tables
  pub processed : List ℕ
  pub after : Option ℕ

-- `_select_documents` for one document, for all of them behind an identifier, and for the flagged ones.
unfoldable pub select_one : ℕ → Tables → List ℕ
unfolding filter_documents document_ids is_live
select_one id t =
    document_ids (take 1 (filter_documents (λ d. is_live d && d.id == id) t.documents))

unfoldable pub select_behind : ℕ → Option ℕ → Tables → List ℕ
unfolding filter_documents document_ids is_behind
select_behind limit after t =
    document_ids (take limit (filter_documents (is_behind after) t.documents))

unfoldable pub select_flagged : ℕ → Tables → List ℕ
unfolding filter_documents document_ids is_flagged oldest_first
select_flagged limit t =
    document_ids (take limit (oldest_first (filter_documents (is_flagged t.files) t.documents)))

-- `min(document_batch_size, remaining)`, or `none` if nothing remains.
unfoldable pub batch_limit : Option ℤ → ℕ → List ℕ → Option ℕ
batch_limit none size processed = some size
batch_limit (some limit) size processed =
    let remaining = pos_part limit - length processed in
    if remaining == 0 then none else some (min size remaining)

abbrev pub none_processed : List ℕ → Bool
none_processed [] = true
none_processed (id ∷ rest) = false

-- `docs[-1]`, for documents behind the first.
unfoldable pub last_id : ℕ → List ℕ → ℕ
last_id id [] = id
last_id id (next ∷ rest) = last_id next rest

-- The documents of a round and `all_documents_after`, or `none` where the loop is left.
abbrev pub Choice : Type 0
Choice = Option (List ℕ × Option ℕ)

unfoldable pub choose_one : ℕ → LoopState → Choice
unfolding select_one
choose_one id s =
    if none_processed s.processed then some (select_one id s.tables, s.after) else none

unfoldable pub move_after : List ℕ → Choice
move_after [] = none
move_after (id ∷ rest) = some (id ∷ rest, some (last_id id rest))

unfoldable pub choose_behind : Option ℕ → LoopState → Choice
unfolding select_behind move_after last_id
choose_behind none s = none
choose_behind (some limit) s = move_after (select_behind limit s.after s.tables)

unfoldable pub unless_empty : Option ℕ → List ℕ → Choice
unless_empty after [] = none
unless_empty after (id ∷ rest) = some (id ∷ rest, after)

unfoldable pub choose_flagged : Option ℕ → LoopState → Choice
unfolding select_flagged unless_empty
choose_flagged none s = none
choose_flagged (some limit) s = unless_empty s.after (select_flagged limit s.tables)

unfoldable pub choose : Option ℕ → Bool → Option ℤ → ℕ → LoopState → Choice
unfolding choose_one choose_behind choose_flagged batch_limit
choose (some id) all limit size s = choose_one id s
choose none true limit size s = choose_behind (batch_limit limit size s.processed) s
choose none false limit size s = choose_flagged (batch_limit limit size s.processed) s

unfoldable pub clear_document : List ℕ → ℕ → Document → Document
clear_document chosen now d =
    if contains d.id chosen then record d { needs = false; updated_at = some now } else d

-- `SELECT owner_id FROM documents WHERE id = ANY(...)`
unfoldable pub owners_of : List ℕ → List Document → List (Option ℕ)
owners_of chosen [] = []
owners_of chosen (d ∷ ds) =
    let rest = owners_of chosen ds in if contains d.id chosen then d.owner_id ∷ rest else rest

abbrev pub is_file : ℕ → Option ℕ → Bool
is_file id none = false
is_file id (some owner) = owner == id

abbrev pub is_owner : ℕ → List (Option ℕ) → Bool
is_owner id [] = false
is_owner id (owner ∷ owners) = is_file id owner || is_owner id owners

unfoldable pub clear_file : List (Option ℕ) → File → File
clear_file owners f = if is_owner f.id owners then record f { needs = false } else f

-- What `_persist_vectors` does to the flags.
unfoldable pub persist : List ℕ → ℕ → Tables → Tables
unfolding clear_document owners_of clear_file
persist chosen now t = record {
  documents = map (clear_document chosen now) t.documents;
  files = map (clear_file (owners_of chosen t.documents)) t.files;
}

pub data RebuildStatus : Type 0 where
  rebuilt embedding_unavailable : RebuildStatus

-- `_result`: the status, the processed documents, and the tables that are left.
pub record RebuildOutcome : Type 0 where
  pub status : RebuildStatus
  pub processed : List ℕ
  pub tables : Tables

pub data RebuildError : Type 0 where
  bad_batch_size : RebuildError

abbrev pub initial : Tables → LoopState
initial t = record { tables = t; processed = []; after = none }

-- The embedding service is a parameter: whether it embeds the texts of a batch. So is the clock.
module _ (embeds : List ℕ → Bool) (now : ℕ) where
  -- The variables behind a round over the chosen documents.
  unfoldable pub advance : Bool → LoopState → List ℕ → Option ℕ → LoopState
  unfolding persist
  advance dry_run s docs after = record {
    tables = if dry_run then s.tables else persist docs now s.tables;
    processed = s.processed ++ docs;
    after = after;
  }

  -- `none` where the fuel is spent and the loop still runs.
  unfoldable pub run : ℕ → RebuildRequest → ℕ → LoopState → Option RebuildOutcome
  unfolding choose advance
  run zero request size s = none
  run (suc fuel) request size s =
      elim (choose request.document_id request.all_documents request.document_limit size s) [
        | none ↦ some (record { status = rebuilt; processed = s.processed; tables = s.tables })
        | some (docs, after) ↦
            let rest = run fuel request size (advance request.dry_run s docs after) in
            if request.dry_run || embeds docs
            then rest
            else some (record {
              status = embedding_unavailable;
              processed = s.processed;
              tables = s.tables;
            })
      ]

  unfoldable pub rebuild :
      ℕ → RebuildRequest → ℤ → Tables → Result RebuildError (Option RebuildOutcome)
  unfolding run
  rebuild fuel request (pos zero) t = err bad_batch_size
  rebuild fuel request (pos (suc size)) t = ok (run fuel request (suc size) (initial t))
  rebuild fuel request _ t = err bad_batch_size

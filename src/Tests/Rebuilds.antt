-- ===== src/Tests/Rebuilds.antt =====
-- Rebuilds over three documents.
use vvz_doc_store.Prelude.{
  ℕ, ◌≡◌, refl, arith, inr, Bool, true, false, Option, none, some, List, [], ◌∷◌, pos, ok,
}
use vvz_doc_store.Vectorize.{
  Document, Tables, RebuildOutcome, rebuilt, is_live, filter_documents, document_ids, select_one,
  select_flagged, persist, rebuild,
}
use vvz_doc_store.Vectorize.Ending.{one_of, all_of, flagged_of, rebuild-ends}
use vvz_doc_store.Vectorize.Forever.{rebuild_forever, rebuild_dry_forever}
use vvz_doc_store.Vectorize.Flags.{AllCleared, persist-AllCleared}
use vvz_doc_store.Vectorize.Covering.{rebuild-covers}

abbrev document : ℕ → Option ℕ → Bool → Bool → Document
document id owner deleted needs = record {
  id = id;
  owner_id = owner;
  deleted = deleted;
  needs = needs;
  updated_at = none;
  created_at = 0;
}

-- The second document is flagged by its file; the third one is deleted.
abbrev tables : Tables
tables = record {
  documents =
      document 1 none false true ∷ document 2 (some 9) false false ∷ document 3 none true true ∷ [];
  files = record { id = 9; needs = true } ∷ [];
}

abbrev embeds : List ℕ → Bool
embeds batch = true

rebuild-ends_example :
    (o : RebuildOutcome) × (rebuild embeds 5 5 (flagged_of none false) (pos 1) tables ≡ ok (some o))
rebuild-ends_example =
    rebuild-ends embeds 5 (flagged_of none false) 0 5 tables (inr refl) (omega arith)

abbrev all_done : RebuildOutcome
all_done = record { status = rebuilt; processed = 1 ∷ 2 ∷ []; tables = tables }

all_run : rebuild embeds 5 5 (all_of none true) (pos 1) tables ≡ ok (some all_done)
unfolding rebuild
all_run = refl

rebuild-covers_example :
    (all_done.status ≡ rebuilt)
    × (all_done.processed ≡ document_ids (filter_documents is_live tables.documents))
rebuild-covers_example =
    rebuild-covers embeds 5 0 true (λ docs. refl) 5 tables all_done
      ((omega arith, (omega arith, tt)), ((omega arith, tt), (tt, tt))) all_run

abbrev cleared : Tables
cleared = record {
  documents =
      record (document 1 none false false) { updated_at = some 5 }
      ∷ record (document 2 (some 9) false false) { updated_at = some 5 }
      ∷ document 3 none true true
      ∷ [];
  files = record { id = 9; needs = false } ∷ [];
}

abbrev flagged_done : RebuildOutcome
flagged_done = record { status = rebuilt; processed = 1 ∷ 2 ∷ []; tables = cleared }

flagged_run : rebuild embeds 5 5 (flagged_of none false) (pos 1) tables ≡ ok (some flagged_done)
unfolding rebuild
flagged_run = refl

persist-AllCleared_example :
    let t' = persist (1 ∷ 2 ∷ []) 5 tables in
    AllCleared (1 ∷ 2 ∷ []) tables.files t'.files tables.documents t'.documents
persist-AllCleared_example = persist-AllCleared (1 ∷ 2 ∷ []) 5 tables

missing : select_one 3 tables ≡ []
unfolding select_one
missing = refl

rebuild_forever_example : rebuild embeds 5 100 (one_of 3 false none false) (pos 1) tables ≡ ok none
rebuild_forever_example = rebuild_forever embeds 5 3 false false none 0 100 tables refl missing

flagged : select_flagged 1 tables ≡ 1 ∷ []
unfolding select_flagged
flagged = refl

rebuild_dry_forever_example : rebuild embeds 5 100 (flagged_of none true) (pos 1) tables ≡ ok none
rebuild_dry_forever_example = rebuild_dry_forever embeds 5 0 100 tables 1 [] flagged

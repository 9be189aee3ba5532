-- ===== src/Tests/Hierarchies.antt =====
-- A hierarchy of one chapter, two paragraphs and two chunks.
use vvz_doc_store.Prelude.{ℕ, ◌+◌, ◌≡◌, refl, true, none, some, List, [], ◌∷◌, length, pos, ok, All}
use vvz_doc_store.Text.{Text}
use vvz_doc_store.Hierarchy.Chunks.{Built, Environment, before_all}
use vvz_doc_store.Hierarchy.{
  ChapterInput, Payload, number_version, Aggregate, range_from, is_ascending, any_outside,
  enrich_hierarchy,
}
use vvz_doc_store.Hierarchy.Accepted.{ChaptersInOrder, all_indexes, enrich_hierarchy-InOrder}

abbrev env : Environment
env = record { uuid4 = λ n. n + 100; is_uuid4 = λ id. true; construct = λ chunk. some chunk }

abbrev hi : Text
hi = 72 ∷ 105 ∷ []

abbrev payload : ℕ → ℕ → Payload
payload start end = record { body = some hi; start = some (pos start); end = some (pos end) }

abbrev chunks : List Payload
chunks = payload 0 2 ∷ payload 4 6 ∷ []

abbrev chapters : List ChapterInput
chapters =
    record {
      paragraphs =
          record { text = hi; start = pos 0; end = pos 3; chunk_indexes = pos 0 ∷ [] }
          ∷ record { text = hi; start = pos 4; end = pos 6; chunk_indexes = pos 1 ∷ [] }
          ∷ [];
      start = pos 0;
      end = pos 6;
    }
    ∷ []

abbrev built : ℕ → ℕ → ℕ → ℕ → Built
built uuid paragraph start end = record {
  uuid = uuid;
  source_id = 100;
  block_id = paragraph;
  chapter_id = 101;
  body = hi;
  ordinal = 0;
  block_index = 0;
  start = some (pos start);
  end = some (pos end);
}

abbrev aggregate : Aggregate
aggregate = record {
  document_id = 100;
  chapter_ids = 101 ∷ [];
  paragraph_ids = 102 ∷ 104 ∷ [];
  chunks = built 103 102 0 2 ∷ built 105 104 4 6 ∷ [];
  entity_source =
      (100, (7, number_version (pos 1)))
      ∷ (101, (7, number_version (pos 1)))
      ∷ (102, (7, number_version (pos 1)))
      ∷ (104, (7, number_version (pos 1)))
      ∷ (103, (7, number_version (pos 1)))
      ∷ (105, (7, number_version (pos 1)))
      ∷ [];
}

enriched : enrich_hierarchy env 7 (number_version (pos 1)) none none chapters chunks ≡ ok aggregate
unfolding enrich_hierarchy is_ascending any_outside
enriched = refl

enrich_hierarchy-InOrder_example :
    ChaptersInOrder env chunks 100 before_all chapters
    × (all_indexes chapters ≡ range_from 0 2)
    × (length aggregate.chunks ≡ 2)
    × All (λ (c : Built). c.source_id ≡ 100) aggregate.chunks
enrich_hierarchy-InOrder_example =
    enrich_hierarchy-InOrder env 7 (number_version (pos 1)) none none chapters chunks aggregate
      enriched

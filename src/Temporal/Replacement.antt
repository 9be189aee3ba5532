-- ===== src/Temporal/Replacement.antt =====
-- How a replacement of an accepted assertion runs.
use vvz_doc_store.Text.{Text}

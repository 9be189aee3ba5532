-- ===== src/Tests/Diagnostics.antt =====
-- A diagnostic of two texts that differ behind a character of two bytes.
use vvz_doc_store.Prelude.{ℕ, ◌≡◌, refl, none, some, [], ◌∷◌, pos, ok, ◌==◌, if◌then◌else◌}
use vvz_doc_store.Text.{Text, cut}
use vvz_doc_store.Diagnostic.{
  Environment, Request, Diagnostic, describe, build_integrity_diagnostic,
}
use vvz_doc_store.Diagnostic.Disclosure.{Discloses, build_integrity_diagnostic-Discloses}

-- A pattern that matches two characters where a digit stands first.
abbrev digits : Text → ℕ
digits [] = 0
digits (c ∷ text) = if c == 51 then 2 else 0

abbrev env : Environment
env = record { uuid4 = 9; sha256 = λ bytes. bytes; pii_patterns = digits ∷ [] }

abbrev request : Request
request = record {
  source_text = 0xe9 ∷ 51 ∷ 52 ∷ 97 ∷ [];
  reconstructed_text = 0xe9 ∷ 53 ∷ [];
  outcome = "mismatch";
  offset = some (pos 2);
  document_id = some 1;
  chapter_id = none;
  chunk_id = none;
  authorization = "auditor";
  redaction_policy = "redact_pii";
  context_limit = pos 3;
  assertion_id = none;
  page = none;
  bounding_box = none;
}

abbrev described : Diagnostic
described = describe env request 2 3

built : build_integrity_diagnostic env request ≡ ok described
unfolding build_integrity_diagnostic
built = refl

-- The digits are masked, and what precedes the difference is shown.
disclosed :
    (described.context_before ≡ some (0xe9 ∷ []))
    × (described.context_after ≡ some (42 ∷ 42 ∷ 97 ∷ []))
    × (described.byte_offset ≡ some 2)
unfolding describe cut
disclosed = (refl, refl, refl)

build_integrity_diagnostic-Discloses_example :
    (limit : ℕ) × (request.context_limit ≡ pos limit) × Discloses request limit described
build_integrity_diagnostic-Discloses_example =
    build_integrity_diagnostic-Discloses env request described built

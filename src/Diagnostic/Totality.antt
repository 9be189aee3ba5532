-- ===== src/Diagnostic/Totality.antt =====
-- The diagnostic of a verdict that is no match.
use text.Mathlib.Text.{◌==◌ as ◌is◌}
use vvz_doc_store.Prelude.{
  ℕ, ◌≤◌, ◌≡◌, max, String, false, Option, none, some, List, length, take, ℤ, pos, ok,
}
use vvz_doc_store.Text.{Text}
use vvz_doc_store.Integrity.{
  Outcome, matched, mismatch, length_boundary, Verdict, integrity_verdict,
}
use vvz_doc_store.Diagnostic.{Request}

-- The outcome's name, as `_integrity_verdict` returns it.
abbrev pub outcome_name : Outcome → String
outcome_name matched = "match"
outcome_name mismatch = "mismatch"
outcome_name length_boundary = "length_boundary"

abbrev pub offset_of : Option ℕ → Option ℤ
offset_of none = none
offset_of (some n) = some (pos n)

-- A request that carries the verdict on its two texts, with an authorization, a policy and a limit.
pub record Carries (r : Request) (limit : ℕ) : Type 0 where
  pub verdict : Verdict
  pub judged : integrity_verdict r.source_text r.reconstructed_text ≡ ok verdict
  pub outcome : r.outcome ≡ outcome_name verdict.outcome
  pub offset : r.offset ≡ offset_of verdict.offset
  pub authorized : (r.authorization is "") ≡ false
  pub policy : (r.redaction_policy is "") ≡ false
  pub limited : r.context_limit ≡ pos limit

-- Two byte strings that agree below an offset within both of them.
abbrev Explains : List ℕ → List ℕ → ℕ → Type 0
Explains left right n = (take n left ≡ take n right) × (n ≤ max (length left) (length right))

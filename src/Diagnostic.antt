-- ===== src/Diagnostic.antt =====
-- ingestion/integrity_diagnostics.py: the bounded, redacted diagnostic of a source that was not read back.
pub mod Disclosure
pub mod Located
pub mod Totality
use text.Mathlib.Text.{◌==◌ as ◌is◌}
use vvz_doc_store.Prelude.{
  ℕ, zero, suc, ◌+◌, ◌-◌, min, max, String, Bool, true, false, not, ◌&&◌, ◌||◌, Option, none, some,
  List, [], ◌∷◌, ltb, leb, length, take, if◌then◌else◌, ℤ, pos, negsuc, Result, ok, err, ◌>>=◌,
  ◌>>◌, raise_if,
}
use vvz_doc_store.Text.{Text, text_eq, cut}
use vvz_doc_store.Json.{Json}
use vvz_doc_store.Integrity.{encode_char, utf8, encode}

-- The `ValueError`s, one constructor for each message.
pub data DiagnosticError : Type 0 where
  outcome_matches unknown_outcome texts_identical offset_missing : DiagnosticError
  authorization_missing policy_missing limit_negative offset_outside : DiagnosticError
  not_encodable : DiagnosticError

-- What Python gives: an identifier, the digest, and the patterns: how many characters of a text's start
-- a pattern matches, 0 for no match.
pub record Environment : Type 0 where
  pub uuid4 : ℕ
  pub sha256 : List ℕ → Text
  pub pii_patterns : List (Text → ℕ)

pub record Request : Type 0 where
  pub source_text : Text
  pub reconstructed_text : Text
  pub outcome : String
  pub offset : Option ℤ
  pub document_id : Option ℕ
  pub chapter_id : Option ℕ
  pub chunk_id : Option ℕ
  pub authorization : String
  pub redaction_policy : String
  pub context_limit : ℤ
  pub assertion_id : Option ℕ
  pub page : Option ℤ
  pub bounding_box : Option Json

pub record Diagnostic : Type 0 where
  pub span_id : ℕ
  pub assertion_id : Option ℕ
  pub document_id : Option ℕ
  pub chapter_id : Option ℕ
  pub chunk_id : Option ℕ
  pub character_start : ℕ
  pub character_end : ℕ
  pub byte_offset : Option ℕ
  pub length_boundary : Option ℕ
  pub context_before : Option Text
  pub context_after : Option Text
  pub authorization : String
  pub redaction_policy : String
  pub redaction_applied : Bool
  pub page : Option ℤ
  pub bounding_box : Option Json
  pub fragment_sha256 : Text

-- `"*" * len(value)`
unfoldable pub mask : Text → Text
mask [] = []
mask (c ∷ text) = 42 ∷ mask text

-- `pattern.sub(mask, text)`; `rest` characters of the current match are still to come.
unfoldable pub sub_mask : (Text → ℕ) → ℕ → Text → Text
sub_mask pattern rest [] = []
sub_mask pattern (suc rest) (c ∷ text) = 42 ∷ sub_mask pattern rest text
sub_mask pattern zero (c ∷ text) =
    let matched = pattern (c ∷ text) in
    let masked = sub_mask pattern (matched - 1) text in
    if ltb 0 matched then 42 ∷ masked else c ∷ masked

unfoldable pub redact_pii : List (Text → ℕ) → Text → Text
unfolding sub_mask
redact_pii [] text = text
redact_pii (pattern ∷ patterns) text = redact_pii patterns (sub_mask pattern 0 text)

-- `REDACTION_POLICIES.get(policy, _redact_everything)`
unfoldable pub redact : Environment → String → Text → Text
unfolding mask redact_pii
redact env policy text =
    if policy is "none"
    then text
    else if policy is "redact_pii"
    then redact_pii env.pii_patterns text
    else mask text

unfoldable pub is_authorized : String → Bool
is_authorized decision = decision is "owner" || decision is "operator" || decision is "auditor"

-- `len(source_bytes[:offset].decode("utf-8", errors="ignore"))`: a character that is cut off is ignored.
unfoldable pub located : ℕ → Text → ℕ
unfolding encode_char
located offset [] = 0
located offset (c ∷ text) =
    let width = length (encode_char c) in
    let rest = located (offset - width) text in if leb width offset then suc rest else 0

unfoldable pub check_offset : Option ℤ → Result DiagnosticError ℕ
check_offset none = err offset_missing
check_offset (some (negsuc n)) = err offset_missing
check_offset (some (pos n)) = ok n

unfoldable pub check_limit : ℤ → Result DiagnosticError ℕ
check_limit (negsuc n) = err limit_negative
check_limit (pos n) = ok n

-- One side of the window: nothing without an authorization, else the redacted text within the limit.
unfoldable pub context : Environment → String → String → ℕ → Text → Option Text
unfolding redact is_authorized
context env authorization policy limit exact =
    if is_authorized authorization then some (take limit (redact env policy exact)) else none

unfoldable pub changed : Environment → String → String → Text → Bool
unfolding redact is_authorized
changed env authorization policy exact =
    is_authorized authorization && not (text_eq (redact env policy exact) exact)

abbrev when : Bool → ℕ → Option ℕ
when test n = if test then some n else none

-- The diagnostic of a request that passed its tests; the fragment has an encoding, as the source text has.
unfoldable pub describe : Environment → Request → ℕ → ℕ → Diagnostic
unfolding located context changed utf8
describe env r offset limit =
    let at = located offset r.source_text in
    let first = at - limit in
    let last = min (length r.source_text) (at + limit) in
    let before = cut r.source_text first at in
    let after = cut r.source_text at last in
    record {
      span_id = env.uuid4;
      assertion_id = r.assertion_id;
      document_id = r.document_id;
      chapter_id = r.chapter_id;
      chunk_id = r.chunk_id;
      character_start = first;
      character_end = last;
      byte_offset = when (r.outcome is "mismatch") offset;
      length_boundary = when (r.outcome is "length_boundary") offset;
      context_before = context env r.authorization r.redaction_policy limit before;
      context_after = context env r.authorization r.redaction_policy limit after;
      authorization = r.authorization;
      redaction_policy = r.redaction_policy;
      redaction_applied =
          changed env r.authorization r.redaction_policy before
          || changed env r.authorization r.redaction_policy after;
      page = r.page;
      bounding_box = r.bounding_box;
      fragment_sha256 = env.sha256 (utf8 (cut r.source_text first last));
    }

-- The `UnicodeEncodeError` is a `ValueError` too.
unfoldable pub encoded : Text → Result DiagnosticError (List ℕ)
unfolding encode
encoded text = elim (encode text) [ ok bytes ↦ ok bytes | err e ↦ err not_encodable ]

unfoldable pub build_integrity_diagnostic :
    Environment → Request → Result DiagnosticError Diagnostic
unfolding check_offset check_limit describe encoded
build_integrity_diagnostic env r = do
  raise_if (r.outcome is "match") outcome_matches
  raise_if (not (r.outcome is "mismatch" || r.outcome is "length_boundary")) unknown_outcome
  raise_if (text_eq r.source_text r.reconstructed_text) texts_identical
  offset ← check_offset r.offset
  raise_if (r.authorization is "") authorization_missing
  raise_if (r.redaction_policy is "") policy_missing
  limit ← check_limit r.context_limit
  source_bytes ← encoded r.source_text
  reconstructed_bytes ← encoded r.reconstructed_text
  raise_if (ltb (max (length source_bytes) (length reconstructed_bytes)) offset) offset_outside
  ok (describe env r offset limit)

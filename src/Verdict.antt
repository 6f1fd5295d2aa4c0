-- ===== src/Verdict.antt =====
-- The verdicts of src/calibre_ai_auditor/verification/verdict.py, and the values they are about.
-- `F` is the type of Python floats. The free text `reason`, the time `created_at` and the fields
-- that only the LLM witness fills are left out.
use calibre_bookwarden.Prelude.{ℕ, String, Bool, Option, List, [], ◌∷◌, any, str_in}
use calibre_bookwarden.Prelude.Dict.{Dict}

-- A text is the list of its code points.
abbrev pub Text : Type 0
Text = List ℕ

-- The values of metadata fields: None, a str, an int or float, a list of str.
pub data Value (F : Type 0) : Type 0 where
  null : Value F
  text : Text → Value F
  number : F → Value F
  texts : List Text → Value F

pub data VerdictKind : Type 0 where
  confirmed mismatch missing ambiguous : VerdictKind

pub data VerdictAction : Type 0 where
  no_change suggest_fix needs_review defer : VerdictAction

pub record EvidenceSpan : Type 0 where
  pub source : String
  pub span_text : Text
  pub page_range : Option Text
  pub span_confidence : ℕ

pub record FieldVerdict (F : Type 0) : Type 0 where
  pub field : String
  pub declared_value : Value F
  pub observed_value : Value F
  pub verdict : VerdictKind
  pub confidence : ℕ
  pub evidence : List EvidenceSpan
  pub requires_review : Bool
  pub risk_flags : List String

pub record BookVerdict (F : Type 0) : Type 0 where
  pub book_key : String
  pub run_id : String
  pub field_verdicts : Dict (FieldVerdict F)
  pub overall_confidence : ℕ
  pub risk_flags : List String
  pub action : VerdictAction
  pub auto_apply_eligible : Bool
  pub proposed_patch : Dict (Value F)

-- `AUTO_APPLY_MIN_CONFIDENCE`
abbrev pub auto_apply_min_confidence : ℕ
auto_apply_min_confidence = 80

-- `AUTO_APPLY_MIN_FIELD_CONFIDENCE`
abbrev pub auto_apply_min_field_confidence : ℕ
auto_apply_min_field_confidence = 75

-- `HIGH_RISK_FLAGS`
abbrev pub high_risk_flags : List String
high_risk_flags =
    "author_swap" ∷ "isbn_conflict" ∷ "edition_ambiguous" ∷ "cover_mismatch" ∷ "wrong_book"
    ∷ "series_mismatch" ∷ "publisher_mismatch" ∷ []

-- `rf in HIGH_RISK_FLAGS`
unfoldable pub is_high_risk : String → Bool
is_high_risk flag = str_in flag high_risk_flags

-- `any(rf in HIGH_RISK_FLAGS for rf in flags)`, and the truth of `flags & HIGH_RISK_FLAGS`.
unfoldable pub has_high_risk : List String → Bool
has_high_risk flags = any is_high_risk flags

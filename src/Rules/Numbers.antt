-- ===== src/Rules/Numbers.antt =====
-- The rules for comics of src/calibre_ai_auditor/verification/rules.py: `verify_volume`,
-- `verify_chapter` and `verify_series_position`.
use calibre_bookwarden.Prelude.{Bool, true, false, Option, none, some, [], ◌∷◌, if◌then◌else◌}
use calibre_bookwarden.Prelude.Int.{int_eq}
use calibre_bookwarden.Verdict.{
  Text, Value, null, confirmed, mismatch, missing, ambiguous, FieldVerdict,
}
use calibre_bookwarden.Rules.{Python, to_text, coerce_number, field_verdict, evidence_span}

module _ {F : Type 0} (py : Python F) where
  -- `int(round(d)) == int(round(o))`; `none` if a rounding raises
  abbrev pub same_round : F → F → Option Bool
  same_round d o = elim (py.round d) [
    | none ↦ none
    | some m ↦ elim (py.round o) [ none ↦ none | some n ↦ some (int_eq m n) ]
  ]

  -- `verify_volume` on two values, by the numbers found in them; `none` if it raises
  abbrev pub compare_volume :
      Value F → Value F → Option Text → Option F → Option F → Option (FieldVerdict F)
  compare_volume declared observed page_range none none =
      some (field_verdict "volume" declared observed confirmed 90)
  compare_volume declared observed page_range none (some o) =
      some (record (field_verdict "volume" null observed missing 85) {
        evidence = evidence_span "header" (to_text py observed) page_range 85 ∷ [];
      })
  compare_volume declared observed page_range (some d) none =
      some (field_verdict "volume" declared null ambiguous 50)
  compare_volume declared observed page_range (some d) (some o) = elim (same_round d o) [
    | none ↦ none
    | some true ↦ some (field_verdict "volume" declared observed confirmed 95)
    | some false ↦ some (field_verdict "volume" declared observed mismatch 90)
  ]

  -- `verify_volume`
  unfoldable pub verify_volume : Value F → Value F → Option Text → Option (FieldVerdict F)
  verify_volume declared observed page_range =
      compare_volume declared observed page_range (coerce_number py declared)
        (coerce_number py observed)

  -- `verify_chapter` on two values, by the numbers found in them
  abbrev pub compare_chapter :
      Value F → Value F → Option Text → Option F → Option F → FieldVerdict F
  compare_chapter declared observed page_range none none =
      field_verdict "chapter" declared observed confirmed 90
  compare_chapter declared observed page_range none (some o) =
      record (field_verdict "chapter" null observed missing 85) {
        evidence = evidence_span "header" (to_text py observed) page_range 85 ∷ [];
      }
  compare_chapter declared observed page_range (some d) none =
      field_verdict "chapter" declared null ambiguous 50
  compare_chapter declared observed page_range (some d) (some o) =
      if py.within_cent d o
      then field_verdict "chapter" declared observed confirmed 95
      else field_verdict "chapter" declared observed mismatch 90

  -- `verify_chapter`
  unfoldable pub verify_chapter : Value F → Value F → Option Text → FieldVerdict F
  verify_chapter declared observed page_range =
      compare_chapter declared observed page_range (coerce_number py declared)
        (coerce_number py observed)

  -- `verify_series_position` on two values, by the numbers found in them
  abbrev pub compare_series_position :
      Value F → Value F → Option Text → Option F → Option F → FieldVerdict F
  compare_series_position declared observed page_range none none =
      field_verdict "series_position" declared observed confirmed 90
  compare_series_position declared observed page_range none (some o) =
      record (field_verdict "series_position" null observed missing 85) {
        evidence = evidence_span "header" (to_text py observed) page_range 85 ∷ [];
      }
  compare_series_position declared observed page_range (some d) none =
      field_verdict "series_position" declared null ambiguous 50
  compare_series_position declared observed page_range (some d) (some o) =
      if py.within_cent d o
      then field_verdict "series_position" declared observed confirmed 95
      else field_verdict "series_position" declared observed mismatch 90

  -- `verify_series_position`
  unfoldable pub verify_series_position : Value F → Value F → Option Text → FieldVerdict F
  verify_series_position declared observed page_range =
      compare_series_position declared observed page_range (coerce_number py declared)
        (coerce_number py observed)

-- ===== src/Rules/Series.antt =====
-- `verify_series` and `verify_series_index` of src/calibre_ai_auditor/verification/rules.py.
use calibre_bookwarden.Prelude.{
  Bool, true, not, ◌&&◌, Option, none, some, [], ◌∷◌, text_eq, codes, if◌then◌else◌,
}
use calibre_bookwarden.Verdict.{
  Text, Value, null, text, number, texts, confirmed, mismatch, missing, ambiguous, FieldVerdict,
}
use calibre_bookwarden.Rules.{
  Python, is_none, truthy, to_text, normalize_text, field_verdict, evidence_span,
}

module _ {F : Type 0} (py : Python F) where
  -- `verify_series`; `observed_any` says whether running headers were sampled.
  unfoldable pub verify_series : Value F → Value F → Option Text → Bool → FieldVerdict F
  verify_series declared observed page_range observed_any =
      if is_none declared && is_none observed
      then (if not observed_any
          then field_verdict "series" null null confirmed 90
          else field_verdict "series" null null confirmed 95)
      else if is_none declared && truthy py observed
      then record (field_verdict "series" null observed missing 85) {
        evidence = evidence_span "header" (to_text py observed) page_range 85 ∷ [];
      }
      else if truthy py declared && is_none observed
      then (if not observed_any
          then field_verdict "series" declared null ambiguous 50
          else record (field_verdict "series" declared null mismatch 80) {
            risk_flags = "series_mismatch" ∷ [];
            evidence = evidence_span "header" (codes "(no series header found)") page_range 80 ∷ [];
            requires_review = true;
          })
      else if text_eq (normalize_text py declared) (normalize_text py observed)
      then field_verdict "series" declared observed confirmed 95
      else record (field_verdict "series" declared observed mismatch 85) {
        risk_flags = "series_mismatch" ∷ [];
        requires_review = true;
      }

  -- `float(v)`; `none` if it raises TypeError or ValueError
  unfoldable pub to_float : Value F → Option F
  to_float null = none
  to_float (text s) = py.float_of_text s
  to_float (number x) = some x
  to_float (texts l) = none

  -- `verify_series_index` on two values that are there
  abbrev pub compare_index : Value F → Value F → Option F → Option F → FieldVerdict F
  compare_index declared observed (some d) (some o) =
      if py.within_cent d o
      then field_verdict "series_index" declared observed confirmed 95
      else field_verdict "series_index" declared observed mismatch 90
  compare_index declared observed _ _ = field_verdict "series_index" declared observed ambiguous 40

  -- `verify_series_index`
  unfoldable pub verify_series_index : Value F → Value F → Option Text → FieldVerdict F
  verify_series_index declared observed page_range =
      if is_none declared && is_none observed
      then field_verdict "series_index" null null confirmed 90
      else if is_none declared && not (is_none observed)
      then record (field_verdict "series_index" null observed missing 85) {
        evidence = evidence_span "header" (to_text py observed) page_range 85 ∷ [];
      }
      else if not (is_none declared) && is_none observed
      then field_verdict "series_index" declared null ambiguous 50
      else compare_index declared observed (to_float declared) (to_float observed)

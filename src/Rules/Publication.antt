-- ===== src/Rules/Publication.antt =====
-- `verify_publisher`, `verify_published_date` and `verify_language` of
-- src/calibre_ai_auditor/verification/rules.py.
use calibre_bookwarden.Prelude.{
  ℕ, ◌+◌, ◌*◌, true, not, ◌&&◌, ◌||◌, Option, none, some, [], ◌∷◌, ◌==◌, text_eq, occurs_in, strip,
  if◌then◌else◌,
}
use calibre_bookwarden.Verdict.{
  Text, Value, null, VerdictKind, confirmed, mismatch, missing, ambiguous, FieldVerdict,
}
use calibre_bookwarden.Rules.{
  Python, is_none, truthy, to_text, normalize_text, ratio_at_least, field_verdict, evidence_span,
}

module _ {F : Type 0} (py : Python F) where
  -- `int` of four decimal digits; `none` if one is no digit
  abbrev pub four_digits : ℕ → ℕ → ℕ → ℕ → Option ℕ
  four_digits a b c d = elim (py.decimal a) [
    | none ↦ none
    | some k ↦ elim (py.decimal b) [
      | none ↦ none
      | some l ↦ elim (py.decimal c) [
        | none ↦ none
        | some m ↦ elim (py.decimal d) [
          | none ↦ none
          | some n ↦ some (1000 * k + (100 * l + (10 * m + n)))
        ]
      ]
    ]
  ]

  -- `_IS_DATE_RE.match(s)`: the group of the year, and its number. The optional month and day
  -- behind the year never make the match fail.
  unfoldable pub date_year : Text → Option (Text × ℕ)
  date_year (a ∷ b ∷ c ∷ d ∷ rest) = elim (four_digits a b c d) [
    | none ↦ none
    | some year ↦ some (a ∷ b ∷ c ∷ d ∷ [], year)
  ]
  date_year _ = none

  -- `verify_publisher`
  unfoldable pub verify_publisher : Value F → Value F → Option Text → FieldVerdict F
  verify_publisher declared observed page_range =
      let norm_decl = normalize_text py declared in
      let norm_obs = normalize_text py observed in
      let result =
        λ (kind : VerdictKind) (n : ℕ). field_verdict "publisher" declared observed kind n in
      if is_none declared && is_none observed
      then field_verdict "publisher" null null ambiguous 0
      else if is_none declared && truthy py observed
      then record (field_verdict "publisher" null observed missing 80) {
        evidence = evidence_span "copyright_page" (to_text py observed) page_range 80 ∷ [];
      }
      else if truthy py declared && is_none observed
      then field_verdict "publisher" declared null ambiguous 50
      else if text_eq norm_decl norm_obs
      then result confirmed 99
      else if ratio_at_least py 60 norm_decl norm_obs
          && (occurs_in norm_decl norm_obs || occurs_in norm_obs norm_decl)
      then record (result confirmed 85) {
        evidence = evidence_span "copyright_page" (to_text py observed) page_range 85 ∷ [];
      }
      else if not (ratio_at_least py 50 norm_decl norm_obs)
      then record (result mismatch 85) {
        risk_flags = "publisher_mismatch" ∷ [];
        requires_review = true;
      }
      else result ambiguous 60

  -- `verify_published_date` on two values that are there, by the years found in them
  abbrev pub compare_years :
      Value F → Value F → Option (Text × ℕ) → Option (Text × ℕ) → FieldVerdict F
  compare_years declared observed (some (decl_year, m)) (some (obs_year, n)) =
      let result =
        λ (kind : VerdictKind) (c : ℕ). field_verdict "published_date" declared observed kind c in
      if not (text_eq decl_year obs_year)
      then (if m == n + 1 || n == m + 1
          then result confirmed 80
          else record (result mismatch 90) { requires_review = true })
      else result confirmed 90
  compare_years declared observed _ _ =
      field_verdict "published_date" declared observed ambiguous 40

  -- `verify_published_date`
  unfoldable pub verify_published_date : Value F → Value F → Option Text → FieldVerdict F
  verify_published_date declared observed page_range =
      if is_none declared && is_none observed
      then field_verdict "published_date" null null ambiguous 0
      else if is_none declared && truthy py observed
      then record (field_verdict "published_date" null observed missing 85) {
        evidence = evidence_span "copyright_page" (to_text py observed) page_range 85 ∷ [];
      }
      else if truthy py declared && is_none observed
      then field_verdict "published_date" declared null ambiguous 50
      else compare_years declared observed (date_year (strip (to_text py declared)))
          (date_year (strip (to_text py observed)))

  -- `verify_language`
  unfoldable pub verify_language : Value F → Value F → Option Text → FieldVerdict F
  verify_language declared observed page_range =
      let norm_decl = py.lower (strip (to_text py declared)) in
      let norm_obs = py.lower (strip (to_text py observed)) in
      if is_none declared && is_none observed
      then field_verdict "language" null null ambiguous 0
      else if is_none declared && truthy py observed
      then record (field_verdict "language" null observed missing 90) {
        evidence = evidence_span "body_sample" (to_text py observed) page_range 90 ∷ [];
      }
      else if truthy py declared && is_none observed
      then field_verdict "language" declared null ambiguous 50
      else if text_eq norm_decl norm_obs
      then field_verdict "language" declared observed confirmed 99
      else field_verdict "language" declared observed mismatch 90

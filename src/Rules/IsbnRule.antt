-- ===== src/Rules/IsbnRule.antt =====
-- `verify_isbn` of src/calibre_ai_auditor/verification/rules.py and its helpers. `none` stands for the
-- ValueError of `int(c)`.
pub mod Forms
pub mod Verdicts
pub mod Conversion
use calibre_bookwarden.Prelude.{
  ℕ, ◌+◌, ◌-◌, ◌*◌, ◌%◌, Bool, true, false, not, ◌&&◌, Option, none, some, [], ◌∷◌, ◌++◌, ◌==◌,
  length, take, codes, text_eq, is_nonempty, if◌then◌else◌,
}
use calibre_bookwarden.Isbn.{isbn10_checksum_valid, isbn13_checksum_valid, weight_13}
use calibre_bookwarden.Verdict.{
  Text, Value, null, text, VerdictKind, confirmed, mismatch, missing, ambiguous, FieldVerdict,
}
use calibre_bookwarden.Rules.{
  Python, truthy, to_text, drop_separators, field_verdict, evidence_span,
}

-- `_isbn_is_valid`
unfoldable pub isbn_is_valid : Text → Bool
isbn_is_valid s =
    let t = drop_separators s in
    if length t == 13
    then isbn13_checksum_valid t
    else if length t == 10
    then isbn10_checksum_valid t
    else false

-- `_is_isbn10`
unfoldable pub is_isbn10 : Text → Bool
is_isbn10 s = length (drop_separators s) == 10

module _ {F : Type 0} (py : Python F) where
  -- `sum(int(c) * (1 if i % 2 == 0 else 3) for i, c in enumerate(s))`, from index `i` on
  unfoldable pub decimal_sum : ℕ → Text → Option ℕ
  decimal_sum i [] = some 0
  decimal_sum i (c ∷ s) =
      let rest = decimal_sum (i + 1) s in
      elim (py.decimal c) [
        | none ↦ none
        | some d ↦ elim rest [ none ↦ none | some total ↦ some (d * weight_13 i + total) ]
      ]

  -- `_isbn13_from_isbn10`
  unfoldable pub isbn13_from_isbn10 : Text → Option Text
  isbn13_from_isbn10 s =
      let body = codes "978" ++ take 9 s in
      elim (decimal_sum 0 body) [
        | none ↦ none
        | some total ↦ some (body ++ (b'0' + (10 - total % 10) % 10) ∷ [])
      ]

  -- `_isbn13_from_isbn10(a) == b`
  unfoldable pub converts_to : Text → Text → Option Bool
  converts_to a b = elim (isbn13_from_isbn10 a) [
    | none ↦ none
    | some converted ↦ some (text_eq converted b)
  ]

  -- The condition and the comparison of a cross-format check, of an ISBN-10 `a` and an ISBN-13 `b`.
  unfoldable pub cross_format : Text → Text → Bool → Option Bool
  cross_format a b b_valid =
      if is_isbn10 a && (length b == 13 && b_valid) then converts_to a b else some false

  -- `re.sub(r"[\s-]", "", str(v)) if v else None`, with the empty text for None.
  unfoldable pub clean_value : Value F → Text
  clean_value v = if truthy py v then drop_separators (to_text py v) else []

  -- The verdicts after the two cross-format checks.
  abbrev pub isbn_conflict : Text → Text → Bool → Bool → Option Text → FieldVerdict F
  isbn_conflict d o decl_valid obs_valid page_range =
      let result =
        λ (kind : VerdictKind) (n : ℕ). field_verdict {F = F} "isbn" (text d) (text o) kind n in
      if decl_valid && obs_valid
      then record (result mismatch 98) {
        risk_flags = "isbn_conflict" ∷ [];
        evidence = evidence_span "isbn_block" o page_range 98 ∷ [];
        requires_review = true;
      }
      else if obs_valid && not decl_valid
      then record (result mismatch 92) { risk_flags = "isbn_conflict" ∷ []; requires_review = true }
      else if decl_valid && not obs_valid
      then record (result mismatch 88) { risk_flags = "isbn_conflict" ∷ []; requires_review = true }
      else result ambiguous 40

  -- `verify_isbn` on two non-empty texts
  unfoldable pub compare_isbn : Text → Text → Option Text → Option (FieldVerdict F)
  compare_isbn d o page_range =
      let decl_valid = isbn_is_valid d in
      let obs_valid = isbn_is_valid o in
      let result =
        λ (kind : VerdictKind) (n : ℕ). field_verdict {F = F} "isbn" (text d) (text o) kind n in
      if not decl_valid && not obs_valid
      then some (result ambiguous 30)
      else if text_eq d o
      then some (result confirmed 99)
      else elim (cross_format d o obs_valid) [
        | none ↦ none
        | some true ↦ some (result confirmed 90)
        | some false ↦ elim (cross_format o d decl_valid) [
          | none ↦ none
          | some true ↦ some (result confirmed 90)
          | some false ↦ some (isbn_conflict d o decl_valid obs_valid page_range)
        ]
      ]

  -- `verify_isbn`
  unfoldable pub verify_isbn : Value F → Value F → Option Text → Option (FieldVerdict F)
  verify_isbn declared observed page_range =
      let d = clean_value declared in
      let o = clean_value observed in
      if not (is_nonempty d) && not (is_nonempty o)
      then some (field_verdict "isbn" null null ambiguous 0)
      else if not (is_nonempty d) && is_nonempty o
      then some (
          if isbn_is_valid o
          then record (field_verdict "isbn" null (text o) missing 95) {
            evidence = evidence_span "isbn_block" o page_range 95 ∷ [];
          }
          else field_verdict "isbn" null (text o) ambiguous 40)
      else if is_nonempty d && not (is_nonempty o)
      then some (field_verdict "isbn" (text d) null ambiguous 50)
      else compare_isbn d o page_range

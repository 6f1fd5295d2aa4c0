-- ===== src/Rules/Shape.antt =====
-- What the verdicts of the rules of src/calibre_ai_auditor/verification/rules.py have in common.
use mathlib.Core.Path.{subst}
use mathlib.Core.Option.{some-injective}
use calibre_bookwarden.Prelude.{
  ◌≤◌, ◌≡◌, refl, Bool, true, false, ◌||◌, Option, some, is_nonempty, arith,
}
use calibre_bookwarden.Verdict.{Text, Value, mismatch, FieldVerdict}
use calibre_bookwarden.Engine.{is_patched}
use calibre_bookwarden.Rules.{Python, is_none, truthy, coerce_number}
use calibre_bookwarden.Rules.IsbnRule.{verify_isbn, compare_isbn}
use calibre_bookwarden.Rules.Publication.{verify_publisher, verify_published_date, verify_language}
use calibre_bookwarden.Rules.Series.{verify_series, verify_series_index}
use calibre_bookwarden.Rules.Numbers.{verify_volume, verify_chapter, verify_series_position}

-- The keys of `RULE_REGISTRY`, less the rules of title and authors.
pub data RuleName : Type 0 where
  isbn publisher published_date language series : RuleName
  series_index volume chapter series_position : RuleName

module _ {F : Type 0} where
  -- The call of a rule in `ContentVerificationEngine.verify`; `none` if the rule raises.
  unfoldable pub apply_rule :
      Python F → RuleName → Value F → Value F → Option Text → Bool → Option (FieldVerdict F)
  apply_rule py isbn declared observed p any = verify_isbn py declared observed p
  apply_rule py publisher declared observed p any = some (verify_publisher py declared observed p)
  apply_rule py published_date declared observed p any =
      some (verify_published_date py declared observed p)
  apply_rule py language declared observed p any = some (verify_language py declared observed p)
  apply_rule py series declared observed p any = some (verify_series py declared observed p any)
  apply_rule py series_index declared observed p any =
      some (verify_series_index py declared observed p)
  apply_rule py volume declared observed p any = verify_volume py declared observed p
  apply_rule py chapter declared observed p any = some (verify_chapter py declared observed p)
  apply_rule py series_position declared observed p any =
      some (verify_series_position py declared observed p)

  -- A verdict that the engine can rely on: a percentage for its confidence, review and a
  -- `mismatch` behind every risk flag, and a value behind every change that needs no review.
  pub record IsSound (fv : FieldVerdict F) : Type 0 where
    pub percentage : fv.confidence ≤ 100
    pub flagged :
        is_nonempty fv.risk_flags ≡ true → (fv.requires_review ≡ true) × (fv.verdict ≡ mismatch)
    pub has_value :
        is_patched fv ≡ true → fv.requires_review ≡ false → is_none fv.observed_value ≡ false

  of_some : {a b : FieldVerdict F} → some a ≡ some b → IsSound a → IsSound b
  of_some {a} {b} e h = subst IsSound (some-injective a b e) h

  module _ (py : Python F) where
    publisher-IsSound :
        (declared observed : Value F) (p : Option Text)
        → IsSound (verify_publisher py declared observed p)
    unfolding verify_publisher
    publisher-IsSound declared observed p = record {
      percentage = ground arith;
      flagged = λ h. ground arith;
      has_value = λ h k. ground arith;
    }

    series_index-IsSound :
        (declared observed : Value F) (p : Option Text)
        → IsSound (verify_series_index py declared observed p)
    unfolding verify_series_index
    series_index-IsSound declared observed p = record {
      percentage = ground arith;
      flagged = λ h. ground arith;
      has_value = λ h k. ground arith;
    }

    chapter-IsSound :
        (declared observed : Value F) (p : Option Text)
        → IsSound (verify_chapter py declared observed p)
    unfolding verify_chapter coerce_number
    chapter-IsSound declared observed p = record {
      percentage = ground arith;
      flagged = λ h. ground arith;
      has_value = λ h k. ground arith;
    }

    series_position-IsSound :
        (declared observed : Value F) (p : Option Text)
        → IsSound (verify_series_position py declared observed p)
    unfolding verify_series_position coerce_number
    series_position-IsSound declared observed p = record {
      percentage = ground arith;
      flagged = λ h. ground arith;
      has_value = λ h k. ground arith;
    }

    published_date-IsSound :
        (declared observed : Value F) (p : Option Text)
        → IsSound (verify_published_date py declared observed p)
    unfolding verify_published_date
    published_date-IsSound declared observed p = record {
      percentage = ground arith;
      flagged = λ h. ground arith;
      has_value = λ h k. ground arith;
    }

    series-IsSound :
        (declared observed : Value F) (p : Option Text) (observed_any : Bool)
        → IsSound (verify_series py declared observed p observed_any)
    unfolding verify_series
    series-IsSound declared observed p observed_any = record {
      percentage = ground arith;
      flagged = λ h. ground arith;
      has_value = λ h k. ground arith;
    }

    language-IsSound :
        (declared observed : Value F) (p : Option Text)
        → (is_none declared || truthy py declared) ≡ true
        → IsSound (verify_language py declared observed p)
    unfolding verify_language
    language-IsSound declared observed p said = record {
      percentage = ground arith;
      flagged = λ h. ground arith;
      has_value = λ h k. ground arith;
    }

    volume-IsSound :
        (declared observed : Value F) (p : Option Text) {fv : FieldVerdict F}
        → verify_volume py declared observed p ≡ some fv
        → IsSound fv
    unfolding verify_volume coerce_number
    volume-IsSound declared observed p e = record {
      percentage = ground arith;
      flagged = λ h. ground arith;
      has_value = λ h k. ground arith;
    }

    isbn-IsSound :
        (declared observed : Value F) (p : Option Text) {fv : FieldVerdict F}
        → verify_isbn py declared observed p ≡ some fv
        → IsSound fv
    unfolding verify_isbn compare_isbn
    isbn-IsSound declared observed p e = record {
      percentage = ground arith;
      flagged = λ h. ground arith;
      has_value = λ h k. ground arith;
    }

    -- Whatever verdict a rule gives, its confidence is at most 100, a risk flag on it comes with a
    -- mismatch and a request for review, and a change that it proposes without such a request has
    -- a value to write, provided that a declared language is not a blank value other than None.
    pub apply_rule-IsSound :
        (rule : RuleName) (declared observed : Value F) (p : Option Text) (observed_any : Bool)
        {fv : FieldVerdict F}
        → (rule ≡ language → (is_none declared || truthy py declared) ≡ true)
        → apply_rule py rule declared observed p observed_any ≡ some fv
        → IsSound fv
    unfolding apply_rule
    apply_rule-IsSound isbn declared observed p any said e = isbn-IsSound declared observed p e
    apply_rule-IsSound publisher declared observed p any said e =
        of_some e (publisher-IsSound declared observed p)
    apply_rule-IsSound published_date declared observed p any said e =
        of_some e (published_date-IsSound declared observed p)
    apply_rule-IsSound language declared observed p any said e =
        of_some e (language-IsSound declared observed p (said refl))
    apply_rule-IsSound series declared observed p any said e =
        of_some e (series-IsSound declared observed p any)
    apply_rule-IsSound series_index declared observed p any said e =
        of_some e (series_index-IsSound declared observed p)
    apply_rule-IsSound volume declared observed p any said e = volume-IsSound declared observed p e
    apply_rule-IsSound chapter declared observed p any said e =
        of_some e (chapter-IsSound declared observed p)
    apply_rule-IsSound series_position declared observed p any said e =
        of_some e (series_position-IsSound declared observed p)

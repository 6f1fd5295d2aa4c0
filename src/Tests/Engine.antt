-- ===== src/Tests/Engine.antt =====
-- A book whose publisher is missing and whose language is confirmed.
use calibre_bookwarden.Prelude.{
  ◌<◌, ◌+◌, ◌*◌, ◌⊎◌, length, ℕ, ◌≤◌, ◌≡◌, ◌↔◌, refl, false, [], ◌∷◌, any, codes,
}
use calibre_bookwarden.Prelude.Dict.{Dict, lookup, values}
use calibre_bookwarden.Verdict.{text, null, confirmed, missing, no_change, FieldVerdict}
use calibre_bookwarden.Rules.{field_verdict}
use calibre_bookwarden.Engine.{Engine, sum, aggregate, is_patched, is_eligible}
use calibre_bookwarden.Engine.Tallies.{is_undecided}
use calibre_bookwarden.Engine.Gate.{
  NodupKeys, patch_entry, at_risk, is_eligible-aggregate, no_change_iff, lookup-proposed_patch,
  overall-mean, counted,
}

abbrev standard : Engine
standard = record { auto_apply_min_overall = 80; auto_apply_min_field = 75 }

abbrev book : Dict (FieldVerdict ℕ)
book =
    ("publisher", field_verdict "publisher" null (text (codes "Harper")) missing 80)
    ∷ ("language", field_verdict "language" (text (codes "eng")) (text (codes "eng")) confirmed 99)
    ∷ []

is_eligible-aggregate_example :
    is_eligible false (aggregate standard "b" "r" book)
    ≡ (aggregate standard "b" "r" book).auto_apply_eligible
is_eligible-aggregate_example = is_eligible-aggregate standard "b" "r" book false

no_change_iff_example : ((aggregate standard "b" "r" book).action ≡ no_change) ↔ (
    (at_risk (values book) ≡ false)
    × (any is_undecided (values book) ≡ false)
    × (any is_patched (values book) ≡ false))
no_change_iff_example = no_change_iff standard "b" "r" book

book-NodupKeys : NodupKeys book
unfolding lookup
book-NodupKeys = (refl, (refl, tt))

lookup-proposed_patch_example :
    lookup "publisher" (aggregate standard "b" "r" book).proposed_patch
    ≡ patch_entry (lookup "publisher" book)
lookup-proposed_patch_example =
    lookup-proposed_patch standard "b" "r" book "publisher" book-NodupKeys

overall-mean_example :
    ((counted book ≡ []) × ((aggregate standard "b" "r" book).overall_confidence ≡ 0))
    ⊎ (((aggregate standard "b" "r" book).overall_confidence * length (counted book)
          ≤ sum (counted book))
        × (sum (counted book)
            < ((aggregate standard "b" "r" book).overall_confidence + 1) * length (counted book)))
overall-mean_example = overall-mean standard "b" "r" book

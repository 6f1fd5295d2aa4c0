-- ===== src/Engine/Tallies.antt =====
-- What the aggregation loop of engine.py leaves in each of its variables.
use calibre_bookwarden.Prelude.{
  ℕ, ◌≡◌, sym, String, Bool, not, ◌&&◌, ◌||◌, List, [], ◌∷◌, ◌++◌, any, is_nonempty, if◌then◌else◌,
  arith,
}
use mathlib.Core.List.{append-nil, append_assoc}
use calibre_bookwarden.Prelude.Sets.{set_update, any-set_update}
use calibre_bookwarden.Prelude.Dict.{Dict, insert, values}
use calibre_bookwarden.Verdict.{FieldVerdict, is_high_risk, has_high_risk}
use calibre_bookwarden.Engine.{is_decided, is_silent, is_patched, Totals, tally, tally_all}

-- An ambiguous field that had data.
abbrev pub is_undecided : {F : Type 0} → FieldVerdict F → Bool
is_undecided fv = not (is_decided fv.verdict) && not (is_silent fv)

module _ {F : Type 0} where
  pub flags-tally :
      (name : String) (fv : FieldVerdict F) (t : Totals F)
      → (tally name fv t).risk_flags ≡ set_update t.risk_flags fv.risk_flags
  unfolding tally
  flags-tally name fv t = ground arith

  pub tally-flags :
      (fvs : Dict (FieldVerdict F)) (t : Totals F)
      → has_high_risk (tally_all fvs t).risk_flags ≡ (
          has_high_risk t.risk_flags
          || any (λ (fv : FieldVerdict F). has_high_risk fv.risk_flags) (values fvs))
  unfolding tally_all has_high_risk values
  tally-flags [] t = ground arith
  tally-flags ((name, fv) ∷ fvs) t = ground (
    arith,
    tally-flags fvs (tally name fv t),
    flags-tally name fv t,
    any-set_update is_high_risk t.risk_flags fv.risk_flags,
  )

  -- The confidences of the decided fields.
  abbrev pub confidences_of : List (FieldVerdict F) → List ℕ
  confidences_of [] = []
  confidences_of (fv ∷ fvs) =
      let rest = confidences_of fvs in if is_decided fv.verdict then fv.confidence ∷ rest else rest

  pub tally-undecided :
      (fvs : Dict (FieldVerdict F)) (t : Totals F)
      → (tally_all fvs t).any_real_ambiguous
        ≡ (t.any_real_ambiguous || any is_undecided (values fvs))
  unfolding tally_all tally values
  tally-undecided [] t = ground arith
  tally-undecided ((name, fv) ∷ fvs) t = ground (arith, tally-undecided fvs (tally name fv t))

  pub tally-confidences :
      (fvs : Dict (FieldVerdict F)) (t : Totals F)
      → (tally_all fvs t).confidences ≡ t.confidences ++ confidences_of (values fvs)
  unfolding tally_all tally values
  tally-confidences [] t = sym (append-nil t.confidences)
  tally-confidences ((name, fv) ∷ fvs) t = ground (
    arith,
    tally-confidences fvs (tally name fv t),
    append_assoc t.confidences (fv.confidence ∷ []) (confidences_of (values fvs)),
  )

  pub tally-patch :
      (fvs : Dict (FieldVerdict F)) (t : Totals F)
      → is_nonempty (tally_all fvs t).proposed_patch
        ≡ (is_nonempty t.proposed_patch || any is_patched (values fvs))
  unfolding tally_all tally values insert
  tally-patch [] t = ground arith
  tally-patch ((name, fv) ∷ fvs) t = ground (arith, tally-patch fvs (tally name fv t))

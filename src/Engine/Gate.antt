-- ===== src/Engine/Gate.antt =====
-- The auto-apply gates against a declarative specification, and what the engine's action says.
use calibre_bookwarden.Prelude.{
  ◌+◌, ◌<◌, ◌⊎◌, ℕ, ◌*◌, ◌≤◌, ◌≡◌, ◌↔◌, refl, String, Bool, true, false, not, ◌&&◌, Option, none,
  some, inl, inr, leb, List, [], ◌∷◌, map, str_eq, eq_iff, any, all, keep, All, length, is_nonempty,
  if◌then◌else◌, arith,
}
use calibre_bookwarden.Prelude.Sets.{any-sorted}
use calibre_bookwarden.Prelude.Dict.{Dict, lookup, values, lookup-insert}
use calibre_bookwarden.Verdict.{
  ambiguous, confirmed, mismatch, missing, Value, no_change, needs_review, FieldVerdict,
  has_high_risk, is_high_risk,
}
use calibre_bookwarden.Engine.{
  Engine, sum, mean, is_decided, is_patched, is_confirmed, fields_pass, Totals, tally, tally_all,
  no_totals, decide_action, is_auto_apply_eligible, aggregate, is_eligible,
}
use calibre_bookwarden.Engine.Tallies.{
  is_undecided, tally-flags, confidences_of, tally-undecided, tally-confidences, tally-patch,
}

-- The mean of some numbers, rounded down: the one whose multiple by their count is at most the sum
-- and whose successor's is more.
mean-cases :
    (xs : List ℕ)
    → ((xs ≡ []) × (mean xs ≡ 0))
      ⊎ ((mean xs * length xs ≤ sum xs) × (sum xs < (mean xs + 1) * length xs))
unfolding mean sum
mean-cases [] = inl (refl, refl)
mean-cases (x ∷ xs) = inr (grind arith)

module _ {F : Type 0} where
  abbrev pub at_risk : List (FieldVerdict F) → Bool
  at_risk fvs = any (λ (fv : FieldVerdict F). has_high_risk fv.risk_flags) fvs

  abbrev patched_confidences : List (FieldVerdict F) → List ℕ
  patched_confidences fvs = map (λ (fv : FieldVerdict F). fv.confidence) (keep is_patched fvs)

  -- What one field must satisfy for its book to be changed without review.
  pub record FieldPasses (min_field : ℕ) (fv : FieldVerdict F) : Type 0 where
    pub no_risk : has_high_risk fv.risk_flags ≡ false
    pub decided : is_undecided fv ≡ false
    pub confident : is_patched fv ≡ true → min_field ≤ fv.confidence
    pub not_held : is_patched fv ≡ true → fv.requires_review ≡ false

  -- The specification of the auto-apply gate on the field verdicts of a book.
  pub record AutoApplies (engine : Engine) (fvs : List (FieldVerdict F)) : Type 0 where
    pub each : All (FieldPasses engine.auto_apply_min_field) fvs
    pub patches : any is_patched fvs ≡ true
    pub overall : 85 ≤ mean (confidences_of fvs)
    pub patched : engine.auto_apply_min_overall ≤ mean (patched_confidences fvs)

  nonempty-keep :
      (fvs : List (FieldVerdict F)) → is_nonempty (keep is_patched fvs) ≡ any is_patched fvs
  nonempty-keep [] = refl
  nonempty-keep (fv ∷ fvs) = ground (arith, nonempty-keep fvs)

  -- The Boolean form of the fields' conditions.
  passes : ℕ → List (FieldVerdict F) → Bool
  passes m fvs =
      not (at_risk fvs) && (not (any is_undecided fvs) && fields_pass m (keep is_patched fvs))

  -- Without a high-risk flag or an undecided field, the decided fields are all confirmed exactly
  -- if none is patched.
  all-confirmed :
      (fvs : List (FieldVerdict F))
      → all
          (λ (fv : FieldVerdict F). is_confirmed fv.verdict)
          (keep (λ (fv : FieldVerdict F). is_decided fv.verdict) fvs)
        ≡ not (any is_patched fvs)
  all-confirmed [] = refl
  all-confirmed (fv ∷ fvs) = ground (arith, all-confirmed fvs)

  none-decided :
      (fvs : List (FieldVerdict F))
      → is_nonempty (keep (λ (fv : FieldVerdict F). is_decided fv.verdict) fvs) ≡ false
      → any is_patched fvs ≡ false
  none-decided [] h = refl
  none-decided (fv ∷ fvs) h = ground (arith, none-decided fvs)

  -- The two decisions together, as one conjunction.
  gate-eq :
      (engine : Engine) (fvs : List (FieldVerdict F)) (flags : List String) (overall : ℕ)
      (amb : Bool)
      → is_auto_apply_eligible engine (decide_action fvs flags overall amb) fvs flags amb ≡ (
          not (has_high_risk flags)
          && (not amb
              && (any is_patched fvs
                  && (leb 85 overall
                      && (leb engine.auto_apply_min_overall (mean (patched_confidences fvs))
                          && fields_pass engine.auto_apply_min_field (keep is_patched fvs))))))
  unfolding decide_action is_auto_apply_eligible
  gate-eq engine fvs flags overall amb =
      ground (arith, nonempty-keep fvs, all-confirmed fvs, none-decided fvs)

  module _ (engine : Engine) (book_key run_id : String) (fvs : Dict (FieldVerdict F)) where
    -- The flags, the undecided test and the confidences that the loop hands on.
    risk-eq : has_high_risk (tally_all fvs no_totals).risk_flags ≡ at_risk (values fvs)
    unfolding has_high_risk
    risk-eq = tally-flags fvs no_totals

    -- For a verdict of the engine the second gate agrees with the first, whatever its setting.
    pub is_eligible-aggregate :
        (allow : Bool)
        → is_eligible allow (aggregate engine book_key run_id fvs)
          ≡ (aggregate engine book_key run_id fvs).auto_apply_eligible
    unfolding is_eligible aggregate has_high_risk
    is_eligible-aggregate allow =
        let vs = values fvs in
        let t = tally_all fvs no_totals in
        ground (
          arith,
          gate-eq engine vs t.risk_flags (mean t.confidences) t.any_real_ambiguous,
          any-sorted is_high_risk t.risk_flags,
          tally-patch fvs no_totals,
        )

    -- The engine reports that nothing needs to change exactly if no field carries a high-risk flag,
    -- none is undecided and none is patched.
    pub no_change_iff : ((aggregate engine book_key run_id fvs).action ≡ no_change) ↔ (
        (at_risk (values fvs) ≡ false)
        × (any is_undecided (values fvs) ≡ false)
        × (any is_patched (values fvs) ≡ false))
    unfolding aggregate decide_action
    no_change_iff =
        let vs = values fvs in
        ground (arith, risk-eq, tally-undecided fvs no_totals, all-confirmed vs, none-decided vs)

    -- A high-risk flag on any field, decided or not, makes the engine ask for a review.
    high_risk-review :
        at_risk (values fvs) ≡ true → (aggregate engine book_key run_id fvs).action ≡ needs_review
    unfolding aggregate decide_action
    high_risk-review h = ground (arith, risk-eq)

  -- The field names of a dict are distinct.
  abbrev pub NodupKeys : Dict (FieldVerdict F) → Type 0
  NodupKeys [] = Unit
  NodupKeys ((name, fv) ∷ fvs) = (lookup name fvs ≡ none) × NodupKeys fvs

  -- What the patch holds for a field with this verdict.
  abbrev pub patch_entry : Option (FieldVerdict F) → Option (Value F)
  patch_entry none = none
  patch_entry (some fv) = if is_patched fv then some fv.observed_value else none

  or_else : Option (Value F) → Option (Value F) → Option (Value F)
  or_else (some v) o = some v
  or_else none o = o

  patch-tally :
      (name j : String) (fv : FieldVerdict F) (t : Totals F)
      → lookup j (tally name fv t).proposed_patch ≡ (
          if str_eq name j && is_patched fv
          then some fv.observed_value
          else lookup j t.proposed_patch)
  unfolding tally
  patch-tally name j fv t = ground (arith, lookup-insert name j fv.observed_value t.proposed_patch)

  lookup-tally_all :
      (j : String) (fvs : Dict (FieldVerdict F)) (t : Totals F)
      → NodupKeys fvs
      → lookup j (tally_all fvs t).proposed_patch
        ≡ or_else (patch_entry (lookup j fvs)) (lookup j t.proposed_patch)
  unfolding tally_all lookup or_else
  lookup-tally_all j [] t h = refl
  lookup-tally_all j ((name, fv) ∷ fvs) t (fresh, h) =
      ground
        (arith, lookup-tally_all j fvs (tally name fv t) h, patch-tally name j fv t, eq_iff name j)

  -- If no two verdicts have the same field name, the proposed patch holds for each name the
  -- observed value of that field's verdict if it is a mismatch or a missing value, and nothing
  -- otherwise.
  pub lookup-proposed_patch :
      (engine : Engine) (book_key run_id : String) (fvs : Dict (FieldVerdict F)) (j : String)
      → NodupKeys fvs
      → lookup j (aggregate engine book_key run_id fvs).proposed_patch ≡ patch_entry (lookup j fvs)
  unfolding aggregate lookup or_else
  lookup-proposed_patch engine book_key run_id fvs j h =
      ground (arith, lookup-tally_all j fvs no_totals h)

  -- The verdicts that are not ambiguous.
  abbrev is_clear : FieldVerdict F → Bool
  is_clear fv = elim fv.verdict [
    | ambiguous ↦ false
    | confirmed ↦ true
    | mismatch ↦ true
    | missing ↦ true
  ]

  abbrev pub counted : Dict (FieldVerdict F) → List ℕ
  counted fvs = map (λ (fv : FieldVerdict F). fv.confidence) (keep is_clear (values fvs))

  confidences-counted :
      (fvs : List (FieldVerdict F))
      → confidences_of fvs ≡ map (λ (fv : FieldVerdict F). fv.confidence) (keep is_clear fvs)
  confidences-counted [] = refl
  confidences-counted (fv ∷ fvs) = ground (arith, confidences-counted fvs)

  -- The overall confidence of a book is the mean, rounded down, of the confidences of the fields
  -- with another verdict than ambiguous, and 0 where there is no such field.
  pub overall-mean :
      (engine : Engine) (book_key run_id : String) (fvs : Dict (FieldVerdict F))
      → let overall = (aggregate engine book_key run_id fvs).overall_confidence in
        let xs = counted fvs in
        ((xs ≡ []) × (overall ≡ 0))
        ⊎ ((overall * length xs ≤ sum xs) × (sum xs < (overall + 1) * length xs))
  unfolding aggregate
  overall-mean engine book_key run_id fvs =
      rw (tally-confidences fvs no_totals, confidences-counted (values fvs))
        (mean-cases (counted fvs))

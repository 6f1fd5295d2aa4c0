-- ===== src/Engine.antt =====
-- The aggregation of field verdicts into a book verdict, and the auto-apply gates:
-- ContentVerificationEngine of src/calibre_ai_auditor/verification/engine.py and
-- ConservativeAutoApply of src/calibre_ai_auditor/verification/restore.py.
pub mod Tallies
pub mod Gate
use calibre_bookwarden.Prelude.Sets.{set_update, sorted}
use calibre_bookwarden.Prelude.{
  ℕ, zero, suc, ◌+◌, ◌/◌, String, Bool, true, false, not, ◌&&◌, ◌||◌, Option, none, some, List, [],
  ◌∷◌, ◌++◌, map, leb, ltb, str_in, any, all, keep, length, is_nonempty, if◌then◌else◌, string_le,
}
use calibre_bookwarden.Prelude.Dict.{Dict, insert, values}
use calibre_bookwarden.Verdict.{
  Value, null, text, number, texts, VerdictKind, confirmed, mismatch, missing, ambiguous,
  VerdictAction, no_change, suggest_fix, needs_review, defer, FieldVerdict, BookVerdict,
  has_high_risk,
}

-- The thresholds that `__init__` keeps.
pub record Engine : Type 0 where
  pub auto_apply_min_overall : ℕ
  pub auto_apply_min_field : ℕ

-- `sum(xs)`
unfoldable pub sum : List ℕ → ℕ
sum [] = 0
sum (x ∷ xs) = x + sum xs

-- `int(sum(xs) / len(xs)) if xs else 0`
unfoldable pub mean : List ℕ → ℕ
unfolding sum
mean [] = 0
mean (x ∷ xs) = sum (x ∷ xs) / length (x ∷ xs)

-- `fv.verdict in (VerdictKind.confirmed, VerdictKind.mismatch, VerdictKind.missing)`
abbrev pub is_decided : VerdictKind → Bool
is_decided ambiguous = false
is_decided _ = true

-- `fv.verdict in (VerdictKind.mismatch, VerdictKind.missing)`
abbrev pub is_proposal : VerdictKind → Bool
is_proposal mismatch = true
is_proposal missing = true
is_proposal _ = false

abbrev pub is_confirmed : VerdictKind → Bool
is_confirmed confirmed = true
is_confirmed _ = false

abbrev pub is_suggest_fix : VerdictAction → Bool
is_suggest_fix suggest_fix = true
is_suggest_fix _ = false

-- The variables of the aggregation loop.
pub record Totals (F : Type 0) : Type 0 where
  pub risk_flags : List String
  pub confidences : List ℕ
  pub any_real_ambiguous : Bool
  pub any_declared_ambiguous : Bool
  pub any_mismatch_with_risk : Bool
  pub proposed_patch : Dict (Value F)

module _ {F : Type 0} where
  -- `x is None or (isinstance(x, (list, str)) and not x)`
  abbrev pub is_blank : Value F → Bool
  is_blank null = true
  is_blank (text []) = true
  is_blank (texts []) = true
  is_blank _ = false

  abbrev pub is_patched : FieldVerdict F → Bool
  is_patched fv = is_proposal fv.verdict

  -- Nothing declared and nothing observed.
  abbrev pub is_silent : FieldVerdict F → Bool
  is_silent fv = is_blank fv.declared_value && is_blank fv.observed_value

  abbrev pub no_totals : Totals F
  no_totals = record {
    risk_flags = [];
    confidences = [];
    any_real_ambiguous = false;
    any_declared_ambiguous = false;
    any_mismatch_with_risk = false;
    proposed_patch = [];
  }

  -- The first two statements of the loop's body, on the flags.
  abbrev pub tally_flags : FieldVerdict F → Totals F → Totals F
  tally_flags fv t = record t {
    risk_flags = set_update t.risk_flags fv.risk_flags;
    any_mismatch_with_risk =
        if fv.requires_review && has_high_risk fv.risk_flags
        then true
        else t.any_mismatch_with_risk;
  }

  -- The rest of the body, by the verdict; an ambiguous field with no data is passed over.
  abbrev pub tally_kind : String → FieldVerdict F → VerdictKind → Totals F → Totals F
  tally_kind name fv ambiguous t =
      if is_silent fv
      then record t { any_declared_ambiguous = true }
      else record t { any_real_ambiguous = true }
  tally_kind name fv confirmed t = record t { confidences = t.confidences ++ fv.confidence ∷ [] }
  tally_kind name fv mismatch t = record t {
    confidences = t.confidences ++ fv.confidence ∷ [];
    proposed_patch = insert name fv.observed_value t.proposed_patch;
  }
  tally_kind name fv missing t = record t {
    confidences = t.confidences ++ fv.confidence ∷ [];
    proposed_patch = insert name fv.observed_value t.proposed_patch;
  }

  unfoldable pub tally : String → FieldVerdict F → Totals F → Totals F
  tally name fv t = tally_kind name fv fv.verdict (tally_flags fv t)

  -- `for fname, fv in field_verdicts.items()`
  unfoldable pub tally_all : Dict (FieldVerdict F) → Totals F → Totals F
  tally_all [] t = t
  tally_all ((name, fv) ∷ fvs) t = tally_all fvs (tally name fv t)

  -- `_decide_action`
  unfoldable pub decide_action : List (FieldVerdict F) → List String → ℕ → Bool → VerdictAction
  decide_action fvs risk_flags overall_confidence any_ambiguous =
      let decided = keep (λ (fv : FieldVerdict F). is_decided fv.verdict) fvs in
      if has_high_risk risk_flags
      then needs_review
      else if any_ambiguous
      then needs_review
      else if not (is_nonempty decided)
      then no_change
      else if all (λ (fv : FieldVerdict F). is_confirmed fv.verdict) decided
      then no_change
      else if leb 85 overall_confidence
      then suggest_fix
      else if leb 70 overall_confidence
      then needs_review
      else defer

  -- The loop over the patched fields at the end of `_is_auto_apply_eligible`.
  abbrev pub fields_pass : ℕ → List (FieldVerdict F) → Bool
  fields_pass min_field [] = true
  fields_pass min_field (fv ∷ fvs) =
      let rest = fields_pass min_field fvs in
      if ltb fv.confidence min_field then false else if fv.requires_review then false else rest

  -- `_is_auto_apply_eligible`
  unfoldable pub is_auto_apply_eligible :
      Engine → VerdictAction → List (FieldVerdict F) → List String → Bool → Bool
  is_auto_apply_eligible engine action fvs risk_flags any_ambiguous =
      let patched = keep is_patched fvs in
      if not (is_suggest_fix action)
      then false
      else if any_ambiguous
      then false
      else if has_high_risk risk_flags
      then false
      else if not (is_nonempty patched)
      then false
      else if ltb (mean (map (λ (fv : FieldVerdict F). fv.confidence) patched))
          engine.auto_apply_min_overall
      then false
      else fields_pass engine.auto_apply_min_field patched

  -- `verify`, from the comment "Aggregate" on.
  pub aggregate : Engine → String → String → Dict (FieldVerdict F) → BookVerdict F
  unfolding tally_all tally decide_action is_auto_apply_eligible mean sorted
  aggregate engine book_key run_id field_verdicts =
      let t = tally_all field_verdicts no_totals in
      let overall = mean t.confidences in
      let action =
        decide_action (values field_verdicts) t.risk_flags overall t.any_real_ambiguous in
      record {
        book_key = book_key;
        run_id = run_id;
        field_verdicts = field_verdicts;
        overall_confidence = overall;
        risk_flags = sorted t.risk_flags;
        action = action;
        auto_apply_eligible =
            is_auto_apply_eligible engine action (values field_verdicts) t.risk_flags
              t.any_real_ambiguous;
        proposed_patch = t.proposed_patch;
      }

  -- `ConservativeAutoApply.is_eligible`, without the text that explains the answer.
  pub is_eligible : Bool → BookVerdict F → Bool
  is_eligible allow_high_risk verdict =
      if not verdict.auto_apply_eligible
      then false
      else if not allow_high_risk
          && (is_nonempty verdict.risk_flags && has_high_risk verdict.risk_flags)
      then false
      else if ltb verdict.overall_confidence 80
      then false
      else if not (is_nonempty verdict.proposed_patch)
      then false
      else true

  -- `filter_eligible`
  pub filter_eligible : Bool → List (BookVerdict F) → List (BookVerdict F)
  unfolding is_eligible
  filter_eligible allow_high_risk verdicts = keep (is_eligible allow_high_risk) verdicts

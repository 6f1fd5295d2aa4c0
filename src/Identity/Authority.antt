-- ===== src/Identity/Authority.antt =====
-- Evidence that is not marked authoritative (among it what an LLM or a vision model says) decides
-- nothing in `resolve_manifestation`.
use mathlib.Core.List
use mathlib.Core.Path.{ap₂}
use calibre_bookwarden.Prelude.{
  ◌≡◌, refl, ◌∙◌, sym, ap, String, Bool, false, ◌||◌, Option, none, some, List, [], ◌∷◌, any, codes,
  keep, keep-keep, any-keep, arith,
}
use calibre_bookwarden.Prelude.Sets.{set_update}
use calibre_bookwarden.Prelude.Dict.{Dict}
use calibre_bookwarden.Verdict.{Text}
use calibre_bookwarden.Identity.{
  Ids, Json, Runtime, IdentityTier, tier_a, FormatEvidence, SourceEvidence, effective_root,
  allowed_patch_fields,
}
use calibre_bookwarden.Identity.Patch.{canonical_patch}
use calibre_bookwarden.Identity.Fields.{is_eligible_item, decide_field}
use calibre_bookwarden.Identity.Support.{
  entry, raw_patch, lookup-raw_patch, resolve_fields-raw, dump_fields-cong,
}
use calibre_bookwarden.Identity.Core.{
  is_external_record, is_internal_record, external_roots, core_step, core_fields,
  external_core_matches, external_core_conflicts, internal_confirmation, external_confirmation,
  is_readable, format_ids,
}
use calibre_bookwarden.Identity.Resolve.{
  ManifestationResolution, promote, confirm, identify, resolve_manifestation,
}

-- The evidence without the items that are not marked authoritative.
abbrev pub authoritative_part : List SourceEvidence → List SourceEvidence
authoritative_part evidence = keep (λ (item : SourceEvidence). item.authoritative) evidence

-- What a resolution decides: its tier, identifiers, risk flags and patch.
abbrev pub outcome :
    Option ManifestationResolution → Option (IdentityTier × Ids × List String × Dict Json)
outcome none = none
outcome (some r) = some (r.tier, r.manifestation_ids, r.risk_flags, r.auto_patch)

module _ (rt : Runtime) where
  external-part :
      (namespace identifier : Text) (evidence : List SourceEvidence)
      → external_confirmation rt namespace identifier (authoritative_part evidence)
        ≡ external_confirmation rt namespace identifier evidence
  unfolding external_confirmation
  external-part namespace identifier evidence =
      any-keep (is_external_record rt namespace identifier)
        (λ (item : SourceEvidence). item.authoritative) evidence (λ item h. ground arith)

  internal-part :
      (namespace identifier : Text) (evidence : List SourceEvidence)
      → internal_confirmation rt namespace identifier (authoritative_part evidence)
        ≡ internal_confirmation rt namespace identifier evidence
  unfolding internal_confirmation
  internal-part namespace identifier evidence =
      any-keep (is_internal_record rt namespace identifier)
        (λ (item : SourceEvidence). item.authoritative) evidence (λ item h. ground arith)

  roots-part :
      (namespace identifier : Text) (evidence : List SourceEvidence)
      → external_roots rt namespace identifier (authoritative_part evidence)
        ≡ external_roots rt namespace identifier evidence
  roots-part namespace identifier evidence =
      ap (λ (l : List SourceEvidence). set_update [] (List.map effective_root l))
        (keep-keep (is_external_record rt namespace identifier)
          (λ (item : SourceEvidence). item.authoritative) evidence (λ item h. ground arith))

  core_step-other :
      (first : FormatEvidence) (root : String) (item : SourceEvidence) (fields : Dict Text)
      → item.authoritative ≡ false
      → core_step rt first root item fields ≡ fields
  unfolding core_step
  core_step-other first root item fields h = ground arith

  core_fields-part :
      (first : FormatEvidence) (root : String) (evidence : List SourceEvidence) (fields : Dict Text)
      → core_fields rt first root (authoritative_part evidence) fields
        ≡ core_fields rt first root evidence fields
  unfolding core_fields
  core_fields-part first root [] fields = refl
  core_fields-part first root (item ∷ evidence) fields = ground (
    arith,
    core_fields-part first root evidence fields,
    core_fields-part first root evidence (core_step rt first root item fields),
    core_step-other first root item fields,
  )

  any-cong {ℓ} :
      {A : Type ℓ} (p q : A → Bool) (xs : List A) → ((x : A) → p x ≡ q x) → any p xs ≡ any q xs
  any-cong p q [] h = refl
  any-cong p q (x ∷ xs) h = ap₂ (λ a b. a || b) (h x) (any-cong p q xs h)

  matches-part :
      (formats : List FormatEvidence) (namespace identifier : Text) (evidence : List SourceEvidence)
      → external_core_matches rt formats (authoritative_part evidence) namespace identifier
        ≡ external_core_matches rt formats evidence namespace identifier
  unfolding external_core_matches
  matches-part [] namespace identifier evidence = refl
  matches-part (first ∷ formats) namespace identifier evidence =
      rw (roots-part namespace identifier evidence) (
        any-cong _ _ (external_roots rt namespace identifier evidence)
          (λ root. rw (core_fields-part first root evidence [])))

  conflicts-part :
      (formats : List FormatEvidence) (namespace identifier : Text) (evidence : List SourceEvidence)
      → external_core_conflicts rt formats (authoritative_part evidence) namespace identifier
        ≡ external_core_conflicts rt formats evidence namespace identifier
  unfolding external_core_conflicts
  conflicts-part [] namespace identifier evidence = refl
  conflicts-part (first ∷ formats) namespace identifier evidence =
      rw (roots-part namespace identifier evidence) (
        any-keep _ (λ (item : SourceEvidence). item.authoritative) evidence
          (λ item h. ground arith))

  entry-part :
      (current : Dict Json) (evidence : List SourceEvidence) (namespace identifier : Text)
      (f : String)
      → entry rt current (authoritative_part evidence) namespace identifier f
        ≡ entry rt current evidence namespace identifier f
  unfolding entry decide_field
  entry-part current evidence namespace identifier f = rw (
    keep-keep (is_eligible_item f namespace identifier)
        (λ (item : SourceEvidence). item.authoritative) evidence (λ item h. ground arith),
    entry,
    decide_field,
  )

  canonical-part :
      (current : Dict Json) (evidence : List SourceEvidence) (namespace identifier : Text)
      → canonical_patch rt (
          raw_patch rt current
            (authoritative_part evidence)
            namespace
            identifier
            allowed_patch_fields)
        ≡ canonical_patch rt
            (raw_patch rt current evidence namespace identifier allowed_patch_fields)
  unfolding canonical_patch
  canonical-part current evidence namespace identifier =
      dump_fields-cong rt allowed_patch_fields _ _ (λ f m. rw (
        lookup-raw_patch rt current (authoritative_part evidence) namespace identifier
            allowed_patch_fields f,
        lookup-raw_patch rt current evidence namespace identifier allowed_patch_fields f,
        entry-part current evidence namespace identifier f,
      ))

  -- The outcome of a promotion, by the validated patch.
  promoted : Text → Option (Dict Json) → Option (IdentityTier × Ids × List String × Dict Json)
  promoted identifier none = none
  promoted identifier (some patch) = some (tier_a, (codes "isbn", identifier) ∷ [], [], patch)

  promote-outcome :
      (formats : List FormatEvidence) (evidence : List SourceEvidence) (current : Dict Json)
      (identifier : Text)
      → outcome (promote rt formats evidence current identifier)
        ≡ promoted identifier (
            canonical_patch rt
              (raw_patch rt current evidence (codes "isbn") identifier allowed_patch_fields))
  unfolding promote promoted
  promote-outcome formats evidence current identifier =
      ground (arith, resolve_fields-raw rt current evidence (codes "isbn") identifier)

  promote-part :
      (formats : List FormatEvidence) (evidence : List SourceEvidence) (current : Dict Json)
      (identifier : Text)
      → outcome (promote rt formats (authoritative_part evidence) current identifier)
        ≡ outcome (promote rt formats evidence current identifier)
  promote-part formats evidence current identifier =
      promote-outcome formats (authoritative_part evidence) current identifier
      ∙ (ap (promoted identifier) (canonical-part current evidence (codes "isbn") identifier)
          ∙ sym (promote-outcome formats evidence current identifier))

  confirm-part :
      (formats : List FormatEvidence) (evidence : List SourceEvidence) (current : Dict Json)
      (usable : List FormatEvidence) (identifier : Text)
      → outcome (confirm rt formats (authoritative_part evidence) current usable identifier)
        ≡ outcome (confirm rt formats evidence current usable identifier)
  unfolding confirm
  confirm-part formats evidence current usable identifier = ground (
    arith,
    internal-part (codes "isbn") identifier evidence,
    external-part (codes "isbn") identifier evidence,
    conflicts-part usable (codes "isbn") identifier evidence,
    matches-part usable (codes "isbn") identifier evidence,
    promote-part formats evidence current identifier,
  )

  identify-part :
      (formats : List FormatEvidence) (evidence : List SourceEvidence) (current : Dict Json)
      (usable : List FormatEvidence) (found : List Text)
      → outcome (identify rt formats (authoritative_part evidence) current usable found)
        ≡ outcome (identify rt formats evidence current usable found)
  unfolding identify
  identify-part formats evidence current usable [] = refl
  identify-part formats evidence current usable (identifier ∷ found) =
      confirm-part formats evidence current usable identifier

  -- Dropping all evidence that is not marked authoritative changes neither the tier nor the
  -- identifiers, the risk flags, the patch or the failure of a resolution.
  pub resolve-authoritative_part :
      (formats : List FormatEvidence) (evidence : List SourceEvidence) (current : Dict Json)
      → outcome (resolve_manifestation rt formats (authoritative_part evidence) current)
        ≡ outcome (resolve_manifestation rt formats evidence current)
  unfolding resolve_manifestation
  resolve-authoritative_part formats evidence current =
      let usable = keep is_readable formats in
      let found = format_ids usable in
      ground (arith, identify-part formats evidence current usable found)

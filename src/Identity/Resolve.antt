-- ===== src/Identity/Resolve.antt =====
-- `resolve_manifestation` of src/calibre_ai_auditor/verification/identity_v2.py: its early returns and
-- its promotion.
use mathlib.Core.List
use calibre_bookwarden.Prelude.{
  String, not, Option, none, some, List, [], ◌∷◌, ◌==◌, keep, length, codes, str_eq, ltb,
  if◌then◌else◌,
}
use calibre_bookwarden.Prelude.Dict.{Dict}
use calibre_bookwarden.Verdict.{Text}
use calibre_bookwarden.Identity.{
  Ids, Json, null, Runtime, IdentityTier, tier_a, tier_b, tier_c, FormatEvidence, SourceEvidence,
  FieldDecision, FieldDecisionStatus, review, blocked,
}
use calibre_bookwarden.Identity.Patch.{get_json}
use calibre_bookwarden.Identity.Fields.{patch_fields, resolve_fields}
use calibre_bookwarden.Identity.Core.{
  is_readable, format_ids, ids_of, formats_have_complete_core, formats_have_core_conflict,
  external_core_matches, external_core_conflicts, internal_confirmation, external_confirmation,
}

pub record ManifestationResolution : Type 0 where
  pub tier : IdentityTier
  pub manifestation_ids : Ids
  pub field_decisions : Dict FieldDecision
  pub auto_patch : Dict Json
  pub risk_flags : List String
  pub reasons : List String

module _ (rt : Runtime) where
  abbrev pub blocked_decisions :
      FieldDecisionStatus
      → String
      → List SourceEvidence
      → Dict Json
      → List String
      → Dict FieldDecision
  blocked_decisions status reason evidence current_metadata [] = []
  blocked_decisions status reason evidence current_metadata (field ∷ fields) =
      (
        field,
        record {
          field = field;
          current_value = get_json field current_metadata;
          resolved_value = null;
          status = status;
          evidence_ids =
              List.map (λ (item : SourceEvidence). item.evidence_id)
                (keep (λ (item : SourceEvidence). str_eq item.field field) evidence);
          root_ids = [];
          reasons = reason ∷ [];
        },
      )
      ∷ blocked_decisions status reason evidence current_metadata fields

  abbrev pub tier_status : IdentityTier → FieldDecisionStatus
  tier_status tier_c = blocked
  tier_status _ = review

  -- `_non_authoritative_resolution`
  abbrev pub non_authoritative_resolution :
      IdentityTier
      → Ids
      → String
      → String
      → List SourceEvidence
      → Dict Json
      → ManifestationResolution
  non_authoritative_resolution tier found risk_flag reason evidence current_metadata = record {
    tier = tier;
    manifestation_ids = found;
    field_decisions =
        blocked_decisions (tier_status tier) reason evidence current_metadata
          (patch_fields evidence);
    auto_patch = [];
    risk_flags = risk_flag ∷ [];
    reasons = reason ∷ [];
  }

  module _ (formats : List FormatEvidence) (evidence : List SourceEvidence)
      (current_metadata : Dict Json) where
    abbrev pub stop : IdentityTier → Ids → String → String → Option ManifestationResolution
    stop tier found risk_flag reason =
        some (non_authoritative_resolution tier found risk_flag reason evidence current_metadata)

    -- The last step: a Tier A resolution with its patch.
    unfoldable pub promote : Text → Option ManifestationResolution
    promote identifier =
        elim (resolve_fields rt current_metadata evidence (codes "isbn") identifier) [
          | none ↦ none
          | some (decisions, patch) ↦ some (record {
            tier = tier_a;
            manifestation_ids = (codes "isbn", identifier) ∷ [];
            field_decisions = decisions;
            auto_patch = patch;
            risk_flags = [];
            reasons =
                "internal content and a structured external root identify the same manifestation"
                ∷ [];
          })
        ]

    -- The steps after the identifier is known, with the readable formats.
    unfoldable pub confirm : List FormatEvidence → Text → Option ManifestationResolution
    confirm usable identifier =
        let isbn = codes "isbn" in
        let found = (isbn, identifier) ∷ [] in
        if not (internal_confirmation rt isbn identifier evidence)
        then stop tier_b found "missing_internal_manifestation_confirmation"
            "the identifier is not anchored to internal edition-bearing evidence"
        else if not (external_confirmation rt isbn identifier evidence)
        then stop tier_b found "missing_external_manifestation_confirmation"
            "no structured external root confirms the internal manifestation identifier"
        else if formats_have_core_conflict rt usable
        then stop tier_c found "format_expression_conflict"
            "readable formats disagree on title, authors, or language"
        else if not (formats_have_complete_core usable)
        then stop tier_b found "incomplete_internal_core_evidence"
            "title, authors, or language are missing from at least one readable format"
        else if external_core_conflicts rt usable evidence isbn identifier
        then stop tier_c found "external_expression_conflict"
            "an exact-identifier external root conflicts on title, authors, or language"
        else if not (external_core_matches rt usable evidence isbn identifier)
        then stop tier_b found "missing_external_core_confirmation"
            "no single structured root confirms identifier, title, authors, and language"
        else promote identifier

    -- The step that reads the one identifier.
    unfoldable pub identify : List FormatEvidence → List Text → Option ManifestationResolution
    identify usable [] =
        stop tier_b [] "missing_manifestation_identifier"
          "no valid manifestation identifier was found in edition-bearing content"
    identify usable (identifier ∷ rest) = confirm usable identifier

    -- `resolve_manifestation`; `none` if the patch fails its validation
    unfoldable pub resolve_manifestation : Option ManifestationResolution
    resolve_manifestation =
        let usable = keep is_readable formats in
        let found = format_ids usable in
        if ltb 1 (length found)
        then stop tier_c [] "format_manifestation_conflict"
            "readable formats identify different manifestations"
        else if not (length usable == length formats)
        then stop tier_b (ids_of found) "incomplete_format_evidence"
            "at least one format is unsupported, protected, corrupt, or unreadable"
        else identify usable found

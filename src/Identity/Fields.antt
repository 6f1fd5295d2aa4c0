-- ===== src/Identity/Fields.antt =====
-- `_resolve_fields` of src/calibre_ai_auditor/verification/identity_v2.py.
use mathlib.Core.List
use calibre_bookwarden.Prelude.{
  String, Bool, not, ◌&&◌, ◌||◌, Option, none, some, List, [], ◌∷◌, ◌++◌, ltb, any, keep, length,
  text_eq, str_eq, str_in, if◌then◌else◌,
}
use calibre_bookwarden.Prelude.Sets.{set_update, sorted}
use calibre_bookwarden.Prelude.Dict.{Dict, insert}
use calibre_bookwarden.Verdict.{Text}
use calibre_bookwarden.Identity.{
  Ids, Json, null, ids, Runtime, SourceEvidence, FieldDecision, FieldDecisionStatus, unchanged,
  auto, review, is_internal_promotion, is_external_promotion, is_official, effective_root, has_id,
  merge_ids, normalize_identifiers, value_key, allowed_patch_fields,
}
use calibre_bookwarden.Identity.Patch.{get_json, canonical_patch}

-- `sorted({item.field for item in evidence if item.field in ALLOWED_PATCH_FIELDS})`
unfoldable pub patch_fields : List SourceEvidence → List String
patch_fields evidence = sorted (
    set_update [] (
      keep (λ f. str_in f allowed_patch_fields)
        (List.map (λ (item : SourceEvidence). item.field) evidence)))

-- The condition of the list `eligible`.
abbrev pub is_eligible_item : String → Text → Text → SourceEvidence → Bool
is_eligible_item field namespace identifier item =
    str_eq item.field field
    && (item.authoritative
        && ((is_internal_promotion item.source_kind || is_external_promotion item.source_kind)
            && has_id namespace identifier item.manifestation_ids))

-- `by_value.setdefault(key, []).append(item)`
abbrev pub add_to_group :
    Text → SourceEvidence → List (Text × List SourceEvidence) → List (Text × List SourceEvidence)
add_to_group key item [] = (key, item ∷ []) ∷ []
add_to_group key item ((k, group) ∷ groups) =
    if text_eq k key
    then (k, group ++ item ∷ []) ∷ groups
    else (k, group) ∷ add_to_group key item groups

-- `patch[field] = target_value`, where there is one
abbrev pub add_entry : String → Option Json → Dict Json → Dict Json
add_entry field none patch = patch
add_entry field (some v) patch = insert field v patch

module _ (rt : Runtime) (current_metadata : Dict Json) where
  abbrev pub group_from :
      String
      → List (Text × List SourceEvidence)
      → List SourceEvidence
      → List (Text × List SourceEvidence)
  group_from field groups [] = groups
  group_from field groups (item ∷ items) =
      group_from field (add_to_group (value_key rt field item.value) item groups) items

  -- `_normalize_identifiers` of the current identifiers, if there is a dict of them
  abbrev pub current_identifiers : Json → Ids
  current_identifiers (ids m) = normalize_identifiers rt m
  current_identifiers _ = []

  -- `target_value`: new identifiers are laid over the current ones.
  unfoldable pub target_value : String → Json → Json
  target_value field (ids m) =
      if str_in field ("identifiers" ∷ [])
      then ids (
          merge_ids (current_identifiers (get_json field current_metadata))
            (normalize_identifiers rt m))
      else ids m
  target_value field value = value

  -- The decision on a field whose eligible evidence agrees, and its entry in the patch.
  unfoldable pub decide_agreed :
      String → SourceEvidence → List SourceEvidence → FieldDecision × Option Json
  decide_agreed field first supporting =
      let roots = set_update [] (List.map effective_root supporting) in
      let preferred =
        any
          (λ (item : SourceEvidence).
            is_internal_promotion item.source_kind || is_official item.source_kind)
          supporting in
      let current = get_json field current_metadata in
      let target = target_value field first.value in
      let decision : FieldDecisionStatus → String → FieldDecision = λ status reason. record {
        field = field;
        current_value = current;
        resolved_value = target;
        status = status;
        evidence_ids = List.map (λ (item : SourceEvidence). item.evidence_id) supporting;
        root_ids = sorted roots;
        reasons = reason ∷ [];
      } in
      if ltb (length roots) 2 || not preferred
      then (
        decision review "field lacks two independent roots including internal or official evidence",
        none,
      )
      else if text_eq (value_key rt field current) (value_key rt field target)
      then (decision unchanged "current Calibre value matches the evidence consensus", none)
      else (
        decision auto "two independent roots support the exact manifestation value",
        some target,
      )

  -- The decision on a field, by the groups of eligible evidence with one value key each.
  unfoldable pub decide_groups :
      String → List SourceEvidence → List (Text × List SourceEvidence) → FieldDecision × Option Json
  decide_groups field eligible ((key, first ∷ rest) ∷ []) = decide_agreed field first (first ∷ rest)
  decide_groups field eligible _ = (
    record {
      field = field;
      current_value = get_json field current_metadata;
      resolved_value = null;
      status = review;
      evidence_ids = List.map (λ (item : SourceEvidence). item.evidence_id) eligible;
      root_ids =
          sorted (set_update [] (List.map (λ (item : SourceEvidence). item.root_id) eligible));
      reasons = "independent evidence is missing or conflicting" ∷ [];
    },
    none,
  )

  module _ (evidence : List SourceEvidence) (namespace identifier : Text) where
    -- The body of the loop over the fields.
    unfoldable pub decide_field : String → FieldDecision × Option Json
    decide_field field =
        let eligible = keep (is_eligible_item field namespace identifier) evidence in
        decide_groups field eligible (group_from field [] eligible)

    -- `for field in fields`
    unfoldable pub decide_fields :
        List String → Dict FieldDecision → Dict Json → Dict FieldDecision × Dict Json
    decide_fields [] decisions patch = (decisions, patch)
    decide_fields (field ∷ fields) decisions patch =
        let (decision, entry) = decide_field field in
        decide_fields fields (insert field decision decisions) (add_entry field entry patch)

    -- `_resolve_fields`; `none` if the patch fails its validation
    unfoldable pub resolve_fields : Option (Dict FieldDecision × Dict Json)
    resolve_fields =
        let (decisions, patch) = decide_fields (patch_fields evidence) [] [] in
        elim (canonical_patch rt patch) [
          | none ↦ none
          | some canonical ↦ some (decisions, canonical)
        ]

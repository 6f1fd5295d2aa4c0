-- ===== src/Identity/Evidence.antt =====
-- The evidence behind a field of the patch that `resolve_manifestation` lets through.
use mathlib.Core.List
use mathlib.Core.List.{append_assoc, append-nil}
use calibre_bookwarden.Prelude.{
  ◌≤◌, ◌≡◌, ◌⊎◌, refl, ◌∙◌, sym, ap, String, Bool, true, ◌||◌, some, List, [], ◌∷◌, ◌++◌, any, all,
  keep, length, codes, text_eq, text_eq_iff, Bool-cases, Option-cases, inl, inr, arith,
}
use calibre_bookwarden.Prelude.Sets.{set_update}
use calibre_bookwarden.Prelude.Dict.{Dict, lookup}
use calibre_bookwarden.Verdict.{Text}
use calibre_bookwarden.Identity.{
  Json, Runtime, FormatEvidence, SourceEvidence, is_internal_promotion, is_official, effective_root,
  value_key, allowed_patch_fields,
}
use calibre_bookwarden.Identity.Patch.{canonical_patch}
use calibre_bookwarden.Identity.Fields.{
  is_eligible_item, add_to_group, group_from, decide_agreed, decide_groups, decide_field,
}
use calibre_bookwarden.Identity.Support.{entry, raw_patch, lookup-raw_patch, resolve_fields-raw}
use calibre_bookwarden.Identity.Core.{is_readable, format_ids}
use calibre_bookwarden.Identity.Resolve.{
  ManifestationResolution, promote, confirm, identify, resolve_manifestation,
}
use calibre_bookwarden.Identity.TierA.{is_tier_a, Anchored, tier_a-Anchored, Anchored-promote}
use calibre_bookwarden.Identity.Dump.{lookup-dump_fields}

-- The items of an internal or an official source.
abbrev pub is_preferred : SourceEvidence → Bool
is_preferred item = is_internal_promotion item.source_kind || is_official item.source_kind

-- The field's eligible evidence, all of it, has one value, two independent roots and an internal
-- or official item.
pub record IsSupported (rt : Runtime) (evidence : List SourceEvidence) (identifier : Text)
    (field : String) : Type 0 where
  pub key : Text
  pub one_value :
      all
        (λ (item : SourceEvidence). text_eq key (value_key rt field item.value))
        (keep (is_eligible_item field (codes "isbn") identifier) evidence)
      ≡ true
  pub two_roots :
      2
      ≤ length (
          set_update [] (
            List.map effective_root
              (keep (is_eligible_item field (codes "isbn") identifier) evidence)))
  pub preferred :
      any is_preferred (keep (is_eligible_item field (codes "isbn") identifier) evidence) ≡ true

module _ (rt : Runtime) (current : Dict Json) where
  length-add_to_group :
      (key : Text) (item : SourceEvidence) (groups : List (Text × List SourceEvidence))
      → length groups ≤ length (add_to_group key item groups)
  length-add_to_group key item [] = omega arith
  length-add_to_group key item ((k, group) ∷ groups) =
      ground (arith, length-add_to_group key item groups)

  length-group_from :
      (field : String) (groups : List (Text × List SourceEvidence)) (items : List SourceEvidence)
      → length groups ≤ length (group_from rt current field groups items)
  length-group_from field groups [] = omega arith
  length-group_from field groups (item ∷ items) =
      let key = value_key rt field item.value in
      omega (
        arith,
        length-add_to_group key item groups,
        length-group_from field (add_to_group key item groups) items,
      )

  -- If grouping leaves one group, it holds every item, and all have its key.
  group-single :
      (field : String) (k : Text) (group items : List SourceEvidence)
      → length (group_from rt current field ((k, group) ∷ []) items) ≡ 1
      → (group_from rt current field ((k, group) ∷ []) items ≡ (k, group ++ items) ∷ [])
        × (all (λ (item : SourceEvidence). text_eq k (value_key rt field item.value)) items ≡ true)
  group-single field k group [] h =
      (ap (λ (l : List SourceEvidence). (k, l) ∷ []) (sym (append-nil group)), refl)
  group-single field k group (item ∷ items) h =
      elim (Bool-cases (text_eq k (value_key rt field item.value))) [
        | inl e ↦
            let (same, keys) = group-single field k (group ++ item ∷ []) items (rw e at h) in
            (
              rw e (
                  same
                  ∙ ap (λ (l : List SourceEvidence). (k, l) ∷ [])
                      (append_assoc group (item ∷ []) items)),
              rw e keys,
            )
        | inr e ↦ absurd (
            omega (
              arith,
              rw e at h,
              length-group_from field ((k, group) ∷ (value_key rt field item.value, item ∷ []) ∷ [])
                  items,
            ))
      ]

  -- An agreed decision reaches the patch only with two roots, one item being preferred.
  agreed-roots :
      (field : String) (first : SourceEvidence) (supporting : List SourceEvidence) (w : Json)
      → (decide_agreed rt current field first supporting).1 ≡ some w
      → (2 ≤ length (set_update [] (List.map effective_root supporting)))
        × (any is_preferred supporting ≡ true)
  unfolding decide_agreed
  agreed-roots field first supporting w h = (ground arith, ground arith)

  -- Only a single group reaches the patch.
  groups-length :
      (field : String) (eligible : List SourceEvidence) (groups : List (Text × List SourceEvidence))
      (w : Json)
      → (decide_groups rt current field eligible groups).1 ≡ some w
      → length groups ≡ 1
  unfolding decide_groups
  groups-length field eligible [] w h = absurd (cc)
  groups-length field eligible ((key, []) ∷ []) w h = refl
  groups-length field eligible ((key, first ∷ rest) ∷ []) w h = refl
  groups-length field eligible ((key, []) ∷ g ∷ groups) w h = absurd (cc)
  groups-length field eligible ((key, first ∷ rest) ∷ g ∷ groups) w h = absurd (cc)

  -- What a list of eligible items must be for its value to reach the patch.
  abbrev Supports : String → List SourceEvidence → Type 0
  Supports field items =
      (key : Text) × (all (λ (item : SourceEvidence). text_eq key (value_key rt field item.value))
          items
        ≡ true)
      × (2 ≤ length (set_update [] (List.map effective_root items)))
      × (any is_preferred items ≡ true)

  items-Supports :
      (field : String) (items : List SourceEvidence) (w : Json)
      → (decide_groups rt current field items (group_from rt current field [] items)).1 ≡ some w
      → Supports field items
  unfolding decide_groups
  items-Supports field [] w h = absurd (cc)
  items-Supports field (item ∷ items) w h =
      let key = value_key rt field item.value in
      let n =
        groups-length field (item ∷ items) (group_from rt current field [] (item ∷ items)) w h in
      let (same, keys) = group-single field key (item ∷ []) items n in
      let agreed : (decide_agreed rt current field item (item ∷ items)).1 ≡ some w =
        rw (same, decide_groups) at h in
      let (roots, preferred) = agreed-roots field item (item ∷ items) w agreed in
      (key, ground (arith, keys, (text_eq_iff key key).1 refl), roots, preferred)

  entry-IsSupported :
      (evidence : List SourceEvidence) (identifier : Text) (field : String) (w : Json)
      → entry rt current evidence (codes "isbn") identifier field ≡ some w
      → IsSupported rt evidence identifier field
  unfolding entry decide_field
  entry-IsSupported evidence identifier field w h =
      let (key, same, roots, preferred) =
        items-Supports field (keep (is_eligible_item field (codes "isbn") identifier) evidence) w
          h in
      record { key = key; one_value = same; two_roots = roots; preferred = preferred }

  promote-IsSupported :
      (formats : List FormatEvidence) (evidence : List SourceEvidence) (identifier : Text)
      (r : ManifestationResolution) (f : String) (v : Json)
      → promote rt formats evidence current identifier ≡ some r
      → lookup f r.auto_patch ≡ some v
      → IsSupported rt evidence identifier f
  unfolding promote canonical_patch
  promote-IsSupported formats evidence identifier r f v h l =
      let raw = raw_patch rt current evidence (codes "isbn") identifier allowed_patch_fields in
      elim (Option-cases (lookup f raw)) [
        | inl n ↦ absurd (
            ground (
              arith,
              n,
              resolve_fields-raw rt current evidence (codes "isbn") identifier,
              lookup-dump_fields rt f allowed_patch_fields raw r.auto_patch n,
            ))
        | inr (w, e) ↦ entry-IsSupported evidence identifier f w (
            ground (
              arith,
              e,
              lookup-raw_patch rt current evidence (codes "isbn") identifier allowed_patch_fields f,
            ))
      ]

  -- A resolution is of Tier A or has no patch.
  abbrev IsTieredPatch : ManifestationResolution → Type 0
  IsTieredPatch r = (is_tier_a (some r) ≡ true) ⊎ (r.auto_patch ≡ [])

  confirm-IsTieredPatch :
      (formats usable : List FormatEvidence) (evidence : List SourceEvidence) (identifier : Text)
      (r : ManifestationResolution)
      → confirm rt formats evidence current usable identifier ≡ some r
      → IsTieredPatch r
  unfolding confirm promote
  confirm-IsTieredPatch formats usable evidence identifier r h = ground arith

  identify-IsTieredPatch :
      (formats usable : List FormatEvidence) (evidence : List SourceEvidence) (found : List Text)
      (r : ManifestationResolution)
      → identify rt formats evidence current usable found ≡ some r
      → IsTieredPatch r
  unfolding identify
  identify-IsTieredPatch formats usable evidence [] r h = ground arith
  identify-IsTieredPatch formats usable evidence (identifier ∷ found) r h =
      confirm-IsTieredPatch formats usable evidence identifier r h

  resolve-IsTieredPatch :
      (formats : List FormatEvidence) (evidence : List SourceEvidence) (r : ManifestationResolution)
      → resolve_manifestation rt formats evidence current ≡ some r
      → IsTieredPatch r
  unfolding resolve_manifestation
  resolve-IsTieredPatch formats evidence r h = ground (
    arith,
    identify-IsTieredPatch formats (keep is_readable formats) evidence
        (format_ids (keep is_readable formats)) r,
  )

  -- Whatever field the patch of a resolution holds, the evidence is anchored to one ISBN, and the
  -- field's eligible evidence for that ISBN agrees on one value key, has two independent roots and
  -- has an internal or an official item.
  pub auto_patch-IsSupported :
      (formats : List FormatEvidence) (evidence : List SourceEvidence) (r : ManifestationResolution)
      (f : String) (v : Json)
      → resolve_manifestation rt formats evidence current ≡ some r
      → lookup f r.auto_patch ≡ some v
      → (identifier : Text) × Anchored rt formats evidence identifier
        × IsSupported rt evidence identifier f
  unfolding lookup
  auto_patch-IsSupported formats evidence r f v h l =
      elim (resolve-IsTieredPatch formats evidence r h) [
        | inr e ↦ absurd (ground (arith, e))
        | inl e ↦
            let (identifier, anchored) =
              tier_a-Anchored rt formats evidence current (ap is_tier_a h ∙ e) in
            (
              identifier,
              anchored,
              promote-IsSupported formats evidence identifier r f v
                  (sym (Anchored-promote rt formats evidence current identifier anchored) ∙ h) l,
            )
      ]

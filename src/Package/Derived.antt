-- ===== src/Package/Derived.antt =====
-- What a valid seal says of the patch in a package.
use calibre_bookwarden.Prelude.{
  ◌≡◌, refl, String, true, Option, some, Option-cases, inl, inr, eq_iff, arith,
}
use calibre_bookwarden.Prelude.Dict.{lookup}
use calibre_bookwarden.Verdict.{Text}
use calibre_bookwarden.Identity.{Json, Runtime, tier_a}
use calibre_bookwarden.Identity.Resolve.{ManifestationResolution, resolve_manifestation}
use calibre_bookwarden.Identity.Compare.{resolution_eq, lookup-dict_eq, json_eq, dict_eq}
use calibre_bookwarden.Identity.TierA.{Anchored}
use calibre_bookwarden.Identity.Evidence.{IsSupported, auto_patch-IsSupported}
use calibre_bookwarden.Package.{
  EvidencePackageV2, Sealing, identity_valid, files_valid, verify_invariants, verify_seal, seal,
  seal_value,
}

module _ (rt : Runtime) (sl : Sealing) where
  identity-seal :
      (pack : EvidencePackageV2) → verify_seal rt sl pack ≡ true → identity_valid rt sl pack ≡ true
  unfolding verify_seal verify_invariants
  identity-seal pack h = ground arith

  -- The tier of a package is A exactly where the seal re-derives its resolution.
  derived-resolution :
      (pack : EvidencePackageV2)
      → identity_valid rt sl pack ≡ true
      → pack.identity.tier ≡ tier_a
      → (derived : ManifestationResolution) × (resolve_manifestation rt pack.formats
            pack.source_evidence pack.snapshot.current_metadata
          ≡ some derived)
        × (resolution_eq pack.identity derived ≡ true)
  unfolding identity_valid
  derived-resolution pack valid tier =
      elim (Option-cases (
        resolve_manifestation rt pack.formats pack.source_evidence
          pack.snapshot.current_metadata)) [
            | inl e ↦ absurd (ground (arith, valid, tier, e))
            | inr (derived, e) ↦ (derived, e, ground (arith, valid, tier, e))
          ]

  patch-resolution_eq :
      (r s : ManifestationResolution)
      → resolution_eq r s ≡ true
      → dict_eq json_eq r.auto_patch s.auto_patch ≡ true
  unfolding resolution_eq
  patch-resolution_eq r s h = ground arith

  -- Every field in the patch of a package with a valid seal and Tier A rests on the evidence in the
  -- package: that evidence is anchored to one ISBN and supports the field for it.
  pub verify_seal-IsSupported :
      (pack : EvidencePackageV2) (f : String) (v : Json)
      → verify_seal rt sl pack ≡ true
      → pack.identity.tier ≡ tier_a
      → lookup f pack.identity.auto_patch ≡ some v
      → (identifier : Text) × Anchored rt pack.formats pack.source_evidence identifier
        × IsSupported rt pack.source_evidence identifier f
  verify_seal-IsSupported pack f v valid tier l =
      let (derived, e, same) = derived-resolution pack (identity-seal pack valid) tier in
      let has =
        lookup-dict_eq json_eq f pack.identity.auto_patch derived.auto_patch v
          (patch-resolution_eq pack.identity derived same) l in
      elim (Option-cases (lookup f derived.auto_patch)) [
        | inl n ↦ absurd (cc (has, n))
        | inr (w, found) ↦
            auto_patch-IsSupported rt pack.snapshot.current_metadata pack.formats
              pack.source_evidence derived f w e found
      ]

  -- The invariants do not look at the stored digest.
  invariants-digest :
      (pack : EvidencePackageV2) (digest : Option String)
      → verify_invariants rt sl (record pack { package_sha256 = digest })
        ≡ verify_invariants rt sl pack
  unfolding verify_invariants files_valid identity_valid
  invariants-digest pack digest = refl

  -- A package that can be sealed has a valid seal afterwards.
  pub verify_seal-seal :
      (pack : EvidencePackageV2) {sealed : EvidencePackageV2}
      → seal rt sl pack ≡ some sealed
      → verify_seal rt sl sealed ≡ true
  unfolding seal verify_seal seal_value
  verify_seal-seal pack h =
      let digest = some (seal_value rt sl pack) in
      let sealed = record pack { package_sha256 = digest } in
      ground (
        arith,
        h,
        invariants-digest pack digest,
        (eq_iff (seal_value rt sl pack) (seal_value rt sl sealed)).1 refl,
      )

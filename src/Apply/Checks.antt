-- ===== src/Apply/Checks.antt =====
-- The checks of src/calibre_ai_auditor/apply/coordinator.py on a sealed package, its book, an
-- authorization and a pilot. A raised ValueError is `none` or `false`.
use calibre_bookwarden.Prelude.{
  ℕ, String, Bool, true, false, not, ◌&&◌, ◌||◌, Option, none, some, List, [], ◌∷◌, ◌==◌, leb,
  length, codes, text_eq, str_eq, starts_with, strip, is_nonempty, is_some, if◌then◌else◌,
}
use calibre_bookwarden.Prelude.Dict.{Dict, lookup}
use calibre_bookwarden.Lease.{is_named}
use calibre_bookwarden.Lease.Books.{BookAuditState, shadowed}
use calibre_bookwarden.Identity.{Json, Runtime, IdentityTier, tier_a}
use calibre_bookwarden.Identity.Patch.{canonical_patch}
use calibre_bookwarden.Identity.Compare.{list_eq, dict_eq, json_eq, resolution_eq}
use calibre_bookwarden.Package.{EvidencePackageV2, Sealing, verify_seal, remove_prefix}
use calibre_bookwarden.Apply.{
  BookRecord, EvidencePackage, ManualAuthorization, PilotGuard, Host, find_row,
}

-- `a == b` and `bool(a)` of optional str
abbrev pub opt_eq : Option String → Option String → Bool
opt_eq none none = true
opt_eq (some a) (some b) = str_eq a b
opt_eq _ _ = false

abbrev pub is_shadowed : BookAuditState → Bool
is_shadowed shadowed = true
is_shadowed _ = false

abbrev pub is_tier_a_of : IdentityTier → Bool
is_tier_a_of tier_a = true
is_tier_a_of _ = false

-- `patch == other` of two dicts
abbrev pub same_dict : Dict Json → Dict Json → Bool
same_dict a b = dict_eq json_eq a b

abbrev pub same_id : Option ℕ → ℕ → Bool
same_id none n = false
same_id (some m) n = m == n

-- `a == b` of optional ids
abbrev pub same_number : Option ℕ → Option ℕ → Bool
same_number none none = true
same_number (some m) (some n) = m == n
same_number _ _ = false

-- The dict without the keys that are locked.
unfoldable pub drop_locked : Dict Json → Dict Json → Dict Json
drop_locked locks [] = []
drop_locked locks ((field, value) ∷ patch) =
    let rest = drop_locked locks patch in
    if is_some (lookup field locks) then rest else (field, value) ∷ rest

-- `_validate_v2_book_snapshot`
unfoldable pub book_snapshot_valid : BookRecord → EvidencePackageV2 → Bool
book_snapshot_valid book pack =
    if is_some pack.snapshot.source
    then false
    else if is_some pack.error
        || (not (is_shadowed pack.state)
            || (not (str_eq book.book_key pack.book_key)
                || (not (str_eq book.run_id pack.run_id)
                    || (not (same_id book.calibre_book_id pack.snapshot.calibre_book_id)
                        || (not (same_dict book.current_metadata pack.snapshot.current_metadata)
                            || not (list_eq text_eq book.paths pack.snapshot.files))))))
    then false
    else true

-- `_v2_authorization_matches`
unfoldable pub authorization_matches :
    Option ManualAuthorization → BookRecord → EvidencePackageV2 → String → Bool
authorization_matches none book pack patch_hash = false
authorization_matches (some authorization) book pack patch_hash =
    is_named pack.package_sha256
    && (str_eq authorization.book_key book.book_key
        && (str_eq authorization.run_id book.run_id
            && (opt_eq (some authorization.verdict_hash) pack.package_sha256
                && str_eq authorization.patch_hash patch_hash)))

module _ (rt : Runtime) where
  -- `_v2_patch`
  unfoldable pub v2_patch : EvidencePackageV2 → BookRecord → Option (Dict Json)
  v2_patch pack book = elim (canonical_patch rt pack.identity.auto_patch) [
    | none ↦ none
    | some patch ↦ some (drop_locked book.field_locks patch)
  ]

  module _ (sl : Sealing) where
    -- The condition under which `load_v2_package` raises for a package that validates.
    unfoldable pub package_valid : EvidencePackage → EvidencePackageV2 → Bool
    package_valid stored pack =
        if not (verify_seal rt sl pack)
          || (not (str_eq pack.evidence_id stored.evidence_id)
              || (not (str_eq pack.book_key stored.book_key)
                  || (not (str_eq pack.run_id stored.run_id)
                      || (not (same_dict stored.current pack.snapshot.current_metadata)
                          || not (resolution_eq stored.extracted pack.identity)))))
        then false
        else true

    -- `load_v2_package`
    unfoldable pub load_v2_package : List EvidencePackage → String → Option EvidencePackageV2
    load_v2_package packages evidence_id =
        elim (find_row (λ (row : EvidencePackage). row.evidence_id) evidence_id packages) [
          | none ↦ none
          | some stored ↦
              if not (stored.schema_version == 2) then none else elim stored.observations [
                | none ↦ none
                | some pack ↦ if package_valid stored pack then some pack else none
              ]
        ]

module _ (host : Host) where
  -- `_validate_pilot_guard`: the digest of the library root
  unfoldable pub validate_pilot_guard : PilotGuard → EvidencePackageV2 → Option String
  validate_pilot_guard pilot pack =
      let digest = codes pilot.release_digest in
      let root = host.canonical_root pilot.library_root in
      if not pilot.enabled
      then none
      else if not pilot.writer_ready
      then none
      else if not (is_nonempty (strip (codes pilot.pilot_id)))
          || not (leb (length (codes pilot.pilot_id)) 128)
      then none
      else if not (starts_with (codes "sha256:") digest) || not (length digest == 71)
      then none
      else if not (host.is_hexadecimal (remove_prefix (codes "sha256:") digest))
      then none
      else if not (is_nonempty (strip (codes pilot.alembic_revision)))
      then none
      else if not (leb 1 pilot.max_operations && leb pilot.max_operations 5)
      then none
      else if not (text_eq pilot.library_root root) || elim pack.snapshot.library_root [
        | none ↦ true
        | some sealed_root ↦ not (text_eq sealed_root root)
      ]
      then none
      else some (host.root_digest root)

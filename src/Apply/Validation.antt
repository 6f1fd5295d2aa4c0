-- ===== src/Apply/Validation.antt =====
-- `validate_apply_operation` of src/calibre_ai_auditor/apply/coordinator.py, which the writer calls before
-- it writes. `none` stands for a ValueError.
use calibre_bookwarden.Prelude.{String, Bool, ◌&&◌, Option, none, some, List, ◌==◌, leb, str_eq}
use calibre_bookwarden.Prelude.Fallible.{◌>>=◌, ◌>>◌, require}
use calibre_bookwarden.Lease.{is_named}
use calibre_bookwarden.Operations.{Operation}
use calibre_bookwarden.Identity.{Json, Runtime}
use calibre_bookwarden.Package.{EvidencePackageV2, Sealing}
use calibre_bookwarden.Apply.{
  BookRecord, ManualAuthorization, Store, PilotGuard, Host, find_pilot, find_authorization,
}
use calibre_bookwarden.Apply.Checks.{
  opt_eq, same_number, same_dict, is_tier_a_of, book_snapshot_valid, authorization_matches,
  v2_patch, load_v2_package, validate_pilot_guard,
}
use calibre_bookwarden.Apply.Queue.{is_open, is_bound, pilot_operation_count}

-- `select(ManualAuthorization).where(authorization_id == id).first()`, of an id that may be None
abbrev pub optional_authorization :
    Option String → List ManualAuthorization → Option ManualAuthorization
optional_authorization none rows = none
optional_authorization (some id) rows = find_authorization id rows

module _ (rt : Runtime) (sl : Sealing) (host : Host) where
  -- The first test, on the operation and its book.
  abbrev pub is_same_book : Operation Json → BookRecord → Bool
  is_same_book op book =
      str_eq op.operation_type "apply_metadata"
      && (is_named op.evidence_id
          && (opt_eq op.run_id (some book.run_id)
              && (same_number op.calibre_book_id book.calibre_book_id
                  && opt_eq op.field_locks_hash (some (host.hash_json book.field_locks)))))

  -- The tests on the pilot.
  unfoldable pub validate_pilot :
      Store → Option PilotGuard → Operation Json → EvidencePackageV2 → Option (Unit {0})
  validate_pilot store pilot op pack = do
    guard ← pilot
    root_digest ← validate_pilot_guard host guard pack
    require (is_named op.pilot_id && opt_eq op.pilot_id (some guard.pilot_id))
    stored ← find_pilot guard.pilot_id store.pilots
    require
        (stored.reserved_operations == pilot_operation_count store.ledger.operations guard.pilot_id)
    require (
        is_open stored.state
        && (leb 1 stored.reserved_operations
            && (leb stored.reserved_operations stored.max_operations
                && (is_bound guard root_digest stored
                    && str_eq stored.alembic_revision host.schema_revision))))

  -- The tests on the patch and its authorization.
  unfoldable pub validate_patch :
      Store → Operation Json → BookRecord → EvidencePackageV2 → Option (Unit {0})
  validate_patch store op book pack = do
    patch ← v2_patch rt pack book
    require (
        is_tier_a_of pack.identity.tier
        && (opt_eq pack.package_sha256 op.verdict_hash
            && (same_dict op.requested_patch patch
                && opt_eq op.patch_hash (some (host.hash_json patch)))))
    require (
        authorization_matches (optional_authorization op.authorization_id store.authorizations) book
          pack (host.hash_json patch))

  -- `validate_apply_operation`
  unfoldable pub validate_apply_operation :
      Store → Operation Json → BookRecord → Option PilotGuard → Option (Unit {0})
  validate_apply_operation store op book pilot = do
    require (str_eq op.policy_version "manifestation-v2")
    require (is_same_book op book)
    evidence_id ← op.evidence_id
    pack ← load_v2_package rt sl store.packages evidence_id
    require (book_snapshot_valid book pack)
    checked ← validate_pilot store pilot op pack
    validate_patch store op book pack

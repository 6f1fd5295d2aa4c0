-- ===== src/Apply/Queue.antt =====
-- `queue_v2_operation`, `create_v2_manual_authorization` and `acknowledge_v2_failure` of
-- src/calibre_ai_auditor/apply/coordinator.py. `none` stands for a ValueError, after which the
-- session is rolled back, and the tables are what they were. The lock `_lock_v2_queue_mutex` makes
-- each call one step. The uuids and the clock are arguments.
use calibre_bookwarden.Prelude.{
  ℕ, ◌+◌, String, Bool, true, false, not, ◌&&◌, Option, none, some, List, [], ◌∷◌, ◌++◌, ◌==◌, leb,
  any, length, strip, is_nonempty, is_some, str_eq, if◌then◌else◌,
}
use calibre_bookwarden.Prelude.Dict.{Dict, lookup}
use calibre_bookwarden.Prelude.Fallible.{◌>>=◌, ◌>>◌, require}
use calibre_bookwarden.Verdict.{Text}
use calibre_bookwarden.Lease.{is_named}
use calibre_bookwarden.Operations.{
  OpState, requested, claimed, writing, verifying, restoring, failed, Operation, OutboxEvent,
  Request, create_operation,
}
use calibre_bookwarden.Identity.{Json, Runtime}
use calibre_bookwarden.Identity.Patch.{get_json}
use calibre_bookwarden.Package.{EvidencePackageV2, Sealing, verify_seal}
use calibre_bookwarden.Apply.{
  BookRecord, ManualAuthorization, PilotState, open_pilot, stopped, PilotSession, Acknowledgement,
  Store, PilotGuard, Host, find_row, save_row, find_operation, find_event, find_book, find_pilot,
  find_lock, find_authorization,
}
use calibre_bookwarden.Apply.Checks.{
  opt_eq, is_tier_a_of, book_snapshot_valid, authorization_matches, v2_patch, load_v2_package,
  validate_pilot_guard,
}

-- `_NONTERMINAL_OPERATION_STATES`
abbrev pub is_nonterminal : OpState → Bool
is_nonterminal requested = true
is_nonterminal claimed = true
is_nonterminal writing = true
is_nonterminal verifying = true
is_nonterminal restoring = true
is_nonterminal _ = false

abbrev pub is_requested : OpState → Bool
is_requested requested = true
is_requested _ = false

abbrev pub is_failed : OpState → Bool
is_failed failed = true
is_failed _ = false

abbrev pub is_open : PilotState → Bool
is_open open_pilot = true
is_open _ = false

abbrev pub is_stopped : PilotState → Bool
is_stopped stopped = true
is_stopped _ = false

-- `_pilot_operation_count`
unfoldable pub pilot_operation_count : List (Operation Json) → String → ℕ
pilot_operation_count [] id = 0
pilot_operation_count (op ∷ ops) id =
    let rest = pilot_operation_count ops id in
    if opt_eq op.pilot_id (some id) then 1 + rest else rest

unfoldable pub new_pilot : PilotGuard → String → PilotSession
new_pilot pilot root_digest = record {
  pilot_id = pilot.pilot_id;
  library_root_sha256 = root_digest;
  release_digest = pilot.release_digest;
  alembic_revision = pilot.alembic_revision;
  max_operations = pilot.max_operations;
  reserved_operations = 0;
  state = open_pilot;
}

-- The stored binding is that of the runtime.
abbrev pub is_bound : PilotGuard → String → PilotSession → Bool
is_bound pilot root_digest stored =
    str_eq stored.library_root_sha256 root_digest
    && (str_eq stored.release_digest pilot.release_digest
        && (str_eq stored.alembic_revision pilot.alembic_revision
            && stored.max_operations == pilot.max_operations))

-- The first part of `_lock_or_create_pilot`: the row, and the table with it.
unfoldable pub find_or_create_pilot :
    PilotGuard → String → ℕ → List PilotSession → Option (PilotSession × List PilotSession)
find_or_create_pilot pilot root_digest bound pilots = elim (find_pilot pilot.pilot_id pilots) [
  | some stored ↦ some (stored, pilots)
  | none ↦
      if bound == 0
      then some (new_pilot pilot root_digest, pilots ++ new_pilot pilot root_digest ∷ [])
      else none
]

-- `_lock_or_create_pilot`
unfoldable pub lock_or_create_pilot :
    PilotGuard → String → ℕ → List PilotSession → Option (PilotSession × List PilotSession)
lock_or_create_pilot pilot root_digest bound pilots = do
  (stored, pilots') ← find_or_create_pilot pilot root_digest bound pilots
  require (is_bound pilot root_digest stored)
  require (is_open stored.state)
  require (stored.reserved_operations == bound)
  require (not (leb stored.max_operations stored.reserved_operations))
  some (stored, pilots')

-- The failure behind an event that is not published was acknowledged, and its pilot is over: the
-- negation of the query's `or_(…)`, with the joined rows that are not there as `none`.
unfoldable pub is_settled_failure : Store → String → OutboxEvent → Option (Operation Json) → Bool
is_settled_failure store pilot_id event none = false
is_settled_failure store pilot_id event (some op) =
    is_some
      (find_row (λ (a : Acknowledgement). a.operation_id) event.aggregate_id store.acknowledgements)
    && (str_eq op.policy_version "manifestation-v2"
        && (is_failed op.state
            && (is_some op.completed_at
                && (str_eq event.status "failed"
                    && (elim op.pilot_id [
                      | none ↦ false
                      | some id ↦
                          elim (find_pilot id store.pilots) [
                            | none ↦ false
                            | some p ↦ is_stopped p.state
                          ]
                          && not (str_eq id pilot_id)
                    ]
                        && not (is_some (find_lock op.book_key store.locks)))))))

-- The event stands in the way of a new operation.
abbrev pub is_blocking : Store → String → OutboxEvent → Bool
is_blocking store pilot_id event =
    not (str_eq event.status "published")
    && not (
        is_settled_failure store pilot_id event
          (find_operation event.aggregate_id store.ledger.operations))

-- `_current_value_for_patch`
unfoldable pub current_value_for_patch : BookRecord → String → Json
current_value_for_patch book field =
    if str_eq field "edition_statement"
    then elim (lookup "#edition" book.current_metadata) [
      | some value ↦ value
      | none ↦ get_json "edition_statement" book.current_metadata
    ]
    else get_json field book.current_metadata

-- `{field: _current_value_for_patch(book, field) for field in patch}`
unfoldable pub expected_before : BookRecord → Dict Json → Dict Json
expected_before book [] = []
expected_before book ((field, value) ∷ patch) =
    (field, current_value_for_patch book field) ∷ expected_before book patch

module _ (rt : Runtime) (sl : Sealing) (host : Host) where
  -- The keyword arguments of `create_operation` for a package, its book and the patch.
  unfoldable pub apply_request :
      EvidencePackageV2 → BookRecord → Dict Json → String → PilotSession → Request Json
  apply_request pack book patch authorization_id stored = record {
    idempotency_key = host.apply_key stored.pilot_id pack.evidence_id (host.hash_json patch);
    operation_type = "apply_metadata";
    book_key = book.book_key;
    requested_patch = patch;
    run_id = some book.run_id;
    authorization_id = some authorization_id;
    calibre_book_id = book.calibre_book_id;
    verdict_hash = pack.package_sha256;
    patch_hash = some (host.hash_json patch);
    field_locks_hash = some (host.hash_json book.field_locks);
    expected_before_metadata = some (expected_before book patch);
    policy_version = "manifestation-v2";
    evidence_id = some pack.evidence_id;
    pilot_id = some stored.pilot_id;
  }

  -- What the first half of `queue_v2_operation` finds: package, book, patch and authorization.
  unfoldable pub authorized :
      Store
      → String
      → String
      → Option (EvidencePackageV2 × BookRecord × Dict Json × ManualAuthorization)
  authorized store evidence_id authorization_id = do
    pack ← load_v2_package rt sl store.packages evidence_id
    book ← find_book pack.book_key store.books
    require (str_eq book.run_id pack.run_id && is_tier_a_of pack.identity.tier)
    require (book_snapshot_valid book pack)
    patch ← v2_patch rt pack book
    require (is_nonempty patch)
    authorization ← find_authorization authorization_id store.authorizations
    require (authorization_matches (some authorization) book pack (host.hash_json patch))
    some (pack, book, patch, authorization)

  -- The second half, from the creation of the operation on.
  unfoldable pub reserve :
      Store
      → String
      → String
      → ℕ
      → PilotSession
      → List PilotSession
      → BookRecord
      → Request Json
      → Option (String × Store)
  reserve store operation_id event_id now stored pilots book request =
      let (op, ledger) = create_operation operation_id event_id now request store.ledger in
      let bound = pilot_operation_count ledger.operations stored.pilot_id in
      do
        require (is_requested op.state)
        require (bound == stored.reserved_operations + 1)
        some (
          op.operation_id,
          record store {
            ledger = ledger;
            pilots =
                save_row (λ (p : PilotSession). p.pilot_id)
                  (record stored { reserved_operations = bound }) pilots;
            books =
                save_row (λ (b : BookRecord). b.book_key) (record book { status = "apply_queued" })
                  store.books;
          },
        )

  -- `queue_v2_operation`
  unfoldable pub queue_v2_operation :
      Store → String → String → PilotGuard → String → String → ℕ → Option (String × Store)
  queue_v2_operation store evidence_id authorization_id pilot operation_id event_id now = do
    (pack, book, patch, authorization) ← authorized store evidence_id authorization_id
    root_digest ← validate_pilot_guard host pilot pack
    (stored, pilots) ←
        lock_or_create_pilot pilot root_digest
          (pilot_operation_count store.ledger.operations pilot.pilot_id) store.pilots
    require (not (any (λ (op : Operation Json). is_nonterminal op.state) store.ledger.operations))
    require (
        not (
          any (is_blocking (record store { pilots = pilots }) stored.pilot_id) store.ledger.outbox))
    reserve store operation_id event_id now stored pilots book
        (apply_request pack book patch authorization.authorization_id stored)

  -- `create_v2_manual_authorization`
  unfoldable pub create_v2_manual_authorization :
      Store
      → BookRecord
      → EvidencePackageV2
      → Text
      → Text
      → String
      → Option (ManualAuthorization × Store)
  create_v2_manual_authorization store book pack actor reason authorization_id = do
    require (is_nonempty (strip actor) && (is_nonempty (strip reason) && verify_seal rt sl pack))
    digest ← pack.package_sha256
    require (str_eq pack.book_key book.book_key && str_eq pack.run_id book.run_id)
    require (book_snapshot_valid book pack)
    patch ← v2_patch rt pack book
    require (is_tier_a_of pack.identity.tier && is_nonempty patch)
    let authorization : ManualAuthorization = record {
      authorization_id = authorization_id;
      book_key = book.book_key;
      run_id = book.run_id;
      verdict_hash = digest;
      patch_hash = host.hash_json patch;
      actor = strip actor;
      reason = strip reason;
    }
    some (
      authorization,
      record store { authorizations = store.authorizations ++ authorization ∷ [] },
    )

-- `acknowledge_v2_failure`
unfoldable pub acknowledge_v2_failure : Store → String → Text → Text → Option Store
acknowledge_v2_failure store operation_id actor reason = do
  require (
      is_nonempty (strip actor)
      && (leb (length (strip actor)) 128
          && (leb 12 (length (strip reason)) && leb (length (strip reason)) 1000)))
  op ← find_operation operation_id store.ledger.operations
  require (
      str_eq op.policy_version "manifestation-v2"
      && (is_failed op.state && (is_some op.completed_at && is_named op.pilot_id)))
  pilot_id ← op.pilot_id
  pilot ← find_pilot pilot_id store.pilots
  require (is_stopped pilot.state)
  require (
      not (
        is_some
          (find_row (λ (a : Acknowledgement). a.operation_id) operation_id store.acknowledgements)))
  event ← find_event operation_id store.ledger.outbox
  require (str_eq event.status "failed" && not (is_some (find_lock op.book_key store.locks)))
  some (record store {
    acknowledgements =
        store.acknowledgements
        ++ record { operation_id = op.operation_id; actor = strip actor; reason = strip reason }
          ∷ [];
  })

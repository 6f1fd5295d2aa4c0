-- ===== src/Apply/Queued.antt =====
-- What a successful `queue_v2_operation` went through, and what it leaves in the tables.
use calibre_bookwarden.Prelude.{ℕ, ◌≡◌, String, Bool, true, false, not, some, List, any, arith}
use calibre_bookwarden.Prelude.Dict.{Dict}
use calibre_bookwarden.Prelude.Fallible.{>>=-eq-some, require-eq-some}
use calibre_bookwarden.Operations.{Operation}
use calibre_bookwarden.Identity.{Json, Runtime}
use calibre_bookwarden.Package.{EvidencePackageV2, Sealing}
use calibre_bookwarden.Apply.{
  BookRecord, ManualAuthorization, PilotSession, Store, PilotGuard, Host,
}
use calibre_bookwarden.Apply.Checks.{validate_pilot_guard}
use calibre_bookwarden.Apply.Queue.{
  is_nonterminal, is_blocking, pilot_operation_count, lock_or_create_pilot, apply_request,
  authorized, reserve, queue_v2_operation,
}

module _ (rt : Runtime) (sl : Sealing) (host : Host) where
  -- What the steps of a successful call found.
  pub record Queued (store : Store) (evidence_id authorization_id : String) (pilot : PilotGuard)
      (operation_id event_id : String) (now : ℕ) (id : String) (store' : Store) : Type 0 where
    pub pack : EvidencePackageV2
    pub book : BookRecord
    pub patch : Dict Json
    pub authorization : ManualAuthorization
    pub root_digest : String
    pub stored : PilotSession
    pub pilots : List PilotSession
    pub approved :
        authorized rt sl host store evidence_id authorization_id
        ≡ some (pack, book, patch, authorization)
    pub guarded : validate_pilot_guard host pilot pack ≡ some root_digest
    pub locked :
        lock_or_create_pilot pilot root_digest
          (pilot_operation_count store.ledger.operations pilot.pilot_id)
          store.pilots
        ≡ some (stored, pilots)
    pub idle :
        any (λ (op : Operation Json). is_nonterminal op.state) store.ledger.operations ≡ false
    pub clear :
        any (is_blocking (record store { pilots = pilots }) stored.pilot_id) store.ledger.outbox
        ≡ false
    pub reserved :
        reserve rt sl host store operation_id event_id now stored pilots book
          (apply_request rt sl host pack book patch authorization.authorization_id stored)
        ≡ some (id, store')

  not-eq-true : (b : Bool) → not b ≡ true → b ≡ false
  not-eq-true b h = ground arith

  pub queue-Queued :
      (store : Store) (evidence_id authorization_id : String) (pilot : PilotGuard)
      (operation_id event_id : String) (now : ℕ) (id : String) (store' : Store)
      → queue_v2_operation rt sl host store evidence_id authorization_id pilot operation_id event_id
          now
        ≡ some (id, store')
      → Queued store evidence_id authorization_id pilot operation_id event_id now id store'
  unfolding queue_v2_operation
  queue-Queued store evidence_id authorization_id pilot operation_id event_id now id store' h =
      let ((pack, book, patch, authorization), approved, h1) =
        >>=-eq-some (authorized rt sl host store evidence_id authorization_id) _ h in
      let (root_digest, guarded, h2) = >>=-eq-some (validate_pilot_guard host pilot pack) _ h1 in
      let ((stored, pilots), locked, h3) =
        >>=-eq-some
          (lock_or_create_pilot pilot root_digest
            (pilot_operation_count store.ledger.operations pilot.pilot_id) store.pilots)
          _ h2 in
      let (idle, h4) = require-eq-some _ _ h3 in
      let (clear, reserved) = require-eq-some _ _ h4 in
      record {
        pack = pack;
        book = book;
        patch = patch;
        authorization = authorization;
        root_digest = root_digest;
        stored = stored;
        pilots = pilots;
        approved = approved;
        guarded = guarded;
        locked = locked;
        idle = not-eq-true _ idle;
        clear = not-eq-true _ clear;
        reserved = reserved;
      }

-- ===== src/Writer/Claim.antt =====
-- `claim_next_operation` of src/calibre_ai_auditor/apply/writer.py, over the tables. The owner, the end
-- of the lease and the clock are arguments. The row locks of the database make a call one step, so
-- that no commit meets an IntegrityError. The loop has fuel.
pub mod Fair
pub mod Locks
use calibre_bookwarden.Prelude.{
  ℕ, zero, suc, ◌+◌, String, Bool, true, false, not, ◌&&◌, Option, none, some, List, [], ◌∷◌, ◌++◌,
  str_eq, is_some, if◌then◌else◌,
}
use calibre_bookwarden.Operations.{
  OpState, requested, claimed, Operation, OutboxEvent, Session, transition_operation, state_eq,
}
use calibre_bookwarden.Identity.{Json}
use calibre_bookwarden.Apply.{BookWriteLock, Store, save_row, find_operation, find_lock}

-- The answer of a call, with the tables as committed: an id, None, the exception of `.one()` for an
-- event without operation, a refused transition, or no fuel left.
pub data Claim : Type 0 where
  claims : String → Store → Claim
  nothing : Store → Claim
  missing : Store → Claim
  refused : Store → Claim
  unfinished : Store → Claim

abbrev pub is_pending : OutboxEvent → Bool
is_pending event = str_eq event.status "pending" && str_eq event.event_type "operation.requested"

-- The first event that is pending, in the order of the table.
unfoldable pub next_event : List OutboxEvent → Option OutboxEvent
next_event [] = none
next_event (event ∷ events) = if is_pending event then some event else next_event events

-- The table with that event changed.
unfoldable pub update_next : (OutboxEvent → OutboxEvent) → List OutboxEvent → List OutboxEvent
update_next f [] = []
update_next f (event ∷ events) =
    if is_pending event then f event ∷ events else event ∷ update_next f events

abbrev pub publish : OutboxEvent → OutboxEvent
publish event = record event { status = "published" }

abbrev pub start : OutboxEvent → OutboxEvent
start event = record event { status = "processing"; attempts = event.attempts + 1 }

-- The tables after the event of an operation that is not requested was published.
abbrev pub skip_event : Store → Store
skip_event store = record store {
  ledger = record (store.ledger) { outbox = update_next publish store.ledger.outbox };
}

module _ (owner : String) (expires_at now : ℕ) where
  abbrev pub leased : Operation Json → Operation Json
  leased op = record op { lease_owner = some owner; lease_expires_at = some expires_at }

  abbrev pub new_lock : Operation Json → BookWriteLock
  new_lock op = record {
    book_key = op.book_key;
    operation_id = op.operation_id;
    lease_owner = owner;
    lease_expires_at = expires_at;
  }

  -- The tables after the claim of an operation.
  unfoldable pub take : Operation Json → Store → Store
  take op store = record store {
    ledger = record {
      operations =
          save_row (λ (o : Operation Json). o.operation_id) (leased op) store.ledger.operations;
      outbox = update_next start store.ledger.outbox;
    };
    locks = store.locks ++ new_lock op ∷ [];
  }

  -- The claim of an operation that is requested.
  unfoldable pub claim_operation : Operation Json → Store → Claim
  claim_operation op store =
      if is_some (find_lock op.book_key store.locks)
      then nothing store
      else elim (transition_operation op claimed none now) [
        | none ↦ refused store
        | some op' ↦ claims op'.operation_id (take op' store)
      ]

  -- `claim_next_operation`
  unfoldable pub claim_next_operation : ℕ → Store → Claim
  claim_next_operation zero store = unfinished store
  claim_next_operation (suc fuel) store =
      let next = claim_next_operation fuel (skip_event store) in
      elim (next_event store.ledger.outbox) [
        | none ↦ nothing store
        | some event ↦ elim (find_operation event.aggregate_id store.ledger.operations) [
          | none ↦ missing store
          | some op ↦ if not (state_eq op.state requested) then next else claim_operation op store
        ]
      ]

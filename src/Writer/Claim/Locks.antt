-- ===== src/Writer/Claim/Locks.antt =====
-- A claim takes the lock of a book that nobody holds, and no other lock.
use calibre_bookwarden.Prelude.{
  ℕ, zero, suc, ◌≡◌, refl, ap, ◌∙◌, String, false, none, some, List, str_eq, eq_iff, Option-cases,
  Bool-cases, inl, inr, arith,
}
use calibre_bookwarden.Operations.{Operation, requested, claimed, state_eq, transition_operation}
use calibre_bookwarden.Identity.{Json}
use calibre_bookwarden.Apply.{BookWriteLock, Store, find_operation, find_lock}
use calibre_bookwarden.Apply.Rows.{key-find_row, find_row-append, find_row-save_row}
use calibre_bookwarden.Writer.Claim.{
  claims, next_event, skip_event, leased, new_lock, take, claim_operation, claim_next_operation,
}

module _ (owner : String) (expires_at now : ℕ) where
  -- The operation with the id is claimed by the owner; its book was free, and now the operation holds
  -- the lock on it; the locks on other books are what they were.
  pub record IsTaken (locks : List BookWriteLock) (id : String) (store' : Store) : Type 0 where
    pub op : Operation Json
    pub found : find_operation id store'.ledger.operations ≡ some op
    pub state : op.state ≡ claimed
    pub owned : op.lease_owner ≡ some owner
    pub free : find_lock op.book_key locks ≡ none
    pub held : find_lock op.book_key store'.locks ≡ some (new_lock owner expires_at now op)
    pub named : op.operation_id ≡ id
    pub others :
        (key : String)
        → str_eq op.book_key key ≡ false
        → find_lock key store'.locks ≡ find_lock key locks

  claimed-Fields :
      (op op' : Operation Json)
      → transition_operation op claimed none now ≡ some op'
      → (op'.state ≡ claimed) × (op'.operation_id ≡ op.operation_id) × (op'.book_key ≡ op.book_key)
  unfolding transition_operation
  claimed-Fields op op' h = ground arith

  take-IsTaken :
      (op op' : Operation Json) (store : Store) (id : String)
      → find_operation id store.ledger.operations ≡ some op
      → find_lock op.book_key store.locks ≡ none
      → transition_operation op claimed none now ≡ some op'
      → IsTaken store.locks op'.operation_id (take owner expires_at now op' store)
  unfolding take
  take-IsTaken op op' store id found free moved =
      let (state, same, book) = claimed-Fields op op' moved in
      let is_id : op.operation_id ≡ id =
        key-find_row (λ (o : Operation Json). o.operation_id) id store.ledger.operations op found in
      record {
        op = leased owner expires_at now op';
        found = ground (
          arith,
          find_row-save_row (λ (o : Operation Json). o.operation_id) op'.operation_id
              (leased owner expires_at now op') store.ledger.operations,
          eq_iff op'.operation_id op'.operation_id,
          ap (λ (k : String). find_operation k store.ledger.operations) (same ∙ is_id),
        );
        state = state;
        owned = refl;
        free = ap (λ (k : String). find_lock k store.locks) book ∙ free;
        held = ground (
          arith,
          find_row-append (λ (l : BookWriteLock). l.book_key) op'.book_key store.locks
              (new_lock owner expires_at now op'),
          ap (λ (k : String). find_lock k store.locks) book,
          eq_iff op'.book_key op'.book_key,
        );
        named = refl;
        others = λ key other. ground (
          arith,
          find_row-append (λ (l : BookWriteLock). l.book_key) key store.locks
              (new_lock owner expires_at now op'),
          Option-cases (find_lock key store.locks),
        );
      }

  operation-IsTaken :
      (op : Operation Json) (store : Store) (event_id id : String) (store' : Store)
      → find_operation event_id store.ledger.operations ≡ some op
      → claim_operation owner expires_at now op store ≡ claims id store'
      → IsTaken store.locks id store'
  unfolding claim_operation
  operation-IsTaken op store event_id id store' found h =
      elim (Option-cases (find_lock op.book_key store.locks)) [
        | inr (lock, e) ↦ absurd (ground arith)
        | inl free ↦ elim (Option-cases (transition_operation op claimed none now)) [
          | inl e ↦ absurd (ground arith)
          | inr (op', moved) ↦
              let taken = take-IsTaken op op' store event_id found free moved in
              let same : (op'.operation_id ≡ id) × (take owner expires_at now op' store ≡ store') =
                ground arith in
              rw⁻¹ (same.0, same.1) taken
        ]
      ]

  -- An id that `claim_next_operation` returns is that of an operation in state claimed, leased to
  -- the owner, whose book nobody had locked before; the new lock on the book names the operation,
  -- and the locks on all other books are as before.
  pub claim-IsTaken :
      (fuel : ℕ) (store : Store) (id : String) (store' : Store)
      → claim_next_operation owner expires_at now fuel store ≡ claims id store'
      → IsTaken store.locks id store'
  unfolding claim_next_operation
  claim-IsTaken zero store id store' h = absurd (ground arith)
  claim-IsTaken (suc fuel) store id store' h =
      elim (Option-cases (next_event store.ledger.outbox)) [
        | inl e ↦ absurd (ground arith)
        | inr (event, e) ↦
            elim (Option-cases (find_operation event.aggregate_id store.ledger.operations)) [
              | inl n ↦ absurd (ground arith)
              | inr (op, found) ↦ elim (Bool-cases (state_eq op.state requested)) [
                | inl b ↦
                    operation-IsTaken op store event.aggregate_id id store' found (ground arith)
                | inr b ↦ claim-IsTaken fuel (skip_event store) id store' (ground arith)
              ]
            ]
      ]

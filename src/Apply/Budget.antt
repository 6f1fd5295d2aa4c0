-- ===== src/Apply/Budget.antt =====
-- The budget of the supervised pilots under `queue_v2_operation`.
use calibre_bookwarden.Prelude.{
  ℕ, ◌+◌, ◌≤◌, ◌<◌, ◌≡◌, refl, ap, sym, ◌∙◌, String, false, some, List, [], ◌∷◌, ◌++◌, ==_iff,
  str_eq, eq_iff, Option-cases, Bool-cases, inl, inr, arith,
}
use calibre_bookwarden.Prelude.Dict.{Dict}
use calibre_bookwarden.Operations.{Operation, Request, find_by_key, new_operation, create_operation}
use calibre_bookwarden.Identity.{Json, Runtime}
use calibre_bookwarden.Package.{EvidencePackageV2, Sealing}
use calibre_bookwarden.Apply.{
  BookRecord, PilotSession, Store, PilotGuard, Host, save_row, find_pilot,
}
use calibre_bookwarden.Apply.Checks.{validate_pilot_guard}
use calibre_bookwarden.Apply.Queue.{
  pilot_operation_count, new_pilot, find_or_create_pilot, lock_or_create_pilot, apply_request,
  reserve, queue_v2_operation,
}
use calibre_bookwarden.Apply.Rows.{
  key-find_row, find_row-append, find_row-save_row, pilot_operation_count-append,
}
use calibre_bookwarden.Apply.Queued.{Queued, queue-Queued}

-- A pilot has reserved as many operations as the ledger binds to it, within its limit of at most
-- five.
abbrev pub IsWithin : List (Operation Json) → String → PilotSession → Type 0
IsWithin ops id p =
    (p.reserved_operations ≡ pilot_operation_count ops id)
    × (p.reserved_operations ≤ p.max_operations)
    × (p.max_operations ≤ 5)

-- Every pilot of the table is within its budget.
pub record IsBudgeted (store : Store) : Type 0 where
  pub within :
      (id : String) (p : PilotSession)
      → find_pilot id store.pilots ≡ some p
      → IsWithin store.ledger.operations id p

abbrev with_one_more : PilotSession → PilotSession
with_one_more p = record p { reserved_operations = p.reserved_operations + 1 }

saved-IsWithin :
    (ops : List (Operation Json)) (op : Operation Json) (pilots pilots' : List PilotSession)
    (stored : PilotSession) (ops' : List (Operation Json)) (rows : List PilotSession)
    → ops' ≡ ops ++ op ∷ []
    → rows ≡ save_row (λ (q : PilotSession). q.pilot_id) (with_one_more stored) pilots'
    → op.pilot_id ≡ some stored.pilot_id
    → stored.reserved_operations ≡ pilot_operation_count ops stored.pilot_id
    → stored.reserved_operations < stored.max_operations
    → stored.max_operations ≤ 5
    → find_pilot stored.pilot_id pilots' ≡ some stored
    → ((id : String)
        → str_eq stored.pilot_id id ≡ false
        → find_pilot id pilots' ≡ find_pilot id pilots)
    → ((id : String) (p : PilotSession) → find_pilot id pilots ≡ some p → IsWithin ops id p)
    → (id : String) (p : PilotSession) → find_pilot id rows ≡ some p
    → IsWithin ops' id p
saved-IsWithin ops op pilots pilots' stored ops' rows ledger saved bound counted free limit found
      others old id p h =
    elim (Bool-cases (str_eq stored.pilot_id id)) [
      | inl same ↦ ground (
        arith,
        pilot_operation_count-append ops op id,
        eq_iff stored.pilot_id id,
        find_row-save_row (λ (q : PilotSession). q.pilot_id) id (with_one_more stored) pilots',
      )
      | inr other ↦
          let before : find_pilot id pilots ≡ some p = ground (
            arith,
            others id other,
            find_row-save_row (λ (q : PilotSession). q.pilot_id) id (with_one_more stored) pilots',
          ) in
          ground (arith, old id p before, pilot_operation_count-append ops op id)
    ]

module _ (rt : Runtime) (sl : Sealing) (host : Host) where
  guard-limit :
      (pilot : PilotGuard) (pack : EvidencePackageV2) {digest : String}
      → validate_pilot_guard host pilot pack ≡ some digest
      → pilot.max_operations ≤ 5
  unfolding validate_pilot_guard
  guard-limit pilot pack h = ground arith

  -- The row is the stored one, or a new one for a pilot to which no operation is bound.
  found-pilot :
      (pilot : PilotGuard) (digest : String) (bound : ℕ) (pilots : List PilotSession)
      (stored : PilotSession) (pilots' : List PilotSession)
      → find_or_create_pilot pilot digest bound pilots ≡ some (stored, pilots')
      → (stored.pilot_id ≡ pilot.pilot_id)
        × (find_pilot pilot.pilot_id pilots' ≡ some stored)
        × ((id : String)
            → str_eq pilot.pilot_id id ≡ false
            → find_pilot id pilots' ≡ find_pilot id pilots)
  unfolding find_or_create_pilot new_pilot
  found-pilot pilot digest bound pilots stored pilots' h =
      elim (Option-cases (find_pilot pilot.pilot_id pilots)) [
        | inl e ↦
            let added : (bound ≡ 0)
                × (stored ≡ new_pilot pilot digest)
                × (pilots' ≡ pilots ++ new_pilot pilot digest ∷ []) =
              ground arith in
            (
              ground arith,
              rw
                  (
                    added.1,
                    added.2,
                    find_row-append (λ (p : PilotSession). p.pilot_id) pilot.pilot_id pilots
                        (new_pilot pilot digest),
                  )
                  (ground (arith, eq_iff pilot.pilot_id pilot.pilot_id)),
              λ id other.
                  rw
                    (
                      added.2,
                      find_row-append (λ (p : PilotSession). p.pilot_id) id pilots
                          (new_pilot pilot digest),
                    )
                    (ground arith),
            )
        | inr (row, e) ↦
            let same : (row ≡ stored) × (pilots ≡ pilots') = ground arith in
            (
              rw (sym same.0)
                  (key-find_row (λ (p : PilotSession). p.pilot_id) pilot.pilot_id pilots row e),
              rw (sym same.1, sym same.0) e,
              λ id other. rw (sym same.1) refl,
            )
      ]

  -- Its counter is that of the ledger and below its limit.
  locked-pilot :
      (pilot : PilotGuard) (digest : String) (bound : ℕ) (pilots : List PilotSession)
      (stored : PilotSession) (pilots' : List PilotSession)
      → lock_or_create_pilot pilot digest bound pilots ≡ some (stored, pilots')
      → (find_or_create_pilot pilot digest bound pilots ≡ some (stored, pilots'))
        × (stored.reserved_operations ≡ bound)
        × (bound < stored.max_operations)
        × (stored.max_operations ≡ pilot.max_operations)
  unfolding lock_or_create_pilot
  locked-pilot pilot digest bound pilots stored pilots' h =
      elim (Option-cases (find_or_create_pilot pilot digest bound pilots)) [
        | inl e ↦ absurd (ground arith)
        | inr ((row, rows), e) ↦ ground (
          arith,
          ==_iff row.reserved_operations bound,
          ==_iff row.max_operations pilot.max_operations,
        )
      ]

  -- The tables that a reservation leaves.
  reserved-Rows :
      (store : Store) (operation_id event_id : String) (now : ℕ) (stored : PilotSession)
      (pilots : List PilotSession) (book : BookRecord) (r : Request Json) (id : String)
      (store' : Store)
      → stored.reserved_operations ≡ pilot_operation_count store.ledger.operations stored.pilot_id
      → r.pilot_id ≡ some stored.pilot_id
      → reserve rt sl host store operation_id event_id now stored pilots book r ≡ some (id, store')
      → (id ≡ operation_id)
        × (store'.ledger.operations
            ≡ store.ledger.operations ++ new_operation operation_id now r ∷ [])
        × (store'.pilots
            ≡ save_row
                (λ (p : PilotSession). p.pilot_id)
                (record stored { reserved_operations = stored.reserved_operations + 1 })
                pilots)
  unfolding reserve create_operation
  reserved-Rows store operation_id event_id now stored pilots book r id store' counted bound h =
      elim (Option-cases (find_by_key r.idempotency_key store.ledger.operations)) [
        | inl e ↦ ground (arith)
        | inr (row, e) ↦ ground (
          arith,
          ==_iff (pilot_operation_count store.ledger.operations stored.pilot_id)
              (stored.reserved_operations + 1),
        )
      ]

  request-pilot_id :
      (pack : EvidencePackageV2) (book : BookRecord) (patch : Dict Json) (authorization_id : String)
      (stored : PilotSession)
      → (apply_request rt sl host pack book patch authorization_id stored).pilot_id
        ≡ some stored.pilot_id
  unfolding apply_request
  request-pilot_id pack book patch authorization_id stored = refl

  -- The pilot that a successful call reserves from is the one of the guard, with the ledger's count.
  stored-pilot :
      (store : Store) (evidence_id authorization_id : String) (pilot : PilotGuard)
      (operation_id event_id : String) (now : ℕ) (id : String) (store' : Store)
      (q : Queued rt sl host store evidence_id authorization_id pilot operation_id event_id now id
        store')
      → (q.stored.reserved_operations
          ≡ pilot_operation_count store.ledger.operations q.stored.pilot_id)
        × (q.stored.reserved_operations < q.stored.max_operations)
        × (q.stored.max_operations ≤ 5)
        × (find_pilot q.stored.pilot_id q.pilots ≡ some q.stored)
        × ((key : String)
            → str_eq q.stored.pilot_id key ≡ false
            → find_pilot key q.pilots ≡ find_pilot key store.pilots)
  stored-pilot store evidence_id authorization_id pilot operation_id event_id now id store' q =
      let locked = locked-pilot pilot q.root_digest _ store.pilots q.stored q.pilots q.locked in
      let found = found-pilot pilot q.root_digest _ store.pilots q.stored q.pilots locked.0 in
      (
        rw (found.0) locked.1,
        ground arith,
        ground (arith, guard-limit pilot q.pack q.guarded),
        ap (λ (key : String). find_pilot key q.pilots) found.0 ∙ found.1,
        rw (found.0) found.2,
      )

  -- The new operation stands behind the old ones, and the pilot has one more reserved.
  pub ledger-reserve :
      (store : Store) (evidence_id authorization_id : String) (pilot : PilotGuard)
      (operation_id event_id : String) (now : ℕ) (id : String) (store' : Store)
      (q : Queued rt sl host store evidence_id authorization_id pilot operation_id event_id now id
        store')
      → (id ≡ operation_id)
        × (store'.ledger.operations
            ≡ store.ledger.operations
              ++ new_operation operation_id now (
                  apply_request rt sl host q.pack q.book q.patch q.authorization.authorization_id
                    q.stored)
                ∷ [])
        × (store'.pilots
            ≡ save_row (λ (p : PilotSession). p.pilot_id) (with_one_more q.stored) q.pilots)
  ledger-reserve store evidence_id authorization_id pilot operation_id event_id now id store' q =
      reserved-Rows store operation_id event_id now q.stored q.pilots q.book
        (apply_request rt sl host q.pack q.book q.patch q.authorization.authorization_id q.stored)
        id store'
        (stored-pilot store evidence_id authorization_id pilot operation_id event_id now id store'
          q).0
        (request-pilot_id q.pack q.book q.patch _ q.stored) q.reserved

  -- A queued operation is counted against its pilot's budget: when every pilot has reserved exactly
  -- the operations that the ledger binds to it, at most its limit and at most five, the same holds
  -- after a `queue_v2_operation` that returns.
  pub queue-IsBudgeted :
      (store : Store) (evidence_id authorization_id : String) (pilot : PilotGuard)
      (operation_id event_id : String) (now : ℕ) (id : String) (store' : Store)
      → IsBudgeted store
      → queue_v2_operation rt sl host store evidence_id authorization_id pilot operation_id event_id
          now
        ≡ some (id, store')
      → IsBudgeted store'
  queue-IsBudgeted store evidence_id authorization_id pilot operation_id event_id now id store'
        budget h =
      let q =
        queue-Queued rt sl host store evidence_id authorization_id pilot operation_id event_id now
          id store' h in
      let (bound, free, limit, found, others) =
        stored-pilot store evidence_id authorization_id pilot operation_id event_id now id store'
          q in
      let (_, ops, pilots) =
        ledger-reserve store evidence_id authorization_id pilot operation_id event_id now id store'
          q in
      record {
        within =
            saved-IsWithin store.ledger.operations _ store.pilots q.pilots q.stored _ _ ops pilots
              (request-pilot_id q.pack q.book q.patch _ q.stored) bound free limit found others
              budget.within;
      }

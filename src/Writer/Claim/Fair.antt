-- ===== src/Writer/Claim/Fair.antt =====
-- The loop of `claim_next_operation` ends.
use calibre_bookwarden.Prelude.{
  ℕ, zero, suc, ◌+◌, ◌<◌, ◌≡◌, String, Bool, true, false, none, some, List, [], ◌∷◌, is_some,
  Option-cases, Bool-cases, inl, inr, arith, if◌then◌else◌,
}
use calibre_bookwarden.Operations.{
  OutboxEvent, Operation, requested, claimed, state_eq, transition_operation,
}
use calibre_bookwarden.Identity.{Json}
use calibre_bookwarden.Apply.{Store, find_operation, find_lock}
use calibre_bookwarden.Writer.Claim.{
  Claim, unfinished, is_pending, next_event, update_next, publish, skip_event, claim_operation,
  claim_next_operation,
}

abbrev pub pending_count : List OutboxEvent → ℕ
pending_count [] = 0
pending_count (event ∷ events) =
    let rest = pending_count events in if is_pending event then 1 + rest else rest

-- Publishing the next event leaves one pending event less.
pending_count-publish :
    (events : List OutboxEvent) (event : OutboxEvent)
    → next_event events ≡ some event
    → pending_count (update_next publish events) + 1 ≡ pending_count events
unfolding next_event update_next
pending_count-publish [] event h = absurd (cc)
pending_count-publish (e ∷ events) event h = elim (Bool-cases (is_pending e)) [
  | inl b ↦ ground arith
  | inr b ↦ ground (arith, pending_count-publish events event (ground arith))
]

abbrev pub is_unfinished : Claim → Bool
is_unfinished (unfinished store) = true
is_unfinished _ = false

module _ (owner : String) (expires_at now : ℕ) where
  operation-finished :
      (op : Operation Json) (store : Store)
      → is_unfinished (claim_operation owner expires_at now op store) ≡ false
  unfolding claim_operation
  operation-finished op store = elim (Bool-cases (is_some (find_lock op.book_key store.locks))) [
    | inl b ↦ ground arith
    | inr b ↦ elim (Option-cases (transition_operation op claimed none now)) [
      | inl e ↦ ground arith
      | inr (op', e) ↦ ground arith
    ]
  ]

  -- With more fuel than there are pending events, `claim_next_operation` comes to an answer.
  pub claim-finished :
      (fuel : ℕ) (store : Store)
      → pending_count store.ledger.outbox < fuel
      → is_unfinished (claim_next_operation owner expires_at now fuel store) ≡ false
  unfolding claim_next_operation
  claim-finished zero store h = absurd (ground arith)
  claim-finished (suc fuel) store h = elim (Option-cases (next_event store.ledger.outbox)) [
    | inl e ↦ ground arith
    | inr (event, e) ↦
        elim (Option-cases (find_operation event.aggregate_id store.ledger.operations)) [
          | inl n ↦ ground arith
          | inr (op, found) ↦ elim (Bool-cases (state_eq op.state requested)) [
            | inl b ↦ ground (arith, operation-finished op store)
            | inr b ↦
                let less = pending_count-publish store.ledger.outbox event e in
                ground (arith, claim-finished fuel (skip_event store) (ground arith))
          ]
        ]
  ]

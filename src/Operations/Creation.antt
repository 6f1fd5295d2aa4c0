-- ===== src/Operations/Creation.antt =====
-- Creation of an operation with its outbox event: idempotence, and the invariant of the two tables.
use calibre_bookwarden.Prelude.{
  ℕ, ◌≡◌, refl, ap, ◌∙◌, sym, inl, inr, String, none, some, List, [], ◌∷◌, ◌++◌, map, str_eq,
  eq_iff, Option-cases, arith, if◌then◌else◌,
}
use mathlib.Core.List.{map-append}
use calibre_bookwarden.Operations.{
  Operation, OutboxEvent, Session, Request, find_by_key, new_operation, create_operation,
}

module _ {J : Type 0} where
  -- No two rows share an idempotency key: the table's unique constraint.
  abbrev pub HasDistinctKeys : List (Operation J) → Type 0
  HasDistinctKeys [] = Unit
  HasDistinctKeys (op ∷ ops) = (find_by_key op.idempotency_key ops ≡ none) × HasDistinctKeys ops

  -- Every operation has one outbox event and every event its operation, in the same order.
  pub record IsConsistent (s : Session J) : Type 0 where
    pub keys : HasDistinctKeys s.operations
    pub events :
        map (λ (op : Operation J). op.operation_id) s.operations
        ≡ map (λ (e : OutboxEvent). e.aggregate_id) s.outbox

  find-append :
      (key : String) (ops : List (Operation J)) (op : Operation J)
      → find_by_key key (ops ++ op ∷ []) ≡ elim (find_by_key key ops) [
        | some x ↦ some x
        | none ↦ if str_eq op.idempotency_key key then some op else none
      ]
  unfolding find_by_key
  find-append key [] op = refl
  find-append key (o ∷ ops) op = ground (arith, find-append key ops op)

  append-HasDistinctKeys :
      (ops : List (Operation J)) (op : Operation J)
      → HasDistinctKeys ops
      → find_by_key op.idempotency_key ops ≡ none
      → HasDistinctKeys (ops ++ op ∷ [])
  unfolding find_by_key
  append-HasDistinctKeys [] op h fresh = (refl, tt)
  append-HasDistinctKeys (o ∷ ops) op (first, rest) fresh = ground (
    arith,
    append-HasDistinctKeys ops op rest,
    find-append o.idempotency_key ops op,
    eq_iff o.idempotency_key op.idempotency_key,
    eq_iff op.idempotency_key o.idempotency_key,
  )

  -- A second request with the idempotency key of a first one gets the first one's operation back
  -- and changes neither table, whatever ids and clock it comes with.
  pub create_twice :
      (i j e f : String) (m n : ℕ) (r q : Request J) (s : Session J)
      → q.idempotency_key ≡ r.idempotency_key
      → let (op, t) = create_operation i e m r s in create_operation j f n q t ≡ (op, t)
  unfolding create_operation
  create_twice i j e f m n r q s same = rw same (
      ground (
        arith,
        find-append r.idempotency_key s.operations (new_operation i m r),
        eq_iff r.idempotency_key r.idempotency_key,
      ))

  -- Creating an operation keeps the keys distinct and the outbox in step with the ledger.
  pub create-IsConsistent :
      (i e : String) (n : ℕ) (r : Request J) (s : Session J)
      → IsConsistent s
      → IsConsistent (create_operation i e n r s).1
  unfolding create_operation
  create-IsConsistent i e n r s h =
      elim (Option-cases (find_by_key r.idempotency_key s.operations)) [
        | inr (x, old) ↦ rw (old, create_operation) h
        | inl new ↦
            rw (new, create_operation)
              (record {
                keys = append-HasDistinctKeys s.operations (new_operation i n r) h.keys new;
                events =
                    map-append _ s.operations _
                    ∙ (ap (λ (l : List String). l ++ i ∷ []) h.events
                        ∙ sym (map-append _ s.outbox _));
              })
      ]

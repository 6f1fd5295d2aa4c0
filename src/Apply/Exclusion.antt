-- ===== src/Apply/Exclusion.antt =====
-- What a successful `queue_v2_operation` leaves in the ledger.
use calibre_bookwarden.Prelude.{
  ℕ, ◌≡◌, refl, ap, sym, ◌∙◌, String, true, false, some, List, [], ◌∷◌, ◌++◌, any, arith,
  if◌then◌else◌,
}
use calibre_bookwarden.Operations.{Operation}
use calibre_bookwarden.Identity.{Json, Runtime}
use calibre_bookwarden.Package.{Sealing}
use calibre_bookwarden.Apply.{Store, PilotGuard, Host}
use calibre_bookwarden.Apply.Queue.{is_nonterminal, queue_v2_operation}
use calibre_bookwarden.Apply.Queued.{queue-Queued}
use calibre_bookwarden.Apply.Budget.{ledger-reserve}
use calibre_bookwarden.Apply.Approval.{IsApproved, authorized-Authorized, Authorized-IsApproved}

-- The operations that are not over.
abbrev pub nonterminal : List (Operation Json) → List (Operation Json)
nonterminal [] = []
nonterminal (op ∷ ops) =
    let rest = nonterminal ops in if is_nonterminal op.state then op ∷ rest else rest

nonterminal-append :
    (ops : List (Operation Json)) (op : Operation Json)
    → any (λ (o : Operation Json). is_nonterminal o.state) ops ≡ false
    → is_nonterminal op.state ≡ true
    → nonterminal (ops ++ op ∷ []) ≡ op ∷ []
nonterminal-append [] op idle h = ground arith
nonterminal-append (o ∷ ops) op idle h = ground (arith, nonterminal-append ops op)

module _ (rt : Runtime) (sl : Sealing) (host : Host) where
  -- After a `queue_v2_operation` that returns an id, the ledger has exactly one operation that is
  -- not over, at its end; it has that id, and it is approved by a sealed package and a manual
  -- authorization in the tables.
  pub queue-IsApproved :
      (store : Store) (evidence_id authorization_id : String) (pilot : PilotGuard)
      (operation_id event_id : String) (now : ℕ) (id : String) (store' : Store)
      → queue_v2_operation rt sl host store evidence_id authorization_id pilot operation_id event_id
          now
        ≡ some (id, store')
      → (op : Operation Json) × (store'.ledger.operations ≡ store.ledger.operations ++ op ∷ [])
        × (nonterminal store'.ledger.operations ≡ op ∷ [])
        × (op.operation_id ≡ id)
        × IsApproved rt sl host store evidence_id authorization_id op
  queue-IsApproved store evidence_id authorization_id pilot operation_id event_id now id store' h =
      let q =
        queue-Queued rt sl host store evidence_id authorization_id pilot operation_id event_id now
          id store' h in
      let (returned, ops, _) =
        ledger-reserve rt sl host store evidence_id authorization_id pilot operation_id event_id now
          id store' q in
      (
        _,
        ops,
        ap nonterminal ops ∙ nonterminal-append store.ledger.operations _ q.idle refl,
        sym returned,
        Authorized-IsApproved rt sl host store evidence_id authorization_id q.pack q.book q.patch
            q.authorization q.stored operation_id now
            (authorized-Authorized rt sl host store evidence_id authorization_id q.pack q.book
              q.patch q.authorization q.approved),
      )

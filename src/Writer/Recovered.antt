-- ===== src/Writer/Recovered.antt =====
-- The recovery of an interrupted operation ends it.
use calibre_bookwarden.Prelude.{
  ℕ, ◌≡◌, refl, String, Bool, true, false, not, Option, none, some, str_eq, if◌then◌else◌,
}
use calibre_bookwarden.Writer.{Exception, Rows, Outcome, returns, fails, Calibre}
use calibre_bookwarden.Writer.Steps.{set_change}
use calibre_bookwarden.Writer.Reconcile.{
  RecoveryCalls, own_error, mark_settle, recover, reconcile_write, recover_undo, is_undoable,
  reconcile_undo, reconcile_started,
}
use calibre_bookwarden.Writer.Closed.{IsClosed, Closes}
use calibre_bookwarden.Writer.Interrupted.{is_interrupted, marked-IsClosed}
use calibre_bookwarden.Writer.Recovering.{recover-Closes, recover_undo-Closes}

module _ (cal : Calibre) (now : ℕ) where
  abbrev IsEnded : Option Rows → Type 0
  IsEnded result = (rows' : Rows) × (result ≡ some rows') × IsClosed cal now rows'

  -- The handler of an exception ends the operation too.
  handled-IsEnded :
      (outcome : Outcome) (handler : Exception → Rows → Option Rows)
      → ((e : Exception) (rows : Rows)
          → is_interrupted rows.operation.state ≡ true
          → IsEnded (handler e rows))
      → Closes cal now is_interrupted outcome
      → IsEnded (elim outcome [ returns rows ↦ some rows | fails e rows ↦ handler e rows ])
  unfolding Closes
  handled-IsEnded (returns rows) handler k h = (rows, refl, h)
  handled-IsEnded (fails e rows) handler k h = k e rows h

  option-IsEnded {ℓ} :
      {A : Type ℓ} (m : Option A) (f : A → Option Rows) (other : Option Rows)
      → ((a : A) → m ≡ some a → IsEnded (f a))
      → IsEnded other
      → IsEnded (elim m [ none ↦ other | some a ↦ f a ])
  option-IsEnded none f other h k = k
  option-IsEnded (some a) f other h k = h a refl

  if-IsEnded :
      (test : Bool) (a b : Option Rows) → IsEnded a → IsEnded b → IsEnded (if test then a else b)
  if-IsEnded true a b h k = h
  if-IsEnded false a b h k = k

  changed-IsEnded :
      (error : String) (rows : Rows)
      → is_interrupted rows.operation.state ≡ true
      → IsEnded (mark_settle error (λ _. some error) now (set_change "failed_rollback_failed" rows))
  unfolding set_change
  changed-IsEnded error rows h =
      marked-IsClosed cal now error (λ _. some error) (set_change "failed_rollback_failed" rows) h

  module _ (calls : RecoveryCalls) where
    write-IsEnded :
        (rows : Rows)
        → is_interrupted rows.operation.state ≡ true
        → IsEnded (reconcile_write cal calls now rows)
    unfolding reconcile_write
    write-IsEnded rows h =
        option-IsEnded rows.operation.before_metadata _ _
          (λ before _.
            if-IsEnded _ _ _
              (marked-IsClosed cal now "insufficient recovery evidence" own_error rows h)
              (handled-IsEnded (recover cal calls now before rows) _
                (λ e r inside. changed-IsEnded e.message r inside)
                (recover-Closes cal now calls before rows h)))
          (marked-IsClosed cal now "insufficient recovery evidence" own_error rows h)

    undo-IsEnded :
        (rows : Rows)
        → is_interrupted rows.operation.state ≡ true
        → IsEnded (reconcile_undo cal calls now rows)
    unfolding reconcile_undo
    undo-IsEnded rows h =
        let lost = marked-IsClosed cal now "insufficient undo recovery evidence" own_error rows h in
        if-IsEnded (not (is_undoable cal calls now rows)) _ _ lost (
          option-IsEnded rows.operation.before_metadata _ _
            (λ before _.
              option-IsEnded rows.operation.target_metadata _ _
                (λ target has.
                  handled-IsEnded (recover_undo cal calls now before target rows) _
                    (λ e r inside. marked-IsClosed cal now e.message (λ _. some e.message) r inside)
                    (recover_undo-Closes cal now calls before target rows h has))
                lost)
            lost)

    -- Whatever Calibre, the file checks and the restore answer, the recovery of an operation that was
    -- interrupted in one of the states writing, verifying and restoring ends it: the operation is in
    -- a final state with its time of completion, the lock on its book is free of it, its event is
    -- published if it succeeded and failed if not, and a success is recorded with metadata read back
    -- from Calibre that match the target.
    pub reconcile_started-IsClosed :
        (rows : Rows)
        → is_interrupted rows.operation.state ≡ true
        → (rows' : Rows) × (reconcile_started cal calls now rows ≡ some rows')
          × IsClosed cal now rows'
    unfolding reconcile_started
    reconcile_started-IsClosed rows h =
        if-IsEnded (str_eq rows.operation.operation_type "undo_change") _ _ (undo-IsEnded rows h)
          (write-IsEnded rows h)

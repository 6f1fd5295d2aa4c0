-- ===== src/Writer/Turn.antt =====
-- Every turn of the writer on a claimed operation ends it.
use calibre_bookwarden.Prelude.{
  ℕ, ◌≡◌, ◌⊎◌, refl, ap, String, true, not, some, str_eq, inl, inr, arith,
}
use calibre_bookwarden.Operations.{
  OpState, claimed, writing, unknown, failed, Operation, state_eq, transition_operation,
}
use calibre_bookwarden.Identity.{Json}
use calibre_bookwarden.Writer.{Rows, Outcome, returns, fails, Calibre}
use calibre_bookwarden.Writer.Steps.{finish_outbox, set_book, move, fail_operation}
use calibre_bookwarden.Writer.Undo.{Answers, process, turn}
use calibre_bookwarden.Writer.Closed.{IsClosed, Closes, fails-Closes, if-Closes, finished-IsClosed}
use calibre_bookwarden.Writer.Applying.{is_begun, process_apply-Closes}
use calibre_bookwarden.Writer.Undoing.{process_undo-Closes}

module _ (cal : Calibre) (now : ℕ) where
  process-Closes :
      (calls : Answers) (rows : Rows)
      → rows.operation.state ≡ claimed
      → Closes cal now is_begun (process cal calls now rows)
  unfolding process
  process-Closes calls rows start =
      let begun : is_begun rows.operation.state ≡ true = ap (is_begun) start in
      if-Closes cal now is_begun (not (state_eq rows.operation.state claimed)) _ _
        (λ _. fails-Closes cal now is_begun _ _ begun)
        (λ _.
          if-Closes cal now is_begun (str_eq rows.operation.operation_type "undo_change") _ _
            (λ _. process_undo-Closes cal now calls.undo rows begun)
            (λ _. process_apply-Closes cal now calls.apply rows begun))

  begun-cases : (state : OpState) → is_begun state ≡ true → (state ≡ claimed) ⊎ (state ≡ writing)
  begun-cases claimed h = inl refl
  begun-cases writing h = inr refl
  begun-cases _ h = absurd (ground arith)

  abbrev ended : OpState → String → Rows → Operation Json
  ended state error rows = record (rows.operation) {
    state = state;
    error = some error;
    updated_at = now;
    completed_at = some now;
  }

  fail-claimed :
      (error : String) (rows : Rows)
      → rows.operation.state ≡ claimed
      → fail_operation error now rows
        ≡ some (
            finish_outbox "failed"
              (some error)
              (set_book "error" (record rows { operation = ended failed error rows })))
  unfolding fail_operation move transition_operation
  fail-claimed error rows e = ground arith

  fail-writing :
      (error : String) (rows : Rows)
      → rows.operation.state ≡ writing
      → fail_operation error now rows
        ≡ some (
            finish_outbox "failed"
              (some error)
              (set_book "error" (record rows { operation = ended unknown error rows })))
  unfolding fail_operation move transition_operation
  fail-writing error rows e = ground arith

  -- `fail_operation` ends an operation that is claimed or writing.
  fail_operation-IsClosed :
      (error : String) (rows : Rows)
      → is_begun rows.operation.state ≡ true
      → (rows' : Rows) × (fail_operation error now rows ≡ some rows') × IsClosed cal now rows'
  fail_operation-IsClosed error rows begun = elim (begun-cases rows.operation.state begun) [
    | inl e ↦ (
      _,
      fail-claimed error rows e,
      finished-IsClosed cal now (ended failed error rows) "error" "failed" (some error) rows refl
          refl refl (λ s. absurd (ground arith)),
    )
    | inr e ↦ (
      _,
      fail-writing error rows e,
      finished-IsClosed cal now (ended unknown error rows) "error" "failed" (some error) rows refl
          refl refl (λ s. absurd (ground arith)),
    )
  ]

  outcome-IsClosed :
      (outcome : Outcome)
      → Closes cal now is_begun outcome
      → (rows' : Rows) × ((elim outcome [
        | returns rows ↦ some rows
        | fails e committed ↦ fail_operation e.message now committed
      ])
          ≡ some rows')
        × IsClosed cal now rows'
  unfolding Closes
  outcome-IsClosed (returns rows) h = (rows, refl, h)
  outcome-IsClosed (fails e rows) h = fail_operation-IsClosed e.message rows h

  -- Whatever Calibre, the file checks and the restore answer, a turn of the writer on a claimed
  -- operation ends it: the operation is in a final state with its time of completion, the lock on
  -- its book is free of it, its event is published if it succeeded and failed if not, and a success
  -- is recorded with metadata read back from Calibre that match the target.
  pub turn-IsClosed :
      (calls : Answers) (rows : Rows)
      → rows.operation.state ≡ claimed
      → (rows' : Rows) × (turn cal calls now rows ≡ some rows') × IsClosed cal now rows'
  unfolding turn
  turn-IsClosed calls rows start =
      outcome-IsClosed (process cal calls now rows) (process-Closes calls rows start)

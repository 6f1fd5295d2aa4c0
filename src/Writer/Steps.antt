-- ===== src/Writer/Steps.antt =====
-- The steps that the functions of src/calibre_ai_auditor/apply/writer.py share: transitions, the end of
-- the outbox event, `_mark_unknown` and `fail_operation`. The clock is one argument of each.
use calibre_bookwarden.Prelude.{
  ℕ, String, Bool, true, false, ◌||◌, Option, none, some, str_eq, if◌then◌else◌,
}
use calibre_bookwarden.Prelude.Fallible.{◌>>=◌}
use calibre_bookwarden.Operations.{
  OpState, claimed, writing, verifying, restoring, restore_failed, unknown, failed,
  transition_operation, state_eq,
}
use calibre_bookwarden.Writer.{Rows, Outcome, returns, fails}

-- The operation holds the lock on its book.
abbrev pub holds_lock : Rows → Bool
holds_lock rows = elim rows.lock [
  | none ↦ false
  | some lock ↦ str_eq lock.operation_id rows.operation.operation_id
]

-- `_finish_outbox`
unfoldable pub finish_outbox : String → Option String → Rows → Rows
finish_outbox status error rows = record rows {
  event = record (rows.event) { status = status; last_error = error };
  lock = if holds_lock rows then none else rows.lock;
}

-- `book.status = status`, where there is a book
unfoldable pub set_book : String → Rows → Rows
set_book status rows = record rows {
  book = elim rows.book [ none ↦ none | some b ↦ some (record b { status = status }) ];
}

-- `change.status = status`, where there is a change
unfoldable pub set_change : String → Rows → Rows
set_change status rows = record rows {
  change = elim rows.change [ none ↦ none | some c ↦ some (record c { status = status }) ];
}

-- `transition_operation(operation, state, error=error)`
unfoldable pub move : OpState → Option String → ℕ → Rows → Option Rows
move state error now rows = transition_operation rows.operation state error now >>= λ op.
    some (record rows { operation = op })

-- `if operation.state in {"writing", "verifying"}: transition_operation(operation, "restoring")`
unfoldable pub start_restoring : ℕ → Rows → Option Rows
start_restoring now rows =
    if state_eq rows.operation.state writing || state_eq rows.operation.state verifying
    then move restoring none now rows
    else some rows

-- A last transition, the status of the book, and the end of the outbox event.
unfoldable pub settle :
    OpState → Option String → String → String → Option String → ℕ → Rows → Option Rows
settle state error book status event_error now rows = move state error now rows >>= λ moved.
    some (finish_outbox status event_error (set_book book moved))

-- The end of a run: what it committed before, if a transition is refused. The message of that
-- ValueError leaves out the two states.
abbrev pub ends : Rows → Option Rows → Outcome
ends committed none =
    fails (record { is_expected = true; message = "Invalid operation transition" }) committed
ends committed (some rows) = returns rows

-- `_mark_unknown`
unfoldable pub mark_unknown : String → ℕ → Rows → Option Rows
mark_unknown error now rows =
    if state_eq rows.operation.state writing || state_eq rows.operation.state verifying
    then move unknown (some error) now rows
    else if state_eq rows.operation.state restoring
    then move restore_failed (some error) now rows
    else some rows

-- The state to which `fail_operation` takes an operation.
abbrev pub failure_state : OpState → Option OpState
failure_state claimed = some failed
failure_state writing = some unknown
failure_state verifying = some unknown
failure_state restoring = some restore_failed
failure_state _ = none

-- `fail_operation`
unfoldable pub fail_operation : String → ℕ → Rows → Option Rows
fail_operation error now rows =
    elim (failure_state rows.operation.state) [
      | none ↦ some rows
      | some state ↦ move state (some error) now rows
    ]
    >>= λ moved. some (finish_outbox "failed" (some error) (set_book "error" moved))

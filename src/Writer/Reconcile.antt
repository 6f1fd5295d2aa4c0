-- ===== src/Writer/Reconcile.antt =====
-- `reconcile_incomplete_operations` and `_reconcile_undo` of src/calibre_ai_auditor/apply/writer.py, for
-- one operation. Inside the `try` blocks, `fails e rows` is an exception with the rows as they are
-- then, from which the handler goes on.
use calibre_bookwarden.Prelude.{
  ℕ, String, Bool, false, not, ◌&&◌, Option, none, some, ltb, str_eq, is_some, str_append,
  if◌then◌else◌,
}
use calibre_bookwarden.Prelude.Dict.{Dict}
use calibre_bookwarden.Prelude.Fallible.{◌>>=◌}
use calibre_bookwarden.Operations.{
  requested, writing, verifying, succeeded, restored, restore_failed, Operation, state_eq,
}
use calibre_bookwarden.Identity.{Json}
use calibre_bookwarden.Identity.Patch.{get_json}
use calibre_bookwarden.Writer.{
  Exception, Answer, answers, raises, Rows, Outcome, returns, fails, Calibre, matches_patch,
}
use calibre_bookwarden.Writer.Steps.{
  holds_lock, finish_outbox, set_book, set_change, move, start_restoring, settle, ends,
  mark_unknown,
}
use calibre_bookwarden.Writer.Process.{is_id, is_v2, value_error, other_error, align_paths}

-- The answers of the calls in the recovery of one operation, in the order of the calls.
pub record RecoveryCalls : Type 0 where
  pub observed : Answer (Dict Json)
  -- `_verify_v2_live_files` with `allow_relocation`
  pub files : Answer (Unit {0})
  -- `_restore_change` or `_restore_operation_rollback`, and the `show_metadata` after it
  pub restore : Answer (Unit {0})
  pub restored_metadata : Answer (Dict Json)

-- `_lease_active`
abbrev pub lease_active : Option ℕ → ℕ → Bool
lease_active none now = false
lease_active (some expires_at) now = ltb now expires_at

-- The branch of a claimed operation; `none` where it is left to its owner.
unfoldable pub release_claim : ℕ → Rows → Option Rows
release_claim now rows =
    if lease_active rows.operation.lease_expires_at now
    then none
    else move requested none now rows >>= λ moved. some (record moved {
      operation = record (moved.operation) { lease_owner = none; lease_expires_at = none };
      event = record (moved.event) { status = "pending"; last_error = none };
      lock = if holds_lock moved then none else moved.lock;
    })

-- `_mark_unknown`, the status of the book, and the end of the outbox event.
unfoldable pub mark_settle : String → (Operation Json → Option String) → ℕ → Rows → Option Rows
mark_settle error event_error now rows = mark_unknown error now rows >>= λ marked.
    some (finish_outbox "failed" (event_error marked.operation) (set_book "error" marked))

-- `operation.error`
abbrev pub own_error : Operation Json → Option String
own_error op = op.error

module _ (cal : Calibre) (calls : RecoveryCalls) (now : ℕ) where
  -- The restore, and what `show_metadata` gives after it.
  abbrev pub restoration : Answer (Dict Json)
  restoration = elim calls.restore [ raises e ↦ raises e | answers _ ↦ calls.restored_metadata ]

  -- The files are not those of the package.
  unfoldable pub files_changed : Exception → Dict Json → Rows → Outcome
  files_changed e before rows =
      let changed = str_append "V2 ebook snapshot changed: " e.message in
      elim rows.change [
        | none ↦ ends rows (mark_settle changed own_error now rows)
        | some change ↦ elim (start_restoring now rows) [
          | none ↦ ends rows none
          | some started ↦ elim restoration [
            | raises r ↦ fails r started
            | answers metadata ↦
                if matches_patch cal metadata before
                then ends started (
                    settle restored (some changed) "error" "failed" (some changed) now
                      (set_change "failed_rolled_back" started))
                else fails (other_error "restore verification failed after ebook snapshot change")
                    started
          ]
        ]
      ]

  -- Calibre has the target.
  unfoldable pub target_observed : Rows → Outcome
  target_observed rows =
      let verified : Option Rows =
        if state_eq rows.operation.state writing then move verifying none now rows else some rows in
      elim verified [
        | none ↦ ends rows none
        | some started ↦
            if state_eq started.operation.state verifying
            then ends started (
                settle succeeded none "applied" "published" none now (set_change "applied" started))
            else ends started (mark_settle "target observed during restore" own_error now started)
      ]

  -- Calibre has neither the target nor the metadata before.
  unfoldable pub partial_state : Dict Json → Rows → Outcome
  partial_state before rows = elim rows.change [
    | none ↦ ends rows (mark_settle "partial state without restore point" own_error now rows)
    | some change ↦ elim (start_restoring now rows) [
      | none ↦ ends rows none
      | some started ↦ elim restoration [
        | raises e ↦ fails e started
        | answers metadata ↦
            if matches_patch cal metadata before
            then ends started (
                settle restored none "suggest_fix" "failed" (some "partial state restored") now
                  (set_change "failed_rolled_back" started))
            else ends started (
                settle restore_failed (some "restore verification failed") "error" "failed"
                  (some "restore verification failed") now
                  (set_change "failed_rollback_failed" started))
      ]
    ]
  ]

  -- The comparison of what Calibre has with target and metadata before.
  unfoldable pub compare_state : Dict Json → Dict Json → Rows → Outcome
  compare_state metadata before rows = elim rows.operation.target_metadata [
    | none ↦ fails (other_error "'NoneType' object has no attribute 'items'") rows
    | some target ↦
        if matches_patch cal metadata target
        then target_observed rows
        else if matches_patch cal metadata before
        then elim (start_restoring now rows) [
          | none ↦ ends rows none
          | some started ↦ ends started (
              settle restored none "suggest_fix" "failed" (some "previous state already restored")
                now (set_change "failed_rolled_back" started))
        ]
        else partial_state before rows
  ]

  -- `_verify_v2_live_files` and `_align_verified_calibre_paths`
  abbrev pub check_files : Dict Json → Rows → Answer Rows
  check_files metadata rows = elim calls.files [
    | raises e ↦ raises e
    | answers _ ↦ elim (align_paths metadata rows.operation) [
      | none ↦ raises (value_error "operation target metadata is unavailable")
      | some op ↦ answers (record rows { operation = op })
    ]
  ]

  -- The `try` block.
  unfoldable pub recover : Dict Json → Rows → Outcome
  recover before rows = elim calls.observed [
    | raises e ↦ fails e rows
    | answers metadata ↦
        let seen : Rows = record rows {
          operation = record (rows.operation) { observed_metadata = some metadata };
        } in
        if is_v2 seen
        then elim (check_files metadata seen) [
          | answers aligned ↦ compare_state metadata before aligned
          | raises e ↦ if e.is_expected then files_changed e before seen else fails e seen
        ]
        else compare_state metadata before seen
  ]

  -- The branch of an interrupted write.
  unfoldable pub reconcile_write : Rows → Option Rows
  reconcile_write rows =
      let has_id =
        elim rows.book [ none ↦ false | some book ↦ is_id book.calibre_book_id ]
        && is_some rows.operation.target_metadata in
      elim rows.operation.before_metadata [
        | none ↦ mark_settle "insufficient recovery evidence" own_error now rows
        | some before ↦
            if not has_id
            then mark_settle "insufficient recovery evidence" own_error now rows
            else elim (recover before rows) [
              | returns rows' ↦ some rows'
              | fails e rows' ↦
                  mark_settle e.message (λ _. some e.message) now
                    (set_change "failed_rollback_failed" rows')
            ]
      ]

  -- Calibre has the target of the undo.
  unfoldable pub undo_observed : Rows → Outcome
  undo_observed rows =
      let verified : Option Rows =
        if state_eq rows.operation.state writing then move verifying none now rows else some rows in
      elim verified [
        | none ↦ ends rows none
        | some started ↦
            if state_eq started.operation.state verifying
            then ends started (
                settle succeeded none "suggest_fix" "published" none now
                  (set_change "undone" started))
            else fails (other_error "undo target observed while restore was in progress") started
      ]

  -- The `try` block of `_reconcile_undo`.
  unfoldable pub recover_undo : Dict Json → Dict Json → Rows → Outcome
  recover_undo before target rows = elim calls.observed [
    | raises e ↦ fails e rows
    | answers metadata ↦
        let seen : Rows = record rows {
          operation = record (rows.operation) { observed_metadata = some metadata };
        } in
        if matches_patch cal metadata target
        then undo_observed seen
        else elim (start_restoring now seen) [
          | none ↦ ends seen none
          | some started ↦
              if matches_patch cal metadata before
              then ends started (
                  settle restored none "applied" "failed" (some "pre-undo state preserved") now
                    started)
              else if not (is_some started.operation.rollback_opf_path)
              then fails (other_error "undo rollback artifact is unavailable") started
              else elim restoration [
                | raises e ↦ fails e started
                | answers found ↦
                    if matches_patch cal found before
                    then ends started (
                        settle restored none "applied" "failed" (some "partial undo restored") now
                          started)
                    else fails (other_error "undo rollback verification failed") started
              ]
        ]
  ]

  -- `operation.change_id or operation.requested_patch.get("change_id")`, if it is an int
  abbrev pub change_ref : Operation Json → Option ℕ
  change_ref op =
      if is_id op.change_id
      then op.change_id
      else cal.as_int (get_json "change_id" op.requested_patch)

  -- Whether the row has what the recovery of an undo needs.
  abbrev pub is_undoable : Rows → Bool
  is_undoable rows =
      is_some (change_ref rows.operation)
      && (is_some rows.change
          && elim rows.book [ none ↦ false | some book ↦ is_id book.calibre_book_id ])

  -- `_reconcile_undo`
  unfoldable pub reconcile_undo : Rows → Option Rows
  reconcile_undo rows =
      if not (is_undoable rows)
      then mark_settle "insufficient undo recovery evidence" own_error now rows
      else elim rows.operation.before_metadata [
        | none ↦ mark_settle "insufficient undo recovery evidence" own_error now rows
        | some before ↦ elim rows.operation.target_metadata [
          | none ↦ mark_settle "insufficient undo recovery evidence" own_error now rows
          | some target ↦ elim (recover_undo before target rows) [
            | returns rows' ↦ some rows'
            | fails e rows' ↦ mark_settle e.message (λ _. some e.message) now rows'
          ]
        ]
      ]

  -- One turn of the loop in `reconcile_incomplete_operations`, for an operation that was not claimed.
  unfoldable pub reconcile_started : Rows → Option Rows
  reconcile_started rows =
      if str_eq rows.operation.operation_type "undo_change"
      then reconcile_undo rows
      else reconcile_write rows

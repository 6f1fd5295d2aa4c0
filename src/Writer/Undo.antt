-- ===== src/Writer/Undo.antt =====
-- `MetadataWriter._process_undo` of src/calibre_ai_auditor/apply/writer.py, the whole of `process`, and
-- the turn of the writer's loop in src/calibre_ai_auditor/cli/main.py that runs it.
use calibre_bookwarden.Prelude.{
  ℕ, String, Bool, not, ◌||◌, Option, none, some, [], ◌∷◌, str_eq, is_nonempty, if◌then◌else◌,
}
use calibre_bookwarden.Prelude.Dict.{Dict}
use calibre_bookwarden.Prelude.Fallible.{◌>>=◌}
use calibre_bookwarden.Verdict.{Text}
use calibre_bookwarden.Operations.{
  claimed, writing, verifying, restoring, succeeded, restored, restore_failed, failed, state_eq,
  Operation,
}
use calibre_bookwarden.Identity.{Json}
use calibre_bookwarden.Identity.Patch.{get_json}
use calibre_bookwarden.Apply.{BookRecord}
use calibre_bookwarden.Apply.Checks.{opt_eq, same_number}
use calibre_bookwarden.Writer.{
  Change, Answer, answers, raises, Rows, Outcome, returns, fails, Calibre, value_or, text_or_blank,
  matches_patch,
}
use calibre_bookwarden.Writer.Steps.{set_change, move, settle, ends, fail_operation}
use calibre_bookwarden.Writer.Process.{
  Calls, is_id, value_error, other_error, is_as_expected, process_apply,
}

-- The answers of the calls in one undo, in the order of the calls.
pub record UndoCalls : Type 0 where
  -- `_require_artifact` of the change's backup
  pub artifact : Answer (Unit {0})
  pub before : Answer (Dict Json)
  -- `export_opf` with `bind_exported_artifact`: the path and the digest; the same of the cover
  pub backup : Answer (Text × String)
  pub cover_backup : Answer (Text × String)
  -- `_restore_change`
  pub restore : Answer (Unit {0})
  pub observed : Answer (Dict Json)
  -- `_require_artifact` of the own backup, `_restore_operation_rollback`, `show_metadata`
  pub own_artifact : Answer (Unit {0})
  pub rollback : Answer (Unit {0})
  pub restored_metadata : Answer (Dict Json)

-- The undo is refused: identity or change are not what they were when it was queued.
abbrev pub is_undo_stale : BookRecord → Change → Operation Json → Bool
is_undo_stale book change op =
    not (is_id book.calibre_book_id)
    || (not (same_number book.calibre_book_id op.calibre_book_id)
        || (not (opt_eq (some book.run_id) op.run_id) || not (str_eq change.status "applied")))

module _ (cal : Calibre) where
  -- `{column: str(before.get(column) or before.get("edition_statement") or "") for column in …}`
  unfoldable pub custom_before : Dict Json → Dict Text → Dict Text
  custom_before before [] = []
  custom_before before ((column, value) ∷ custom) =
      (
        column,
        text_or_blank cal
            (value_or cal (get_json column before) (get_json "edition_statement" before)),
      )
      ∷ custom_before before custom

  -- The operation with its own way back: OPF, cover if the change has one, and custom columns.
  unfoldable pub with_rollback :
      Dict Json → Change → Text × String → Option (Text × String) → Operation Json → Operation Json
  with_rollback before change (opf, opf_sha256) cover op = record op {
    rollback_opf_path = some opf;
    rollback_opf_sha256 = some opf_sha256;
    rollback_cover_path = elim cover [
      | none ↦ op.rollback_cover_path
      | some (path, sha256) ↦ some path
    ];
    rollback_cover_sha256 = elim cover [
      | none ↦ op.rollback_cover_sha256
      | some (path, sha256) ↦ some sha256
    ];
    rollback_custom =
        if is_nonempty change.before_custom
        then custom_before before change.before_custom
        else op.rollback_custom;
    change_id = some change.change_id;
    before_metadata = some before;
    target_metadata = some change.before_metadata;
  }

  module _ (calls : UndoCalls) (now : ℕ) where
    -- `_require_artifact`, `_restore_operation_rollback` and the comparison with what was before
    abbrev pub undo_restoration : Dict Json → Answer (Unit {0})
    undo_restoration before = elim calls.own_artifact [
      | raises e ↦ raises e
      | answers _ ↦ elim calls.rollback [
        | raises e ↦ raises e
        | answers _ ↦ elim calls.restored_metadata [
          | raises e ↦ raises e
          | answers metadata ↦
              if matches_patch cal metadata before
              then answers tt
              else raises (other_error "undo rollback verification failed")
        ]
      ]
    ]

    -- Calibre does not have the old metadata.
    unfoldable pub undo_missed : Dict Json → Rows → Option Rows
    undo_missed before rows = move restoring none now rows >>= λ rows'.
        elim (undo_restoration before) [
          | answers _ ↦
              settle restored none "applied" "failed" (some "partial undo restored") now rows'
          | raises e ↦
              settle restore_failed (some e.message) "error" "failed" (some e.message) now rows'
        ]

    -- From the commit of the state `writing` on.
    unfoldable pub undo_write : Dict Json → Change → Rows → Outcome
    undo_write before change committed = elim calls.restore [
      | raises e ↦ fails e committed
      | answers _ ↦ elim (move verifying none now committed) [
        | none ↦ ends committed none
        | some rows ↦ elim calls.observed [
          | raises e ↦ fails e committed
          | answers metadata ↦
              let seen : Rows = record rows {
                operation = record (rows.operation) { observed_metadata = some metadata };
              } in
              if matches_patch cal metadata change.before_metadata
              then ends committed (
                  settle succeeded none "suggest_fix" "published" none now
                    (set_change "undone" seen))
              else ends committed (undo_missed before seen)
        ]
      ]
    ]

    -- The backup of what Calibre has, and the state `writing`.
    unfoldable pub undo_backup : Dict Json → Change → Rows → Outcome
    undo_backup before change rows = elim calls.backup [
      | raises e ↦ fails e rows
      | answers opf ↦
          let start : Option (Text × String) → Outcome = λ cover.
            elim (move writing none now
              (record rows { operation = with_rollback before change opf cover rows.operation })) [
                | none ↦ ends rows none
                | some committed ↦ undo_write before change committed
              ] in
          elim change.backup_cover_path [
            | none ↦ start none
            | some path ↦
                if is_nonempty path
                then elim calls.cover_backup [
                  | raises e ↦ fails e rows
                  | answers cover ↦ start (some cover)
                ]
                else start none
          ]
    ]

    -- `_process_undo`
    unfoldable pub process_undo : Rows → Outcome
    process_undo rows = elim (cal.as_int (get_json "change_id" rows.operation.requested_patch)) [
      | none ↦ fails (value_error "Undo operation has no valid change id") rows
      | some _ ↦ elim rows.change [
        | none ↦ fails (value_error "Change not found") rows
        | some change ↦ elim rows.book [
          | none ↦ fails (other_error "No row was found when one was required") rows
          | some book ↦
              if is_undo_stale book change rows.operation
              then ends rows (
                  settle failed (some "undo identity or change status is stale") "error" "failed"
                    (some "undo identity or change status is stale") now rows)
              else elim calls.artifact [
                | raises e ↦ fails e rows
                | answers _ ↦ elim calls.before [
                  | raises e ↦ fails e rows
                  | answers before ↦
                      if is_as_expected cal before rows.operation
                      then undo_backup before change rows
                      else ends rows (
                          settle failed (some "live metadata changed after undo was queued")
                            "applied" "failed" (some "live metadata changed after undo was queued")
                            now rows)
                ]
              ]
        ]
      ]
    ]

-- The two sets of answers that `process` may need, of which it uses one.
pub record Answers : Type 0 where
  pub apply : Calls
  pub undo : UndoCalls

module _ (cal : Calibre) (calls : Answers) (now : ℕ) where
  -- `process`
  unfoldable pub process : Rows → Outcome
  process rows =
      if not (state_eq rows.operation.state claimed)
      then fails (value_error "Operation is not claimed") rows
      else if str_eq rows.operation.operation_type "undo_change"
      then process_undo cal calls.undo now rows
      else process_apply cal calls.apply now rows

  -- `process`, and after an exception `session.rollback()` and `fail_operation`
  unfoldable pub turn : Rows → Option Rows
  turn rows = elim (process rows) [
    | returns rows' ↦ some rows'
    | fails e committed ↦ fail_operation e.message now committed
  ]

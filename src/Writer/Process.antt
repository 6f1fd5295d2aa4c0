-- ===== src/Writer/Process.antt =====
-- `MetadataWriter.process` of src/calibre_ai_auditor/apply/writer.py for an operation that applies a
-- patch. `ends committed rows` commits `rows`, and stays at `committed` if a transition is refused.
use calibre_bookwarden.Prelude.{
  ℕ, String, Bool, true, false, not, Option, none, some, ◌==◌, str_eq, is_some, str_append,
  if◌then◌else◌,
}
use calibre_bookwarden.Prelude.Dict.{Dict, lookup, insert, delete, merge}
use calibre_bookwarden.Prelude.Fallible.{◌>>=◌}
use calibre_bookwarden.Operations.{
  writing, verifying, restoring, succeeded, restored, restore_failed, unknown, failed, Operation,
}
use calibre_bookwarden.Identity.{Json}
use calibre_bookwarden.Writer.{
  Change, Exception, Answer, answers, raises, Rows, Outcome, fails, Calibre, matches_patch,
}
use calibre_bookwarden.Writer.Steps.{set_change, move, settle, ends}

-- What `ApplyEngine.apply_patch` leaves: the change it returns, or its exception and the row Change
-- that it committed before, if any.
pub data Applied : Type 0 where
  written : Change → Applied
  refused : Exception → Option Change → Applied

-- The answers of the calls in one run, in the order of the calls.
pub record Calls : Type 0 where
  -- `validate_apply_operation`, whose expected exceptions are ValueError and TypeError
  pub validated : Answer (Unit {0})
  -- `show_metadata` and `_verify_v2_live_files` before the write
  pub before : Answer (Dict Json)
  pub files_before : Answer (Unit {0})
  pub applied : Applied
  -- the same two after it
  pub post_write : Answer (Dict Json)
  pub files_after : Answer (Unit {0})
  -- `show_metadata` for the comparison with the target
  pub observed : Answer (Dict Json)
  -- `_restore_change` and the `show_metadata` after it
  pub restore : Answer (Unit {0})
  pub restored_metadata : Answer (Dict Json)

-- `not book.calibre_book_id`, negated
abbrev pub is_id : Option ℕ → Bool
is_id none = false
is_id (some n) = not (n == 0)

abbrev pub is_v2 : Rows → Bool
is_v2 rows = str_eq rows.operation.policy_version "manifestation-v2"

abbrev pub value_error : String → Exception
value_error message = record { is_expected = true; message = message }

abbrev pub other_error : String → Exception
other_error message = record { is_expected = false; message = message }

-- `dict(before)` with the requested patch, without the old edition where the patch has one.
unfoldable pub target_of : Dict Json → Dict Json → Dict Json
target_of before patch =
    merge
      (if is_some (lookup "edition_statement" patch)
        then delete "edition_statement" (delete "#edition" before)
        else before)
      patch

-- `if field in target and field in observed: target[field] = observed[field]`
unfoldable pub align_field : String → Dict Json → Dict Json → Dict Json
align_field field observed target =
    if is_some (lookup field target)
    then elim (lookup field observed) [ none ↦ target | some value ↦ insert field value target ]
    else target

-- `_align_verified_calibre_paths`
unfoldable pub align_paths : Dict Json → Operation Json → Option (Operation Json)
align_paths observed op = elim op.target_metadata [
  | none ↦ none
  | some target ↦ some (record op {
    target_metadata = some (align_field "path" observed (align_field "formats" observed target));
  })
]

-- `show_metadata`, `_verify_v2_live_files` and `_align_verified_calibre_paths` after the write
unfoldable pub check_files : Calls → Rows → Answer Rows
check_files calls rows = elim calls.post_write [
  | raises e ↦ raises e
  | answers observed ↦ elim calls.files_after [
    | raises e ↦ raises e
    | answers _ ↦ elim (align_paths observed rows.operation) [
      | none ↦ raises (value_error "operation target metadata is unavailable")
      | some op ↦ answers (record rows { operation = op })
    ]
  ]
]

-- The handler of an exception of `apply_patch`, for the change that it left.
unfoldable pub write_failed : Exception → Option Change → ℕ → Rows → Option Rows
write_failed e none now rows =
    settle unknown (some e.message) "error" "failed" (some e.message) now rows
write_failed e (some change) now rows =
    if str_eq change.status "failed_rolled_back"
    then move restoring none now rows
      >>= settle restored (some e.message) "suggest_fix" "failed" (some e.message) now
    else if str_eq change.status "failed_rollback_failed"
    then move restoring none now rows
      >>= settle restore_failed (some e.message) "error" "failed" (some e.message) now
    else settle unknown (some e.message) "error" "failed" (some e.message) now rows

module _ (cal : Calibre) where
  -- `operation.expected_before_metadata is None or not _matches_patch(before, …)`, negated
  abbrev pub is_as_expected : Dict Json → Operation Json → Bool
  is_as_expected before op = elim op.expected_before_metadata [
    | none ↦ false
    | some expected ↦ matches_patch cal before expected
  ]

module _ (cal : Calibre) (calls : Calls) (now : ℕ) where
  -- `_restore_change`, then the comparison of what Calibre has with the metadata before the write
  abbrev pub restoration : String → Dict Json → Answer (Unit {0})
  restoration message before = elim calls.restore [
    | raises e ↦ raises e
    | answers _ ↦ elim calls.restored_metadata [
      | raises e ↦ raises e
      | answers metadata ↦
          if matches_patch cal metadata before then answers tt else raises (other_error message)
    ]
  ]

  -- The files changed during the write.
  unfoldable pub files_changed : Exception → Dict Json → Rows → Option Rows
  files_changed e before rows =
      let changed = str_append "ebook changed during metadata write: " e.message in
      move restoring none now rows >>= λ rows'.
      elim (restoration "restore verification failed after ebook snapshot change" before) [
        | answers _ ↦
            settle restored (some changed) "error" "failed" (some changed) now
              (set_change "failed_rolled_back" rows')
        | raises r ↦
            settle restore_failed (some r.message) "error" "failed" (some r.message) now
              (set_change "failed_rollback_failed" rows')
      ]

  -- Calibre does not have the target.
  unfoldable pub write_missed : Dict Json → Rows → Option Rows
  write_missed before rows = move restoring none now rows >>= λ rows'.
      elim (restoration "restore verification failed" before) [
        | answers _ ↦
            settle restored none "suggest_fix" "failed" (some "partial write restored") now
              (set_change "failed_rolled_back" rows')
        | raises r ↦
            settle restore_failed (some r.message) "error" "failed" (some r.message) now
              (set_change "failed_rollback_failed" rows')
      ]

  -- The comparison of what Calibre has with the target.
  unfoldable pub observe : Rows → Dict Json → Rows → Outcome
  observe committed before rows = elim calls.observed [
    | raises e ↦ fails e committed
    | answers metadata ↦
        let seen : Rows = record rows {
          operation = record (rows.operation) { observed_metadata = some metadata };
        } in
        elim rows.operation.target_metadata [
          | none ↦ fails (other_error "'NoneType' object has no attribute 'items'") committed
          | some target ↦
              if matches_patch cal metadata target
              then ends committed (settle succeeded none "applied" "published" none now seen)
              else ends committed (write_missed before seen)
        ]
  ]

  -- From the return of `apply_patch` on.
  unfoldable pub verify_write : Rows → Dict Json → Change → Outcome
  verify_write committed before change =
      let recorded : Rows = record committed {
        operation = record (committed.operation) {
          change_id = some change.change_id;
          rollback_opf_path = some change.backup_opf_path;
          rollback_opf_sha256 = change.backup_opf_sha256;
        };
      } in
      elim (move verifying none now recorded) [
        | none ↦ ends committed none
        | some rows ↦
            if is_v2 rows
            then elim (check_files calls rows) [
              | answers aligned ↦ observe committed before aligned
              | raises e ↦
                  if e.is_expected
                  then ends committed (files_changed e before rows)
                  else fails e committed
            ]
            else observe committed before rows
      ]

  -- The write, from the commit of the state `writing` on.
  unfoldable pub write : Dict Json → Rows → Outcome
  write before rows =
      let op = rows.operation in
      let prepared : Rows = record rows {
        operation = record op {
          before_metadata = some before;
          target_metadata = some (target_of before op.requested_patch);
        };
      } in
      elim (move writing none now prepared) [
        | none ↦ ends rows none
        | some committed ↦ elim calls.applied [
          | written change ↦ verify_write (record committed { change = some change }) before change
          | refused e change ↦
              let left : Rows = record committed { change = change } in
              ends left (write_failed e change now left)
        ]
      ]

  unfoldable pub refuse : String → String → Rows → Outcome
  refuse error book rows =
      ends rows (settle failed (some error) book "failed" (some error) now rows)

  unfoldable pub check_before : Dict Json → Rows → Outcome
  check_before before rows =
      if is_as_expected cal before rows.operation
      then write before rows
      else refuse "live metadata changed after authorization" "suggest_fix" rows

  -- `process`, for a claimed operation that is no undo
  unfoldable pub process_apply : Rows → Outcome
  process_apply rows = elim rows.book [
    | none ↦ fails (other_error "No row was found when one was required") rows
    | some book ↦
        if not (is_id book.calibre_book_id)
        then fails (value_error "Operation has no Calibre book id") rows
        else elim calls.validated [
          | raises e ↦ if e.is_expected then refuse e.message "error" rows else fails e rows
          | answers _ ↦ elim calls.before [
            | raises e ↦ fails e rows
            | answers before ↦
                if is_v2 rows
                then elim calls.files_before [
                  | raises e ↦
                      if e.is_expected
                      then refuse
                          (str_append "live ebook snapshot changed after authorization: " e.message)
                          "error" rows
                      else fails e rows
                  | answers _ ↦ check_before before rows
                ]
                else check_before before rows
          ]
        ]
  ]

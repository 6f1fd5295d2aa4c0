-- ===== src/Writer/Undoing.antt =====
-- The same of a run of `_process_undo`.
use calibre_bookwarden.Prelude.{
  ℕ, ◌≡◌, refl, ap, ◌∙◌, String, true, Option, none, some, is_nonempty,
}
use calibre_bookwarden.Prelude.Dict.{Dict}
use calibre_bookwarden.Verdict.{Text}
use calibre_bookwarden.Operations.{writing, verifying, succeeded, restored, restore_failed, failed}
use calibre_bookwarden.Identity.{Json}
use calibre_bookwarden.Identity.Patch.{get_json}
use calibre_bookwarden.Writer.{Change, Rows, Calibre, matches_patch}
use calibre_bookwarden.Writer.Steps.{set_change, move, ends}
use calibre_bookwarden.Writer.Process.{is_as_expected}
use calibre_bookwarden.Writer.Undo.{
  UndoCalls, is_undo_stale, with_rollback, undo_restoration, undo_missed, undo_write, undo_backup,
  process_undo,
}
use calibre_bookwarden.Writer.Moves.{moved-state, moved-target}
use calibre_bookwarden.Writer.Closed.{
  Closes, Ends, >>=-Ends, ends-Closes, fails-Closes, if-Closes, option-Closes, answer-Closes,
  answer-Ends, settle-Ends, failure-Ends,
}
use calibre_bookwarden.Writer.Applying.{is_begun}

module _ (cal : Calibre) (now : ℕ) (calls : UndoCalls) where
  undo_missed-Ends :
      (before : Dict Json) (rows : Rows) → Ends cal now (undo_missed cal calls now before rows)
  unfolding undo_missed
  undo_missed-Ends before rows = >>=-Ends cal now _ _ (λ r.
      answer-Ends cal now (undo_restoration cal calls now before) _ _
        (λ _. failure-Ends cal now restored _ _ _ _ refl refl)
        (λ x. failure-Ends cal now restore_failed _ _ _ _ refl refl))

  undo_write-Closes :
      (before : Dict Json) (change : Change) (committed : Rows)
      → is_begun committed.operation.state ≡ true
      → committed.operation.target_metadata ≡ some change.before_metadata
      → Closes cal now is_begun (undo_write cal calls now before change committed)
  unfolding undo_write set_change
  undo_write-Closes before change committed begun target =
      answer-Closes cal now is_begun calls.restore _ _
        (λ _.
          option-Closes cal now is_begun (move verifying none now committed) _ _
            (λ rows moved.
              answer-Closes cal now is_begun calls.observed _ _
                (λ metadata.
                  if-Closes cal now is_begun (matches_patch cal metadata change.before_metadata) _ _
                    (λ matched. ends-Closes cal now is_begun committed _ begun (
                      settle-Ends cal now succeeded _ _ _ _ _ refl refl (λ _. (
                        metadata,
                        change.before_metadata,
                        refl,
                        moved-target verifying none now committed rows moved ∙ target,
                        matched,
                      ))))
                    (λ _.
                      ends-Closes cal now is_begun committed _ begun (undo_missed-Ends before _)))
                (λ _. fails-Closes cal now is_begun _ _ begun))
            (fails-Closes cal now is_begun _ _ begun))
        (λ _. fails-Closes cal now is_begun _ _ begun)

  -- The run from the state `writing` on, with the cover's backup if there is one.
  started-Closes :
      (before : Dict Json) (change : Change) (opf : Text × String) (cover : Option (Text × String))
      (rows : Rows)
      → is_begun rows.operation.state ≡ true
      → Closes cal now is_begun
          (elim (move writing none now (record rows {
            operation = with_rollback cal before change opf cover rows.operation;
          })) [
            | none ↦ ends rows none
            | some committed ↦ undo_write cal calls now before change committed
          ])
  unfolding with_rollback
  started-Closes before change opf cover rows begun =
      option-Closes cal now is_begun
        (move writing none now
          (record rows { operation = with_rollback cal before change opf cover rows.operation }))
        _ _
        (λ committed moved.
          undo_write-Closes before change committed
            (ap (is_begun) (moved-state writing none now _ committed moved))
            (moved-target writing none now _ committed moved))
        (fails-Closes cal now is_begun _ _ begun)

  undo_backup-Closes :
      (before : Dict Json) (change : Change) (rows : Rows)
      → is_begun rows.operation.state ≡ true
      → Closes cal now is_begun (undo_backup cal calls now before change rows)
  unfolding undo_backup
  undo_backup-Closes before change rows begun =
      answer-Closes cal now is_begun calls.backup _ _
        (λ opf.
          option-Closes cal now is_begun change.backup_cover_path _ _
            (λ path _.
              if-Closes cal now is_begun (is_nonempty path) _ _
                (λ _.
                  answer-Closes cal now is_begun calls.cover_backup _ _
                    (λ cover. started-Closes before change opf (some cover) rows begun)
                    (λ _. fails-Closes cal now is_begun _ _ begun))
                (λ _. started-Closes before change opf none rows begun))
            (started-Closes before change opf none rows begun))
        (λ _. fails-Closes cal now is_begun _ _ begun)

  pub process_undo-Closes :
      (rows : Rows)
      → is_begun rows.operation.state ≡ true
      → Closes cal now is_begun (process_undo cal calls now rows)
  unfolding process_undo
  process_undo-Closes rows begun =
      option-Closes cal now is_begun
        (cal.as_int (get_json "change_id" rows.operation.requested_patch)) _ _
        (λ _ _.
          option-Closes cal now is_begun rows.change _ _
            (λ change _.
              option-Closes cal now is_begun rows.book _ _
                (λ book _.
                  if-Closes cal now is_begun (is_undo_stale book change rows.operation) _ _
                    (λ _.
                      ends-Closes cal now is_begun rows _ begun
                        (failure-Ends cal now failed _ _ _ _ refl refl))
                    (λ _.
                      answer-Closes cal now is_begun calls.artifact _ _
                        (λ _.
                          answer-Closes cal now is_begun calls.before _ _
                            (λ before.
                              if-Closes cal now is_begun (is_as_expected cal before rows.operation)
                                _ _ (λ _. undo_backup-Closes before change rows begun)
                                (λ _.
                                  ends-Closes cal now is_begun rows _ begun
                                    (failure-Ends cal now failed _ _ _ _ refl refl)))
                            (λ _. fails-Closes cal now is_begun _ _ begun))
                        (λ _. fails-Closes cal now is_begun _ _ begun)))
                (fails-Closes cal now is_begun _ _ begun))
            (fails-Closes cal now is_begun _ _ begun))
        (fails-Closes cal now is_begun _ _ begun)

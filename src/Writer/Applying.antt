-- ===== src/Writer/Applying.antt =====
-- A run of `process` for an operation that applies a patch either ends it or fails while the operation
-- is claimed or writing.
use calibre_bookwarden.Prelude.{
  ℕ, ◌≡◌, refl, ap, String, Bool, true, false, not, Option, none, some, str_eq,
}
use calibre_bookwarden.Prelude.Dict.{Dict}
use calibre_bookwarden.Operations.{
  OpState, claimed, writing, verifying, restoring, succeeded, restored, restore_failed, unknown,
  failed,
}
use calibre_bookwarden.Identity.{Json}
use calibre_bookwarden.Writer.{Change, Exception, Rows, Calibre, matches_patch}
use calibre_bookwarden.Writer.Steps.{move, ends}
use calibre_bookwarden.Writer.Process.{
  Applied, written, refused, Calls, is_id, is_v2, check_files, write_failed, restoration,
  files_changed, write_missed, observe, verify_write, write, is_as_expected, refuse, check_before,
  process_apply,
}
use calibre_bookwarden.Writer.Moves.{moved-state}
use calibre_bookwarden.Writer.Closed.{
  Closes, Ends, >>=-Ends, ends-Closes, fails-Closes, if-Closes, if-Ends, option-Closes,
  answer-Closes, answer-Ends, settle-Ends, failure-Ends,
}

-- The operation is claimed, or Calibre may have been written to.
abbrev pub is_begun : OpState → Bool
is_begun claimed = true
is_begun writing = true
is_begun _ = false

module _ (cal : Calibre) (now : ℕ) where
  write_failed-Ends :
      (e : Exception) (change : Option Change) (rows : Rows)
      → Ends cal now (write_failed e change now rows)
  unfolding write_failed
  write_failed-Ends e none rows = failure-Ends cal now unknown _ _ _ rows refl refl
  write_failed-Ends e (some change) rows =
      if-Ends cal now (str_eq change.status "failed_rolled_back") _ _
        (λ _. >>=-Ends cal now (move restoring none now rows) _ (λ r.
          failure-Ends cal now restored (some e.message) "suggest_fix" (some e.message) r refl
            refl))
        (λ _.
          if-Ends cal now (str_eq change.status "failed_rollback_failed") _ _
            (λ _. >>=-Ends cal now (move restoring none now rows) _ (λ r.
              failure-Ends cal now restore_failed (some e.message) "error" (some e.message) r refl
                refl))
            (λ _.
              failure-Ends cal now unknown (some e.message) "error" (some e.message) rows refl
                refl))

  module _ (calls : Calls) where
    files_changed-Ends :
        (e : Exception) (before : Dict Json) (rows : Rows)
        → Ends cal now (files_changed cal calls now e before rows)
    unfolding files_changed
    files_changed-Ends e before rows = >>=-Ends cal now _ _ (λ r.
        answer-Ends cal now (restoration cal calls now _ before) _ _
          (λ _. failure-Ends cal now restored _ _ _ _ refl refl)
          (λ x. failure-Ends cal now restore_failed _ _ _ _ refl refl))

    write_missed-Ends :
        (before : Dict Json) (rows : Rows) → Ends cal now (write_missed cal calls now before rows)
    unfolding write_missed
    write_missed-Ends before rows = >>=-Ends cal now _ _ (λ r.
        answer-Ends cal now (restoration cal calls now _ before) _ _
          (λ _. failure-Ends cal now restored _ _ _ _ refl refl)
          (λ x. failure-Ends cal now restore_failed _ _ _ _ refl refl))

    observe-Closes :
        (committed : Rows) (before : Dict Json) (rows : Rows)
        → is_begun committed.operation.state ≡ true
        → Closes cal now is_begun (observe cal calls now committed before rows)
    unfolding observe
    observe-Closes committed before rows begun =
        answer-Closes cal now is_begun calls.observed _ _
          (λ metadata.
            option-Closes cal now is_begun rows.operation.target_metadata _ _
              (λ target has.
                if-Closes cal now is_begun (matches_patch cal metadata target) _ _
                  (λ matched. ends-Closes cal now is_begun committed _ begun (
                    settle-Ends cal now succeeded _ _ _ _ _ refl refl
                      (λ _. (metadata, target, refl, has, matched))))
                  (λ _.
                    ends-Closes cal now is_begun committed _ begun (write_missed-Ends before _)))
              (fails-Closes cal now is_begun _ _ begun))
          (λ e. fails-Closes cal now is_begun _ _ begun)

    verify_write-Closes :
        (committed : Rows) (before : Dict Json) (change : Change)
        → is_begun committed.operation.state ≡ true
        → Closes cal now is_begun (verify_write cal calls now committed before change)
    unfolding verify_write
    verify_write-Closes committed before change begun =
        option-Closes cal now is_begun (move verifying none now _) _ _
          (λ rows _.
            if-Closes cal now is_begun (is_v2 rows) _ _
              (λ _.
                answer-Closes cal now is_begun (check_files calls rows) _ _
                  (λ aligned. observe-Closes committed before aligned begun)
                  (λ e.
                    if-Closes cal now is_begun e.is_expected _ _
                      (λ _.
                        ends-Closes cal now is_begun committed _ begun
                          (files_changed-Ends e before rows))
                      (λ _. fails-Closes cal now is_begun _ _ begun)))
              (λ _. observe-Closes committed before rows begun))
          (fails-Closes cal now is_begun _ _ begun)

    applied-Closes :
        (committed : Rows) (before : Dict Json) (applied : Applied)
        → is_begun committed.operation.state ≡ true
        → Closes cal now is_begun (elim applied [
          | written change ↦
              verify_write cal calls now (record committed { change = some change }) before change
          | refused e change ↦
              ends
                (record committed { change = change })
                (write_failed e change now (record committed { change = change }))
        ])
    applied-Closes committed before (written change) begun =
        verify_write-Closes (record committed { change = some change }) before change begun
    applied-Closes committed before (refused e change) begun =
        ends-Closes cal now is_begun (record committed { change = change }) _ begun
          (write_failed-Ends e change (record committed { change = change }))

    write-Closes :
        (before : Dict Json) (rows : Rows)
        → is_begun rows.operation.state ≡ true
        → Closes cal now is_begun (write cal calls now before rows)
    unfolding write
    write-Closes before rows begun =
        option-Closes cal now is_begun (move writing none now _) _ _
          (λ committed moved.
            applied-Closes committed before calls.applied
              (ap (is_begun) (moved-state writing none now _ committed moved)))
          (fails-Closes cal now is_begun _ _ begun)

    refuse-Closes :
        (error book : String) (rows : Rows)
        → is_begun rows.operation.state ≡ true
        → Closes cal now is_begun (refuse cal calls now error book rows)
    unfolding refuse
    refuse-Closes error book rows begun =
        ends-Closes cal now is_begun rows _ begun
          (failure-Ends cal now failed _ book _ rows refl refl)

    check_before-Closes :
        (before : Dict Json) (rows : Rows)
        → is_begun rows.operation.state ≡ true
        → Closes cal now is_begun (check_before cal calls now before rows)
    unfolding check_before
    check_before-Closes before rows begun =
        if-Closes cal now is_begun (is_as_expected cal before rows.operation) _ _
          (λ _. write-Closes before rows begun) (λ _. refuse-Closes _ _ rows begun)

    pub process_apply-Closes :
        (rows : Rows)
        → is_begun rows.operation.state ≡ true
        → Closes cal now is_begun (process_apply cal calls now rows)
    unfolding process_apply
    process_apply-Closes rows begun =
        option-Closes cal now is_begun rows.book _ _
          (λ book _.
            if-Closes cal now is_begun (not (is_id book.calibre_book_id)) _ _
              (λ _. fails-Closes cal now is_begun _ _ begun)
              (λ _.
                answer-Closes cal now is_begun calls.validated _ _
                  (λ _.
                    answer-Closes cal now is_begun calls.before _ _
                      (λ before.
                        if-Closes cal now is_begun (is_v2 rows) _ _
                          (λ _.
                            answer-Closes cal now is_begun calls.files_before _ _
                              (λ _. check_before-Closes before rows begun)
                              (λ e.
                                if-Closes cal now is_begun e.is_expected _ _
                                  (λ _. refuse-Closes _ _ rows begun)
                                  (λ _. fails-Closes cal now is_begun _ _ begun)))
                          (λ _. check_before-Closes before rows begun))
                      (λ _. fails-Closes cal now is_begun _ _ begun))
                  (λ e.
                    if-Closes cal now is_begun e.is_expected _ _ (λ _. refuse-Closes _ _ rows begun)
                      (λ _. fails-Closes cal now is_begun _ _ begun))))
          (fails-Closes cal now is_begun _ _ begun)

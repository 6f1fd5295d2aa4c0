-- ===== src/Writer/Recovering.antt =====
-- The recovery of an interrupted operation either ends it or fails while it is interrupted.
use calibre_bookwarden.Prelude.{
  ℕ, ◌≡◌, refl, ap, ◌∙◌, true, not, none, some, is_some, Option-cases, inl, inr, arith,
  if◌then◌else◌,
}
use calibre_bookwarden.Prelude.Dict.{Dict}
use calibre_bookwarden.Operations.{
  writing, verifying, succeeded, restored, restore_failed, state_eq,
}
use calibre_bookwarden.Identity.{Json}
use calibre_bookwarden.Writer.{Exception, answers, Rows, Calibre, matches_patch}
use calibre_bookwarden.Writer.Steps.{set_change, move, start_restoring}
use calibre_bookwarden.Writer.Process.{is_v2, align_paths}
use calibre_bookwarden.Writer.Reconcile.{
  RecoveryCalls, own_error, restoration, files_changed, target_observed, partial_state,
  compare_state, check_files, recover, undo_observed, recover_undo,
}
use calibre_bookwarden.Writer.Closed.{
  IsConfirmed, Closes, ends-Closes, fails-Closes, if-Closes, option-Closes, answer-Closes,
  answered-Closes, settle-Ends, failure-Ends,
}
use calibre_bookwarden.Writer.Interrupted.{
  is_interrupted, started-interrupted, Answer-cases, marked-Ends, verified-Fields, same_metadata,
}

module _ (cal : Calibre) (now : ℕ) (calls : RecoveryCalls) where
  files_changed-Closes :
      (e : Exception) (before : Dict Json) (rows : Rows)
      → is_interrupted rows.operation.state ≡ true
      → Closes cal now is_interrupted (files_changed cal calls now e before rows)
  unfolding files_changed
  files_changed-Closes e before rows h =
      option-Closes cal now is_interrupted rows.change _ _
        (λ change _.
          option-Closes cal now is_interrupted (start_restoring now rows) _ _
            (λ started begun.
              let inside = started-interrupted now rows started h begun in
              answer-Closes cal now is_interrupted (restoration cal calls now) _ _
                (λ metadata.
                  if-Closes cal now is_interrupted (matches_patch cal metadata before) _ _
                    (λ _.
                      ends-Closes cal now is_interrupted started _ inside
                        (failure-Ends cal now restored _ _ _ _ refl refl))
                    (λ _. fails-Closes cal now is_interrupted _ _ inside))
                (λ r. fails-Closes cal now is_interrupted _ _ inside))
            (fails-Closes cal now is_interrupted _ _ h))
        (ends-Closes cal now is_interrupted rows _ h (marked-Ends cal now _ own_error rows h))

  target_observed-Closes :
      (rows : Rows)
      → is_interrupted rows.operation.state ≡ true
      → IsConfirmed cal now rows.operation
      → Closes cal now is_interrupted (target_observed cal calls now rows)
  unfolding target_observed set_change
  target_observed-Closes rows h confirmed =
      option-Closes cal now is_interrupted
        (if state_eq rows.operation.state writing then move verifying none now rows else some rows)
        _ _
        (λ started begun.
          let (inside, observed, target) = verified-Fields cal now rows started h begun in
          if-Closes cal now is_interrupted (state_eq started.operation.state verifying) _ _
            (λ _. ends-Closes cal now is_interrupted started _ inside (
              settle-Ends cal now succeeded _ _ _ _ _ refl refl (λ _.
                same_metadata cal now rows.operation started.operation observed target confirmed)))
            (λ _.
              ends-Closes cal now is_interrupted started _ inside
                (marked-Ends cal now _ own_error started inside)))
        (fails-Closes cal now is_interrupted _ _ h)

  partial_state-Closes :
      (before : Dict Json) (rows : Rows)
      → is_interrupted rows.operation.state ≡ true
      → Closes cal now is_interrupted (partial_state cal calls now before rows)
  unfolding partial_state
  partial_state-Closes before rows h =
      option-Closes cal now is_interrupted rows.change _ _
        (λ change _.
          option-Closes cal now is_interrupted (start_restoring now rows) _ _
            (λ started begun.
              let inside = started-interrupted now rows started h begun in
              answer-Closes cal now is_interrupted (restoration cal calls now) _ _
                (λ metadata.
                  if-Closes cal now is_interrupted (matches_patch cal metadata before) _ _
                    (λ _.
                      ends-Closes cal now is_interrupted started _ inside
                        (failure-Ends cal now restored _ _ _ _ refl refl))
                    (λ _.
                      ends-Closes cal now is_interrupted started _ inside
                        (failure-Ends cal now restore_failed _ _ _ _ refl refl)))
                (λ r. fails-Closes cal now is_interrupted _ _ inside))
            (fails-Closes cal now is_interrupted _ _ h))
        (ends-Closes cal now is_interrupted rows _ h (marked-Ends cal now _ own_error rows h))

  compare_state-Closes :
      (metadata before : Dict Json) (rows : Rows)
      → is_interrupted rows.operation.state ≡ true
      → rows.operation.observed_metadata ≡ some metadata
      → Closes cal now is_interrupted (compare_state cal calls now metadata before rows)
  unfolding compare_state
  compare_state-Closes metadata before rows h observed =
      option-Closes cal now is_interrupted rows.operation.target_metadata _ _
        (λ target has.
          if-Closes cal now is_interrupted (matches_patch cal metadata target) _ _
            (λ matched. target_observed-Closes rows h (metadata, target, observed, has, matched))
            (λ _.
              if-Closes cal now is_interrupted (matches_patch cal metadata before) _ _
                (λ _.
                  option-Closes cal now is_interrupted (start_restoring now rows) _ _
                    (λ started begun.
                      ends-Closes cal now is_interrupted started _
                        (started-interrupted now rows started h begun)
                        (failure-Ends cal now restored _ _ _ _ refl refl))
                    (fails-Closes cal now is_interrupted _ _ h))
                (λ _. partial_state-Closes before rows h)))
        (fails-Closes cal now is_interrupted _ _ h)

  -- The aligned rows have the state and the observed metadata.
  aligned-Fields :
      (metadata : Dict Json) (rows aligned : Rows)
      → check_files cal calls now metadata rows ≡ answers aligned
      → (aligned.operation.state ≡ rows.operation.state)
        × (aligned.operation.observed_metadata ≡ rows.operation.observed_metadata)
  unfolding align_paths
  aligned-Fields metadata rows aligned h = elim (Answer-cases calls.files) [
    | inl (u, e) ↦ elim (Option-cases rows.operation.target_metadata) [
      | inl n ↦ absurd (ground arith)
      | inr (target, t) ↦ ground arith
    ]
    | inr (x, e) ↦ absurd (ground arith)
  ]

  pub recover-Closes :
      (before : Dict Json) (rows : Rows)
      → is_interrupted rows.operation.state ≡ true
      → Closes cal now is_interrupted (recover cal calls now before rows)
  unfolding recover
  recover-Closes before rows h =
      answer-Closes cal now is_interrupted calls.observed _ _
        (λ metadata.
          let seen : Rows = record rows {
            operation = record (rows.operation) { observed_metadata = some metadata };
          } in
          if-Closes cal now is_interrupted (is_v2 seen) _ _
            (λ _.
              answered-Closes cal now is_interrupted (check_files cal calls now metadata seen) _ _
                (λ aligned e.
                  let (same, observed) = aligned-Fields metadata seen aligned e in
                  compare_state-Closes metadata before aligned (ap is_interrupted same ∙ h)
                    observed)
                (λ e.
                  if-Closes cal now is_interrupted e.is_expected _ _
                    (λ _. files_changed-Closes e before seen h)
                    (λ _. fails-Closes cal now is_interrupted _ _ h)))
            (λ _. compare_state-Closes metadata before seen h refl))
        (λ e. fails-Closes cal now is_interrupted _ _ h)

  undo_observed-Closes :
      (rows : Rows)
      → is_interrupted rows.operation.state ≡ true
      → IsConfirmed cal now rows.operation
      → Closes cal now is_interrupted (undo_observed cal calls now rows)
  unfolding undo_observed set_change
  undo_observed-Closes rows h confirmed =
      option-Closes cal now is_interrupted
        (if state_eq rows.operation.state writing then move verifying none now rows else some rows)
        _ _
        (λ started begun.
          let (inside, observed, target) = verified-Fields cal now rows started h begun in
          if-Closes cal now is_interrupted (state_eq started.operation.state verifying) _ _
            (λ _. ends-Closes cal now is_interrupted started _ inside (
              settle-Ends cal now succeeded _ _ _ _ _ refl refl (λ _.
                same_metadata cal now rows.operation started.operation observed target confirmed)))
            (λ _. fails-Closes cal now is_interrupted _ _ inside))
        (fails-Closes cal now is_interrupted _ _ h)

  pub recover_undo-Closes :
      (before target : Dict Json) (rows : Rows)
      → is_interrupted rows.operation.state ≡ true
      → rows.operation.target_metadata ≡ some target
      → Closes cal now is_interrupted (recover_undo cal calls now before target rows)
  unfolding recover_undo
  recover_undo-Closes before target rows h has =
      answer-Closes cal now is_interrupted calls.observed _ _
        (λ metadata.
          let seen : Rows = record rows {
            operation = record (rows.operation) { observed_metadata = some metadata };
          } in
          if-Closes cal now is_interrupted (matches_patch cal metadata target) _ _
            (λ matched. undo_observed-Closes seen h (metadata, target, refl, has, matched))
            (λ _.
              option-Closes cal now is_interrupted (start_restoring now seen) _ _
                (λ started begun.
                  let inside = started-interrupted now seen started h begun in
                  if-Closes cal now is_interrupted (matches_patch cal metadata before) _ _
                    (λ _.
                      ends-Closes cal now is_interrupted started _ inside
                        (failure-Ends cal now restored _ _ _ _ refl refl))
                    (λ _.
                      if-Closes cal now is_interrupted
                        (not (is_some started.operation.rollback_opf_path)) _ _
                        (λ _. fails-Closes cal now is_interrupted _ _ inside)
                        (λ _.
                          answer-Closes cal now is_interrupted (restoration cal calls now) _ _
                            (λ found.
                              if-Closes cal now is_interrupted (matches_patch cal found before) _ _
                                (λ _.
                                  ends-Closes cal now is_interrupted started _ inside
                                    (failure-Ends cal now restored _ _ _ _ refl refl))
                                (λ _. fails-Closes cal now is_interrupted _ _ inside))
                            (λ e. fails-Closes cal now is_interrupted _ _ inside))))
                (fails-Closes cal now is_interrupted _ _ h)))
        (λ e. fails-Closes cal now is_interrupted _ _ h)

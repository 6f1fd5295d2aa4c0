-- ===== src/Writer/Checked.antt =====
-- What was checked before an operation that applies a patch went on to the write.
use calibre_bookwarden.Prelude.{
  ℕ, ◌≡◌, refl, ap, sym, ◌∙◌, String, true, false, not, Option, none, some, Option-cases,
  Bool-cases, inl, inr, arith, str_append,
}
use calibre_bookwarden.Prelude.Dict.{Dict}
use calibre_bookwarden.Operations.{OpState, failed, state_eq, Operation, transition_operation}
use calibre_bookwarden.Identity.{Json, Runtime}
use calibre_bookwarden.Package.{Sealing}
use calibre_bookwarden.Apply.{BookRecord, Store, PilotGuard, Host}
use calibre_bookwarden.Apply.Validation.{validate_apply_operation}
use calibre_bookwarden.Apply.Validated.{IsValidated, validate-IsValidated}
use calibre_bookwarden.Writer.{Answer, answers, raises, Rows, Outcome, returns, fails, Calibre}
use calibre_bookwarden.Writer.Steps.{finish_outbox, set_book, move, settle}
use calibre_bookwarden.Writer.Process.{
  Calls, is_id, is_v2, value_error, is_as_expected, refuse, check_before, process_apply,
}
use calibre_bookwarden.Writer.Interrupted.{Answer-cases}

-- The outcome is not a return with the operation in another state than failed.
abbrev IsRefusal : Outcome → Type 0
IsRefusal (returns rows) = state_eq rows.operation.state failed ≡ true
IsRefusal (fails e rows) = Unit

failed-state :
    (op op' : Operation Json) (error : String) (now : ℕ)
    → transition_operation op failed (some error) now ≡ some op'
    → op'.state ≡ failed
unfolding transition_operation
failed-state op op' error now h = ground arith

module _ (cal : Calibre) (calls : Calls) (now : ℕ) where
  refuse-IsRefusal :
      (error book : String) (rows : Rows) → IsRefusal (refuse cal calls now error book rows)
  unfolding refuse settle move finish_outbox set_book
  refuse-IsRefusal error book rows =
      elim (Option-cases (transition_operation rows.operation failed (some error) now)) [
        | inl e ↦ rw e tt
        | inr (op, e) ↦
            rw e
              (ap (λ (s : OpState). state_eq s failed) (failed-state rows.operation op error now e))
      ]

  -- What the run was told before the write.
  pub record IsChecked (rows : Rows) : Type 0 where
    pub before : Dict Json
    pub validated : calls.validated ≡ answers tt
    pub shown : calls.before ≡ answers before
    pub expected : is_as_expected cal before rows.operation ≡ true
    pub files : is_v2 rows ≡ true → calls.files_before ≡ answers tt

  not_refused :
      (outcome : Outcome) (rows' : Rows)
      → IsRefusal outcome
      → outcome ≡ returns rows'
      → state_eq rows'.operation.state failed ≡ false
      → ⊥
  not_refused (returns rows) rows' h e other = ground arith
  not_refused (fails x rows) rows' h e other = ground arith

  check_before-IsChecked :
      (before : Dict Json) (rows rows' : Rows)
      → calls.validated ≡ answers tt
      → calls.before ≡ answers before
      → (is_v2 rows ≡ true → calls.files_before ≡ answers tt)
      → check_before cal calls now before rows ≡ returns rows'
      → state_eq rows'.operation.state failed ≡ false
      → IsChecked rows
  unfolding check_before
  check_before-IsChecked before rows rows' validated shown files h other =
      elim (Bool-cases (is_as_expected cal before rows.operation)) [
        | inl e ↦ record {
          before = before;
          validated = validated;
          shown = shown;
          expected = e;
          files = files;
        }
        | inr e ↦ absurd (
            not_refused _ rows'
              (refuse-IsRefusal "live metadata changed after authorization" "suggest_fix" rows)
              (ground arith) other)
      ]

  -- An operation that applies a patch and comes back in any other state than failed passed every
  -- check before the write: the validation, the comparison of what Calibre has with what was
  -- expected, and for a V2 operation the comparison of the files.
  process_apply-IsChecked :
      (rows rows' : Rows)
      → process_apply cal calls now rows ≡ returns rows'
      → state_eq rows'.operation.state failed ≡ false
      → IsChecked rows
  unfolding process_apply
  process_apply-IsChecked rows rows' h other = elim (Option-cases rows.book) [
    | inl e ↦ absurd (ground arith)
    | inr (book, b) ↦ elim (Bool-cases (not (is_id book.calibre_book_id))) [
      | inl i ↦ absurd (ground arith)
      | inr i ↦ elim (Answer-cases calls.validated) [
        | inr (e, v) ↦ absurd (
            ground
              (arith, not_refused _ rows' (refuse-IsRefusal e.message "error" rows), e.is_expected))
        | inl (t, v) ↦ elim (Answer-cases calls.before) [
          | inr (e, w) ↦ absurd (ground arith)
          | inl (before, w) ↦ elim (Bool-cases (is_v2 rows)) [
            | inr z ↦
                check_before-IsChecked before rows rows' v w (λ y. absurd (ground arith))
                  (ground arith) other
            | inl z ↦ elim (Answer-cases calls.files_before) [
              | inl (u, f) ↦
                  check_before-IsChecked before rows rows' v w (λ y. f) (ground arith) other
              | inr (e, f) ↦ elim (Bool-cases e.is_expected) [
                | inl y ↦ absurd (
                    not_refused _ rows'
                      (refuse-IsRefusal
                        (str_append "live ebook snapshot changed after authorization: " e.message)
                        "error" rows)
                      (ground arith) other)
                | inr y ↦ absurd (ground arith)
              ]
            ]
          ]
        ]
      ]
    ]
  ]

-- The answer of `validate_apply_operation`.
abbrev pub answer_of : Option (Unit {0}) → Answer (Unit {0})
answer_of none = raises (value_error "")
answer_of (some _) = answers tt

answered-some : (m : Option (Unit {0})) → answer_of m ≡ answers tt → m ≡ some tt
answered-some none h = absurd (cc)
answered-some (some tt) h = refl

module _ (rt : Runtime) (sl : Sealing) (host : Host) (cal : Calibre) (calls : Calls) (now : ℕ) where
  -- Let the writer be told what validate_apply_operation says on the tables. An operation that
  -- applies a patch and comes back in any other state than failed then has a patch with as many
  -- fields as the one that its sealed package gives for the book, and in each the value there; it
  -- carries out a stored authorization of the package and of that patch, by their digests; each
  -- field is not locked in the book and is supported by the evidence in the package; and Calibre had
  -- the metadata that were expected before the write.
  pub process_apply-IsValidated :
      (store : Store) (pilot : Option PilotGuard) (book : BookRecord) (rows rows' : Rows)
      → calls.validated
        ≡ answer_of (validate_apply_operation rt sl host store rows.operation book pilot)
      → process_apply cal calls now rows ≡ returns rows'
      → state_eq rows'.operation.state failed ≡ false
      → IsValidated rt sl host store rows.operation book × IsChecked cal calls now rows
  process_apply-IsValidated store pilot book rows rows' told h other =
      let checked = process_apply-IsChecked cal calls now rows rows' h other in
      (
        validate-IsValidated rt sl host store rows.operation book pilot
            (answered-some _ (sym told ∙ checked.validated)),
        checked,
      )

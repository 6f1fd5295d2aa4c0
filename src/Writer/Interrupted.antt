-- ===== src/Writer/Interrupted.antt =====
-- Operations that were interrupted while Calibre may have been written to, and `_mark_unknown` on them.
use calibre_bookwarden.Prelude.{
  ℕ, ◌≡◌, ◌⊎◌, refl, ap, ◌∙◌, String, Bool, true, false, ◌||◌, Option, none, some, Bool-cases, inl,
  inr, arith, if◌then◌else◌,
}
use calibre_bookwarden.Prelude.Fallible.{◌>>=◌}
use calibre_bookwarden.Operations.{
  OpState, writing, verifying, restoring, succeeded, restore_failed, unknown, Operation, state_eq,
  is_final, transition_operation,
}
use calibre_bookwarden.Identity.{Json}
use calibre_bookwarden.Writer.{Exception, Answer, answers, raises, Rows, Calibre}
use calibre_bookwarden.Writer.Steps.{finish_outbox, set_book, move, start_restoring, mark_unknown}
use calibre_bookwarden.Writer.Reconcile.{mark_settle}
use calibre_bookwarden.Writer.Closed.{IsConfirmed, IsClosed, Ends, finished-IsClosed}
use calibre_bookwarden.Writer.Moves.{moved-state, moved-target, moved-observed}

-- Calibre may have been written to, and the operation is not over.
abbrev pub is_interrupted : OpState → Bool
is_interrupted writing = true
is_interrupted verifying = true
is_interrupted restoring = true
is_interrupted _ = false

interrupted-cases :
    (state : OpState)
    → is_interrupted state ≡ true
    → (state ≡ writing) ⊎ (state ≡ verifying) ⊎ (state ≡ restoring)
interrupted-cases writing h = inl refl
interrupted-cases verifying h = inr (inl refl)
interrupted-cases restoring h = inr (inr refl)
interrupted-cases _ h = absurd (ground arith)

pub started-interrupted :
    (now : ℕ) (rows started : Rows)
    → is_interrupted rows.operation.state ≡ true
    → start_restoring now rows ≡ some started
    → is_interrupted started.operation.state ≡ true
unfolding start_restoring
started-interrupted now rows started h e =
    elim (Bool-cases
      (state_eq rows.operation.state writing || state_eq rows.operation.state verifying)) [
        | inl b ↦ ap is_interrupted (moved-state restoring none now rows started (ground arith))
        | inr b ↦ ground arith
      ]

pub Answer-cases {ℓ} :
    {A : Type ℓ} (answer : Answer A)
    → ((a : A) × (answer ≡ answers a)) ⊎ ((e : Exception) × (answer ≡ raises e))
Answer-cases (answers a) = inl (a, refl)
Answer-cases (raises e) = inr (e, refl)

module _ (cal : Calibre) (now : ℕ) where
  abbrev ended : OpState → String → Rows → Operation Json
  ended state error rows = record (rows.operation) {
    state = state;
    error = some error;
    updated_at = now;
    completed_at = some now;
  }

  marked :
      (error : String) (rows : Rows)
      → is_interrupted rows.operation.state ≡ true
      → (state : OpState) × (mark_unknown error now rows
          ≡ some (record rows { operation = ended state error rows }))
        × (is_final state ≡ true)
        × (state_eq state succeeded ≡ false)
  unfolding mark_unknown move transition_operation
  marked error rows h = elim (interrupted-cases rows.operation.state h) [
    | inl e ↦ (unknown, ground arith, refl, refl)
    | inr (inl e) ↦ (unknown, ground arith, refl, refl)
    | inr (inr e) ↦ (restore_failed, ground arith, refl, refl)
  ]

  -- `_mark_unknown` and the end of the event end an interrupted operation.
  pub marked-IsClosed :
      (error : String) (event_error : Operation Json → Option String) (rows : Rows)
      → is_interrupted rows.operation.state ≡ true
      → (rows' : Rows) × (mark_settle error event_error now rows ≡ some rows')
        × IsClosed cal now rows'
  unfolding mark_settle
  marked-IsClosed error event_error rows h =
      let (state, e, final, other) = marked error rows h in
      (
        _,
        ap
            (λ (m : Option Rows). m >>= λ r.
              some (finish_outbox "failed" (event_error r.operation) (set_book "error" r)))
            e,
        finished-IsClosed cal now (ended state error rows) "error" "failed" _ rows final refl
            (rw other refl) (λ s. absurd (ground arith)),
      )

  pub marked-Ends :
      (error : String) (event_error : Operation Json → Option String) (rows : Rows)
      → is_interrupted rows.operation.state ≡ true
      → Ends cal now (mark_settle error event_error now rows)
  unfolding Ends
  marked-Ends error event_error rows h =
      let (rows', e, closed) = marked-IsClosed error event_error rows h in rw e closed

  -- The transition to `verifying`, where the state is `writing`.
  pub verified-Fields :
      (rows started : Rows)
      → is_interrupted rows.operation.state ≡ true
      → (if state_eq rows.operation.state writing then move verifying none now rows else some rows)
        ≡ some started
      → (is_interrupted started.operation.state ≡ true)
        × (started.operation.observed_metadata ≡ rows.operation.observed_metadata)
        × (started.operation.target_metadata ≡ rows.operation.target_metadata)
  verified-Fields rows started h e = elim (Bool-cases (state_eq rows.operation.state writing)) [
    | inl b ↦
        let moved : move verifying none now rows ≡ some started = ground arith in
        (
          ap is_interrupted (moved-state verifying none now rows started moved),
          moved-observed verifying none now rows started moved,
          moved-target verifying none now rows started moved,
        )
    | inr b ↦ ground arith
  ]

  pub same_metadata :
      (op op' : Operation Json)
      → op'.observed_metadata ≡ op.observed_metadata
      → op'.target_metadata ≡ op.target_metadata
      → IsConfirmed cal now op
      → IsConfirmed cal now op'
  same_metadata op op' observed target (o, t, was_observed, was_target, matched) =
      (o, t, observed ∙ was_observed, target ∙ was_target, matched)

-- ===== src/Writer/Closed.antt =====
-- What the end of an operation leaves in its rows, whichever function ends it.
use calibre_bookwarden.Prelude.{
  ℕ, ◌≡◌, refl, ap, sym, ◌∙◌, String, Bool, true, false, Option, none, some, Option-cases,
  Bool-cases, inl, inr, arith, if◌then◌else◌,
}
use calibre_bookwarden.Prelude.Dict.{Dict}
use calibre_bookwarden.Prelude.Fallible.{◌>>=◌}
use calibre_bookwarden.Operations.{
  OpState, succeeded, Operation, state_eq, is_final, transition_operation, allowed_transitions,
  state_in,
}
use calibre_bookwarden.Identity.{Json}
use calibre_bookwarden.Writer.{
  Exception, Answer, answers, raises, Rows, Outcome, returns, fails, Calibre, matches_patch,
}
use calibre_bookwarden.Writer.Steps.{holds_lock, finish_outbox, set_book, move, settle, ends}

module _ (cal : Calibre) (now : ℕ) where
  -- The metadata that was read back matches the target, both as the ledger stores them.
  abbrev pub IsConfirmed : Operation Json → Type 0
  IsConfirmed op =
      (observed : Dict Json) × (target : Dict Json) × (op.observed_metadata ≡ some observed)
      × (op.target_metadata ≡ some target)
      × (matches_patch cal observed target ≡ true)

  -- The operation is over, does not hold the lock on its book, and its event tells whether it
  -- succeeded; if it did, Calibre was seen to have the target.
  pub record IsClosed (rows : Rows) : Type 0 where
    pub final : is_final rows.operation.state ≡ true
    pub completed : rows.operation.completed_at ≡ some now
    pub freed : holds_lock rows ≡ false
    pub event :
        rows.event.status
        ≡ (if state_eq rows.operation.state succeeded then "published" else "failed")
    pub confirmed : rows.operation.state ≡ succeeded → IsConfirmed rows.operation

  holds-finish_outbox :
      (status : String) (error : Option String) (rows : Rows)
      → holds_lock (finish_outbox status error rows) ≡ false
  unfolding finish_outbox
  holds-finish_outbox status error rows = elim (Option-cases rows.lock) [
    | inl e ↦ ground arith
    | inr (lock, e) ↦ ground arith
  ]

  -- A transition sets the state, and touches no metadata.
  transition-Fields :
      (op op' : Operation Json) (state : OpState) (error : Option String)
      → is_final state ≡ true
      → transition_operation op state error now ≡ some op'
      → (op'.state ≡ state)
        × (op'.completed_at ≡ some now)
        × (op'.observed_metadata ≡ op.observed_metadata)
        × (op'.target_metadata ≡ op.target_metadata)
  unfolding transition_operation
  transition-Fields op op' state error final h =
      elim (Option-cases (allowed_transitions op.state)) [
        | inl e ↦ absurd (ground arith)
        | inr (allowed, e) ↦ elim (Bool-cases (state_in state allowed)) [
          | inl i ↦
              let same : record op {
                state = state;
                error = error;
                updated_at = now;
                completed_at = some now;
              }
                  ≡ op' =
                ground arith in
              (
                sym (ap (λ (o : Operation Json). o.state) same),
                sym (ap (λ (o : Operation Json). o.completed_at) same),
                sym (ap (λ (o : Operation Json). o.observed_metadata) same),
                sym (ap (λ (o : Operation Json). o.target_metadata) same),
              )
          | inr i ↦ absurd (ground arith)
        ]
      ]

  pub finished-IsClosed :
      (op : Operation Json) (book status : String) (event_error : Option String) (rows : Rows)
      → is_final op.state ≡ true
      → op.completed_at ≡ some now
      → status ≡ (if state_eq op.state succeeded then "published" else "failed")
      → (op.state ≡ succeeded → IsConfirmed op)
      → IsClosed (finish_outbox status event_error (set_book book (record rows { operation = op })))
  unfolding finish_outbox set_book
  finished-IsClosed op book status event_error rows final completed event confirmed = record {
    final = final;
    completed = completed;
    freed = holds-finish_outbox status event_error (set_book book (record rows { operation = op }));
    event = event;
    confirmed = confirmed;
  }

  -- The step ends the operation, unless a transition is refused.
  unfoldable pub Ends : Option Rows → Type 0
  Ends none = Unit
  Ends (some rows) = IsClosed rows

  pub >>=-Ends {ℓ} :
      {A : Type ℓ} (m : Option A) (f : A → Option Rows) → ((a : A) → Ends (f a)) → Ends (m >>= f)
  unfolding Ends
  >>=-Ends none f h = tt
  >>=-Ends (some a) f h = h a

  pub if-Ends :
      (test : Bool) (a b : Option Rows)
      → (test ≡ true → Ends a)
      → (test ≡ false → Ends b)
      → Ends (if test then a else b)
  unfolding Ends
  if-Ends true a b f g = f refl
  if-Ends false a b f g = g refl

  pub answer-Ends {ℓ} :
      {A : Type ℓ} (answer : Answer A) (f : A → Option Rows) (g : Exception → Option Rows)
      → ((a : A) → Ends (f a))
      → ((e : Exception) → Ends (g e))
      → Ends (elim answer [ answers a ↦ f a | raises e ↦ g e ])
  unfolding Ends
  answer-Ends (answers a) f g h k = h a
  answer-Ends (raises e) f g h k = k e

  moved-Ends :
      (state : OpState) (error : Option String) (book status : String) (event_error : Option String)
      (rows : Rows) (moved : Option (Operation Json))
      → transition_operation rows.operation state error now ≡ moved
      → is_final state ≡ true
      → status ≡ (if state_eq state succeeded then "published" else "failed")
      → (state ≡ succeeded → IsConfirmed rows.operation)
      → Ends (
          moved
          >>= (λ (op : Operation Json). some (record rows { operation = op }))
          >>= λ (r : Rows). some (finish_outbox status event_error (set_book book r)))
  unfolding Ends
  moved-Ends state error book status event_error rows none e final fit confirmed = tt
  moved-Ends state error book status event_error rows (some op) e final fit confirmed =
      let (moved, completed, observed, target) =
        transition-Fields rows.operation op state error final e in
      finished-IsClosed op book status event_error rows (rw moved final) completed (rw moved fit)
        (λ s.
          let (o, t, was_observed, was_target, matched) = confirmed (sym moved ∙ s) in
          (o, t, observed ∙ was_observed, target ∙ was_target, matched))

  -- A last transition ends the operation: by a success that is confirmed, or by another state.
  pub settle-Ends :
      (state : OpState) (error : Option String) (book status : String) (event_error : Option String)
      (rows : Rows)
      → is_final state ≡ true
      → status ≡ (if state_eq state succeeded then "published" else "failed")
      → (state ≡ succeeded → IsConfirmed rows.operation)
      → Ends (settle state error book status event_error now rows)
  unfolding settle move
  settle-Ends state error book status event_error rows =
      moved-Ends state error book status event_error rows
        (transition_operation rows.operation state error now) refl

  -- An end by a state that is not success.
  pub failure-Ends :
      (state : OpState) (error : Option String) (book : String) (event_error : Option String)
      (rows : Rows)
      → is_final state ≡ true
      → state_eq state succeeded ≡ false
      → Ends (settle state error book "failed" event_error now rows)
  failure-Ends state error book event_error rows final other =
      settle-Ends state error book "failed" event_error rows final (rw other refl)
        (λ s. absurd (ground arith))

  -- The runs that may fail only in a state of one kind.
  module _ (is_begun : OpState → Bool) where
    -- A run that returns ends the operation. One that fails leaves it in such a state.
    unfoldable pub Closes : Outcome → Type 0
    Closes (returns rows) = IsClosed rows
    Closes (fails e rows) = is_begun rows.operation.state ≡ true

    pub ends-Closes :
        (committed : Rows) (result : Option Rows)
        → is_begun committed.operation.state ≡ true
        → Ends result
        → Closes (ends committed result)
    unfolding Closes Ends
    ends-Closes committed none begun h = begun
    ends-Closes committed (some rows) begun h = h

    pub fails-Closes :
        (e : Exception) (committed : Rows)
        → is_begun committed.operation.state ≡ true
        → Closes (fails e committed)
    unfolding Closes
    fails-Closes e committed begun = begun

    pub if-Closes :
        (test : Bool) (a b : Outcome)
        → (test ≡ true → Closes a)
        → (test ≡ false → Closes b)
        → Closes (if test then a else b)
    unfolding Closes
    if-Closes true a b f g = f refl
    if-Closes false a b f g = g refl

    pub option-Closes {ℓ} :
        {A : Type ℓ} (m : Option A) (f : A → Outcome) (other : Outcome)
        → ((a : A) → m ≡ some a → Closes (f a))
        → Closes other
        → Closes (elim m [ none ↦ other | some a ↦ f a ])
    unfolding Closes
    option-Closes none f other h k = k
    option-Closes (some a) f other h k = h a refl

    pub answer-Closes {ℓ} :
        {A : Type ℓ} (answer : Answer A) (f : A → Outcome) (g : Exception → Outcome)
        → ((a : A) → Closes (f a))
        → ((e : Exception) → Closes (g e))
        → Closes (elim answer [ answers a ↦ f a | raises e ↦ g e ])
    unfolding Closes
    answer-Closes (answers a) f g h k = h a
    answer-Closes (raises e) f g h k = k e

    pub answered-Closes {ℓ} :
        {A : Type ℓ} (answer : Answer A) (f : A → Outcome) (g : Exception → Outcome)
        → ((a : A) → answer ≡ answers a → Closes (f a))
        → ((e : Exception) → Closes (g e))
        → Closes (elim answer [ answers a ↦ f a | raises e ↦ g e ])
    unfolding Closes
    answered-Closes (answers a) f g h k = h a refl
    answered-Closes (raises e) f g h k = k e

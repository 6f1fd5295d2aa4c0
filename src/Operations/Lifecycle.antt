-- ===== src/Operations/Lifecycle.antt =====
-- The life of an operation under `transition_operation`.
use calibre_bookwarden.Prelude.{
  ℕ, ◌+◌, ◌≤◌, ◌<◌, ◌≡◌, refl, inl, inr, String, Bool, true, false, Option, none, some, List, [],
  ◌∷◌, is_some, Option-cases, length, arith,
}
use calibre_bookwarden.Operations.{
  OpState, writing, verifying, restoring, succeeded, restored, restore_failed, unknown, Operation,
  transition_operation, is_final,
}

-- A request for a transition: the new state, the error text and the clock.
abbrev pub Move : Type 0
Move = OpState × Option String × ℕ

-- How many further transitions a state admits at most, once the write has begun.
abbrev pub moves_left : OpState → ℕ
moves_left writing = 3
moves_left verifying = 2
moves_left restoring = 1
moves_left _ = 0

-- The states after the write has begun.
abbrev pub is_committed : OpState → Bool
is_committed writing = true
is_committed verifying = true
is_committed restoring = true
is_committed succeeded = true
is_committed restored = true
is_committed restore_failed = true
is_committed unknown = true
is_committed _ = false

module _ {J : Type 0} where
  -- Transitions one after another; `none` as soon as one raises.
  unfoldable pub run_moves : Operation J → List Move → Option (Operation J)
  run_moves op [] = some op
  run_moves op ((new_state, error, now) ∷ ms) = elim (transition_operation op new_state error now) [
    | none ↦ none
    | some op' ↦ run_moves op' ms
  ]

  -- `completed_at` is set exactly in the final states.
  abbrev pub IsCompletedWhenFinal : Operation J → Type 0
  IsCompletedWhenFinal op = is_some op.completed_at ≡ is_final op.state

  -- What the operation asks for, which no transition may change.
  pub record SameRequest (a b : Operation J) : Type 0 where
    pub operation_id : a.operation_id ≡ b.operation_id
    pub idempotency_key : a.idempotency_key ≡ b.idempotency_key
    pub requested_patch : a.requested_patch ≡ b.requested_patch
    pub authorization_id : a.authorization_id ≡ b.authorization_id
    pub verdict_hash : a.verdict_hash ≡ b.verdict_hash
    pub patch_hash : a.patch_hash ≡ b.patch_hash
    pub field_locks_hash : a.field_locks_hash ≡ b.field_locks_hash
    pub pilot_id : a.pilot_id ≡ b.pilot_id

  -- What one accepted transition does.
  record Stepped (op op' : Operation J) : Type 0 where
    completed : IsCompletedWhenFinal op → IsCompletedWhenFinal op'
    open_before : is_final op.state ≡ false
    committed :
        is_committed op.state ≡ true
        → (is_committed op'.state ≡ true) × (moves_left op'.state < moves_left op.state)
    request : SameRequest op op'

  transition-Stepped :
      (op : Operation J) (s : OpState) (e : Option String) (now : ℕ) {op' : Operation J}
      → transition_operation op s e now ≡ some op'
      → Stepped op op'
  unfolding transition_operation
  transition-Stepped op s e now p = record {
    completed = λ h. ground arith;
    open_before = ground arith;
    committed = λ h. ground arith;
    request = ground arith;
  }

  SameRequest-trans : {a b c : Operation J} → SameRequest a b → SameRequest b c → SameRequest a c
  SameRequest-trans p q = ground arith

  -- A split of an accepted run into its first transition and the rest.
  run-cons :
      (op : Operation J) (m : Move) (ms : List Move) {op' : Operation J}
      → run_moves op (m ∷ ms) ≡ some op'
      → (mid : Operation J) × Stepped op mid × (run_moves mid ms ≡ some op')
  unfolding run_moves
  run-cons op (s, e, now) ms p = elim (Option-cases (transition_operation op s e now)) [
    | inl q ↦ absurd (cc (rw (q, run_moves) at p))
    | inr (mid, q) ↦ (mid, transition-Stepped op s e now q, rw (q, run_moves) at p)
  ]

  -- Every accepted run of transitions leaves `completed_at` set exactly if the state reached is
  -- final, provided that this held at the start.
  pub run-IsCompletedWhenFinal :
      (op : Operation J) (ms : List Move) {op' : Operation J}
      → IsCompletedWhenFinal op
      → run_moves op ms ≡ some op'
      → IsCompletedWhenFinal op'
  unfolding run_moves
  run-IsCompletedWhenFinal op [] h p = ground arith
  run-IsCompletedWhenFinal op (m ∷ ms) h p =
      let (mid, st, q) = run-cons op m ms p in run-IsCompletedWhenFinal mid ms (st.completed h) q

  -- Once the write has begun, an accepted run has at most `moves_left` transitions (three from
  -- `writing`), and never gets back to a state from before the write.
  pub committed-run :
      (op : Operation J) (ms : List Move) {op' : Operation J}
      → is_committed op.state ≡ true
      → run_moves op ms ≡ some op'
      → (length ms + moves_left op'.state ≤ moves_left op.state) × (is_committed op'.state ≡ true)
  unfolding run_moves
  committed-run op [] h p = ground arith
  committed-run op (m ∷ ms) h p =
      let (mid, st, q) = run-cons op m ms p in
      let (c, less) = st.committed h in
      let (bound, c') = committed-run mid ms c q in (omega arith, c')

  -- A run of transitions never changes what was asked for and authorised.
  pub run-SameRequest :
      (op : Operation J) (ms : List Move) {op' : Operation J}
      → run_moves op ms ≡ some op'
      → SameRequest op op'
  unfolding run_moves
  run-SameRequest op [] p = ground arith
  run-SameRequest op (m ∷ ms) p =
      let (mid, st, q) = run-cons op m ms p in
      SameRequest-trans st.request (run-SameRequest mid ms q)

  -- A final state is absorbing: only the empty run is accepted from it.
  pub final-run :
      (op : Operation J) (ms : List Move) {op' : Operation J}
      → is_final op.state ≡ true
      → run_moves op ms ≡ some op'
      → ms ≡ []
  final-run op [] h p = refl
  final-run op (m ∷ ms) h p = let (mid, st, q) = run-cons op m ms p in cc (h, st.open_before)

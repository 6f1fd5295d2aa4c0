-- ===== src/Tests/Operations.antt =====
-- The life of one operation, and two requests with one key.
use calibre_bookwarden.Prelude.{
  ℕ, ◌+◌, ◌≤◌, ◌≡◌, refl, true, Option, none, some, List, [], ◌∷◌, length,
}
use calibre_bookwarden.Operations.{
  OpState, claimed, writing, verifying, restoring, succeeded, restored, Operation, Session, Request,
  new_operation, transition_operation, create_operation,
}
use calibre_bookwarden.Operations.Lifecycle.{
  Move, run_moves, is_committed, moves_left, IsCompletedWhenFinal, run-IsCompletedWhenFinal,
  committed-run,
}
use calibre_bookwarden.Operations.Creation.{IsConsistent, create_twice, create-IsConsistent}

abbrev ask : Request ℕ
ask = record {
  idempotency_key = "k1";
  operation_type = "metadata";
  book_key = "b1";
  requested_patch = ("title", 7) ∷ [];
  run_id = none;
  authorization_id = none;
  calibre_book_id = some 4;
  verdict_hash = none;
  patch_hash = none;
  field_locks_hash = none;
  expected_before_metadata = none;
  policy_version = "v1";
  evidence_id = none;
  pilot_id = none;
}

abbrev opened : Operation ℕ
opened = new_operation "op1" 10 ask

abbrev in_state : OpState → ℕ → Option ℕ → Operation ℕ
in_state s now done = record opened { state = s; updated_at = now; completed_at = done }

abbrev to_success : List Move
to_success =
    (claimed, none, 11) ∷ (writing, none, 12) ∷ (verifying, none, 13) ∷ (succeeded, none, 14) ∷ []

run_to_success : run_moves opened to_success ≡ some (in_state succeeded 14 (some 14))
unfolding run_moves transition_operation
run_to_success = refl

run-IsCompletedWhenFinal_example : IsCompletedWhenFinal (in_state succeeded 14 (some 14))
run-IsCompletedWhenFinal_example = run-IsCompletedWhenFinal opened to_success refl run_to_success

abbrev to_restored : List Move
to_restored = (verifying, none, 13) ∷ (restoring, none, 14) ∷ (restored, none, 15) ∷ []

run_to_restored :
    run_moves (in_state writing 12 none) to_restored ≡ some (in_state restored 15 (some 15))
unfolding run_moves transition_operation
run_to_restored = refl

committed-run_example :
    (length to_restored + moves_left restored ≤ moves_left writing) × (is_committed restored ≡ true)
committed-run_example = committed-run (in_state writing 12 none) to_restored refl run_to_restored

run_nothing :
    run_moves (in_state succeeded 14 (some 14)) [] ≡ some (in_state succeeded 14 (some 14))
unfolding run_moves
run_nothing = refl

abbrev empty : Session ℕ
empty = record { operations = []; outbox = [] }

create_twice_example :
    let (op, t) = create_operation "op1" "ev1" 10 ask empty in
    create_operation "op2" "ev2" 20 ask t ≡ (op, t)
create_twice_example = create_twice "op1" "op2" "ev1" "ev2" 10 20 ask ask empty refl

empty-IsConsistent : IsConsistent empty
empty-IsConsistent = record { keys = tt; events = refl }

create-IsConsistent_example : IsConsistent (create_operation "op1" "ev1" 10 ask empty).1
create-IsConsistent_example = create-IsConsistent "op1" "ev1" 10 ask empty empty-IsConsistent

-- ===== src/Operations.antt =====
-- The operation ledger and its outbox: src/calibre_ai_auditor/storage/operations.py, over the rows of
-- src/calibre_ai_auditor/storage/models.py. A session is the two tables that the code reads and writes.
-- `J` is the type of JSON values. What the code draws from outside, the two uuids and the
-- clock, are arguments. A raised ValueError is `none`.
pub mod Lifecycle
pub mod Creation
use calibre_bookwarden.Prelude.{
  ℕ, String, Bool, true, false, Option, none, some, List, [], ◌∷◌, ◌++◌, str_eq, if◌then◌else◌,
}
use calibre_bookwarden.Prelude.Dict.{Dict}

-- The values of `state` that the table `ALLOWED_TRANSITIONS` lists, and any other string.
pub data OpState : Type 0 where
  requested claimed writing verifying restoring : OpState
  succeeded restored restore_failed unknown failed cancelled : OpState
  unlisted : String → OpState

-- The row OperationLedger, less the paths and digests of the rollback artifacts.
pub record Operation (J : Type 0) : Type 0 where
  pub operation_id : String
  pub idempotency_key : String
  pub operation_type : String
  pub book_key : String
  pub run_id : Option String
  pub calibre_book_id : Option ℕ
  pub state : OpState
  pub requested_patch : Dict J
  pub expected_before_metadata : Option (Dict J)
  pub before_metadata : Option (Dict J)
  pub target_metadata : Option (Dict J)
  pub observed_metadata : Option (Dict J)
  pub change_id : Option ℕ
  pub rollback_opf_path : Option (List ℕ)
  pub rollback_opf_sha256 : Option String
  pub rollback_cover_path : Option (List ℕ)
  pub rollback_cover_sha256 : Option String
  pub rollback_custom : Dict (List ℕ)
  pub lease_owner : Option String
  pub lease_expires_at : Option ℕ
  pub authorization_id : Option String
  pub verdict_hash : Option String
  pub patch_hash : Option String
  pub field_locks_hash : Option String
  pub policy_version : String
  pub evidence_id : Option String
  pub pilot_id : Option String
  pub error : Option String
  pub created_at : ℕ
  pub updated_at : ℕ
  pub completed_at : Option ℕ

-- The row OutboxEvent; its payload repeats three fields of the operation.
pub record OutboxEvent : Type 0 where
  pub event_id : String
  pub aggregate_id : String
  pub event_type : String
  pub payload_operation_type : String
  pub payload_book_key : String
  pub status : String
  pub attempts : ℕ
  pub last_error : Option String

pub record Session (J : Type 0) : Type 0 where
  pub operations : List (Operation J)
  pub outbox : List OutboxEvent

-- The keyword arguments of `create_operation`.
pub record Request (J : Type 0) : Type 0 where
  pub idempotency_key : String
  pub operation_type : String
  pub book_key : String
  pub requested_patch : Dict J
  pub run_id : Option String
  pub authorization_id : Option String
  pub calibre_book_id : Option ℕ
  pub verdict_hash : Option String
  pub patch_hash : Option String
  pub field_locks_hash : Option String
  pub expected_before_metadata : Option (Dict J)
  pub policy_version : String
  pub evidence_id : Option String
  pub pilot_id : Option String

-- `ALLOWED_TRANSITIONS[state]`; `none` where the table has no such key.
abbrev pub allowed_transitions : OpState → Option (List OpState)
allowed_transitions requested = some (claimed ∷ cancelled ∷ [])
allowed_transitions claimed = some (requested ∷ writing ∷ failed ∷ cancelled ∷ [])
allowed_transitions writing = some (verifying ∷ restoring ∷ unknown ∷ [])
allowed_transitions verifying = some (succeeded ∷ restoring ∷ unknown ∷ [])
allowed_transitions restoring = some (restored ∷ restore_failed ∷ [])
allowed_transitions succeeded = some []
allowed_transitions restored = some []
allowed_transitions restore_failed = some []
allowed_transitions unknown = some []
allowed_transitions failed = some []
allowed_transitions cancelled = some []
allowed_transitions (unlisted s) = none

-- The test `==` on two states.
abbrev pub state_eq : OpState → OpState → Bool
state_eq requested requested = true
state_eq claimed claimed = true
state_eq writing writing = true
state_eq verifying verifying = true
state_eq restoring restoring = true
state_eq succeeded succeeded = true
state_eq restored restored = true
state_eq restore_failed restore_failed = true
state_eq unknown unknown = true
state_eq failed failed = true
state_eq cancelled cancelled = true
state_eq (unlisted s) (unlisted t) = str_eq s t
state_eq _ _ = false

abbrev pub state_in : OpState → List OpState → Bool
state_in s [] = false
state_in s (t ∷ ts) = if state_eq t s then true else state_in s ts

-- `not ALLOWED_TRANSITIONS[new_state]`
abbrev pub is_final : OpState → Bool
is_final s = elim (allowed_transitions s) [ some [] ↦ true | _ ↦ false ]

module _ {J : Type 0} where
  -- `transition_operation`
  unfoldable pub transition_operation :
      Operation J → OpState → Option String → ℕ → Option (Operation J)
  transition_operation op new_state error now = elim (allowed_transitions op.state) [
    | none ↦ none
    | some allowed ↦
        if state_in new_state allowed
        then some (record op {
          state = new_state;
          error = error;
          updated_at = now;
          completed_at = if is_final new_state then some now else op.completed_at;
        })
        else none
  ]

  -- The `select … where(idempotency_key == key)` and its `first()`.
  unfoldable pub find_by_key : String → List (Operation J) → Option (Operation J)
  find_by_key key [] = none
  find_by_key key (op ∷ ops) =
      if str_eq op.idempotency_key key then some op else find_by_key key ops

  abbrev pub new_operation : String → ℕ → Request J → Operation J
  new_operation operation_id now r = record {
    operation_id = operation_id;
    idempotency_key = r.idempotency_key;
    operation_type = r.operation_type;
    book_key = r.book_key;
    run_id = r.run_id;
    calibre_book_id = r.calibre_book_id;
    state = requested;
    requested_patch = r.requested_patch;
    expected_before_metadata = r.expected_before_metadata;
    before_metadata = none;
    target_metadata = none;
    observed_metadata = none;
    change_id = none;
    rollback_opf_path = none;
    rollback_opf_sha256 = none;
    rollback_cover_path = none;
    rollback_cover_sha256 = none;
    rollback_custom = [];
    lease_owner = none;
    lease_expires_at = none;
    authorization_id = r.authorization_id;
    verdict_hash = r.verdict_hash;
    patch_hash = r.patch_hash;
    field_locks_hash = r.field_locks_hash;
    policy_version = r.policy_version;
    evidence_id = r.evidence_id;
    pilot_id = r.pilot_id;
    error = none;
    created_at = now;
    updated_at = now;
    completed_at = none;
  }

  abbrev pub requested_event : String → String → Request J → OutboxEvent
  requested_event event_id operation_id r = record {
    event_id = event_id;
    aggregate_id = operation_id;
    event_type = "operation.requested";
    payload_operation_type = r.operation_type;
    payload_book_key = r.book_key;
    status = "pending";
    attempts = 0;
    last_error = none;
  }

  -- `create_operation`: the operation, and the session after the flush.
  unfoldable pub create_operation :
      String → String → ℕ → Request J → Session J → Operation J × Session J
  create_operation operation_id event_id now r s =
      elim (find_by_key r.idempotency_key s.operations) [
        | some existing ↦ (existing, s)
        | none ↦
            let op = new_operation operation_id now r in
            (
              op,
              record {
                operations = s.operations ++ op ∷ [];
                outbox = s.outbox ++ requested_event event_id operation_id r ∷ [];
              },
            )
      ]

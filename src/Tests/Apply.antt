-- ===== src/Tests/Apply.antt =====
-- The queueing of the package in the module Package under a pilot of two operations.
use calibre_bookwarden.Prelude.{◌≡◌, refl, true, none, some, [], ◌∷◌, codes, strip}
use calibre_bookwarden.Prelude.Dict.{lookup, insert}
use calibre_bookwarden.Prelude.Sets.{insert_sorted, sorted}
use calibre_bookwarden.Isbn.{
  clean, upper, sum_10, sum_13, isbn10_checksum_valid, isbn13_checksum_valid, canonical_isbn13,
}
use calibre_bookwarden.Operations.{Operation, create_operation, find_by_key}
use calibre_bookwarden.Identity.{
  Json, ids, get_id, set_id, merge_ids, insert_text, sort_texts, normalize_identifiers, text_key,
  value_key,
}
use calibre_bookwarden.Identity.Patch.{
  is_sha256, validate_field, dump_field, dump_fields, canonical_patch,
}
use calibre_bookwarden.Identity.Fields.{
  patch_fields, target_value, decide_agreed, decide_groups, decide_field, decide_fields,
  resolve_fields,
}
use calibre_bookwarden.Identity.Core.{
  format_ids, internal_confirmation, external_confirmation, formats_have_core_conflict,
  formats_have_complete_core, core_step, core_fields, external_core_matches,
  external_core_conflicts,
}
use calibre_bookwarden.Identity.Resolve.{resolve_manifestation, promote, identify, confirm}
use calibre_bookwarden.Identity.Compare.{
  list_eq, dict_eq, ids_eq, json_eq, decision_eq, resolution_eq,
}
use calibre_bookwarden.Package.{
  expected_book_key, calculated_sha256, verify_hash, seal_value, remote_files_valid,
  local_files_valid, files_valid, remove_prefix, identity_valid, verify_invariants, verify_seal,
}
use calibre_bookwarden.Apply.{
  BookRecord, EvidencePackage, ManualAuthorization, Store, PilotGuard, Host, find_row, save_row,
}
use calibre_bookwarden.Apply.Checks.{
  drop_locked, book_snapshot_valid, authorization_matches, v2_patch, package_valid, load_v2_package,
  validate_pilot_guard,
}
use calibre_bookwarden.Apply.Queue.{
  pilot_operation_count, new_pilot, find_or_create_pilot, lock_or_create_pilot, is_settled_failure,
  current_value_for_patch, expected_before, apply_request, authorized, reserve, queue_v2_operation,
}
use calibre_bookwarden.Apply.Budget.{IsBudgeted, queue-IsBudgeted}
use calibre_bookwarden.Apply.Exclusion.{nonterminal, queue-IsApproved}
use calibre_bookwarden.Apply.Approval.{IsApproved}
use calibre_bookwarden.Tests.Identity.{plain}
use calibre_bookwarden.Tests.Package.{digests, sealed, derived}

abbrev pub host : Host
host = record {
  hash_json = λ d. "h1";
  canonical_root = λ s. s;
  root_digest = λ s. "root1";
  is_hexadecimal = λ s. true;
  apply_key = λ pilot evidence patch. "key1";
  schema_revision = "r1";
}

abbrev pub sealed_book : BookRecord
sealed_book = record {
  book_key = "calibre:7";
  run_id = "run1";
  calibre_book_id = some 7;
  paths = codes "/library/Ada/Signals.epub" ∷ [];
  current_metadata = [];
  field_locks = ("title", ids []) ∷ [];
  status = "audited";
}

abbrev stored_package : EvidencePackage
stored_package = record {
  evidence_id = "ev1";
  book_key = "calibre:7";
  run_id = "run1";
  schema_version = 2;
  current = [];
  extracted = derived;
  observations = some sealed;
}

abbrev authorization : ManualAuthorization
authorization = record {
  authorization_id = "a1";
  book_key = "calibre:7";
  run_id = "run1";
  verdict_hash = "p1";
  patch_hash = "h1";
  actor = codes "ada";
  reason = codes "checked";
}

abbrev pub store : Store
store = record {
  ledger = record { operations = []; outbox = [] };
  books = sealed_book ∷ [];
  packages = stored_package ∷ [];
  authorizations = authorization ∷ [];
  pilots = [];
  locks = [];
  acknowledgements = [];
}

abbrev pub pilot : PilotGuard
pilot = record {
  enabled = true;
  pilot_id = "pilot1";
  library_root = codes "/library";
  release_digest = "sha256:0000000000000000000000000000000000000000000000000000000000000000";
  alembic_revision = "r1";
  max_operations = 2;
  writer_ready = true;
}

-- The tables after the call.
abbrev pub queued : Store
queued = elim (queue_v2_operation plain digests host store "ev1" "a1" pilot "op1" "event1" 5) [
  | none ↦ store
  | some (id, s) ↦ s
]

run_queue :
    (store' : Store) × (queue_v2_operation plain digests host store "ev1" "a1" pilot "op1" "event1"
        5
      ≡ some ("op1", store'))
unfolding resolve_manifestation identify confirm promote format_ids internal_confirmation
    external_confirmation formats_have_core_conflict formats_have_complete_core core_step
    core_fields external_core_matches external_core_conflicts get_id set_id merge_ids insert_text
    sort_texts normalize_identifiers text_key value_key clean upper sum_10 sum_13
    isbn10_checksum_valid isbn13_checksum_valid canonical_isbn13 strip lookup insert patch_fields
    target_value decide_agreed decide_groups decide_field decide_fields resolve_fields is_sha256
    validate_field dump_field dump_fields canonical_patch insert_sorted sorted list_eq dict_eq
    ids_eq json_eq decision_eq resolution_eq expected_book_key calculated_sha256 seal_value
    verify_hash remote_files_valid local_files_valid files_valid remove_prefix identity_valid
    verify_invariants verify_seal find_row save_row drop_locked book_snapshot_valid
    authorization_matches v2_patch package_valid load_v2_package validate_pilot_guard
    pilot_operation_count new_pilot find_or_create_pilot lock_or_create_pilot is_settled_failure
    current_value_for_patch expected_before apply_request authorized reserve queue_v2_operation
    create_operation find_by_key
run_queue = (_, refl)

no_pilots : IsBudgeted store
unfolding find_row
no_pilots = record { within = λ id p h. absurd (cc) }

queue-IsBudgeted_example : IsBudgeted run_queue.0
queue-IsBudgeted_example =
    queue-IsBudgeted plain digests host store "ev1" "a1" pilot "op1" "event1" 5 "op1" run_queue.0
      no_pilots run_queue.1

queue-IsApproved_example :
    (op : Operation Json) × (run_queue.0.ledger.operations ≡ op ∷ [])
    × (nonterminal run_queue.0.ledger.operations ≡ op ∷ [])
    × (op.operation_id ≡ "op1")
    × IsApproved plain digests host store "ev1" "a1" op
queue-IsApproved_example =
    queue-IsApproved plain digests host store "ev1" "a1" pilot "op1" "event1" 5 "op1" run_queue.0
      run_queue.1

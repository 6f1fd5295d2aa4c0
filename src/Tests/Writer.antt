-- ===== src/Tests/Writer.antt =====
-- One title change: its claim, its write, and its recovery after an interruption.
use calibre_bookwarden.Prelude.{◌≡◌, refl, true, false, none, some, [], ◌∷◌, codes, arith}
use calibre_bookwarden.Prelude.Dict.{Dict}
use calibre_bookwarden.Operations.{
  OpState, claimed, writing, Request, new_operation, requested_event, transition_operation,
}
use calibre_bookwarden.Identity.{Json, str}
use calibre_bookwarden.Apply.{BookRecord, Store, find_row, save_row}
use calibre_bookwarden.Writer.{Change, Exception, answers, raises, Rows, Calibre}
use calibre_bookwarden.Writer.Process.{written}
use calibre_bookwarden.Writer.Undo.{Answers, turn}
use calibre_bookwarden.Writer.Closed.{IsClosed}
use calibre_bookwarden.Writer.Turn.{turn-IsClosed}
use calibre_bookwarden.Writer.Reconcile.{RecoveryCalls, reconcile_started}
use calibre_bookwarden.Writer.Recovered.{reconcile_started-IsClosed}
use calibre_bookwarden.Writer.Claim.{
  claims, next_event, update_next, take, claim_operation, claim_next_operation,
}
use calibre_bookwarden.Writer.Claim.Fair.{is_unfinished, claim-finished}
use calibre_bookwarden.Writer.Claim.Locks.{IsTaken, claim-IsTaken}
use calibre_bookwarden.Writer.Checked.{IsChecked, answer_of, process_apply-IsValidated}
use calibre_bookwarden.Apply.Validation.{validate_pilot, validate_patch, validate_apply_operation}
use calibre_bookwarden.Apply.Validated.{IsValidated}
use calibre_bookwarden.Tests.Identity.{plain}
use calibre_bookwarden.Tests.Package.{digests}
use calibre_bookwarden.Tests.Apply.{host, pilot, queued, sealed_book}
use calibre_bookwarden.Writer.{returns, matches_patch, field_matches}
use calibre_bookwarden.Writer.Process.{
  Calls, refused, process_apply, check_before, write, write_failed, target_of,
}
use calibre_bookwarden.Writer.Steps.{settle, move, finish_outbox, set_book}
use calibre_bookwarden.Operations.{Operation, create_operation, find_by_key, failed, state_eq}
use calibre_bookwarden.Prelude.Dict.{insert, merge, delete}
use calibre_bookwarden.Prelude.{strip}
use calibre_bookwarden.Prelude.Dict.{lookup}
use calibre_bookwarden.Prelude.Sets.{insert_sorted, sorted}
use calibre_bookwarden.Isbn.{
  clean, upper, sum_10, sum_13, isbn10_checksum_valid, isbn13_checksum_valid, canonical_isbn13,
}
use calibre_bookwarden.Identity.{
  get_id, set_id, merge_ids, insert_text, sort_texts, normalize_identifiers, text_key, value_key,
}
use calibre_bookwarden.Identity.Patch.{
  is_sha256, validate_field, dump_field, dump_fields, canonical_patch,
}
use calibre_bookwarden.Identity.Fields.{
  patch_fields, target_value, decide_agreed, decide_groups, decide_field, decide_fields,
  resolve_fields,
}
use calibre_bookwarden.Identity.Core.{
  format_ids, internal_confirmation, external_confirmation, formats_have_core_conflict,
  formats_have_complete_core, core_step, core_fields, external_core_matches,
  external_core_conflicts,
}
use calibre_bookwarden.Identity.Resolve.{resolve_manifestation, promote, identify, confirm}
use calibre_bookwarden.Identity.Compare.{
  list_eq, dict_eq, ids_eq, json_eq, decision_eq, resolution_eq,
}
use calibre_bookwarden.Package.{
  expected_book_key, calculated_sha256, verify_hash, seal_value, remote_files_valid,
  local_files_valid, files_valid, remove_prefix, identity_valid, verify_invariants, verify_seal,
}
use calibre_bookwarden.Apply.Checks.{
  drop_locked, book_snapshot_valid, authorization_matches, v2_patch, package_valid, load_v2_package,
  validate_pilot_guard,
}
use calibre_bookwarden.Apply.Queue.{
  pilot_operation_count, new_pilot, find_or_create_pilot, lock_or_create_pilot, is_settled_failure,
  current_value_for_patch, expected_before, apply_request, authorized, reserve, queue_v2_operation,
}

abbrev plain_calibre : Calibre
plain_calibre = record {
  text_of = λ v. [];
  is_truthy = λ s. true;
  as_dict = λ v. none;
  as_int = λ v. none;
  file_sha256 = λ path. none;
}

abbrev old_title : Dict Json
old_title = ("title", str (codes "Signal")) ∷ []

abbrev new_title : Dict Json
new_title = ("title", str (codes "Signals")) ∷ []

abbrev ask : Request Json
ask = record {
  idempotency_key = "k1";
  operation_type = "apply_metadata";
  book_key = "calibre:7";
  requested_patch = new_title;
  run_id = some "run1";
  authorization_id = none;
  calibre_book_id = some 7;
  verdict_hash = none;
  patch_hash = none;
  field_locks_hash = none;
  expected_before_metadata = some old_title;
  policy_version = "v1";
  evidence_id = none;
  pilot_id = none;
}

abbrev book : BookRecord
book = record {
  book_key = "calibre:7";
  run_id = "run1";
  calibre_book_id = some 7;
  paths = [];
  current_metadata = old_title;
  field_locks = [];
  status = "apply_queued";
}

abbrev store : Store
store = record {
  ledger = record {
    operations = new_operation "op1" 10 ask ∷ [];
    outbox = requested_event "event1" "op1" ask ∷ [];
  };
  books = book ∷ [];
  packages = [];
  authorizations = [];
  pilots = [];
  locks = [];
  acknowledgements = [];
}

claim-finished_example : is_unfinished (claim_next_operation "w1" 70 11 2 store) ≡ false
claim-finished_example = claim-finished "w1" 70 11 2 store (omega arith)

run_claim : (store' : Store) × (claim_next_operation "w1" 70 11 2 store ≡ claims "op1" store')
unfolding next_event update_next take claim_operation claim_next_operation find_row save_row
    transition_operation
run_claim = (_, refl)

claim-IsTaken_example : IsTaken "w1" 70 11 [] "op1" run_claim.0
claim-IsTaken_example = claim-IsTaken "w1" 70 11 2 store "op1" run_claim.0 run_claim.1

abbrev in_state : OpState → Rows
in_state state = record {
  operation = record (new_operation "op1" 10 ask) {
    state = state;
    before_metadata = some old_title;
    target_metadata = some new_title;
  };
  book = some book;
  event = record (requested_event "event1" "op1" ask) { status = "processing" };
  lock = some (record {
    book_key = "calibre:7";
    operation_id = "op1";
    lease_owner = "w1";
    lease_expires_at = 70;
  });
  change = none;
}

abbrev change : Change
change = record {
  change_id = 3;
  operation_id = some "op1";
  book_key = "calibre:7";
  run_id = "run1";
  before_metadata = old_title;
  after_metadata = new_title;
  backup_opf_path = codes "/artifacts/before.opf";
  backup_opf_sha256 = none;
  backup_cover_path = none;
  backup_cover_sha256 = none;
  before_custom = [];
  status = "applied";
}

abbrev stop : Exception
stop = record { is_expected = false; message = "calibredb stopped" }

abbrev replies : Answers
replies = record {
  apply = record {
    validated = answers tt;
    before = answers old_title;
    files_before = answers tt;
    applied = written change;
    post_write = answers new_title;
    files_after = answers tt;
    observed = answers new_title;
    restore = raises stop;
    restored_metadata = raises stop;
  };
  undo = record {
    artifact = raises stop;
    before = raises stop;
    backup = raises stop;
    cover_backup = raises stop;
    restore = raises stop;
    observed = raises stop;
    own_artifact = raises stop;
    rollback = raises stop;
    restored_metadata = raises stop;
  };
}

turn-IsClosed_example :
    (rows : Rows) × (turn plain_calibre replies 12 (in_state claimed) ≡ some rows)
    × IsClosed plain_calibre 12 rows
turn-IsClosed_example = turn-IsClosed plain_calibre 12 replies (in_state claimed) refl

abbrev recovery : RecoveryCalls
recovery = record {
  observed = answers new_title;
  files = answers tt;
  restore = raises stop;
  restored_metadata = raises stop;
}

reconcile_started-IsClosed_example :
    (rows : Rows) × (reconcile_started plain_calibre recovery 90 (in_state writing) ≡ some rows)
    × IsClosed plain_calibre 90 rows
reconcile_started-IsClosed_example =
    reconcile_started-IsClosed plain_calibre 90 recovery (in_state writing) refl

-- The operation that the module Apply queues, once it is claimed.
abbrev approved : Operation Json
approved = elim queued.ledger.operations [
  | [] ↦ new_operation "op1" 10 ask
  | op ∷ ops ↦ record op { state = claimed }
]

abbrev approved_rows : Rows
approved_rows = record (in_state claimed) { operation = approved; book = some sealed_book }

abbrev cut_off : Calls
cut_off = record (replies.apply) { before = answers []; applied = refused stop none }

run_validation :
    (cut_off.validated
      ≡ answer_of
          (validate_apply_operation plain digests host queued approved sealed_book (some pilot)))
    × ((rows : Rows) × (process_apply plain_calibre cut_off 12 approved_rows ≡ returns rows)
        × (state_eq rows.operation.state failed ≡ false))
unfolding resolve_manifestation identify confirm promote format_ids internal_confirmation
    external_confirmation formats_have_core_conflict formats_have_complete_core core_step
    core_fields external_core_matches external_core_conflicts get_id set_id merge_ids insert_text
    sort_texts normalize_identifiers text_key value_key clean upper sum_10 sum_13
    isbn10_checksum_valid isbn13_checksum_valid canonical_isbn13 strip lookup insert patch_fields
    target_value decide_agreed decide_groups decide_field decide_fields resolve_fields is_sha256
    validate_field dump_field dump_fields canonical_patch insert_sorted sorted list_eq dict_eq
    ids_eq json_eq decision_eq resolution_eq expected_book_key calculated_sha256 seal_value
    verify_hash remote_files_valid local_files_valid files_valid remove_prefix identity_valid
    verify_invariants verify_seal find_row save_row drop_locked book_snapshot_valid
    authorization_matches v2_patch package_valid load_v2_package validate_pilot_guard
    pilot_operation_count new_pilot find_or_create_pilot lock_or_create_pilot is_settled_failure
    current_value_for_patch expected_before apply_request authorized reserve queue_v2_operation
    create_operation find_by_key validate_pilot validate_patch validate_apply_operation
    process_apply check_before write write_failed settle move finish_outbox set_book
    transition_operation matches_patch field_matches target_of merge delete
run_validation = (refl, (_, refl, refl))

process_apply-IsValidated_example :
    IsValidated plain digests host queued approved sealed_book
    × IsChecked plain_calibre cut_off 12 approved_rows
process_apply-IsValidated_example =
    process_apply-IsValidated plain digests host plain_calibre cut_off 12 queued (some pilot)
      sealed_book approved_rows run_validation.1.0 run_validation.0 run_validation.1.1
      run_validation.1.2

-- ===== src/Tests/Audit.antt =====
-- A run over a readable book and one whose file cannot be opened, by itself and with the store.
use mathlib.Core.List
use calibre_bookwarden.Prelude.{
  any, ℕ, ◌≡◌, refl, String, Bool, true, false, List, none, some, [], ◌∷◌, codes, strip, All, ◌==◌,
  if◌then◌else◌,
}
use calibre_bookwarden.Prelude.Dict.{Dict, lookup, insert}
use calibre_bookwarden.Prelude.Sets.{insert_sorted, sorted}
use calibre_bookwarden.Isbn.{
  clean, upper, sum_10, sum_13, isbn10_checksum_valid, isbn13_checksum_valid, canonical_isbn13,
}
use calibre_bookwarden.Verdict.{Text}
use calibre_bookwarden.Lease.{is_active_status}
use calibre_bookwarden.Lease.Books.{
  BookAuditState, shadowed, failed, decided, extracting, resolving, snapshotting,
}
use calibre_bookwarden.Identity.{
  Json, str, strs, get_id, set_id, merge_ids, insert_text, sort_texts, normalize_identifiers,
  text_key, value_key,
}
use calibre_bookwarden.Identity.Patch.{
  is_sha256, validate_field, dump_field, dump_fields, canonical_patch,
}
use calibre_bookwarden.Identity.Fields.{
  patch_fields, target_value, decide_agreed, decide_groups, decide_field, decide_fields,
  resolve_fields,
}
use calibre_bookwarden.Identity.Core.{
  format_ids, internal_confirmation, external_confirmation, formats_have_core_conflict,
  formats_have_complete_core, core_step, core_fields, external_core_matches,
  external_core_conflicts,
}
use calibre_bookwarden.Identity.Resolve.{resolve_manifestation, promote, identify, confirm}
use calibre_bookwarden.Identity.Compare.{
  list_eq, dict_eq, ids_eq, json_eq, decision_eq, resolution_eq,
}
use calibre_bookwarden.Package.{
  EvidencePackageV2, Sealing, expected_book_key, calculated_sha256, verify_hash, seal_value,
  remote_files_valid, local_files_valid, files_valid, identity_valid, verify_invariants, seal,
  verify_seal, calibre_content_server,
}
use calibre_bookwarden.Apply.{find_row, save_row}
use calibre_bookwarden.Audit.{
  Reading, Pipeline, split, normalize_authors, normalize_languages, canonical_current, format_paths,
  new_snapshot, show_key,
}
use calibre_bookwarden.Audit.Steps.{
  Listener, answers, faults, Reply, got, raised, ◌>>=◌, pure, call, throw, notify, catch,
}
use calibre_bookwarden.Audit.Inspect.{
  View, RawBook, file_references, book_snapshot, validated_file, inspect_local, inspect,
}
use calibre_bookwarden.Audit.Drafts.{
  shadow, LibraryAuditResult, LibraryRunStatus, completed, completed_with_errors, insert_book,
  sort_books, limited, listed_snapshot,
}
use calibre_bookwarden.Audit.Run.{
  failed_package, decide_book, process_book, recover_book, audit_book, audit_books, run_shadow, run,
  source_changed_package,
}
use calibre_bookwarden.Audit.Gives.{IsQuiet}
use calibre_bookwarden.Audit.Reports.{IsRunOf}
use calibre_bookwarden.Audit.Reported.{run-IsResult}
use calibre_bookwarden.Audit.Sealable.{are_listable, view_listable, is_listable}
use calibre_bookwarden.Audit.Returned.{run-got}
use calibre_bookwarden.Audit.Rows.{
  Payloads, Tables, find_result, set_result, rows_of, count_rows, refresh_counts,
}
use calibre_bookwarden.Audit.Store.{
  new_run, started, stated, finished, packaged, package_resumable, is_resumable,
  resumable_book_keys,
}
use calibre_bookwarden.Audit.Service.{service_keys, audit_opened, run_persisted}
use calibre_bookwarden.Audit.Setup.{Setup, new_source, new_pipeline, service_key}
use calibre_bookwarden.Audit.Resumed.{IsResumed, run_persisted-IsResumed}
use calibre_bookwarden.Tests.Identity.{plain, epub, records}
use calibre_bookwarden.Tests.Package.{digests, sealed}

abbrev digit : ℕ → String
digit n = if n == 7 then "7" else "8"

abbrev sealing : Sealing
sealing = record digests { show_id = digit }

abbrev reading : Reading
reading = record {
  items_of = λ s. [];
  paths_of = λ s. [];
  is_dict = λ s. false;
  validation_message = "ValidationError";
  is_true = λ value. true;
  raw_digest = λ raw. codes "r1";
  keys_digest = λ keys. "k1";
  strip_lower = λ s. s;
  source_message = "ValidationError";
  absolute_path = λ s. s;
  same_evidence = λ a b. false;
}

abbrev local : Pipeline
local = record { source = none; library_root = some (codes "/library"); run_id = "run1" }

abbrev the_file : Text
the_file = codes "/library/Ada/Signals.epub"

abbrev raw : Dict Json
raw = ("title", str (codes "Signals")) ∷ ("formats", strs (the_file ∷ [])) ∷ []

abbrev view : View
view = record { show_metadata = answers raw; format_references = λ formats. answers [] }

abbrev readable_book : RawBook
readable_book = record {
  raw = raw;
  id = 7;
  first_view = view;
  later_view = view;
  failed_view = view;
  is_absolute = λ path. true;
  opens_beneath = λ root path. true;
  inspector = λ path. answers (record { format_evidence = epub; evidence = records });
  collect_materialized = none;
  collect = λ snapshot inspections. answers [];
  assert_unchanged = answers tt;
  evidence_id = "ev1";
  failed_evidence_id = "ev2";
}

abbrev locked_book : RawBook
locked_book = record readable_book {
  id = 8;
  opens_beneath = λ root path. false;
  evidence_id = "ev3";
  failed_evidence_id = "ev4";
}

abbrev listed : List RawBook
listed = locked_book ∷ readable_book ∷ []

-- A listener that keeps the events.
abbrev Events : Type 0
Events = List (String × BookAuditState)

abbrev log : Listener Events
log = record {
  on_state = λ key state events. (answers tt, (key, state) ∷ events);
  on_package = λ pack events. (answers tt, events);
}

log-IsQuiet : IsQuiet log
log-IsQuiet = record { of_state = λ key state s. refl; of_package = λ pack s. refl }

run_listable :
    All
      (λ (book : RawBook). is_listable plain reading sealing local book ≡ true)
      (limited 0 (sort_books listed))
unfolding is_listable are_listable view_listable files_valid local_files_valid format_paths
    new_snapshot strip insert_book sort_books limited lookup
run_listable = (refl, (refl, tt))

run-got_example :
    (result : LibraryAuditResult) × (t : Events) × (run plain reading sealing local log shadow 0 []
        (answers listed)
        []
      ≡ (got result, t))
run-got_example =
    run-got plain reading sealing local Events log log-IsQuiet 0 [] listed [] run_listable

run-IsResult_example :
    IsRunOf plain reading sealing local shadow 0 [] (answers listed) run-got_example.0
run-IsResult_example =
    run-IsResult plain reading sealing local Events log shadow 0 [] (answers listed) []
      run-got_example.1 run-got_example.0 run-got_example.2

abbrev report_of :
    Reply LibraryAuditResult × Events → LibraryRunStatus × List BookAuditState × Events
report_of (got result, events) =
    (result.status, List.map (λ (pack : EvidencePackageV2). pack.state) result.packages, events)
report_of (raised e, events) = (completed, [], events)

run_events : report_of (run plain reading sealing local log shadow 0 [] (answers listed) []) ≡ (
  completed_with_errors,
  shadowed ∷ failed ∷ [],
  ("calibre:8", failed)
      ∷ ("calibre:8", extracting)
      ∷ ("calibre:8", snapshotting)
      ∷ ("calibre:7", shadowed)
      ∷ ("calibre:7", decided)
      ∷ ("calibre:7", resolving)
      ∷ ("calibre:7", extracting)
      ∷ ("calibre:7", snapshotting)
      ∷ [],
)
unfolding resolve_manifestation identify confirm promote format_ids internal_confirmation
    external_confirmation formats_have_core_conflict formats_have_complete_core core_step
    core_fields external_core_matches external_core_conflicts get_id set_id merge_ids insert_text
    sort_texts normalize_identifiers text_key value_key clean upper sum_10 sum_13
    isbn10_checksum_valid isbn13_checksum_valid canonical_isbn13 strip lookup insert patch_fields
    target_value decide_agreed decide_groups decide_field decide_fields resolve_fields is_sha256
    validate_field dump_field dump_fields canonical_patch insert_sorted sorted list_eq dict_eq
    ids_eq json_eq decision_eq resolution_eq expected_book_key calculated_sha256 seal_value
    verify_hash remote_files_valid local_files_valid files_valid identity_valid verify_invariants
    seal verify_seal format_paths new_snapshot insert_book sort_books limited ◌>>=◌ pure call throw
    notify catch split normalize_authors normalize_languages canonical_current file_references
    book_snapshot validated_file inspect_local inspect listed_snapshot failed_package
    source_changed_package decide_book process_book recover_book audit_book audit_books run_shadow
    run show_key
run_events = refl

abbrev differs : Payloads
differs = record { revalidated = some; same_payload = λ a b. false }

abbrev local_setup : Setup
local_setup = record {
  source_kind = none;
  fingerprint = "";
  library_path = some (codes "/library");
  scratch_root = none;
  run_id = "run1";
}

abbrev no_tables : Tables
no_tables = record { runs = []; results = []; books = []; packages = [] }

abbrev blank : LibraryAuditResult
blank = record {
  run_id = "";
  status = completed;
  snapshot = record { run_id = ""; book_keys = []; snapshot_sha256 = "" };
  packages = [];
}

abbrev result_in : Reply LibraryAuditResult → LibraryAuditResult
result_in (got result) = result
result_in (raised e) = blank

-- A first run of the two books
abbrev first_run : Reply LibraryAuditResult × Tables
first_run =
    run_persisted plain reading sealing local_setup differs shadow 0 false 5 listed no_tables

abbrev result_states : LibraryAuditResult → List BookAuditState
result_states result = List.map (λ (pack : EvidencePackageV2). pack.state) result.packages

run_first :
    (first_run ≡ (got (result_in first_run.0), first_run.1))
    × (result_states (result_in first_run.0) ≡ shadowed ∷ failed ∷ [])
    × (resumable_book_keys plain sealing differs "run1" first_run.1 ≡ "calibre:7" ∷ [])
unfolding resolve_manifestation identify confirm promote format_ids internal_confirmation
    external_confirmation formats_have_core_conflict formats_have_complete_core core_step
    core_fields external_core_matches external_core_conflicts get_id set_id merge_ids insert_text
    sort_texts normalize_identifiers text_key value_key clean upper sum_10 sum_13
    isbn10_checksum_valid isbn13_checksum_valid canonical_isbn13 strip lookup insert patch_fields
    target_value decide_agreed decide_groups decide_field decide_fields resolve_fields is_sha256
    validate_field dump_field dump_fields canonical_patch insert_sorted sorted list_eq dict_eq
    ids_eq json_eq decision_eq resolution_eq expected_book_key calculated_sha256 seal_value
    verify_hash remote_files_valid local_files_valid files_valid identity_valid verify_invariants
    seal verify_seal format_paths new_snapshot insert_book sort_books limited ◌>>=◌ pure call throw
    notify catch split normalize_authors normalize_languages canonical_current file_references
    book_snapshot validated_file inspect_local inspect listed_snapshot failed_package
    source_changed_package decide_book process_book recover_book audit_book audit_books run_shadow
    run started stated finished packaged find_result set_result rows_of count_rows refresh_counts
    find_row save_row package_resumable is_resumable resumable_book_keys audit_opened run_persisted
    new_pipeline new_source service_key show_key
run_first = (refl, refl, refl)

run_persisted-IsResumed_example :
    (opened : Tables) × (p : Pipeline) × (started "run1"
        (service_keys sealing local_setup (limited 0 (sort_books listed)))
        "shadow"
        false
        no_tables
      ≡ answers opened)
    × (new_pipeline reading local_setup ≡ answers p)
    × IsResumed plain sealing differs reading local_setup p 0 listed opened (result_in first_run.0)
run_persisted-IsResumed_example =
    run_persisted-IsResumed plain sealing differs reading local_setup shadow 0 false 5 listed
      no_tables first_run.1 (result_in first_run.0) run_first.0

abbrev waiting : Tables
waiting = record {
  runs = new_run "run1" "shadow" false 1 ∷ [];
  results =
      record { run_id = "run1"; book_key = "calibre:7"; evidence_id = none; state = decided } ∷ [];
  books = [];
  packages = [];
}

abbrev recorded : Tables
recorded = elim (packaged plain digests differs "run1" sealed waiting) [
  | answers new ↦ new
  | faults e ↦ waiting
]

run_recorded : packaged plain digests differs "run1" sealed waiting ≡ answers recorded
unfolding resolve_manifestation identify confirm promote format_ids internal_confirmation
    external_confirmation formats_have_core_conflict formats_have_complete_core core_step
    core_fields external_core_matches external_core_conflicts get_id set_id merge_ids insert_text
    sort_texts normalize_identifiers text_key value_key clean upper sum_10 sum_13
    isbn10_checksum_valid isbn13_checksum_valid canonical_isbn13 strip lookup insert patch_fields
    target_value decide_agreed decide_groups decide_field decide_fields resolve_fields is_sha256
    validate_field dump_field dump_fields canonical_patch insert_sorted sorted list_eq dict_eq
    ids_eq json_eq decision_eq resolution_eq expected_book_key calculated_sha256 seal_value
    verify_hash remote_files_valid local_files_valid files_valid identity_valid verify_invariants
    seal verify_seal format_paths new_snapshot insert_book sort_books limited ◌>>=◌ pure call throw
    notify catch split normalize_authors normalize_languages canonical_current file_references
    book_snapshot validated_file inspect_local inspect listed_snapshot failed_package
    source_changed_package decide_book process_book recover_book audit_book audit_books run_shadow
    run started stated finished packaged find_result set_result rows_of count_rows refresh_counts
    find_row save_row package_resumable is_resumable resumable_book_keys audit_opened run_persisted
    new_pipeline new_source service_key show_key
run_recorded = refl

-- A book that failed and is then shadowed, in a run that stops before record_package, counts as
-- done: the only package stored for it is that of the failure.
abbrev crashed : Tables
crashed = elim (stated "run1" "calibre:8" shadowed first_run.1) [
  | answers new ↦ new
  | faults e ↦ no_tables
]

run_crashed :
    resumable_book_keys plain sealing differs "run1" crashed ≡ "calibre:7" ∷ "calibre:8" ∷ []
unfolding resolve_manifestation identify confirm promote format_ids internal_confirmation
    external_confirmation formats_have_core_conflict formats_have_complete_core core_step
    core_fields external_core_matches external_core_conflicts get_id set_id merge_ids insert_text
    sort_texts normalize_identifiers text_key value_key clean upper sum_10 sum_13
    isbn10_checksum_valid isbn13_checksum_valid canonical_isbn13 strip lookup insert patch_fields
    target_value decide_agreed decide_groups decide_field decide_fields resolve_fields is_sha256
    validate_field dump_field dump_fields canonical_patch insert_sorted sorted list_eq dict_eq
    ids_eq json_eq decision_eq resolution_eq expected_book_key calculated_sha256 seal_value
    verify_hash remote_files_valid local_files_valid files_valid identity_valid verify_invariants
    seal verify_seal format_paths new_snapshot insert_book sort_books limited ◌>>=◌ pure call throw
    notify catch split normalize_authors normalize_languages canonical_current file_references
    book_snapshot validated_file inspect_local inspect listed_snapshot failed_package
    source_changed_package decide_book process_book recover_book audit_book audit_books run_shadow
    run started stated finished packaged find_result set_result rows_of count_rows refresh_counts
    find_row save_row package_resumable is_resumable resumable_book_keys audit_opened run_persisted
    new_pipeline new_source service_key show_key
run_crashed = refl

-- A run of the first book alone, on the tables with its package.
abbrev reopened : Tables
reopened = elim (started "run1" ("calibre:7" ∷ []) "shadow" false recorded) [
  | answers new ↦ new
  | faults e ↦ waiting
]

abbrev left : Tables
left =
    (run_persisted plain reading sealing local_setup differs shadow 0 false 6 (readable_book ∷ [])
      recorded).1

-- A remote reader, for which `run_persisted_library_audit` has no scratch root unless it is given one
abbrev remote_setup : Setup
remote_setup = record {
  source_kind = some calibre_content_server;
  fingerprint = "0123456789abcdef0123456789abcdef0123456789abcdef0123456789abcdef";
  library_path = none;
  scratch_root = none;
  run_id = "run1";
}

abbrev unbuilt : Reply LibraryAuditResult × Tables
unbuilt = run_persisted plain reading sealing remote_setup differs shadow 0 false 5 listed no_tables

abbrev is_left_running : Reply LibraryAuditResult × Tables → Bool
is_left_running (raised e, tables) = any (λ run. is_active_status run.status) tables.runs
is_left_running (got result, tables) = false

-- The constructor raises after the start is committed, and the run stays in the status `running`.
run_unbuilt : is_left_running unbuilt ≡ true
unfolding run_persisted new_pipeline new_source service_key started lookup is_sha256 strip
    find_result set_result rows_of count_rows refresh_counts find_row save_row limited sort_books
    insert_book
run_unbuilt = refl

-- ===== src/Audit/Store.antt =====
-- SQLAuditStore of src/calibre_ai_auditor/verification/persistence_v2.py on the tables that it reads and
-- writes, with the columns that matter here. Each method is one transaction: a ValueError leaves the
-- tables as they were. The JSON of a package that is stored validates to the package again.

use calibre_bookwarden.Prelude.{
  ℕ, String, Bool, true, false, not, ◌&&◌, Option, none, some, List, [], ◌∷◌, ◌++◌, ◌==◌, keep,
  str_eq, str_append, length,
}
use calibre_bookwarden.Lease.{RunStatus, running}
use calibre_bookwarden.Lease.Books.{BookAuditState, VerificationResult}
use calibre_bookwarden.Identity.{Runtime}
use calibre_bookwarden.Identity.Compare.{resolution_eq}
use calibre_bookwarden.Package.{EvidencePackageV2, Sealing, verify_seal, are_distinct_ids}
use calibre_bookwarden.Apply.{BookRecord, EvidencePackage, save_row, find_book}
use calibre_bookwarden.Apply.Checks.{same_dict}
use calibre_bookwarden.Audit.Steps.{Answer, answers, faults, Listener}
use calibre_bookwarden.Audit.Answers.{◌>>=◌, ◌>>◌, ensure, found}
use calibre_bookwarden.Audit.Rows.{
  Payloads, AuditRun, Tables, state_name, is_resumable_state, find_result, set_result, rows_of,
  find_audit_run, find_package, refresh_counts, save_run, is_subset, keys_of, pending_rows,
}

-- The row that `start` adds for a new run
abbrev pub new_run : String → String → Bool → ℕ → AuditRun
new_run run_id mode use_llm total = record {
  run_id = run_id;
  mode = mode;
  use_llm = use_llm;
  pipeline_version = "manifestation-v2";
  status = running;
  total = total;
  completed = 0;
  counts = [];
  finished_at = none;
}

abbrev pub is_same_contract : String → AuditRun → Bool
is_same_contract mode run = str_eq run.pipeline_version "manifestation-v2" && str_eq run.mode mode

-- `session.add(run)` if there is none, or the test of the one that is there
abbrev pub open_run : Option AuditRun → AuditRun → List AuditRun → Answer (List AuditRun)
open_run none new runs = answers (runs ++ (new ∷ []))
open_run (some run) new runs =
    ensure (is_same_contract new.mode run)
      "run_id already belongs to a different verification contract"
    >> answers runs

abbrev pub is_same_membership : List String → List String → Bool
is_same_membership [] book_keys = true
is_same_membership existing book_keys = is_subset existing book_keys && is_subset book_keys existing

-- The transaction of `start`; the rows of a run have distinct keys in the table.
unfoldable pub started : String → List String → String → Bool → Tables → Answer Tables
started run_id book_keys mode use_llm tables = do
  runs ←
      open_run (find_audit_run run_id tables.runs) (new_run run_id mode use_llm (length book_keys))
        tables.runs
  let existing = keys_of (rows_of run_id tables.results)
  ensure (is_same_membership existing book_keys)
      "run_id library membership differs from the frozen V2 snapshot"
  let new = pending_rows run_id existing book_keys
  ensure (are_distinct_ids (keys_of new)) "IntegrityError"
  answers (record tables { runs = runs; results = tables.results ++ new })

-- `_result` and `_run`, or their ValueError
abbrev pub result_or_fault : String → String → Tables → Answer VerificationResult
result_or_fault run_id book_key tables =
    found (find_result run_id book_key tables.results)
      (str_append "book " (str_append book_key (str_append " is not part of run " run_id)))

abbrev pub run_or_fault : String → Tables → Answer AuditRun
run_or_fault run_id tables =
    found (find_audit_run run_id tables.runs)
      (str_append "verification run " (str_append run_id " has not been started"))

-- The transaction of `record_state`
unfoldable pub stated : String → String → BookAuditState → Tables → Answer Tables
stated run_id book_key state tables = do
  row ← result_or_fault run_id book_key tables
  answers (record tables {
    results = set_result run_id book_key (record row { state = state }) tables.results;
  })

-- The transaction of `finish`
unfoldable pub finished : String → RunStatus → ℕ → Tables → Answer Tables
finished run_id status now tables = do
  run ← run_or_fault run_id tables
  let counted = refresh_counts run_id tables run
  answers (save_run (record counted { status = status; finished_at = some now }) tables)

-- The BookRecord of a package: a new one, or the fields set of the one found
abbrev pub put_book : EvidencePackageV2 → List BookRecord → List BookRecord
put_book pack books = elim (find_book pack.book_key books) [
  | none ↦
      books
      ++ (record {
        book_key = pack.book_key;
        run_id = pack.run_id;
        calibre_book_id = some pack.snapshot.calibre_book_id;
        paths = pack.snapshot.files;
        current_metadata = pack.snapshot.current_metadata;
        field_locks = [];
        status = state_name pack.state;
      }
          ∷ [])
  | some book ↦
      save_row (λ (b : BookRecord). b.book_key)
        (record book {
          run_id = pack.run_id;
          calibre_book_id = some pack.snapshot.calibre_book_id;
          paths = pack.snapshot.files;
          current_metadata = pack.snapshot.current_metadata;
          status = state_name pack.state;
        })
        books
]

-- A method: its answer, and the tables after its transaction.
abbrev pub commit : Answer Tables → Tables → Answer (Unit {0}) × Tables
commit (answers new) old = (answers tt, new)
commit (faults e) old = (faults e, old)

-- The writes of `record_package` before the counts
abbrev pub package_written :
    String → EvidencePackageV2 → List EvidencePackage → VerificationResult → Tables → Tables
package_written run_id pack packages row tables =
    let new = record row { evidence_id = some pack.evidence_id; state = pack.state } in
    record tables {
      books = put_book pack tables.books;
      packages = packages;
      results = set_result run_id pack.book_key new tables.results;
    }

module _ (rt : Runtime) (sl : Sealing) (pl : Payloads) where
  -- The row EvidencePackage of a package
  abbrev pub package_row : EvidencePackageV2 → EvidencePackage
  package_row pack = record {
    evidence_id = pack.evidence_id;
    book_key = pack.book_key;
    run_id = pack.run_id;
    schema_version = 2;
    current = pack.snapshot.current_metadata;
    extracted = pack.identity;
    observations = pl.revalidated pack;
  }

  abbrev pub put_package : EvidencePackageV2 → List EvidencePackage → Answer (List EvidencePackage)
  put_package pack packages = elim (find_package pack.evidence_id packages) [
    | none ↦ answers (packages ++ (package_row pack ∷ []))
    | some stored ↦
        ensure (pl.same_payload stored pack)
          "evidence_id already exists with a different sealed payload"
        >> answers packages
  ]

  -- The transaction of `record_package`
  unfoldable pub packaged : String → EvidencePackageV2 → Tables → Answer Tables
  packaged run_id pack tables = do
    ensure (str_eq pack.run_id run_id && verify_seal rt sl pack)
        "evidence package identity or seal is invalid"
    packages ← put_package pack tables.packages
    row ← result_or_fault run_id pack.book_key tables
    let new = package_written run_id pack packages row tables
    run ← run_or_fault run_id new
    answers (save_run (refresh_counts run_id new run) new)

  -- The tests of `resumable_book_keys` on the package that a row names
  unfoldable pub package_resumable :
      String → VerificationResult → String → EvidencePackage → EvidencePackageV2 → Bool
  package_resumable run_id row evidence_id stored pack =
      verify_seal rt sl pack
      && (str_eq pack.evidence_id evidence_id
          && (str_eq pack.run_id run_id
              && (str_eq pack.book_key row.book_key
                  && (str_eq stored.book_key pack.book_key
                      && (str_eq stored.run_id pack.run_id
                          && (same_dict stored.current pack.snapshot.current_metadata
                              && resolution_eq stored.extracted pack.identity))))))

  abbrev pub stored_resumable : String → VerificationResult → String → Option EvidencePackage → Bool
  stored_resumable run_id row evidence_id none = false
  stored_resumable run_id row evidence_id (some stored) =
      stored.schema_version == 2 && elim stored.observations [
        | none ↦ false
        | some pack ↦ package_resumable run_id row evidence_id stored pack
      ]

  -- Whether the loop of `resumable_book_keys` adds the key of a row
  unfoldable pub is_resumable : String → List EvidencePackage → VerificationResult → Bool
  is_resumable run_id packages row = elim row.evidence_id [
    | none ↦ false
    | some evidence_id ↦
        not (str_eq evidence_id "")
        && (is_resumable_state row.state
            && stored_resumable run_id row evidence_id (find_package evidence_id packages))
  ]

  -- `resumable_book_keys`
  unfoldable pub resumable_book_keys : String → Tables → List String
  resumable_book_keys run_id tables =
      keys_of (keep (is_resumable run_id tables.packages) (rows_of run_id tables.results))

  -- The store as the listener of a pipeline: `record_state` and `record_package`
  abbrev pub store : String → Listener Tables
  store run_id = record {
    on_state = λ key state tables. commit (stated run_id key state tables) tables;
    on_package = λ pack tables. commit (packaged run_id pack tables) tables;
  }

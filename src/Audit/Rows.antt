-- ===== src/Audit/Rows.antt =====
-- The tables of SQLAuditStore in src/calibre_ai_auditor/verification/persistence_v2.py, with the columns
-- that matter here: how rows are found, written and counted.
use mathlib.Core.List
use calibre_bookwarden.Prelude.{
  ℕ, ◌+◌, String, Bool, false, ◌&&◌, Option, none, some, List, [], ◌∷◌, keep, all, str_eq, str_in,
  if◌then◌else◌,
}
use calibre_bookwarden.Prelude.Dict.{Dict, lookup, insert}
use calibre_bookwarden.Lease.{RunStatus, is_named}
use calibre_bookwarden.Lease.Books.{
  BookAuditState, pending, snapshotting, extracting, resolving, decided, shadowed, applying,
  verified, review, deferred, failed, source_changed, blocked_recovery, unlisted, is_terminal,
  VerificationResult,
}
use calibre_bookwarden.Package.{EvidencePackageV2}
use calibre_bookwarden.Apply.{BookRecord, EvidencePackage, find_row, save_row}

-- The row VerificationRun, by the columns of an audit.
pub record AuditRun : Type 0 where
  pub run_id : String
  pub mode : String
  pub use_llm : Bool
  pub pipeline_version : String
  pub status : RunStatus
  pub total : ℕ
  pub completed : ℕ
  pub counts : Dict ℕ
  pub finished_at : Option ℕ

-- What the code takes from pydantic and the JSON columns.
pub record Payloads : Type 0 where
  -- `EvidencePackageV2.model_validate(package.model_dump(mode="json"))`, by way of the column;
  -- `none` if it raises
  pub revalidated : EvidencePackageV2 → Option EvidencePackageV2
  -- `stored.observations == payload`
  pub same_payload : EvidencePackage → EvidencePackageV2 → Bool

pub record Tables : Type 0 where
  pub runs : List AuditRun
  pub results : List VerificationResult
  pub books : List BookRecord
  pub packages : List EvidencePackage

-- `state.value`
abbrev pub state_name : BookAuditState → String
state_name pending = "pending"
state_name snapshotting = "snapshotting"
state_name extracting = "extracting"
state_name resolving = "resolving"
state_name decided = "decided"
state_name shadowed = "shadowed"
state_name applying = "applying"
state_name verified = "verified"
state_name review = "review"
state_name deferred = "deferred"
state_name failed = "failed"
state_name source_changed = "source_changed"
state_name blocked_recovery = "blocked_recovery"
state_name (unlisted s) = s

-- `terminal` in `resumable_book_keys`: the terminal states but `retryable`
abbrev pub is_resumable_state : BookAuditState → Bool
is_resumable_state failed = false
is_resumable_state source_changed = false
is_resumable_state state = is_terminal state

abbrev pub is_row_of : String → String → VerificationResult → Bool
is_row_of run_id book_key row = str_eq row.run_id run_id && str_eq row.book_key book_key

-- `_result`: the row of a book, and the write of the row found
unfoldable pub find_result : String → String → List VerificationResult → Option VerificationResult
find_result run_id book_key [] = none
find_result run_id book_key (row ∷ rows) =
    if is_row_of run_id book_key row then some row else find_result run_id book_key rows

unfoldable pub set_result :
    String → String → VerificationResult → List VerificationResult → List VerificationResult
set_result run_id book_key new [] = []
set_result run_id book_key new (row ∷ rows) =
    if is_row_of run_id book_key row then new ∷ rows else row ∷ set_result run_id book_key new rows

-- `select(VerificationResult).where(VerificationResult.run_id == run_id)`
unfoldable pub rows_of : String → List VerificationResult → List VerificationResult
rows_of run_id rows = keep (λ (row : VerificationResult). str_eq row.run_id run_id) rows

abbrev pub find_audit_run : String → List AuditRun → Option AuditRun
find_audit_run run_id runs = find_row (λ (run : AuditRun). run.run_id) run_id runs

abbrev pub find_package : String → List EvidencePackage → Option EvidencePackage
find_package evidence_id packages =
    find_row (λ (row : EvidencePackage). row.evidence_id) evidence_id packages

-- The loop of `_refresh_counts`
abbrev pub is_counted : VerificationResult → Bool
is_counted row = is_terminal row.state && is_named row.evidence_id

abbrev pub count_of : Option ℕ → ℕ
count_of none = 0
count_of (some n) = n

unfoldable pub count_rows : List VerificationResult → ℕ → Dict ℕ → ℕ × Dict ℕ
count_rows [] completed counts = (completed, counts)
count_rows (row ∷ rows) completed counts =
    if is_counted row
    then count_rows rows (completed + 1)
        (insert (state_name row.state) (count_of (lookup (state_name row.state) counts) + 1) counts)
    else count_rows rows completed counts

-- `_refresh_counts`
unfoldable pub refresh_counts : String → Tables → AuditRun → AuditRun
refresh_counts run_id tables run =
    let (completed, counts) = count_rows (rows_of run_id tables.results) 0 [] in
    record run { completed = completed; counts = counts }

abbrev pub save_run : AuditRun → Tables → Tables
save_run run tables = record tables { runs = save_row (λ (r : AuditRun). r.run_id) run tables.runs }

-- `start`: `set(a) == set(b)`, the run and the new rows
abbrev pub is_subset : List String → List String → Bool
is_subset a b = all (λ k. str_in k b) a

abbrev pub keys_of : List VerificationResult → List String
keys_of rows = List.map (λ (row : VerificationResult). row.book_key) rows

abbrev pub pending_rows : String → List String → List String → List VerificationResult
pending_rows run_id existing [] = []
pending_rows run_id existing (book_key ∷ book_keys) =
    let rest = pending_rows run_id existing book_keys in
    if str_in book_key existing
    then rest
    else record { run_id = run_id; book_key = book_key; evidence_id = none; state = pending } ∷ rest

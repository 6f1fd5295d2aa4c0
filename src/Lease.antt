-- ===== src/Lease.antt =====
-- The worker leases of verification runs: src/calibre_ai_auditor/verification/durable_v2.py over the
-- rows VerificationRun and VerificationResult of src/calibre_ai_auditor/storage/models.py, with the
-- columns that the code reads or writes. Each function runs in one transaction and is one step.
-- Moments are counts of seconds; a naive and an aware datetime of one moment are the same count.
pub mod Exclusion
pub mod Recovery
pub mod Books
use mathlib.Core.List
use calibre_bookwarden.Prelude.{
  ℕ, ◌+◌, String, Bool, true, false, not, ◌&&◌, ◌||◌, Option, none, some, List, [], ◌∷◌, ltb, leb,
  keep, str_eq, is_some, if◌then◌else◌,
}

-- The statuses that the code names, and any other.
pub data RunStatus : Type 0 where
  pending running completed completed_with_errors failed blocked_recovery : RunStatus
  unlisted : String → RunStatus

-- `TERMINAL_RUN_STATUSES`
abbrev pub is_terminal_status : RunStatus → Bool
is_terminal_status completed = true
is_terminal_status completed_with_errors = true
is_terminal_status failed = true
is_terminal_status blocked_recovery = true
is_terminal_status _ = false

-- `ACTIVE_RUN_STATUSES`
abbrev pub is_active_status : RunStatus → Bool
is_active_status pending = true
is_active_status running = true
is_active_status _ = false

pub record VerificationRun : Type 0 where
  pub run_id : String
  pub status : RunStatus
  pub started_at : ℕ
  pub finished_at : Option ℕ
  pub pipeline_version : String
  pub lease_owner : Option String
  pub lease_expires_at : Option ℕ

-- `max(1, ttl_seconds)`
abbrev pub lease_time : ℕ → ℕ
lease_time ttl = if leb 1 ttl then ttl else 1

-- `lease_expires is not None and lease_expires > moment`
abbrev pub is_live : ℕ → Option ℕ → Bool
is_live moment none = false
is_live moment (some expires) = ltb moment expires

-- `bool(s)` and `run.lease_owner != owner` for an optional str
abbrev pub is_named : Option String → Bool
is_named none = false
is_named (some s) = not (str_eq s "")

abbrev pub is_owned_by : String → Option String → Bool
is_owned_by owner none = false
is_owned_by owner (some s) = str_eq s owner

-- `claim_verification_run` on the row found; `none` where it returns False
unfoldable pub claim_row : String → ℕ → ℕ → VerificationRun → Option VerificationRun
claim_row owner moment ttl run =
    if is_terminal_status run.status || is_some run.finished_at
    then none
    else if is_named run.lease_owner
        && (not (is_owned_by owner run.lease_owner) && is_live moment run.lease_expires_at)
    then none
    else some (record run {
      lease_owner = some owner;
      lease_expires_at = some (moment + lease_time ttl);
      status = if is_active_status run.status then run.status else running;
    })

-- `heartbeat_verification_run` on the row found; `none` where it returns False
unfoldable pub heartbeat_row : String → ℕ → ℕ → VerificationRun → Option VerificationRun
heartbeat_row owner moment ttl run =
    if not (is_owned_by owner run.lease_owner)
    then none
    else if is_terminal_status run.status
    then none
    else some (record run { lease_expires_at = some (moment + lease_time ttl) })

-- `release_verification_run` on the row found; `none` where it returns early
unfoldable pub release_row : String → VerificationRun → Option VerificationRun
release_row owner run =
    if not (is_owned_by owner run.lease_owner)
    then none
    else some (record run { lease_owner = none; lease_expires_at = none })

-- `select(VerificationRun).where(run_id == id).first()`
unfoldable pub find_run : String → List VerificationRun → Option VerificationRun
find_run id [] = none
find_run id (run ∷ runs) = if str_eq run.run_id id then some run else find_run id runs

-- The row found, changed if the given function changes it, and whether it did.
unfoldable pub update_run :
    String
    → (VerificationRun → Option VerificationRun)
    → List VerificationRun
    → Bool × List VerificationRun
update_run id change [] = (false, [])
update_run id change (run ∷ runs) =
    let (done, rest) = update_run id change runs in
    if str_eq run.run_id id
    then elim (change run) [ none ↦ (false, run ∷ runs) | some new ↦ (true, new ∷ runs) ]
    else (done, run ∷ rest)

-- `claim_verification_run`; `none` stands for its ValueError.
unfoldable pub claim_verification_run :
    String → String → ℕ → ℕ → List VerificationRun → Option (Bool × List VerificationRun)
claim_verification_run id owner moment ttl runs =
    if str_eq owner "" then none else some (update_run id (claim_row owner moment ttl) runs)

-- `heartbeat_verification_run`
unfoldable pub heartbeat_verification_run :
    String → String → ℕ → ℕ → List VerificationRun → Bool × List VerificationRun
heartbeat_verification_run id owner moment ttl runs =
    update_run id (heartbeat_row owner moment ttl) runs

-- `release_verification_run`
unfoldable pub release_verification_run :
    String → String → List VerificationRun → List VerificationRun
release_verification_run id owner runs = (update_run id (release_row owner) runs).1

-- What makes `list_recoverable_v2_run_ids` list a run: the query's conditions and the loop's.
abbrev pub is_recoverable : ℕ → VerificationRun → Bool
is_recoverable moment run =
    (str_eq run.pipeline_version "manifestation-v2" && not (is_some run.finished_at))
    && (not (is_terminal_status run.status)
        && not (is_named run.lease_owner && is_live moment run.lease_expires_at))

-- `order_by(started_at)`
unfoldable pub insert_run : VerificationRun → List VerificationRun → List VerificationRun
insert_run run [] = run ∷ []
insert_run run (r ∷ rs) =
    if leb run.started_at r.started_at then run ∷ r ∷ rs else r ∷ insert_run run rs

unfoldable pub sort_runs : List VerificationRun → List VerificationRun
sort_runs [] = []
sort_runs (run ∷ runs) = insert_run run (sort_runs runs)

-- `list_recoverable_v2_run_ids`
unfoldable pub list_recoverable_v2_run_ids : ℕ → List VerificationRun → List String
list_recoverable_v2_run_ids moment runs =
    List.map (λ (run : VerificationRun). run.run_id) (keep (is_recoverable moment) (sort_runs runs))

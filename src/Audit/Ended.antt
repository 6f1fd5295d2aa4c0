-- ===== src/Audit/Ended.antt =====
-- A persisted run keeps every package that is stored, and ends its run.

use calibre_bookwarden.Prelude.{ℕ, ◌≡◌, String, true, some}
use calibre_bookwarden.Lease.{is_terminal_status}
use calibre_bookwarden.Audit.Run.{run}
use calibre_bookwarden.Audit.Rows.{Tables, AuditRun, find_audit_run}
use calibre_bookwarden.Audit.Setup.{Setup}
use calibre_bookwarden.Audit.Grows.{Grows}

-- The run is over.
pub record IsEnded (run_id : String) (now : ℕ) (tables : Tables) : Type 0 where
  pub run : AuditRun
  pub at_id : find_audit_run run_id tables.runs ≡ some run
  pub final : is_terminal_status run.status ≡ true
  pub time : run.finished_at ≡ some now

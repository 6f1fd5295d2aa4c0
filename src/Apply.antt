-- ===== src/Apply.antt =====
-- The rows that src/calibre_ai_auditor/apply/coordinator.py and apply/writer.py work on, from
-- src/calibre_ai_auditor/storage/models.py, and the tables of their database session. What the code
-- takes from `hashlib`, `json` and `os.path` is the record `Host`.
pub mod Checks
pub mod Queue
pub mod Rows
pub mod Queued
pub mod Budget
pub mod Approval
pub mod Exclusion
pub mod Validation
pub mod Validated
use calibre_bookwarden.Prelude.{
  ℕ, String, Bool, true, false, Option, none, some, List, [], ◌∷◌, ◌+◌, str_eq, if◌then◌else◌,
}
use calibre_bookwarden.Prelude.Dict.{Dict}
use calibre_bookwarden.Verdict.{Text}
use calibre_bookwarden.Operations.{Operation, OutboxEvent, Session}
use calibre_bookwarden.Identity.{Json}
use calibre_bookwarden.Identity.Resolve.{ManifestationResolution}
use calibre_bookwarden.Package.{EvidencePackageV2}

-- BookRecord; `paths` is what `_book_file_paths` reads from its column `files`.
pub record BookRecord : Type 0 where
  pub book_key : String
  pub run_id : String
  pub calibre_book_id : Option ℕ
  pub paths : List Text
  pub current_metadata : Dict Json
  pub field_locks : Dict Json
  pub status : String

-- The row EvidencePackage; `observations` is the package that its column validates to, if it does.
pub record EvidencePackage : Type 0 where
  pub evidence_id : String
  pub book_key : String
  pub run_id : String
  pub schema_version : ℕ
  pub current : Dict Json
  pub extracted : ManifestationResolution
  pub observations : Option EvidencePackageV2

pub record ManualAuthorization : Type 0 where
  pub authorization_id : String
  pub book_key : String
  pub run_id : String
  pub verdict_hash : String
  pub patch_hash : String
  pub actor : Text
  pub reason : Text

pub data PilotState : Type 0 where
  open_pilot stopped completed : PilotState

pub record PilotSession : Type 0 where
  pub pilot_id : String
  pub library_root_sha256 : String
  pub release_digest : String
  pub alembic_revision : String
  pub max_operations : ℕ
  pub reserved_operations : ℕ
  pub state : PilotState

pub record BookWriteLock : Type 0 where
  pub book_key : String
  pub operation_id : String
  pub lease_owner : String
  pub lease_expires_at : ℕ

-- OperationIncidentAcknowledgement
pub record Acknowledgement : Type 0 where
  pub operation_id : String
  pub actor : Text
  pub reason : Text

-- The tables.
pub record Store : Type 0 where
  pub ledger : Session Json
  pub books : List BookRecord
  pub packages : List EvidencePackage
  pub authorizations : List ManualAuthorization
  pub pilots : List PilotSession
  pub locks : List BookWriteLock
  pub acknowledgements : List Acknowledgement

-- The runtime facts of a supervised pilot.
pub record PilotGuard : Type 0 where
  pub enabled : Bool
  pub pilot_id : String
  pub library_root : Text
  pub release_digest : String
  pub alembic_revision : String
  pub max_operations : ℕ
  pub writer_ready : Bool

pub record Host : Type 0 where
  -- `_hash_json` of a dict
  pub hash_json : Dict Json → String
  -- `_canonical_library_root(root)` and `library_root_sha256(root)`
  pub canonical_root : Text → Text
  pub root_digest : Text → String
  -- whether `int(s, 16)` raises no ValueError
  pub is_hexadecimal : Text → Bool
  -- `f"apply-v2:{pilot_id}:{evidence_id}:{patch_hash}"`
  pub apply_key : String → String → String → String
  -- `expected_schema_revision()`
  pub schema_revision : String

-- `select(T).where(T.key == key).first()`, by the key of a row
unfoldable pub find_row : {A : Type 0} → (A → String) → String → List A → Option A
find_row key k [] = none
find_row key k (row ∷ rows) = if str_eq (key row) k then some row else find_row key k rows

-- The flush of a changed row, by its key.
unfoldable pub save_row : {A : Type 0} → (A → String) → A → List A → List A
save_row key new [] = []
save_row key new (row ∷ rows) =
    if str_eq (key row) (key new) then new ∷ rows else row ∷ save_row key new rows

abbrev pub find_operation : String → List (Operation Json) → Option (Operation Json)
find_operation id ops = find_row (λ (op : Operation Json). op.operation_id) id ops

abbrev pub find_event : String → List OutboxEvent → Option OutboxEvent
find_event id events = find_row (λ (e : OutboxEvent). e.aggregate_id) id events

abbrev pub find_book : String → List BookRecord → Option BookRecord
find_book key books = find_row (λ (b : BookRecord). b.book_key) key books

abbrev pub find_pilot : String → List PilotSession → Option PilotSession
find_pilot id pilots = find_row (λ (p : PilotSession). p.pilot_id) id pilots

abbrev pub find_lock : String → List BookWriteLock → Option BookWriteLock
find_lock key locks = find_row (λ (l : BookWriteLock). l.book_key) key locks

abbrev pub find_authorization : String → List ManualAuthorization → Option ManualAuthorization
find_authorization id rows = find_row (λ (a : ManualAuthorization). a.authorization_id) id rows

-- ===== src/Audit/Drafts.antt =====
-- The data of `run` of LibraryAuditPipeline in src/calibre_ai_auditor/verification/pipeline_v2.py: the books
-- that it takes, its result, and the packages of failures before they are sealed.
use mathlib.Core.List
use calibre_bookwarden.Prelude.{
  ℕ, String, Bool, Option, none, some, List, [], ◌∷◌, ◌++◌, leb, take, zero, suc, if◌then◌else◌,
}
use calibre_bookwarden.Prelude.Dict.{Dict}
use calibre_bookwarden.Verdict.{Text}
use calibre_bookwarden.Lease.Books.{BookAuditState, failed, source_changed}
use calibre_bookwarden.Identity.{Json, Runtime, tier_c, FormatEvidence, SourceEvidence}
use calibre_bookwarden.Identity.Patch.{get_json}
use calibre_bookwarden.Identity.Resolve.{ManifestationResolution}
use calibre_bookwarden.Package.{BookSourceDescriptor, BookSnapshot, EvidencePackageV2, Sealing}
use calibre_bookwarden.Audit.{
  show_key, Reading, Pipeline, canonical_current, format_paths, new_snapshot,
}
use calibre_bookwarden.Audit.Steps.{
  Failure, source_changed_error, library_changed_error, fault, error,
}
use calibre_bookwarden.Audit.Inspect.{Inspection, RawBook, revision_of}

pub data AuditMode : Type 0 where
  shadow tier_a_auto : AuditMode

pub data LibraryRunStatus : Type 0 where
  completed completed_with_errors : LibraryRunStatus

-- LibrarySnapshot, less the time of its creation.
pub record LibrarySnapshot : Type 0 where
  pub run_id : String
  pub book_keys : List String
  pub snapshot_sha256 : String

pub record LibraryAuditResult : Type 0 where
  pub run_id : String
  pub status : LibraryRunStatus
  pub snapshot : LibrarySnapshot
  pub packages : List EvidencePackageV2

-- `str(error)[:500] or type(error).__name__`
abbrev pub error_text : Failure → String
error_text (source_changed_error snapshot) =
    "Calibre source changed while the book was being inspected"
error_text (fault (library_changed_error message)) = message
error_text (fault (error message)) = message

-- `sorted(books, key=lambda item: int(item["id"]))`
unfoldable pub insert_book : RawBook → List RawBook → List RawBook
insert_book book [] = book ∷ []
insert_book book (other ∷ books) =
    if leb book.id other.id then book ∷ other ∷ books else other ∷ insert_book book books

unfoldable pub sort_books : List RawBook → List RawBook
sort_books [] = []
sort_books (book ∷ books) = insert_book book (sort_books books)

-- `books[:limit]` if there is a limit
unfoldable pub limited : ℕ → List RawBook → List RawBook
limited zero books = books
limited (suc n) books = take (suc n) books

abbrev pub status_of : Bool → LibraryRunStatus
status_of has_errors = if has_errors then completed_with_errors else completed

-- The resolution of a package without an answer
abbrev pub unresolved : String → String → ManifestationResolution
unresolved flag reason = record {
  tier = tier_c;
  manifestation_ids = [];
  field_decisions = [];
  auto_patch = [];
  risk_flags = flag ∷ [];
  reasons = reason ∷ [];
}

abbrev pub evidence_of : List Inspection → List SourceEvidence
evidence_of [] = []
evidence_of (inspection ∷ inspections) = inspection.evidence ++ evidence_of inspections

abbrev pub formats_of : List Inspection → List FormatEvidence
formats_of inspections = List.map (λ (i : Inspection). i.format_evidence) inspections

module _ (rt : Runtime) (rd : Reading) (sl : Sealing) (p : Pipeline) where
  abbrev pub book_key : RawBook → String
  book_key book = show_key sl p.source book.id

  -- `files` and the message of a package of a failure
  abbrev pub listed_files : Option BookSourceDescriptor → Dict Json → List Text
  listed_files none raw = format_paths rd (get_json "formats" raw)
  listed_files (some source) raw = []

  abbrev pub failure_message : Option BookSourceDescriptor → Failure → String
  failure_message none e = error_text e
  failure_message (some source) e = "Remote content inspection failed"

  -- The snapshot of a failed book, from the list of books alone
  unfoldable pub listed_snapshot : RawBook → BookSnapshot
  listed_snapshot book =
      new_snapshot rd rt sl p book.id (canonical_current rd rt book.raw)
        (listed_files p.source book.raw) (revision_of rt rd sl p p.source book.raw)

  abbrev pub unresolved_package :
      String → BookAuditState → BookSnapshot → String → String → EvidencePackageV2
  unresolved_package evidence_id state snapshot flag message = record {
    evidence_id = evidence_id;
    run_id = p.run_id;
    book_key = snapshot.book_key;
    state = state;
    snapshot = snapshot;
    formats = [];
    source_evidence = [];
    identity = unresolved flag message;
    error = some message;
    package_sha256 = none;
  }

  abbrev pub failed_draft : RawBook → Failure → BookSnapshot → EvidencePackageV2
  failed_draft book e snapshot =
      unresolved_package book.failed_evidence_id failed snapshot "pipeline_error"
        (failure_message p.source e)

  abbrev pub changed_draft : RawBook → BookSnapshot → EvidencePackageV2
  changed_draft book snapshot =
      unresolved_package book.failed_evidence_id source_changed snapshot "source_changed"
        "Calibre source changed while the book was being inspected"

-- ===== src/Audit/Inspect.antt =====
-- `_book_snapshot`, `_validated_file`, `_inspect_remote` and the inspection of local files of
-- LibraryAuditPipeline in src/calibre_ai_auditor/verification/pipeline_v2.py.
use calibre_bookwarden.Prelude.{
  ℕ, String, Bool, true, false, not, ◌&&◌, Option, none, some, List, [], ◌∷◌, text_eq,
  if◌then◌else◌,
}
use calibre_bookwarden.Prelude.Dict.{Dict, lookup, insert, values}
use calibre_bookwarden.Verdict.{Text}
use calibre_bookwarden.Identity.{Json, Runtime, FormatEvidence, SourceEvidence}
use calibre_bookwarden.Identity.Patch.{get_json}
use calibre_bookwarden.Identity.Compare.{list_eq, dict_eq, json_eq}
use calibre_bookwarden.Package.{BookSourceDescriptor, BookSnapshot, Sealing, are_distinct}
use calibre_bookwarden.Audit.{Reading, Pipeline, canonical_current, format_paths, new_snapshot}
use calibre_bookwarden.Audit.Steps.{
  Failure, source_changed_error, library_changed_error, fault, Answer, Action, ◌>>=◌, ◌>>◌, pure,
  call, throw, throw_error, catch,
}

-- FormatInspection, by the parts that the pipeline reads.
pub record Inspection : Type 0 where
  pub format_evidence : FormatEvidence
  pub evidence : List SourceEvidence

-- What `show_metadata` and `format_references` answer at one time.
pub record View : Type 0 where
  pub show_metadata : Answer (Dict Json)
  pub format_references : Json → Answer (List Text)

-- A book that `list_books` returns, and what the calls for it answer.
pub record RawBook : Type 0 where
  pub raw : Dict Json
  -- `int(raw_book["id"])`
  pub id : ℕ
  -- the reader at the first snapshot, after a remote inspection and after a failure
  pub first_view : View
  pub later_view : View
  pub failed_view : View
  -- `path.is_absolute()`, and whether `open_file_beneath` opens the file
  pub is_absolute : Text → Bool
  pub opens_beneath : Text → Text → Bool
  -- the inspector, at a path or at an export of a reference
  pub inspector : Text → Answer Inspection
  -- `collect_materialized`, where the enricher has it
  pub collect_materialized : Option (BookSnapshot → Inspection → Answer (List SourceEvidence))
  -- `collect_aggregate` or `collect`
  pub collect : BookSnapshot → List Inspection → Answer (List SourceEvidence)
  -- `assert_unchanged`, where the reader has it
  pub assert_unchanged : Answer (Unit {0})
  -- the identifiers of the package and of the package of a failure
  pub evidence_id : String
  pub failed_evidence_id : String

-- Whether two optional digests are the same.
abbrev pub digest_eq : Option Text → Option Text → Bool
digest_eq none none = true
digest_eq (some a) (some b) = text_eq a b
digest_eq _ _ = false

-- `except OfflineLibraryChangedError`
abbrev pub changed {ℓ} : {S : Type 0} {A : Type ℓ} → BookSnapshot → Failure → Action S A
changed snapshot (fault (library_changed_error message)) = throw (source_changed_error snapshot)
changed snapshot e = throw e

-- `inspection.model_copy(update=…)`
abbrev pub at_reference : Text → Inspection → Inspection
at_reference reference inspection =
    let found = inspection.format_evidence in
    record inspection { format_evidence = record found { path = reference } }

module _ (rt : Runtime) (rd : Reading) (sl : Sealing) (p : Pipeline) where
  -- `a or b`
  abbrev pub first_true : Json → Json → Json
  first_true a b = if rd.is_true a then a else b

  -- The test at the end of `_inspect_remote`
  unfoldable pub is_unaltered : BookSnapshot → Dict Json → List Text → Bool
  is_unaltered snapshot current_raw files =
      dict_eq json_eq (canonical_current rd rt current_raw) snapshot.current_metadata
      && (list_eq text_eq files snapshot.files
          && digest_eq (some (rd.raw_digest current_raw)) snapshot.source_revision_sha256)

  -- The revision that a snapshot of a remote book records
  abbrev pub revision_of : Option BookSourceDescriptor → Dict Json → Option Text
  revision_of none raw = none
  revision_of (some source) raw = some (rd.raw_digest raw)

  -- `existing is None or existing == evidence`
  unfoldable pub agrees : Dict SourceEvidence → SourceEvidence → Bool
  agrees by_id item = elim (lookup item.evidence_id by_id) [
    | none ↦ true
    | some existing ↦ rd.same_evidence existing item
  ]

  module _ {S : Type 0} where
    -- `_file_references`
    unfoldable pub file_references : View → Json → Action S (List Text)
    file_references view formats = elim p.source [
      | none ↦ pure (format_paths rd formats)
      | some source ↦ call (view.format_references formats) >>= λ references.
          if are_distinct references
          then pure references
          else throw_error "Calibre returned duplicate remote format references"
    ]

    -- `_book_snapshot`
    unfoldable pub book_snapshot : RawBook → View → Action S BookSnapshot
    book_snapshot book view = do
      current_raw ← call view.show_metadata
      files ←
          file_references view
            (first_true (get_json "formats" current_raw) (get_json "formats" book.raw))
      pure (
          new_snapshot rd rt sl p book.id (canonical_current rd rt current_raw) files
            (revision_of p.source current_raw))

    -- `_validated_file`
    unfoldable pub validated_file : RawBook → Text → Action S Text
    validated_file book path = elim p.library_root [
      | none ↦ pure path
      | some root ↦
          if not (book.is_absolute path)
          then throw_error "Calibre returned a non-absolute ebook path"
          else if not (book.opens_beneath root path)
          then throw_error "Calibre returned an unreadable or symlinked ebook path"
          else pure path
    ]

    -- `[self.inspector(self._validated_file(path)) for path in snapshot.files]`
    unfoldable pub inspect_local : RawBook → List Text → Action S (List Inspection)
    inspect_local book [] = pure []
    inspect_local book (path ∷ paths) = do
      file ← validated_file book path
      inspection ← call (book.inspector file)
      rest ← inspect_local book paths
      pure (inspection ∷ rest)

    -- `merge`, less the receipts and warnings
    unfoldable pub merge_evidence :
        List SourceEvidence → Dict SourceEvidence → Action S (Dict SourceEvidence)
    merge_evidence [] by_id = pure by_id
    merge_evidence (item ∷ items) by_id =
        if agrees by_id item
        then merge_evidence items (insert item.evidence_id item by_id)
        else throw_error "remote enricher returned conflicting evidence identifiers"

    -- The merge of what `collect_materialized` returns, where there is one.
    abbrev pub materialize :
        RawBook → BookSnapshot → Inspection → Dict SourceEvidence → Action S (Dict SourceEvidence)
    materialize book snapshot inspection by_id = elim book.collect_materialized [
      | none ↦ pure by_id
      | some collector ↦
          call (collector snapshot inspection) >>= λ items. merge_evidence items by_id
    ]

    -- The loop of `_inspect_remote` over the references
    unfoldable pub inspect_references :
        RawBook
        → BookSnapshot
        → List Text
        → Dict SourceEvidence
        → Action S (List Inspection × Dict SourceEvidence)
    inspect_references book snapshot [] by_id = pure ([], by_id)
    inspect_references book snapshot (reference ∷ references) by_id = do
      inspection ← call (book.inspector reference)
      merged ← materialize book snapshot inspection by_id
      rest ← inspect_references book snapshot references merged
      pure (at_reference reference inspection ∷ rest.0, rest.1)

    -- `_inspect_remote`
    unfoldable pub inspect_remote :
        RawBook → BookSnapshot → Action S (List Inspection × List SourceEvidence)
    inspect_remote book snapshot = do
      found ← catch (inspect_references book snapshot snapshot.files []) (changed snapshot)
      items ← call (book.collect snapshot found.0)
      merged ← merge_evidence items found.1
      current_raw ← call book.later_view.show_metadata
      files ← file_references book.later_view (get_json "formats" current_raw)
      (if is_unaltered snapshot current_raw files
          then catch (call book.assert_unchanged) (changed snapshot)
          else throw (source_changed_error snapshot))
      pure (found.0, values merged)

    -- The inspections and the evidence of the enricher, in `_process_book`
    unfoldable pub inspect :
        RawBook → BookSnapshot → Action S (List Inspection × List SourceEvidence)
    inspect book snapshot = elim p.source [
      | some source ↦ inspect_remote book snapshot
      | none ↦ do
        inspections ← inspect_local book snapshot.files
        items ← call (book.collect snapshot inspections)
        pure (inspections, items)
    ]

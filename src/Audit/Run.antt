-- ===== src/Audit/Run.antt =====
-- `_process_book`, the packages of failures and `run` of LibraryAuditPipeline in
-- src/calibre_ai_auditor/verification/pipeline_v2.py.
use mathlib.Core.List
use calibre_bookwarden.Prelude.{
  ℕ, String, Bool, true, false, ◌||◌, Option, none, some, List, [], ◌∷◌, ◌++◌, str_in, str_append,
  if◌then◌else◌,
}
use calibre_bookwarden.Lease.Books.{
  BookAuditState, snapshotting, extracting, resolving, decided, shadowed, review, deferred, failed,
  source_changed, is_terminal,
}
use calibre_bookwarden.Identity.{
  Runtime, IdentityTier, tier_a, tier_b, tier_c, FormatEvidence, SourceEvidence,
}
use calibre_bookwarden.Identity.Resolve.{ManifestationResolution, resolve_manifestation}
use calibre_bookwarden.Package.{BookSnapshot, EvidencePackageV2, Sealing, seal}
use calibre_bookwarden.Audit.{Reading, Pipeline}
use calibre_bookwarden.Audit.Steps.{
  Failure, source_changed_error, Answer, Listener, Action, ◌>>=◌, ◌>>◌, pure, call, throw_error,
  catch, notify,
}
use calibre_bookwarden.Audit.Inspect.{RawBook, book_snapshot, inspect}
use calibre_bookwarden.Audit.Drafts.{
  AuditMode, LibraryAuditResult, sort_books, limited, status_of, evidence_of, formats_of, book_key,
  listed_snapshot, failed_draft, changed_draft, shadow, tier_a_auto,
}

module _ (rt : Runtime) (rd : Reading) (sl : Sealing) (p : Pipeline) where
  module _ {S : Type 0} where
    -- `.seal()`
    abbrev pub sealed_or_fault : Option EvidencePackageV2 → Action S EvidencePackageV2
    sealed_or_fault none =
        throw_error "V2 evidence package violates its internal snapshot invariants"
    sealed_or_fault (some pack) = pure pack

    -- What `resolve_manifestation` returns, or its ValidationError
    abbrev pub resolved_or_fault : Option ManifestationResolution → Action S ManifestationResolution
    resolved_or_fault none = throw_error rd.validation_message
    resolved_or_fault (some identity) = pure identity

    -- The state of a package that the tier and the mode give
    abbrev pub final_state : AuditMode → IdentityTier → Action S BookAuditState
    final_state mode tier_c = pure deferred
    final_state mode tier_b = pure review
    final_state shadow tier_a = pure shadowed
    final_state tier_a_auto tier_a = throw_error "automatic V2 application is unavailable"

    -- `_failed_package`
    unfoldable pub failed_package : RawBook → Failure → Action S EvidencePackageV2
    failed_package book e =
        catch (book_snapshot rt rd sl p book book.failed_view)
          (λ again. pure (listed_snapshot rt rd sl p book))
        >>= λ snapshot. sealed_or_fault (seal rt sl (failed_draft rt rd sl p book e snapshot))

    -- `_source_changed_package`
    unfoldable pub source_changed_package : RawBook → BookSnapshot → Action S EvidencePackageV2
    source_changed_package book snapshot =
        sealed_or_fault (seal rt sl (changed_draft rt rd sl p book snapshot))

  module _ {S : Type 0} (listener : Listener S) where
    -- `_process_book` from the resolution on
    unfoldable pub decide_book :
        RawBook
        → AuditMode
        → BookSnapshot
        → List FormatEvidence
        → List SourceEvidence
        → Action S EvidencePackageV2
    decide_book book mode snapshot formats evidence = do
      notify (listener.on_state (book_key rt rd sl p book) resolving)
      identity ←
          resolved_or_fault (resolve_manifestation rt formats evidence snapshot.current_metadata)
      notify (listener.on_state (book_key rt rd sl p book) decided)
      state ← final_state mode identity.tier
      pack ← sealed_or_fault (
          seal rt sl (record {
            evidence_id = book.evidence_id;
            run_id = p.run_id;
            book_key = book_key rt rd sl p book;
            state = state;
            snapshot = snapshot;
            formats = formats;
            source_evidence = evidence;
            identity = identity;
            error = none;
            package_sha256 = none;
          }))
      notify (listener.on_state (book_key rt rd sl p book) state)
      pure pack

    -- `_process_book`
    unfoldable pub process_book : RawBook → AuditMode → Action S EvidencePackageV2
    process_book book mode = do
      notify (listener.on_state (book_key rt rd sl p book) snapshotting)
      snapshot ← book_snapshot rt rd sl p book book.first_view
      notify (listener.on_state (book_key rt rd sl p book) extracting)
      found ← inspect rt rd sl p book snapshot
      decide_book book mode snapshot (formats_of found.0) (evidence_of found.0 ++ found.1)

    -- The handlers of `run`: the package, and whether there was an error
    unfoldable pub recover_book : RawBook → Failure → Action S (EvidencePackageV2 × Bool)
    recover_book book (source_changed_error snapshot) = do
      pack ← source_changed_package book snapshot
      notify (listener.on_state (book_key rt rd sl p book) source_changed)
      pure (pack, false)
    recover_book book e = do
      pack ← failed_package book e
      notify (listener.on_state (book_key rt rd sl p book) failed)
      pure (pack, true)

    -- The body of the loop of `run` for a book that is not skipped
    unfoldable pub audit_book : RawBook → AuditMode → Action S (EvidencePackageV2 × Bool)
    audit_book book mode = do
      outcome ← catch (process_book book mode >>= λ pack. pure (pack, false)) (recover_book book)
      (if is_terminal outcome.0.state
          then pure tt
          else throw_error (
              str_append "book "
                (str_append (book_key rt rd sl p book) " did not reach a terminal state")))
      notify (listener.on_package outcome.0)
      pure outcome

    -- The loop of `run`
    unfoldable pub audit_books :
        AuditMode → List String → List RawBook → Action S (List EvidencePackageV2 × Bool)
    audit_books mode skipped [] = pure ([], false)
    audit_books mode skipped (book ∷ books) =
        if str_in (book_key rt rd sl p book) skipped then audit_books mode skipped books else do
          outcome ← audit_book book mode
          rest ← audit_books mode skipped books
          pure (outcome.0 ∷ rest.0, outcome.1 || rest.1)

    -- `run` in shadow mode, with the books that it takes
    unfoldable pub run_shadow : ℕ → List String → List RawBook → Action S LibraryAuditResult
    run_shadow limit skipped listed =
        let books = limited limit (sort_books listed) in
        let book_keys = List.map (book_key rt rd sl p) books in
        audit_books shadow skipped books >>= λ outcome. pure (record {
          run_id = p.run_id;
          status = status_of outcome.1;
          snapshot = record {
            run_id = p.run_id;
            book_keys = book_keys;
            snapshot_sha256 = rd.keys_digest book_keys;
          };
          packages = outcome.0;
        })

    -- `run`, with the answer of `list_books`
    unfoldable pub run :
        AuditMode → ℕ → List String → Answer (List RawBook) → Action S LibraryAuditResult
    run tier_a_auto limit skipped listed =
        throw_error
          "Tier A auto-apply is unavailable until calibration reports are cryptographically authenticated"
    run shadow limit skipped listed = call listed >>= run_shadow limit skipped

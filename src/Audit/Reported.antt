-- ===== src/Audit/Reported.antt =====
-- A run of the pipeline that returns has a report of each book.

use calibre_bookwarden.Prelude.{
  ℕ, ◌≡◌, refl, sym, ap, ◌∙◌, String, false, Option, none, some, List, [], ◌∷◌, str_in, arith,
}
use calibre_bookwarden.Lease.Books.{
  BookAuditState, shadowed, review, deferred, failed, source_changed, is_terminal,
}
use calibre_bookwarden.Identity.{
  Runtime, IdentityTier, tier_a, tier_b, tier_c, FormatEvidence, SourceEvidence,
}
use calibre_bookwarden.Identity.Resolve.{ManifestationResolution}
use calibre_bookwarden.Package.{seal_value, BookSnapshot, EvidencePackageV2, Sealing, seal}
use calibre_bookwarden.Package.Derived.{verify_seal-seal}
use calibre_bookwarden.Audit.{Reading, Pipeline, new_snapshot}
use calibre_bookwarden.Audit.Steps.{
  Failure, source_changed_error, fault, Answer, answers, Listener, got,
}
use calibre_bookwarden.Audit.Inspect.{RawBook, book_snapshot}
use calibre_bookwarden.Audit.Drafts.{
  AuditMode, shadow, tier_a_auto, LibraryAuditResult, status_of, limited, sort_books, book_key,
  listed_snapshot, failed_draft, changed_draft,
}
use calibre_bookwarden.Audit.Run.{
  sealed_or_fault, resolved_or_fault, final_state, failed_package, source_changed_package,
  decide_book, process_book, recover_book, audit_book, audit_books, run_shadow, run,
}
use calibre_bookwarden.Audit.Spared.{Spares-inspect, Yields-book_snapshot}
use calibre_bookwarden.Audit.Yields.{
  Frame, free, Keeps, free-Keeps, Spares, Yields, Raised, reply-Yields, pure-Yields, fault-Yields,
  call-Yields, notify-Yields, >>=-Yields, if-Yields, catch-Yields, weaken-Yields,
}
use calibre_bookwarden.Audit.Reports.{
  Fits, shadowed_a, reviewed_b, deferred_c, failed_c, changed_c, is_failed, IsOutcome, no_books,
  skips, reports, IsSealedAs, IsProcessed, IsAudit, IsResult, IsRunOf,
}

module _ (rt : Runtime) (rd : Reading) (sl : Sealing) (p : Pipeline) where
  sealed-IsReport :
      (book : RawBook) (draft pack : EvidencePackageV2)
      → draft.run_id ≡ p.run_id
      → draft.book_key ≡ book_key rt rd sl p book
      → Fits draft.identity.tier draft.state
      → seal rt sl draft ≡ some pack
      → IsSealedAs rt rd sl p book draft.state pack
  unfolding seal
  sealed-IsReport book draft pack run key fits h =
      let same : record draft { package_sha256 = some (seal_value rt sl draft) } ≡ pack =
        ground arith in
      (
        record {
          of_run = sym (ap (λ (k : EvidencePackageV2). k.run_id) same) ∙ run;
          of_book = sym (ap (λ (k : EvidencePackageV2). k.book_key) same) ∙ key;
          is_sealed = verify_seal-seal rt sl draft h;
          fits =
              rw⁻¹
                (
                  ap (λ (k : EvidencePackageV2). k.state) same,
                  ap (λ (k : EvidencePackageV2). k.identity.tier) same,
                )
                fits;
        },
        sym (ap (λ (k : EvidencePackageV2). k.state) same),
      )

  module _ (S : Frame) where
    Yields-sealed_or_fault :
        (G : BookSnapshot → Type 0) (book : RawBook) (draft : EvidencePackageV2)
        → draft.run_id ≡ p.run_id
        → draft.book_key ≡ book_key rt rd sl p book
        → Fits draft.identity.tier draft.state
        → (sealing : Option EvidencePackageV2) → seal rt sl draft ≡ sealing
        → Yields S G (IsSealedAs rt rd sl p book draft.state) (sealed_or_fault rt rd sl p sealing)
    Yields-sealed_or_fault G book draft run key fits none e = fault-Yields S G _ _
    Yields-sealed_or_fault G book draft run key fits (some pack) e =
        pure-Yields S G _ pack (sealed-IsReport book draft pack run key fits e)

    Yields-final_state :
        (G : BookSnapshot → Type 0) (mode : AuditMode) (tier : IdentityTier)
        → Yields S G
            (λ (state : BookAuditState). Fits tier state × (is_failed state ≡ false))
            (final_state rt rd sl p mode tier)
    Yields-final_state G mode tier_c = pure-Yields S G _ deferred (deferred_c, refl)
    Yields-final_state G mode tier_b = pure-Yields S G _ review (reviewed_b, refl)
    Yields-final_state G shadow tier_a = pure-Yields S G _ shadowed (shadowed_a, refl)
    Yields-final_state G tier_a_auto tier_a = fault-Yields S G _ _

    Spares-resolved_or_fault :
        (G : BookSnapshot → Type 0) (m : Option ManifestationResolution)
        → Spares S G (resolved_or_fault rt rd sl p m)
    Spares-resolved_or_fault G none = fault-Yields S G _ _
    Spares-resolved_or_fault G (some identity) = pure-Yields S G _ identity tt

    Yields-failed_package :
        (G : BookSnapshot → Type 0) (book : RawBook) (e : Failure)
        → Yields S G (IsSealedAs rt rd sl p book failed) (failed_package rt rd sl p book e)
    unfolding failed_package listed_snapshot new_snapshot
    Yields-failed_package G book e =
        >>=-Yields S G (λ (s : BookSnapshot). s.book_key ≡ book_key rt rd sl p book) _ _ _
          (catch-Yields S G G _ _ _ (Yields-book_snapshot rt rd sl p S G book book.failed_view)
            (λ again r. pure-Yields S G _ _ refl))
          λ snapshot key.
            Yields-sealed_or_fault G book (failed_draft rt rd sl p book e snapshot) refl key
              failed_c _ refl

    Yields-source_changed_package :
        (G : BookSnapshot → Type 0) (book : RawBook) (snapshot : BookSnapshot)
        → snapshot.book_key ≡ book_key rt rd sl p book
        → Yields S G
            (IsSealedAs rt rd sl p book source_changed)
            (source_changed_package rt rd sl p book snapshot)
    unfolding source_changed_package
    Yields-source_changed_package G book snapshot key =
        Yields-sealed_or_fault G book (changed_draft rt rd sl p book snapshot) refl key changed_c _
          refl

    module _ (listener : Listener S.State) (kept : Keeps S listener) where
      Yields-decide_book :
          (G : BookSnapshot → Type 0) (book : RawBook) (mode : AuditMode) (snapshot : BookSnapshot)
          (formats : List FormatEvidence) (evidence : List SourceEvidence)
          → Yields S G
              (IsProcessed rt rd sl p book)
              (decide_book rt rd sl p listener book mode snapshot formats evidence)
      unfolding decide_book
      Yields-decide_book G book mode snapshot formats evidence =
          >>=-Yields S G (λ u. Unit) _ _ _ (notify-Yields S G _ (kept.of_state _ _))
            λ u t.
              >>=-Yields S G (λ (i : ManifestationResolution). Unit) _ _ _
                (Spares-resolved_or_fault G _)
                λ identity t.
                  >>=-Yields S G (λ u. Unit) _ _ _ (notify-Yields S G _ (kept.of_state _ _))
                    λ u t.
                      >>=-Yields S G
                        (λ (state : BookAuditState).
                          Fits identity.tier state × (is_failed state ≡ false))
                        _ _ _ (Yields-final_state G mode identity.tier)
                        λ state (fits, fine).
                          >>=-Yields S G (IsSealedAs rt rd sl p book state) _ _ _
                            (Yields-sealed_or_fault G book _ refl refl fits _ refl)
                            λ pack (report, same).
                              >>=-Yields S G (λ u. Unit) _ _ _
                                (notify-Yields S G _ (kept.of_state _ _))
                                λ u t. pure-Yields S G _ pack (report, ap is_failed same ∙ fine)

      pub Yields-process_book :
          (G : BookSnapshot → Type 0) (book : RawBook) (mode : AuditMode)
          → Yields S G G (book_snapshot rt rd sl p book book.first_view)
          → Yields S G (IsProcessed rt rd sl p book) (process_book rt rd sl p listener book mode)
      unfolding process_book
      Yields-process_book G book mode first =
          >>=-Yields S G (λ u. Unit) _ _ _ (notify-Yields S G _ (kept.of_state _ _))
            λ u t. >>=-Yields S G G _ _ _ first λ snapshot key.
              >>=-Yields S G (λ u. Unit) _ _ _ (notify-Yields S G _ (kept.of_state _ _))
                λ u t.
                  >>=-Yields S G (λ f. Unit) _ _ _ (Spares-inspect rt rd sl p S G book snapshot key)
                    λ found t. Yields-decide_book G book mode snapshot _ _

      Yields-recover_book :
          (G : BookSnapshot → Type 0) (book : RawBook) (e : Failure)
          → Raised (λ (s : BookSnapshot). s.book_key ≡ book_key rt rd sl p book) e
          → Yields S G (IsOutcome rt rd sl p book) (recover_book rt rd sl p listener book e)
      unfolding recover_book
      Yields-recover_book G book (source_changed_error snapshot) key =
          >>=-Yields S G (IsSealedAs rt rd sl p book source_changed) _ _ _
            (Yields-source_changed_package G book snapshot key)
            λ pack (report, same).
              >>=-Yields S G (λ u. Unit) _ _ _ (notify-Yields S G _ (kept.of_state _ _))
                λ u t.
                  pure-Yields S G _ _ (record { report = report; flag = sym (ap is_failed same) })
      Yields-recover_book G book (fault e) key =
          >>=-Yields S G (IsSealedAs rt rd sl p book failed) _ _ _
            (Yields-failed_package G book (fault e))
            λ pack (report, same).
              >>=-Yields S G (λ u. Unit) _ _ _ (notify-Yields S G _ (kept.of_state _ _))
                λ u t.
                  pure-Yields S G _ _ (record { report = report; flag = sym (ap is_failed same) })

      Yields-audit_book :
          (G : BookSnapshot → Type 0) (book : RawBook) (mode : AuditMode)
          → Yields S G (IsOutcome rt rd sl p book) (audit_book rt rd sl p listener book mode)
      unfolding audit_book
      Yields-audit_book G book mode =
          let H : BookSnapshot → Type 0 = λ s. s.book_key ≡ book_key rt rd sl p book in
          >>=-Yields S G (IsOutcome rt rd sl p book) _ _ _
            (catch-Yields S H G _ _ _
              (>>=-Yields S H (IsProcessed rt rd sl p book) _ _ _
                (Yields-process_book H book mode
                  (Yields-book_snapshot rt rd sl p S H book book.first_view))
                λ pack (report, fine).
                  pure-Yields S H _ (pack, false) (record { report = report; flag = sym fine }))
              (Yields-recover_book G book))
            λ outcome good.
              >>=-Yields S G (λ u. Unit) _ _ _
                (if-Yields S G _ (is_terminal outcome.0.state) _ _ (λ t. pure-Yields S G _ tt tt)
                  (λ t. fault-Yields S G _ _))
                λ u t.
                  >>=-Yields S G (λ u. Unit) _ _ _ (notify-Yields S G _ (kept.of_package _))
                    λ u t. pure-Yields S G _ outcome good

      Yields-audit_books :
          (G : BookSnapshot → Type 0) (mode : AuditMode) (skipped : List String)
          (books : List RawBook)
          → Yields S G
              (IsAudit rt rd sl p skipped books)
              (audit_books rt rd sl p listener mode skipped books)
      unfolding audit_books
      Yields-audit_books G mode skipped [] = pure-Yields S G _ ([], false) (no_books, refl)
      Yields-audit_books G mode skipped (book ∷ books) =
          if-Yields S G _ (str_in (book_key rt rd sl p book) skipped) _ _
            (λ e.
              weaken-Yields S G (IsAudit rt rd sl p skipped books) _ _
                (Yields-audit_books G mode skipped books)
                λ outcome (rest, flag). (skips e rest, flag))
            (λ e.
              >>=-Yields S G (IsOutcome rt rd sl p book) _ _ _ (Yields-audit_book G book mode)
                λ outcome good.
                  >>=-Yields S G (IsAudit rt rd sl p skipped books) _ _ _
                    (Yields-audit_books G mode skipped books)
                    λ rest (others, flag).
                      pure-Yields S G _ _ (reports e good.report others, rw (good.flag, flag) refl))

      Yields-run_shadow :
          (G : BookSnapshot → Type 0) (limit : ℕ) (skipped : List String) (listed : List RawBook)
          → Yields S G
              (IsResult rt rd sl p skipped (limited limit (sort_books listed)))
              (run_shadow rt rd sl p listener limit skipped listed)
      unfolding run_shadow
      Yields-run_shadow G limit skipped listed =
          let books = limited limit (sort_books listed) in
          >>=-Yields S G (IsAudit rt rd sl p skipped books) _ _ _
            (Yields-audit_books G shadow skipped books)
            λ outcome (all_reports, flag). pure-Yields S G _ _ (record {
              packages = all_reports;
              of_run = (refl, refl);
              status = ap status_of flag;
              frozen = refl;
            })

      pub Yields-run :
          (G : BookSnapshot → Type 0) (mode : AuditMode) (limit : ℕ) (skipped : List String)
          (listed : Answer (List RawBook))
          → Yields S G
              (IsRunOf rt rd sl p mode limit skipped listed)
              (run rt rd sl p listener mode limit skipped listed)
      unfolding run
      Yields-run G tier_a_auto limit skipped listed = fault-Yields S G _ _
      Yields-run G shadow limit skipped listed =
          >>=-Yields S G (λ (books : List RawBook). listed ≡ answers books) _ _ _
            (call-Yields S G _ listed (λ books e. e))
            λ books e.
              weaken-Yields S G _ _ _ (Yields-run_shadow G limit skipped books)
                λ result good. (books, e, refl, good)

  module _ (S : Type 0) (listener : Listener S) where
    -- A run that returns is in shadow mode. It has one package for each book that it takes and does
    -- not skip, in the order of the books: of the run and the book, with a valid seal, in a state
    -- that fits the tier of its identity. Its status tells whether one of them failed.
    pub run-IsResult :
        (mode : AuditMode) (limit : ℕ) (skipped : List String) (listed : Answer (List RawBook))
        (s t : S) (result : LibraryAuditResult)
        → run rt rd sl p listener mode limit skipped listed s ≡ (got result, t)
        → IsRunOf rt rd sl p mode limit skipped listed result
    run-IsResult mode limit skipped listed s t result e =
        reply-Yields (free S) (λ snapshot. Unit) _ _ s t result
          (Yields-run (free S) listener (free-Keeps S listener) (λ snapshot. Unit) mode limit
            skipped listed)
          e

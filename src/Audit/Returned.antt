-- ===== src/Audit/Returned.antt =====
-- A run of the pipeline returns, whatever happens to the books.

use calibre_bookwarden.Prelude.{
  ℕ, ◌≡◌, refl, ap, String, Bool, true, false, List, [], ◌∷◌, str_in, arith, All,
}
use calibre_bookwarden.Lease.Books.{BookAuditState, failed, source_changed, is_terminal}
use calibre_bookwarden.Identity.{Runtime, IdentityTier}
use calibre_bookwarden.Package.{EvidencePackageV2, Sealing}
use calibre_bookwarden.Audit.{Reading, Pipeline}
use calibre_bookwarden.Audit.Steps.{Failure, source_changed_error, fault, answers, Listener, got}
use calibre_bookwarden.Audit.Inspect.{RawBook}
use calibre_bookwarden.Audit.Drafts.{shadow, LibraryAuditResult, limited, sort_books, book_key}
use calibre_bookwarden.Audit.Run.{recover_book, audit_book, audit_books, run_shadow, run}
use calibre_bookwarden.Audit.Yields.{free, free-Keeps, Raised, pure-Yields, >>=-Yields}
use calibre_bookwarden.Audit.Gives.{
  IsQuiet, Gives, call-Gives, pure-Gives, notify-Gives, >>=-Gives, if-Gives, catch-Gives,
  reply-Gives,
}
use calibre_bookwarden.Audit.Reports.{
  Fits, shadowed_a, reviewed_b, deferred_c, failed_c, changed_c, IsProcessed,
}
use calibre_bookwarden.Audit.Reported.{Yields-process_book}
use calibre_bookwarden.Audit.Sealable.{
  is_listable, IsSealable, Yields-IsSealable, Gives-failed_package, Gives-source_changed_package,
}

terminal-Fits :
    {tier : IdentityTier} {state : BookAuditState} → Fits tier state → is_terminal state ≡ true
terminal-Fits shadowed_a = refl
terminal-Fits reviewed_b = refl
terminal-Fits deferred_c = refl
terminal-Fits failed_c = refl
terminal-Fits changed_c = refl

module _ (rt : Runtime) (rd : Reading) (sl : Sealing) (p : Pipeline) where
  module _ (S : Type 0) where
    module _ (listener : Listener S) (quiet : IsQuiet listener) where
      -- A package whose book is done.
      abbrev pub IsDone : EvidencePackageV2 × Bool → Type 0
      IsDone outcome = is_terminal outcome.0.state ≡ true

      Gives-recover_book :
          (book : RawBook) (e : Failure)
          → is_listable rt rd sl p book ≡ true
          → Raised (IsSealable rt rd sl p book) e
          → Gives S IsDone (recover_book rt rd sl p listener book e)
      unfolding recover_book
      Gives-recover_book book (source_changed_error snapshot) fit good =
          >>=-Gives S (λ (pack : EvidencePackageV2). pack.state ≡ source_changed) _ _ _
            (Gives-source_changed_package rt rd sl p S book snapshot good)
            λ pack same.
              >>=-Gives S (λ (u : Unit {0}). Unit) _ _ _ (notify-Gives S _ (quiet.of_state _ _))
                λ u t. pure-Gives S IsDone (pack, false) (ap is_terminal same)
      Gives-recover_book book (fault e) fit good =
          >>=-Gives S (λ (pack : EvidencePackageV2). pack.state ≡ failed) _ _ _
            (Gives-failed_package rt rd sl p S book (fault e) fit)
            λ pack same.
              >>=-Gives S (λ (u : Unit {0}). Unit) _ _ _ (notify-Gives S _ (quiet.of_state _ _))
                λ u t. pure-Gives S IsDone (pack, true) (ap is_terminal same)

      Gives-audit_book :
          (book : RawBook)
          → is_listable rt rd sl p book ≡ true
          → Gives S
              (λ (outcome : EvidencePackageV2 × Bool). Unit)
              (audit_book rt rd sl p listener book shadow)
      unfolding audit_book is_listable
      Gives-audit_book book fit =
          >>=-Gives S IsDone _ _ _
            (catch-Gives S (IsSealable rt rd sl p book) IsDone _ _
              (>>=-Yields (free S) (IsSealable rt rd sl p book) (IsProcessed rt rd sl p book) _ _ _
                (Yields-process_book rt rd sl p (free S) listener (free-Keeps S listener)
                  (IsSealable rt rd sl p book) book shadow
                  (Yields-IsSealable rt rd sl p S (IsSealable rt rd sl p book) book book.first_view
                    (ground (arith, fit))))
                λ pack good.
                  pure-Yields (free S) (IsSealable rt rd sl p book) _ _ (terminal-Fits good.0.fits))
              (λ e r. Gives-recover_book book e fit r))
            λ outcome done.
              >>=-Gives S (λ (u : Unit {0}). Unit) _ _ _
                (if-Gives S _ (is_terminal outcome.0.state) _ _ (λ t. pure-Gives S _ tt tt)
                  (λ t. absurd (cc (done, t))))
                λ u t.
                  >>=-Gives S (λ (u : Unit {0}). Unit) _ _ _ (notify-Gives S _ (quiet.of_package _))
                    λ u t. pure-Gives S _ outcome tt

      Gives-audit_books :
          (skipped : List String) (books : List RawBook)
          → All (λ (book : RawBook). is_listable rt rd sl p book ≡ true) books
          → Gives S
              (λ (outcome : List EvidencePackageV2 × Bool). Unit)
              (audit_books rt rd sl p listener shadow skipped books)
      unfolding audit_books
      Gives-audit_books skipped [] fits = pure-Gives S _ _ tt
      Gives-audit_books skipped (book ∷ books) (fit, fits) =
          if-Gives S _ (str_in (book_key rt rd sl p book) skipped) _ _
            (λ e. Gives-audit_books skipped books fits)
            (λ e.
              >>=-Gives S (λ (o : EvidencePackageV2 × Bool). Unit) _ _ _ (Gives-audit_book book fit)
                λ outcome t.
                  >>=-Gives S (λ (o : List EvidencePackageV2 × Bool). Unit) _ _ _
                    (Gives-audit_books skipped books fits) λ rest t. pure-Gives S _ _ tt)

      Gives-run :
          (limit : ℕ) (skipped : List String) (listed : List RawBook)
          → All
              (λ (book : RawBook). is_listable rt rd sl p book ≡ true)
              (limited limit (sort_books listed))
          → Gives S
              (λ (result : LibraryAuditResult). Unit)
              (run rt rd sl p listener shadow limit skipped (answers listed))
      unfolding run run_shadow
      Gives-run limit skipped listed fits =
          >>=-Gives S (λ (books : List RawBook). books ≡ listed) _ _ _ (call-Gives S _ listed refl)
            λ books same.
              >>=-Gives S (λ (o : List EvidencePackageV2 × Bool). Unit) _ _ _
                (Gives-audit_books skipped _ (rw same fits)) λ outcome t. pure-Gives S _ _ tt

      -- A run in shadow mode returns, whatever the calls for its books answer, provided that no
      -- callback raises and that the files which the reader lists for a book are ones that a
      -- snapshot of it may list.
      pub run-got :
          (limit : ℕ) (skipped : List String) (listed : List RawBook) (s : S)
          → All
              (λ (book : RawBook). is_listable rt rd sl p book ≡ true)
              (limited limit (sort_books listed))
          → (result : LibraryAuditResult) × (t : S) × (run rt rd sl p listener shadow limit skipped
                (answers listed)
                s
              ≡ (got result, t))
      run-got limit skipped listed s fits =
          reply-Gives S (λ (result : LibraryAuditResult). Unit) _ s
            (Gives-run limit skipped listed fits)

-- ===== src/Audit/Reports.antt =====
-- The reports of a run of the pipeline: what they say of each book.
use mathlib.Core.List
use calibre_bookwarden.Prelude.{ℕ, ◌≡◌, String, Bool, true, false, List, [], ◌∷◌, any, str_in}
use calibre_bookwarden.Lease.Books.{
  BookAuditState, shadowed, review, deferred, failed, source_changed,
}
use calibre_bookwarden.Identity.{Runtime, IdentityTier, tier_a, tier_b, tier_c}
use calibre_bookwarden.Package.{EvidencePackageV2, Sealing, verify_seal}
use calibre_bookwarden.Audit.{Reading, Pipeline}
use calibre_bookwarden.Audit.Steps.{Answer, answers}
use calibre_bookwarden.Audit.Inspect.{RawBook}
use calibre_bookwarden.Audit.Drafts.{
  AuditMode, shadow, LibraryAuditResult, status_of, limited, sort_books, book_key,
}

-- The states in which a package of a tier may be.
pub data Fits : IdentityTier → BookAuditState → Type 0 where
  shadowed_a : Fits tier_a shadowed
  reviewed_b : Fits tier_b review
  deferred_c : Fits tier_c deferred
  failed_c : Fits tier_c failed
  changed_c : Fits tier_c source_changed

abbrev pub is_failed : BookAuditState → Bool
is_failed failed = true
is_failed _ = false

module _ (rt : Runtime) (rd : Reading) (sl : Sealing) (p : Pipeline) where
  -- The package is of the run and the book, is sealed, and is in a state that fits its tier.
  pub record IsReport (book : RawBook) (pack : EvidencePackageV2) : Type 0 where
    pub of_run : pack.run_id ≡ p.run_id
    pub of_book : pack.book_key ≡ book_key rt rd sl p book
    pub is_sealed : verify_seal rt sl pack ≡ true
    pub fits : Fits pack.identity.tier pack.state

  pub record IsOutcome (book : RawBook) (outcome : EvidencePackageV2 × Bool) : Type 0 where
    pub report : IsReport book outcome.0
    pub flag : outcome.1 ≡ is_failed outcome.0.state

  -- One report for each book that is not skipped, in the order of the books.
  pub data Reports (skipped : List String) : List RawBook → List EvidencePackageV2 → Type 0 where
    no_books : Reports skipped [] []
    skips :
        {book : RawBook} {books : List RawBook} {packs : List EvidencePackageV2}
        → str_in (book_key rt rd sl p book) skipped ≡ true
        → Reports skipped books packs
        → Reports skipped (book ∷ books) packs
    reports :
        {book : RawBook} {books : List RawBook} {pack : EvidencePackageV2}
        {packs : List EvidencePackageV2}
        → str_in (book_key rt rd sl p book) skipped ≡ false
        → IsReport book pack
        → Reports skipped books packs
        → Reports skipped (book ∷ books) (pack ∷ packs)

  -- What the end of `_process_book` and the handlers return.
  abbrev pub IsSealedAs : RawBook → BookAuditState → EvidencePackageV2 → Type 0
  IsSealedAs book state pack = IsReport book pack × (pack.state ≡ state)

  abbrev pub IsProcessed : RawBook → EvidencePackageV2 → Type 0
  IsProcessed book pack = IsReport book pack × (is_failed pack.state ≡ false)

  -- The reports of the books, and whether one of them failed.
  abbrev pub IsAudit : List String → List RawBook → List EvidencePackageV2 × Bool → Type 0
  IsAudit skipped books outcome =
      Reports skipped books outcome.0
      × (outcome.1 ≡ any (λ (k : EvidencePackageV2). is_failed k.state) outcome.0)

  -- The result of a run on the books that it takes.
  pub record IsResult (skipped : List String) (books : List RawBook) (result : LibraryAuditResult)
      : Type 0 where
    pub packages : Reports skipped books result.packages
    pub of_run : (result.run_id ≡ p.run_id) × (result.snapshot.run_id ≡ p.run_id)
    pub status :
        result.status
        ≡ status_of (any (λ (k : EvidencePackageV2). is_failed k.state) result.packages)
    pub frozen : result.snapshot.book_keys ≡ List.map (book_key rt rd sl p) books

  -- The books that a run took.
  abbrev pub IsRunOf :
      AuditMode → ℕ → List String → Answer (List RawBook) → LibraryAuditResult → Type 0
  IsRunOf mode limit skipped listed result =
      (books : List RawBook) × (listed ≡ answers books)
      × (mode ≡ shadow)
      × IsResult skipped (limited limit (sort_books books)) result

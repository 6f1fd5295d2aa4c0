-- ===== src/Audit/Resumed.antt =====
-- What a persisted run reports, and what it leaves to the packages that are stored.

use calibre_bookwarden.Prelude.{
  ℕ, ◌≡◌, ap, ◌∙◌, String, Bool, true, some, List, [], ◌∷◌, All, keep, eq_iff, Bool-cases,
  Option-cases, inl, inr, arith,
}
use calibre_bookwarden.Lease.Books.{VerificationResult}
use calibre_bookwarden.Identity.{Runtime}
use calibre_bookwarden.Package.{BookSnapshot, EvidencePackageV2, Sealing, verify_seal}
use calibre_bookwarden.Apply.{EvidencePackage}
use calibre_bookwarden.Audit.{Reading, Pipeline}
use calibre_bookwarden.Audit.Steps.{answers, got}
use calibre_bookwarden.Audit.Answers.{Answer-cases}
use calibre_bookwarden.Audit.Inspect.{RawBook}
use calibre_bookwarden.Audit.Drafts.{
  AuditMode, shadow, tier_a_auto, LibraryAuditResult, sort_books, limited,
}
use calibre_bookwarden.Audit.Yields.{
  free, free-Keeps, Yields, reply-Yields, pure-Yields, notify-Yields, rethrow-Yields, >>=-Yields,
  catch-Yields, weaken-Yields,
}
use calibre_bookwarden.Audit.Reports.{IsResult, IsRunOf}
use calibre_bookwarden.Audit.Reported.{Yields-run}
use calibre_bookwarden.Audit.Rows.{Payloads, Tables, find_package, rows_of, keys_of}
use calibre_bookwarden.Audit.Store.{
  started, is_resumable, package_resumable, resumable_book_keys, store,
}
use calibre_bookwarden.Audit.Setup.{Setup, new_pipeline}
use calibre_bookwarden.Audit.Service.{service_keys, audit_opened, run_persisted, limited-sorted}

module _ (rt : Runtime) (sl : Sealing) (pl : Payloads) where
  -- The tables have a package of the run and the book, with a valid seal.
  pub record IsStored (run_id : String) (packages : List EvidencePackage) (key : String)
      : Type 0 where
    pub stored : EvidencePackage
    pub pack : EvidencePackageV2
    pub at_id : find_package pack.evidence_id packages ≡ some stored
    pub observed : stored.observations ≡ some pack
    pub is_sealed : verify_seal rt sl pack ≡ true
    pub of_run : pack.run_id ≡ run_id
    pub of_book : pack.book_key ≡ key

  package-IsStored :
      (run_id evidence_id : String) (packages : List EvidencePackage) (row : VerificationResult)
      (stored : EvidencePackage) (pack : EvidencePackageV2)
      → find_package evidence_id packages ≡ some stored
      → stored.observations ≡ some pack
      → package_resumable rt sl pl run_id row evidence_id stored pack ≡ true
      → IsStored run_id packages row.book_key
  unfolding package_resumable
  package-IsStored run_id evidence_id packages row stored pack fetched observed valid =
      let same : pack.evidence_id ≡ evidence_id = (eq_iff _ _).0 (ground (arith, valid)) in
      record {
        stored = stored;
        pack = pack;
        at_id = ap (λ id. find_package id packages) same ∙ fetched;
        observed = observed;
        is_sealed = ground (arith, valid);
        of_run = (eq_iff _ _).0 (ground (arith, valid));
        of_book = (eq_iff _ _).0 (ground (arith, valid));
      }

  resumable-IsStored :
      (run_id : String) (packages : List EvidencePackage) (row : VerificationResult)
      → is_resumable rt sl pl run_id packages row ≡ true
      → IsStored run_id packages row.book_key
  unfolding is_resumable
  resumable-IsStored run_id packages row h = elim (Option-cases row.evidence_id) [
    | inl n ↦ absurd (ground (arith, h, n))
    | inr (evidence_id, n) ↦ elim (Option-cases (find_package evidence_id packages)) [
      | inl f ↦ absurd (ground (arith, h, n, f))
      | inr (stored, f) ↦ elim (Option-cases stored.observations) [
        | inl o ↦ absurd (ground (arith, h, n, f, o))
        | inr (pack, o) ↦
            package-IsStored run_id evidence_id packages row stored pack f o
              (ground (arith, h, n, f, o))
      ]
    ]
  ]

  kept-IsStored :
      (run_id : String) (packages : List EvidencePackage) (rows : List VerificationResult)
      → All (IsStored run_id packages) (keys_of (keep (is_resumable rt sl pl run_id packages) rows))
  kept-IsStored run_id packages [] = tt
  kept-IsStored run_id packages (row ∷ rows) =
      elim (Bool-cases (is_resumable rt sl pl run_id packages row)) [
        | inl h ↦
            rw h (resumable-IsStored run_id packages row h, kept-IsStored run_id packages rows)
        | inr h ↦ rw h (kept-IsStored run_id packages rows)
      ]

  keys-IsStored :
      (run_id : String) (tables : Tables)
      → All (IsStored run_id tables.packages) (resumable_book_keys rt sl pl run_id tables)
  unfolding resumable_book_keys
  keys-IsStored run_id tables = kept-IsStored run_id tables.packages (rows_of run_id tables.results)

  module _ (rd : Reading) where
    -- The result of a persisted run, from the tables that its start leaves and its pipeline.
    abbrev pub IsResumed :
        Setup → Pipeline → ℕ → List RawBook → Tables → LibraryAuditResult → Type 0
    IsResumed setup p limit listed opened result =
        let skipped = resumable_book_keys rt sl pl setup.run_id opened in
        IsResult rt rd sl p skipped (limited limit (sort_books listed)) result
        × All (IsStored setup.run_id opened.packages) skipped

  module _ (rd : Reading) (p : Pipeline) where
    ran-IsResult :
        (limit : ℕ) (skipped : List String) (listed : List RawBook) (result : LibraryAuditResult)
        → IsRunOf rt rd sl p shadow 0 skipped (answers (limited limit (sort_books listed))) result
        → IsResult rt rd sl p skipped (limited limit (sort_books listed)) result
    ran-IsResult limit skipped listed result (books, same, mode, good) =
        let taken : limited 0 (sort_books books) ≡ limited limit (sort_books listed) =
          ap (λ bs. limited 0 (sort_books bs)) (cc (same)) ∙ limited-sorted limit listed in
        rw taken at good

    Yields-audit_opened :
        (limit now : ℕ) (listed : List RawBook) (skipped : List String)
        → Yields
            (free Tables)
            (λ s. Unit)
            (IsResult rt rd sl p skipped (limited limit (sort_books listed)))
            (audit_opened rt rd sl p pl now (limited limit (sort_books listed)) skipped)
    unfolding audit_opened
    Yields-audit_opened limit now listed skipped =
        let G : BookSnapshot → Type 0 = λ s. Unit in
        let P : LibraryAuditResult → Type 0 =
          IsResult rt rd sl p skipped (limited limit (sort_books listed)) in
        >>=-Yields (free Tables) G P P _ _
          (catch-Yields (free Tables) G G P _ _
            (weaken-Yields (free Tables) G _ P _
              (Yields-run rt rd sl p (free Tables) (store rt sl pl p.run_id)
                (free-Keeps Tables (store rt sl pl p.run_id)) G shadow 0 skipped
                (answers (limited limit (sort_books listed))))
              (λ result. ran-IsResult limit skipped listed result))
            (λ e r.
              >>=-Yields (free Tables) G (λ u. Unit) P _ _
                (notify-Yields (free Tables) G _ (λ t. tt))
                λ u t. rethrow-Yields (free Tables) G P e r))
          λ result good.
            >>=-Yields (free Tables) G (λ u. Unit) P _ _ (notify-Yields (free Tables) G _ (λ t. tt))
              λ u t. pure-Yields (free Tables) G P result good

  module _ (rd : Reading) (setup : Setup) where
    -- A persisted run that returns has started on some tables: of the books that it takes, in the
    -- order of their ids, each has a report in the result, with a valid seal, or is one for which the
    -- tables already had a package of this run with a valid seal.
    pub run_persisted-IsResumed :
        (mode : AuditMode) (limit : ℕ) (use_llm : Bool) (now : ℕ) (listed : List RawBook)
        (s t : Tables) (result : LibraryAuditResult)
        → run_persisted rt rd sl setup pl mode limit use_llm now listed s ≡ (got result, t)
        → (opened : Tables) × (p : Pipeline) × (started setup.run_id
              (service_keys sl setup (limited limit (sort_books listed)))
              "shadow"
              use_llm
              s
            ≡ answers opened)
          × (new_pipeline rd setup ≡ answers p)
          × IsResumed rd setup p limit listed opened result
    unfolding run_persisted
    run_persisted-IsResumed tier_a_auto limit use_llm now listed s t result h = absurd (cc (h))
    run_persisted-IsResumed shadow limit use_llm now listed s t result h =
        let keys = service_keys sl setup (limited limit (sort_books listed)) in
        elim (Answer-cases (started setup.run_id keys "shadow" use_llm s)) [
          | inr (e, f) ↦ absurd (ground (arith, h, f))
          | inl (opened, f) ↦ elim (Answer-cases (new_pipeline rd setup)) [
            | inr (e, n) ↦ absurd (ground (arith, h, f, n))
            | inl (p, n) ↦
                let skipped = resumable_book_keys rt sl pl setup.run_id opened in
                (
                  opened,
                  p,
                  f,
                  n,
                  (
                    reply-Yields (free Tables) (λ s. Unit) _ _ opened t result
                        (Yields-audit_opened rd p limit now listed skipped)
                        (ground (arith, h, f, n)),
                    keys-IsStored setup.run_id opened,
                  ),
                )
          ]
        ]

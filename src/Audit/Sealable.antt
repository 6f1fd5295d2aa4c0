-- ===== src/Audit/Sealable.antt =====
-- Which packages without an answer can be sealed: those of a book whose files may be listed.

use calibre_bookwarden.Prelude.{
  ◌++◌, ℕ, ◌≡◌, refl, ◌∙◌, String, Bool, true, ◌&&◌, Option, none, some, List, [], arith, codes,
  eq_iff, text_eq_iff, Option-cases, inl, inr,
}
use calibre_bookwarden.Prelude.Dict.{Dict}
use calibre_bookwarden.Prelude.{ap, codes, codes-append, str_append}
use calibre_bookwarden.Verdict.{Text}
use calibre_bookwarden.Lease.Books.{failed, source_changed}
use calibre_bookwarden.Identity.{Json, Runtime}
use calibre_bookwarden.Identity.Patch.{get_json}
use calibre_bookwarden.Package.{
  BookSourceDescriptor, BookSnapshot, EvidencePackageV2, SourceKind, calibre_content_server,
  offline_calibre_snapshot, calculated_sha256, Sealing, seal, verify_invariants, verify_hash,
  files_valid, remote_files_valid, local_files_valid, identity_valid, expected_book_key,
  are_distinct,
}
use calibre_bookwarden.Audit.{remote_key, show_key, Reading, Pipeline, new_snapshot, format_paths}
use calibre_bookwarden.Audit.Steps.{Failure, answers, faults}
use calibre_bookwarden.Audit.Inspect.{
  View, RawBook, book_snapshot, file_references, revision_of, first_true,
}
use calibre_bookwarden.Audit.Drafts.{listed_files, listed_snapshot, failed_draft, changed_draft}
use calibre_bookwarden.Audit.Run.{sealed_or_fault, failed_package, source_changed_package}
use calibre_bookwarden.Audit.Yields.{
  free, Yields, pure-Yields, fault-Yields, call-Yields, >>=-Yields, if-Yields, option-Yields,
}
use calibre_bookwarden.Audit.Gives.{Gives, pure-Gives, >>=-Gives, catch-Gives}

module _ (rt : Runtime) (rd : Reading) (sl : Sealing) (p : Pipeline) where
  -- The files of a book are ones that a snapshot of it may list.
  unfoldable pub are_listable : RawBook → List Text → Bool
  are_listable book files =
      let snapshot =
        new_snapshot rd rt sl p book.id [] files (revision_of rt rd sl p p.source []) in
      are_distinct files && files_valid rt sl (changed_draft rt rd sl p book snapshot)

  -- So are those that the reader returns for it, if it returns any.
  unfoldable pub view_listable : RawBook → View → Bool
  view_listable book view = elim view.show_metadata [
    | faults e ↦ true
    | answers raw ↦
        let formats =
          first_true rt rd sl p (get_json "formats" raw) (get_json "formats" book.raw) in
        elim p.source [
          | none ↦ are_listable book (format_paths rd formats)
          | some source ↦ elim (view.format_references formats) [
            | faults e ↦ true
            | answers references ↦ are_listable book references
          ]
        ]
  ]

  unfoldable pub is_listable : RawBook → Bool
  is_listable book =
      are_listable book (listed_files rt rd sl p p.source book.raw)
      && (view_listable book book.first_view && view_listable book book.failed_view)

  codes-remote_key :
      (kind : SourceKind) (fingerprint : String) (id : ℕ)
      → codes (remote_key sl kind fingerprint id)
        ≡ expected_book_key rt sl (some (record { kind = kind; fingerprint = fingerprint })) id
  unfolding expected_book_key
  codes-remote_key calibre_content_server fingerprint id =
      ap (λ t. codes "calibre-server:" ++ t)
        (codes-append fingerprint (str_append ":" (sl.show_id id)))
  codes-remote_key offline_calibre_snapshot fingerprint id =
      ap (λ t. codes "calibre-offline:" ++ t)
        (codes-append fingerprint (str_append ":" (sl.show_id id)))

  -- The keys of the pipeline are the ones that a package must have.
  codes-show_key :
      (source : Option BookSourceDescriptor) (id : ℕ)
      → codes (show_key sl source id) ≡ expected_book_key rt sl source id
  unfolding show_key expected_book_key
  codes-show_key none id = codes-append "calibre:" (sl.show_id id)
  codes-show_key (some source) id = codes-remote_key source.kind source.fingerprint id

  -- A package without an answer can be sealed.
  abbrev pub IsSealable : RawBook → BookSnapshot → Type 0
  IsSealable book snapshot = verify_invariants rt sl (changed_draft rt rd sl p book snapshot) ≡ true

  failed-Sealable :
      (book : RawBook) (e : Failure) (snapshot : BookSnapshot)
      → verify_invariants rt sl (failed_draft rt rd sl p book e snapshot)
        ≡ verify_invariants rt sl (changed_draft rt rd sl p book snapshot)
  unfolding verify_invariants files_valid identity_valid
  failed-Sealable book e snapshot = refl

  files_valid-listed :
      (book : RawBook) (current raw : Dict Json) (files : List Text)
      → files_valid rt sl (
          changed_draft rt rd sl p book
            (new_snapshot rd rt sl p book.id current files (revision_of rt rd sl p p.source raw)))
        ≡ files_valid rt sl (
            changed_draft rt rd sl p book
              (new_snapshot rd rt sl p book.id [] files (revision_of rt rd sl p p.source [])))
  unfolding files_valid new_snapshot local_files_valid remote_files_valid
  files_valid-listed book current raw files = elim (Option-cases p.source) [
    | inl e ↦ ground (arith, e)
    | inr (source, e) ↦ ground (arith, e)
  ]

  -- What the seal of a package without an answer depends on.
  parts-IsSealable :
      (book : RawBook) (snapshot : BookSnapshot)
      → codes snapshot.book_key ≡ expected_book_key rt sl snapshot.source snapshot.calibre_book_id
      → verify_hash rt sl snapshot ≡ true
      → are_distinct snapshot.files ≡ true
      → files_valid rt sl (changed_draft rt rd sl p book snapshot) ≡ true
      → IsSealable book snapshot
  unfolding verify_invariants identity_valid
  parts-IsSealable book snapshot keyed hashed distinct fit =
      rw
        (
          (eq_iff snapshot.book_key snapshot.book_key).1 refl,
          (text_eq_iff (codes snapshot.book_key)
                (expected_book_key rt sl snapshot.source snapshot.calibre_book_id)).1
              keyed,
          hashed,
          distinct,
          fit,
        )
        refl

  verify_hash-new_snapshot :
      (id : ℕ) (current : Dict Json) (files : List Text) (revision : Option Text)
      → verify_hash rt sl (new_snapshot rd rt sl p id current files revision) ≡ true
  unfolding verify_hash new_snapshot calculated_sha256
  verify_hash-new_snapshot id current files revision = (eq_iff _ _).1 refl

  pub new_snapshot-IsSealable :
      (book : RawBook) (current raw : Dict Json) (files : List Text)
      → are_listable book files ≡ true
      → IsSealable book
          (new_snapshot rd rt sl p book.id current files (revision_of rt rd sl p p.source raw))
  unfolding are_listable new_snapshot
  new_snapshot-IsSealable book current raw files fit =
      parts-IsSealable book _ (codes-show_key p.source book.id)
        (verify_hash-new_snapshot book.id current files _) (ground (arith, fit))
        (files_valid-listed book current raw files ∙ ground (arith, fit))

  view-listable_local :
      (book : RawBook) (view : View) (raw : Dict Json)
      → view.show_metadata ≡ answers raw
      → p.source ≡ none
      → view_listable book view ≡ true
      → are_listable book (
          format_paths rd
            (first_true rt rd sl p (get_json "formats" raw) (get_json "formats" book.raw)))
        ≡ true
  unfolding view_listable
  view-listable_local book view raw shown local fit = ground (arith, shown, local, fit)

  view-listable_remote :
      (book : RawBook) (view : View) (raw : Dict Json) (source : BookSourceDescriptor)
      (references : List Text)
      → view.show_metadata ≡ answers raw
      → p.source ≡ some source
      → view.format_references
          (first_true rt rd sl p (get_json "formats" raw) (get_json "formats" book.raw))
        ≡ answers references
      → view_listable book view ≡ true
      → are_listable book references ≡ true
  unfolding view_listable
  view-listable_remote book view raw source references shown remote referred fit =
      ground (arith, shown, remote, referred, fit)

  module _ (S : Type 0) where
    Yields-listable :
        (G : BookSnapshot → Type 0) (book : RawBook) (view : View) (raw : Dict Json)
        → view.show_metadata ≡ answers raw
        → view_listable book view ≡ true
        → Yields
            (free S)
            G
            (λ (files : List Text). are_listable book files ≡ true)
            (file_references rt rd sl p view
              (first_true rt rd sl p (get_json "formats" raw) (get_json "formats" book.raw)))
    unfolding file_references
    Yields-listable G book view raw shown fit =
        option-Yields (free S) G _ p.source _ _
          (λ source remote.
            >>=-Yields (free S) G
              (λ (references : List Text).
                view.format_references
                  (first_true rt rd sl p (get_json "formats" raw) (get_json "formats" book.raw))
                ≡ answers references)
              _ _ _ (call-Yields (free S) G _ _ (λ references e. e))
              λ references referred.
                if-Yields (free S) G _ (are_distinct references) _ _
                  (λ t. pure-Yields (free S) G _ references (
                    view-listable_remote book view raw source references shown remote referred fit))
                  (λ t. fault-Yields (free S) G _ _))
          (λ local. pure-Yields (free S) G _ _ (view-listable_local book view raw shown local fit))

    pub Yields-IsSealable :
        (G : BookSnapshot → Type 0) (book : RawBook) (view : View)
        → view_listable book view ≡ true
        → Yields (free S) G (IsSealable book) (book_snapshot rt rd sl p book view)
    unfolding book_snapshot
    Yields-IsSealable G book view fit =
        >>=-Yields (free S) G (λ (raw : Dict Json). view.show_metadata ≡ answers raw) _ _ _
          (call-Yields (free S) G _ _ (λ raw e. e))
          λ raw shown.
            >>=-Yields (free S) G (λ (files : List Text). are_listable book files ≡ true) _ _ _
              (Yields-listable G book view raw shown fit)
              λ files good.
                pure-Yields (free S) G _ _ (new_snapshot-IsSealable book _ raw files good)

    pub Gives-sealed_or_fault :
        (draft : EvidencePackageV2)
        → verify_invariants rt sl draft ≡ true
        → Gives S
            (λ (pack : EvidencePackageV2). pack.state ≡ draft.state)
            (sealed_or_fault rt rd sl p (seal rt sl draft))
    unfolding seal
    Gives-sealed_or_fault draft valid = rw valid (pure-Gives S _ _ refl)

    pub Gives-failed_package :
        (book : RawBook) (e : Failure)
        → is_listable book ≡ true
        → Gives S
            (λ (pack : EvidencePackageV2). pack.state ≡ failed)
            (failed_package rt rd sl p book e)
    unfolding failed_package listed_snapshot is_listable
    Gives-failed_package book e fit =
        >>=-Gives S (IsSealable book) _ _ _
          (catch-Gives S (λ s. Unit) (IsSealable book) _ _
            (Yields-IsSealable (λ s. Unit) book book.failed_view (ground (arith, fit)))
            (λ again r.
              pure-Gives S _ _ (new_snapshot-IsSealable book _ book.raw _ (ground (arith, fit)))))
          λ snapshot good.
            Gives-sealed_or_fault (failed_draft rt rd sl p book e snapshot)
              (failed-Sealable book e snapshot ∙ good)

    pub Gives-source_changed_package :
        (book : RawBook) (snapshot : BookSnapshot)
        → IsSealable book snapshot
        → Gives S
            (λ (pack : EvidencePackageV2). pack.state ≡ source_changed)
            (source_changed_package rt rd sl p book snapshot)
    unfolding source_changed_package
    Gives-source_changed_package book snapshot good =
        Gives-sealed_or_fault (changed_draft rt rd sl p book snapshot) good

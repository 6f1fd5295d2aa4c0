-- ===== src/Package.antt =====
-- The sealed evidence packages of src/calibre_ai_auditor/verification/pipeline_v2.py. What the code
-- takes from `hashlib`, `json` and `os.path` is the record `Sealing`.
pub mod Derived
use calibre_bookwarden.Prelude.{
  ℕ, String, Bool, true, false, not, ◌&&◌, ◌||◌, Option, none, some, List, [], ◌∷◌, ◌++◌, ◌==◌, leb,
  any, all, length, codes, text_eq, text_in, str_eq, str_in, starts_with, strip, is_nonempty,
  is_some, if◌then◌else◌,
}
use mathlib.Core.List
use calibre_bookwarden.Prelude.Dict.{Dict}
use calibre_bookwarden.Verdict.{Text}
use calibre_bookwarden.Lease.Books.{BookAuditState, failed, source_changed}
use calibre_bookwarden.Identity.{
  Json, Runtime, IdentityTier, tier_a, FormatEvidence, SourceEvidence,
}
use calibre_bookwarden.Identity.Resolve.{ManifestationResolution, resolve_manifestation}
use calibre_bookwarden.Identity.Compare.{list_eq, resolution_eq}

pub data SourceKind : Type 0 where
  calibre_content_server offline_calibre_snapshot : SourceKind

pub record BookSourceDescriptor : Type 0 where
  pub kind : SourceKind
  pub fingerprint : String

pub record BookSnapshot : Type 0 where
  pub book_key : String
  pub calibre_book_id : ℕ
  pub current_metadata : Dict Json
  pub files : List Text
  pub library_root : Option Text
  pub source : Option BookSourceDescriptor
  pub source_revision_sha256 : Option Text
  pub snapshot_sha256 : String

-- EvidencePackageV2, less the receipts and warnings that nothing here reads.
pub record EvidencePackageV2 : Type 0 where
  pub evidence_id : String
  pub run_id : String
  pub book_key : String
  pub state : BookAuditState
  pub snapshot : BookSnapshot
  pub formats : List FormatEvidence
  pub source_evidence : List SourceEvidence
  pub identity : ManifestationResolution
  pub error : Option String
  pub package_sha256 : Option String

pub record Sealing : Type 0 where
  -- `str(n)` of a book id
  pub show_id : ℕ → String
  -- the digest of the JSON of the fields of a snapshot: its key, metadata, files and root, and the
  -- source and the revision of a remote one
  pub snapshot_digest :
      String
      → Dict Json
      → List Text
      → Option Text
      → Option (BookSourceDescriptor × Option Text)
      → String
  -- the digest of the JSON of a package, less the fields that are left out here
  pub package_digest : EvidencePackageV2 → String
  -- `str(Path(os.path.normpath(os.path.abspath(path))))` and `path.is_relative_to(root)`
  pub normal_path : Text → Text
  pub is_beneath : Text → Text → Bool

-- `len(xs) == len(set(xs))`, of texts and of ids
abbrev pub are_distinct : List Text → Bool
are_distinct [] = true
are_distinct (s ∷ ss) = not (text_in s ss) && are_distinct ss

abbrev pub are_distinct_ids : List String → Bool
are_distinct_ids [] = true
are_distinct_ids (s ∷ ss) = not (str_in s ss) && are_distinct_ids ss

abbrev pub drop_prefix : Text → Text → Text
drop_prefix [] s = s
drop_prefix (c ∷ p) [] = []
drop_prefix (c ∷ p) (d ∷ s) = drop_prefix p s

-- `path.removeprefix(prefix)`
unfoldable pub remove_prefix : Text → Text → Text
remove_prefix prefix s = if starts_with prefix s then drop_prefix prefix s else s

abbrev pub is_format_char : ℕ → Bool
is_format_char c = leb b'A' c && leb c b'Z' || leb b'0' c && leb c b'9'

-- The states in which a package may lack its formats.
abbrev pub is_pathless : BookAuditState → Bool
is_pathless failed = true
is_pathless source_changed = true
is_pathless _ = false

module _ (rt : Runtime) (sl : Sealing) where
  unfoldable pub expected_book_key : Option BookSourceDescriptor → ℕ → Text
  expected_book_key none id = codes "calibre:" ++ codes (sl.show_id id)
  expected_book_key (some source) id =
      elim source.kind [
        | calibre_content_server ↦ codes "calibre-server:"
        | offline_calibre_snapshot ↦ codes "calibre-offline:"
      ]
      ++ (codes source.fingerprint ++ (codes ":" ++ codes (sl.show_id id)))

  -- `BookSnapshot.calculated_sha256`
  unfoldable pub calculated_sha256 : BookSnapshot → String
  calculated_sha256 snapshot =
      sl.snapshot_digest snapshot.book_key snapshot.current_metadata snapshot.files
        snapshot.library_root
        (elim snapshot.source [
          | none ↦ none
          | some source ↦ some (source, snapshot.source_revision_sha256)
        ])

  -- `BookSnapshot.verify_hash`
  unfoldable pub verify_hash : BookSnapshot → Bool
  verify_hash snapshot = str_eq snapshot.snapshot_sha256 (calculated_sha256 snapshot)

  -- The tests on the files of a snapshot from a remote source, and of one from a local library.
  unfoldable pub remote_files_valid : Text → BookSnapshot → Bool
  remote_files_valid prefix snapshot =
      not (is_some snapshot.library_root)
      && (is_some snapshot.source_revision_sha256
          && all
              (λ path.
                starts_with prefix path
                && (is_nonempty (remove_prefix prefix path)
                    && all is_format_char (remove_prefix prefix path)))
              snapshot.files)

  unfoldable pub local_files_valid : BookSnapshot → Bool
  local_files_valid snapshot =
      not (is_some snapshot.source_revision_sha256) && elim snapshot.library_root [
        | none ↦ true
        | some root ↦
            text_eq (sl.normal_path root) root
            && all
                (λ path.
                  text_eq (sl.normal_path path) path
                  && sl.is_beneath (sl.normal_path root) (sl.normal_path path))
                snapshot.files
      ]

  unfoldable pub files_valid : EvidencePackageV2 → Bool
  files_valid pack =
      let snapshot = pack.snapshot in
      elim snapshot.source [
        | none ↦ local_files_valid snapshot
        | some source ↦
            remote_files_valid
              (expected_book_key snapshot.source snapshot.calibre_book_id ++ codes ":") snapshot
      ]

  -- The resolution of a Tier A package must be the one that its evidence gives. Where the resolver
  -- raises a ValidationError, a ValueError, the callers of `verify_seal` raise a ValueError for
  -- `false` too.
  unfoldable pub identity_valid : EvidencePackageV2 → Bool
  identity_valid pack = elim pack.identity.tier [
    | tier_a ↦
        elim (resolve_manifestation rt pack.formats pack.source_evidence
          pack.snapshot.current_metadata) [
            | none ↦ false
            | some derived ↦ resolution_eq pack.identity derived
          ]
    | _ ↦ true
  ]

  -- `EvidencePackageV2.verify_invariants`
  unfoldable pub verify_invariants : EvidencePackageV2 → Bool
  verify_invariants pack =
      let snapshot = pack.snapshot in
      let format_paths = List.map (λ (item : FormatEvidence). item.path) pack.formats in
      let evidence_ids =
        List.map (λ (item : SourceEvidence). item.evidence_id) pack.source_evidence in
      if not (str_eq pack.book_key snapshot.book_key)
        || (not (
              text_eq (codes pack.book_key)
                (expected_book_key snapshot.source snapshot.calibre_book_id))
            || (not (verify_hash snapshot) || not (are_distinct snapshot.files)))
      then false
      else if not (files_valid pack)
      then false
      else if not (is_pathless pack.state) && not (list_eq text_eq format_paths snapshot.files)
      then false
      else if not (are_distinct format_paths)
      then false
      else if not (are_distinct_ids evidence_ids)
      then false
      else identity_valid pack

  -- What `_seal_value` takes out of the snapshot of a local book
  abbrev pub sealed_snapshot : BookSnapshot → BookSnapshot
  sealed_snapshot snapshot = elim snapshot.source [
    | none ↦ record snapshot { source_revision_sha256 = none }
    | some source ↦ snapshot
  ]

  -- `EvidencePackageV2._seal_value`: the JSON is without the field that stores the digest.
  unfoldable pub seal_value : EvidencePackageV2 → String
  seal_value pack =
      sl.package_digest
        (record pack { package_sha256 = none; snapshot = sealed_snapshot pack.snapshot })

  -- `EvidencePackageV2.seal`; `none` stands for its ValueError.
  unfoldable pub seal : EvidencePackageV2 → Option EvidencePackageV2
  seal pack =
      if not (verify_invariants pack)
      then none
      else some (record pack { package_sha256 = some (seal_value pack) })

  -- `EvidencePackageV2.verify_seal`
  unfoldable pub verify_seal : EvidencePackageV2 → Bool
  verify_seal pack =
      verify_invariants pack
      && elim pack.package_sha256 [ none ↦ false | some digest ↦ str_eq digest (seal_value pack) ]

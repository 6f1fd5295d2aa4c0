-- ===== src/Tests/Package.antt =====
-- A sealed package of the book in the module Identity.
use calibre_bookwarden.Prelude.{
  ◌==◌, if◌then◌else◌, ◌≡◌, refl, true, none, some, [], ◌∷◌, codes, strip, starts_with,
}
use calibre_bookwarden.Prelude.Dict.{lookup, insert}
use calibre_bookwarden.Prelude.Sets.{insert_sorted, sorted}
use calibre_bookwarden.Isbn.{
  clean, upper, sum_10, sum_13, isbn10_checksum_valid, isbn13_checksum_valid, canonical_isbn13,
}
use calibre_bookwarden.Verdict.{Text}
use calibre_bookwarden.Lease.Books.{shadowed}
use calibre_bookwarden.Identity.{
  ids, tier_b, tier_a, get_id, set_id, merge_ids, insert_text, sort_texts, normalize_identifiers,
  text_key, value_key,
}
use calibre_bookwarden.Identity.Patch.{
  is_sha256, validate_field, dump_field, dump_fields, canonical_patch,
}
use calibre_bookwarden.Identity.Fields.{
  patch_fields, target_value, decide_agreed, decide_groups, decide_field, decide_fields,
  resolve_fields,
}
use calibre_bookwarden.Identity.Core.{
  format_ids, internal_confirmation, external_confirmation, formats_have_core_conflict,
  formats_have_complete_core, core_step, core_fields, external_core_matches,
  external_core_conflicts,
}
use calibre_bookwarden.Identity.Resolve.{
  ManifestationResolution, resolve_manifestation, promote, identify, confirm,
}
use calibre_bookwarden.Identity.Compare.{
  list_eq, dict_eq, ids_eq, json_eq, decision_eq, resolution_eq,
}
use calibre_bookwarden.Identity.TierA.{Anchored}
use calibre_bookwarden.Identity.Evidence.{IsSupported}
use calibre_bookwarden.Package.{
  BookSnapshot, EvidencePackageV2, Sealing, expected_book_key, calculated_sha256, verify_hash,
  seal_value, remote_files_valid, local_files_valid, files_valid, identity_valid, verify_invariants,
  seal, verify_seal,
}
use calibre_bookwarden.Package.Derived.{verify_seal-IsSupported, verify_seal-seal}
use calibre_bookwarden.Tests.Identity.{plain, epub, records, the_isbn}

abbrev pub digests : Sealing
digests = record {
  show_id = λ n. if n == 7 then "7" else "8";
  snapshot_digest = λ key current files root remote. "s1";
  package_digest = λ p. "p1";
  normal_path = λ s. s;
  is_beneath = λ root s. starts_with root s;
}

abbrev pub no_resolution : ManifestationResolution
no_resolution = record {
  tier = tier_b;
  manifestation_ids = [];
  field_decisions = [];
  auto_patch = [];
  risk_flags = [];
  reasons = [];
}

abbrev pub derived : ManifestationResolution
derived = elim (resolve_manifestation plain (epub ∷ []) records []) [
  | none ↦ no_resolution
  | some r ↦ r
]

abbrev pub snapshot : BookSnapshot
snapshot = record {
  book_key = "calibre:7";
  calibre_book_id = 7;
  current_metadata = [];
  files = codes "/library/Ada/Signals.epub" ∷ [];
  library_root = some (codes "/library");
  source = none;
  source_revision_sha256 = none;
  snapshot_sha256 = "s1";
}

abbrev pub draft : EvidencePackageV2
draft = record {
  evidence_id = "ev1";
  run_id = "run1";
  book_key = "calibre:7";
  state = shadowed;
  snapshot = snapshot;
  formats = epub ∷ [];
  source_evidence = records;
  identity = derived;
  error = none;
  package_sha256 = none;
}

abbrev pub sealed : EvidencePackageV2
sealed = record draft { package_sha256 = some "p1" }

run_seal :
    (verify_seal plain digests sealed ≡ true)
    × (seal plain digests draft ≡ some sealed)
    × (sealed.identity.tier ≡ tier_a)
    × (lookup "identifiers" sealed.identity.auto_patch ≡ some (ids the_isbn))
unfolding resolve_manifestation identify confirm promote format_ids internal_confirmation
    external_confirmation formats_have_core_conflict formats_have_complete_core core_step
    core_fields external_core_matches external_core_conflicts get_id set_id merge_ids insert_text
    sort_texts normalize_identifiers text_key value_key clean upper sum_10 sum_13
    isbn10_checksum_valid isbn13_checksum_valid canonical_isbn13 strip lookup insert patch_fields
    target_value decide_agreed decide_groups decide_field decide_fields resolve_fields is_sha256
    validate_field dump_field dump_fields canonical_patch insert_sorted sorted list_eq dict_eq
    ids_eq json_eq decision_eq resolution_eq expected_book_key calculated_sha256 seal_value
    verify_hash remote_files_valid local_files_valid files_valid identity_valid verify_invariants
    seal verify_seal
run_seal = (refl, refl, refl, refl)

verify_seal-IsSupported_example :
    (identifier : Text) × Anchored plain (epub ∷ []) records identifier
    × IsSupported plain records identifier "identifiers"
verify_seal-IsSupported_example =
    verify_seal-IsSupported plain digests sealed "identifiers" (ids the_isbn) run_seal.0 run_seal.2
      run_seal.3

verify_seal-seal_example : verify_seal plain digests sealed ≡ true
verify_seal-seal_example = verify_seal-seal plain digests draft run_seal.1

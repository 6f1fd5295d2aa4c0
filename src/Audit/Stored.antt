-- ===== src/Audit/Stored.antt =====
-- What the transaction of record_package went through.

use calibre_bookwarden.Prelude.{
  ◌≡◌, ap, sym, ◌∙◌, String, true, ◌&&◌, some, List, str_eq, Bool-cases, Option-cases, inl, inr,
  arith,
}
use calibre_bookwarden.Lease.Books.{VerificationResult}
use calibre_bookwarden.Identity.{Runtime}
use calibre_bookwarden.Package.{EvidencePackageV2, Sealing, verify_seal}
use calibre_bookwarden.Apply.{EvidencePackage, save_row}
use calibre_bookwarden.Apply.Rows.{key-find_row}
use calibre_bookwarden.Audit.Steps.{answers}
use calibre_bookwarden.Audit.Answers.{Answer-cases}
use calibre_bookwarden.Audit.Rows.{
  Payloads, AuditRun, Tables, find_result, set_result, refresh_counts, save_run, find_audit_run,
}
use calibre_bookwarden.Audit.Store.{put_package, packaged, package_written}

module _ (rt : Runtime) (sl : Sealing) (pl : Payloads) where
  -- What `record_package` went through.
  pub record IsRecorded (run_id : String) (pack : EvidencePackageV2) (old new : Tables)
      : Type 0 where
    pub of_run : str_eq pack.run_id run_id ≡ true
    pub sealed : verify_seal rt sl pack ≡ true
    pub packages : put_package rt sl pl pack old.packages ≡ answers new.packages
    pub run : AuditRun
    pub same_run : run.run_id ≡ run_id
    pub runs : new.runs ≡ save_row (λ (r : AuditRun). r.run_id) run old.runs
    pub row : VerificationResult
    pub row_found : find_result run_id pack.book_key old.results ≡ some row
    pub results :
        new.results
        ≡ set_result run_id pack.book_key
            (record row { evidence_id = some pack.evidence_id; state = pack.state })
            old.results

  written-IsRecorded :
      (run_id : String) (pack : EvidencePackageV2) (old new : Tables)
      (packages : List EvidencePackage) (row : VerificationResult)
      → (str_eq pack.run_id run_id && verify_seal rt sl pack) ≡ true
      → put_package rt sl pl pack old.packages ≡ answers packages
      → find_result run_id pack.book_key old.results ≡ some row
      → packaged rt sl pl run_id pack old ≡ answers new
      → IsRecorded run_id pack old new
  unfolding packaged refresh_counts
  written-IsRecorded run_id pack old new packages row valid put row_found h =
      let made = package_written run_id pack packages row old in
      elim (Option-cases (find_audit_run run_id made.runs)) [
        | inl e ↦ absurd (ground (arith, h, valid, put, row_found, e))
        | inr (run, e) ↦
            let same : save_run (refresh_counts run_id made run) made ≡ new =
              ground (arith, h, valid, put, row_found, e) in
            record {
              of_run = ground (arith, valid);
              sealed = ground (arith, valid);
              run = refresh_counts run_id made run;
              same_run = key-find_row (λ (r : AuditRun). r.run_id) run_id old.runs run e;
              runs = sym (ap (λ (t : Tables). t.runs) same);
              packages = put ∙ ap (λ (t : Tables). answers t.packages) same;
              row = row;
              row_found = row_found;
              results = sym (ap (λ (t : Tables). t.results) same);
            }
      ]

  pub packaged-IsRecorded :
      (run_id : String) (pack : EvidencePackageV2) (old new : Tables)
      → packaged rt sl pl run_id pack old ≡ answers new
      → IsRecorded run_id pack old new
  unfolding packaged
  packaged-IsRecorded run_id pack old new h =
      elim (Bool-cases (str_eq pack.run_id run_id && verify_seal rt sl pack)) [
        | inr v ↦ absurd (ground (arith, h, v))
        | inl v ↦ elim (Answer-cases (put_package rt sl pl pack old.packages)) [
          | inr (e, p) ↦ absurd (ground (arith, h, v, p))
          | inl (packages, p) ↦ elim (Option-cases (find_result run_id pack.book_key old.results)) [
            | inl f ↦ absurd (ground (arith, h, v, p, f))
            | inr (row, f) ↦ written-IsRecorded run_id pack old new packages row v p f h
          ]
        ]
      ]

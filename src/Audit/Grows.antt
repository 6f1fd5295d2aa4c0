-- ===== src/Audit/Grows.antt =====
-- The methods of the store keep the run and every package that is stored.

use calibre_bookwarden.Prelude.{
  ℕ, ◌≡◌, refl, ap, ◌∙◌, sym, String, true, some, Option-cases, Bool-cases, List, [], ◌∷◌, ◌++◌,
  eq_iff, is_some, inl, inr, arith,
}
use calibre_bookwarden.Lease.{RunStatus}
use calibre_bookwarden.Lease.Books.{BookAuditState}
use calibre_bookwarden.Identity.{Runtime}
use calibre_bookwarden.Package.{EvidencePackageV2, Sealing}
use calibre_bookwarden.Apply.{EvidencePackage, save_row}
use calibre_bookwarden.Apply.Rows.{find_row-append, find_row-save_row, key-find_row}
use calibre_bookwarden.Audit.Steps.{Answer, answers, faults}
use calibre_bookwarden.Audit.Run.{run}
use calibre_bookwarden.Audit.Yields.{Frame, Keeps}
use calibre_bookwarden.Audit.Rows.{
  Payloads, Tables, AuditRun, find_audit_run, find_package, refresh_counts, save_run, set_result,
  find_result,
}
use calibre_bookwarden.Audit.Store.{
  stated, finished, packaged, put_package, package_row, store, commit,
}
use calibre_bookwarden.Audit.Stored.{packaged-IsRecorded}

-- The run, if there is one, and every stored package stay.
pub record Grows (run_id : String) (old new : Tables) : Type 0 where
  pub runs :
      is_some (find_audit_run run_id old.runs) ≡ true
      → is_some (find_audit_run run_id new.runs) ≡ true
  pub packages :
      (id : String) (row : EvidencePackage)
      → find_package id old.packages ≡ some row
      → find_package id new.packages ≡ some row

abbrev pub growth : String → Frame
growth run_id = record {
  State = Tables;
  Step = Grows run_id;
  stay = λ s. record { runs = λ h. h; packages = λ id row h. h };
  join = λ s t u h k. record {
    runs = λ r. k.runs (h.runs r);
    packages = λ id row f. k.packages id row (h.packages id row f);
  };
}

-- A row with the key of the run takes its place.
pub find-save_row :
    (run_id : String) (run : AuditRun) (runs : List AuditRun)
    → run.run_id ≡ run_id
    → is_some (find_audit_run run_id runs) ≡ true
    → find_audit_run run_id (save_row (λ (r : AuditRun). r.run_id) run runs) ≡ some run
find-save_row run_id run runs e h =
    let key = (eq_iff run.run_id run_id).1 e in
    find_row-save_row (λ (r : AuditRun). r.run_id) run_id run runs ∙ ground (arith, h, key)

pub commit-Grows :
    (run_id : String) (answer : Answer Tables) (old : Tables)
    → ((new : Tables) → answer ≡ answers new → Grows run_id old new)
    → Grows run_id old (commit answer old).1
commit-Grows run_id (answers new) old h = h new refl
commit-Grows run_id (faults e) old h = (growth run_id).stay old

stated-Grows :
    (run_id key : String) (state : BookAuditState) (old new : Tables)
    → stated run_id key state old ≡ answers new
    → Grows run_id old new
unfolding stated
stated-Grows run_id key state old new h = elim (Option-cases (find_result run_id key old.results)) [
  | inl f ↦ absurd (ground (arith, h, f))
  | inr (row, f) ↦
      let same : record old {
        results = set_result run_id key (record row { state = state }) old.results;
      }
          ≡ new =
        ground (arith, h, f) in
      record {
        runs = λ r. ap (λ (t : Tables). is_some (find_audit_run run_id t.runs)) (sym same) ∙ r;
        packages = λ id row f. ap (λ (t : Tables). find_package id t.packages) (sym same) ∙ f;
      }
]

pub finished-Grows :
    (run_id : String) (status : RunStatus) (now : ℕ) (old new : Tables)
    → finished run_id status now old ≡ answers new
    → Grows run_id old new
unfolding finished refresh_counts
finished-Grows run_id status now old new h = elim (Option-cases (find_audit_run run_id old.runs)) [
  | inl f ↦ absurd (ground (arith, h, f))
  | inr (run, f) ↦
      let ended = record (refresh_counts run_id old run) {
        status = status;
        finished_at = some now;
      } in
      let same : save_run ended old ≡ new = ground (arith, h, f) in
      record {
        runs = λ r.
            ap (λ (t : Tables). is_some (find_audit_run run_id t.runs)) (sym same)
            ∙ ap is_some (
                find-save_row run_id ended old.runs
                  (key-find_row (λ (r : AuditRun). r.run_id) run_id old.runs run f) r);
        packages = λ id row f. ap (λ (t : Tables). find_package id t.packages) (sym same) ∙ f;
      }
]

module _ (rt : Runtime) (sl : Sealing) (pl : Payloads) where
  put-stored :
      (pack : EvidencePackageV2) (packages packages' : List EvidencePackage)
      (stored : EvidencePackage)
      → put_package rt sl pl pack packages ≡ answers packages'
      → find_package pack.evidence_id packages ≡ some stored
      → packages ≡ packages'
  put-stored pack packages packages' stored h n = elim (Bool-cases (pl.same_payload stored pack)) [
    | inl t ↦ ground (arith, h, n, t)
    | inr t ↦ absurd (ground (arith, h, n, t))
  ]

  find-put_package :
      (pack : EvidencePackageV2) (packages packages' : List EvidencePackage) (id : String)
      (row : EvidencePackage)
      → put_package rt sl pl pack packages ≡ answers packages'
      → find_package id packages ≡ some row
      → find_package id packages' ≡ some row
  find-put_package pack packages packages' id row h f =
      elim (Option-cases (find_package pack.evidence_id packages)) [
        | inl n ↦
            let same : packages ++ (package_row rt sl pl pack ∷ []) ≡ packages' =
              ground (arith, h, n) in
            ap (λ rows. find_package id rows) (sym same)
            ∙ (find_row-append (λ (r : EvidencePackage). r.evidence_id) id packages
                  (package_row rt sl pl pack)
                ∙ rw f refl)
        | inr (stored, n) ↦
            let same : packages ≡ packages' = put-stored pack packages packages' stored h n in
            ap (λ rows. find_package id rows) (sym same) ∙ f
      ]

  packaged-Grows :
      (run_id : String) (pack : EvidencePackageV2) (old new : Tables)
      → packaged rt sl pl run_id pack old ≡ answers new
      → Grows run_id old new
  packaged-Grows run_id pack old new h =
      let done = packaged-IsRecorded rt sl pl run_id pack old new h in
      record {
        runs = λ r.
            ap (λ rows. is_some (find_audit_run run_id rows)) done.runs
            ∙ ap is_some (find-save_row run_id done.run old.runs done.same_run r);
        packages =
            λ id row f. find-put_package pack old.packages new.packages id row done.packages f;
      }

  pub store-Keeps : (run_id : String) → Keeps (growth run_id) (store rt sl pl run_id)
  store-Keeps run_id = record {
    of_state = λ key state s.
        commit-Grows run_id (stated run_id key state s) s (stated-Grows run_id key state s);
    of_package = λ pack s.
        commit-Grows run_id (packaged rt sl pl run_id pack s) s (packaged-Grows run_id pack s);
  }

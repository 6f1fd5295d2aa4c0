-- ===== src/Tests/Lease.antt =====
-- One run, two workers.
use calibre_bookwarden.Prelude.{
  inl, false, ℕ, ◌≡◌, refl, String, true, Option, none, some, List, [], ◌∷◌, All, all, any, str_eq,
  arith,
}
use calibre_bookwarden.Lease.{
  VerificationRun, running, claim_row, find_run, update_run, claim_verification_run, insert_run,
  sort_runs, list_recoverable_v2_run_ids,
}
use calibre_bookwarden.Lease.Exclusion.{
  Action, claim, heartbeat, release, IsForeign, Holds, act_all, act_all-Holds, claim-excludes,
}
use calibre_bookwarden.Lease.Recovery.{HasDistinctIds, claimed, listed-claimed}
use calibre_bookwarden.Lease.Books.{
  VerificationResult, extracting, verified, is_settled, AllKept, reset_stale_in_flight_states,
  reset-settled,
}

abbrev with_lease : Option String → Option ℕ → VerificationRun
with_lease owner expires = record {
  run_id = "r1";
  status = running;
  started_at = 5;
  finished_at = none;
  pipeline_version = "manifestation-v2";
  lease_owner = owner;
  lease_expires_at = expires;
}

run_claim :
    claim_verification_run "r1" "a" 100 120 (with_lease none none ∷ [])
    ≡ some (true, with_lease (some "a") (some 220) ∷ [])
unfolding claim_verification_run update_run claim_row
run_claim = refl

abbrev attempts : List Action
attempts = claim "r1" "b" 150 120 ∷ heartbeat "r1" "b" 160 120 ∷ release "r1" "b" ∷ []

attempts-IsForeign : All (IsForeign "a" 220) attempts
attempts-IsForeign = ((refl, omega arith), (refl, (refl, tt)))

leased-Holds : Holds "a" 220 "r1" (with_lease (some "a") (some 220) ∷ [])
unfolding find_run
leased-Holds = record {
  run = with_lease (some "a") (some 220);
  found = refl;
  named = refl;
  leased = refl;
  until = refl;
}

act_all-Holds_example :
    Holds "a" 220 "r1" (act_all attempts (with_lease (some "a") (some 220) ∷ []))
act_all-Holds_example =
    act_all-Holds "a" 220 "r1" attempts (with_lease (some "a") (some 220) ∷ []) attempts-IsForeign
      leased-Holds

claim-excludes_example :
    claim_verification_run "r1" "c" 200 60
      (act_all attempts (with_lease (some "a") (some 220) ∷ []))
    ≡ some (false, act_all attempts (with_lease (some "a") (some 220) ∷ []))
claim-excludes_example =
    claim-excludes "r1" "a" "c" 100 120 220 200 60 attempts (with_lease none none ∷ [])
      (with_lease (some "a") (some 220) ∷ []) run_claim (inl (omega arith)) attempts-IsForeign refl
      refl (omega arith)

expired-HasDistinctIds : HasDistinctIds (with_lease (some "a") (some 220) ∷ [])
unfolding find_run
expired-HasDistinctIds = (refl, tt)

run_list :
    any
      (λ s. str_eq s "r1")
      (list_recoverable_v2_run_ids 300 (with_lease (some "a") (some 220) ∷ []))
    ≡ true
unfolding list_recoverable_v2_run_ids sort_runs insert_run
run_list = refl

listed-claimed_example :
    claimed (claim_verification_run "r1" "b" 300 120 (with_lease (some "a") (some 220) ∷ [])) ≡ true
listed-claimed_example =
    listed-claimed "r1" "b" 300 120 (with_lease (some "a") (some 220) ∷ []) expired-HasDistinctIds
      refl run_list

abbrev books : List VerificationResult
books =
    record { run_id = "r1"; book_key = "b1"; evidence_id = none; state = extracting }
    ∷ record { run_id = "r1"; book_key = "b2"; evidence_id = some "e"; state = verified }
    ∷ []

reset-settled_example :
    let (n, rows) = reset_stale_in_flight_states "r1" books in
    (all (is_settled "r1") rows ≡ true)
    × AllKept books rows
    × (reset_stale_in_flight_states "r1" rows ≡ (0, rows))
reset-settled_example = reset-settled "r1" books

-- ===== src/Lease/Recovery.antt =====
-- The list of recoverable runs against `claim_verification_run`.
use mathlib.Core.List
use calibre_bookwarden.Prelude.{
  ℕ, ◌≡◌, refl, ◌∙◌, ap, String, Bool, true, false, ◌&&◌, ◌||◌, Option, none, some, List, [], ◌∷◌,
  str_eq, eq_iff, is_some, any, keep, arith,
}
use calibre_bookwarden.Lease.{
  VerificationRun, claim_row, find_run, update_run, claim_verification_run, is_recoverable,
  insert_run, sort_runs, list_recoverable_v2_run_ids,
}

-- `run_id` is unique in the table.
abbrev pub HasDistinctIds : List VerificationRun → Type 0
HasDistinctIds [] = Unit
HasDistinctIds (run ∷ runs) = (find_run run.run_id runs ≡ none) × HasDistinctIds runs

-- The answer of a claim.
abbrev pub claimed : Option (Bool × List VerificationRun) → Bool
claimed none = false
claimed (some (done, runs)) = done

any-insert :
    (p : VerificationRun → Bool) (run : VerificationRun) (runs : List VerificationRun)
    → any p (insert_run run runs) ≡ (p run || any p runs)
unfolding insert_run
any-insert p run [] = refl
any-insert p run (r ∷ runs) = ground (arith, any-insert p run runs)

any-sort :
    (p : VerificationRun → Bool) (runs : List VerificationRun) → any p (sort_runs runs) ≡ any p runs
unfolding sort_runs
any-sort p [] = refl
any-sort p (run ∷ runs) = any-insert p run (sort_runs runs) ∙ ap (λ b. p run || b) (any-sort p runs)

any-listed :
    (id : String) (p : VerificationRun → Bool) (runs : List VerificationRun)
    → any (λ s. str_eq s id) (List.map (λ (run : VerificationRun). run.run_id) (keep p runs))
      ≡ any (λ (run : VerificationRun). p run && str_eq run.run_id id) runs
any-listed id p [] = refl
any-listed id p (run ∷ runs) = ground (arith, any-listed id p runs)

-- With distinct ids a run in the table is the one found by its id.
find-any :
    (id : String) (p : VerificationRun → Bool) (runs : List VerificationRun)
    → HasDistinctIds runs
    → any (λ (run : VerificationRun). p run && str_eq run.run_id id) runs
      ≡ elim (find_run id runs) [ none ↦ false | some run ↦ p run ]
unfolding find_run
find-any id p [] d = refl
find-any id p (run ∷ runs) (fresh, d) = ground (arith, find-any id p runs d, eq_iff run.run_id id)

claimed-update :
    (id owner : String) (moment ttl : ℕ) (runs : List VerificationRun)
    → (update_run id (claim_row owner moment ttl) runs).0 ≡ elim (find_run id runs) [
      | none ↦ false
      | some run ↦ is_some (claim_row owner moment ttl run)
    ]
unfolding update_run find_run
claimed-update id owner moment ttl [] = refl
claimed-update id owner moment ttl (run ∷ runs) =
    ground (arith, claimed-update id owner moment ttl runs)

-- With distinct run ids in the table, a run that the recovery lists at a moment can be claimed at
-- that moment by any worker with a non-empty name.
pub listed-claimed :
    (id owner : String) (moment ttl : ℕ) (runs : List VerificationRun)
    → HasDistinctIds runs
    → str_eq owner "" ≡ false
    → any (λ s. str_eq s id) (list_recoverable_v2_run_ids moment runs) ≡ true
    → claimed (claim_verification_run id owner moment ttl runs) ≡ true
unfolding list_recoverable_v2_run_ids claim_verification_run claim_row
listed-claimed id owner moment ttl runs d named listed =
    let step =
      any-listed id (is_recoverable moment) (sort_runs runs)
      ∙ (any-sort (λ (run : VerificationRun). is_recoverable moment run && str_eq run.run_id id)
            runs
          ∙ find-any id (is_recoverable moment) runs d) in
    ground (arith, step, claimed-update id owner moment ttl runs)

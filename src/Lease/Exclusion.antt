-- ===== src/Lease/Exclusion.antt =====
-- A live lease shuts out every other worker.
use calibre_bookwarden.Prelude.{
  ◌≤◌, ◌⊎◌, ap, ℕ, ◌+◌, ◌<◌, ◌≡◌, refl, String, true, false, Option, none, some, List, [], ◌∷◌,
  str_eq, All, Option-cases, Bool-cases, inl, inr, arith,
}
use calibre_bookwarden.Lease.{
  VerificationRun, lease_time, claim_row, heartbeat_row, release_row, find_run, update_run,
  claim_verification_run, heartbeat_verification_run, release_verification_run,
}

-- What workers do to the table of runs.
pub data Action : Type 0 where
  claim heartbeat : String → String → ℕ → ℕ → Action
  release : String → String → Action

-- The table after an action; a claim that raises changes nothing.
abbrev pub act : Action → List VerificationRun → List VerificationRun
act (claim id owner moment ttl) runs = elim (claim_verification_run id owner moment ttl runs) [
  | none ↦ runs
  | some (done, runs') ↦ runs'
]
act (heartbeat id owner moment ttl) runs = (heartbeat_verification_run id owner moment ttl runs).1
act (release id owner) runs = release_verification_run id owner runs

pub act_all : List Action → List VerificationRun → List VerificationRun
act_all [] runs = runs
act_all (a ∷ actions) runs = act_all actions (act a runs)

-- The action is by another worker than `owner`, and before the moment `expires`.
abbrev pub IsForeign : String → ℕ → Action → Type 0
IsForeign owner expires (claim id other moment ttl) =
    (str_eq owner other ≡ false) × (moment < expires)
IsForeign owner expires (heartbeat id other moment ttl) = str_eq owner other ≡ false
IsForeign owner expires (release id other) = str_eq owner other ≡ false

-- The worker `owner` holds the lease of the run `id` until the moment `expires`.
pub record Holds (owner : String) (expires : ℕ) (id : String) (runs : List VerificationRun)
    : Type 0 where
  pub run : VerificationRun
  pub found : find_run id runs ≡ some run
  pub named : str_eq owner "" ≡ false
  pub leased : run.lease_owner ≡ some owner
  pub until : run.lease_expires_at ≡ some expires

-- The three changes keep the run's id.
KeepsId : (VerificationRun → Option VerificationRun) → Type 0
KeepsId change = (run new : VerificationRun) → change run ≡ some new → new.run_id ≡ run.run_id

claim-id : (owner : String) (moment ttl : ℕ) → KeepsId (claim_row owner moment ttl)
unfolding KeepsId claim_row
claim-id owner moment ttl run new e = ground arith

heartbeat-id : (owner : String) (moment ttl : ℕ) → KeepsId (heartbeat_row owner moment ttl)
unfolding KeepsId heartbeat_row
heartbeat-id owner moment ttl run new e = ground arith

release-id : (owner : String) → KeepsId (release_row owner)
unfolding KeepsId release_row
release-id owner run new e = ground arith

-- A change that leaves the run found alone leaves the search for it alone.
find-update :
    (id j : String) (change : VerificationRun → Option VerificationRun)
    (runs : List VerificationRun) (run : VerificationRun)
    → KeepsId change
    → find_run id runs ≡ some run
    → change run ≡ none
    → find_run id (update_run j change runs).1 ≡ some run
unfolding find_run update_run KeepsId
find-update id j change [] run keeps found h = found
find-update id j change (r ∷ runs) run keeps found h = elim (Option-cases (change r)) [
  | inl e ↦ ground (arith, e, find-update id j change runs run keeps)
  | inr (new, e) ↦ ground (arith, e, find-update id j change runs run keeps, keeps r new e)
]

-- A foreign action before the lease ends leaves the run as it is.
act-Holds :
    (owner : String) (expires : ℕ) (id : String) (a : Action) (runs : List VerificationRun)
    → IsForeign owner expires a
    → Holds owner expires id runs
    → Holds owner expires id (act a runs)
unfolding claim_verification_run heartbeat_verification_run release_verification_run claim_row
    heartbeat_row release_row
act-Holds owner expires id (claim j other moment ttl) runs (o, m) h =
    elim (Bool-cases (str_eq other "")) [
      | inl e ↦ rw (act, e) h
      | inr e ↦
          rw (act, e)
            (record {
              run = h.run;
              found =
                  find-update id j (claim_row other moment ttl) runs h.run
                    (claim-id other moment ttl) h.found
                    (ground (arith, h.leased, h.until, h.named));
              named = h.named;
              leased = h.leased;
              until = h.until;
            })
    ]
act-Holds owner expires id (heartbeat j other moment ttl) runs o h = record {
  run = h.run;
  found =
      find-update id j (heartbeat_row other moment ttl) runs h.run (heartbeat-id other moment ttl)
        h.found (ground (arith, h.leased, h.until));
  named = h.named;
  leased = h.leased;
  until = h.until;
}
act-Holds owner expires id (release j other) runs o h = record {
  run = h.run;
  found =
      find-update id j (release_row other) runs h.run (release-id other) h.found
        (ground (arith, h.leased, h.until));
  named = h.named;
  leased = h.leased;
  until = h.until;
}

-- While a worker holds the lease of a run, no sequence of claims, heartbeats and releases by other
-- workers, on any runs and in any order, takes it away or changes when it ends, as long as their
-- claims come before that moment.
pub act_all-Holds :
    (owner : String) (expires : ℕ) (id : String) (actions : List Action)
    (runs : List VerificationRun)
    → All (IsForeign owner expires) actions
    → Holds owner expires id runs
    → Holds owner expires id (act_all actions runs)
unfolding act_all
act_all-Holds owner expires id [] runs foreign h = h
act_all-Holds owner expires id (a ∷ actions) runs (foreign, rest) h =
    act_all-Holds owner expires id actions (act a runs) rest
      (act-Holds owner expires id a runs foreign h)

-- What a claim leaves in the row that it changes.
find-changed :
    (id : String) (change : VerificationRun → Option VerificationRun) (runs : List VerificationRun)
    → KeepsId change
    → (update_run id change runs).0 ≡ true
    → (run : VerificationRun) × (new : VerificationRun) × (find_run id runs ≡ some run)
      × (change run ≡ some new)
      × (find_run id (update_run id change runs).1 ≡ some new)
unfolding find_run update_run KeepsId
find-changed id change [] keeps h = absurd (cc)
find-changed id change (r ∷ runs) keeps h = elim (Bool-cases (str_eq r.run_id id)) [
  | inr e ↦
      let (run, new, f, c, g) = find-changed id change runs keeps (rw e at h) in
      (run, new, rw e f, c, ground (arith, e, g))
  | inl e ↦ elim (Option-cases (change r)) [
    | inl n ↦ absurd (ground arith)
    | inr (new, c) ↦ (r, new, rw e refl, c, ground (arith, e, c, keeps r new c))
  ]
]

-- A successful claim gives its owner the lease of the run.
claim-Holds :
    (id owner : String) (moment ttl : ℕ) (runs runs' : List VerificationRun)
    → claim_verification_run id owner moment ttl runs ≡ some (true, runs')
    → Holds owner (moment + lease_time ttl) id runs'
unfolding claim_verification_run claim_row
claim-Holds id owner moment ttl runs runs' h =
    let n : str_eq owner "" ≡ false = ground arith in
    let d : (update_run id (claim_row owner moment ttl) runs).0 ≡ true = ground arith in
    let (run, new, f, c, g) =
      find-changed id (claim_row owner moment ttl) runs (claim-id owner moment ttl) d in
    record {
      run = new;
      found = ground (arith, n);
      named = n;
      leased = ground arith;
      until = ground arith;
    }

-- A change that is refused for the row found changes nothing.
update-refused :
    (id : String) (change : VerificationRun → Option VerificationRun) (runs : List VerificationRun)
    (run : VerificationRun)
    → find_run id runs ≡ some run
    → change run ≡ none
    → update_run id change runs ≡ (false, runs)
unfolding find_run update_run
update-refused id change [] run f h = absurd (cc)
update-refused id change (r ∷ runs) run f h = elim (Bool-cases (str_eq r.run_id id)) [
  | inl e ↦ ground (arith, e, f, h)
  | inr e ↦ let ih = update-refused id change runs run (ground (arith, e, f)) h in rw (e, ih) refl
]

-- While a worker holds the lease, another worker's claim is refused.
Holds-refuses :
    (owner other : String) (expires : ℕ) (id : String) (moment ttl : ℕ)
    (runs : List VerificationRun)
    → str_eq owner other ≡ false
    → str_eq other "" ≡ false
    → moment < expires
    → Holds owner expires id runs
    → claim_verification_run id other moment ttl runs ≡ some (false, runs)
unfolding claim_verification_run claim_row
Holds-refuses owner other expires id moment ttl runs o n lt h = rw n (
    ap some (
      update-refused id (claim_row other moment ttl) runs h.run h.found
        (ground (arith, h.leased, h.until, h.named))))

earlier-IsForeign :
    (owner : String) (e expires : ℕ) (a : Action)
    → e ≤ expires
    → IsForeign owner e a
    → IsForeign owner expires a
earlier-IsForeign owner e expires (claim id other moment ttl) h (o, m) = (o, omega arith)
earlier-IsForeign owner e expires (heartbeat id other moment ttl) h o = o
earlier-IsForeign owner e expires (release id other) h o = o

earlier-All :
    (owner : String) (e expires : ℕ) (actions : List Action)
    → e ≤ expires
    → All (IsForeign owner e) actions
    → All (IsForeign owner expires) actions
earlier-All owner e expires [] h foreign = tt
earlier-All owner e expires (a ∷ actions) h (foreign, rest) =
    (earlier-IsForeign owner e expires a h foreign, earlier-All owner e expires actions h rest)

-- Let a worker's claim of a run succeed, and let `e` be at most its moment plus the time to live
-- asked for, or at most a second after its moment. Whatever claims, heartbeats and releases other
-- workers then attempt, with their claims before `e`, the claim of the run by another worker before
-- `e` is refused and changes nothing.
pub claim-excludes :
    (id owner other : String) (moment ttl e later other_ttl : ℕ) (actions : List Action)
    (runs runs' : List VerificationRun)
    → claim_verification_run id owner moment ttl runs ≡ some (true, runs')
    → (e ≤ moment + ttl) ⊎ (e ≤ moment + 1)
    → All (IsForeign owner e) actions
    → str_eq owner other ≡ false
    → str_eq other "" ≡ false
    → later < e
    → claim_verification_run id other later other_ttl (act_all actions runs')
      ≡ some (false, act_all actions runs')
claim-excludes id owner other moment ttl e later other_ttl actions runs runs' h bound foreign o n
      lt =
    let within : e ≤ moment + lease_time ttl = ground (arith, bound) in
    Holds-refuses owner other (moment + lease_time ttl) id later other_ttl (act_all actions runs') o
      n (omega (arith, within, lt))
      (act_all-Holds owner (moment + lease_time ttl) id actions runs'
        (earlier-All owner e (moment + lease_time ttl) actions within foreign)
        (claim-Holds id owner moment ttl runs runs' h))

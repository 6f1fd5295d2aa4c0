-- ===== src/Lease/Books.antt =====
-- The states of a run's books and `reset_stale_in_flight_states` of
-- src/calibre_ai_auditor/verification/durable_v2.py, with BookAuditState and TERMINAL_BOOK_STATES of
-- src/calibre_ai_auditor/verification/pipeline_v2.py.
use calibre_bookwarden.Prelude.{
  ℕ, ◌+◌, ◌≡◌, refl, String, Bool, true, false, not, ◌&&◌, ◌||◌, Option, List, [], ◌∷◌, all, str_eq,
  if◌then◌else◌, arith, Bool-cases, inl, inr,
}
use calibre_bookwarden.Lease.{is_named}

-- The states, and any other string in the column.
pub data BookAuditState : Type 0 where
  pending snapshotting extracting resolving decided shadowed : BookAuditState
  applying verified review deferred failed source_changed : BookAuditState
  blocked_recovery : BookAuditState
  unlisted : String → BookAuditState

-- `TERMINAL_BOOK_STATES`
abbrev pub is_terminal : BookAuditState → Bool
is_terminal shadowed = true
is_terminal verified = true
is_terminal review = true
is_terminal deferred = true
is_terminal failed = true
is_terminal source_changed = true
is_terminal blocked_recovery = true
is_terminal _ = false

-- `in_flight`
abbrev pub is_in_flight : BookAuditState → Bool
is_in_flight snapshotting = true
is_in_flight extracting = true
is_in_flight resolving = true
is_in_flight decided = true
is_in_flight applying = true
is_in_flight _ = false

abbrev pub is_pending : BookAuditState → Bool
is_pending pending = true
is_pending _ = false

-- The row VerificationResult, by the columns that the function reads.
pub record VerificationResult : Type 0 where
  pub run_id : String
  pub book_key : String
  pub evidence_id : Option String
  pub state : BookAuditState

-- The condition under which the loop resets a row.
unfoldable pub is_stale : VerificationResult → Bool
is_stale row =
    if is_terminal row.state && is_named row.evidence_id
    then false
    else is_in_flight row.state || (not (is_terminal row.state) && not (is_pending row.state))

unfoldable pub reset_row : VerificationResult → VerificationResult
reset_row row = if is_stale row then record row { state = pending } else row

-- `reset_stale_in_flight_states`: the number of rows reset, and the table.
unfoldable pub reset_stale_in_flight_states :
    String → List VerificationResult → ℕ × List VerificationResult
reset_stale_in_flight_states run_id [] = (0, [])
reset_stale_in_flight_states run_id (row ∷ rows) =
    let (n, rest) = reset_stale_in_flight_states run_id rows in
    if str_eq row.run_id run_id
    then ((if is_stale row then 1 + n else n), reset_row row ∷ rest)
    else (n, row ∷ rest)

-- The row is of another run, or its book waits or is done.
unfoldable pub is_settled : String → VerificationResult → Bool
is_settled run_id row =
    not (str_eq row.run_id run_id) || (is_pending row.state || is_terminal row.state)

-- What the reset keeps of a row: all but the state, and the state too where the book was done.
abbrev pub Kept : VerificationResult → VerificationResult → Type 0
Kept old new =
    (new.run_id ≡ old.run_id)
    × (new.book_key ≡ old.book_key)
    × (new.evidence_id ≡ old.evidence_id)
    × (is_terminal old.state ≡ true → new.state ≡ old.state)

-- The rows correspond one by one.
abbrev pub AllKept : List VerificationResult → List VerificationResult → Type 0
AllKept [] [] = Unit
AllKept (old ∷ olds) (new ∷ news) = Kept old new × AllKept olds news
AllKept _ _ = ⊥

stale-reset : (row : VerificationResult) → is_stale (reset_row row) ≡ false
unfolding is_stale reset_row
stale-reset row = ground arith

reset-unless : (row : VerificationResult) → is_stale row ≡ false → reset_row row ≡ row
unfolding reset_row
reset-unless row h = ground arith

settled-reset : (id : String) (row : VerificationResult) → is_settled id (reset_row row) ≡ true
unfolding is_settled reset_row is_stale
settled-reset id row = ground arith

settled-other :
    (id : String) (row : VerificationResult)
    → str_eq row.run_id id ≡ false
    → is_settled id row ≡ true
unfolding is_settled
settled-other id row h = ground arith

Kept-reset : (row : VerificationResult) → Kept row (reset_row row)
unfolding reset_row is_stale
Kept-reset row = (ground arith, ground arith, ground arith, λ h. ground arith)

-- After a reset every book of the run waits or is done, no row is lost or gained, nothing but
-- states has changed, no finished book has lost its state, and a second reset finds nothing to do.
pub reset-settled :
    (id : String) (rows : List VerificationResult)
    → let (n, rows') = reset_stale_in_flight_states id rows in
      (all (is_settled id) rows' ≡ true)
      × AllKept rows rows'
      × (reset_stale_in_flight_states id rows' ≡ (0, rows'))
unfolding reset_stale_in_flight_states
reset-settled id [] = (refl, tt, refl)
reset-settled id (row ∷ rows) =
    let (s, k, again) = reset-settled id rows in
    let (run, book, evidence, state) = Kept-reset row in
    elim (Bool-cases (str_eq row.run_id id)) [
      | inl e ↦ (
        rw e (ground (arith, s, settled-reset id row)),
        rw e (Kept-reset row, k),
        rw e (ground (arith, e, run, again, stale-reset row, reset-unless (reset_row row))),
      )
      | inr e ↦ (
        rw e (ground (arith, s, settled-other id row e)),
        rw e ((refl, refl, refl, λ h. refl), k),
        rw e (ground (arith, e, again)),
      )
    ]

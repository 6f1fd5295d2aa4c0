-- ===== src/Audit/Service.antt =====
-- `run_persisted_library_audit` of src/calibre_ai_auditor/verification/service_v2.py: the pipeline over the
-- frozen list of books, with the store as its listener.
use mathlib.Core.List
use calibre_bookwarden.Prelude.{
  ℕ, zero, suc, ◌≡◌, refl, String, Bool, true, List, [], ◌∷◌, take, leb, Bool-cases, inl, inr,
  arith,
}
use calibre_bookwarden.Lease.{RunStatus}
use calibre_bookwarden.Identity.{Runtime}
use calibre_bookwarden.Package.{Sealing}
use calibre_bookwarden.Audit.{Reading, Pipeline}
use calibre_bookwarden.Audit.Steps.{
  fault, error, answers, faults, raised, Action, ◌>>=◌, ◌>>◌, pure, throw, catch, notify,
}
use calibre_bookwarden.Audit.Setup.{Setup, new_pipeline, service_key}
use calibre_bookwarden.Audit.Inspect.{RawBook}
use calibre_bookwarden.Audit.Drafts.{
  AuditMode, shadow, tier_a_auto, LibraryRunStatus, completed, completed_with_errors,
  LibraryAuditResult, sort_books, insert_book, limited,
}
use calibre_bookwarden.Audit.Run.{run}
use calibre_bookwarden.Audit.Rows.{Payloads, Tables}
use calibre_bookwarden.Audit.Store.{started, finished, resumable_book_keys, store, commit}

abbrev pub run_status : LibraryRunStatus → RunStatus
run_status completed = RunStatus.completed
run_status completed_with_errors = RunStatus.completed_with_errors

-- `book_keys`
abbrev pub service_keys : Sealing → Setup → List RawBook → List String
service_keys sl setup books = List.map (λ (book : RawBook). service_key sl setup book.id) books

module _ (rt : Runtime) (rd : Reading) (sl : Sealing) (p : Pipeline) (pl : Payloads) where
  -- `store.finish(status)`
  abbrev pub finish : RunStatus → ℕ → Action Tables (Unit {0})
  finish status now = notify (λ tables. commit (finished p.run_id status now tables) tables)

  -- The pipeline on the tables that `start` leaves, and the end of the run
  unfoldable pub audit_opened : ℕ → List RawBook → List String → Action Tables LibraryAuditResult
  audit_opened now books skipped = do
    result ←
        catch (run rt rd sl p (store rt sl pl p.run_id) shadow 0 skipped (answers books))
          (λ e. finish RunStatus.failed now >> throw e)
    finish (run_status result.status) now
    pure result

module _ (rt : Runtime) (rd : Reading) (sl : Sealing) (setup : Setup) (pl : Payloads) where
  -- `run_persisted_library_audit` on the books of `list_books`. The pipeline is made after the
  -- start is committed, and outside of the `try`.
  unfoldable pub run_persisted :
      AuditMode → ℕ → Bool → ℕ → List RawBook → Action Tables LibraryAuditResult
  run_persisted tier_a_auto limit use_llm now listed tables = (
    raised (
        fault (
          error
            "Tier A auto-apply is unavailable until calibration reports are cryptographically authenticated")),
    tables,
  )
  run_persisted shadow limit use_llm now listed tables =
      let books = limited limit (sort_books listed) in
      elim (started setup.run_id (service_keys sl setup books) "shadow" use_llm tables) [
        | faults e ↦ (raised (fault e), tables)
        | answers opened ↦ elim (new_pipeline rd setup) [
          | faults e ↦ (raised (fault e), opened)
          | answers p ↦
              audit_opened rt rd sl p pl now books
                (resumable_book_keys rt sl pl setup.run_id opened) opened
        ]
      ]

-- The books are in the order of their ids.
abbrev pub Leads : RawBook → List RawBook → Type 0
Leads book [] = Unit
Leads book (next ∷ books) = leb book.id next.id ≡ true

abbrev pub IsOrdered : List RawBook → Type 0
IsOrdered [] = Unit
IsOrdered (book ∷ books) = Leads book books × IsOrdered books

insert-Leads :
    (book first : RawBook) (books : List RawBook)
    → leb first.id book.id ≡ true
    → Leads first books
    → Leads first (insert_book book books)
unfolding insert_book
insert-Leads book first [] l h = l
insert-Leads book first (next ∷ books) l h = elim (Bool-cases (leb book.id next.id)) [
  | inl t ↦ rw t l
  | inr t ↦ rw t h
]

insert-IsOrdered :
    (book : RawBook) (books : List RawBook) → IsOrdered books → IsOrdered (insert_book book books)
unfolding insert_book
insert-IsOrdered book [] h = (tt, tt)
insert-IsOrdered book (first ∷ books) (l, h) = elim (Bool-cases (leb book.id first.id)) [
  | inl t ↦ rw t (t, (l, h))
  | inr t ↦
      rw t (insert-Leads book first books (ground (arith, t)) l, insert-IsOrdered book books h)
]

sort-IsOrdered : (books : List RawBook) → IsOrdered (sort_books books)
unfolding sort_books
sort-IsOrdered [] = tt
sort-IsOrdered (book ∷ books) = insert-IsOrdered book (sort_books books) (sort-IsOrdered books)

take-Leads :
    (n : ℕ) (book : RawBook) (books : List RawBook) → Leads book books → Leads book (take n books)
take-Leads zero book books h = tt
take-Leads (suc n) book [] h = tt
take-Leads (suc n) book (next ∷ books) h = h

take-IsOrdered : (n : ℕ) (books : List RawBook) → IsOrdered books → IsOrdered (take n books)
take-IsOrdered zero books h = tt
take-IsOrdered (suc n) [] h = tt
take-IsOrdered (suc n) (book ∷ books) (l, h) = (take-Leads n book books l, take-IsOrdered n books h)

limited-IsOrdered : (n : ℕ) (books : List RawBook) → IsOrdered books → IsOrdered (limited n books)
unfolding limited
limited-IsOrdered zero books h = h
limited-IsOrdered (suc n) books h = take-IsOrdered (suc n) books h

insert-front :
    (book : RawBook) (books : List RawBook)
    → Leads book books
    → insert_book book books ≡ book ∷ books
unfolding insert_book
insert-front book [] h = refl
insert-front book (next ∷ books) h = rw h refl

sort-ordered : (books : List RawBook) → IsOrdered books → sort_books books ≡ books
unfolding sort_books
sort-ordered [] h = refl
sort-ordered (book ∷ books) (l, h) = rw (sort-ordered books h) (insert-front book books l)

-- The books that a run of the whole frozen list takes are that list.
pub limited-sorted :
    (n : ℕ) (books : List RawBook)
    → limited 0 (sort_books (limited n (sort_books books))) ≡ limited n (sort_books books)
unfolding limited
limited-sorted n books =
    sort-ordered (limited n (sort_books books))
      (limited-IsOrdered n (sort_books books) (sort-IsOrdered books))

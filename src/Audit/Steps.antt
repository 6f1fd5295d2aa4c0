-- ===== src/Audit/Steps.antt =====
-- Steps that may raise, over the state of whoever listens to the pipeline. An exception keeps the
-- state that the callbacks reached.
use calibre_bookwarden.Prelude.{String}
use calibre_bookwarden.Package.{BookSnapshot, EvidencePackageV2}
use calibre_bookwarden.Lease.Books.{BookAuditState}

-- The exceptions of code outside of the pipeline: OfflineLibraryChangedError and all others, by
-- `str(error)[:500] or type(error).__name__`.
pub data Fault : Type 0 where
  library_changed_error : String → Fault
  error : String → Fault

-- The answer of a call to such code.
pub data Answer {ℓ} (A : Type ℓ) : Type ℓ where
  answers : A → Answer A
  faults : Fault → Answer A

-- The exceptions of the pipeline; SourceChangedError is its own.
pub data Failure : Type 0 where
  source_changed_error : BookSnapshot → Failure
  fault : Fault → Failure

pub data Reply {ℓ} (A : Type ℓ) : Type ℓ where
  got : A → Reply A
  raised : Failure → Reply A

-- `state_callback` and `package_callback`
pub record Listener (S : Type 0) : Type 0 where
  pub on_state : String → BookAuditState → S → Answer (Unit {0}) × S
  pub on_package : EvidencePackageV2 → S → Answer (Unit {0}) × S

-- A step over the listener's state.
abbrev pub Action {ℓ} : Type 0 → Type ℓ → Type ℓ
Action S A = S → Reply A × S

infixl 5 ◌>>=◌ ◌>>◌
abbrev pub after {ℓ κ} :
    {S : Type 0} {A : Type ℓ} {B : Type κ} → Reply A × S → (A → Action S B) → Reply B × S
after (got a, s) f = f a s
after (raised e, s) f = (raised e, s)

unfoldable pub ◌>>=◌ {ℓ κ} :
    {S : Type 0} {A : Type ℓ} {B : Type κ} → Action S A → (A → Action S B) → Action S B
(m >>= f) s = after (m s) f

abbrev pub ◌>>◌ {ℓ} : {S : Type 0} {B : Type ℓ} → Action S (Unit {0}) → Action S B → Action S B
m >> k = m >>= λ _. k

unfoldable pub pure {ℓ} : {S : Type 0} {A : Type ℓ} → A → Action S A
pure a s = (got a, s)

abbrev pub reply_of {ℓ} : {A : Type ℓ} → Answer A → Reply A
reply_of (answers a) = got a
reply_of (faults e) = raised (fault e)

-- A call that does not touch the listener.
unfoldable pub call {ℓ} : {S : Type 0} {A : Type ℓ} → Answer A → Action S A
call answer s = (reply_of answer, s)

unfoldable pub throw {ℓ} : {S : Type 0} {A : Type ℓ} → Failure → Action S A
throw e s = (raised e, s)

abbrev pub throw_error {ℓ} : {S : Type 0} {A : Type ℓ} → String → Action S A
throw_error message = throw (fault (error message))

-- A callback.
unfoldable pub notify : {S : Type 0} → (S → Answer (Unit {0}) × S) → Action S (Unit {0})
notify callback s = let (answer, t) = callback s in (reply_of answer, t)

abbrev pub handled {ℓ} :
    {S : Type 0} {A : Type ℓ} → Reply A × S → (Failure → Action S A) → Reply A × S
handled (got a, s) h = (got a, s)
handled (raised e, s) h = h e s

-- `try: … except …`, with the handlers in one function
unfoldable pub catch {ℓ} :
    {S : Type 0} {A : Type ℓ} → Action S A → (Failure → Action S A) → Action S A
catch m h s = handled (m s) h

-- ===== src/Audit/Yields.antt =====
-- Rules for steps: what a step returns whenever it returns, which snapshot it raises with, and to
-- which states it may lead.
use calibre_bookwarden.Prelude.{
  ◌≡◌, refl, String, Bool, true, false, Option, none, some, if◌then◌else◌,
}
use calibre_bookwarden.Package.{BookSnapshot, EvidencePackageV2}
use calibre_bookwarden.Lease.Books.{BookAuditState}
use calibre_bookwarden.Audit.Steps.{
  Failure, source_changed_error, fault, Fault, Answer, answers, faults, Reply, got, raised, Action,
  ◌>>=◌, after, Listener, reply_of, pure, call, throw, handled, catch, notify,
}

-- The value of a return has the property; the snapshot of a SourceChangedError too.
abbrev pub Raised : (BookSnapshot → Type 0) → Failure → Type 0
Raised G (source_changed_error snapshot) = G snapshot
Raised G (fault e) = Unit

abbrev pub Holds {ℓ} : {A : Type ℓ} → (BookSnapshot → Type 0) → (A → Type 0) → Reply A → Type 0
Holds G P (got a) = P a
Holds G P (raised e) = Raised G e

notified :
    (G : BookSnapshot → Type 0) (answer : Answer (Unit {0}))
    → Holds G (λ (u : Unit {0}). Unit) (reply_of answer)
notified G (answers a) = tt
notified G (faults e) = tt

-- The states that a step may lead to from one, by a relation that follows any number of steps.
pub record Frame : Type 1 where
  pub State : Type 0
  pub Step : State → State → Type 0
  pub stay : (s : State) → Step s s
  pub join : (s t u : State) → Step s t → Step t u → Step s u

-- Every state may follow.
abbrev pub free : Type 0 → Frame
free S = record { State = S; Step = λ s t. Unit; stay = λ s. tt; join = λ s t u h k. tt }

-- The callbacks of a listener keep to the relation.
pub record Keeps (S : Frame) (listener : Listener S.State) : Type 0 where
  pub of_state :
      (key : String) (state : BookAuditState) (s : S.State)
      → S.Step s (listener.on_state key state s).1
  pub of_package :
      (pack : EvidencePackageV2) (s : S.State) → S.Step s (listener.on_package pack s).1

pub free-Keeps : (S : Type 0) (listener : Listener S) → Keeps (free S) listener
free-Keeps S listener = record { of_state = λ key state s. tt; of_package = λ pack s. tt }

unfoldable pub Yields {ℓ} :
    {A : Type ℓ} → (S : Frame) → (BookSnapshot → Type 0) → (A → Type 0) → Action S.State A → Type 0
Yields S G P m = (s : S.State) → S.Step s (m s).1 × Holds G P (m s).0

module _ (S : Frame) where
  pub reply-Yields {ℓ} :
      {A : Type ℓ} (G : BookSnapshot → Type 0) (P : A → Type 0) (m : Action S.State A)
      (s t : S.State) (a : A)
      → Yields S G P m
      → m s ≡ (got a, t)
      → P a
  unfolding Yields
  reply-Yields G P m s t a y e = let h : Holds G P (m s).0 = (y s).1 in rw e at h

  pub step-Yields {ℓ} :
      {A : Type ℓ} (G : BookSnapshot → Type 0) (P : A → Type 0) (m : Action S.State A) (s : S.State)
      → Yields S G P m
      → S.Step s (m s).1
  unfolding Yields
  step-Yields G P m s y = (y s).0

  module _ (G : BookSnapshot → Type 0) where
    pub pure-Yields {ℓ} : {A : Type ℓ} (P : A → Type 0) (a : A) → P a → Yields S G P (pure a)
    unfolding Yields pure
    pure-Yields P a h s = (S.stay s, h)

    pub throw-Yields {ℓ} :
        {A : Type ℓ} (P : A → Type 0) (snapshot : BookSnapshot)
        → G snapshot
        → Yields S G P (throw (source_changed_error snapshot))
    unfolding Yields throw
    throw-Yields P snapshot h s = (S.stay s, h)

    pub fault-Yields {ℓ} :
        {A : Type ℓ} (P : A → Type 0) (e : Fault) → Yields S G P (throw (fault e))
    unfolding Yields throw
    fault-Yields P e s = (S.stay s, tt)

    pub rethrow-Yields {ℓ} :
        {A : Type ℓ} (P : A → Type 0) (e : Failure) → Raised G e → Yields S G P (throw e)
    unfolding Yields throw
    rethrow-Yields P e h s = (S.stay s, h)

    pub call-Yields {ℓ} :
        {A : Type ℓ} (P : A → Type 0) (answer : Answer A)
        → ((a : A) → answer ≡ answers a → P a)
        → Yields S G P (call answer)
    unfolding Yields call
    call-Yields P (answers a) h s = (S.stay s, h a refl)
    call-Yields P (faults e) h s = (S.stay s, tt)

    pub notify-Yields :
        (callback : S.State → Answer (Unit {0}) × S.State)
        → ((s : S.State) → S.Step s (callback s).1)
        → Yields S G (λ (u : Unit {0}). Unit) (notify callback)
    unfolding Yields notify
    notify-Yields callback kept s = (kept s, notified G (callback s).0)

    after-Holds {ℓ κ} :
        {A : Type ℓ} {B : Type κ} (P : A → Type 0) (Q : B → Type 0) (s : S.State)
        (reached : Reply A × S.State) (f : A → Action S.State B)
        → S.Step s reached.1 × Holds G P reached.0
        → ((a : A) → P a → Yields S G Q (f a))
        → S.Step s (after reached f).1 × Holds G Q (after reached f).0
    unfolding Yields
    after-Holds P Q s (got a, t) f (step, h) k =
        let (next, good) = k a h t in (S.join s t (f a t).1 step next, good)
    after-Holds P Q s (raised e, t) f (step, h) k = (step, h)

    pub >>=-Yields {ℓ κ} :
        {A : Type ℓ} {B : Type κ} (P : A → Type 0) (Q : B → Type 0) (m : Action S.State A)
        (f : A → Action S.State B)
        → Yields S G P m
        → ((a : A) → P a → Yields S G Q (f a))
        → Yields S G Q (m >>= f)
    unfolding Yields ◌>>=◌
    >>=-Yields P Q m f h k s = after-Holds P Q s (m s) f (h s) k

    weaken-Holds {ℓ} :
        {A : Type ℓ} (P Q : A → Type 0) (reply : Reply A)
        → Holds G P reply
        → ((a : A) → P a → Q a)
        → Holds G Q reply
    weaken-Holds P Q (got a) h k = k a h
    weaken-Holds P Q (raised e) h k = h

    pub weaken-Yields {ℓ} :
        {A : Type ℓ} (P Q : A → Type 0) (m : Action S.State A)
        → Yields S G P m
        → ((a : A) → P a → Q a)
        → Yields S G Q m
    unfolding Yields
    weaken-Yields P Q m h k s = ((h s).0, weaken-Holds P Q (m s).0 (h s).1 k)

    pub if-Yields {ℓ} :
        {A : Type ℓ} (P : A → Type 0) (test : Bool) (a b : Action S.State A)
        → (test ≡ true → Yields S G P a)
        → (test ≡ false → Yields S G P b)
        → Yields S G P (if test then a else b)
    if-Yields P true a b h k = h refl
    if-Yields P false a b h k = k refl

    -- Steps of which only the exceptions matter.
    abbrev pub Spares {ℓ} : {A : Type ℓ} → Action S.State A → Type 0
    Spares {A = A} m = Yields S G (λ (a : A). Unit) m

    pub option-Yields {ℓ κ} :
        {A : Type ℓ} {B : Type κ} (P : A → Type 0) (m : Option B) (f : B → Action S.State A)
        (a : Action S.State A)
        → ((b : B) → m ≡ some b → Yields S G P (f b))
        → (m ≡ none → Yields S G P a)
        → Yields S G P (elim m [ none ↦ a | some b ↦ f b ])
    option-Yields P none f a h k = k refl
    option-Yields P (some b) f a h k = h b refl

    module _ (G' : BookSnapshot → Type 0) where
      handled-Holds {ℓ} :
          {A : Type ℓ} (P : A → Type 0) (s : S.State) (reached : Reply A × S.State)
          (h : Failure → Action S.State A)
          → S.Step s reached.1 × Holds G P reached.0
          → ((e : Failure) → Raised G e → Yields S G' P (h e))
          → S.Step s (handled reached h).1 × Holds G' P (handled reached h).0
      unfolding Yields
      handled-Holds P s (got a, t) h (step, y) k = (step, y)
      handled-Holds P s (raised e, t) h (step, y) k =
          let (next, good) = k e y t in (S.join s t (h e t).1 step next, good)

      pub catch-Yields {ℓ} :
          {A : Type ℓ} (P : A → Type 0) (m : Action S.State A) (h : Failure → Action S.State A)
          → Yields S G P m
          → ((e : Failure) → Raised G e → Yields S G' P (h e))
          → Yields S G' P (catch m h)
      unfolding Yields catch
      catch-Yields P m h y k s = handled-Holds P s (m s) h (y s) k

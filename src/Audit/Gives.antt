-- ===== src/Audit/Gives.antt =====
-- Steps that return: what they return, and that callbacks which do not raise let them.
use calibre_bookwarden.Prelude.{◌≡◌, refl, String, Bool, true, false, if◌then◌else◌}
use calibre_bookwarden.Package.{BookSnapshot, EvidencePackageV2}
use calibre_bookwarden.Lease.Books.{BookAuditState}
use calibre_bookwarden.Audit.Steps.{
  Failure, Answer, answers, Reply, got, raised, Listener, Action, ◌>>=◌, after, pure, call, handled,
  catch, notify,
}
use calibre_bookwarden.Audit.Yields.{free, Yields, Holds, Raised}

-- No callback raises.
pub record IsQuiet {S : Type 0} (listener : Listener S) : Type 0 where
  pub of_state :
      (key : String) (state : BookAuditState) (s : S)
      → (listener.on_state key state s).0 ≡ answers tt
  pub of_package : (pack : EvidencePackageV2) (s : S) → (listener.on_package pack s).0 ≡ answers tt

-- The reply is a value with the property.
abbrev pub IsGot {ℓ} : {A : Type ℓ} → (A → Type 0) → Reply A → Type 0
IsGot P (got a) = P a
IsGot P (raised e) = ⊥

unfoldable pub Gives {ℓ} : {A : Type ℓ} → (S : Type 0) → (A → Type 0) → Action S A → Type 0
Gives S P m = (s : S) → IsGot P (m s).0

module _ (S : Type 0) where
  pub pure-Gives {ℓ} : {A : Type ℓ} (P : A → Type 0) (a : A) → P a → Gives S P (pure a)
  unfolding Gives pure
  pure-Gives P a h s = h

  pub call-Gives {ℓ} : {A : Type ℓ} (P : A → Type 0) (a : A) → P a → Gives S P (call (answers a))
  unfolding Gives call
  call-Gives P a h s = h

  pub notify-Gives :
      (callback : S → Answer (Unit {0}) × S)
      → ((s : S) → (callback s).0 ≡ answers tt)
      → Gives S (λ (u : Unit {0}). Unit) (notify callback)
  unfolding Gives notify
  notify-Gives callback quiet s = rw (quiet s) tt

  after-IsGot {ℓ κ} :
      {A : Type ℓ} {B : Type κ} (P : A → Type 0) (Q : B → Type 0) (reached : Reply A × S)
      (f : A → Action S B)
      → IsGot P reached.0
      → ((a : A) → P a → Gives S Q (f a))
      → IsGot Q (after reached f).0
  unfolding Gives
  after-IsGot P Q (got a, s) f h k = k a h s
  after-IsGot P Q (raised e, s) f h k = absurd h

  pub >>=-Gives {ℓ κ} :
      {A : Type ℓ} {B : Type κ} (P : A → Type 0) (Q : B → Type 0) (m : Action S A)
      (f : A → Action S B)
      → Gives S P m
      → ((a : A) → P a → Gives S Q (f a))
      → Gives S Q (m >>= f)
  unfolding Gives ◌>>=◌
  >>=-Gives P Q m f h k s = after-IsGot P Q (m s) f (h s) k

  pub if-Gives {ℓ} :
      {A : Type ℓ} (P : A → Type 0) (test : Bool) (a b : Action S A)
      → (test ≡ true → Gives S P a)
      → (test ≡ false → Gives S P b)
      → Gives S P (if test then a else b)
  if-Gives P true a b h k = h refl
  if-Gives P false a b h k = k refl

  handled-IsGot {ℓ} :
      {A : Type ℓ} (G : BookSnapshot → Type 0) (P : A → Type 0) (reached : Reply A × S)
      (h : Failure → Action S A)
      → Holds G P reached.0
      → ((e : Failure) → Raised G e → Gives S P (h e))
      → IsGot P (handled reached h).0
  unfolding Gives
  handled-IsGot G P (got a, s) h y k = y
  handled-IsGot G P (raised e, s) h y k = k e y s

  -- A handler that returns makes a step return.
  pub catch-Gives {ℓ} :
      {A : Type ℓ} (G : BookSnapshot → Type 0) (P : A → Type 0) (m : Action S A)
      (h : Failure → Action S A)
      → Yields (free S) G P m
      → ((e : Failure) → Raised G e → Gives S P (h e))
      → Gives S P (catch m h)
  unfolding Gives Yields catch
  catch-Gives G P m h y k s = handled-IsGot G P (m s) h (y s).1 k

  got-IsGot {ℓ} :
      {A : Type ℓ} (P : A → Type 0) (reached : Reply A × S)
      → IsGot P reached.0
      → (a : A) × (t : S) × (reached ≡ (got a, t))
  got-IsGot P (got a, t) h = (a, t, refl)
  got-IsGot P (raised e, t) h = absurd h

  pub reply-Gives {ℓ} :
      {A : Type ℓ} (P : A → Type 0) (m : Action S A) (s : S)
      → Gives S P m
      → (a : A) × (t : S) × (m s ≡ (got a, t))
  unfolding Gives
  reply-Gives P m s h = got-IsGot P (m s) (h s)

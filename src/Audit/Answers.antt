-- ===== src/Audit/Answers.antt =====
-- Chains of code that answers or raises an error with a text.
use calibre_bookwarden.Prelude.{
  ◌≡◌, refl, String, Bool, true, false, Option, none, some, ◌⊎◌, inl, inr,
}
use calibre_bookwarden.Audit.Steps.{Answer, answers, faults, Fault, error}

infixl 5 ◌>>=◌ ◌>>◌
abbrev pub ◌>>=◌ {ℓ κ} : {A : Type ℓ} {B : Type κ} → Answer A → (A → Answer B) → Answer B
answers a >>= f = f a
faults e >>= f = faults e

abbrev pub ◌>>◌ {ℓ} : {B : Type ℓ} → Answer (Unit {0}) → Answer B → Answer B
m >> k = m >>= λ _. k

-- `if not test: raise ValueError(message)`
abbrev pub ensure : Bool → String → Answer (Unit {0})
ensure true message = answers tt
ensure false message = faults (error message)

-- `if row is None: raise ValueError(message)`
abbrev pub found {ℓ} : {A : Type ℓ} → Option A → String → Answer A
found none message = faults (error message)
found (some row) message = answers row

pub Answer-cases {ℓ} :
    {A : Type ℓ} (m : Answer A) → ((a : A) × (m ≡ answers a)) ⊎ ((e : Fault) × (m ≡ faults e))
Answer-cases (answers a) = inl (a, refl)
Answer-cases (faults e) = inr (e, refl)

-- ===== src/Isbn/Checksum.antt =====
-- The weighted sums behind the checksums, and well-formed ISBNs that differ in one place.
use calibre_bookwarden.Prelude.{
  ℕ, zero, suc, ◌+◌, ◌-◌, ◌*◌, ◌%◌, ◌<◌, ◌≡◌, refl, sym, ap, Bool, true, ◌||◌, List, [], ◌∷◌, ◌++◌,
  ◌==◌, all, length, take, get_or, set, length-take, all-append, all-imp, arith,
}
use native.Mathlib.Nat.{add-zero, zero-add}
use calibre_bookwarden.Isbn.{is_digit, digit, weight_13, sum_13, sum_10, last_value}
use calibre_bookwarden.Isbn.Canonical.{IsIsbn13, IsIsbn10}

pub take-get_or : (n : ℕ) (s : List ℕ) → length s ≡ suc n → s ≡ take n s ++ get_or s n 0 ∷ []
take-get_or n [] h = absurd (omega arith)
take-get_or zero (c ∷ []) h = refl
take-get_or zero (c ∷ d ∷ s) h = absurd (omega arith)
take-get_or (suc n) (c ∷ s) h = ap (λ l. c ∷ l) (take-get_or n s (omega arith))

-- A sum of the characters' values by weights that depend on the place, from place `k` on.
weighted : (ℕ → ℕ) → (ℕ → ℕ) → ℕ → List ℕ → ℕ
weighted v w k [] = 0
weighted v w k (c ∷ s) = v c * w k + weighted v w (k + 1) s

module _ (v w : ℕ → ℕ) where
  weighted-append :
      (k : ℕ) (s : List ℕ) (c : ℕ)
      → weighted v w k (s ++ c ∷ []) ≡ weighted v w k s + v c * w (k + length s)
  unfolding weighted
  weighted-append k [] c = rw (add-zero k) (omega arith)
  weighted-append k (d ∷ s) c =
      let e : k + suc (length s) ≡ k + 1 + length s = omega arith in
      rw e (omega (arith, weighted-append (k + 1) s c))

  -- A change of one character changes the sum by that character's share.
  weighted-set :
      (k : ℕ) (s : List ℕ) (i c : ℕ)
      → i < length s
      → weighted v w k (set s i c) + v (get_or s i 0) * w (k + i)
        ≡ weighted v w k s + v c * w (k + i)
  unfolding weighted
  weighted-set k [] i c h = absurd (omega arith)
  weighted-set k (d ∷ s) zero c h = rw (add-zero k) (omega arith)
  weighted-set k (d ∷ s) (suc i) c h =
      let e : k + suc i ≡ k + 1 + i = omega arith in
      rw e (omega (arith, weighted-set (k + 1) s i c (omega arith)))

sum_13-weighted : (k : ℕ) (s : List ℕ) → sum_13 k s ≡ weighted digit weight_13 k s
unfolding sum_13 weighted
sum_13-weighted k [] = refl
sum_13-weighted k (c ∷ s) = ap (λ n. digit c * weight_13 k + n) (sum_13-weighted (k + 1) s)

sum_10-weighted :
    (k : ℕ) (s : List ℕ)
    → all is_digit s ≡ true
    → sum_10 k s ≡ weighted last_value (λ i. 10 - i) k s
unfolding sum_10 weighted
sum_10-weighted k [] h = refl
sum_10-weighted k (c ∷ s) h = ground (arith, sum_10-weighted (k + 1) s)

get_or-set : (s : List ℕ) (i c : ℕ) → i < length s → get_or (set s i c) i 0 ≡ c
get_or-set [] i c h = absurd (omega arith)
get_or-set (d ∷ s) zero c h = refl
get_or-set (d ∷ s) (suc i) c h = get_or-set s i c (omega arith)

all-get_or :
    (p : ℕ → Bool) (s : List ℕ) (i : ℕ) → all p s ≡ true → i < length s → p (get_or s i 0) ≡ true
all-get_or p [] i h lt = absurd (omega arith)
all-get_or p (c ∷ s) zero h lt = ground arith
all-get_or p (c ∷ s) (suc i) h lt = all-get_or p s i (ground arith) (omega arith)

pub length-set : (s : List ℕ) (i c : ℕ) → length (set s i c) ≡ length s
length-set [] i c = refl
length-set (d ∷ s) zero c = refl
length-set (d ∷ s) (suc i) c = ap suc (length-set s i c)

-- The whole sum of a well-formed ISBN-13 is divisible by ten.
sum-IsIsbn13 : (s : List ℕ) → IsIsbn13 s → weighted digit weight_13 0 s % 10 ≡ 0
sum-IsIsbn13 s h =
    let e = weighted-append digit weight_13 0 (take 12 s) (get_or s 12 0) in
    let n : length (take 12 s) ≡ 12 = length-take 12 s (omega (arith, h.size)) in
    rw (take-get_or 12 s h.size)
      (rw (e, n) (rw (← (sum_13-weighted 0 (take 12 s))) (omega (arith, h.check))))

-- The whole sum of a well-formed ISBN-10 is divisible by eleven.
sum-IsIsbn10 : (s : List ℕ) → IsIsbn10 s → weighted last_value (λ i. 10 - i) 0 s % 11 ≡ 0
sum-IsIsbn10 s h =
    let w : ℕ → ℕ = λ i. 10 - i in
    let e = weighted-append last_value w 0 (take 9 s) (get_or s 9 0) in
    let n : length (take 9 s) ≡ 9 = length-take 9 s (omega (arith, h.size)) in
    rw (take-get_or 9 s h.size)
      (rw (e, n) (rw (← (sum_10-weighted 0 (take 9 s) h.digits)) (omega (arith, h.check))))

-- Equal shares at a weight of 1 or 3 modulo ten belong to equal digits.
cancel_13 :
    (a b p q i : ℕ)
    → a < 10
    → b < 10
    → p % 10 ≡ 0
    → q % 10 ≡ 0
    → q + a * weight_13 i ≡ p + b * weight_13 i
    → a ≡ b
cancel_13 a b p q i ha hb hp hq e = ground arith

cancel_10 :
    (i a b p q : ℕ)
    → i < 10
    → a < 11
    → b < 11
    → p % 11 ≡ 0
    → q % 11 ≡ 0
    → q + a * (10 - i) ≡ p + b * (10 - i)
    → a ≡ b
cancel_10 zero a b p q hi ha hb hp hq e = omega arith
cancel_10 (suc zero) a b p q hi ha hb hp hq e = omega arith
cancel_10 (suc (suc zero)) a b p q hi ha hb hp hq e = omega arith
cancel_10 (suc (suc (suc zero))) a b p q hi ha hb hp hq e = omega arith
cancel_10 (suc (suc (suc (suc zero)))) a b p q hi ha hb hp hq e = omega arith
cancel_10 (suc (suc (suc (suc (suc zero))))) a b p q hi ha hb hp hq e = omega arith
cancel_10 (suc (suc (suc (suc (suc (suc zero)))))) a b p q hi ha hb hp hq e = omega arith
cancel_10 (suc (suc (suc (suc (suc (suc (suc zero))))))) a b p q hi ha hb hp hq e = omega arith
cancel_10 (suc (suc (suc (suc (suc (suc (suc (suc zero)))))))) a b p q hi ha hb hp hq e =
    omega arith
cancel_10 (suc (suc (suc (suc (suc (suc (suc (suc (suc zero))))))))) a b p q hi ha hb hp hq e =
    omega arith
cancel_10 (suc (suc (suc (suc (suc (suc (suc (suc (suc (suc i)))))))))) a b p q hi ha hb hp hq e =
    absurd (omega arith)

digit-lt : (c : ℕ) → is_digit c ≡ true → digit c < 10
digit-lt c h = ground arith

digit-injective : (c d : ℕ) → is_digit c ≡ true → is_digit d ≡ true → digit c ≡ digit d → c ≡ d
digit-injective c d h k e = ground arith

-- Two well-formed ISBN-13 that differ in one place at most are equal.
pub IsIsbn13-set :
    (s : List ℕ) (i c : ℕ) → i < 13 → IsIsbn13 s → IsIsbn13 (set s i c) → c ≡ get_or s i 0
IsIsbn13-set s i c lt h k =
    let n : i < length s = omega (arith, h.size) in
    let d = all-get_or is_digit s i h.digits n in
    let d' : is_digit c ≡ true =
      rw (get_or-set s i c n) at
        (all-get_or is_digit (set s i c) i k.digits (omega (arith, k.size))) in
    digit-injective c (get_or s i 0) d' d (
      sym (
        cancel_13 (digit (get_or s i 0)) (digit c) (weighted digit weight_13 0 s)
          (weighted digit weight_13 0 (set s i c)) i (digit-lt _ d) (digit-lt c d')
          (sum-IsIsbn13 s h) (sum-IsIsbn13 (set s i c) k)
          (rw (zero-add i) at (weighted-set digit weight_13 0 s i c n))))

-- The characters of a well-formed ISBN-10.
abbrev pub is_char_10 : ℕ → Bool
is_char_10 c = is_digit c || c == b'X'

pub chars-IsIsbn10 : (s : List ℕ) → IsIsbn10 s → all is_char_10 s ≡ true
chars-IsIsbn10 s h = rw (take-get_or 9 s h.size) (
    ground (
      arith,
      all-append is_char_10 (take 9 s) (get_or s 9 0 ∷ []),
      h.last,
      all-imp is_digit is_char_10 (take 9 s) (λ c d. ground arith) h.digits,
    ))

pub last_value-injective :
    (c d : ℕ) → is_char_10 c ≡ true → is_char_10 d ≡ true → last_value c ≡ last_value d → c ≡ d
last_value-injective c d h k e = ground arith

pub last_value-lt : (c : ℕ) → is_char_10 c ≡ true → last_value c < 11
last_value-lt c h = ground arith

-- Two well-formed ISBN-10 that differ in one place at most are equal.
pub IsIsbn10-set :
    (s : List ℕ) (i c : ℕ) → i < 10 → IsIsbn10 s → IsIsbn10 (set s i c) → c ≡ get_or s i 0
IsIsbn10-set s i c lt h k =
    let w : ℕ → ℕ = λ j. 10 - j in
    let n : i < length s = omega (arith, h.size) in
    let d = all-get_or is_char_10 s i (chars-IsIsbn10 s h) n in
    let d' : is_char_10 c ≡ true = rw (get_or-set s i c n) at (
      all-get_or is_char_10 (set s i c) i (chars-IsIsbn10 (set s i c) k) (omega (arith, k.size))) in
    last_value-injective c (get_or s i 0) d' d (
      sym (
        cancel_10 i (last_value (get_or s i 0)) (last_value c) (weighted last_value w 0 s)
          (weighted last_value w 0 (set s i c)) lt (last_value-lt _ d) (last_value-lt c d')
          (sum-IsIsbn10 s h) (sum-IsIsbn10 (set s i c) k)
          (rw (zero-add i) at (weighted-set last_value w 0 s i c n))))

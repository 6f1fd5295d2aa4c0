-- ===== src/Isbn/Canonical.antt =====
-- What `canonical_isbn13` returns.
use calibre_bookwarden.Prelude.{
  ℕ, suc, ◌+◌, ◌%◌, ◌<◌, ◌≡◌, ◌↔◌, ◌⊎◌, is_some, inl, inr, refl, sym, ap, true, ◌||◌, some, List,
  [], ◌∷◌, ◌++◌, ◌==◌, all, length, take, get_or, codes, length-append, length-take, take-append_eq,
  get_or-append_eq, all-append, keep-all, all-imp, arith,
}
use calibre_bookwarden.Isbn.{
  is_digit, digit, clean, upper, sum_10, last_value, check_digit, from_isbn10,
  isbn10_checksum_valid, isbn13_checksum_valid, canonical_isbn13,
}

-- The text is a well-formed ISBN-13: thirteen digits, the last being the check digit of the rest.
pub record IsIsbn13 (s : List ℕ) : Type 0 where
  pub size : length s ≡ 13
  pub digits : all is_digit s ≡ true
  pub check : check_digit (take 12 s) ≡ digit (get_or s 12 0)

pub clean_digits : (s : List ℕ) → all is_digit s ≡ true → clean s ≡ s
unfolding clean
clean_digits s h = keep-all _ s (all-imp is_digit _ s (λ c d. ground arith) h)

pub upper_digits : (s : List ℕ) → all is_digit s ≡ true → upper s ≡ s
unfolding upper
upper_digits [] h = refl
upper_digits (c ∷ s) h = ground (arith, upper_digits s)

-- The checksum test accepts a text exactly if its cleaned form is a well-formed ISBN-13.
pub isbn13_checksum_valid_sound : (v : List ℕ) → isbn13_checksum_valid v ≡ true → IsIsbn13 (clean v)
unfolding isbn13_checksum_valid
isbn13_checksum_valid_sound v h = record {
  size = ground arith;
  digits = ground arith;
  check = ground arith;
}

pub valid_of_IsIsbn13 : (s : List ℕ) → IsIsbn13 s → isbn13_checksum_valid s ≡ true
unfolding isbn13_checksum_valid
valid_of_IsIsbn13 s h = rw (clean_digits s h.digits) (ground (arith, h.size, h.digits, h.check))

check_digit-lt : (b : List ℕ) → check_digit b < 10
check_digit-lt b = omega arith

is_digit-check : (k : ℕ) → k < 10 → (is_digit (b'0' + k) ≡ true) × (digit (b'0' + k) ≡ k)
is_digit-check k h = (ground arith, omega arith)

-- A body of twelve digits and its check digit make a well-formed ISBN-13.
pub body-IsIsbn13 :
    (body : List ℕ)
    → length body ≡ 12
    → all is_digit body ≡ true
    → IsIsbn13 (body ++ (b'0' + check_digit body) ∷ [])
body-IsIsbn13 body n d =
    let c = b'0' + check_digit body in
    let (c_digit, c_value) = is_digit-check (check_digit body) (check_digit-lt body) in
    record {
      size = omega (arith, length-append body (c ∷ []), n);
      digits = ground (arith, all-append is_digit body (c ∷ []), d, c_digit);
      check = rw (take-append_eq 12 body (c ∷ []) n, get_or-append_eq 12 body c 0 n) (sym c_value);
    }

-- The text that `canonical_isbn13` works on: only digits and X.
abbrev pub stripped : List ℕ → List ℕ
stripped v = upper (clean v)

pub stripped-fixed :
    (v : List ℕ) → (clean (stripped v) ≡ stripped v) × (upper (stripped v) ≡ stripped v)
unfolding clean upper
stripped-fixed [] = (refl, refl)
stripped-fixed (c ∷ v) = let (ih, ih') = stripped-fixed v in (ground arith, ground arith)

-- The well-formed ISBN-10: nine digits, then a digit or X, with a sum that 11 divides.
pub record IsIsbn10 (s : List ℕ) : Type 0 where
  pub size : length s ≡ 10
  pub digits : all is_digit (take 9 s) ≡ true
  pub last : (is_digit (get_or s 9 0) || get_or s 9 0 == b'X') ≡ true
  pub check : (sum_10 0 (take 9 s) + last_value (get_or s 9 0)) % 11 ≡ 0

-- The two answers of `canonical_isbn13`.
canonical-cases :
    (v : List ℕ) {w : List ℕ}
    → canonical_isbn13 v ≡ some w
    → (isbn10_checksum_valid (stripped v) ≡ true) × (w ≡ from_isbn10 (stripped v))
      ⊎ (isbn13_checksum_valid (stripped v) ≡ true) × (w ≡ stripped v)
unfolding canonical_isbn13
canonical-cases v h = ground arith

pub IsIsbn10-stripped :
    (v : List ℕ) → isbn10_checksum_valid (stripped v) ≡ true → IsIsbn10 (stripped v)
unfolding isbn10_checksum_valid
IsIsbn10-stripped v h =
    let (c, u) = stripped-fixed v in
    record { size = ground arith; digits = ground arith; last = ground arith; check = ground arith }

-- Whatever the function returns is a well-formed ISBN-13.
pub canonical-IsIsbn13 : (v : List ℕ) {w : List ℕ} → canonical_isbn13 v ≡ some w → IsIsbn13 w
canonical-IsIsbn13 v h = elim (canonical-cases v h) [
  | inl (ten, e) ↦ rw e (
      let p = IsIsbn10-stripped v ten in
      body-IsIsbn13 (codes "978" ++ take 9 (stripped v))
        (omega (arith, length-take 9 (stripped v), p.size)) (ground (arith, p.digits)))
  | inr (thirteen, e) ↦
      rw e (rw ((stripped-fixed v).0) at (isbn13_checksum_valid_sound (stripped v) thirteen))
]

-- A canonical ISBN-13 is its own canonical form.
pub canonical-canonical :
    (v : List ℕ) {w : List ℕ} → canonical_isbn13 v ≡ some w → canonical_isbn13 w ≡ some w
unfolding canonical_isbn13
canonical-canonical v {w} h =
    let p = canonical-IsIsbn13 v h in
    rw (clean_digits w p.digits, upper_digits w p.digits)
      (ground (arith, p.size, valid_of_IsIsbn13 w p))

pub valid_10-stripped : (v : List ℕ) → isbn10_checksum_valid (stripped v) ≡ isbn10_checksum_valid v
unfolding isbn10_checksum_valid
valid_10-stripped v = let (c, u) = stripped-fixed v in rw (c, u)

digits-upper : (s : List ℕ) → all is_digit (upper s) ≡ all is_digit s
unfolding upper
digits-upper [] = refl
digits-upper (c ∷ s) = ground (arith, digits-upper s)

pub length-upper : (s : List ℕ) → length (upper s) ≡ length s
unfolding upper
length-upper [] = refl
length-upper (c ∷ s) = ap suc (length-upper s)

valid_13-stripped : (v : List ℕ) → isbn13_checksum_valid (stripped v) ≡ isbn13_checksum_valid v
unfolding isbn13_checksum_valid
valid_13-stripped v =
    let s = clean v in
    rw ((stripped-fixed v).0) (ground (arith, digits-upper s, length-upper s, upper_digits s))

size_10 : (v : List ℕ) → isbn10_checksum_valid (stripped v) ≡ true → length (stripped v) ≡ 10
size_10 v h = (IsIsbn10-stripped v h).size

size_13 : (v : List ℕ) → isbn13_checksum_valid (stripped v) ≡ true → length (stripped v) ≡ 13
size_13 v h = rw ((stripped-fixed v).0) at ((isbn13_checksum_valid_sound (stripped v) h).size)

-- The function has an answer exactly for the texts that one of the two checksum tests accepts.
pub canonical_iff :
    (v : List ℕ)
    → (is_some (canonical_isbn13 v) ≡ true)
      ↔ ((isbn10_checksum_valid v ≡ true) ⊎ (isbn13_checksum_valid v ≡ true))
unfolding canonical_isbn13
canonical_iff v = ground (arith, valid_10-stripped v, valid_13-stripped v, size_10 v, size_13 v)

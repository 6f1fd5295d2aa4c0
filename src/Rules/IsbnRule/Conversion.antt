-- ===== src/Rules/IsbnRule/Conversion.antt =====
-- The cross-format check of `verify_isbn` against `canonical_isbn13`.
use calibre_bookwarden.Prelude.{
  ℕ, suc, ◌+◌, ◌≡◌, refl, ap, true, false, Option, some, [], ◌∷◌, ◌++◌, length, take, get_or, all,
  codes, is_nonempty, text_eq, text_eq_iff, Bool-cases, inl, inr, keep-all, all-append, all-imp,
  length-take, arith,
}
use calibre_bookwarden.Isbn.{is_digit, digit, sum_13, from_isbn10}
use calibre_bookwarden.Isbn.Canonical.{IsIsbn13, body-IsIsbn13, valid_of_IsIsbn13}
use calibre_bookwarden.Isbn.Checksum.{take-get_or, is_char_10}
use calibre_bookwarden.Verdict.{Text, text, confirmed}
use calibre_bookwarden.Rules.{Python, drop_separators, field_verdict}
use calibre_bookwarden.Rules.IsbnRule.{
  isbn_is_valid, is_isbn10, decimal_sum, isbn13_from_isbn10, converts_to, cross_format, clean_value,
  compare_isbn, verify_isbn,
}

-- Ten characters as of an ISBN-10: nine digits, then a digit or X. The check digit may be wrong.
pub record LooksLikeIsbn10 (s : Text) : Type 0 where
  pub size : length s ≡ 10
  pub digits : all is_digit (take 9 s) ≡ true
  pub last : is_char_10 (get_or s 9 0) ≡ true

pub drop_chars : (s : Text) → all is_char_10 s ≡ true → drop_separators s ≡ s
unfolding drop_separators
drop_chars s h = keep-all _ s (all-imp is_char_10 _ s (λ c d. ground arith) h)

chars_10 : (s : Text) → LooksLikeIsbn10 s → all is_char_10 s ≡ true
chars_10 s h = rw (take-get_or 9 s h.size) (
    ground (
      arith,
      all-append is_char_10 (take 9 s) (get_or s 9 0 ∷ []),
      h.last,
      all-imp is_digit is_char_10 (take 9 s) (λ c d. ground arith) h.digits,
    ))

converted-IsIsbn13 : (s : Text) → LooksLikeIsbn10 s → IsIsbn13 (from_isbn10 s)
converted-IsIsbn13 s h =
    body-IsIsbn13 (codes "978" ++ take 9 s) (omega (arith, length-take 9 s, h.size))
      (ground (arith, h.digits))

pub drop-IsIsbn13 : (w : Text) → IsIsbn13 w → drop_separators w ≡ w
drop-IsIsbn13 w h = drop_chars w (all-imp is_digit is_char_10 w (λ c d. ground arith) h.digits)

pub valid-IsIsbn13 : (w : Text) → IsIsbn13 w → isbn_is_valid w ≡ true
unfolding isbn_is_valid
valid-IsIsbn13 w h = rw (drop-IsIsbn13 w h) (ground (arith, h.size, valid_of_IsIsbn13 w h))

module _ {F : Type 0} (py : Python F)
    (decimal_digit : (c : ℕ) → is_digit c ≡ true → py.decimal c ≡ some (digit c)) where
  pub decimal_sum-digits :
      (k : ℕ) (s : Text) → all is_digit s ≡ true → decimal_sum py k s ≡ some (sum_13 k s)
  unfolding decimal_sum sum_13
  decimal_sum-digits k [] h = refl
  decimal_sum-digits k (c ∷ s) h = ground (arith, decimal_digit c, decimal_sum-digits (k + 1) s)

  converts : (s : Text) → LooksLikeIsbn10 s → converts_to py s (from_isbn10 s) ≡ some true
  unfolding converts_to isbn13_from_isbn10 decimal_sum
  converts s h =
      rw (decimal_sum-digits 0 (codes "978" ++ take 9 s) (ground (arith, h.digits)))
        (ap some ((text_eq_iff (from_isbn10 s) (from_isbn10 s)).1 refl))

  pub differ : (s w : Text) → length s ≡ 10 → length w ≡ 13 → text_eq s w ≡ false
  differ s w m n = elim (Bool-cases (text_eq s w)) [
    | inl e ↦ absurd (omega (arith, ap (λ (t : Text). length t) ((text_eq_iff s w).0 e)))
    | inr e ↦ e
  ]

  nonempty-length : (s : Text) (n : ℕ) → length s ≡ suc n → is_nonempty s ≡ true
  nonempty-length [] n h = absurd (omega arith)
  nonempty-length (c ∷ s) n h = refl

  compare-converts :
      (s w : Text) (p : Option Text)
      → LooksLikeIsbn10 s
      → IsIsbn13 w
      → converts_to py s w ≡ some true
      → compare_isbn py s w p ≡ some (field_verdict "isbn" (text s) (text w) confirmed 90)
  unfolding compare_isbn cross_format is_isbn10
  compare-converts s w p h k e = ground (
    arith,
    drop_chars s (chars_10 s h),
    h.size,
    valid-IsIsbn13 w k,
    k.size,
    differ s w h.size k.size,
  )

  verify-converts :
      (s w : Text) (p : Option Text)
      → LooksLikeIsbn10 s
      → IsIsbn13 w
      → converts_to py s w ≡ some true
      → verify_isbn py (text s) (text w) p
        ≡ some (field_verdict "isbn" (text s) (text w) confirmed 90)
  unfolding verify_isbn clean_value
  verify-converts s w p h k e = ground (
    arith,
    drop_chars s (chars_10 s h),
    drop-IsIsbn13 w k,
    nonempty-length s 9 h.size,
    nonempty-length w 12 k.size,
    compare-converts s w p h k e,
  )

  -- If int(c) of an ASCII digit is its value, a declared text of nine digits and a digit or X and
  -- the observed ISBN-13 that it converts to are confirmed with confidence 90, whatever the tenth
  -- character is: the check digit of the ISBN-10 is not looked at.
  pub verify_isbn-unchecked :
      (s : Text) (p : Option Text)
      → LooksLikeIsbn10 s
      → verify_isbn py (text s) (text (from_isbn10 s)) p
        ≡ some (field_verdict "isbn" (text s) (text (from_isbn10 s)) confirmed 90)
  verify_isbn-unchecked s p h =
      verify-converts s (from_isbn10 s) p h (converted-IsIsbn13 s h) (converts s h)

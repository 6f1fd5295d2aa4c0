-- ===== src/Rules/IsbnRule/Forms.antt =====
-- Well-formed ISBNs in `canonical_isbn13` and in the tests of `verify_isbn`.
use calibre_bookwarden.Prelude.{
  ℕ, ◌+◌, ◌≡◌, ◌⊎◌, refl, sym, ap, ◌∙◌, true, some, [], ◌∷◌, ◌++◌, take, get_or, length-take,
  take-append_eq, all, is_nonempty, inl, inr, ◌%◌, ◌<◌, arith,
}
use calibre_bookwarden.Isbn.{
  clean, upper, sum_10, last_value, from_isbn10, canonical_isbn13, isbn10_checksum_valid,
}
use calibre_bookwarden.Isbn.Canonical.{
  IsIsbn10, IsIsbn13, valid_of_IsIsbn13, clean_digits, upper_digits,
}
use calibre_bookwarden.Isbn.Checksum.{
  take-get_or, is_char_10, chars-IsIsbn10, last_value-lt, last_value-injective,
}
use calibre_bookwarden.Verdict.{Text}
use calibre_bookwarden.Rules.{drop_separators}
use calibre_bookwarden.Rules.IsbnRule.{isbn_is_valid}
use calibre_bookwarden.Rules.IsbnRule.Conversion.{
  LooksLikeIsbn10, drop_chars, drop-IsIsbn13, valid-IsIsbn13,
}

looks-IsIsbn10 : (s : Text) → IsIsbn10 s → LooksLikeIsbn10 s
looks-IsIsbn10 s h = record { size = h.size; digits = h.digits; last = h.last }

-- A well-formed ISBN-10 is left as it is by `clean` and by `upper`.
fixed_10 : (s : Text) → all is_char_10 s ≡ true → (clean s ≡ s) × (upper s ≡ s)
unfolding clean upper
fixed_10 [] h = (refl, refl)
fixed_10 (c ∷ s) h =
    let (f, g) = fixed_10 s (ground (arith, h)) in (ground (arith, h, f), ground (arith, h, g))

pub valid_of_IsIsbn10 : (s : Text) → IsIsbn10 s → isbn10_checksum_valid s ≡ true
unfolding isbn10_checksum_valid
valid_of_IsIsbn10 s h =
    let (f, g) = fixed_10 s (chars-IsIsbn10 s h) in
    rw (f, g) (ground (arith, h.size, h.digits, h.last, h.check))

pub canonical_10 : (s : Text) → IsIsbn10 s → canonical_isbn13 s ≡ some (from_isbn10 s)
unfolding canonical_isbn13
canonical_10 s h =
    let (f, g) = fixed_10 s (chars-IsIsbn10 s h) in
    rw (f, g) (ground (arith, h.size, valid_of_IsIsbn10 s h))

pub canonical_13 : (s : Text) → IsIsbn13 s → canonical_isbn13 s ≡ some s
unfolding canonical_isbn13
canonical_13 s h =
    rw (clean_digits s h.digits, upper_digits s h.digits)
      (ground (arith, h.size, valid_of_IsIsbn13 s h))

-- The nine digits determine the check digit.
last_10 : (n a b : ℕ) → a < 11 → b < 11 → (n + a) % 11 ≡ 0 → (n + b) % 11 ≡ 0 → a ≡ b
last_10 n a b ha hb h k = omega arith

-- The nine digits of a converted ISBN-10.
abbrev body_of : Text → Text
body_of (a ∷ b ∷ c ∷ s) = take 9 s
body_of _ = []

body-from_isbn10 : (s : Text) → IsIsbn10 s → body_of (from_isbn10 s) ≡ take 9 s
body-from_isbn10 s h = take-append_eq 9 (take 9 s) _ (length-take 9 s (omega (arith, h.size)))

-- Two well-formed ISBN-10 that convert to the same ISBN-13 are equal.
pub from_isbn10-injective :
    (s t : Text) → IsIsbn10 s → IsIsbn10 t → from_isbn10 s ≡ from_isbn10 t → s ≡ t
from_isbn10-injective s t h k e =
    let body : take 9 s ≡ take 9 t =
      sym (body-from_isbn10 s h) ∙ (ap body_of e ∙ body-from_isbn10 t k) in
    let value : last_value (get_or s 9 0) ≡ last_value (get_or t 9 0) =
      last_10 (sum_10 0 (take 9 t)) (last_value (get_or s 9 0)) (last_value (get_or t 9 0))
        (last_value-lt _ h.last) (last_value-lt _ k.last) (rw body at h.check) k.check in
    let last = last_value-injective (get_or s 9 0) (get_or t 9 0) h.last k.last value in
    take-get_or 9 s h.size
    ∙ (ap (λ l. l ++ get_or s 9 0 ∷ []) body
        ∙ (ap (λ c. take 9 t ++ c ∷ []) last ∙ sym (take-get_or 9 t k.size)))

pub some-injective : {s t : Text} → some s ≡ some t → s ≡ t
some-injective e = ground (arith, e)

-- A text that is a well-formed ISBN.
abbrev pub IsIsbn : Text → Type 0
IsIsbn s = IsIsbn10 s ⊎ IsIsbn13 s

pub drop-IsIsbn : (s : Text) → IsIsbn s → drop_separators s ≡ s
drop-IsIsbn s (inl h) = drop_chars s (chars-IsIsbn10 s h)
drop-IsIsbn s (inr h) = drop-IsIsbn13 s h

pub valid-IsIsbn : (s : Text) → IsIsbn s → isbn_is_valid s ≡ true
unfolding isbn_is_valid
valid-IsIsbn s (inl h) =
    rw (drop_chars s (chars-IsIsbn10 s h)) (ground (arith, h.size, valid_of_IsIsbn10 s h))
valid-IsIsbn s (inr h) = valid-IsIsbn13 s h

pub nonempty-IsIsbn : (s : Text) → IsIsbn s → is_nonempty s ≡ true
nonempty-IsIsbn [] (inl h) = absurd (omega (arith, h.size))
nonempty-IsIsbn [] (inr h) = absurd (omega (arith, h.size))
nonempty-IsIsbn (c ∷ s) h = refl

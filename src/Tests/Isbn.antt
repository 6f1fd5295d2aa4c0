-- ===== src/Tests/Isbn.antt =====
-- ISBNs of one book in both forms.
use calibre_bookwarden.Prelude.{
  ℕ, ◌≡◌, ◌↔◌, ◌⊎◌, refl, is_some, true, some, List, codes, get_or, set, arith,
}
use calibre_bookwarden.Isbn.{
  clean, upper, upper_char, sum_10, sum_13, isbn10_checksum_valid, isbn13_checksum_valid,
  canonical_isbn13,
}
use calibre_bookwarden.Isbn.Canonical.{
  IsIsbn13, stripped, canonical-IsIsbn13, canonical-canonical, canonical_iff,
}
use calibre_bookwarden.Isbn.Errors.{isbn13_checksum_valid-set, isbn10_checksum_valid-set}

abbrev ten : List ℕ
ten = codes "0-306-40615-2"

abbrev thirteen : List ℕ
thirteen = codes "9780306406157"

run_canonical : canonical_isbn13 ten ≡ some thirteen
unfolding canonical_isbn13 isbn10_checksum_valid isbn13_checksum_valid sum_10 sum_13 upper clean
run_canonical = refl

canonical-IsIsbn13_example : IsIsbn13 thirteen
canonical-IsIsbn13_example = canonical-IsIsbn13 ten run_canonical

canonical-canonical_example : canonical_isbn13 thirteen ≡ some thirteen
canonical-canonical_example = canonical-canonical ten run_canonical

canonical_iff_example :
    (is_some (canonical_isbn13 ten) ≡ true)
    ↔ ((isbn10_checksum_valid ten ≡ true) ⊎ (isbn13_checksum_valid ten ≡ true))
canonical_iff_example = canonical_iff ten

thirteen_accepted :
    (isbn13_checksum_valid thirteen ≡ true)
    × (isbn13_checksum_valid (set (clean thirteen) 4 b'3') ≡ true)
unfolding isbn13_checksum_valid sum_13 clean
thirteen_accepted = (refl, refl)

isbn13_checksum_valid-set_example : b'3' ≡ get_or (clean thirteen) 4 0
isbn13_checksum_valid-set_example =
    isbn13_checksum_valid-set thirteen 4 b'3' (omega arith) thirteen_accepted.0 thirteen_accepted.1

abbrev with_x : List ℕ
with_x = codes "0-8044-2957-x"

with_x_accepted :
    (isbn10_checksum_valid with_x ≡ true)
    × (isbn10_checksum_valid (set (stripped with_x) 9 b'x') ≡ true)
unfolding isbn10_checksum_valid sum_10 clean upper
with_x_accepted = (refl, refl)

isbn10_checksum_valid-set_example : upper_char b'x' ≡ get_or (stripped with_x) 9 0
isbn10_checksum_valid-set_example =
    isbn10_checksum_valid-set with_x 9 b'x' (omega arith) with_x_accepted.0 with_x_accepted.1

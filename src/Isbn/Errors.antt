-- ===== src/Isbn/Errors.antt =====
-- The checksum tests catch every error in a single character.
use calibre_bookwarden.Prelude.{
  ◌≤◌, Bool-cases, inl, inr, ◌∙◌, ℕ, zero, suc, ◌<◌, ◌≡◌, refl, ap, true, ◌||◌, List, [], ◌∷◌, ◌==◌,
  length, get_or, set, arith,
}
use calibre_bookwarden.Isbn.{
  is_digit, clean, upper, upper_char, isbn10_checksum_valid, isbn13_checksum_valid,
}
use calibre_bookwarden.Isbn.Canonical.{
  isbn13_checksum_valid_sound, stripped, stripped-fixed, IsIsbn10-stripped, valid_10-stripped,
  length-upper,
}
use calibre_bookwarden.Isbn.Checksum.{IsIsbn13-set, IsIsbn10-set, length-set}

-- A text that `clean` leaves as long as it was is left as it is.
length-clean : (s : List ℕ) → length (clean s) ≤ length s
unfolding clean
length-clean [] = omega arith
length-clean (c ∷ s) =
    let rest = length-clean s in
    elim (Bool-cases (is_digit c || (c == b'X' || c == b'x'))) [
      | inl e ↦ rw e (omega (arith, rest))
      | inr e ↦ rw e (omega (arith, rest))
    ]

clean_all : (s : List ℕ) → length (clean s) ≡ length s → clean s ≡ s
unfolding clean
clean_all [] h = refl
clean_all (c ∷ s) h = elim (Bool-cases (is_digit c || (c == b'X' || c == b'x'))) [
  | inl e ↦ rw e (ap (λ l. c ∷ l) (clean_all s (ground (arith, h, e))))
  | inr e ↦ absurd (ground (arith, h, e, length-clean s))
]

-- `isbn13_checksum_valid` catches every error in a single character: where it accepts a text, and
-- accepts its cleaned form with one of the thirteen characters replaced, the new character is the
-- old one.
pub isbn13_checksum_valid-set :
    (v : List ℕ) (i c : ℕ)
    → i < 13
    → isbn13_checksum_valid v ≡ true
    → isbn13_checksum_valid (set (clean v) i c) ≡ true
    → c ≡ get_or (clean v) i 0
isbn13_checksum_valid-set v i c lt h k =
    let first = isbn13_checksum_valid_sound v h in
    let second = isbn13_checksum_valid_sound (set (clean v) i c) k in
    let whole =
      clean_all (set (clean v) i c)
        (omega (arith, length-set (clean v) i c, first.size, second.size)) in
    IsIsbn13-set (clean v) i c lt first (rw whole at second)

upper-set : (s : List ℕ) (i c : ℕ) → upper (set s i c) ≡ set (upper s) i (upper_char c)
unfolding upper
upper-set [] i c = refl
upper-set (d ∷ s) zero c = refl
upper-set (d ∷ s) (suc i) c = ap (λ l. upper_char d ∷ l) (upper-set s i c)

-- `isbn10_checksum_valid` catches every error in a single character, up to the case of `x`: where it
-- accepts a text, and accepts its cleaned form in upper case with one of the ten characters replaced,
-- the new character in upper case is the old one.
pub isbn10_checksum_valid-set :
    (v : List ℕ) (i c : ℕ)
    → i < 10
    → isbn10_checksum_valid v ≡ true
    → isbn10_checksum_valid (set (stripped v) i c) ≡ true
    → upper_char c ≡ get_or (stripped v) i 0
isbn10_checksum_valid-set v i c lt h k =
    let s = stripped v in
    let w = set s i c in
    let first = IsIsbn10-stripped v (valid_10-stripped v ∙ h) in
    let second = IsIsbn10-stripped w (valid_10-stripped w ∙ k) in
    let whole =
      clean_all w
        (omega (arith, length-set s i c, length-upper (clean w), first.size, second.size)) in
    let same : stripped w ≡ set s i (upper_char c) =
      ap upper whole
      ∙ (upper-set s i c ∙ ap (λ l. set l i (upper_char c)) ((stripped-fixed v).1)) in
    IsIsbn10-set s i (upper_char c) lt first (rw same at second)

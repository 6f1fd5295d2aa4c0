-- ===== src/Tests/Rules.antt =====
-- The rules with a Python whose floats are ℕ.
use calibre_bookwarden.Prelude.{
  ◌≢◌, ◌⊎◌, inl, inr, Option, List, ℕ, ◌≡◌, refl, true, false, not, none, some, [], ◌∷◌, ◌==◌, leb,
  length, codes, strip, if◌then◌else◌, arith,
}
use calibre_bookwarden.Prelude.Int.{pos}
use calibre_bookwarden.Isbn.{
  is_digit, digit, clean, upper, sum_10, sum_13, isbn10_checksum_valid, isbn13_checksum_valid,
  from_isbn10, canonical_isbn13,
}
use calibre_bookwarden.Verdict.{Text, text, VerdictKind, confirmed, mismatch, FieldVerdict}
use calibre_bookwarden.Rules.IsbnRule.Forms.{IsIsbn}
use calibre_bookwarden.Rules.IsbnRule.Verdicts.{verify_isbn-canonical}
use calibre_bookwarden.Rules.{Python, drop_separators, field_verdict}
use calibre_bookwarden.Rules.IsbnRule.{
  isbn_is_valid, is_isbn10, decimal_sum, isbn13_from_isbn10, converts_to, cross_format, clean_value,
  compare_isbn, verify_isbn,
}
use calibre_bookwarden.Rules.IsbnRule.Conversion.{LooksLikeIsbn10, verify_isbn-unchecked}
use calibre_bookwarden.Rules.Publication.{verify_language}
use calibre_bookwarden.Rules.Shape.{language, apply_rule, IsSound, apply_rule-IsSound}

abbrev python : Python ℕ
python = record {
  float_of_text = λ s. some (length s);
  show_number = λ x. x ∷ [];
  show_list = λ l. codes "[]";
  nonzero = λ x. not (x == 0);
  round = λ x. some (pos x);
  within_cent = λ x y. x == y;
  lower = λ s. s;
  nfkd = λ s. s;
  is_combining = λ c. false;
  is_word = λ c. leb b'0' c;
  strip_edition_tags = λ s. s;
  matching = λ s t. 0;
  decimal = λ c. if is_digit c then some (digit c) else none;
}

python-decimal : (c : ℕ) → is_digit c ≡ true → python.decimal c ≡ some (digit c)
python-decimal c h = ground arith

-- The ISBN-10 has the check digit 2, not 3.
abbrev wrong_ten : Text
wrong_ten = codes "0306406153"

wrong_ten-LooksLikeIsbn10 : LooksLikeIsbn10 wrong_ten
wrong_ten-LooksLikeIsbn10 = record { size = refl; digits = refl; last = refl }

verify_isbn-unchecked_example :
    verify_isbn python (text wrong_ten) (text (from_isbn10 wrong_ten)) none
    ≡ some (field_verdict "isbn" (text wrong_ten) (text (from_isbn10 wrong_ten)) confirmed 90)
verify_isbn-unchecked_example =
    verify_isbn-unchecked python python-decimal wrong_ten none wrong_ten-LooksLikeIsbn10

abbrev same : FieldVerdict ℕ
same = field_verdict "isbn" (text (codes "0306406152")) (text (codes "9780306406157")) confirmed 90

run_verify_isbn :
    verify_isbn python (text (codes "0-306-40615-2")) (text (codes "978-0306406157")) none
    ≡ some same
unfolding verify_isbn compare_isbn cross_format converts_to isbn13_from_isbn10 decimal_sum is_isbn10
    isbn_is_valid clean_value drop_separators isbn10_checksum_valid isbn13_checksum_valid sum_10
    sum_13 upper clean
run_verify_isbn = refl

abbrev ten : List ℕ
ten = codes "0306406152"

abbrev thirteen : List ℕ
thirteen = codes "9780306406157"

ten-IsIsbn : IsIsbn ten
unfolding sum_10
ten-IsIsbn = inl (record { size = refl; digits = refl; last = refl; check = refl })

thirteen-IsIsbn : IsIsbn thirteen
unfolding sum_13
thirteen-IsIsbn = inr (record { size = refl; digits = refl; check = refl })

verify_isbn-canonical_example :
    (fv : FieldVerdict ℕ) × (verify_isbn python (text ten) (text thirteen) none ≡ some fv)
    × (((canonical_isbn13 ten ≡ canonical_isbn13 thirteen)
          × (fv.verdict ≡ confirmed)
          × (fv.requires_review ≡ false))
        ⊎ ((canonical_isbn13 ten ≢ canonical_isbn13 thirteen)
            × (fv.verdict ≡ mismatch)
            × (fv.requires_review ≡ true)))
verify_isbn-canonical_example =
    verify_isbn-canonical python python-decimal ten thirteen none ten-IsIsbn thirteen-IsIsbn

abbrev verdict_of : Option (FieldVerdict ℕ) → Option VerdictKind
verdict_of none = none
verdict_of (some fv) = some fv.verdict

-- The two texts differ in the case of the check digit alone: the rule takes them for different ISBNs.
run_lower_case :
    (verdict_of (verify_isbn python (text (codes "080442957x")) (text (codes "080442957X")) none)
      ≡ some mismatch)
    × (canonical_isbn13 (codes "080442957x") ≡ canonical_isbn13 (codes "080442957X"))
unfolding verify_isbn compare_isbn cross_format converts_to isbn13_from_isbn10 decimal_sum is_isbn10
    isbn_is_valid clean_value drop_separators isbn10_checksum_valid isbn13_checksum_valid sum_10
    sum_13 upper clean canonical_isbn13
run_lower_case = (refl, refl)

abbrev other_language : FieldVerdict ℕ
other_language = field_verdict "language" (text (codes "eng")) (text (codes "ita")) mismatch 90

run_language :
    apply_rule python language (text (codes "eng")) (text (codes "ita")) none false
    ≡ some other_language
unfolding apply_rule verify_language strip
run_language = refl

apply_rule-IsSound_example : IsSound other_language
apply_rule-IsSound_example =
    apply_rule-IsSound python language (text (codes "eng")) (text (codes "ita")) none false
      (λ e. refl) run_language

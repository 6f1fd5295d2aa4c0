-- ===== src/Rules/IsbnRule/Verdicts.antt =====
-- `verify_isbn` on well-formed ISBNs against `canonical_isbn13`.
use calibre_bookwarden.Prelude.{
  Bool, ◌||◌, not, if◌then◌else◌, ℕ, ◌≡◌, ◌≢◌, ◌⊎◌, refl, sym, ap, ◌∙◌, true, false, Option, some,
  ◌++◌, take, codes, text_eq, text_eq_iff, Bool-cases, inl, inr, arith,
}
use calibre_bookwarden.Isbn.{is_digit, digit, from_isbn10, canonical_isbn13}
use calibre_bookwarden.Verdict.{Text, text, VerdictKind, confirmed, mismatch, FieldVerdict}
use calibre_bookwarden.Rules.{Python, field_verdict}
use calibre_bookwarden.Rules.IsbnRule.{
  isbn_is_valid, is_isbn10, converts_to, isbn13_from_isbn10, decimal_sum, cross_format, clean_value,
  compare_isbn, isbn_conflict, verify_isbn,
}
use calibre_bookwarden.Rules.IsbnRule.Conversion.{decimal_sum-digits, differ}
use calibre_bookwarden.Rules.IsbnRule.Forms.{
  IsIsbn, canonical_10, canonical_13, from_isbn10-injective, some-injective, drop-IsIsbn,
  valid-IsIsbn, nonempty-IsIsbn,
}

module _ {F : Type 0} (py : Python F)
    (decimal_digit : (c : ℕ) → is_digit c ≡ true → py.decimal c ≡ some (digit c)) where
  -- What the cross-format check says of two well-formed ISBNs.
  abbrev crossed : (a b : Text) → IsIsbn a → IsIsbn b → Bool
  crossed a b (inl h) (inr k) = text_eq (from_isbn10 a) b
  crossed a b _ _ = false

  cross-IsIsbn :
      (a b : Text) (h : IsIsbn a) (k : IsIsbn b)
      → cross_format py a b (isbn_is_valid b) ≡ some (crossed a b h k)
  unfolding cross_format is_isbn10 converts_to isbn13_from_isbn10 decimal_sum
  cross-IsIsbn a b (inl h) (inr k) =
      rw (valid-IsIsbn b (inr k), drop-IsIsbn a (inl h))
        (rw (h.size, k.size)
          (rw
            (decimal_sum-digits py decimal_digit 0 (codes "978" ++ take 9 a)
              (ground (arith, h.digits)))
            refl))
  cross-IsIsbn a b (inl h) (inl k) = rw (k.size, drop-IsIsbn a (inl h), h.size) refl
  cross-IsIsbn a b (inr h) k = rw (drop-IsIsbn a (inr h)) (rw (h.size) refl)

  -- The tests of the rule for a confirmation.
  abbrev confirms : (d o : Text) → IsIsbn d → IsIsbn o → Bool
  confirms d o h k = text_eq d o || (crossed d o h k || crossed o d k h)

  confirms-canonical :
      (d o : Text) (h : IsIsbn d) (k : IsIsbn o)
      → confirms d o h k ≡ true
      → canonical_isbn13 d ≡ canonical_isbn13 o
  confirms-canonical d o (inl h) (inl k) c =
      ap canonical_isbn13 ((text_eq_iff d o).0 (ground (arith, c)))
  confirms-canonical d o (inr h) (inr k) c =
      ap canonical_isbn13 ((text_eq_iff d o).0 (ground (arith, c)))
  confirms-canonical d o (inl h) (inr k) c =
      let n = differ py decimal_digit d o h.size k.size in
      canonical_10 d h
      ∙ (ap some ((text_eq_iff (from_isbn10 d) o).0 (ground (arith, c, n)))
          ∙ sym (canonical_13 o k))
  confirms-canonical d o (inr h) (inl k) c =
      let n = differ py decimal_digit o d k.size h.size in
      let e : d ≡ from_isbn10 o = sym (
        (text_eq_iff (from_isbn10 o) d).0
          (ground (arith, c, n, text_eq_iff d o, text_eq_iff o d))) in
      canonical_13 d h ∙ (ap some e ∙ sym (canonical_10 o k))

  canonical-confirms :
      (d o : Text) (h : IsIsbn d) (k : IsIsbn o)
      → canonical_isbn13 d ≡ canonical_isbn13 o
      → confirms d o h k ≡ true
  canonical-confirms d o (inl h) (inl k) e =
      let same =
        from_isbn10-injective d o h k
          (some-injective (sym (canonical_10 d h) ∙ (e ∙ canonical_10 o k))) in
      ground (arith, (text_eq_iff d o).1 same)
  canonical-confirms d o (inr h) (inr k) e =
      let same = some-injective (sym (canonical_13 d h) ∙ (e ∙ canonical_13 o k)) in
      ground (arith, (text_eq_iff d o).1 same)
  canonical-confirms d o (inl h) (inr k) e =
      let same = some-injective (sym (canonical_10 d h) ∙ (e ∙ canonical_13 o k)) in
      ground (arith, (text_eq_iff (from_isbn10 d) o).1 same)
  canonical-confirms d o (inr h) (inl k) e =
      let same = some-injective (sym (canonical_13 d h) ∙ (e ∙ canonical_10 o k)) in
      ground (arith, (text_eq_iff (from_isbn10 o) d).1 (sym same))

  -- The verdict of the comparison, by the tests.
  compare-confirms :
      (d o : Text) (h : IsIsbn d) (k : IsIsbn o) (p : Option Text)
      → (fv : FieldVerdict F) × (compare_isbn py d o p ≡ some fv)
        × (fv.verdict ≡ (if confirms d o h k then confirmed else mismatch))
        × (fv.requires_review ≡ not (confirms d o h k))
  unfolding compare_isbn
  compare-confirms d o h k p =
      let result =
        λ (kind : VerdictKind) (n : ℕ). field_verdict {F = F} "isbn" (text d) (text o) kind n in
      let u = valid-IsIsbn d h in
      let v = valid-IsIsbn o k in
      let there = cross-IsIsbn d o h k in
      let back = cross-IsIsbn o d k h in
      elim (Bool-cases (text_eq d o)) [
        | inl e ↦ (result confirmed 99, ground (arith, u, v, e), rw e refl, rw e refl)
        | inr e ↦ elim (Bool-cases (crossed d o h k)) [
          | inl x ↦ (
            result confirmed 90,
            ground (arith, u, v, e, there, x),
            rw (e, x) refl,
            rw (e, x) refl,
          )
          | inr x ↦ elim (Bool-cases (crossed o d k h)) [
            | inl y ↦ (
              result confirmed 90,
              ground (arith, u, v, e, there, x, back, y),
              rw (e, x, y) refl,
              rw (e, x, y) refl,
            )
            | inr y ↦ (
              isbn_conflict py d o (isbn_is_valid d) (isbn_is_valid o) p,
              ground (arith, u, v, e, there, x, back, y),
              rw (e, x, y, u, v) refl,
              rw (e, x, y, u, v) refl,
            )
          ]
        ]
      ]

  -- If int(c) of an ASCII digit is its value, the rule gives a verdict on any two well-formed ISBNs,
  -- each an ISBN-10 or an ISBN-13 without separators: `confirmed` without a review if
  -- `canonical_isbn13` makes the same ISBN-13 of both, and otherwise a mismatch held for review.
  pub verify_isbn-canonical :
      (d o : Text) (p : Option Text)
      → IsIsbn d
      → IsIsbn o
      → (fv : FieldVerdict F) × (verify_isbn py (text d) (text o) p ≡ some fv)
        × (((canonical_isbn13 d ≡ canonical_isbn13 o)
              × (fv.verdict ≡ confirmed)
              × (fv.requires_review ≡ false))
            ⊎ ((canonical_isbn13 d ≢ canonical_isbn13 o)
                × (fv.verdict ≡ mismatch)
                × (fv.requires_review ≡ true)))
  unfolding verify_isbn clean_value
  verify_isbn-canonical d o p h k =
      let (fv, made, verdict, review) = compare-confirms d o h k p in
      (
        fv,
        ground (
          arith,
          drop-IsIsbn d h,
          drop-IsIsbn o k,
          nonempty-IsIsbn d h,
          nonempty-IsIsbn o k,
          made,
        ),
        elim (Bool-cases (confirms d o h k)) [
          | inl c ↦
              inl (
                confirms-canonical d o h k c,
                ground (arith, verdict, c),
                ground (arith, review, c),
              )
          | inr c ↦ inr (
            (λ e. absurd (ground (arith, canonical-confirms d o h k e, c))),
            ground (arith, verdict, c),
            ground (arith, review, c),
          )
        ],
      )

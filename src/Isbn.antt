-- ===== src/Isbn.antt =====
-- ISBN checksums: src/calibre_ai_auditor/rules/isbn.py. An ISBN is a list of code points.
pub mod Checksum
pub mod Errors
pub mod Canonical
use calibre_bookwarden.Prelude.{
  ℕ, zero, suc, ◌+◌, ◌-◌, ◌*◌, ◌%◌, Bool, true, false, not, ◌&&◌, ◌||◌, Option, none, some, List,
  [], ◌∷◌, ◌++◌, ◌==◌, leb, map, keep, all, length, take, get_or, codes, is_some, if◌then◌else◌,
}

abbrev pub is_digit : ℕ → Bool
is_digit c = leb b'0' c && leb c b'9'

-- `int(c)` of an ASCII digit
abbrev pub digit : ℕ → ℕ
digit c = c - b'0'

-- `_clean`: what is not one of 0-9, X, x goes.
unfoldable pub clean : List ℕ → List ℕ
clean value = keep (λ c. is_digit c || (c == b'X' || c == b'x')) value

-- `str.upper` of a cleaned text, in which only `x` changes.
abbrev pub upper_char : ℕ → ℕ
upper_char c = if c == b'x' then b'X' else c

unfoldable pub upper : List ℕ → List ℕ
upper s = map upper_char s

-- `sum(int(c) * (10 - i) for i, c in enumerate(s))`, from index `i` on
unfoldable pub sum_10 : ℕ → List ℕ → ℕ
sum_10 i [] = 0
sum_10 i (c ∷ s) = digit c * (10 - i) + sum_10 (i + 1) s

-- `1 if i % 2 == 0 else 3`
abbrev pub weight_13 : ℕ → ℕ
weight_13 i = if i % 2 == 0 then 1 else 3

-- `sum(int(c) * (1 if i % 2 == 0 else 3) for i, c in enumerate(s))`, from index `i` on
unfoldable pub sum_13 : ℕ → List ℕ → ℕ
sum_13 i [] = 0
sum_13 i (c ∷ s) = digit c * weight_13 i + sum_13 (i + 1) s

-- `10 if c == "X" else int(c)`
abbrev pub last_value : ℕ → ℕ
last_value c = if c == b'X' then 10 else digit c

-- `isbn10_checksum_valid`; `s[9]` is read only if there are ten characters.
unfoldable pub isbn10_checksum_valid : List ℕ → Bool
isbn10_checksum_valid value =
    let s = upper (clean value) in
    let x = get_or s 9 0 in
    if not (length s == 10) || (not (all is_digit (take 9 s)) || not (is_digit x || x == b'X'))
    then false
    else (sum_10 0 (take 9 s) + last_value x) % 11 == 0

-- `(10 - total % 10) % 10`, of the weighted sum of a body of twelve digits
abbrev pub check_digit : List ℕ → ℕ
check_digit body = (10 - sum_13 0 body % 10) % 10

-- `isbn13_checksum_valid`
unfoldable pub isbn13_checksum_valid : List ℕ → Bool
isbn13_checksum_valid value =
    let s = clean value in
    if not (length s == 13) || not (all is_digit s)
    then false
    else check_digit (take 12 s) == digit (get_or s 12 0)

-- The ISBN-13 that `canonical_isbn13` makes of the ten characters of a valid ISBN-10.
abbrev pub from_isbn10 : List ℕ → List ℕ
from_isbn10 s = let body = codes "978" ++ take 9 s in body ++ (b'0' + check_digit body) ∷ []

-- `canonical_isbn13`
unfoldable pub canonical_isbn13 : List ℕ → Option (List ℕ)
canonical_isbn13 value =
    let s = upper (clean value) in
    if length s == 10 && isbn10_checksum_valid s
    then some (from_isbn10 s)
    else if length s == 13 && isbn13_checksum_valid s
    then some s
    else none

-- ===== src/Rules.antt =====
-- The per-field rules of src/calibre_ai_auditor/verification/rules.py: what they share. What the rules
-- take from Python's floats, `unicodedata`, `re` and `difflib` is the record `Python`.
pub mod IsbnRule
pub mod Publication
pub mod Series
pub mod Numbers
pub mod Shape
use mathlib.Core.List
use calibre_bookwarden.Prelude.{
  ℕ, ◌+◌, ◌*◌, String, Bool, true, false, not, ◌&&◌, ◌||◌, ◌==◌, Option, none, some, List, [], ◌∷◌,
  ◌++◌, leb, ltb, keep, length, codes, is_nonempty, is_space, strip, join, if◌then◌else◌,
}
use calibre_bookwarden.Prelude.Int.{ℤ}
use calibre_bookwarden.Verdict.{
  Text, Value, null, text, number, texts, VerdictKind, EvidenceSpan, FieldVerdict,
}

-- Operations of Python and its standard library over floats `F` and texts.
pub record Python (F : Type 0) : Type 0 where
  -- `float(s)` of a str; `none` if it raises
  pub float_of_text : Text → Option F
  -- `str(x)` of a number, and of a list of str
  pub show_number : F → Text
  pub show_list : List Text → Text
  -- `bool(x)` of a number
  pub nonzero : F → Bool
  -- `int(round(x))`; `none` if it raises, as for an infinity or a NaN
  pub round : F → Option ℤ
  -- `abs(d - o) < 0.01`
  pub within_cent : F → F → Bool
  -- `s.lower()`
  pub lower : Text → Text
  -- `unicodedata.normalize("NFKD", s)` and `unicodedata.combining(c)`
  pub nfkd : Text → Text
  pub is_combining : ℕ → Bool
  -- the class `\w`
  pub is_word : ℕ → Bool
  -- `_EDITION_TAGS.sub("", s)`
  pub strip_edition_tags : Text → Text
  -- the number of characters that `SequenceMatcher(None, a, b)` matches
  pub matching : Text → Text → ℕ
  -- `int(c)` of a single character; `none` if it raises
  pub decimal : ℕ → Option ℕ

-- `_WS_RE.sub(" ", s)`: each run of spaces becomes one; the flag says that one was just written.
abbrev pub collapse : Bool → Text → Text
collapse after [] = []
collapse after (c ∷ s) =
    let rest = collapse (is_space c) s in
    if is_space c then (if after then rest else b' ' ∷ rest) else c ∷ rest

-- `re.sub(r"[\s-]", "", s)`
unfoldable pub drop_separators : Text → Text
drop_separators s = keep (λ c. not (is_space c) && not (c == b'-')) s

module _ {F : Type 0} where
  -- `v is None`
  abbrev pub is_none : Value F → Bool
  is_none null = true
  is_none _ = false

  module _ (py : Python F) where
    -- `bool(v)`
    abbrev pub truthy : Value F → Bool
    truthy null = false
    truthy (text s) = is_nonempty s
    truthy (number x) = py.nonzero x
    truthy (texts l) = is_nonempty l

    -- `str(v)`
    abbrev pub to_text : Value F → Text
    to_text null = codes "None"
    to_text (text s) = s
    to_text (number x) = py.show_number x
    to_text (texts l) = py.show_list l

    -- `_normalize_text`, from the NFKD normalisation on
    abbrev pub normalize_chars : Text → Text
    normalize_chars s =
        let plain = keep (λ c. not (py.is_combining c)) (py.nfkd s) in
        let untagged = py.strip_edition_tags plain in
        let spaced = List.map (λ c. if py.is_word c || is_space c then c else b' ') untagged in
        py.lower (strip (collapse false spaced))

    -- `_normalize_text`
    unfoldable pub normalize_text : Value F → Text
    normalize_text null = []
    normalize_text (texts l) = normalize_chars (join (codes " ") l)
    normalize_text (text s) = normalize_chars s
    normalize_text (number x) = normalize_chars (py.show_number x)

    -- `_fuzzy_ratio(a, b) >= p / 100`: the ratio is 2 m / n for m matches in n characters, 1 if n = 0.
    unfoldable pub ratio_at_least : ℕ → Text → Text → Bool
    ratio_at_least p a b = leb (p * (length a + length b)) (200 * py.matching a b)

    -- `_coerce_number`
    unfoldable pub coerce_number : Value F → Option F
    coerce_number null = none
    coerce_number (number x) = some x
    coerce_number (text s) = if is_nonempty (strip s) then py.float_of_text (strip s) else none
    coerce_number (texts l) =
        let s = strip (py.show_list l) in if is_nonempty s then py.float_of_text s else none

  -- A FieldVerdict with the given fields and the defaults of the schema.
  abbrev pub field_verdict : String → Value F → Value F → VerdictKind → ℕ → FieldVerdict F
  field_verdict name declared observed kind confidence = record {
    field = name;
    declared_value = declared;
    observed_value = observed;
    verdict = kind;
    confidence = confidence;
    evidence = [];
    requires_review = false;
    risk_flags = [];
  }

abbrev pub evidence_span : String → Text → Option Text → ℕ → EvidenceSpan
evidence_span source s page_range confidence = record {
  source = source;
  span_text = s;
  page_range = page_range;
  span_confidence = confidence;
}

-- ===== src/Identity.antt =====
-- The identity contracts of src/calibre_ai_auditor/verification/identity_v2.py: the data, and the
-- normal forms by which values are compared.
pub mod Patch
pub mod Fields
pub mod Support
pub mod Core
pub mod Resolve
pub mod Compare
pub mod Authority
pub mod TierA
pub mod Dump
pub mod Evidence
pub mod Namespaces
use mathlib.Core.List
use calibre_bookwarden.Prelude.{
  ℕ, String, Bool, true, false, not, ◌&&◌, ◌||◌, Option, none, some, List, [], ◌∷◌, ◌++◌, ◌==◌,
  keep, codes, text_eq, strip, is_nonempty, str_in, if◌then◌else◌, leb, ltb, join,
}
use calibre_bookwarden.Isbn.{canonical_isbn13}
use calibre_bookwarden.Verdict.{Text}

-- A dict from str to str: namespaces to identifiers.
abbrev pub Ids : Type 0
Ids = List (Text × Text)

-- JSON values: None, a str, a list of str, a dict from str to str, and any other value by its text.
pub data Json : Type 0 where
  null : Json
  str : Text → Json
  strs : List Text → Json
  ids : Ids → Json
  other : Text → Json

-- What the code takes from `unicodedata`, `str`, `json` and pydantic.
pub record Runtime : Type 0 where
  -- `s.lower()`
  pub lower : Text → Text
  -- `unicodedata.normalize("NFKC", s).casefold()`
  pub nfkc_casefold : Text → Text
  -- the class `\w`
  pub is_word : ℕ → Bool
  -- `json.dumps(value, sort_keys=True, …)`
  pub dumps : Json → Text
  -- what pydantic makes of a value for a field of type float; `none` if it raises
  pub to_float : Json → Option Json

pub data IdentityTier : Type 0 where
  tier_a tier_b tier_c : IdentityTier

pub data EvidenceSourceKind : Type 0 where
  calibre_current embedded_metadata content_native ocr_observation : EvidenceSourceKind
  ocr_consensus vision provider_structured official_page : EvidenceSourceKind
  national_library calibre_fetch llm : EvidenceSourceKind

pub data FormatEvidenceStatus : Type 0 where
  readable unsupported drm corrupt error : FormatEvidenceStatus

pub data FieldDecisionStatus : Type 0 where
  unchanged auto review blocked : FieldDecisionStatus

-- `ALLOWED_PATCH_FIELDS`
abbrev pub allowed_patch_fields : List String
allowed_patch_fields =
    "title" ∷ "authors" ∷ "identifiers" ∷ "languages" ∷ "publisher" ∷ "pubdate" ∷ "series"
    ∷ "series_index" ∷ "edition_statement" ∷ "cover" ∷ []

-- `INTERNAL_PROMOTION_KINDS`
abbrev pub is_internal_promotion : EvidenceSourceKind → Bool
is_internal_promotion embedded_metadata = true
is_internal_promotion content_native = true
is_internal_promotion ocr_consensus = true
is_internal_promotion _ = false

-- `INTERNAL_IDENTITY_KINDS`
abbrev pub is_internal_identity : EvidenceSourceKind → Bool
is_internal_identity content_native = true
is_internal_identity ocr_consensus = true
is_internal_identity _ = false

-- `EXTERNAL_PROMOTION_KINDS`
abbrev pub is_external_promotion : EvidenceSourceKind → Bool
is_external_promotion provider_structured = true
is_external_promotion official_page = true
is_external_promotion national_library = true
is_external_promotion _ = false

-- `OFFICIAL_KINDS`
abbrev pub is_official : EvidenceSourceKind → Bool
is_official official_page = true
is_official national_library = true
is_official _ = false

-- FormatEvidence, less the evidence ids and the error.
pub record FormatEvidence : Type 0 where
  pub path : Text
  pub format : Text
  pub sha256 : Text
  pub status : FormatEvidenceStatus
  pub identifiers : Ids
  pub title : Option Text
  pub authors : List Text
  pub languages : List Text

-- SourceEvidence, less the locator, digest and URL that the resolver does not read.
pub record SourceEvidence : Type 0 where
  pub evidence_id : String
  pub root_id : String
  pub independence_root : Option String
  pub source_kind : EvidenceSourceKind
  pub field : String
  pub value : Json
  pub manifestation_ids : Ids
  pub authoritative : Bool

-- `self.independence_root or self.root_id`
abbrev pub effective_root : SourceEvidence → String
effective_root item = elim item.independence_root [
  | none ↦ item.root_id
  | some String.[] ↦ item.root_id
  | some root ↦ root
]

pub record FieldDecision : Type 0 where
  pub field : String
  pub current_value : Json
  pub resolved_value : Json
  pub status : FieldDecisionStatus
  pub evidence_ids : List String
  pub root_ids : List String
  pub reasons : List String

-- `ids.get(namespace)`
unfoldable pub get_id : Text → Ids → Option Text
get_id namespace [] = none
get_id namespace ((n, v) ∷ m) = if text_eq n namespace then some v else get_id namespace m

-- `ids[namespace] = value`
unfoldable pub set_id : Text → Text → Ids → Ids
set_id namespace value [] = (namespace, value) ∷ []
set_id namespace value ((n, v) ∷ m) =
    if text_eq n namespace then (n, value) ∷ m else (n, v) ∷ set_id namespace value m

-- `{**a, **b}`
unfoldable pub merge_ids : Ids → Ids → Ids
merge_ids a [] = a
merge_ids a ((n, v) ∷ b) = merge_ids (set_id n v a) b

-- `ids.get(namespace) == value`
abbrev pub has_id : Text → Text → Ids → Bool
has_id namespace value m = elim (get_id namespace m) [ none ↦ false | some v ↦ text_eq v value ]

-- The order of Python's str, and `sorted` on a list of str.
abbrev pub text_le : Text → Text → Bool
text_le [] t = true
text_le (c ∷ s) [] = false
text_le (c ∷ s) (d ∷ t) = let rest = text_le s t in if c == d then rest else ltb c d

unfoldable pub insert_text : Text → List Text → List Text
insert_text s [] = s ∷ []
insert_text s (t ∷ ts) = if text_le s t then s ∷ t ∷ ts else t ∷ insert_text s ts

unfoldable pub sort_texts : List Text → List Text
sort_texts [] = []
sort_texts (s ∷ ss) = insert_text s (sort_texts ss)

-- `s.split(c)` at a single character; `word` is the part read so far, reversed.
abbrev pub split_from : ℕ → Text → Text → List Text
split_from sep word [] = List.reverse word ∷ []
split_from sep word (c ∷ s) =
    let rest = split_from sep (if c == sep then [] else c ∷ word) s in
    if c == sep then List.reverse word ∷ rest else rest

-- `re.findall(r"\w+", s)`
abbrev pub words_from : (ℕ → Bool) → Text → Text → List Text
words_from is_word word [] = if is_nonempty word then List.reverse word ∷ [] else []
words_from is_word word (c ∷ s) =
    let rest = words_from is_word (if is_word c then c ∷ word else []) s in
    if is_word c then rest else if is_nonempty word then List.reverse word ∷ rest else rest

-- `validate_isbn`
abbrev pub validate_isbn : Text → Option Text
validate_isbn value = canonical_isbn13 value

module _ (rt : Runtime) where
  -- The body of the loop of `_normalize_identifiers`
  abbrev pub normalize_pair : Text → Text → Ids → Ids
  normalize_pair raw_namespace raw_value normalized =
      let namespace = rt.lower (strip raw_namespace) in
      let candidate = strip raw_value in
      if text_eq namespace (codes "isbn")
      then elim (validate_isbn candidate) [
        | none ↦ normalized
        | some valid ↦ set_id namespace valid normalized
      ]
      else if is_nonempty namespace && is_nonempty candidate
      then set_id namespace candidate normalized
      else normalized

  abbrev pub normalize_from : Ids → Ids → Ids
  normalize_from normalized [] = normalized
  normalize_from normalized ((n, v) ∷ m) = normalize_from (normalize_pair n v normalized) m

  -- `_normalize_identifiers`
  unfoldable pub normalize_identifiers : Ids → Ids
  normalize_identifiers value = normalize_from [] value

  -- `_text_key`
  unfoldable pub text_key : Text → Text
  text_key value = join (codes " ") (words_from rt.is_word [] (rt.nfkc_casefold value))

  -- The key of a list of authors, and of languages.
  abbrev pub authors_key : List Text → Text
  authors_key authors =
      rt.dumps (strs (sort_texts (List.map text_key (keep (λ a. is_nonempty (strip a)) authors))))

  abbrev pub languages_key : List Text → Text
  languages_key languages = rt.dumps (
      strs (
        sort_texts
          (List.map (λ l. rt.lower (strip l)) (keep (λ l. is_nonempty (strip l)) languages))))

  -- `_value_key`
  unfoldable pub value_key : String → Json → Text
  value_key field (str s) =
      if str_in field ("title" ∷ "publisher" ∷ "series" ∷ "edition_statement" ∷ [])
      then text_key s
      else if str_in field ("authors" ∷ [])
      then authors_key (split_from b'&' [] s)
      else if str_in field ("languages" ∷ [])
      then languages_key (split_from b',' [] (List.map (λ c. if c == b';' then b',' else c) s))
      else rt.dumps (str s)
  value_key field (strs l) =
      if str_in field ("authors" ∷ [])
      then authors_key l
      else if str_in field ("languages" ∷ [])
      then languages_key l
      else rt.dumps (strs l)
  value_key field (ids m) =
      if str_in field ("identifiers" ∷ [])
      then rt.dumps (ids (normalize_identifiers m))
      else rt.dumps (ids m)
  value_key field null = rt.dumps null
  value_key field (other s) = rt.dumps (other s)

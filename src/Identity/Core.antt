-- ===== src/Identity/Core.antt =====
-- The tests of src/calibre_ai_auditor/verification/identity_v2.py on the formats of a book and on the
-- external evidence for its identifier.
use mathlib.Core.List
use calibre_bookwarden.Prelude.{
  String, Bool, true, false, not, ◌&&◌, ◌||◌, Option, none, some, List, [], ◌∷◌, ◌++◌, any, all,
  keep, length, text_eq, codes, str_eq, str_in, strip, is_nonempty, is_some, ltb, if◌then◌else◌,
}
use calibre_bookwarden.Prelude.Sets.{set_update}
use calibre_bookwarden.Prelude.Dict.{Dict, insert, lookup}
use calibre_bookwarden.Verdict.{Text}
use calibre_bookwarden.Identity.{
  Ids, Json, null, str, strs, ids, Runtime, FormatEvidence, readable, SourceEvidence,
  is_internal_identity, is_external_promotion, effective_root, has_id, normalize_identifiers,
  value_key, validate_isbn,
}

-- The core fields of a format as values.
abbrev pub title_value : FormatEvidence → Json
title_value item = elim item.title [ none ↦ null | some s ↦ str s ]

abbrev pub authors_value : FormatEvidence → Json
authors_value item = strs item.authors

abbrev pub languages_value : FormatEvidence → Json
languages_value item = strs item.languages

-- `_core_value_present` of a title, and of a list
abbrev pub title_present : FormatEvidence → Bool
title_present item = elim item.title [ none ↦ false | some s ↦ is_nonempty (strip s) ]

abbrev pub authors_present : FormatEvidence → Bool
authors_present item = is_nonempty item.authors

abbrev pub languages_present : FormatEvidence → Bool
languages_present item = is_nonempty item.languages

abbrev pub is_readable : FormatEvidence → Bool
is_readable item = elim item.status [ readable ↦ true | _ ↦ false ]

-- `set.add` on a list of texts
abbrev pub text_add : Text → List Text → List Text
text_add s xs = if any (λ x. text_eq x s) xs then xs else xs ++ s ∷ []

abbrev pub text_set : List Text → List Text → List Text
text_set xs [] = xs
text_set xs (s ∷ ss) = text_set (text_add s xs) ss

-- The values of a format's `isbn` identifiers that validate; the other namespaces do not count.
abbrev pub isbn_values : Ids → List Text
isbn_values [] = []
isbn_values ((n, v) ∷ m) =
    let rest = isbn_values m in
    if text_eq n (codes "isbn") && is_some (validate_isbn v) then v ∷ rest else rest

abbrev pub all_isbn_values : List FormatEvidence → List Text
all_isbn_values [] = []
all_isbn_values (item ∷ items) = isbn_values item.identifiers ++ all_isbn_values items

-- `format_ids`, whose pairs all have the namespace `isbn`, by their second components
unfoldable pub format_ids : List FormatEvidence → List Text
format_ids formats = text_set [] (all_isbn_values formats)

-- `dict(format_ids)`
abbrev pub ids_of : List Text → Ids
ids_of [] = []
ids_of (s ∷ ss) = (codes "isbn", s) ∷ []

-- `_formats_have_complete_core`
unfoldable pub formats_have_complete_core : List FormatEvidence → Bool
formats_have_complete_core formats =
    all (λ item. title_present item && (authors_present item && languages_present item)) formats

module _ (rt : Runtime) where
  -- The keys of one core field over the formats where it is present.
  abbrev pub core_keys :
      String → (FormatEvidence → Bool) → (FormatEvidence → Json) → List FormatEvidence → List Text
  core_keys field present value formats =
      text_set [] (
        List.map (λ (item : FormatEvidence). value_key rt field (value item))
          (keep present formats))

  -- `_formats_have_core_conflict`
  unfoldable pub formats_have_core_conflict : List FormatEvidence → Bool
  formats_have_core_conflict formats =
      ltb 1 (length (core_keys "title" title_present title_value formats))
      || (ltb 1 (length (core_keys "authors" authors_present authors_value formats))
          || ltb 1 (length (core_keys "languages" languages_present languages_value formats)))

  -- `expected.get(field)`, for `expected` made from the first format
  abbrev pub expected_key : FormatEvidence → String → Option Text
  expected_key first field =
      if str_eq field "title"
      then some (value_key rt "title" (title_value first))
      else if str_eq field "authors"
      then some (value_key rt "authors" (authors_value first))
      else if str_eq field "languages"
      then some (value_key rt "languages" (languages_value first))
      else none

  -- An authoritative external record of the identifier: the condition of `roots`.
  abbrev pub is_external_record : Text → Text → SourceEvidence → Bool
  is_external_record namespace identifier item =
      item.authoritative
      && (is_external_promotion item.source_kind
          && (has_id namespace identifier item.manifestation_ids
              && str_eq item.field "identifiers"))

  abbrev pub external_roots : Text → Text → List SourceEvidence → List String
  external_roots namespace identifier evidence =
      set_update []
        (List.map effective_root (keep (is_external_record namespace identifier) evidence))

  -- The items that go into `fields` for one root.
  abbrev pub is_core_item : FormatEvidence → String → SourceEvidence → Bool
  is_core_item first root item =
      str_eq (effective_root item) root
      && (is_some (expected_key first item.field) && item.authoritative)

  -- `fields`: the key of the last such item of each field
  unfoldable pub core_step : FormatEvidence → String → SourceEvidence → Dict Text → Dict Text
  core_step first root item fields =
      if is_core_item first root item
      then insert item.field (value_key rt item.field item.value) fields
      else fields

  unfoldable pub core_fields : FormatEvidence → String → List SourceEvidence → Dict Text → Dict Text
  core_fields first root [] fields = fields
  core_fields first root (item ∷ items) fields =
      core_fields first root items (core_step first root item fields)

  -- `fields.get(name) == expected.get(name)`
  abbrev pub same_key : Option Text → Option Text → Bool
  same_key (some a) (some b) = text_eq a b
  same_key _ _ = false

  -- `fields == expected`: the three core fields, as `fields` has no other keys
  abbrev pub root_matches : FormatEvidence → List SourceEvidence → String → Bool
  root_matches first evidence root =
      let fields = core_fields first root evidence [] in
      same_key (lookup "title" fields) (expected_key first "title")
      && (same_key (lookup "authors" fields) (expected_key first "authors")
          && same_key (lookup "languages" fields) (expected_key first "languages"))

  -- `_external_core_matches`; there is a first format wherever it is called.
  unfoldable pub external_core_matches :
      List FormatEvidence → List SourceEvidence → Text → Text → Bool
  external_core_matches [] evidence namespace identifier = false
  external_core_matches (first ∷ formats) evidence namespace identifier =
      any (root_matches first evidence) (external_roots namespace identifier evidence)

  -- `_external_core_conflicts`
  unfoldable pub external_core_conflicts :
      List FormatEvidence → List SourceEvidence → Text → Text → Bool
  external_core_conflicts [] evidence namespace identifier = false
  external_core_conflicts (first ∷ formats) evidence namespace identifier =
      any
        (λ (item : SourceEvidence).
          item.authoritative
          && (is_external_promotion item.source_kind
              && (str_in (effective_root item) (external_roots namespace identifier evidence)
                  && elim (expected_key first item.field) [
                    | none ↦ false
                    | some key ↦ not (text_eq (value_key rt item.field item.value) key)
                  ])))
        evidence

  -- The condition of `internal_confirmation`.
  abbrev pub value_has_id : Text → Text → Json → Bool
  value_has_id namespace identifier (ids m) =
      has_id namespace identifier (normalize_identifiers rt m)
  value_has_id namespace identifier _ = false

  abbrev pub is_internal_record : Text → Text → SourceEvidence → Bool
  is_internal_record namespace identifier item =
      str_eq item.field "identifiers"
      && (item.authoritative
          && (is_internal_identity item.source_kind
              && (has_id namespace identifier item.manifestation_ids
                  && value_has_id namespace identifier item.value)))

  -- `internal_confirmation` and `external_confirmation`
  unfoldable pub internal_confirmation : Text → Text → List SourceEvidence → Bool
  internal_confirmation namespace identifier evidence =
      any (is_internal_record namespace identifier) evidence

  unfoldable pub external_confirmation : Text → Text → List SourceEvidence → Bool
  external_confirmation namespace identifier evidence =
      any (is_external_record namespace identifier) evidence

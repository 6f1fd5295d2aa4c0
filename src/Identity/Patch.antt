-- ===== src/Identity/Patch.antt =====
-- CanonicalPatch and CoverPatch of src/calibre_ai_auditor/verification/identity_v2.py: which values may
-- cross the writer boundary. `none` stands for a ValidationError.
use calibre_bookwarden.Prelude.{
  ℕ, String, Bool, not, ◌&&◌, ◌||◌, Option, none, some, List, [], ◌∷◌, ◌==◌, leb, all, length,
  codes, is_nonempty, str_in, if◌then◌else◌,
}
use calibre_bookwarden.Prelude.Dict.{Dict, lookup}
use calibre_bookwarden.Verdict.{Text}
use calibre_bookwarden.Identity.{
  Ids, Json, null, str, strs, ids, other, Runtime, get_id, normalize_identifiers, validate_isbn,
  allowed_patch_fields,
}

abbrev is_hex : ℕ → Bool
is_hex c = leb b'0' c && leb c b'9' || leb b'a' c && leb c b'f'

-- `SHA256_RE.fullmatch(s)`
unfoldable pub is_sha256 : Text → Bool
is_sha256 s = length s == 64 && all is_hex s

abbrev pub or_null : Option Json → Json
or_null none = null
or_null (some v) = v

-- `metadata.get(field)`
abbrev pub get_json : String → Dict Json → Json
get_json name metadata = or_null (lookup name metadata)

abbrev pub add_field : String → Json → Dict Json → Dict Json
add_field name null dumped = dumped
add_field name v dumped = (name, v) ∷ dumped

module _ (rt : Runtime) where
  -- CoverPatch: three keys, the digest in lower case, the ISBN in canonical form.
  abbrev pub validate_cover : Ids → Option Json
  validate_cover m = elim (get_id (codes "artifact_path") m) [
    | none ↦ none
    | some path ↦ elim (get_id (codes "artifact_sha256") m) [
      | none ↦ none
      | some sha256 ↦ elim (get_id (codes "manifestation_isbn") m) [
        | none ↦ none
        | some isbn ↦ elim (validate_isbn isbn) [
          | none ↦ none
          | some canonical ↦
              if length m == 3 && (is_nonempty path && is_sha256 (rt.lower sha256))
              then some (
                  ids (
                    (codes "artifact_path", path)
                    ∷ (codes "artifact_sha256", rt.lower sha256)
                    ∷ (codes "manifestation_isbn", canonical)
                    ∷ []))
              else none
        ]
      ]
    ]
  ]

  -- A value for the named field of CanonicalPatch, with None for a field that is left out.
  unfoldable pub validate_field : String → Json → Option Json
  validate_field name null = some null
  validate_field name (str s) =
      if str_in name ("title" ∷ "publisher" ∷ "pubdate" ∷ "series" ∷ "edition_statement" ∷ [])
      then some (str s)
      else if str_in name ("series_index" ∷ [])
      then rt.to_float (str s)
      else none
  validate_field name (strs l) =
      if str_in name ("authors" ∷ "languages" ∷ []) then some (strs l) else none
  validate_field name (ids m) =
      if str_in name ("identifiers" ∷ [])
      then (let normalized = normalize_identifiers rt m in
          if is_nonempty m && not (is_nonempty normalized) then none else some (ids normalized))
      else if str_in name ("cover" ∷ [])
      then validate_cover m
      else none
  validate_field name (other s) =
      if str_in name ("series_index" ∷ []) then rt.to_float (other s) else none

  -- One field of the dump, before the rest.
  unfoldable pub dump_field : String → Json → Option (Dict Json) → Option (Dict Json)
  dump_field name value rest = elim (validate_field name value) [
    | none ↦ none
    | some v ↦ elim rest [ none ↦ none | some dumped ↦ some (add_field name v dumped) ]
  ]

  -- `CanonicalPatch.model_validate(patch).model_dump(exclude_none=True)`, by the schema's fields.
  unfoldable pub dump_fields : List String → Dict Json → Option (Dict Json)
  dump_fields [] patch = some []
  dump_fields (name ∷ names) patch = dump_field name (get_json name patch) (dump_fields names patch)

  unfoldable pub canonical_patch : Dict Json → Option (Dict Json)
  canonical_patch patch = dump_fields allowed_patch_fields patch

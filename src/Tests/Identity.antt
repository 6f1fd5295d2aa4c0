-- ===== src/Tests/Identity.antt =====
-- A book with one readable EPUB, an ISBN in its content and a national library's record of it.
use mathlib.Core.List
use calibre_bookwarden.Prelude.{
  ℕ, ◌+◌, ◌≡◌, refl, inl, inr, String, Bool, true, false, ◌&&◌, ◌||◌, none, some, List, [], ◌∷◌,
  ◌++◌, leb, codes, strip, join, if◌then◌else◌,
}
use calibre_bookwarden.Prelude.Dict.{Dict, lookup, insert}
use calibre_bookwarden.Prelude.Sets.{insert_sorted, sorted}
use calibre_bookwarden.Isbn.{
  clean, upper, sum_10, sum_13, isbn10_checksum_valid, isbn13_checksum_valid, canonical_isbn13,
}
use calibre_bookwarden.Identity.Patch.{
  get_json, is_sha256, validate_field, dump_field, dump_fields, canonical_patch,
}
use calibre_bookwarden.Identity.Fields.{
  current_identifiers, patch_fields, target_value, decide_agreed, decide_groups, decide_field,
  decide_fields, resolve_fields,
}
use calibre_bookwarden.Verdict.{Text}
use calibre_bookwarden.Identity.{
  Ids, Json, null, str, strs, ids, other, Runtime, FormatEvidence, readable, SourceEvidence,
  content_native, national_library, llm, get_id, set_id, merge_ids, insert_text, sort_texts,
  normalize_identifiers, text_key, value_key,
}
use calibre_bookwarden.Identity.Core.{
  format_ids, internal_confirmation, external_confirmation, formats_have_core_conflict,
  formats_have_complete_core, core_step, core_fields, external_core_matches,
  external_core_conflicts,
}
use calibre_bookwarden.Identity.Resolve.{
  ManifestationResolution, resolve_manifestation, promote, identify, confirm,
}
use calibre_bookwarden.Identity.Authority.{authoritative_part, outcome, resolve-authoritative_part}
use calibre_bookwarden.Identity.Namespaces.{id_in, target_value-unobserved}
use calibre_bookwarden.Identity.Evidence.{IsSupported, auto_patch-IsSupported}
use calibre_bookwarden.Identity.TierA.{Anchored, is_tier_a, tier_a-Anchored}

abbrev lower_ascii : Text → Text
lower_ascii s = List.map (λ c. if leb b'A' c && leb c b'Z' then c + 32 else c) s

abbrev is_word_ascii : ℕ → Bool
is_word_ascii c = leb b'a' c && leb c b'z' || leb b'0' c && leb c b'9'

abbrev dumps_ids : Ids → Text
dumps_ids [] = []
dumps_ids ((n, v) ∷ m) = n ++ codes ":" ++ v ++ codes ";" ++ dumps_ids m

abbrev dumps_json : Json → Text
dumps_json null = codes "null"
dumps_json (str s) = codes "s" ++ s
dumps_json (strs l) = codes "l" ++ join (codes ",") l
dumps_json (ids m) = codes "d" ++ dumps_ids m
dumps_json (other s) = s

abbrev pub plain : Runtime
plain = record {
  lower = lower_ascii;
  nfkc_casefold = lower_ascii;
  is_word = is_word_ascii;
  dumps = dumps_json;
  to_float = λ v. some v;
}

abbrev pub isbn_13 : Text
isbn_13 = codes "9780306406157"

abbrev pub the_isbn : Ids
the_isbn = (codes "isbn", isbn_13) ∷ []

abbrev pub epub : FormatEvidence
epub = record {
  path = codes "/library/Ada/Signals.epub";
  format = codes "EPUB";
  sha256 = codes "00";
  status = readable;
  identifiers = the_isbn;
  title = some (codes "Signals");
  authors = codes "Ada" ∷ [];
  languages = codes "eng" ∷ [];
}

abbrev pub internal : SourceEvidence
internal = record {
  evidence_id = "e1";
  root_id = "book";
  independence_root = none;
  source_kind = content_native;
  field = "identifiers";
  value = ids the_isbn;
  manifestation_ids = the_isbn;
  authoritative = true;
}

abbrev external : String → String → Json → SourceEvidence
external id field value = record {
  evidence_id = id;
  root_id = "library";
  independence_root = none;
  source_kind = national_library;
  field = field;
  value = value;
  manifestation_ids = the_isbn;
  authoritative = true;
}

abbrev guess : SourceEvidence
guess = record {
  evidence_id = "e9";
  root_id = "model";
  independence_root = none;
  source_kind = llm;
  field = "title";
  value = str (codes "Noise");
  manifestation_ids = the_isbn;
  authoritative = false;
}

abbrev pub records : List SourceEvidence
records =
    internal
    ∷ external "e2" "identifiers" (ids the_isbn)
    ∷ external "e3" "title" (str (codes "Signals"))
    ∷ external "e4" "authors" (strs (codes "Ada" ∷ []))
    ∷ external "e5" "languages" (strs (codes "eng" ∷ []))
    ∷ guess
    ∷ []

run_tier_a : is_tier_a (resolve_manifestation plain (epub ∷ []) records []) ≡ true
unfolding resolve_manifestation identify confirm promote format_ids internal_confirmation
    external_confirmation formats_have_core_conflict formats_have_complete_core core_step
    core_fields external_core_matches external_core_conflicts get_id set_id merge_ids insert_text
    sort_texts normalize_identifiers text_key value_key clean upper sum_10 sum_13
    isbn10_checksum_valid isbn13_checksum_valid canonical_isbn13 strip lookup insert patch_fields
    target_value decide_agreed decide_groups decide_field decide_fields resolve_fields is_sha256
    validate_field dump_field dump_fields canonical_patch insert_sorted sorted
run_tier_a = refl

tier_a-Anchored_example : (identifier : Text) × Anchored plain (epub ∷ []) records identifier
tier_a-Anchored_example = tier_a-Anchored plain (epub ∷ []) records [] run_tier_a

resolve-authoritative_part_example :
    outcome (resolve_manifestation plain (epub ∷ []) (authoritative_part records) [])
    ≡ outcome (resolve_manifestation plain (epub ∷ []) records [])
resolve-authoritative_part_example = resolve-authoritative_part plain (epub ∷ []) records []

records-Anchored : Anchored plain (epub ∷ []) records isbn_13
unfolding resolve_manifestation identify confirm promote format_ids internal_confirmation
    external_confirmation formats_have_core_conflict formats_have_complete_core core_step
    core_fields external_core_matches external_core_conflicts get_id set_id merge_ids insert_text
    sort_texts normalize_identifiers text_key value_key clean upper sum_10 sum_13
    isbn10_checksum_valid isbn13_checksum_valid canonical_isbn13 strip lookup insert patch_fields
    target_value decide_agreed decide_groups decide_field decide_fields resolve_fields is_sha256
    validate_field dump_field dump_fields canonical_patch insert_sorted sorted
records-Anchored = record {
  all_readable = refl;
  one_isbn = refl;
  internal_record = (internal, inl refl, refl);
  external_record = (external "e2" "identifiers" (ids the_isbn), inr (inl refl), refl);
  no_core_conflict = refl;
  complete_core = refl;
  no_external_conflict = refl;
  matching_root = refl;
}

run_patch :
    (r : ManifestationResolution) × (resolve_manifestation plain (epub ∷ []) records [] ≡ some r)
    × (lookup "identifiers" r.auto_patch ≡ some (ids the_isbn))
unfolding resolve_manifestation identify confirm promote format_ids internal_confirmation
    external_confirmation formats_have_core_conflict formats_have_complete_core core_step
    core_fields external_core_matches external_core_conflicts get_id set_id merge_ids insert_text
    sort_texts normalize_identifiers text_key value_key clean upper sum_10 sum_13
    isbn10_checksum_valid isbn13_checksum_valid canonical_isbn13 strip lookup insert patch_fields
    target_value decide_agreed decide_groups decide_field decide_fields resolve_fields is_sha256
    validate_field dump_field dump_fields canonical_patch insert_sorted sorted
run_patch = (_, refl, refl)

auto_patch-IsSupported_example :
    (identifier : Text) × Anchored plain (epub ∷ []) records identifier
    × IsSupported plain records identifier "identifiers"
auto_patch-IsSupported_example =
    auto_patch-IsSupported plain [] (epub ∷ []) records run_patch.0 "identifiers" (ids the_isbn)
      run_patch.1 run_patch.2

abbrev shelf : Dict Json
shelf = ("identifiers", ids ((codes "goodreads", codes "12") ∷ [])) ∷ []

no_goodreads : get_id (codes "goodreads") (normalize_identifiers plain the_isbn) ≡ none
unfolding normalize_identifiers get_id set_id strip canonical_isbn13 isbn13_checksum_valid
    isbn10_checksum_valid sum_13 sum_10 upper clean
no_goodreads = refl

target_value-unobserved_example :
    id_in (codes "goodreads") (target_value plain shelf "identifiers" (ids the_isbn))
    ≡ get_id (codes "goodreads") (current_identifiers plain shelf (get_json "identifiers" shelf))
target_value-unobserved_example =
    target_value-unobserved plain shelf (codes "goodreads") the_isbn no_goodreads

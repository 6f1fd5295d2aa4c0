-- ===== src/Identity/Support.antt =====
-- What the patch of `_resolve_fields` holds for each field, and the evidence behind it.
use mathlib.Core.List
use mathlib.Core.Path.{ap₂}
use calibre_bookwarden.Prelude.{
  ◌≡◌, refl, ◌∙◌, ap, String, true, false, ◌&&◌, ◌||◌, Option, none, some, List, [], ◌∷◌, any, keep,
  str_eq, eq_iff, str_in, if◌then◌else◌, arith,
}
use calibre_bookwarden.Prelude.Sets.{set_update, sorted, any-sorted, any-set_update}
use calibre_bookwarden.Prelude.Dict.{Dict, insert, lookup, lookup-insert}
use calibre_bookwarden.Verdict.{Text}
use calibre_bookwarden.Identity.{Json, Runtime, SourceEvidence, FieldDecision, allowed_patch_fields}
use calibre_bookwarden.Identity.Patch.{or_null, dump_field, dump_fields, canonical_patch}
use calibre_bookwarden.Identity.Fields.{
  patch_fields, is_eligible_item, decide_groups, decide_field, add_entry, decide_fields,
  resolve_fields,
}

str_in-any : (s : String) (xs : List String) → str_in s xs ≡ any (λ n. str_eq n s) xs
str_in-any s [] = refl
str_in-any s (x ∷ xs) = ap (λ b. str_eq x s || b) (str_in-any s xs)

-- The names of the fields in a list of evidence that are among the given ones.
any-fields :
    (allowed : List String) (f : String) (evidence : List SourceEvidence)
    → any
        (λ n. str_eq n f)
        (keep (λ n. str_in n allowed) (List.map (λ (item : SourceEvidence). item.field) evidence))
      ≡ (str_in f allowed && any (λ (item : SourceEvidence). str_eq item.field f) evidence)
any-fields allowed f [] = ground arith
any-fields allowed f (item ∷ evidence) =
    ground (arith, any-fields allowed f evidence, eq_iff item.field f)

fields_of : List String → List SourceEvidence → List String
fields_of allowed evidence = sorted (
    set_update []
      (keep (λ f. str_in f allowed) (List.map (λ (item : SourceEvidence). item.field) evidence)))

str_in-fields_of :
    (allowed : List String) (f : String) (evidence : List SourceEvidence)
    → str_in f (fields_of allowed evidence)
      ≡ (str_in f allowed && any (λ (item : SourceEvidence). str_eq item.field f) evidence)
unfolding fields_of
str_in-fields_of allowed f evidence =
    let names =
      keep (λ n. str_in n allowed) (List.map (λ (item : SourceEvidence). item.field) evidence) in
    str_in-any f (sorted (set_update [] names))
    ∙ (any-sorted (λ n. str_eq n f) (set_update [] names)
        ∙ (any-set_update (λ n. str_eq n f) [] names ∙ any-fields allowed f evidence))

-- Without an eligible item for a field there is no eligible evidence for it.
keep-none :
    (field : String) (namespace identifier : Text) (evidence : List SourceEvidence)
    → any (λ (item : SourceEvidence). str_eq item.field field) evidence ≡ false
    → keep (is_eligible_item field namespace identifier) evidence ≡ []
keep-none field namespace identifier [] h = refl
keep-none field namespace identifier (item ∷ evidence) h =
    ground (arith, keep-none field namespace identifier evidence)

or_json : Option Json → Option Json → Option Json
or_json (some v) o = some v
or_json none o = o

lookup-add_entry :
    (field f : String) (entry : Option Json) (patch : Dict Json)
    → lookup f (add_entry field entry patch)
      ≡ (if str_eq field f then or_json entry (lookup f patch) else lookup f patch)
unfolding or_json
lookup-add_entry field f none patch = ground arith
lookup-add_entry field f (some v) patch = lookup-insert field f v patch ∙ ground arith

module _ (rt : Runtime) (current_metadata : Dict Json) (evidence : List SourceEvidence)
    (namespace identifier : Text) where
  -- The patch entry of one field, decided by itself.
  unfoldable pub entry : String → Option Json
  entry field = (decide_field rt current_metadata evidence namespace identifier field).1

  lookup-decide_fields :
      (f : String) (fields : List String) (ds : Dict FieldDecision) (patch : Dict Json)
      → lookup f (decide_fields rt current_metadata evidence namespace identifier fields ds patch).1
        ≡ (if str_in f fields then or_json (entry f) (lookup f patch) else lookup f patch)
  unfolding decide_fields entry or_json
  lookup-decide_fields f [] ds patch = refl
  lookup-decide_fields f (field ∷ fields) ds patch =
      let (decision, e) = decide_field rt current_metadata evidence namespace identifier field in
      ground (
        arith,
        lookup-decide_fields f fields (insert field decision ds) (add_entry field e patch),
        lookup-add_entry field f e patch,
        eq_iff field f,
      )

  entry-none :
      (f : String)
      → any (λ (item : SourceEvidence). str_eq item.field f) evidence ≡ false
      → entry f ≡ none
  unfolding entry decide_field decide_groups
  entry-none f h = rw (keep-none f namespace identifier evidence h, entry)

  -- The patch before its validation.
  pub raw_patch : List String → Dict Json
  raw_patch allowed =
      (decide_fields rt current_metadata evidence namespace identifier (fields_of allowed evidence)
        [] []).1

  pub lookup-raw_patch :
      (allowed : List String) (f : String)
      → lookup f (raw_patch allowed) ≡ (if str_in f allowed then entry f else none)
  unfolding raw_patch or_json lookup
  lookup-raw_patch allowed f = ground (
    arith,
    lookup-decide_fields f (fields_of allowed evidence) [] [],
    str_in-fields_of allowed f evidence,
    entry-none f,
  )

  pub resolve_fields-raw :
      resolve_fields rt current_metadata evidence namespace identifier
      ≡ elim (canonical_patch rt (raw_patch allowed_patch_fields)) [
        | none ↦ none
        | some canonical ↦ some (
          (decide_fields rt current_metadata evidence namespace identifier
              (patch_fields evidence)
              []
              []).0,
          canonical,
        )
      ]
  unfolding resolve_fields raw_patch fields_of patch_fields
  resolve_fields-raw = refl

-- Two patches with the same entries have the same validated form.
pub dump_fields-cong :
    (rt : Runtime) (names : List String) (p q : Dict Json)
    → ((f : String) → str_in f names ≡ true → lookup f p ≡ lookup f q)
    → dump_fields rt names p ≡ dump_fields rt names q
unfolding dump_fields
dump_fields-cong rt [] p q h = refl
dump_fields-cong rt (name ∷ names) p q h =
    ap₂ (dump_field rt name) (ap or_null (h name (ground (arith, eq_iff name name))))
      (dump_fields-cong rt names p q (λ f m. h f (ground arith)))

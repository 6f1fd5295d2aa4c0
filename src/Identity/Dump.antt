-- ===== src/Identity/Dump.antt =====
-- The validated form of a patch has no field that the patch lacks.

use calibre_bookwarden.Prelude.{
  ◌≡◌, refl, ◌∙◌, String, true, false, none, some, List, [], ◌∷◌, str_eq, eq_iff, Bool-cases,
  Option-cases, inl, inr, arith,
}
use calibre_bookwarden.Prelude.Dict.{Dict, lookup}
use calibre_bookwarden.Identity.{Json, null, Runtime}
use calibre_bookwarden.Identity.Patch.{get_json, add_field, validate_field, dump_field, dump_fields}

module _ (rt : Runtime) where
  -- The dump of a patch has no field that the patch lacks.
  lookup-add_field :
      (f name : String) (v : Json) (dumped : Dict Json)
      → str_eq name f ≡ false
      → lookup f (add_field name v dumped) ≡ lookup f dumped
  unfolding lookup
  lookup-add_field f name null dumped e = refl
  lookup-add_field f name v dumped e = ground arith

  validate-null : (name : String) → validate_field rt name null ≡ some null
  unfolding validate_field
  validate-null name = refl

  get_json-none :
      (f name : String) (patch : Dict Json)
      → lookup f patch ≡ none
      → str_eq name f ≡ true
      → get_json name patch ≡ null
  get_json-none f name patch h e = rw ((eq_iff name f).0 e, h)

  pub lookup-dump_fields :
      (f : String) (names : List String) (patch d : Dict Json)
      → lookup f patch ≡ none
      → dump_fields rt names patch ≡ some d
      → lookup f d ≡ none
  unfolding dump_fields dump_field lookup
  lookup-dump_fields f [] patch d h e = ground arith
  lookup-dump_fields f (name ∷ names) patch d h e =
      elim (Option-cases (validate_field rt name (get_json name patch))) [
        | inl n ↦ absurd (ground (arith, n))
        | inr (v, valid) ↦ elim (Option-cases (dump_fields rt names patch)) [
          | inl n ↦ absurd (ground (arith, valid, n))
          | inr (rest, dumped) ↦
              let added : d ≡ add_field name v rest = ground (arith, valid, dumped) in
              let absent : lookup f rest ≡ none = lookup-dump_fields f names patch rest h dumped in
              elim (Bool-cases (str_eq name f)) [
                | inr e' ↦ rw added (lookup-add_field f name v rest e' ∙ absent)
                | inl e' ↦
                    let blank : v ≡ null =
                      ground (arith, valid, validate-null name, get_json-none f name patch h e') in
                    rw (added, blank) absent
              ]
        ]
      ]

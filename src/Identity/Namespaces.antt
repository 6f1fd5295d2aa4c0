-- ===== src/Identity/Namespaces.antt =====
-- A patch of identifiers leaves the namespaces that the evidence does not observe alone.
use calibre_bookwarden.Prelude.{
  ◌≡◌, refl, Option, none, some, [], ◌∷◌, text_eq, text_eq_iff, if◌then◌else◌, arith,
}
use calibre_bookwarden.Prelude.Dict.{Dict}
use calibre_bookwarden.Verdict.{Text}
use calibre_bookwarden.Identity.{
  Ids, Json, ids, Runtime, get_id, set_id, merge_ids, normalize_identifiers,
}
use calibre_bookwarden.Identity.Patch.{get_json}
use calibre_bookwarden.Identity.Fields.{current_identifiers, target_value}

get_id-set_id :
    (namespace n value : Text) (m : Ids)
    → get_id namespace (set_id n value m)
      ≡ (if text_eq n namespace then some value else get_id namespace m)
unfolding get_id set_id
get_id-set_id namespace n value [] = refl
get_id-set_id namespace n value ((k, v) ∷ m) = ground (
  arith,
  get_id-set_id namespace n value m,
  text_eq_iff k n,
  text_eq_iff n namespace,
  text_eq_iff k namespace,
)

-- A namespace that the second dict lacks keeps its value in the merge.
get_id-merge_ids :
    (namespace : Text) (a b : Ids)
    → get_id namespace b ≡ none
    → get_id namespace (merge_ids a b) ≡ get_id namespace a
unfolding get_id merge_ids
get_id-merge_ids namespace a [] h = refl
get_id-merge_ids namespace a ((n, v) ∷ b) h =
    ground (arith, get_id-merge_ids namespace (set_id n v a) b, get_id-set_id namespace n v a)

-- The value of a namespace in the identifiers that a JSON value holds.
abbrev pub id_in : Text → Json → Option Text
id_in namespace (ids m) = get_id namespace m
id_in namespace _ = none

-- The identifiers proposed for a book agree with its current, normalised ones on every namespace
-- that the evidence does not observe.
pub target_value-unobserved :
    (rt : Runtime) (current : Dict Json) (namespace : Text) (observed : Ids)
    → get_id namespace (normalize_identifiers rt observed) ≡ none
    → id_in namespace (target_value rt current "identifiers" (ids observed))
      ≡ get_id namespace (current_identifiers rt current (get_json "identifiers" current))
unfolding target_value
target_value-unobserved rt current namespace observed h =
    get_id-merge_ids namespace (current_identifiers rt current (get_json "identifiers" current))
      (normalize_identifiers rt observed) h

-- ===== src/Identity/Compare.antt =====
-- Python's `==` on the JSON values and on the dumps of the models of
-- src/calibre_ai_auditor/verification/identity_v2.py.
use calibre_bookwarden.Prelude.{
  ◌≡◌, ap, sym, ◌∙◌, Option-cases, inl, inr, Bool-cases, eq_iff, String, Bool, true, false, ◌&&◌,
  none, some, List, [], ◌∷◌, ◌==◌, all, length, text_eq, str_eq, is_some, arith,
}
use calibre_bookwarden.Prelude.Dict.{Dict, lookup}
use calibre_bookwarden.Verdict.{Text}
use calibre_bookwarden.Identity.{
  Ids, Json, null, str, strs, ids, other, IdentityTier, tier_a, tier_b, tier_c, FieldDecision,
  FieldDecisionStatus, unchanged, auto, review, blocked, get_id,
}
use calibre_bookwarden.Identity.Resolve.{ManifestationResolution}

-- `==` on lists, by the test on their elements
module _ {ℓ} {A : Type ℓ} (same : A → A → Bool) where
  unfoldable pub list_eq : List A → List A → Bool
  list_eq [] [] = true
  list_eq (x ∷ xs) (y ∷ ys) = same x y && list_eq xs ys
  list_eq _ _ = false

  -- `==` on dicts, which does not look at the order
  unfoldable pub dict_eq : Dict A → Dict A → Bool
  dict_eq a b =
      length a == length b
      && all
          (λ (entry : String × A). elim (lookup entry.0 b) [
            | none ↦ false
            | some w ↦ same entry.1 w
          ])
          a

unfoldable pub ids_eq : Ids → Ids → Bool
ids_eq a b =
    length a == length b
    && all
        (λ (entry : Text × Text). elim (get_id entry.0 b) [
          | none ↦ false
          | some w ↦ text_eq entry.1 w
        ])
        a

unfoldable pub json_eq : Json → Json → Bool
json_eq null null = true
json_eq (str s) (str t) = text_eq s t
json_eq (strs l) (strs m) = list_eq text_eq l m
json_eq (ids a) (ids b) = ids_eq a b
json_eq (other s) (other t) = text_eq s t
json_eq _ _ = false

abbrev pub tier_eq : IdentityTier → IdentityTier → Bool
tier_eq tier_a tier_a = true
tier_eq tier_b tier_b = true
tier_eq tier_c tier_c = true
tier_eq _ _ = false

abbrev pub status_eq : FieldDecisionStatus → FieldDecisionStatus → Bool
status_eq unchanged unchanged = true
status_eq auto auto = true
status_eq review review = true
status_eq blocked blocked = true
status_eq _ _ = false

unfoldable pub decision_eq : FieldDecision → FieldDecision → Bool
decision_eq d e =
    str_eq d.field e.field
    && (json_eq d.current_value e.current_value
        && (json_eq d.resolved_value e.resolved_value
            && (status_eq d.status e.status
                && (list_eq str_eq d.evidence_ids e.evidence_ids
                    && (list_eq str_eq d.root_ids e.root_ids
                        && list_eq str_eq d.reasons e.reasons)))))

-- `a.model_dump(mode="json") == b.model_dump(mode="json")` of two resolutions
unfoldable pub resolution_eq : ManifestationResolution → ManifestationResolution → Bool
resolution_eq r s =
    tier_eq r.tier s.tier
    && (ids_eq r.manifestation_ids s.manifestation_ids
        && (dict_eq decision_eq r.field_decisions s.field_decisions
            && (dict_eq json_eq r.auto_patch s.auto_patch
                && (list_eq str_eq r.risk_flags s.risk_flags
                    && list_eq str_eq r.reasons s.reasons))))

-- A key that the first of two equal dicts has is in the second.
module _ {ℓ} {A : Type ℓ} (same : A → A → Bool) where
  all-lookup :
      (k : String) (a b : Dict A) (v : A)
      → all
          (λ (entry : String × A). elim (lookup entry.0 b) [
            | none ↦ false
            | some w ↦ same entry.1 w
          ])
          a
        ≡ true
      → lookup k a ≡ some v
      → is_some (lookup k b) ≡ true
  unfolding lookup
  all-lookup k [] b v h l = absurd (cc)
  all-lookup k ((j, w) ∷ a) b v h l = elim (Bool-cases (str_eq j k)) [
    | inl e ↦ ground (arith, h, (eq_iff j k).0 e, ap (λ n. lookup n b) ((eq_iff j k).0 e))
    | inr e ↦ all-lookup k a b v (ground (arith, h)) (rw e at l)
  ]

  -- Its value there is equal by the test on the values.
  all-same :
      (k : String) (a b : Dict A) (v : A)
      → all
          (λ (entry : String × A). elim (lookup entry.0 b) [
            | none ↦ false
            | some w ↦ same entry.1 w
          ])
          a
        ≡ true
      → lookup k a ≡ some v
      → (w : A) × (lookup k b ≡ some w) × (same v w ≡ true)
  unfolding lookup
  all-same k [] b v h l = absurd (cc)
  all-same k ((j, x) ∷ a) b v h l = elim (Bool-cases (str_eq j k)) [
    | inr e ↦ all-same k a b v (ground (arith, h)) (rw e at l)
    | inl e ↦ elim (Option-cases (lookup j b)) [
      | inl n ↦ absurd (ground (arith, h, n))
      | inr (w, f) ↦
          let same_value : x ≡ v = ground (arith, l, e) in
          let test : same x w ≡ true = ground (arith, h, f) in
          (w, ap (λ i. lookup i b) (sym ((eq_iff j k).0 e)) ∙ f, rw same_value at test)
    ]
  ]

  pub same-dict_eq :
      (k : String) (a b : Dict A) (v : A)
      → dict_eq same a b ≡ true
      → lookup k a ≡ some v
      → (w : A) × (lookup k b ≡ some w) × (same v w ≡ true)
  unfolding dict_eq
  same-dict_eq k a b v h l = all-same k a b v (ground (arith, h)) l

  pub length-dict_eq : (a b : Dict A) → dict_eq same a b ≡ true → length a ≡ length b
  unfolding dict_eq
  length-dict_eq a b h = ground (arith, h)

  pub lookup-dict_eq :
      (k : String) (a b : Dict A) (v : A)
      → dict_eq same a b ≡ true
      → lookup k a ≡ some v
      → is_some (lookup k b) ≡ true
  unfolding dict_eq
  lookup-dict_eq k a b v h l = all-lookup k a b v (ground (arith, h)) l

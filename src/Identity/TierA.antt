-- ===== src/Identity/TierA.antt =====
-- When `resolve_manifestation` of src/calibre_ai_auditor/verification/identity_v2.py gives Tier A, and
-- what a field of its patch rests on.

use mathlib.Core.Path.{subst}
use calibre_bookwarden.Prelude.{
  ℕ, ◌≡◌, refl, ◌∙◌, sym, ap, Bool, true, false, Option, none, some, List, [], ◌∷◌, all, keep,
  length, In, any-In, In-any, codes, ltb, arith, ◌==◌, keep-all, length-keep-all,
}
use calibre_bookwarden.Prelude.Dict.{Dict}
use calibre_bookwarden.Verdict.{Text}
use calibre_bookwarden.Identity.{Json, Runtime, tier_a, FormatEvidence, SourceEvidence}
use calibre_bookwarden.Identity.Core.{
  is_external_record, is_internal_record, external_core_matches, external_core_conflicts,
  internal_confirmation, external_confirmation, formats_have_core_conflict,
  formats_have_complete_core, is_readable, format_ids,
}
use calibre_bookwarden.Identity.Resolve.{
  ManifestationResolution, promote, confirm, identify, resolve_manifestation,
}

-- What Tier A stands on: every format readable, one ISBN in them all, an internal and an external
-- record of it, complete core fields without a conflict, and one external root that repeats them.
pub record Anchored (rt : Runtime) (formats : List FormatEvidence) (evidence : List SourceEvidence)
    (identifier : Text) : Type 0 where
  pub all_readable : all is_readable formats ≡ true
  pub one_isbn : format_ids formats ≡ identifier ∷ []
  pub internal_record :
      (item : SourceEvidence) × In item evidence
      × (is_internal_record rt (codes "isbn") identifier item ≡ true)
  pub external_record :
      (item : SourceEvidence) × In item evidence
      × (is_external_record rt (codes "isbn") identifier item ≡ true)
  pub no_core_conflict : formats_have_core_conflict rt formats ≡ false
  pub complete_core : formats_have_complete_core formats ≡ true
  pub no_external_conflict :
      external_core_conflicts rt formats evidence (codes "isbn") identifier ≡ false
  pub matching_root : external_core_matches rt formats evidence (codes "isbn") identifier ≡ true

-- The tier of a resolution, with a failed one on no tier.
abbrev pub is_tier_a : Option ManifestationResolution → Bool
is_tier_a none = false
is_tier_a (some r) = elim r.tier [ tier_a ↦ true | _ ↦ false ]

-- What the guards of `confirm` check before a promotion.
abbrev Checked : Runtime → List FormatEvidence → List SourceEvidence → Text → Type 0
Checked rt usable evidence identifier =
    (internal_confirmation rt (codes "isbn") identifier evidence ≡ true)
    × (external_confirmation rt (codes "isbn") identifier evidence ≡ true)
    × (formats_have_core_conflict rt usable ≡ false)
    × (formats_have_complete_core usable ≡ true)
    × (external_core_conflicts rt usable evidence (codes "isbn") identifier ≡ false)
    × (external_core_matches rt usable evidence (codes "isbn") identifier ≡ true)

module _ (rt : Runtime) (formats : List FormatEvidence) (evidence : List SourceEvidence)
    (current : Dict Json) where
  confirm-Checked :
      (usable : List FormatEvidence) (identifier : Text)
      → is_tier_a (confirm rt formats evidence current usable identifier) ≡ true
      → Checked rt usable evidence identifier
  unfolding confirm
  confirm-Checked usable identifier h =
      (ground arith, ground arith, ground arith, ground arith, ground arith, ground arith)

  Checked-confirm :
      (usable : List FormatEvidence) (identifier : Text)
      → Checked rt usable evidence identifier
      → confirm rt formats evidence current usable identifier
        ≡ promote rt formats evidence current identifier
  unfolding confirm
  Checked-confirm usable identifier (a, b, c, d, e, f) = rw (a, b, c, d, e, f, confirm) refl

  identify-Checked :
      (usable : List FormatEvidence) (found : List Text)
      → is_tier_a (identify rt formats evidence current usable found) ≡ true
      → ltb 1 (length found) ≡ false
      → (identifier : Text) × (found ≡ identifier ∷ []) × Checked rt usable evidence identifier
  unfolding identify
  identify-Checked usable [] h l = absurd (cc)
  identify-Checked usable (identifier ∷ []) h l =
      (identifier, refl, confirm-Checked usable identifier h)
  identify-Checked usable (identifier ∷ other ∷ rest) h l = absurd (ground arith)

  resolve-readable :
      is_tier_a (resolve_manifestation rt formats evidence current) ≡ true
      → (ltb 1 (length (format_ids (keep is_readable formats))) ≡ false)
        × (all is_readable formats ≡ true)
        × (is_tier_a (
              identify rt formats evidence current
                (keep is_readable formats)
                (format_ids (keep is_readable formats)))
            ≡ true)
  unfolding resolve_manifestation
  resolve-readable h =
      (ground arith, length-keep-all is_readable formats (ground arith), ground arith)

  Checked-Anchored :
      (identifier : Text)
      → all is_readable formats ≡ true
      → format_ids formats ≡ identifier ∷ []
      → Checked rt formats evidence identifier
      → Anchored rt formats evidence identifier
  unfolding internal_confirmation external_confirmation
  Checked-Anchored identifier r one (a, b, c, d, e, f) = record {
    all_readable = r;
    one_isbn = one;
    internal_record = any-In (is_internal_record rt (codes "isbn") identifier) evidence a;
    external_record = any-In (is_external_record rt (codes "isbn") identifier) evidence b;
    no_core_conflict = c;
    complete_core = d;
    no_external_conflict = e;
    matching_root = f;
  }

  Anchored-Checked :
      (identifier : Text)
      → Anchored rt formats evidence identifier
      → Checked rt formats evidence identifier
  unfolding internal_confirmation external_confirmation
  Anchored-Checked identifier anchored =
      let (x, m, p) = anchored.internal_record in
      let (y, n, q) = anchored.external_record in
      (
        In-any (is_internal_record rt (codes "isbn") identifier) x evidence m p,
        In-any (is_external_record rt (codes "isbn") identifier) y evidence n q,
        anchored.no_core_conflict,
        anchored.complete_core,
        anchored.no_external_conflict,
        anchored.matching_root,
      )

  -- A resolution of Tier A is anchored: every format is readable, the formats carry one ISBN
  -- between them, an authoritative internal record and an authoritative external record have it,
  -- the core fields are complete and agree, and one external root repeats them unopposed.
  pub tier_a-Anchored :
      is_tier_a (resolve_manifestation rt formats evidence current) ≡ true
      → (identifier : Text) × Anchored rt formats evidence identifier
  tier_a-Anchored h =
      let (l, r, i) = resolve-readable h in
      let (identifier, one, checked) =
        identify-Checked (keep is_readable formats) (format_ids (keep is_readable formats)) i l in
      let same = keep-all is_readable formats r in
      (
        identifier,
        Checked-Anchored identifier r (sym (ap format_ids same) ∙ one)
            (subst (λ usable. Checked rt usable evidence identifier) same checked),
      )

  refl_test : (n : ℕ) → (n == n) ≡ true
  refl_test n = ground arith

  -- Anchored evidence is promoted: the resolution is what the last step makes of the identifier.
  pub Anchored-promote :
      (identifier : Text)
      → Anchored rt formats evidence identifier
      → resolve_manifestation rt formats evidence current
        ≡ promote rt formats evidence current identifier
  unfolding resolve_manifestation identify
  Anchored-promote identifier anchored =
      rw
        (
          resolve_manifestation,
          keep-all is_readable formats anchored.all_readable,
          anchored.one_isbn,
          refl_test (length formats),
          identify,
          keep-all is_readable formats anchored.all_readable,
        )
        (Checked-confirm formats identifier (Anchored-Checked identifier anchored))

-- ===== src/Apply/Validated.antt =====
-- What an operation has that passes the writer's check, whatever wrote it into the ledger.
use calibre_bookwarden.Prelude.{
  ◌≡◌, length, ap, sym, ◌∙◌, String, true, Option, none, some, eq_iff, Option-cases, inl, inr,
  arith,
}
use calibre_bookwarden.Prelude.Dict.{Dict, lookup}
use calibre_bookwarden.Prelude.Fallible.{>>=-eq-some, require-eq-some}
use calibre_bookwarden.Verdict.{Text}
use calibre_bookwarden.Operations.{Operation}
use calibre_bookwarden.Identity.{Json, Runtime, tier_a}
use calibre_bookwarden.Identity.Compare.{json_eq, lookup-dict_eq, same-dict_eq, length-dict_eq}
use calibre_bookwarden.Identity.TierA.{Anchored}
use calibre_bookwarden.Identity.Evidence.{IsSupported}
use calibre_bookwarden.Package.{EvidencePackageV2, Sealing}
use calibre_bookwarden.Package.Derived.{verify_seal-IsSupported}
use calibre_bookwarden.Apply.{BookRecord, ManualAuthorization, Store, PilotGuard, Host}
use calibre_bookwarden.Apply.Checks.{
  opt_eq, same_dict, book_snapshot_valid, authorization_matches, v2_patch, load_v2_package,
}
use calibre_bookwarden.Apply.Approval.{
  tier-is_tier_a_of, seal-load_v2_package, lookup-v2_patch, matching-digests,
}
use calibre_bookwarden.Apply.Validation.{
  optional_authorization, validate_pilot, validate_patch, validate_apply_operation,
}

opt_eq-some : (a b : Option String) (s : String) → opt_eq a b ≡ true → a ≡ some s → b ≡ some s
opt_eq-some a none s h e = absurd (ground arith)
opt_eq-some a (some t) s h e = ground (arith, eq_iff s t)

opt_eq-hash : (a : Option String) (s : String) → opt_eq a (some s) ≡ true → a ≡ some s
opt_eq-hash none s h = absurd (ground arith)
opt_eq-hash (some t) s h = ground (arith, eq_iff t s)

module _ (rt : Runtime) (sl : Sealing) (host : Host) where
  -- The operation's patch has the fields and values of the one that the sealed package gives for the
  -- book; it carries out a stored authorization of the package and of that patch, by their digests;
  -- and its patch has only fields that are not locked in the book and that the evidence supports.
  pub record IsValidated (store : Store) (op : Operation Json) (book : BookRecord) : Type 0 where
    pub evidence_id : String
    pub pack : EvidencePackageV2
    pub authorization : ManualAuthorization
    pub patch : Dict Json
    pub loaded : load_v2_package rt sl store.packages evidence_id ≡ some pack
    pub named : op.evidence_id ≡ some evidence_id
    pub current : book_snapshot_valid book pack ≡ true
    pub found : optional_authorization op.authorization_id store.authorizations ≡ some authorization
    pub made : v2_patch rt pack book ≡ some patch
    pub requested :
        (f : String) (v : Json)
        → lookup f op.requested_patch ≡ some v
        → (w : Json) × (lookup f patch ≡ some w) × (json_eq v w ≡ true)
    pub size : length op.requested_patch ≡ length patch
    pub approved : authorization.patch_hash ≡ host.hash_json patch
    pub digests :
        (op.verdict_hash ≡ some authorization.verdict_hash)
        × (op.patch_hash ≡ some authorization.patch_hash)
        × (op.verdict_hash ≡ pack.package_sha256)
    pub supported :
        (f : String) (v : Json)
        → lookup f op.requested_patch ≡ some v
        → (lookup f book.field_locks ≡ none)
          × ((identifier : Text) × Anchored rt pack.formats pack.source_evidence identifier
              × IsSupported rt pack.source_evidence identifier f)

  -- The tests on the patch, one by one.
  record Patched (store : Store) (op : Operation Json) (book : BookRecord)
      (pack : EvidencePackageV2) : Type 0 where
    patch : Dict Json
    authorization : ManualAuthorization
    made : v2_patch rt pack book ≡ some patch
    tier : pack.identity.tier ≡ tier_a
    sealed : opt_eq pack.package_sha256 op.verdict_hash ≡ true
    same : same_dict op.requested_patch patch ≡ true
    hashed : opt_eq op.patch_hash (some (host.hash_json patch)) ≡ true
    found : optional_authorization op.authorization_id store.authorizations ≡ some authorization
    matched : authorization_matches (some authorization) book pack (host.hash_json patch) ≡ true

  validate-Patched :
      (store : Store) (op : Operation Json) (book : BookRecord) (pack : EvidencePackageV2)
      → validate_patch rt sl host store op book pack ≡ some tt
      → Patched store op book pack
  unfolding validate_patch authorization_matches
  validate-Patched store op book pack h = elim (Option-cases (v2_patch rt pack book)) [
    | inl e ↦ absurd (ground arith)
    | inr (patch, made) ↦
        elim (Option-cases (optional_authorization op.authorization_id store.authorizations)) [
          | inl e ↦ absurd (ground arith)
          | inr (authorization, found) ↦ record {
            patch = patch;
            authorization = authorization;
            made = made;
            tier = ground (arith, tier-is_tier_a_of pack.identity.tier);
            sealed = ground arith;
            same = ground arith;
            hashed = ground arith;
            found = found;
            matched = ground arith;
          }
        ]
  ]

  Patched-fields :
      (op : Operation Json) (book : BookRecord) (store : Store) (pack : EvidencePackageV2)
      (evidence_id : String)
      → load_v2_package rt sl store.packages evidence_id ≡ some pack
      → Patched store op book pack
      → (f : String) (v : Json) → lookup f op.requested_patch ≡ some v
      → (lookup f book.field_locks ≡ none)
        × ((identifier : Text) × Anchored rt pack.formats pack.source_evidence identifier
            × IsSupported rt pack.source_evidence identifier f)
  Patched-fields op book store pack evidence_id loaded p f v l =
      let has = lookup-dict_eq json_eq f op.requested_patch p.patch v p.same l in
      elim (Option-cases (lookup f p.patch)) [
        | inl n ↦ absurd (cc (has, n))
        | inr (w, found) ↦
            let (free, (x, e)) = lookup-v2_patch rt sl host pack book p.patch f w p.made found in
            (
              free,
              verify_seal-IsSupported rt sl pack f x
                  (seal-load_v2_package rt sl host store.packages evidence_id pack loaded) p.tier e,
            )
      ]

  checked-IsValidated :
      (store : Store) (op : Operation Json) (book : BookRecord) (pack : EvidencePackageV2)
      (evidence_id : String)
      → op.evidence_id ≡ some evidence_id
      → load_v2_package rt sl store.packages evidence_id ≡ some pack
      → book_snapshot_valid book pack ≡ true
      → validate_patch rt sl host store op book pack ≡ some tt
      → IsValidated store op book
  checked-IsValidated store op book pack evidence_id named loaded current h =
      let p = validate-Patched store op book pack h in
      let (sealed, hash) =
        matching-digests rt sl host p.authorization book pack (host.hash_json p.patch) p.matched in
      let verdict = opt_eq-some pack.package_sha256 op.verdict_hash _ p.sealed sealed in
      record {
        evidence_id = evidence_id;
        pack = pack;
        authorization = p.authorization;
        patch = p.patch;
        made = p.made;
        requested = λ f v l. same-dict_eq json_eq f op.requested_patch p.patch v p.same l;
        size = length-dict_eq json_eq op.requested_patch p.patch p.same;
        approved = hash;
        loaded = loaded;
        named = named;
        current = current;
        found = p.found;
        digests = (
          verdict,
          opt_eq-hash op.patch_hash _ p.hashed ∙ ap some (sym hash),
          verdict ∙ sym sealed,
        );
        supported = Patched-fields op book store pack evidence_id loaded p;
      }

  -- An operation that passes validate_apply_operation has the patch that a sealed package gives for
  -- the book, and carries out a stored manual authorization of the package and of that patch, by
  -- their digests; the patch has only fields that are not locked in the book and that the evidence
  -- in the package supports.
  pub validate-IsValidated :
      (store : Store) (op : Operation Json) (book : BookRecord) (pilot : Option PilotGuard)
      → validate_apply_operation rt sl host store op book pilot ≡ some tt
      → IsValidated store op book
  unfolding validate_apply_operation
  validate-IsValidated store op book pilot h =
      let (_, h1) = require-eq-some _ _ h in
      let (_, h2) = require-eq-some _ _ h1 in
      let (evidence_id, named, h3) = >>=-eq-some op.evidence_id _ h2 in
      let (pack, loaded, h4) =
        >>=-eq-some (load_v2_package rt sl store.packages evidence_id) _ h3 in
      let (current, h5) = require-eq-some _ _ h4 in
      let (_, _, h6) = >>=-eq-some (validate_pilot rt sl host store pilot op pack) _ h5 in
      checked-IsValidated store op book pack evidence_id named loaded current h6

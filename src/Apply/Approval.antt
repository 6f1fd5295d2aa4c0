-- ===== src/Apply/Approval.antt =====
-- What approves an operation that `queue_v2_operation` creates: the sealed package, its evidence,
-- and the authorization of the exact patch.
use calibre_bookwarden.Prelude.{
  ℕ, ◌≡◌, refl, ap, ◌∙◌, String, true, none, some, List, [], ◌∷◌, str_eq, eq_iff, is_some,
  Option-cases, Bool-cases, inl, inr, if◌then◌else◌, arith,
}
use calibre_bookwarden.Prelude.Dict.{Dict, lookup}
use calibre_bookwarden.Verdict.{Text}
use calibre_bookwarden.Operations.{Operation, new_operation}
use calibre_bookwarden.Identity.{Json, Runtime, IdentityTier, tier_a, allowed_patch_fields}
use calibre_bookwarden.Identity.Patch.{canonical_patch}
use calibre_bookwarden.Identity.Dump.{lookup-dump_fields}
use calibre_bookwarden.Identity.TierA.{Anchored}
use calibre_bookwarden.Identity.Evidence.{IsSupported}
use calibre_bookwarden.Package.{EvidencePackageV2, Sealing, verify_seal}
use calibre_bookwarden.Package.Derived.{verify_seal-IsSupported}
use calibre_bookwarden.Apply.{
  BookRecord, EvidencePackage, ManualAuthorization, PilotSession, Store, Host, find_row, find_book,
  find_authorization,
}
use calibre_bookwarden.Apply.Checks.{
  is_tier_a_of, drop_locked, book_snapshot_valid, authorization_matches, v2_patch, package_valid,
  load_v2_package,
}
use calibre_bookwarden.Apply.Queue.{apply_request, authorized}

-- A patch without locked fields keeps the values of the others.
lookup-drop_locked :
    (f : String) (locks patch : Dict Json)
    → lookup f (drop_locked locks patch)
      ≡ (if is_some (lookup f locks) then none else lookup f patch)
unfolding drop_locked lookup
lookup-drop_locked f locks [] = ground arith
lookup-drop_locked f locks ((g, v) ∷ patch) = elim (Bool-cases (str_eq g f)) [
  | inl e ↦ elim (Bool-cases (is_some (lookup f locks))) [
    | inl b ↦ ground (arith, lookup-drop_locked f locks patch, (eq_iff g f).0 e)
    | inr b ↦ ground (arith, (eq_iff g f).0 e)
  ]
  | inr e ↦ ground (arith, lookup-drop_locked f locks patch)
]

pub tier-is_tier_a_of : (t : IdentityTier) → is_tier_a_of t ≡ true → t ≡ tier_a
tier-is_tier_a_of t h = ground arith

module _ (rt : Runtime) (sl : Sealing) (host : Host) where
  -- The operation carries out the authorization of one exact patch, with the digest of the package
  -- that it was given for, and changes only fields that are not locked in the book and that the
  -- evidence in the package supports.
  pub record IsApproved (store : Store) (evidence_id authorization_id : String)
      (op : Operation Json) : Type 0 where
    pub pack : EvidencePackageV2
    pub book : BookRecord
    pub authorization : ManualAuthorization
    pub loaded : load_v2_package rt sl store.packages evidence_id ≡ some pack
    pub booked : find_book op.book_key store.books ≡ some book
    pub found : find_authorization authorization_id store.authorizations ≡ some authorization
    pub digests :
        (op.verdict_hash ≡ some authorization.verdict_hash)
        × (op.patch_hash ≡ some authorization.patch_hash)
        × (authorization.patch_hash ≡ host.hash_json op.requested_patch)
        × (op.verdict_hash ≡ pack.package_sha256)
    pub supported :
        (f : String) (v : Json)
        → lookup f op.requested_patch ≡ some v
        → (lookup f book.field_locks ≡ none)
          × ((identifier : Text) × Anchored rt pack.formats pack.source_evidence identifier
              × IsSupported rt pack.source_evidence identifier f)

  pub seal-load_v2_package :
      (rows : List EvidencePackage) (evidence_id : String) (pack : EvidencePackageV2)
      → load_v2_package rt sl rows evidence_id ≡ some pack
      → verify_seal rt sl pack ≡ true
  unfolding load_v2_package package_valid
  seal-load_v2_package rows evidence_id pack h =
      elim (Option-cases (find_row (λ (row : EvidencePackage). row.evidence_id) evidence_id rows)) [
        | inl e ↦ absurd (ground arith)
        | inr (row, e) ↦ elim (Option-cases row.observations) [
          | inl n ↦ absurd (ground arith)
          | inr (p, o) ↦ ground arith
        ]
      ]

  -- A patch for a book has only fields of the package's patch, and none that is locked.
  pub lookup-v2_patch :
      (pack : EvidencePackageV2) (book : BookRecord) (patch : Dict Json) (f : String) (v : Json)
      → v2_patch rt pack book ≡ some patch
      → lookup f patch ≡ some v
      → (lookup f book.field_locks ≡ none)
        × ((w : Json) × (lookup f pack.identity.auto_patch ≡ some w))
  unfolding v2_patch canonical_patch
  lookup-v2_patch pack book patch f v h l =
      elim (Option-cases (canonical_patch rt pack.identity.auto_patch)) [
        | inl e ↦ absurd (ground arith)
        | inr (dumped, e) ↦ elim (Option-cases (lookup f pack.identity.auto_patch)) [
          | inl n ↦ absurd (
              ground (
                arith,
                lookup-drop_locked f book.field_locks dumped,
                lookup-dump_fields rt f allowed_patch_fields pack.identity.auto_patch dumped n e,
              ))
          | inr (w, o) ↦ (ground (arith, lookup-drop_locked f book.field_locks dumped), (w, o))
        ]
      ]

  -- What `authorized` found.
  pub record Authorized (store : Store) (evidence_id authorization_id : String)
      (pack : EvidencePackageV2) (book : BookRecord) (patch : Dict Json)
      (authorization : ManualAuthorization) : Type 0 where
    loaded : load_v2_package rt sl store.packages evidence_id ≡ some pack
    booked : find_book pack.book_key store.books ≡ some book
    tier : pack.identity.tier ≡ tier_a
    snapshot : book_snapshot_valid book pack ≡ true
    patched : v2_patch rt pack book ≡ some patch
    found : find_authorization authorization_id store.authorizations ≡ some authorization
    matched : authorization_matches (some authorization) book pack (host.hash_json patch) ≡ true

  pub authorized-Authorized :
      (store : Store) (evidence_id authorization_id : String) (pack : EvidencePackageV2)
      (book : BookRecord) (patch : Dict Json) (authorization : ManualAuthorization)
      → authorized rt sl host store evidence_id authorization_id
        ≡ some (pack, book, patch, authorization)
      → Authorized store evidence_id authorization_id pack book patch authorization
  unfolding authorized
  authorized-Authorized store evidence_id authorization_id pack book patch authorization h =
      elim (Option-cases (load_v2_package rt sl store.packages evidence_id)) [
        | inl e ↦ absurd (ground arith)
        | inr (p, loaded) ↦ elim (Option-cases (find_book p.book_key store.books)) [
          | inl e ↦ absurd (ground arith)
          | inr (b, booked) ↦ elim (Option-cases (v2_patch rt p b)) [
            | inl e ↦ absurd (ground arith)
            | inr (t, patched) ↦
                elim (Option-cases (find_authorization authorization_id store.authorizations)) [
                  | inl e ↦ absurd (ground arith)
                  | inr (a, found) ↦
                      let same : (p ≡ pack) × (b ≡ book) × (t ≡ patch) × (a ≡ authorization) =
                        ground arith in
                      record {
                        loaded = ground arith;
                        booked = ground arith;
                        tier = ground (arith, tier-is_tier_a_of pack.identity.tier);
                        snapshot = ground arith;
                        patched = ground arith;
                        found = ground arith;
                        matched = ground arith;
                      }
                ]
          ]
        ]
      ]

  pub matching-digests :
      (a : ManualAuthorization) (book : BookRecord) (pack : EvidencePackageV2) (patch_hash : String)
      → authorization_matches (some a) book pack patch_hash ≡ true
      → (pack.package_sha256 ≡ some a.verdict_hash) × (a.patch_hash ≡ patch_hash)
  unfolding authorization_matches
  matching-digests a book pack patch_hash h = elim (Option-cases pack.package_sha256) [
    | inl e ↦ absurd (ground arith)
    | inr (digest, e) ↦ ground (arith, eq_iff a.verdict_hash digest, eq_iff a.patch_hash patch_hash)
  ]

  snapshot-book_key :
      (book : BookRecord) (pack : EvidencePackageV2)
      → book_snapshot_valid book pack ≡ true
      → book.book_key ≡ pack.book_key
  unfolding book_snapshot_valid
  snapshot-book_key book pack h = ground (arith, eq_iff book.book_key pack.book_key)

  pub Authorized-IsApproved :
      (store : Store) (evidence_id authorization_id : String) (pack : EvidencePackageV2)
      (book : BookRecord) (patch : Dict Json) (a : ManualAuthorization) (stored : PilotSession)
      (operation_id : String) (now : ℕ)
      → Authorized store evidence_id authorization_id pack book patch a
      → IsApproved store evidence_id authorization_id (
          new_operation operation_id now
            (apply_request rt sl host pack book patch a.authorization_id stored))
  unfolding apply_request
  Authorized-IsApproved store evidence_id authorization_id pack book patch a stored operation_id now
        h =
      let (sealed, hash) = matching-digests a book pack (host.hash_json patch) h.matched in
      record {
        pack = pack;
        book = book;
        authorization = a;
        loaded = h.loaded;
        booked =
            ap (λ (key : String). find_book key store.books)
              (snapshot-book_key book pack h.snapshot)
            ∙ h.booked;
        found = h.found;
        digests = (sealed, ground arith, hash, refl);
        supported = λ f v l.
            let (free, (w, has)) = lookup-v2_patch pack book patch f v h.patched l in
            (
              free,
              verify_seal-IsSupported rt sl pack f w
                  (seal-load_v2_package store.packages evidence_id pack h.loaded) h.tier has,
            );
      }

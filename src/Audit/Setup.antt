-- ===== src/Audit/Setup.antt =====
-- `LibraryAuditPipeline.__init__` of src/calibre_ai_auditor/verification/pipeline_v2.py, with every way in
-- which it raises, and the keys that src/calibre_ai_auditor/verification/service_v2.py makes itself.
use calibre_bookwarden.Prelude.{
  ℕ, ◌≡◌, sym, ap, Option-cases, inl, inr, arith, String, Option, none, some, str_append, codes,
}
use calibre_bookwarden.Verdict.{Text}
use calibre_bookwarden.Identity.Patch.{is_sha256}
use calibre_bookwarden.Package.{SourceKind, BookSourceDescriptor, Sealing}
use calibre_bookwarden.Audit.{Reading, Pipeline, remote_key}
use calibre_bookwarden.Audit.Steps.{Answer, answers}
use calibre_bookwarden.Audit.Answers.{◌>>=◌, ◌>>◌, ensure, found, Answer-cases}

-- The reader's attributes, and what the pipeline is given.
pub record Setup : Type 0 where
  -- `source_kind`, where it is one of the two that materialize files
  pub source_kind : Option SourceKind
  -- `str(fingerprint)`
  pub fingerprint : String
  -- `library_path`, where it is true
  pub library_path : Option Text
  -- `ensure_secure_directory(scratch_root)`, where there is a scratch root
  pub scratch_root : Option (Answer (Unit {0}))
  pub run_id : String

module _ (rd : Reading) where
  -- `BookSourceDescriptor(…)`, with its validator of the fingerprint
  unfoldable pub new_source : SourceKind → String → Answer BookSourceDescriptor
  new_source kind value =
      let canonical = rd.strip_lower value in
      ensure (is_sha256 (codes canonical)) rd.source_message
      >> answers (record { kind = kind; fingerprint = canonical })

  abbrev pub root_of : Option Text → Option Text
  root_of none = none
  root_of (some path) = some (rd.absolute_path path)

  -- `LibraryAuditPipeline.__init__`
  unfoldable pub new_pipeline : Setup → Answer Pipeline
  new_pipeline setup = elim setup.source_kind [
    | none ↦
        answers (record {
          source = none;
          library_root = root_of setup.library_path;
          run_id = setup.run_id;
        })
    | some kind ↦ new_source kind setup.fingerprint >>= λ (source : BookSourceDescriptor).
        found setup.scratch_root "materialized Calibre verification requires a scratch root"
        >>= λ (secured : Answer (Unit {0})).
            secured
            >> answers (record { source = some source; library_root = none; run_id = setup.run_id })
  ]

-- The f-strings of `run_persisted_library_audit`, from the fingerprint as the reader has it
unfoldable pub service_key : Sealing → Setup → ℕ → String
service_key sl setup id = elim setup.source_kind [
  | none ↦ str_append "calibre:" (sl.show_id id)
  | some kind ↦ remote_key sl kind setup.fingerprint id
]

-- The pipeline is for the run that it is given.
pub run_id-new_pipeline :
    (rd : Reading) (setup : Setup) (p : Pipeline)
    → new_pipeline rd setup ≡ answers p
    → p.run_id ≡ setup.run_id
unfolding new_pipeline
run_id-new_pipeline rd setup p h = elim (Option-cases setup.source_kind) [
  | inl k ↦
      let same : record {
        source = none;
        library_root = root_of rd setup.library_path;
        run_id = setup.run_id;
      }
          ≡ p =
        ground (arith, h, k) in
      sym (ap (λ (q : Pipeline). q.run_id) same)
  | inr (kind, k) ↦ elim (Answer-cases (new_source rd kind setup.fingerprint)) [
    | inr (e, n) ↦ absurd (ground (arith, h, k, n))
    | inl (source, n) ↦ elim (Option-cases setup.scratch_root) [
      | inl r ↦ absurd (ground (arith, h, k, n, r))
      | inr (secured, r) ↦ elim (Answer-cases secured) [
        | inr (e, c) ↦ absurd (ground (arith, h, k, n, r, c))
        | inl (u, c) ↦
            let same : record { source = some source; library_root = none; run_id = setup.run_id }
                ≡ p =
              ground (arith, h, k, n, r, c) in
            sym (ap (λ (q : Pipeline). q.run_id) same)
      ]
    ]
  ]
]

-- ===== src/Audit/Spared.antt =====
-- The inspection of a book raises SourceChangedError with the snapshot of that book.
use calibre_bookwarden.Prelude.{◌≡◌, refl, not, List, [], ◌∷◌}
use calibre_bookwarden.Prelude.Dict.{Dict, insert}
use calibre_bookwarden.Verdict.{Text}
use calibre_bookwarden.Identity.{Json, Runtime, SourceEvidence}
use calibre_bookwarden.Identity.Patch.{get_json}
use calibre_bookwarden.Package.{BookSnapshot, Sealing, are_distinct}
use calibre_bookwarden.Audit.{show_key, Reading, Pipeline, new_snapshot}
use calibre_bookwarden.Audit.Steps.{
  Failure, Answer, source_changed_error, library_changed_error, fault, error, Action, pure, call,
  ◌>>=◌,
}
use calibre_bookwarden.Audit.Inspect.{
  View, RawBook, book_snapshot, inspect, file_references, inspect_local, inspect_remote,
  inspect_references, agrees, merge_evidence, is_unaltered, validated_file, changed,
}
use calibre_bookwarden.Audit.Yields.{
  Frame, Yields, Spares, Raised, pure-Yields, throw-Yields, fault-Yields, call-Yields, >>=-Yields,
  if-Yields, option-Yields, catch-Yields,
}

module _ (rt : Runtime) (rd : Reading) (sl : Sealing) (p : Pipeline) (S : Frame) where
  module _ (G : BookSnapshot → Type 0) where
    pub call-Spares {ℓ} : {A : Type ℓ} (answer : Answer A) → Spares S G (call answer)
    call-Spares answer = call-Yields S G (λ a. Unit) answer (λ a e. tt)

    pub pure-Spares {ℓ} : {A : Type ℓ} (a : A) → Spares S G (pure a)
    pure-Spares a = pure-Yields S G (λ a. Unit) a tt

    pub then-Spares {ℓ κ} :
        {A : Type ℓ} {B : Type κ} (m : Action S.State A) (f : A → Action S.State B)
        → Spares S G m
        → ((a : A) → Spares S G (f a))
        → Spares S G (m >>= f)
    then-Spares m f h k = >>=-Yields S G (λ a. Unit) (λ b. Unit) m f h (λ a u. k a)

    Spares-file_references :
        (view : View) (formats : Json) → Spares S G (file_references rt rd sl p view formats)
    unfolding file_references
    Spares-file_references view formats =
        option-Yields S G (λ a. Unit) p.source _ _
          (λ source e.
            then-Spares (call (view.format_references formats)) _
              (call-Spares (view.format_references formats))
              λ references.
                if-Yields S G (λ a. Unit) (are_distinct references) _ _
                  (λ t. pure-Spares references) (λ t. fault-Yields S G (λ a. Unit) _))
          (λ e. pure-Spares _)

    Spares-validated_file :
        (book : RawBook) (path : Text) → Spares S G (validated_file rt rd sl p book path)
    unfolding validated_file
    Spares-validated_file book path =
        option-Yields S G (λ a. Unit) p.library_root _ _
          (λ root e.
            if-Yields S G (λ a. Unit) (not (book.is_absolute path)) _ _
              (λ t. fault-Yields S G (λ a. Unit) _)
              (λ t.
                if-Yields S G (λ a. Unit) (not (book.opens_beneath root path)) _ _
                  (λ u. fault-Yields S G (λ a. Unit) _) (λ u. pure-Spares path)))
          (λ e. pure-Spares path)

    Spares-inspect_local :
        (book : RawBook) (paths : List Text) → Spares S G (inspect_local rt rd sl p book paths)
    unfolding inspect_local
    Spares-inspect_local book [] = pure-Spares []
    Spares-inspect_local book (path ∷ paths) =
        then-Spares _ _ (Spares-validated_file book path) λ file.
          then-Spares _ _ (call-Spares (book.inspector file)) λ inspection.
            then-Spares _ _ (Spares-inspect_local book paths)
              λ rest. pure-Spares (inspection ∷ rest)

    Spares-merge_evidence :
        (items : List SourceEvidence) (by_id : Dict SourceEvidence)
        → Spares S G (merge_evidence rt rd sl p items by_id)
    unfolding merge_evidence
    Spares-merge_evidence [] by_id = pure-Spares by_id
    Spares-merge_evidence (item ∷ items) by_id =
        if-Yields S G (λ a. Unit) (agrees rt rd sl p by_id item) _ _
          (λ t. Spares-merge_evidence items (insert item.evidence_id item by_id))
          (λ t. fault-Yields S G (λ a. Unit) _)

    Spares-inspect_references :
        (book : RawBook) (snapshot : BookSnapshot) (references : List Text)
        (by_id : Dict SourceEvidence)
        → Spares S G (inspect_references rt rd sl p book snapshot references by_id)
    unfolding inspect_references
    Spares-inspect_references book snapshot [] by_id = pure-Spares ([], by_id)
    Spares-inspect_references book snapshot (reference ∷ references) by_id =
        then-Spares _ _ (call-Spares (book.inspector reference)) λ inspection.
          then-Spares _ _
            (option-Yields S G (λ a. Unit) book.collect_materialized _ _
              (λ collector e.
                then-Spares _ _ (call-Spares (collector snapshot inspection))
                  λ items. Spares-merge_evidence items by_id)
              (λ e. pure-Spares by_id))
            λ merged.
              then-Spares _ _ (Spares-inspect_references book snapshot references merged)
                λ rest. pure-Spares _

    Spares-changed {ℓ} :
        (A : Type ℓ) (snapshot : BookSnapshot) (e : Failure)
        → G snapshot
        → Raised G e
        → Yields S G (λ (a : A). Unit) (changed {A = A} snapshot e)
    Spares-changed A snapshot (source_changed_error s) g r = throw-Yields S G (λ a. Unit) s r
    Spares-changed A snapshot (fault (library_changed_error m)) g r =
        throw-Yields S G (λ a. Unit) snapshot g
    Spares-changed A snapshot (fault (error m)) g r = fault-Yields S G (λ a. Unit) (error m)

    Spares-inspect_remote :
        (book : RawBook) (snapshot : BookSnapshot)
        → G snapshot
        → Spares S G (inspect_remote rt rd sl p book snapshot)
    unfolding inspect_remote
    Spares-inspect_remote book snapshot g =
        then-Spares _ _
          (catch-Yields S G G (λ a. Unit) _ _
            (Spares-inspect_references book snapshot snapshot.files [])
            (λ e r. Spares-changed _ snapshot e g r))
          λ found. then-Spares _ _ (call-Spares (book.collect snapshot found.0)) λ items.
            then-Spares _ _ (Spares-merge_evidence items found.1) λ merged.
              then-Spares _ _ (call-Spares book.later_view.show_metadata) λ current_raw.
                then-Spares _ _
                  (Spares-file_references book.later_view (get_json "formats" current_raw))
                  λ files.
                    then-Spares _ _
                      (if-Yields S G (λ a. Unit)
                        (is_unaltered rt rd sl p snapshot current_raw files) _ _
                        (λ t.
                          catch-Yields S G G (λ a. Unit) _ _ (call-Spares book.assert_unchanged)
                            (λ e r. Spares-changed _ snapshot e g r))
                        (λ t. throw-Yields S G (λ a. Unit) snapshot g))
                      λ u. pure-Spares _

    pub Spares-inspect :
        (book : RawBook) (snapshot : BookSnapshot)
        → G snapshot
        → Spares S G (inspect rt rd sl p book snapshot)
    unfolding inspect
    Spares-inspect book snapshot g =
        option-Yields S G (λ a. Unit) p.source _ _
          (λ source e. Spares-inspect_remote book snapshot g)
          (λ e. then-Spares _ _ (Spares-inspect_local book snapshot.files) λ inspections.
            then-Spares _ _ (call-Spares (book.collect snapshot inspections))
              λ items. pure-Spares (inspections, items))

    -- A snapshot of a book has the key of the book.
    pub Yields-book_snapshot :
        (book : RawBook) (view : View)
        → Yields S G
            (λ (s : BookSnapshot). s.book_key ≡ show_key sl p.source book.id)
            (book_snapshot rt rd sl p book view)
    unfolding book_snapshot new_snapshot
    Yields-book_snapshot book view =
        >>=-Yields S G (λ a. Unit) _ _ _ (call-Spares view.show_metadata)
          λ current_raw u.
            >>=-Yields S G (λ a. Unit) _ _ _ (Spares-file_references view _)
              λ files u. pure-Yields S G _ _ refl

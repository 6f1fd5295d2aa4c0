-- ===== src/Audit.antt =====
-- The reading of books in src/calibre_ai_auditor/verification/pipeline_v2.py: the current metadata in
-- normal form, the files of a book, its snapshot. What the code takes from `str`, `isinstance`,
-- `json` and `hashlib` is the record `Reading`.
pub mod Steps
pub mod Inspect
pub mod Drafts
pub mod Run
pub mod Yields
pub mod Spared
pub mod Reports
pub mod Reported
pub mod Gives
pub mod Sealable
pub mod Returned
pub mod Answers
pub mod Setup
pub mod Rows
pub mod Store
pub mod Stored
pub mod Service
pub mod Resumed
pub mod Grows
pub mod Ended
use mathlib.Core.List
use calibre_bookwarden.Prelude.{
  ℕ, str_append, String, Bool, true, false, not, Option, none, some, List, [], ◌∷◌, ◌++◌, ◌==◌,
  keep, codes, strip, is_nonempty, is_some, if◌then◌else◌,
}
use calibre_bookwarden.Prelude.Dict.{Dict, lookup}
use calibre_bookwarden.Verdict.{Text}
use calibre_bookwarden.Identity.{
  Json, null, str, strs, ids, other, Runtime, FormatEvidence, SourceEvidence,
}
use calibre_bookwarden.Identity.Patch.{get_json, or_null}
use calibre_bookwarden.Package.{
  SourceKind, calibre_content_server, offline_calibre_snapshot, BookSourceDescriptor, BookSnapshot,
  Sealing, calculated_sha256,
}

pub record Reading : Type 0 where
  -- `[str(item) for item in value]` of a list that has other items than str
  pub items_of : Text → List Text
  -- the str items and the paths of the dict items of such a list, in order
  pub paths_of : Text → List Text
  -- whether a value that is no dict of str is a dict
  pub is_dict : Text → Bool
  -- `str(error)[:500]` of the ValidationError of a resolution
  pub validation_message : String
  -- `bool(value)`
  pub is_true : Json → Bool
  -- `_canonical_json_hash(raw)`
  pub raw_digest : Dict Json → Text
  -- `_canonical_json_hash(book_keys)`
  pub keys_digest : List String → String
  -- `value.strip().lower()`
  pub strip_lower : String → String
  -- `str(error)[:500]` of the ValidationError of a source
  pub source_message : String
  -- `os.path.abspath(path)`
  pub absolute_path : Text → Text
  -- `a == b` of two SourceEvidence, on all fields
  pub same_evidence : SourceEvidence → SourceEvidence → Bool

-- The attributes that `LibraryAuditPipeline.__init__` sets, and `_run_id`. A reader has a source or a
-- root, never both.
pub record Pipeline : Type 0 where
  pub source : Option BookSourceDescriptor
  pub library_root : Option Text
  pub run_id : String

abbrev pub source_prefix : SourceKind → String
source_prefix calibre_content_server = "calibre-server"
source_prefix offline_calibre_snapshot = "calibre-offline"

-- `f"{prefix}:{fingerprint}:{id}"`
abbrev pub remote_key : Sealing → SourceKind → String → ℕ → String
remote_key sl kind fingerprint id =
    str_append (source_prefix kind)
      (str_append ":" (str_append fingerprint (str_append ":" (sl.show_id id))))

-- `_book_key`
unfoldable pub show_key : Sealing → Option BookSourceDescriptor → ℕ → String
show_key sl none id = str_append "calibre:" (sl.show_id id)
show_key sl (some source) id = remote_key sl source.kind source.fingerprint id

-- `s.split(c)`
unfoldable pub split : ℕ → Text → List Text
split c [] = [] ∷ []
split c (d ∷ s) =
    let rest = split c s in
    if d == c
    then [] ∷ rest
    else elim rest [ [] ↦ (d ∷ []) ∷ [] | part ∷ parts ↦ (d ∷ part) ∷ parts ]

-- `[item.strip() for item in items if item.strip()]`
abbrev pub strip_items : List Text → List Text
strip_items items = keep is_nonempty (List.map strip items)

-- `s.replace(c, d)` of single characters
abbrev pub replace_char : ℕ → ℕ → Text → Text
replace_char c d s = List.map (λ x. if x == c then d else x) s

-- `raw.get(name, other)`
abbrev pub get_or_else : String → Json → Dict Json → Json
get_or_else name default raw = elim (lookup name raw) [ none ↦ default | some value ↦ value ]

module _ (rd : Reading) where
  -- `_normalize_authors`
  unfoldable pub normalize_authors : Json → List Text
  normalize_authors (strs items) = strip_items items
  normalize_authors (str s) = strip_items (split b'&' s)
  normalize_authors (other s) = strip_items (rd.items_of s)
  normalize_authors _ = []

  -- `_normalize_languages`
  unfoldable pub normalize_languages : Runtime → Json → List Text
  normalize_languages rt (strs items) = List.map rt.lower (strip_items items)
  normalize_languages rt (str s) =
      List.map rt.lower (strip_items (split b',' (replace_char b';' b',' s)))
  normalize_languages rt (other s) = List.map rt.lower (strip_items (rd.items_of s))
  normalize_languages rt _ = []

  abbrev pub dict_or_empty : Json → Json
  dict_or_empty (ids m) = ids m
  dict_or_empty (other s) = if rd.is_dict s then other s else ids []
  dict_or_empty _ = ids []

  -- `_canonical_current`
  unfoldable pub canonical_current : Runtime → Dict Json → Dict Json
  canonical_current rt raw =
      ("title", get_json "title" raw)
      ∷ ("authors", strs (normalize_authors (get_json "authors" raw)))
      ∷ ("identifiers", dict_or_empty (get_json "identifiers" raw))
      ∷ (
        "languages",
        strs (normalize_languages rt (get_or_else "languages" (get_json "language" raw) raw)),
      )
      ∷ ("publisher", get_json "publisher" raw)
      ∷ ("pubdate", get_or_else "pubdate" (get_json "published_date" raw) raw)
      ∷ ("series", get_json "series" raw)
      ∷ ("series_index", get_json "series_index" raw)
      ∷ ("edition_statement", get_or_else "#edition" (get_json "edition_statement" raw) raw)
      ∷ ("cover", get_json "cover" raw)
      ∷ []

  -- `_format_paths`
  unfoldable pub format_paths : Json → List Text
  format_paths (strs items) = strip_items items
  format_paths (str s) = strip_items (split b',' s)
  format_paths (other s) = rd.paths_of s
  format_paths _ = []

  module _ (rt : Runtime) (sl : Sealing) where
    -- `_new_snapshot`
    unfoldable pub new_snapshot : Pipeline → ℕ → Dict Json → List Text → Option Text → BookSnapshot
    new_snapshot p book_id current files revision =
        let snapshot : BookSnapshot = record {
          book_key = show_key sl p.source book_id;
          calibre_book_id = book_id;
          current_metadata = current;
          files = files;
          library_root = p.library_root;
          source = p.source;
          source_revision_sha256 = revision;
          snapshot_sha256 = "0000000000000000000000000000000000000000000000000000000000000000";
        } in
        record snapshot { snapshot_sha256 = calculated_sha256 rt sl snapshot }

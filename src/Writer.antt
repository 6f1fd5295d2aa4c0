-- ===== src/Writer.antt =====
-- The metadata writer, src/calibre_ai_auditor/apply/writer.py: the rows that one operation involves, how
-- a run on them ends, and the comparison of metadata with a patch. Calibre, the artifact files and
-- the checks of a package's files are reached by calls, whose answers are arguments of the model.
pub mod Steps
pub mod Process
pub mod Undo
pub mod Reconcile
pub mod Claim
pub mod Closed
pub mod Moves
pub mod Applying
pub mod Undoing
pub mod Turn
pub mod Interrupted
pub mod Recovering
pub mod Recovered
pub mod Checked
use calibre_bookwarden.Prelude.{
  ℕ, String, Bool, true, false, not, ◌&&◌, Option, none, some, List, [], ◌∷◌, ◌==◌, codes,
  is_nonempty, is_some, str_eq, text_eq, if◌then◌else◌,
}
use calibre_bookwarden.Prelude.Dict.{Dict, lookup}
use calibre_bookwarden.Verdict.{Text}
use calibre_bookwarden.Operations.{Operation, OutboxEvent}
use calibre_bookwarden.Identity.{Json, null, str, strs, ids, other}
use calibre_bookwarden.Identity.Patch.{get_json}
use calibre_bookwarden.Identity.Compare.{json_eq}
use calibre_bookwarden.Apply.{BookRecord, BookWriteLock}

-- The row Change.
pub record Change : Type 0 where
  pub change_id : ℕ
  pub operation_id : Option String
  pub book_key : String
  pub run_id : String
  pub before_metadata : Dict Json
  pub after_metadata : Dict Json
  pub backup_opf_path : Text
  pub backup_opf_sha256 : Option String
  pub backup_cover_path : Option Text
  pub backup_cover_sha256 : Option String
  pub before_custom : Dict Text
  pub status : String

-- An exception: whether it is an OSError or a ValueError, and its `str`.
pub record Exception : Type 0 where
  pub is_expected : Bool
  pub message : String

pub data Answer {ℓ} (A : Type ℓ) : Type ℓ where
  answers : A → Answer A
  raises : Exception → Answer A

-- The rows of one operation: the ledger's, the book's, the outbox event's, the lock on the book, and
-- the change. An undo operation has the book_key of its change.
pub record Rows : Type 0 where
  pub operation : Operation Json
  pub book : Option BookRecord
  pub event : OutboxEvent
  pub lock : Option BookWriteLock
  pub change : Option Change

-- How a run ends: with all changes committed, or with an exception after the rows it committed.
pub data Outcome : Type 0 where
  returns : Rows → Outcome
  fails : Exception → Rows → Outcome

-- What the code takes from `str`, `isinstance`, `hashlib` and the file system.
pub record Calibre : Type 0 where
  -- `str(value)` and `bool(value)` of values that are neither str, list of str nor dict of str
  pub text_of : Json → Text
  pub is_truthy : Text → Bool
  -- the items of a value that is a dict, the number of one that is an int
  pub as_dict : Json → Option (Dict Json)
  pub as_int : Json → Option ℕ
  -- `_sha256_file(path)` of a regular file
  pub file_sha256 : Text → Option Text

module _ (cal : Calibre) where
  abbrev pub is_true : Json → Bool
  is_true null = false
  is_true (str s) = is_nonempty s
  is_true (strs l) = is_nonempty l
  is_true (ids m) = is_nonempty m
  is_true (other s) = cal.is_truthy s

  -- `str(value or "")`
  abbrev pub text_or_blank : Json → Text
  text_or_blank (str s) = s
  text_or_blank v = if is_true v then cal.text_of v else []

  -- `a or b`
  abbrev pub value_or : Json → Json → Json
  value_or a b = if is_true a then a else b

  -- The cover of the observed metadata is the file with the digest of the patch.
  abbrev pub cover_matches : Dict Json → Dict Json → Bool
  cover_matches observed expected = elim (get_json "cover" observed) [
    | str path ↦ elim (cal.file_sha256 path) [
      | none ↦ false
      | some digest ↦ json_eq (str digest) (get_json "artifact_sha256" expected)
    ]
    | _ ↦ false
  ]

  -- One turn of the loop in `_matches_patch`.
  unfoldable pub field_matches : Dict Json → String → Json → Bool
  field_matches observed field expected =
      if str_eq field "last_modified"
      then true
      else if str_eq field "edition_statement"
      then text_eq
          (text_or_blank
            (value_or (get_json "#edition" observed) (get_json "edition_statement" observed)))
          (text_or_blank expected)
      else if str_eq field "cover"
      then elim (cal.as_dict expected) [
        | some cover ↦ cover_matches observed cover
        | none ↦ json_eq (get_json field observed) expected
      ]
      else json_eq (get_json field observed) expected

  -- `_matches_patch`
  unfoldable pub matches_patch : Dict Json → Dict Json → Bool
  matches_patch observed [] = true
  matches_patch observed ((field, expected) ∷ patch) =
      field_matches observed field expected && matches_patch observed patch

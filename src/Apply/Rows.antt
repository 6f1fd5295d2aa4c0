-- ===== src/Apply/Rows.antt =====
-- Lookups in a table after a row was saved or added.
use calibre_bookwarden.Prelude.{
  ◌+◌, ◌≡◌, refl, String, none, some, List, [], ◌∷◌, ◌++◌, str_eq, eq_iff, Bool-cases, inl, inr,
  if◌then◌else◌, arith,
}
use calibre_bookwarden.Operations.{Operation}
use calibre_bookwarden.Identity.{Json}
use calibre_bookwarden.Apply.{find_row, save_row}
use calibre_bookwarden.Apply.Checks.{opt_eq}
use calibre_bookwarden.Apply.Queue.{pilot_operation_count}

module _ {A : Type 0} (key : A → String) where
  -- The row found has the key searched for.
  pub key-find_row :
      (k : String) (rows : List A) (row : A) → find_row key k rows ≡ some row → key row ≡ k
  unfolding find_row
  key-find_row k [] row h = absurd (cc)
  key-find_row k (r ∷ rows) row h = elim (Bool-cases (str_eq (key r) k)) [
    | inl e ↦ ground (arith, eq_iff (key r) k)
    | inr e ↦ key-find_row k rows row (ground arith)
  ]

  pub find_row-append :
      (k : String) (rows : List A) (new : A)
      → find_row key k (rows ++ new ∷ []) ≡ elim (find_row key k rows) [
        | some row ↦ some row
        | none ↦ if str_eq (key new) k then some new else none
      ]
  unfolding find_row
  find_row-append k [] new = refl
  find_row-append k (r ∷ rows) new = ground (arith, find_row-append k rows new)

  -- A saved row replaces the row with its key, and no other.
  pub find_row-save_row :
      (k : String) (new : A) (rows : List A)
      → find_row key k (save_row key new rows) ≡ (
          if str_eq (key new) k
          then elim (find_row key k rows) [ some row ↦ some new | none ↦ none ]
          else find_row key k rows)
  unfolding find_row save_row
  find_row-save_row k new [] = ground arith
  find_row-save_row k new (r ∷ rows) = ground (
    arith,
    find_row-save_row k new rows,
    eq_iff (key r) (key new),
    eq_iff (key new) k,
    eq_iff (key r) k,
  )

pub pilot_operation_count-append :
    (ops : List (Operation Json)) (op : Operation Json) (id : String)
    → pilot_operation_count (ops ++ op ∷ []) id
      ≡ pilot_operation_count ops id + (if opt_eq op.pilot_id (some id) then 1 else 0)
unfolding pilot_operation_count
pilot_operation_count-append [] op id = ground arith
pilot_operation_count-append (o ∷ ops) op id =
    ground (arith, pilot_operation_count-append ops op id)

-- ===== src/Writer/Moves.antt =====
-- What a transition that is made does to the operation.
use calibre_bookwarden.Prelude.{ℕ, ◌≡◌, String, Option, some, Option-cases, inl, inr, arith}
use calibre_bookwarden.Operations.{OpState, transition_operation}
use calibre_bookwarden.Writer.{Rows}
use calibre_bookwarden.Writer.Steps.{move}

-- A transition that is made sets the state.
pub moved-state :
    (state : OpState) (error : Option String) (now : ℕ) (rows rows' : Rows)
    → move state error now rows ≡ some rows'
    → rows'.operation.state ≡ state
unfolding move transition_operation
moved-state state error now rows rows' h =
    elim (Option-cases (transition_operation rows.operation state error now)) [
      | inl e ↦ absurd (ground arith)
      | inr (op, e) ↦ ground arith
    ]

pub moved-target :
    (state : OpState) (error : Option String) (now : ℕ) (rows rows' : Rows)
    → move state error now rows ≡ some rows'
    → rows'.operation.target_metadata ≡ rows.operation.target_metadata
unfolding move transition_operation
moved-target state error now rows rows' h =
    elim (Option-cases (transition_operation rows.operation state error now)) [
      | inl e ↦ absurd (ground arith)
      | inr (op, e) ↦ ground arith
    ]

pub moved-observed :
    (state : OpState) (error : Option String) (now : ℕ) (rows rows' : Rows)
    → move state error now rows ≡ some rows'
    → rows'.operation.observed_metadata ≡ rows.operation.observed_metadata
unfolding move transition_operation
moved-observed state error now rows rows' h =
    elim (Option-cases (transition_operation rows.operation state error now)) [
      | inl e ↦ absurd (ground arith)
      | inr (op, e) ↦ ground arith
    ]

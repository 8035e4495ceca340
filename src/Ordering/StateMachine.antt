-- ===== src/Ordering/StateMachine.antt =====
-- app/modules/ordering/domain/state_machine.py: the job statuses and the table of transitions.
pub mod Lifecycle
use fast_kit.Kit.{
  String, Bool, false, not, ◌||◌, List, [], ◌∷◌, ◌==◌, if◌then◌else◌, Result, ok, err,
}

abbrev pub pending : String
pending = "PENDING"

abbrev pub received_artwork : String
received_artwork = "RECEIVED_ARTWORK"

abbrev pub prepress : String
prepress = "PREPRESS"

abbrev pub batched : String
batched = "BATCHED"

abbrev pub hold : String
hold = "HOLD"

abbrev pub canceled : String
canceled = "CANCELED"

abbrev pub complete : String
complete = "COMPLETE"

abbrev pub transitions : List (String × List String)
transitions =
    (pending, received_artwork ∷ hold ∷ canceled ∷ [])
    ∷ (received_artwork, prepress ∷ hold ∷ canceled ∷ [])
    ∷ (prepress, batched ∷ hold ∷ canceled ∷ [])
    ∷ (batched, complete ∷ hold ∷ canceled ∷ [])
    ∷ (hold, pending ∷ canceled ∷ [])
    ∷ (canceled, [])
    ∷ (complete, [])
    ∷ []

abbrev file_editable_statuses : List String
file_editable_statuses = pending ∷ hold ∷ []

-- `status in statuses`
abbrev pub contains : String → List String → Bool
contains s [] = false
contains s (t ∷ ts) = s == t || contains s ts

-- `table.get(status, [])`
abbrev pub allowed_from : String → List (String × List String) → List String
allowed_from s [] = []
allowed_from s ((t, ts) ∷ rest) = if s == t then ts else allowed_from s rest

unfoldable pub can_transition : String → String → Bool
can_transition from_status to_status = contains to_status (allowed_from from_status transitions)

-- `InvalidStatusTransitionError`, with the two statuses and the allowed ones of its message.
pub data InvalidTransition : Type 0 where
  invalid_transition : String → String → List String → InvalidTransition

unfoldable pub assert_transition : String → String → Result InvalidTransition (Unit {0})
unfolding can_transition
assert_transition from_status to_status =
    if not (can_transition from_status to_status)
    then err (invalid_transition from_status to_status (allowed_from from_status transitions))
    else ok tt

unfoldable pub is_file_editable : String → Bool
is_file_editable status = contains status file_editable_statuses

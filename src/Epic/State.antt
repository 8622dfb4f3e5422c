-- ===== src/Epic/State.antt =====
-- internal/domain/epic/epic_state.go: the state machine of an epic. `Apply`, `TransitionTo`,
-- `ForceState` and `RecordDraftingPass` read and write two fields of the epic, `State` and
-- `DraftingPasses`, which are the record `Progress` here.
pub mod Table
pub mod Drafting
pub mod Lifecycle
mod Examples
use donsy.Prelude.{Bool, true, false, ◌||◌, Option, none, some, List, [], ◌∷◌, not, if◌then◌else◌}
use donsy.Prelude.Int.{ℤ, pos, inc, ltb_ℤ}
use donsy.Text.{Text, text_eq}
use donsy.Errors.{
  Outcome, success, failure, invalid_epic_state, no_epic_event, invalid_epic_transition, ◌and_then◌,
}

-- A Go string type: `unknown` is a text that is none of the constants.
pub data EpicState : Type 0 where
  concept refine review changes_requested proposed ready done closed failed : EpicState
  unknown : Text → EpicState

pub data EpicEvent : Type 0 where
  refine review request_changes propose ready done close fail reset : EpicEvent
  unknown : Text → EpicEvent

-- `a == b` on states.
unfoldable pub epic_state_eq : EpicState → EpicState → Bool
epic_state_eq concept concept = true
epic_state_eq EpicState.refine EpicState.refine = true
epic_state_eq EpicState.review EpicState.review = true
epic_state_eq changes_requested changes_requested = true
epic_state_eq proposed proposed = true
epic_state_eq EpicState.ready EpicState.ready = true
epic_state_eq EpicState.done EpicState.done = true
epic_state_eq closed closed = true
epic_state_eq failed failed = true
epic_state_eq (EpicState.unknown s) (EpicState.unknown t) = text_eq s t
epic_state_eq _ _ = false

unfoldable pub is_epic_state : EpicState → Bool
is_epic_state (EpicState.unknown s) = false
is_epic_state _ = true

unfoldable pub epic_transition : EpicState → EpicEvent → Option EpicState
epic_transition concept EpicEvent.refine = some EpicState.refine
epic_transition changes_requested EpicEvent.refine = some EpicState.refine
epic_transition EpicState.refine EpicEvent.review = some EpicState.review
epic_transition changes_requested EpicEvent.review = some EpicState.review
epic_transition EpicState.review request_changes = some changes_requested
epic_transition proposed request_changes = some changes_requested
epic_transition EpicState.ready request_changes = some changes_requested
epic_transition EpicState.review propose = some proposed
epic_transition proposed EpicEvent.ready = some EpicState.ready
epic_transition EpicState.ready EpicEvent.done = some EpicState.done
epic_transition closed close = none
epic_transition state close = some closed
epic_transition closed fail = none
epic_transition failed fail = none
epic_transition state fail = some failed
epic_transition failed reset = some concept
epic_transition _ _ = none

-- The cases that come before `next == Closed` in the source have another `next`.
unfoldable pub epic_event_for_transition : EpicState → EpicState → Option EpicEvent
epic_event_for_transition concept EpicState.refine = some EpicEvent.refine
epic_event_for_transition changes_requested EpicState.refine = some EpicEvent.refine
epic_event_for_transition EpicState.refine EpicState.review = some EpicEvent.review
epic_event_for_transition changes_requested EpicState.review = some EpicEvent.review
epic_event_for_transition EpicState.review changes_requested = some request_changes
epic_event_for_transition proposed changes_requested = some request_changes
epic_event_for_transition EpicState.ready changes_requested = some request_changes
epic_event_for_transition EpicState.review proposed = some propose
epic_event_for_transition proposed EpicState.ready = some EpicEvent.ready
epic_event_for_transition EpicState.ready EpicState.done = some EpicEvent.done
epic_event_for_transition state closed = some close
epic_event_for_transition concept failed = some fail
epic_event_for_transition EpicState.refine failed = some fail
epic_event_for_transition EpicState.review failed = some fail
epic_event_for_transition changes_requested failed = some fail
epic_event_for_transition proposed failed = some fail
epic_event_for_transition EpicState.ready failed = some fail
epic_event_for_transition EpicState.done failed = some fail
epic_event_for_transition failed concept = some reset
epic_event_for_transition _ _ = none

pub record Progress : Type 0 where
  pub state : EpicState
  pub drafting_passes : ℤ

unfoldable pub apply : EpicEvent → Progress → Outcome Progress
unfolding is_epic_state epic_transition
apply event e =
    if not (is_epic_state e.state)
    then failure invalid_epic_state e
    else elim (epic_transition e.state event) [
      | none ↦ failure no_epic_event e
      | some next ↦ success (record e { state = next })
    ]

unfoldable pub force_state : EpicState → Progress → Outcome Progress
unfolding is_epic_state
force_state next e =
    if not (is_epic_state next)
    then failure invalid_epic_state e
    else success (record e { state = next })

unfoldable pub transition_to : EpicState → Progress → Outcome Progress
unfolding is_epic_state epic_state_eq epic_event_for_transition apply
transition_to next e =
    if not (is_epic_state next)
    then failure invalid_epic_state e
    else if epic_state_eq e.state next
    then success e
    else elim (epic_event_for_transition e.state next) [
      | none ↦ failure invalid_epic_transition e
      | some event ↦ apply event e
    ]

-- `MaxDraftingPasses`.
abbrev pub max_drafting_passes : ℤ
max_drafting_passes = pos 3

unfoldable pub record_drafting_pass : Bool → Progress → Outcome Progress
unfolding inc apply
record_drafting_pass approved e =
    let passes = inc e.drafting_passes in
    let event =
      if approved || not (ltb_ℤ passes max_drafting_passes) then propose else request_changes in
    apply event e and_then λ e'. success (record e' { drafting_passes = passes })

abbrev all_epic_states : List EpicState
all_epic_states =
    concept ∷ EpicState.refine ∷ EpicState.review ∷ changes_requested ∷ proposed ∷ EpicState.ready
    ∷ EpicState.done ∷ closed ∷ failed ∷ []

-- One round of the loop of `LegalTransitions`: is `next` offered?
is_offered : EpicState → EpicState → Bool
is_offered current next =
    if epic_state_eq next current
    then false
    else elim (epic_event_for_transition current next) [ none ↦ false | some e ↦ true ]

offered_among : EpicState → List EpicState → List EpicState
unfolding is_offered epic_state_eq epic_event_for_transition
offered_among current [] = []
offered_among current (next ∷ rest) =
    let more = offered_among current rest in if is_offered current next then next ∷ more else more

pub legal_transitions : EpicState → List EpicState
unfolding offered_among
legal_transitions current = offered_among current all_epic_states

pub next_approval_state : EpicState → Option EpicState
next_approval_state concept = some EpicState.refine
next_approval_state EpicState.refine = some EpicState.review
next_approval_state EpicState.review = some proposed
next_approval_state changes_requested = some EpicState.review
next_approval_state proposed = some EpicState.ready
next_approval_state EpicState.ready = some EpicState.done
next_approval_state _ = none

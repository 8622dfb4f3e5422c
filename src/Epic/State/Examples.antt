-- ===== src/Epic/State/Examples.antt =====
-- Lives of epics, run, and the theorems at them.
use donsy.Prelude.{◌≡◌, refl, Bool, true, false, not, ◌&&◌, List, [], ◌∷◌, any}
use mathlib.Core.List.{Memᴰ}
use donsy.Prelude.Int.{pos}
use donsy.Errors.{success, succeeds}
use donsy.Epic.State.{
  EpicState, proposed, closed, Progress, transition_to, record_drafting_pass, epic_state_eq,
  legal_transitions, next_approval_state,
}
use donsy.Epic.State.Table.{legal_transitions_exact, next_approval_legal}
use donsy.Epic.State.Drafting.{record_drafting_pass_refused}
use donsy.Epic.State.Lifecycle.{
  Call, move, verdict, perform_all, IsCommitment, ready_needs-IsCommitment,
}

abbrev in_review : Progress
in_review = record { state = EpicState.review; drafting_passes = pos 0 }

legal_transitions_exact_example :
    any (epic_state_eq proposed) (legal_transitions EpicState.review)
    ≡ (not (epic_state_eq EpicState.review proposed) && succeeds (transition_to proposed in_review))
unfolding transition_to
legal_transitions_exact_example = legal_transitions_exact EpicState.review proposed (pos 0) refl

next_approval_legal_example :
    transition_to proposed in_review
    ≡ success (record { state = proposed; drafting_passes = pos 0 })
unfolding next_approval_state
next_approval_legal_example = next_approval_legal in_review proposed refl

abbrev delivered : Progress
delivered = record { state = EpicState.done; drafting_passes = pos 2 }

record_drafting_pass_refused_example : (record_drafting_pass true delivered).0 ≡ delivered
unfolding record_drafting_pass
record_drafting_pass_refused_example = record_drafting_pass_refused true delivered refl

abbrev stubborn : List Bool
stubborn = false ∷ false ∷ false ∷ []

abbrev abandoned : Progress
abandoned = record { state = closed; drafting_passes = pos 1 }

abbrev approved_life : List Call
approved_life = verdict true ∷ move EpicState.ready ∷ []

ready_needs-IsCommitment_example : (c : Call) × Memᴰ c approved_life × IsCommitment c
unfolding perform_all
ready_needs-IsCommitment_example = ready_needs-IsCommitment approved_life in_review (λ e. cc) refl

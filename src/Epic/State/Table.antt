-- ===== src/Epic/State/Table.antt =====
-- The two tables of epic_state.go agree, and what follows for the calls made through them.
use donsy.Prelude.{
  ◌≡◌, refl, ◌↔◌, ◌⊎◌, inl, inr, ◌≢◌, true, false, ◌&&◌, not, none, some, [], ◌∷◌, arith,
  Bool-cases, Option-cases, any,
}
use donsy.Prelude.Int.{ℤ}
use donsy.Text.{Text}
use donsy.Text.Equality.{text_eq_iff}
use donsy.Errors.{succeeds, success, failure, invalid_epic_state}
use donsy.Epic.State.{
  EpicState, concept, closed, EpicEvent, epic_state_eq, is_epic_state, epic_transition,
  epic_event_for_transition, Progress, transition_to, legal_transitions, next_approval_state,
}

pub epic_state_eq_iff : (a b : EpicState) → (epic_state_eq a b ≡ true) ↔ (a ≡ b)
unfolding epic_state_eq
epic_state_eq_iff (EpicState.unknown s) (EpicState.unknown t) = ground (arith, text_eq_iff s t)
epic_state_eq_iff _ _ = ground arith

-- For an epic in one of the nine states and another state, the event that is chosen for the move
-- is exactly the event that makes it.
pub event_for_transition_iff :
    (current next : EpicState) (event : EpicEvent)
    → is_epic_state current ≡ true
    → current ≢ next
    → (epic_event_for_transition current next ≡ some event)
      ↔ (epic_transition current event ≡ some next)
unfolding epic_event_for_transition epic_transition is_epic_state
event_for_transition_iff concept next event v n = ground arith
event_for_transition_iff _ next event v n = ground arith

pub differ : (a b : EpicState) → epic_state_eq a b ≡ false → a ≢ b
differ a b h p = ground (arith, (epic_state_eq_iff a b).1 p)

stay :
    (next : EpicState) (e : Progress)
    → is_epic_state e.state ≡ true
    → epic_state_eq e.state next ≡ true
    → transition_to next e ≡ success (record e { state = next })
unfolding transition_to
stay next e v h = ground (arith, (epic_state_eq_iff e.state next).0 h)

refuse :
    (next : EpicState) (e : Progress)
    → epic_state_eq e.state next ≡ false
    → epic_event_for_transition e.state next ≡ none
    → ((transition_to next e).0 ≡ e) × (succeeds (transition_to next e) ≡ false)
unfolding transition_to
refuse next e d h = ground arith

move :
    (next : EpicState) (e : Progress)
    → is_epic_state e.state ≡ true
    → epic_state_eq e.state next ≡ false
    → (event : EpicEvent) → epic_event_for_transition e.state next ≡ some event
    → transition_to next e ≡ success (record e { state = next })
unfolding transition_to
move next e v d event h = ground arith

-- From one of the nine states, `TransitionTo` either fails and changes nothing, or ends in the
-- state asked for with the drafting passes kept; it succeeds exactly when the epic is there
-- already or some event leads there.
pub transition_to_cases :
    (next : EpicState) (e : Progress)
    → is_epic_state e.state ≡ true
    → (transition_to next e ≡ success (record e { state = next })
        × ((e.state ≡ next) ⊎ ((event : EpicEvent) × (epic_transition e.state event ≡ some next))))
      ⊎ ((transition_to next e).0 ≡ e
          × (succeeds (transition_to next e) ≡ false)
          × (e.state ≢ next)
          × ((event : EpicEvent) → epic_transition e.state event ≢ some next))
transition_to_cases next e v = elim (Bool-cases (epic_state_eq e.state next)) [
  | inl same ↦ inl (stay next e v same, inl ((epic_state_eq_iff e.state next).0 same))
  | inr other ↦ elim (Option-cases (epic_event_for_transition e.state next)) [
    | inl e' ↦ inr (
      (refuse next e other e').0,
      (refuse next e other e').1,
      differ e.state next other,
      λ event h. ground (
        arith,
        e',
        (event_for_transition_iff e.state next event v (differ e.state next other)).1 h,
      ),
    )
    | inr found ↦ inl (
      move next e v other found.0 found.1,
      inr (
        found.0,
        (event_for_transition_iff e.state next found.0 v (differ e.state next other)).0 found.1,
      ),
    )
  ]
]

-- `LegalTransitions` offers, of an epic in one of the nine states, exactly the other states that
-- `TransitionTo` accepts.
pub legal_transitions_exact :
    (current next : EpicState) (passes : ℤ)
    → is_epic_state current ≡ true
    → any (epic_state_eq next) (legal_transitions current) ≡ (
        not (epic_state_eq current next)
        && succeeds (transition_to next (record { state = current; drafting_passes = passes })))
unfolding legal_transitions transition_to
legal_transitions_exact concept next p v = ground arith
legal_transitions_exact _ next p v = ground arith

-- A state that is none of the nine is offered `Closed` alone, and `TransitionTo` refuses it and
-- changes nothing.
pub legal_transitions-unknown :
    (s : Text) (passes : ℤ)
    → (legal_transitions (EpicState.unknown s) ≡ closed ∷ [])
      × (transition_to closed (record { state = EpicState.unknown s; drafting_passes = passes })
          ≡ failure invalid_epic_state
              (record { state = EpicState.unknown s; drafting_passes = passes }))
unfolding legal_transitions transition_to
legal_transitions-unknown s p = (refl, refl)

-- The step that an approval asks for is one that `TransitionTo` makes.
pub next_approval_legal :
    (e : Progress) (next : EpicState)
    → next_approval_state e.state ≡ some next
    → transition_to next e ≡ success (record e { state = next })
unfolding next_approval_state transition_to
next_approval_legal e next h = ground arith

-- ===== src/Epic/State/Lifecycle.antt =====
-- Whole lives of an epic: sequences of the calls that move it, with their errors ignored.
use donsy.Prelude.{◌≡◌, ◌≢◌, refl, ◌⊎◌, inl, inr, Bool, List, [], ◌∷◌, arith, Bool-cases}
use donsy.Epic.State.Table.{differ, epic_state_eq_iff}
use mathlib.Core.List.{Memᴰ}
use donsy.Errors.{Outcome}
use donsy.Epic.State.{
  EpicState, proposed, closed, EpicEvent, Progress, apply, transition_to, record_drafting_pass,
  epic_state_eq,
}

-- The calls that go by the transition table. `ForceState` does not, and is left out.
pub data Call : Type 0 where
  event : EpicEvent → Call
  move : EpicState → Call
  verdict : Bool → Call

unfoldable pub perform : Call → Progress → Outcome Progress
unfolding apply transition_to record_drafting_pass
perform (event e) p = apply e p
perform (move next) p = transition_to next p
perform (verdict approved) p = record_drafting_pass approved p

unfoldable pub perform_all : List Call → Progress → Progress
unfolding perform
perform_all [] p = p
perform_all (c ∷ cs) p = perform_all cs (perform c p).0

-- No call moves a closed epic.
perform-closed : (c : Call) (p : Progress) → p.state ≡ closed → (perform c p).0 ≡ p
unfolding perform
perform-closed (event e) p h = ground arith
perform-closed (move next) p h = ground arith
perform-closed (verdict approved) p h = ground arith

-- A closed epic stays as it is under every sequence of `Apply`, `TransitionTo` and
-- `RecordDraftingPass`.
pub perform_all-closed : (cs : List Call) (p : Progress) → p.state ≡ closed → perform_all cs p ≡ p
unfolding perform_all
perform_all-closed [] p h = refl
perform_all-closed (c ∷ cs) p h = rw (perform-closed c p h) (perform_all-closed cs p h)

-- The calls by which somebody commits to a proposed epic.
pub data IsCommitment : Call → Type 0 where
  by_event : IsCommitment (event EpicEvent.ready)
  by_move : IsCommitment (move EpicState.ready)

-- A call that takes an epic into `Ready` is a commitment, made from `Proposed`.
pub perform-ready :
    (c : Call) (p : Progress)
    → (perform c p).0.state ≡ EpicState.ready
    → (p.state ≡ EpicState.ready) ⊎ (IsCommitment c × (p.state ≡ proposed))
unfolding perform
perform-ready (event e) p h = grind (arith, by_event)
perform-ready (move next) p h = grind (arith, by_move)
perform-ready (verdict approved) p h = ground arith

later :
    {c : Call} {cs : List Call}
    → (d : Call) × Memᴰ d cs × IsCommitment d
    → (d : Call) × Memᴰ d (c ∷ cs) × IsCommitment d
later (d, m, k) = (d, Memᴰ.tail m, k)

-- If a sequence of `Apply`, `TransitionTo` and `RecordDraftingPass`, their errors ignored, takes
-- an epic that is not in `Ready` into `Ready`, one of the calls is the event `ready` or a move to
-- `Ready`.
pub ready_needs-IsCommitment :
    (cs : List Call) (p : Progress)
    → p.state ≢ EpicState.ready
    → (perform_all cs p).state ≡ EpicState.ready
    → (c : Call) × Memᴰ c cs × IsCommitment c
unfolding perform_all
ready_needs-IsCommitment [] p n h = absurd (n h)
ready_needs-IsCommitment (c ∷ cs) p n h =
    elim (Bool-cases (epic_state_eq (perform c p).0.state EpicState.ready)) [
      | inl e ↦ elim (perform-ready c p ((epic_state_eq_iff _ _).0 e)) [
        | inl r ↦ absurd (n r)
        | inr k ↦ (c, Memᴰ.head refl, k.0)
      ]
      | inr e ↦ later (ready_needs-IsCommitment cs (perform c p).0 (differ _ _ e) h)
    ]

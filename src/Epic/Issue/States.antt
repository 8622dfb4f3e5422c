-- ===== src/Epic/Issue/States.antt =====
-- The life of an issue, as sequences of `TransitionTo` with their errors ignored.
use donsy.Prelude.{◌≡◌, ◌≢◌, sym, ◌↔◌, ◌⊎◌, inl, inr, true, false, List, [], ◌∷◌, arith, Bool-cases}
use mathlib.Core.List.{Memᴰ}
use donsy.Text.Equality.{text_eq_iff}
use donsy.Errors.{succeeds}
use donsy.Epic.Issue.{
  IssueState, opened, review, pr, merged, unknown, Issue, issue_state_eq, transition_to, settled,
}

pub issue_state_eq_iff : (a b : IssueState) → (issue_state_eq a b ≡ true) ↔ (a ≡ b)
unfolding issue_state_eq
issue_state_eq_iff (unknown s) (unknown t) = ground (arith, text_eq_iff s t)
issue_state_eq_iff _ _ = ground arith

-- An accepted move leaves the issue in the state asked for, with everything else kept; a refused
-- one changes nothing.
pub issue_move_cases :
    (next : IssueState) (i : Issue)
    → ((succeeds (transition_to next i) ≡ true)
        × ((transition_to next i).0 ≡ record i { state = next }))
      ⊎ ((succeeds (transition_to next i) ≡ false) × ((transition_to next i).0 ≡ i))
unfolding transition_to
issue_move_cases next i = elim (Bool-cases (succeeds (transition_to next i))) [
  | inl e ↦ inl (e, ground (arith, issue_state_eq_iff i.state next))
  | inr e ↦ inr (e, ground arith)
]

-- A settled issue is never moved.
pub issue_move-settled :
    (next : IssueState) (i : Issue) → settled i ≡ true → (transition_to next i).0 ≡ i
unfolding transition_to settled
issue_move-settled next i h = ground arith

-- Only an issue that was in review comes to `Pr`, and only one in `Pr` comes to `Merged`.
pub transition_to_sources :
    (next : IssueState) (i : Issue)
    → ((transition_to next i).0.state ≡ pr → (i.state ≡ pr) ⊎ (i.state ≡ review))
      × ((transition_to next i).0.state ≡ merged → (i.state ≡ merged) ⊎ (i.state ≡ pr))
unfolding transition_to
transition_to_sources next i = (λ h. ground arith, λ h. ground arith)

-- The issue after a sequence of moves, and the states that it goes through, the first one first.
unfoldable pub run : List IssueState → Issue → Issue
run [] i = i
run (next ∷ moves) i = run moves (transition_to next i).0

unfoldable pub visited : List IssueState → Issue → List IssueState
visited [] i = i.state ∷ []
visited (next ∷ moves) i = i.state ∷ visited moves (transition_to next i).0

differ : (a b : IssueState) → issue_state_eq a b ≡ false → a ≢ b
differ a b h p = ground (arith, (issue_state_eq_iff a b).1 p)

merged_passed_pr :
    (moves : List IssueState) (i : Issue)
    → i.state ≢ merged
    → (run moves i).state ≡ merged
    → Memᴰ pr (visited moves i)
unfolding run visited
merged_passed_pr [] i n h = absurd (n h)
merged_passed_pr (next ∷ moves) i n h =
    elim (Bool-cases (issue_state_eq (transition_to next i).0.state merged)) [
      | inl e ↦ elim ((transition_to_sources next i).1 ((issue_state_eq_iff _ _).0 e)) [
        | inl m ↦ absurd (n m)
        | inr p ↦ Memᴰ.head (sym p)
      ]
      | inr e ↦ Memᴰ.tail (merged_passed_pr moves (transition_to next i).0 (differ _ _ e) h)
    ]

pr_passed_review :
    (moves : List IssueState) (i : Issue)
    → i.state ≢ pr
    → Memᴰ pr (visited moves i)
    → Memᴰ review (visited moves i)
unfolding visited
pr_passed_review [] i n (Memᴰ.head e) = absurd (n (sym e))
pr_passed_review [] i n (Memᴰ.tail m) = elim m [ ]
pr_passed_review (next ∷ moves) i n (Memᴰ.head e) = absurd (n (sym e))
pr_passed_review (next ∷ moves) i n (Memᴰ.tail m) =
    elim (Bool-cases (issue_state_eq (transition_to next i).0.state pr)) [
      | inl e ↦ elim ((transition_to_sources next i).0 ((issue_state_eq_iff _ _).0 e)) [
        | inl p ↦ absurd (n p)
        | inr r ↦ Memᴰ.head (sym r)
      ]
      | inr e ↦ Memᴰ.tail (pr_passed_review moves (transition_to next i).0 (differ _ _ e) m)
    ]

-- If a sequence of moves, the refused ones ignored, brings an open issue to `Merged`, the issue
-- was in `Pr`, and in `Review`, on the way.
pub merged_was_reviewed :
    (moves : List IssueState) (i : Issue)
    → i.state ≡ opened
    → (run moves i).state ≡ merged
    → Memᴰ pr (visited moves i) × Memᴰ review (visited moves i)
merged_was_reviewed moves i o h =
    let passed = merged_passed_pr moves i (λ e. cc) h in
    (passed, pr_passed_review moves i (λ e. cc) passed)

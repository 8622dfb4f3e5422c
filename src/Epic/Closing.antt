-- ===== src/Epic/Closing.antt =====
-- internal/domain/epic/epic.go: closing an issue with everything under it, and closing the epic.
-- The source's walk recurs on the tree with no bound; here it takes fuel, and running out of it
-- stands for a walk that does not return.
pub mod Steps
pub mod Walk
pub mod Total
mod Examples
use donsy.Prelude.{
  ℕ, zero, suc, Bool, true, false, ◌&&◌, Option, none, some, List, [], ◌∷◌, if◌then◌else◌,
}
use donsy.Text.{Text, text_eq}
use donsy.Errors.{
  Error, Result, ok, err, Outcome, success, failure, ◌and_then◌, issue_not_found, out_of_fuel,
}
use donsy.Epic.State
use donsy.Epic.State.{EpicEvent}
use donsy.Epic.Issue
use donsy.Epic.Issue.{Issue, issue_state_eq}
use donsy.Epic.PullRequest
use donsy.Epic.PullRequest.{PullRequest, status_eq}
use donsy.Epic.Aggregate.{
  Epic, on_progress, find_first, issue_has_id, on_pull_requests, root_issue, transition_issue,
  mutate,
}

-- The inner loop over the pull requests, and its body: an error ends it.
unfoldable pub close_record : Text → PullRequest → Outcome PullRequest
unfolding status_eq PullRequest.transition_to
close_record id p =
    if text_eq p.issue_id id && status_eq p.status PullRequest.opened
    then PullRequest.transition_to PullRequest.closed p
    else success p

unfoldable pub close_records : Text → List PullRequest → Outcome (List PullRequest)
close_records id [] = success []
close_records id (p ∷ rest) =
    let (p', failed) = close_record id p in
    let (rest', below) = close_records id rest in
    elim failed [ none ↦ (p' ∷ rest', below) | some error ↦ (p' ∷ rest, some error) ]

-- What `CloseIssue` does at each issue of the walk.
unfoldable pub close_visit : Issue → Epic → Outcome Epic
unfolding find_first issue_state_eq transition_issue
close_visit issue e = elim (find_first (issue_has_id issue.id) e.issues) [
  | none ↦ failure issue_not_found e
  | some i ↦
      if issue_state_eq i.state Issue.merged
      then success e
      else transition_issue issue.id Issue.closed e
        and_then on_pull_requests (close_records issue.id)
]

-- The loop over the children. It reads only their identifiers and parents, which no visit changes.
unfoldable pub walk_children :
    (Text → Epic → Outcome Epic) → Text → List Issue → Epic → Outcome Epic
walk_children walk id [] e = success e
walk_children walk id (child ∷ rest) e =
    (if text_eq child.parent_id id then walk child.id e else success e)
    and_then walk_children walk id rest

unfoldable pub traverse_issues_down : (Issue → Epic → Outcome Epic) → ℕ → Text → Epic → Outcome Epic
unfolding find_first walk_children
traverse_issues_down visit zero id e = failure out_of_fuel e
traverse_issues_down visit (suc fuel) id e = elim (find_first (issue_has_id id) e.issues) [
  | none ↦ failure issue_not_found e
  | some issue ↦
      visit issue e and_then λ e'. walk_children (traverse_issues_down visit fuel) id e'.issues e'
]

unfoldable pub close_issue : ℕ → Text → Epic → Outcome Epic
unfolding mutate
close_issue fuel id e = mutate (traverse_issues_down close_visit fuel id) e

-- `(e *Epic) Close`.
unfoldable pub close : ℕ → Epic → Outcome Epic
unfolding root_issue close_issue State.apply
close fuel e = elim (root_issue e) [
  | err _ ↦ on_progress (State.apply EpicEvent.close) e
  | ok root ↦ close_issue fuel root.id e and_then on_progress (State.apply EpicEvent.close)
]

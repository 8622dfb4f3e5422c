-- ===== src/Epic/Work.antt =====
-- internal/domain/epic/epic.go and epic_progress.go: the outcomes, updates and comments of an
-- epic's pull requests, and what its tree says of the work: what is blocked, what is delivered.
pub mod Outcomes
pub mod Waiting
mod Examples
use donsy.Prelude.{
  ℕ, Bool, true, false, ◌||◌, ◌&&◌, not, Option, none, some, List, [], ◌∷◌, ◌++◌, map, any, ltb,
  length, if◌then◌else◌,
}
use donsy.Prelude.Int.{ℤ, pos}
use donsy.Text.{Text, text_eq, is_empty, trim_space, codes}
use donsy.Slug.{slug, slug_max, hyphen}
use donsy.Errors.{
  Error, Result, ok, err, ◌>>=◌, Outcome, success, failure, ◌and_then◌, repository_required,
  parent_not_found, issue_not_found, pull_request_not_found, root_not_found, closed_title,
  closed_body, title_required, branches_cut, bad_outcome,
}
use donsy.Epic.State
use donsy.Epic.State.{EpicState, EpicEvent, Progress, epic_state_eq}
use donsy.Epic.Issue
use donsy.Epic.Issue.{Issue, IssueState, Comment, issue_state_eq, settled, set_parent}
use donsy.Epic.PullRequest
use donsy.Epic.PullRequest.{
  PullRequest, PullRequestStatus, PullRequestEvent, status_eq, merge, close,
}
use donsy.Epic.Rounds
use donsy.Epic.Aggregate.{
  Epic, with_first, find_first, issue_has_id, pull_request_has_id, on_issues, on_pull_requests,
  transition_issue, mutate,
}

-- The event and the next issue state for an outcome; none for any other status.
unfoldable pub outcome_event : PullRequestStatus → Option (PullRequestEvent × IssueState)
outcome_event PullRequest.merged = some (merge, Issue.merged)
outcome_event PullRequest.closed = some (close, Issue.opened)
outcome_event _ = none

-- The change that `TransitionPullRequest` makes on the copies.
unfoldable pub apply_outcome : Text → PullRequestEvent → IssueState → Epic → Outcome Epic
unfolding find_first with_first PullRequest.apply transition_issue
apply_outcome id event next e = elim (find_first (pull_request_has_id id) e.pull_requests) [
  | none ↦ failure pull_request_not_found e
  | some p ↦
      on_pull_requests
        (with_first (pull_request_has_id id) pull_request_not_found (PullRequest.apply event)) e
      and_then transition_issue p.issue_id next
]

unfoldable pub transition_pull_request : Text → PullRequestStatus → Epic → Outcome Epic
unfolding outcome_event apply_outcome mutate
transition_pull_request id status e = elim (outcome_event status) [
  | none ↦ failure bad_outcome e
  | some (event, next) ↦ mutate (apply_outcome id event next) e
]

unfoldable pub add_issue_comment : Text → Comment → Epic → Outcome Epic
unfolding with_first Issue.add_comment
add_issue_comment id c e =
    on_issues (with_first (issue_has_id id) issue_not_found (Issue.add_comment c)) e

unfoldable pub add_pull_request_comment : Text → Comment → Epic → Outcome Epic
unfolding with_first Rounds.add_comment
add_pull_request_comment id c e =
    on_pull_requests
      (with_first (pull_request_has_id id) pull_request_not_found (Rounds.add_comment c)) e

abbrev pub checked : (PullRequest → Outcome PullRequest) → PullRequest → Outcome PullRequest
checked change p = change p and_then λ p'. elim (Rounds.validate p') [
  | ok _ ↦ success p'
  | err failed ↦ failure failed p'
]

unfoldable pub update_pull_request :
    Text → (PullRequest → Outcome PullRequest) → Epic → Outcome Epic
unfolding with_first Rounds.validate
update_pull_request id change e =
    on_pull_requests (with_first (pull_request_has_id id) pull_request_not_found (checked change)) e

unfoldable pub pull_request_for : Text → Epic → Option PullRequest
unfolding find_first
pull_request_for id e = find_first (λ p. text_eq p.issue_id id) e.pull_requests

unfoldable pub open_pull_request_for : Text → Epic → Option PullRequest
unfolding find_first status_eq
open_pull_request_for id e =
    find_first (λ p. text_eq p.issue_id id && status_eq p.status PullRequest.opened) e.pull_requests

-- The two loops of `Blocked`: an unsettled child, or a blocker that is there and unsettled.
unfoldable pub has_unsettled_child : Text → Epic → Bool
unfolding settled
has_unsettled_child id e = any (λ i. text_eq i.parent_id id && not (settled i)) e.issues

unfoldable pub is_unsettled : Text → Epic → Bool
unfolding find_first settled
is_unsettled id e = elim (find_first (issue_has_id id) e.issues) [
  | none ↦ false
  | some i ↦ not (settled i)
]

unfoldable pub blocked : Text → Epic → Bool
unfolding find_first has_unsettled_child is_unsettled
blocked id e = elim (find_first (issue_has_id id) e.issues) [
  | none ↦ false
  | some i ↦ has_unsettled_child id e || any (λ b. is_unsettled b e) i.blocked_by
]

-- The loop of `Delivered`, with the flag that it sets.
unfoldable pub delivered_from : Bool → List Issue → Bool
unfolding settled
delivered_from delivered [] = delivered
delivered_from delivered (i ∷ rest) =
    let go_on = delivered_from (delivered || not (is_empty i.parent_id)) rest in
    if is_empty i.parent_id then go_on else if settled i then go_on else false

unfoldable pub delivered : Epic → Bool
unfolding delivered_from
delivered e = delivered_from false e.issues

-- ===== src/Disposal.antt =====
-- internal/application/usecases: what is removed when work is over. Here `close_epic.go`,
-- `close_issue.go` and `abandon_branches.go`: the branches behind the pull requests that a close
-- closes. The children have `purge_finished_work.go`, `forget_project.go`, `cancel_agent_run.go`
-- and `reset_issue.go`.
pub mod Abandoned
pub mod Purging
pub mod Forgetting
pub mod Cancelling
pub mod Resetting
mod Examples
use donsy.Prelude.{
  ℕ, Bool, true, false, ◌&&◌, not, Option, none, some, List, [], ◌∷◌, ◌++◌, any, if◌then◌else◌,
}
use donsy.Text.{Text, text_eq}
use donsy.Errors.{Error, Outcome, failure, success}
use donsy.Epic.PullRequest
use donsy.Epic.PullRequest.{PullRequest, status_eq}
use donsy.Epic.Aggregate.{Epic, Branch, abandoned_branches}
use donsy.Epic.Closing.{close, close_issue}
use donsy.Completion.{update_epic}
use donsy.Landing.{CodeCheckout, CodeWorkspace}

unfoldable pub open_pull_request_ids : List PullRequest → List Text
open_pull_request_ids [] = []
open_pull_request_ids (p ∷ rest) =
    let more = open_pull_request_ids rest in
    if status_eq p.status PullRequest.opened then p.id ∷ more else more

unfoldable pub branches_among : List Text → List Branch → List Branch
branches_among was_open [] = []
branches_among was_open (b ∷ rest) =
    let more = branches_among was_open rest in
    if any (text_eq b.pull_request_id) was_open then b ∷ more else more

unfoldable pub newly_abandoned : Epic → List Text → List Branch
newly_abandoned e was_open = branches_among was_open (abandoned_branches e)

-- The calls of `DeleteBranch`, each with the checkout and the name, and the errors.
abbrev pub branch_checkout : Text → Branch → CodeCheckout
branch_checkout epic_id b = record {
  epic_id = epic_id;
  issue_id = b.issue_id;
  repository = b.repository;
}

unfoldable pub delete_failures : CodeWorkspace → Text → List Branch → List Error
delete_failures code epic_id [] = []
delete_failures code epic_id (b ∷ rest) =
    let more = delete_failures code epic_id rest in
    elim (code.delete_branch (branch_checkout epic_id b) b.name) [ some x ↦ x ∷ more | none ↦ more ]

-- What a close leaves: the branches that it asks to delete, the stored epic, and its errors.
pub record Closed : Type 0 where
  pub deleted : List Branch
  pub stored : Epic
  pub errors : List Error

unfoldable pub delete_abandoned_branches :
    Option CodeWorkspace → Text → List Branch → List Branch × List Error
delete_abandoned_branches none epic_id branches = ([], [])
delete_abandoned_branches (some code) epic_id branches =
    (branches, delete_failures code epic_id branches)

module _ (write : Epic → Option Error) (code : Option CodeWorkspace) where
  -- The handlers of the two use cases, which differ in the method of the epic that they call.
  unfoldable pub close_with : (Epic → Outcome Epic) → Text → Epic → Closed
  close_with change id e =
      let (stored, failed) = update_epic write change e in
      let (deleted, errors) =
        delete_abandoned_branches code id
          (newly_abandoned (change e).0 (open_pull_request_ids e.pull_requests)) in
      elim failed [
        | some x ↦ record { deleted = []; stored = stored; errors = x ∷ [] }
        | none ↦ record { deleted = deleted; stored = stored; errors = errors }
      ]

  unfoldable pub close_epic_use_case : ℕ → Text → Epic → Closed
  close_epic_use_case fuel id e = close_with (close fuel) id e

  unfoldable pub close_issue_use_case : ℕ → Text → Text → Epic → Closed
  close_issue_use_case fuel id issue e = close_with (close_issue fuel issue) id e

-- ===== src/Landing.antt =====
-- internal/application/usecases: `merge_pull_request.go`, `review_approved_branches.go`,
-- `open_pull_requests.go`, `grant_coding_round.go` and `complete_epic.go`, the use cases that work
-- on the branches of an epic outside a round. CodeWorkspace is what the workspace of the code
-- answers, `write` the store's `WriteEpic`. A use case reads the epic first, and the store reads it
-- again for each update: `read` is the first answer, the last argument what is stored.
pub mod Updates
pub mod Merging
pub mod Grouping
pub mod Sweep
pub mod Opening
pub mod Retrying
mod Examples
use donsy.Prelude.{
  ℕ, Bool, true, false, ◌&&◌, not, Option, none, some, List, [], ◌∷◌, ◌++◌, if◌then◌else◌,
}
use donsy.Text.{Text, codes, text_eq}
use donsy.Errors.{
  Error, Result, ok, err, Outcome, success, failure, ◌and_then◌, pull_request_not_found,
  no_code_workspace, not_open, merge_conflict,
}
use donsy.Epic.Issue
use donsy.Epic.Issue.{Comment, create_comment}
use donsy.Epic.PullRequest
use donsy.Epic.PullRequest.{PullRequest, status_eq, set_flag}
use donsy.Epic.Aggregate.{Epic, find_first, pull_request_has_id, transition_issue}
use donsy.Epic.Work.{transition_pull_request, update_pull_request}
use donsy.Completion.{Draw, commented, update_epic}

-- `agent_runtime.CodeCheckout` and `BranchState`.
pub record CodeCheckout : Type 0 where
  pub epic_id : Text
  pub issue_id : Text
  pub repository : Text

pub record BranchState : Type 0 where
  pub head : Text
  pub is_behind : Bool

-- `Merge`: done, an error that wraps `ErrMergeConflict`, with its text, or another error.
pub data Merged : Type 0 where
  landed : Merged
  conflicts : Text → Merged
  refused : Error → Merged

pub record CodeWorkspace : Type 0 where
  pub merge : CodeCheckout → Text → Text → Merged
  pub delete_branch : CodeCheckout → Text → Option Error
  pub default_branch : Text → Result Text
  pub checkout : CodeCheckout → Text → Text → Option Error
  pub push : CodeCheckout → Text → Option Error
  pub inspect_branches : Text → Text → Text → List Text → Result (List (Text × BranchState))

-- The calls that change a branch or the store, in their order.
pub data CodeCall : Type 0 where
  merges cuts pushes deletes : CodeCheckout → Text → CodeCall
  updates : CodeCall

-- What a use case leaves: its calls, the stored epic, and its error.
pub record Landing : Type 0 where
  pub calls : List CodeCall
  pub stored : Epic
  pub failed : Option Error

abbrev pub ends_with : Option Error → List CodeCall → Epic → Landing
ends_with failed calls e = record { calls = calls; stored = e; failed = failed }

-- `UpdateEpic`, as the last call.
abbrev pub updating : List CodeCall → Outcome Epic → Landing
updating calls (e, failed) = ends_with failed (calls ++ updates ∷ []) e

abbrev pub checkout_of : Epic → PullRequest → CodeCheckout
checkout_of e p = record { epic_id = e.id; issue_id = p.issue_id; repository = p.repository }

-- `openPullRequest`, and `resettablePullRequest` of `reset_issue.go`, which is the same loop.
unfoldable pub open_pull_request : Epic → Text → Result PullRequest
open_pull_request e id = elim (find_first (pull_request_has_id id) e.pull_requests) [
  | none ↦ err pull_request_not_found
  | some p ↦ if status_eq p.status PullRequest.opened then ok p else err not_open
]

-- The text of the comment that `markStale` makes.
unfoldable pub conflict_text : PullRequest → Text → Text
conflict_text p conflict =
    codes "Could not publish `"
    ++ p.head
    ++ codes "` onto `"
    ++ p.base
    ++ codes "`: "
    ++ conflict
    ++ 10 ∷ 10 ∷ codes "`"
    ++ p.base
    ++ codes "` has to be merged into this branch before it can land."

module _ (write : Epic → Option Error) where
  abbrev pub flag_stale : Text → Epic → Outcome Epic
  flag_stale id = update_pull_request id (set_flag PullRequest.stale true)

  -- The update of `markStale`.
  unfoldable pub stale_update : Draw → PullRequest → Text → Epic → Outcome Epic
  stale_update draw p conflict e =
      flag_stale p.id e
      and_then commented p.id
          (create_comment draw.id draw.now (codes "merge") (conflict_text p conflict))
      and_then transition_issue p.issue_id Issue.stale

  -- `MergePullRequestUseCase.Handle`, from the call of `Merge` on.
  unfoldable pub merge_open : CodeWorkspace → Draw → CodeCheckout → PullRequest → Epic → Landing
  merge_open code draw checkout p e =
      let merging = merges checkout p.head ∷ [] in
      let (merged, unmerged) =
        update_epic write (transition_pull_request p.id PullRequest.merged) e in
      elim (code.merge checkout p.head p.base) [
        | refused x ↦ ends_with (some x) merging e
        | conflicts text ↦
            let (marked, unmarked) = update_epic write (stale_update draw p text) e in
            elim unmarked [
              | some x ↦ ends_with (some x) (merging ++ updates ∷ []) marked
              | none ↦ ends_with (some merge_conflict) (merging ++ updates ∷ []) marked
            ]
        | landed ↦ elim unmerged [
          | some x ↦ ends_with (some x) (merging ++ updates ∷ []) merged
          | none ↦
              ends_with (code.delete_branch checkout p.head)
                (merging ++ updates ∷ deletes checkout p.head ∷ []) merged
        ]
      ]

  unfoldable pub merge_pull_request :
      Option CodeWorkspace → Draw → Result Epic → Text → Epic → Landing
  merge_pull_request none draw read id e = ends_with (some no_code_workspace) [] e
  merge_pull_request (some code) draw (err x) id e = ends_with (some x) [] e
  merge_pull_request (some code) draw (ok current) id e = elim (open_pull_request current id) [
    | err x ↦ ends_with (some x) [] e
    | ok p ↦ merge_open code draw (checkout_of current p) p e
  ]

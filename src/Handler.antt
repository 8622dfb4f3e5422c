-- ===== src/Handler.antt =====
-- internal/application/usecases/run_issue_agent.go and run_epic_agent.go: the handlers of a round as
-- a whole, and here the report of its failure. `describe` is the text of an error.
pub mod Mounts
pub mod Specs
pub mod Issue
pub mod Answers
pub mod Recorded
pub mod Failures
pub mod Failed
pub mod Drafting
pub mod Drafted
mod Examples
use donsy.Prelude.{
  Bool, true, false, ◌&&◌, not, Option, none, some, List, [], ◌∷◌, ◌++◌, if◌then◌else◌,
}
use donsy.Text.{Text, codes}
use donsy.Errors.{Error, Result, ok, err, Outcome, success, failure}
use donsy.Epic.Issue.{create_comment}
use donsy.Epic.PullRequest.{PullRequest}
use donsy.Epic.Aggregate.{Epic, root_issue}
use donsy.Epic.Work.{add_issue_comment, add_pull_request_comment}
use donsy.Agent.{AgentRole}
use donsy.Identity.{role_text}
use donsy.Completion.{Draw, update_epic}
use donsy.Round.{RoundFailure, Cause, run_cancelled, Rounds}

-- How a handler fails: before its round, or by the round, whose failure keeps its cause beside an
-- error of the comment that reports it.
pub data HandlerFailure : Type 0 where
  before_round : Error → HandlerFailure
  in_round : RoundFailure → Option Error → HandlerFailure

-- What a handler leaves: the rounds, the stored epic, whether it had a reservation, and its failure.
pub record Handled : Type 0 where
  pub rounds : Rounds
  pub stored : Epic
  pub reserved : Bool
  pub failed : Option HandlerFailure

abbrev pub is_cancellation : Cause → Bool
is_cancellation run_cancelled = true
is_cancellation _ = false

abbrev pub failure_text : AgentRole → Text → Text
failure_text role cause = codes "The " ++ role_text role ++ codes " round failed: " ++ cause

module _ (write : Epic → Option Error) (describe : RoundFailure → Text) (draw : Draw) where
  -- The comments of the two `reportFailure`: on the pull request's thread, and on the root issue.
  unfoldable pub report_on_thread : AgentRole → PullRequest → RoundFailure → Epic → Outcome Epic
  report_on_thread role p cause e =
      elim (create_comment draw.id draw.now (role_text role) (failure_text role (describe cause))) [
        | err x ↦ failure x e
        | ok c ↦ add_pull_request_comment p.id c e
      ]

  unfoldable pub report_on_root : AgentRole → RoundFailure → Epic → Outcome Epic
  report_on_root role cause e = elim (root_issue e) [
    | err x ↦ failure x e
    | ok root ↦
        elim (create_comment draw.id draw.now (role_text role)
          (failure_text role (describe cause))) [
            | err x ↦ failure x e
            | ok c ↦ add_issue_comment root.id c e
          ]
  ]

  -- `reportFailure` with either comment.
  unfoldable pub report_failure :
      (RoundFailure → Epic → Outcome Epic) → RoundFailure → Epic → Epic × HandlerFailure
  report_failure comment cause e =
      let (stored, unreported) = update_epic write (comment cause) e in
      if is_cancellation cause.cause
      then (e, in_round cause none)
      else (stored, in_round cause unreported)

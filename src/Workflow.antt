-- ===== src/Workflow.antt =====
-- internal/application/usecases: the pure decisions of the worker, what role runs next on an epic
-- (run_epic_agent.go) and on a pull request (run_issue_agent.go), and the number of a round
-- (agent_round.go). The registry and the clock of `stallLiveRuns` are passed as what they give.
pub mod Roles
pub mod Rounds
mod Examples
use donsy.Prelude.{
  ℕ, Bool, true, false, ◌||◌, ◌&&◌, not, Option, none, some, List, [], ◌∷◌, ◌++◌, any,
  if◌then◌else◌,
}
use donsy.Prelude.Int.{ℤ, pos, inc, ltb_ℤ}
use donsy.Text.{Text, text_eq, is_empty, codes}
use donsy.Errors.{Error, Result, ok, err, Outcome, success, failure, ◌and_then◌}
use donsy.Epic.State
use donsy.Epic.State.{EpicState, epic_state_eq}
use donsy.Epic.Issue
use donsy.Epic.Issue.{Issue, IssueState, Time, issue_state_eq}
use donsy.Epic.PullRequest
use donsy.Epic.PullRequest.{PullRequest, status_eq, has_flag, stale}
use donsy.Epic.Rounds.{can_code}
use donsy.Epic.Aggregate.{Epic}
use donsy.Epic.Work.{blocked}
use donsy.Agent
use donsy.Agent.{
  AgentRole, AgentRun, AgentRunStatus, AgentSubject, AgentSubjectKind, counts_toward_round_limit,
  apply_run,
}

-- `epicRole`.
unfoldable pub epic_role : EpicState → Option AgentRole
epic_role State.concept = some Agent.refiner
epic_role State.changes_requested = some Agent.refiner
epic_role EpicState.refine = some Agent.refiner
epic_role EpicState.review = some Agent.issue_reviewer
epic_role _ = none

-- `hasPlannedWork`.
unfoldable pub has_planned_work : Epic → Bool
unfolding issue_state_eq
has_planned_work e =
    any (λ i. not (is_empty i.parent_id) && not (issue_state_eq i.state Issue.closed)) e.issues

-- `IssueRole`.
unfoldable pub issue_role : Epic → PullRequest → Option AgentRole
unfolding epic_state_eq status_eq blocked has_flag can_code
issue_role current p =
    if not (epic_state_eq current.state EpicState.ready)
      || not (status_eq p.status PullRequest.opened)
    then none
    else if blocked p.issue_id current
    then none
    else if has_flag stale p
    then some Agent.merge
    else if ltb_ℤ p.reviews p.rounds
    then some Agent.pr_reviewer
    else if p.approved
    then none
    else if not (can_code p)
    then none
    else some Agent.coding

abbrev pub subject_of_epic : Epic → AgentSubject
subject_of_epic e = record { kind = AgentSubjectKind.epic; id = e.id }

abbrev pub subject_of_issue : Text → AgentSubject
subject_of_issue id = record { kind = AgentSubjectKind.issue; id = id }

-- The two loops of `TerminalSubjects`. A map to `struct{}` is the list of its keys, with repeats.
unfoldable pub terminal_issues : Bool → List Issue → List AgentSubject
unfolding issue_state_eq
terminal_issues epic_done [] = []
terminal_issues epic_done (i ∷ rest) =
    let more = terminal_issues epic_done rest in
    if not epic_done
      && not (issue_state_eq i.state Issue.merged)
      && not (issue_state_eq i.state Issue.closed)
    then more
    else subject_of_issue i.id ∷ more

unfoldable pub terminal_subjects : List Epic → List AgentSubject
unfolding epic_state_eq terminal_issues
terminal_subjects [] = []
terminal_subjects (e ∷ rest) =
    let more = terminal_subjects rest in
    let epic_done = epic_state_eq e.state EpicState.done || epic_state_eq e.state State.closed in
    let issues = terminal_issues epic_done e.issues in
    if epic_done then subject_of_epic e ∷ issues ++ more else issues ++ more

-- The loop over the pull requests of one epic, and `eligibleSubjects`: the writes to the map, in
-- their order.
unfoldable pub eligible_pull_requests : Epic → List PullRequest → List (AgentSubject × AgentRole)
unfolding issue_role
eligible_pull_requests current [] = []
eligible_pull_requests current (p ∷ rest) =
    let more = eligible_pull_requests current rest in
    elim (issue_role current p) [
      | none ↦ more
      | some role ↦ (subject_of_issue p.issue_id, role) ∷ more
    ]

unfoldable pub eligible_subjects : List Epic → List (AgentSubject × AgentRole)
unfolding epic_role eligible_pull_requests
eligible_subjects [] = []
eligible_subjects (current ∷ rest) =
    let more = eligible_pull_requests current current.pull_requests ++ eligible_subjects rest in
    elim (epic_role current.state) [
      | none ↦ more
      | some role ↦ (subject_of_epic current, role) ∷ more
    ]

-- `DefaultMaxRounds`, and `roundLimit` of a profile's `MaxRounds`.
abbrev pub default_max_rounds : ℤ
default_max_rounds = pos 10

unfoldable pub round_limit : ℤ → ℤ
round_limit max_rounds = if ltb_ℤ (pos 0) max_rounds then max_rounds else default_max_rounds

-- The loop of `nextRound`.
unfoldable pub next_round_from : ℤ → List AgentRun → ℤ
unfolding counts_toward_round_limit inc
next_round_from round [] = round
next_round_from round (run ∷ rest) =
    let skipped = next_round_from round rest in
    let raised = next_round_from (inc run.round) rest in
    if not (counts_toward_round_limit run)
    then skipped
    else if not (ltb_ℤ run.round round)
    then raised
    else skipped

unfoldable pub next_round : List AgentRun → ℤ
unfolding next_round_from
next_round runs = next_round_from (pos 1) runs

-- `isLiveAgentRunStatus`.
unfoldable pub is_live_agent_run_status : AgentRunStatus → Bool
is_live_agent_run_status Agent.queued = true
is_live_agent_run_status Agent.admitted = true
is_live_agent_run_status AgentRunStatus.running = true
is_live_agent_run_status _ = false

abbrev pub restart_error : Text
restart_error = codes "run did not complete before the process restarted"

-- `stallLiveRuns`, with the save of the registry that it calls: the runs that it saved, in order,
-- beside the first error.
unfoldable pub stall_live_runs :
    (AgentRun → Option Error) → Time → List AgentRun → Outcome (List AgentRun)
unfolding is_live_agent_run_status apply_run
stall_live_runs save now [] = success []
stall_live_runs save now (run ∷ rest) =
    let below = stall_live_runs save now rest in
    let (stalled, failed) = apply_run Agent.stall now (record run { error = restart_error }) in
    let here : Outcome (List AgentRun) = elim failed [
      | some e ↦ failure e []
      | none ↦ elim (save stalled) [ some e ↦ failure e [] | none ↦ (stalled ∷ below.0, below.1) ]
    ] in
    if not (is_live_agent_run_status run.status) then below else here

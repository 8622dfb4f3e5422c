-- ===== src/Workflow/Examples.antt =====
-- The roles and rounds of a small epic, and the theorems at them.
use donsy.Prelude.{ℕ, ◌≡◌, refl, ◌↔◌, ◌&&◌, not, true, false, Option, none, some, List, [], ◌∷◌}
use donsy.Prelude.Int.{pos, ltb_ℤ}
use donsy.Text.{codes, text_eq, trim_space}
use donsy.Errors.{Error, ok}
use donsy.Epic.PullRequest.{has_flag, stale, status_eq}
use donsy.Epic.Rounds.{can_code, validate}
use donsy.Epic.State.{epic_state_eq}
use donsy.Epic.Work.{blocked}
use donsy.Epic.Sample.{sample_epic, sample_pull_request}
use donsy.Agent
use donsy.Agent.{AgentRun, AgentRunStatus, AgentSubjectKind, host_failed}
use donsy.Workflow.{issue_role}
use donsy.Workflow.Roles.{is_workable, issue_role_coding_iff}

issue_role_coding_iff_example : (issue_role sample_epic sample_pull_request ≡ some Agent.coding) ↔ (
    (is_workable sample_epic sample_pull_request
      && not (has_flag stale sample_pull_request)
      && not (ltb_ℤ sample_pull_request.reviews sample_pull_request.rounds)
      && not sample_pull_request.approved
      && can_code sample_pull_request)
    ≡ true)
issue_role_coding_iff_example = issue_role_coding_iff sample_epic sample_pull_request

sample_is_workable : is_workable sample_epic sample_pull_request ≡ true
unfolding text_eq epic_state_eq status_eq blocked
sample_is_workable = refl

sample_is_fresh : has_flag stale sample_pull_request ≡ false
unfolding has_flag
sample_is_fresh = refl

sample_validates : validate sample_pull_request ≡ ok tt
unfolding validate trim_space
sample_validates = refl

abbrev run_with : AgentRunStatus → ℕ → AgentRun
run_with status round = record {
  id = codes "r1";
  project_id = 4;
  sandbox_id = codes "s1";
  role = Agent.coding;
  subject = record { kind = AgentSubjectKind.issue; id = codes "A" };
  engine = Agent.open_code;
  agent = codes "build";
  variant = [];
  session_mode = Agent.fresh;
  status = status;
  round = pos round;
  error = [];
  created_at = 1;
  started_at = none;
  finished_at = none;
}

abbrev history : List AgentRun
history = run_with Agent.failed 1 ∷ run_with host_failed 7 ∷ run_with Agent.succeeded 2 ∷ []

-- A registry that saves every run.
abbrev saves : AgentRun → Option Error
saves r = none

abbrev leftovers : List AgentRun
leftovers = run_with Agent.admitted 2 ∷ run_with Agent.succeeded 1 ∷ []

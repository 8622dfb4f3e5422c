-- ===== src/Disposal/Examples.antt =====
-- The small epic closed, a project forgotten, a run cancelled and an issue reset.
use donsy.Prelude.{
  ◌≡◌, ◌≢◌, ◌⊎◌, refl, ap, Bool, true, false, ◌&&◌, Option, none, some, List, [], ◌∷◌, all, any,
}
use donsy.Text.{codes, text_eq}
use donsy.Errors.{Error, ok, outside}
use donsy.Epic.State
use donsy.Epic.State.{EpicState}
use donsy.Epic.PullRequest
use donsy.Epic.PullRequest.{PullRequest, status_eq}
use donsy.Epic.Aggregate.{Epic, find_first}
use donsy.Epic.Sample.{sample_epic}
use donsy.Epic.Work.Outcomes.{Recorded}
use donsy.Epic.Closing.{close_issue}
use donsy.Agent.{Sandbox, SandboxStatus, AgentSubjectKind, AgentRole, AgentRun}
use donsy.Worker.Tick.{PurgeCommand}
use donsy.Round.Supervisor.{new_run_supervisor}
use donsy.Landing.{CodeWorkspace, landed, open_pull_request}
use donsy.Disposal.{Closed, close_with, newly_abandoned}
use donsy.Disposal.Abandoned.{is_of_open, is_of_closed, close_with_spares}
use donsy.Disposal.Purging.{
  PurgeCall, purges_workspace, Remains, purge_finished_work, may_purge, purges_finished,
}
use donsy.Disposal.Forgetting.{
  ProjectRuntime, ForgetCall, deletes_project, deletes_the_runtime, forget_project, last_call,
  AllReleased, forgets_last,
}
use donsy.Disposal.Resetting.{ResetRuntime, reset_issue, drain_runs}
use donsy.Epic.Aggregate.{find_first, pull_request_has_id}
use donsy.Disposal.Resetting.Clean.{IsDrained, IsClean, resets-IsClean}

abbrev stores : Epic → Option Error
stores e = none

abbrev workspace : CodeWorkspace
workspace = record {
  merge = λ c head base. landed;
  delete_branch = λ c branch. none;
  default_branch = λ r. ok (codes "main");
  checkout = λ c branch base. none;
  push = λ c branch. none;
  inspect_branches = λ e r b heads. ok [];
}

close_with_spares_example :
    all
      (λ b.
        is_of_open sample_epic.pull_requests b
        && is_of_closed
            (close_with stores
              (some workspace)
              (close_issue 9 (codes "A"))
              (codes "E")
              sample_epic).stored.pull_requests
            b)
      (close_with stores
        (some workspace)
        (close_issue 9 (codes "A"))
        (codes "E")
        sample_epic).deleted
    ≡ true
close_with_spares_example =
    close_with_spares stores (some workspace) (close_issue 9 (codes "A")) (codes "E") sample_epic

abbrev done_epic : Epic
done_epic = record sample_epic {
  progress = record { state = State.done; drafting_passes = sample_epic.progress.drafting_passes };
}

abbrev remains : Remains
remains = record { repos = some (λ id. none); code = none; output = none; runs = none }

abbrev purge_command : PurgeCommand
purge_command = record { project = 1; epics = done_epic ∷ []; inflight = [] }

purge_run : (purge_finished_work remains purge_command).0 ≡ purges_workspace (codes "E") ∷ []
unfolding purge_finished_work donsy.Disposal.Purging.purge_epics
    donsy.Disposal.Purging.finished_epics State.epic_state_eq
    donsy.Disposal.Purging.discard_transcripts
purge_run = refl

purges_finished_example :
    all (may_purge remains purge_command) (purge_finished_work remains purge_command).0 ≡ true
purges_finished_example = purges_finished remains purge_command

abbrev sandbox_A : Sandbox
sandbox_A = record {
  id = codes "s1";
  project_id = 1;
  name = codes "a";
  role = AgentRole.coding;
  subject = record { kind = AgentSubjectKind.issue; id = codes "A" };
  status = SandboxStatus.stopped;
  created_at = 1;
  updated_at = 10;
}

abbrev runtime : ProjectRuntime
runtime = record {
  has_runtime = true;
  sandboxes = ok (sandbox_A ∷ []);
  delete_sandbox = λ b. none;
  discard_creds = some (λ name. none);
  delete_machine = none;
  delete_runtime = none;
  delete_project = some outside;
}

forgets_last_example :
    (last_call (forget_project runtime 1).0 ≡ some deletes_project)
    × ((any deletes_the_runtime (forget_project runtime 1).0 ≡ false) ⊎ AllReleased runtime)
forgets_last_example = forgets_last runtime 1 refl

abbrev reset_runtime : ResetRuntime
reset_runtime = record {
  registry = none;
  runs = ok [];
  first = ok [];
  later = [];
  project = runtime;
  output = none;
  delete_subject_runtime = none;
}

abbrev reset_A : Epic
reset_A =
    (reset_issue stores workspace reset_runtime 5 (codes "E") (codes "P") (ok sample_epic)
      new_run_supervisor sample_epic).stored

abbrev first_is_open : Epic → Bool
first_is_open e = elim e.pull_requests [
  | [] ↦ false
  | ◌∷◌ p rest ↦ status_eq p.status PullRequest.opened
]

reset_run : first_is_open reset_A ≡ false
unfolding reset_issue open_pull_request find_first text_eq status_eq
    donsy.Disposal.Resetting.reset_open donsy.Disposal.Resetting.cancel_runs drain_runs
    donsy.Disposal.Resetting.close_clean donsy.Disposal.Resetting.clean_up
    donsy.Disposal.Resetting.reset_sandboxes donsy.Worker.Keys.subject_eq
    donsy.Disposal.Forgetting.release_sandbox donsy.Reconcile.sandbox_status_eq
    donsy.Disposal.Resetting.discard_outputs donsy.Completion.update_epic
    donsy.Epic.Work.transition_pull_request
reset_run = refl

open_before : first_is_open sample_epic ≡ true
unfolding status_eq
open_before = refl

reset_changes : reset_A ≢ sample_epic
reset_changes k = cc (reset_run, open_before, ap first_is_open k)

resets-IsClean_example :
    (current : Epic) × (p : PullRequest) × (runs : List AgentRun) × (listed : List Sandbox) × (ok
        sample_epic
      ≡ ok current)
    × (find_first (pull_request_has_id (codes "P")) current.pull_requests ≡ some p)
    × (p.status ≡ PullRequest.opened)
    × (ok [] ≡ ok runs)
    × (ok (sandbox_A ∷ []) ≡ ok listed)
    × IsClean stores workspace reset_runtime 5 (codes "E") p runs listed
    × IsDrained (ok []) []
    × (reset_runtime.delete_subject_runtime ≡ none)
    × Recorded (codes "P") PullRequest.closed sample_epic reset_A
resets-IsClean_example =
    resets-IsClean stores workspace reset_runtime 5 (codes "E") (codes "P") (ok sample_epic)
      new_run_supervisor sample_epic reset_changes

-- ===== src/Handler/Examples.antt =====
-- The mounts of a round on an issue, and a round of coding on the small epic that ends well.
use donsy.Prelude.{
  ◌⊎◌, ℕ, arith, ◌==◌, some, ◌≡◌, refl, Bool, true, false, Option, none, List, [], ◌∷◌, ◌++◌, all,
}
use donsy.Prelude.Int.{pos}
use donsy.Text.{Text, codes, trim_space, text_eq}
use donsy.Errors.{Error, ok}
use donsy.Slug.{to_lower}
use donsy.Epic.Issue
use donsy.Epic.Issue.{create_comment}
use donsy.Epic.Rounds
use donsy.Epic.Rounds.{record_coding_round, can_code}
use donsy.Epic.Aggregate.{Epic, with_first, find_first, find_issue, transition_issue}
use donsy.Epic.Work.{add_pull_request_comment, open_pull_request_for}
use donsy.Epic.Sample.{sample_epic}
use donsy.Agent
use donsy.Agent.{AgentRun, AgentEngine, AgentSubjectKind, Sandbox, SandboxStatus, SessionMode}
use donsy.Agent.Settings.{AgentSettings, AgentProfile, override, profile, find_profile, write_roles}
use donsy.Round
use donsy.Round.{Host, Rounds, RoundFailure}
use donsy.Round.Supervisor.{new_run_supervisor}
use donsy.RepositoryPath.{encode}
use donsy.PushGate.{
  evaluate_push_gate, protected, normalized, trim_prefix, has_prefix, drop, check_paths,
  check_commits,
}
use donsy.Workflow.{issue_role, stall_live_runs}
use donsy.Completion.{
  Checkout, Draw, complete, complete_coding, coding_update, publish, gate, update_epic,
  record_round, report, short,
}
use donsy.Handler.Mounts.{
  SandboxMount, MountHost, mount_of, is_contained, issue_mounts, reference_mounts,
  issue_mounts_contained,
}
use donsy.Handler.Issue.{
  IssueRound, Prepared, prepare_issue, prepare_role, handle_issue, run_reserved, invoke_round,
  complete_round, stage,
}
use donsy.Epic.State
use donsy.Epic.State.{EpicState}
use donsy.Completion.Drafting.{complete_epic_run, refined_update}
use donsy.Handler.Drafting.{
  DraftingRound, PreparedDraft, prepare_draft, prepare_draft_role, draft_refining, draft_within,
  draft_reserved, invoke_draft, complete_draft, handle_epic,
}
use donsy.Handler.Drafted.{IsFoundDraft, HasDrafted, drafted_from, handled_epic-IsDrafted}
use donsy.Handler.Specs.{validate_spec, staged, epic_sandbox_spec, issue_sandbox_spec, specs_ok}
use donsy.Handler.Issue.{saved_first}
use donsy.Handler.Drafting.{reaped_draft}
use donsy.Workflow.{epic_role, stall_live_runs}
use donsy.Errors.{outside}
use donsy.Round.{plain, caused}
use donsy.Handler.{HandlerFailure, in_round, report_on_thread, report_failure}
use donsy.Identity.{role_text}
use donsy.Handler.Failed.{FailedBy, handler_failures}
use donsy.Handler.Recorded.{IsFound, HasRecorded, handled-RoleRecorded}

abbrev mounts : MountHost
mounts = record {
  credentials = ok (mount_of (codes "/h/auth") (codes "/auth") true);
  write_tree = λ e. ok (codes "/h/tree");
  ensure = λ r. ok (codes "/h/" ++ r);
  join = λ a b. a ++ codes "/" ++ b;
}

abbrev two_repositories : Epic
two_repositories = record sample_epic { repositories = codes "acme/app" ∷ codes "acme/lib" ∷ [] }

abbrev contained : List SandboxMount
contained =
    mount_of (codes "/h/tree") (codes "/work/issues") false
    ∷ mount_of (codes "/w/1") (codes "/work/repo") true
    ∷ mount_of (codes "/w/1/.git") (codes "/work/repo/.git") false
    ∷ mount_of (codes "/w/1") (codes "/w/1") false
    ∷ mount_of (codes "/h/acme/lib") (codes "/work/repos/" ++ encode (codes "acme/lib")) false
    ∷ mount_of (codes "/h/acme/lib/.git")
        (codes "/work/repos/" ++ encode (codes "acme/lib") ++ codes "/.git") false
    ∷ []

issue_mounts_run :
    issue_mounts mounts two_repositories (codes "acme/app") (codes "/w/1")
    ≡ ok (mount_of (codes "/h/auth") (codes "/auth") true ∷ contained)
unfolding issue_mounts reference_mounts text_eq
issue_mounts_run = refl

issue_mounts_contained_example : all is_contained contained ≡ true
issue_mounts_contained_example =
    issue_mounts_contained mounts two_repositories (codes "acme/app") (codes "/w/1")
      (mount_of (codes "/h/auth") (codes "/auth") true) contained issue_mounts_run

abbrev host : Host
host = record {
  save_agent_run = λ r. none;
  save_sandbox = λ b. none;
  ensure = λ b. (true, none);
  start = λ b. none;
  command = λ r. none;
  run = λ r. (codes "Done.", none);
  stalled = false;
  expired = false;
  stalled_text = λ t. codes "silent: " ++ t;
  expired_text = λ t. codes "late: " ++ t;
  shutting_down = false;
  stop = λ b. none;
  stop_now = λ b. none;
  extract_answer = λ t. t;
  started_at = 12;
  ended_at = 20;
  sandbox_at = 15;
}

abbrev coder : AgentProfile
coder = record { agent = codes "gpt"; variant = []; max_rounds = pos 3 }

abbrev settings : AgentSettings
settings = record { setup_script = []; profiles = (Agent.coding, coder) ∷ [] }

abbrev quiet_settings : AgentSettings
quiet_settings = record { setup_script = []; profiles = [] }

abbrev coding_sandbox : Sandbox
coding_sandbox = record {
  id = codes "s1";
  project_id = 1;
  name = codes "gm-s1";
  role = Agent.coding;
  subject = record { kind = AgentSubjectKind.issue; id = codes "A" };
  status = SandboxStatus.absent;
  created_at = 9;
  updated_at = 9;
}

abbrev answers : IssueRound
answers = record {
  read = ok sample_epic;
  settings = ok settings;
  repository_settings = λ p. ok quiet_settings;
  read_file = λ t. ok t;
  project_id = 1;
  sandbox = coding_sandbox;
  runs = ok [];
  save_stalled = λ r. none;
  reserve = ok true;
  checkout = λ p. ok (codes "/w/1");
  resolve = λ t. ok (codes "b0");
  mounts = mounts;
  prompt = λ r m. none;
  run_id = codes "r1";
  now = 10;
}

abbrev rounds : Rounds
rounds = record {
  runs = [];
  sandboxes = [];
  supervisor = new_run_supervisor;
  arriving = [] ∷ [] ∷ [];
}

abbrev checkout : Checkout
checkout = record {
  commit_all = none;
  descends_from = λ base. ok true;
  commits_since = λ base. ok ((codes "c1", codes "main.go" ∷ []) ∷ []);
  push = λ branch. none;
  resolve = λ branch. ok (codes "c1");
}

abbrev draw : Draw
draw = record { id = codes "m1"; now = 9 }

abbrev stores : Epic → Option Error
stores e = none

abbrev judge : Text → Bool
judge answer = false

abbrev describe : RoundFailure → Text
describe f = codes "failed"

abbrev text_of : Error → Text
text_of x = codes "error"

is_reserved :
    (handle_issue answers host to_lower stores checkout draw judge describe text_of
      (codes "A")
      rounds
      sample_epic).reserved
    ≡ true
unfolding handle_issue prepare_issue find_issue text_eq open_pull_request_for issue_role
    prepare_role profile donsy.Agent.Settings.profile_of find_profile override write_roles
    Agent.role_eq donsy.Worker.Keys.subject_eq stall_live_runs run_reserved stage issue_mounts
    reference_mounts Round.begin invoke_round complete_round complete complete_coding coding_update
    update_epic record_round report short gate publish evaluate_push_gate check_commits check_paths
    protected normalized trim_prefix has_prefix drop trim_space to_lower create_comment
    record_coding_round with_first find_first add_pull_request_comment Rounds.add_comment
    transition_issue Issue.transition_to Rounds.validate Round.queued_run Round.invoke Round.succeed
is_reserved = refl

ends_well :
    (handle_issue answers host to_lower stores checkout draw judge describe text_of
      (codes "A")
      rounds
      sample_epic).failed
    ≡ none
unfolding handle_issue prepare_issue find_issue text_eq open_pull_request_for issue_role
    prepare_role profile donsy.Agent.Settings.profile_of find_profile override write_roles
    Agent.role_eq donsy.Worker.Keys.subject_eq stall_live_runs run_reserved stage issue_mounts
    reference_mounts Round.begin invoke_round complete_round complete complete_coding coding_update
    update_epic record_round report short gate publish evaluate_push_gate check_commits check_paths
    protected normalized trim_prefix has_prefix drop trim_space to_lower create_comment
    record_coding_round with_first find_first add_pull_request_comment Rounds.add_comment
    transition_issue Issue.transition_to Rounds.validate Round.queued_run Round.invoke Round.succeed
ends_well = refl

handled-RoleRecorded_example :
    (q : Prepared) × IsFound answers (codes "A") q
    × HasRecorded answers host to_lower stores checkout draw judge describe text_of q
        (saved_first answers (stall_live_runs answers.save_stalled answers.now q.runs).0 rounds)
        sample_epic
        (handle_issue answers host to_lower stores checkout draw judge describe text_of
          (codes "A")
          rounds
          sample_epic).stored
handled-RoleRecorded_example =
    handled-RoleRecorded answers host to_lower stores checkout draw judge describe text_of
      (codes "A") rounds sample_epic is_reserved ends_well

abbrev refiner_settings : AgentSettings
refiner_settings = record { setup_script = []; profiles = (Agent.refiner, coder) ∷ [] }

abbrev refiner_sandbox : Sandbox
refiner_sandbox = record coding_sandbox {
  role = Agent.refiner;
  subject = record { kind = AgentSubjectKind.epic; id = codes "E" };
}

abbrev conceived : Epic
conceived = record sample_epic {
  progress = record { state = EpicState.concept; drafting_passes = pos 0 };
}

abbrev epic_answers : DraftingRound
epic_answers = record {
  read = ok conceived;
  settings = ok refiner_settings;
  read_file = λ t. ok t;
  project_id = 1;
  sandbox = refiner_sandbox;
  runs = ok [];
  save_stalled = λ r. none;
  reserve = ok true;
  mounts = mounts;
  prompt = λ r m. none;
  limit_text = λ r n. codes "limit";
  run_id = codes "r1";
  now = 10;
}

draft_is_reserved :
    (handle_epic epic_answers host stores
      (λ e. ok e)
      draw
      judge
      describe
      text_of
      rounds
      conceived).reserved
    ≡ true
unfolding handle_epic prepare_draft donsy.Workflow.epic_role prepare_draft_role profile
    donsy.Agent.Settings.profile_of find_profile Agent.role_eq donsy.Worker.Keys.subject_eq text_eq
    stall_live_runs draft_refining State.epic_state_eq update_epic State.apply draft_within
    donsy.Workflow.round_limit donsy.Workflow.next_round draft_reserved
    donsy.Handler.Mounts.epic_mounts reference_mounts Round.begin Round.queued_run invoke_draft
    Round.invoke complete_draft complete_epic_run refined_update donsy.Workflow.has_planned_work
    Round.succeed
draft_is_reserved = refl

draft_ends_well :
    (handle_epic epic_answers host stores
      (λ e. ok e)
      draw
      judge
      describe
      text_of
      rounds
      conceived).failed
    ≡ none
unfolding handle_epic prepare_draft donsy.Workflow.epic_role prepare_draft_role profile
    donsy.Agent.Settings.profile_of find_profile Agent.role_eq donsy.Worker.Keys.subject_eq text_eq
    stall_live_runs draft_refining State.epic_state_eq update_epic State.apply draft_within
    donsy.Workflow.round_limit donsy.Workflow.next_round draft_reserved
    donsy.Handler.Mounts.epic_mounts reference_mounts Round.begin Round.queued_run invoke_draft
    Round.invoke complete_draft complete_epic_run refined_update donsy.Workflow.has_planned_work
    Round.succeed
draft_ends_well = refl

handled_epic-IsDrafted_example :
    (q : PreparedDraft) × IsFoundDraft epic_answers q
    × HasDrafted epic_answers host stores
        (λ e. ok e)
        draw
        judge
        describe
        text_of
        q
        (reaped_draft epic_answers
          (stall_live_runs epic_answers.save_stalled epic_answers.now q.runs).0
          rounds)
        (drafted_from epic_answers host stores (λ e. ok e) draw judge describe text_of q conceived)
        (handle_epic epic_answers host stores
          (λ e. ok e)
          draw
          judge
          describe
          text_of
          rounds
          conceived).stored
handled_epic-IsDrafted_example =
    handled_epic-IsDrafted epic_answers host stores (λ e. ok e) draw judge describe text_of rounds
      conceived draft_is_reserved draft_ends_well

abbrev shown : ℕ → Text
shown n = codes "7"

abbrev digest : Text → Text
digest s = codes "0123abcd"

abbrev is_absolute : Text → Bool
is_absolute [] = false
is_absolute (c ∷ rest) = c == 47

specs_ok_example :
    (validate_spec is_absolute (
        staged contained
          (codes "make")
          (epic_sandbox_spec shown digest to_lower 7 (codes "E") Agent.issue_reviewer 9))
      ≡ ok tt)
    × (validate_spec is_absolute (
          staged contained
            (codes "make")
            (issue_sandbox_spec shown digest to_lower 7 (codes "E") Agent.issue_reviewer 9))
        ≡ ok tt)
unfolding Agent.is_agent_role
specs_ok_example =
    specs_ok shown digest to_lower is_absolute 7 (codes "E") Agent.issue_reviewer 9 contained
      (codes "make") (omega arith) refl refl refl refl

abbrev offline : Checkout
offline = record checkout { push = λ branch. some outside }

abbrev push_failure : HandlerFailure
push_failure = in_round (plain (caused (codes "error"))) none

push_fails :
    (handle_issue answers host to_lower stores offline draw judge describe text_of
      (codes "A")
      rounds
      sample_epic).failed
    ≡ some push_failure
unfolding handle_issue prepare_issue find_issue text_eq open_pull_request_for issue_role
    prepare_role profile donsy.Agent.Settings.profile_of find_profile override write_roles
    Agent.role_eq donsy.Worker.Keys.subject_eq stall_live_runs run_reserved stage issue_mounts
    reference_mounts Round.begin invoke_round complete_round complete complete_coding coding_update
    update_epic record_round report short gate publish evaluate_push_gate check_commits check_paths
    protected normalized trim_prefix has_prefix drop trim_space to_lower create_comment
    record_coding_round with_first find_first add_pull_request_comment Rounds.add_comment
    transition_issue Issue.transition_to Rounds.validate Round.queued_run Round.invoke Round.succeed
    report_failure report_on_thread role_text
push_fails = refl

handler_failures_example :
    ((handle_issue answers host to_lower stores offline draw judge describe text_of
        (codes "A")
        rounds
        sample_epic).stored
      ≡ sample_epic)
    ⊎ ((q : Prepared) × IsFound answers (codes "A") q
        × FailedBy answers host to_lower stores offline draw judge describe text_of
            (HasRecorded answers host to_lower stores offline draw judge describe text_of q
              (saved_first answers
                (stall_live_runs answers.save_stalled answers.now q.runs).0
                rounds)
              sample_epic)
            q
            push_failure
            sample_epic
            (handle_issue answers host to_lower stores offline draw judge describe text_of
              (codes "A")
              rounds
              sample_epic).stored)
handler_failures_example =
    handler_failures answers host to_lower stores offline draw judge describe text_of (codes "A")
      rounds push_failure sample_epic push_fails

-- ===== src/Handler/Issue.antt =====
-- `RunIssueAgentUseCase.Handle`. IssueRound is what the store, the registry, the sandboxes and the
-- workspace answer in it, and the identifiers and times that it draws; the reservation's release and
-- the round's `finish` are deferred calls, so they come last.
use donsy.Prelude.{
  ℕ, Bool, true, false, ◌&&◌, Option, none, some, List, [], ◌++◌, if◌then◌else◌, ◌==◌,
}
use donsy.Text.{Text, codes, is_empty}
use donsy.Errors.{Error, Result, ok, err, ◌>>=◌, outside}
use donsy.Epic.Issue.{Time}
use donsy.Epic.PullRequest.{PullRequest}
use donsy.Epic.Aggregate.{Epic, find_issue}
use donsy.Epic.Work.{open_pull_request_for}
use donsy.Agent
use donsy.Agent.{AgentRun, AgentRole, AgentSubject, Sandbox, SessionMode, role_eq}
use donsy.Agent.Settings.{AgentSettings, AgentProfile, override, profile}
use donsy.Workflow.{issue_role, next_round, stall_live_runs, subject_of_issue}
use donsy.Worker.Keys.{subject_eq}
use donsy.Round
use donsy.Round.{
  Host, Rounds, RoundFailure, Cause, Answer, answered, broke_off, plain, queued_run, fail, succeed,
  invoke,
}
use donsy.Completion
use donsy.Completion.{Checkout, Draw, Completed}
use donsy.Handler.{
  Handled, HandlerFailure, before_round, in_round, report_on_thread, report_failure,
}
use donsy.Handler.Mounts.{MountHost, issue_mounts}

pub record IssueRound : Type 0 where
  pub read : Result Epic
  pub settings : Result AgentSettings
  pub repository_settings : PullRequest → Result AgentSettings
  pub read_file : Text → Result Text
  pub project_id : ℕ
  pub sandbox : Sandbox
  pub runs : Result (List AgentRun)
  pub save_stalled : AgentRun → Option Error
  pub reserve : Result Bool
  pub checkout : PullRequest → Result Text
  pub resolve : Text → Result Text
  pub mounts : MountHost
  pub prompt : AgentRole → SessionMode → Option Text
  pub run_id : Text
  pub now : Time

-- What the handler has found when it asks for its reservation.
pub record Prepared : Type 0 where
  pub current : Epic
  pub pull_request : PullRequest
  pub role : AgentRole
  pub profile : AgentProfile
  pub runs : List AgentRun

module _ (a : IssueRound) where
  -- `command.Spec.Sandbox` is the one of this issue and role.
  abbrev pub belongs : Text → AgentRole → Bool
  belongs issue role =
      (a.sandbox.project_id == a.project_id)
      && role_eq a.sandbox.role role
      && subject_eq a.sandbox.subject (subject_of_issue issue)

  -- From the role on. The content of the setup script goes into the spec.
  unfoldable pub prepare_role : Epic → PullRequest → AgentRole → Text → Result (Option Prepared)
  prepare_role current p role issue = a.settings >>= λ settings. a.repository_settings p >>= λ own.
      profile role (override settings own) >>= λ chosen.
      (if is_empty (override settings own).setup_script
        then ok []
        else a.read_file (override settings own).setup_script)
      >>= λ script. (if belongs issue role then a.runs else err outside) >>= λ runs. ok (
          some (record {
            current = current;
            pull_request = p;
            role = role;
            profile = chosen;
            runs = runs;
          }))

  unfoldable pub prepare_issue : Text → Result (Option Prepared)
  prepare_issue issue_id = a.read >>= λ current. find_issue issue_id current >>= λ issue.
      elim (open_pull_request_for issue_id current) [
        | none ↦ ok none
        | some p ↦ elim (issue_role current p) [
          | none ↦ ok none
          | some role ↦ prepare_role current p role issue.id
        ]
      ]

  -- The checkout, its base and its mounts, which go into the spec.
  unfoldable pub stage : Prepared → Result Text
  stage p = a.checkout p.pull_request >>= λ path. a.resolve p.pull_request.base >>= λ base.
      issue_mounts a.mounts p.current p.pull_request.repository path >>= λ mounts. ok base

  abbrev pub minted : Prepared → AgentRun
  minted p =
      queued_run a.run_id a.now p.profile.agent p.profile.variant (next_round p.runs) p.runs
        a.sandbox

  abbrev pub saved_first : List AgentRun → Rounds → Rounds
  saved_first runs s = record s { runs = runs ++ s.runs }

  module _ (h : Host) (lower : ℕ → ℕ) (write : Epic → Option Error) (c : Checkout) (draw : Draw)
      (judge : Text → Bool) (describe : RoundFailure → Text) (text_of : Error → Text) where
    abbrev pub ends : Rounds → Epic → Option HandlerFailure → Handled
    ends rounds stored failed = record {
      rounds = rounds;
      stored = stored;
      reserved = true;
      failed = failed;
    }

    -- A failure that is reported on the thread.
    abbrev pub reported : Prepared → Rounds × RoundFailure → Epic → Handled
    reported p (s, failed) e =
        let (stored, said) =
          report_failure write describe draw
            (report_on_thread write describe draw p.role p.pull_request) failed e in
        ends s stored (some said)

    abbrev pub unmarked : Text
    unmarked = codes "agent did not return a marked answer"

    -- From the answer of the agent on.
    unfoldable pub complete_round : Prepared → Text → AgentRun → Text → Rounds → Epic → Handled
    complete_round p base run answer s e =
        let done =
          Completion.complete lower write c draw judge p.role base answer p.pull_request e in
        let (finished, unsaved) = succeed h run s in
        let recorded : Handled = elim done.stored.1 [
          | some x ↦ reported p (fail h run (text_of x) s) done.stored.0
          | none ↦ elim unsaved [
            | none ↦ ends finished done.stored.0 none
            | some cause ↦ ends finished done.stored.0 (some (in_round (plain cause) none))
          ]
        ] in
        if role_eq p.role Agent.pr_reviewer && is_empty answer
        then reported p (fail h run unmarked s) e
        else recorded

    -- From the run that has begun on.
    unfoldable pub invoke_round : Prepared → Text → AgentRun × Sandbox → Rounds → Epic → Handled
    invoke_round p base (run, sandbox) s e =
        let (s', answer) = invoke h sandbox run s in
        elim (a.prompt p.role run.session_mode) [
          | some x ↦
              let (failed, cause) = fail h run x s in ends failed e (some (in_round cause none))
          | none ↦ elim answer [
            | broke_off cause ↦ reported p (s', cause) e
            | answered text ↦ complete_round p base run text s' e
          ]
        ]

    abbrev pub finishing : Text → Handled → Handled
    finishing id r = record r { rounds = Round.finish id r.rounds }

    -- From the reservation on.
    unfoldable pub run_reserved : Prepared → Rounds → Epic → Handled
    run_reserved p s e =
        let run = minted p in
        let (begun, started) = Round.begin h a.sandbox run s in
        elim (stage p) [
          | err x ↦ ends s e (some (before_round x))
          | ok base ↦ elim started [
            | broke_off cause ↦ ends begun e (some (in_round cause none))
            | answered began ↦ finishing run.id (invoke_round p base began begun e)
          ]
        ]

    abbrev pub idles : Rounds → Epic → Option HandlerFailure → Handled
    idles s e failed = record { rounds = s; stored = e; reserved = false; failed = failed }

    unfoldable pub handle_issue : Text → Rounds → Epic → Handled
    handle_issue issue_id s e = elim (prepare_issue issue_id) [
      | err x ↦ idles s e (some (before_round x))
      | ok found ↦ elim found [
        | none ↦ idles s e none
        | some p ↦
            let (stalled, unstalled) = stall_live_runs a.save_stalled a.now p.runs in
            let reaped = saved_first stalled s in
            let admitted : Handled = elim a.reserve [
              | err x ↦ idles reaped e (some (before_round x))
              | ok b ↦ if b then run_reserved p reaped e else idles reaped e none
            ] in
            elim unstalled [ some x ↦ idles reaped e (some (before_round x)) | none ↦ admitted ]
      ]
    ]

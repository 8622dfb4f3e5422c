-- ===== src/Disposal/Resetting.antt =====
-- reset_issue.go: an open pull request is closed once nothing of its issue's rounds is left. `first`
-- and `later` are what the registry answers in the turns of `cancelAndDrain` until the context is
-- done; ProjectRuntime gives the sandboxes of the project.
pub mod Clean
use mathlib.Core.Path.{subst}
use donsy.Prelude.{
  ◌≡◌, ◌≢◌, refl, sym, ap, ◌∙◌, inl, inr, Bool, true, false, ◌||◌, ◌&&◌, not, Option, none, some,
  List, [], ◌∷◌, ◌++◌, any, all, arith, Option-cases, Bool-cases, if◌then◌else◌, length, ltb,
}
use donsy.Text.{Text, is_empty}
use donsy.Errors.{
  Error, Result, ok, err, Outcome, Result-cases, outside, no_runtime, no_cancel,
  reset_fields_required,
}
use donsy.Epic.Issue.{Time}
use donsy.Epic.PullRequest
use donsy.Epic.PullRequest.{PullRequest}
use donsy.Epic.Aggregate.{Epic}
use donsy.Epic.Work.{transition_pull_request}
use donsy.Epic.Work.Outcomes.{Recorded, outcome-Recorded}
use donsy.Agent.{AgentRun, AgentSubject, Sandbox}
use donsy.Workflow.{is_live_agent_run_status, subject_of_issue}
use donsy.Worker.Keys.{subject_eq}
use donsy.Round.Supervisor.{RunSupervisor}
use donsy.Completion.{update_epic}
use donsy.Completion.Drafting.{update_epic_ok}
use donsy.Landing.{CodeWorkspace, CodeCheckout, open_pull_request}
use donsy.Disposal.Cancelling.{Registry, cancel_agent_run}
use donsy.Disposal.Forgetting.{
  ProjectRuntime, ForgetCall, Forgotten, then_forgotten, release_sandbox, errors_of, no_error,
  is_released,
}

-- The checkout of the command's epic.
abbrev pub checkout_in : Text → PullRequest → CodeCheckout
checkout_in epic_id p = record {
  epic_id = epic_id;
  issue_id = p.issue_id;
  repository = p.repository;
}

-- What `cancelAndDrain` leaves of the runs: the supervisor, and the runs that it saved.
pub record Cancelled : Type 0 where
  pub supervisor : RunSupervisor
  pub saved : List AgentRun
  pub failed : Option Error

abbrev pub saving : Option AgentRun → Cancelled → Cancelled
saving none c = c
saving (some run) c = record c { saved = run ∷ c.saved }

-- The use case that cancels is there if the registry is.
module _ (r : Option Registry) (now : Time) where
  unfoldable pub cancel_runs : List AgentRun → RunSupervisor → Cancelled
  cancel_runs [] s = record { supervisor = s; saved = []; failed = none }
  cancel_runs (run ∷ rest) s =
      let skipped = cancel_runs rest s in
      let cancelled : Registry → Cancelled = λ registry.
        let done = cancel_agent_run registry now run.id s in
        saving done.saved (elim done.answer [
          | err x ↦ record { supervisor = done.supervisor; saved = []; failed = some x }
          | ok b ↦ cancel_runs rest done.supervisor
        ]) in
      let asked : Cancelled = elim r [
        | none ↦ record { supervisor = s; saved = []; failed = some no_cancel }
        | some registry ↦ cancelled registry
      ] in
      if not (is_live_agent_run_status run.status) then skipped else asked

abbrev pub has_live : List AgentRun → Bool
has_live runs = any (λ (run : AgentRun). is_live_agent_run_status run.status) runs

-- The loop that waits until no run is live.
unfoldable pub drain_runs : Result (List AgentRun) → List (Result (List AgentRun)) → Option Error
drain_runs (err x) later = some x
drain_runs (ok runs) [] = if has_live runs then some outside else none
drain_runs (ok runs) (next ∷ later) =
    let more = drain_runs next later in if has_live runs then more else none

-- The transcripts of the runs.
unfoldable pub discard_outputs : Option (Text → Option Error) → List AgentRun → List Error
discard_outputs none runs = []
discard_outputs (some discard) [] = []
discard_outputs (some discard) (run ∷ rest) =
    errors_of (discard run.id) ++ discard_outputs (some discard) rest

unfoldable pub reset_sandboxes : ProjectRuntime → AgentSubject → List Sandbox → Forgotten
reset_sandboxes r subject [] = ([], [])
reset_sandboxes r subject (b ∷ rest) =
    then_forgotten (if subject_eq b.subject subject then release_sandbox r b else ([], []))
      (reset_sandboxes r subject rest)

-- What the use case asks, beside the workspace of the code.
pub record ResetRuntime : Type 0 where
  pub registry : Option Registry
  pub runs : Result (List AgentRun)
  pub first : Result (List AgentRun)
  pub later : List (Result (List AgentRun))
  pub project : ProjectRuntime
  pub output : Option (Text → Option Error)
  pub delete_subject_runtime : Option Error

-- What it leaves: the supervisor and the runs that were cancelled in the registry, the calls on the
-- sandboxes, whether it called `DeleteSubjectRuntime`, the stored epic, and its errors.
pub record ResetIssue : Type 0 where
  pub supervisor : RunSupervisor
  pub saved : List AgentRun
  pub removed : List ForgetCall
  pub runtime_deleted : Bool
  pub stored : Epic
  pub errors : List Error

module _ (write : Epic → Option Error) (code : CodeWorkspace) (a : ResetRuntime) (now : Time) where
  abbrev pub stops_at : Cancelled → Error → Epic → ResetIssue
  stops_at c x e = record {
    supervisor = c.supervisor;
    saved = c.saved;
    removed = [];
    runtime_deleted = false;
    stored = e;
    errors = x ∷ [];
  }

  -- The clean-up, whose errors are joined.
  unfoldable pub clean_up : Text → PullRequest → List AgentRun → List Sandbox → Forgotten
  clean_up epic_id p runs listed =
      then_forgotten (reset_sandboxes a.project (subject_of_issue p.issue_id) listed) (
        [],
        errors_of (code.delete_branch (checkout_in epic_id p) p.head)
            ++ discard_outputs a.output runs,
      )

  -- From the end of the clean-up on.
  unfoldable pub close_clean : Cancelled → Text → Forgotten → Epic → ResetIssue
  close_clean c id (removed, errors) e =
      let (stored, failed) = update_epic write (transition_pull_request id PullRequest.closed) e in
      let left : Bool → Epic → List Error → ResetIssue = λ gone s errors. record {
        supervisor = c.supervisor;
        saved = c.saved;
        removed = removed;
        runtime_deleted = gone;
        stored = s;
        errors = errors;
      } in
      let closed : ResetIssue = elim a.delete_subject_runtime [
        | some x ↦ left true e (x ∷ [])
        | none ↦ left true stored (errors_of failed)
      ] in
      if ltb 0 (length errors) then left false e errors else closed

  unfoldable pub reset_open :
      Text → PullRequest → List AgentRun → Text → RunSupervisor → Epic → ResetIssue
  reset_open epic_id p runs id s e =
      let c = cancel_runs a.registry now runs s in
      let cleaned : ResetIssue = elim a.project.sandboxes [
        | err x ↦ stops_at c x e
        | ok listed ↦ close_clean c id (clean_up epic_id p runs listed) e
      ] in
      let drained : ResetIssue = elim (drain_runs a.first a.later) [
        | some x ↦ stops_at c x e
        | none ↦ cleaned
      ] in
      elim c.failed [ some x ↦ stops_at c x e | none ↦ drained ]

  -- `Handle`, where the agent runtime is there.
  unfoldable pub reset_issue : Text → Text → Result Epic → RunSupervisor → Epic → ResetIssue
  reset_issue epic_id id read s e =
      let none_cancelled : Cancelled = record { supervisor = s; saved = []; failed = none } in
      let found : Epic → ResetIssue = λ current. elim (open_pull_request current id) [
        | err x ↦ stops_at none_cancelled x e
        | ok p ↦ elim a.runs [
          | err x ↦ stops_at none_cancelled x e
          | ok runs ↦ reset_open epic_id p runs id s e
        ]
      ] in
      let there : ResetIssue = elim read [
        | err x ↦ stops_at none_cancelled x e
        | ok current ↦ found current
      ] in
      if is_empty epic_id || is_empty id
      then stops_at none_cancelled reset_fields_required e
      else if not a.project.has_runtime
      then stops_at none_cancelled no_runtime e
      else there

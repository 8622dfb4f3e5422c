-- ===== src/Worker/Tick.antt =====
-- internal/application/usecases/epic_worker.go: `Tick` and `advanceIssues`. What the use cases that
-- it calls answer in one tick is the record Answers; each is asked at most once for a project or an
-- epic. The clock is read once for the tick, and once for each dispatch.
pub mod Refinement
pub mod Turns
use donsy.Prelude.{
  ℕ, Bool, true, false, not, ◌&&◌, ◌||◌, Option, none, some, List, [], ◌∷◌, ◌++◌, map, any,
  if◌then◌else◌,
}
use donsy.Text.{Text}
use donsy.Errors.{Error, Result, ok, err}
use donsy.Epic.Issue.{Time}
use donsy.Epic.PullRequest.{PullRequest}
use donsy.Epic.Aggregate.{Epic}
use donsy.Agent.{AgentRole, AgentSubject}
use donsy.Workflow.{
  epic_role, issue_role, eligible_subjects, terminal_subjects, subject_of_epic, subject_of_issue,
}
use donsy.Worker.{Worker, drain, due_for_sweep, dispatch, inflight_subjects, inflight_epics}
use donsy.Worker.Keys.{SubjectKey, subject_eq}

-- `domain.Project`.
pub record Project : Type 0 where
  pub id : ℕ
  pub name : Text
  pub last_opened_at : Time

-- What `Handle` of reconciliation answers: success, a `reconcileFailure` with the subjects that it
-- could not reconcile, or another error.
pub data Reconciled : Type 0 where
  reconciled : Reconciled
  partially : List AgentSubject → Reconciled
  unreconciled : Reconciled

-- What `ReconcileSandboxesCommand` and `PurgeFinishedWorkCommand` hold.
pub record ReconcileCommand : Type 0 where
  pub project : ℕ
  pub recover : Bool
  pub terminal : List AgentSubject
  pub inflight : List AgentSubject
  pub priority : List (AgentSubject × AgentRole)

pub record PurgeCommand : Type 0 where
  pub project : ℕ
  pub epics : List Epic
  pub inflight : List Text

-- `has_purge` and `issues_ready`: the use cases that may be nil are there. A Boolean answer is
-- whether the call gave no error.
pub record Answers : Type 0 where
  pub projects : Result (List Project)
  pub epics : Project → Result (List Epic)
  pub reconcile : ReconcileCommand → Reconciled
  pub has_purge : Bool
  pub purge : PurgeCommand → Bool
  pub issues_ready : Bool
  pub open_pull_requests : Project → Text → Bool
  pub review_approved : Project → Text → Bool
  pub get_epic : Project → Text → Result Epic
  pub complete_epic : Project → Text → Bool
  pub dispatched_at : SubjectKey → Time

pub data TickFailure : Type 0 where
  no_projects no_epics no_reconcile no_purge no_issues : TickFailure

abbrev failure_if : Bool → TickFailure → List TickFailure
failure_if true f = f ∷ []
failure_if false f = []

abbrev is_reconciled : Reconciled → Bool
is_reconciled reconciled = true
is_reconciled _ = false

-- The subjects that a tick leaves alone: all that are eligible, if the failure names none.
unfoldable pub left_alone : Reconciled → List (AgentSubject × AgentRole) → List AgentSubject
left_alone reconciled priority = []
left_alone (partially subjects) priority = subjects
left_alone unreconciled priority = map (λ p. p.0) priority

module _ (a : Answers) where
  abbrev pub dispatch_subject : Project → Text → AgentSubject → Worker → Worker
  dispatch_subject project epic subject w =
      let key : SubjectKey = record { project = project.id; subject = subject } in
      dispatch (a.dispatched_at key) key epic w

  -- The body of the loop of `advanceIssues`, and the loop.
  unfoldable pub advance_pull_request :
      Project → Epic → Text → List AgentSubject → PullRequest → Worker → Worker
  advance_pull_request project current epic_id blocked p w = elim (issue_role current p) [
    | none ↦ w
    | some role ↦
        if any (subject_eq (subject_of_issue p.issue_id)) blocked
        then w
        else dispatch_subject project epic_id (subject_of_issue p.issue_id) w
  ]

  unfoldable pub dispatch_pull_requests :
      Project → Epic → Text → List AgentSubject → List PullRequest → Worker → Worker
  dispatch_pull_requests project current epic_id blocked [] w = w
  dispatch_pull_requests project current epic_id blocked (p ∷ rest) w =
      dispatch_pull_requests project current epic_id blocked rest
        (advance_pull_request project current epic_id blocked p w)

  -- `advanceIssues`, and whether it gave no error.
  unfoldable pub advance_issues : Project → Text → Bool → List AgentSubject → Worker → Worker × Bool
  advance_issues project epic_id sweep blocked w =
      if not a.issues_ready
      then (w, true)
      else if not (a.open_pull_requests project epic_id)
      then (w, false)
      else if sweep && not (a.review_approved project epic_id)
      then (w, false)
      else elim (a.get_epic project epic_id) [
        | err e ↦ (w, false)
        | ok current ↦ (
          dispatch_pull_requests project current epic_id blocked current.pull_requests w,
          a.complete_epic project epic_id,
        )
      ]

  -- The body of the loop over the epics of a project, and the loop.
  unfoldable pub advance_epic :
      Project → Bool → List AgentSubject → Epic → Worker → Worker × List TickFailure
  advance_epic project sweep blocked current w = elim (epic_role current.state) [
    | some role ↦ (
      if any (subject_eq (subject_of_epic current)) blocked
          then w
          else dispatch_subject project current.id (subject_of_epic current) w,
      [],
    )
    | none ↦
        let (w', done) = advance_issues project current.id sweep blocked w in
        (w', failure_if (not done) no_issues)
  ]

  unfoldable pub advance_epics :
      Project → Bool → List AgentSubject → List Epic → Worker → Worker × List TickFailure
  advance_epics project sweep blocked [] w = (w, [])
  advance_epics project sweep blocked (current ∷ rest) w =
      let here = advance_epic project sweep blocked current w in
      let (w', failures) = advance_epics project sweep blocked rest here.0 in
      (w', here.1 ++ failures)

  abbrev pub reconcile_project : Bool → Project → List Epic → Worker → Reconciled
  reconcile_project recovering project epics w = a.reconcile (record {
    project = project.id;
    recover = recovering;
    terminal = terminal_subjects epics;
    inflight = inflight_subjects project.id w.inflight;
    priority = eligible_subjects epics;
  })

  -- The body of the loop over the projects.
  unfoldable pub advance_project : Bool → Bool → Project → Worker → Worker × List TickFailure
  advance_project sweep recovering project w = elim (a.epics project) [
    | err e ↦ (w, no_epics ∷ [])
    | ok epics ↦
        let answer = reconcile_project recovering project epics w in
        let purged =
          not a.has_purge
          || a.purge (record {
            project = project.id;
            epics = epics;
            inflight = inflight_epics project.id w.inflight;
          }) in
        let (w', failures) =
          advance_epics project sweep (left_alone answer (eligible_subjects epics)) epics w in
        (
          w',
          failure_if (not (is_reconciled answer)) no_reconcile
              ++ (failure_if (not purged) no_purge ++ failures),
        )
  ]

  unfoldable pub advance_projects : Bool → Bool → List Project → Worker → Worker × List TickFailure
  advance_projects sweep recovering [] w = (w, [])
  advance_projects sweep recovering (project ∷ rest) w =
      let here = advance_project sweep recovering project w in
      let (w', failures) = advance_projects sweep recovering rest here.0 in (w', here.1 ++ failures)

  -- `Tick`: the worker, and the failures that it joins.
  unfoldable pub tick : Time → Worker → Worker × List TickFailure
  tick now w =
      let drained = drain now w in
      elim a.projects [
        | err e ↦ (drained, no_projects ∷ [])
        | ok projects ↦
            let (swept, sweep) = due_for_sweep now drained in
            advance_projects sweep (not swept.recovered) projects
              (record swept { recovered = true })
      ]

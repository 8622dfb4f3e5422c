-- ===== src/Worker/Tick/Turns.antt =====
-- Which rounds a tick asks for, in which order, as a list that does not depend on the loops of the code.
use donsy.Prelude.{
  ◌-◌, Bool, true, ◌&&◌, ◌||◌, not, Option, none, some, List, [], ◌∷◌, ◌++◌, any, ltb, ◌==◌,
  if◌then◌else◌,
}
use donsy.Text.{Text}
use donsy.Errors.{Result, ok, err}
use donsy.Epic.Issue.{Time}
use donsy.Epic.PullRequest.{PullRequest}
use donsy.Epic.Aggregate.{Epic}
use donsy.Agent.{AgentSubject, AgentRole}
use donsy.Workflow.{
  epic_role, subject_of_epic, eligible_subjects, eligible_pull_requests, terminal_subjects,
}
use donsy.Worker.{Worker, drain, dispatch, inflight_subjects, approved_branch_sweep_interval}
use donsy.Worker.Keys.{SubjectKey, subject_eq}
use donsy.Worker.Tick.{Project, Answers, left_alone}

-- The subjects that are not among the blocked ones, each with the epic of its round.
abbrev pub unblocked :
    List AgentSubject → Text → List (AgentSubject × AgentRole) → List (Text × AgentSubject)
unblocked blocked epic [] = []
unblocked blocked epic ((subject, role) ∷ rest) =
    let more = unblocked blocked epic rest in
    if any (subject_eq subject) blocked then more else (epic, subject) ∷ more

module _ (a : Answers) where
  -- The epic that is read again for its issues, if nothing before that fails.
  abbrev pub worked_epic : Project → Bool → Text → Result Epic → Option Epic
  worked_epic project sweep id (err x) = none
  worked_epic project sweep id (ok fresh) =
      if a.issues_ready
        && a.open_pull_requests project id
        && (not sweep || a.review_approved project id)
      then some fresh
      else none

  -- The subjects of an epic that are due, with their roles: the epic, if its state has a role, or
  -- else the issues of its pull requests that have one.
  abbrev pub due_subjects : Project → Bool → Epic → List (AgentSubject × AgentRole)
  due_subjects project sweep current = elim (epic_role current.state) [
    | some role ↦ (subject_of_epic current, role) ∷ []
    | none ↦ elim (worked_epic project sweep current.id (a.get_epic project current.id)) [
      | none ↦ []
      | some fresh ↦ eligible_pull_requests fresh fresh.pull_requests
    ]
  ]

  abbrev pub due_rounds :
      Project → Bool → List AgentSubject → List Epic → List (Text × AgentSubject)
  due_rounds project sweep blocked [] = []
  due_rounds project sweep blocked (current ∷ rest) =
      unblocked blocked current.id (due_subjects project sweep current)
      ++ due_rounds project sweep blocked rest

  -- The rounds of a list are asked for one after the other.
  abbrev pub serve : Project → List (Text × AgentSubject) → Worker → Worker
  serve project [] w = w
  serve project ((epic, subject) ∷ rest) w =
      let key : SubjectKey = record { project = project.id; subject = subject } in
      serve project rest (dispatch (a.dispatched_at key) key epic w)

  -- What the turn of a project leaves alone; the scheduler's rounds at its start are in flight.
  abbrev pub unsettled : Bool → Project → List Epic → Worker → List AgentSubject
  unsettled recovering project epics w =
      left_alone
        (a.reconcile (record {
          project = project.id;
          recover = recovering;
          terminal = terminal_subjects epics;
          inflight = inflight_subjects project.id w.inflight;
          priority = eligible_subjects epics;
        }))
        (eligible_subjects epics)

  abbrev pub turn : Bool → Bool → Project → Result (List Epic) → Worker → Worker
  turn sweep recovering project (err x) w = w
  turn sweep recovering project (ok epics) w =
      serve project (due_rounds project sweep (unsettled recovering project epics w) epics) w

  abbrev pub turns : Bool → Bool → List Project → Worker → Worker
  turns sweep recovering [] w = w
  turns sweep recovering (project ∷ rest) w =
      turns sweep recovering rest (turn sweep recovering project (a.epics project) w)

-- A sweep is due if there was none, or the last one is as long ago as the interval.
abbrev pub is_sweep_due : Time → Time → Bool
is_sweep_due now last = (last == 0) || not (ltb (now - last) approved_branch_sweep_interval)

-- The scheduler at the start of the turns.
abbrev pub at_turns : Time → Worker → Worker
at_turns now w = record (drain now w) {
  last_sweep = if is_sweep_due now w.last_sweep then now else w.last_sweep;
  recovered = true;
}

-- What a tick leaves of the scheduler, for each answer to the list of the projects.
abbrev pub ticked : Answers → Time → Worker → Result (List Project) → Worker
ticked a now w (err x) = drain now w
ticked a now w (ok projects) =
    turns a (is_sweep_due now w.last_sweep) (not w.recovered) projects (at_turns now w)

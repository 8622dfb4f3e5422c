-- ===== src/Worker/Tick/Refinement.antt =====
-- A tick is a sequence of the scheduler's steps, and what it leaves alone.
use mathlib.Core.Path.{subst}
use donsy.Prelude.{
  ℕ, ◌≡◌, refl, sym, inl, inr, Bool, true, false, ◌&&◌, not, List, [], ◌∷◌, arith, any,
  if◌then◌else◌, Bool-cases, Option-cases,
}
use donsy.Text.{Text}
use donsy.Errors.{ok, Result-cases}
use donsy.Epic.Issue.{Time}
use donsy.Epic.PullRequest.{PullRequest}
use donsy.Epic.Aggregate.{Epic}
use donsy.Agent.{AgentSubject}
use donsy.Workflow.{epic_role, issue_role, subject_of_epic, subject_of_issue, eligible_subjects}
use donsy.Worker.{Worker, drain, due_for_sweep, dispatch}
use donsy.Worker.Keys.{SubjectKey, lookup, lookup-put, subject_eq, key_eq, key_eq_iff}
use donsy.Worker.Steps.{dispatches, drains, sweeps, recovers, Reach, here, next, Reach-trans}
use donsy.Worker.Exclusion.{rounds_of, rounds_of-snoc, held_back-or-dispatched}
use donsy.Worker.Tick.{
  Project, Answers, left_alone, reconcile_project, dispatch_subject, advance_pull_request,
  advance_epic, dispatch_pull_requests, advance_issues, advance_epics, advance_project,
  advance_projects, tick,
}

-- What each dispatch that is not left alone keeps, the epics of a project keep.
module _ (a : Answers) (project : Project) (blocked : List AgentSubject) (P : Worker → Type 0)
    (keep : (epic : Text) (subject : AgentSubject) (w : Worker)
      → any (subject_eq subject) blocked ≡ false
      → P w
      → P (dispatch_subject a project epic subject w)) where
  dispatched_or_not :
      (epic : Text) (subject : AgentSubject) (w : Worker)
      → P w
      → P (
          if any (subject_eq subject) blocked then w else dispatch_subject a project epic subject w)
  dispatched_or_not epic subject w h = elim (Bool-cases (any (subject_eq subject) blocked)) [
    | inl b ↦ rw b h
    | inr b ↦ rw b (keep epic subject w b h)
  ]

  pull_request_keeps :
      (current : Epic) (epic : Text) (p : PullRequest) (w : Worker)
      → P w
      → P (advance_pull_request a project current epic blocked p w)
  unfolding advance_pull_request
  pull_request_keeps current epic p w h = elim (Option-cases (issue_role current p)) [
    | inl n ↦ rw (n, advance_pull_request) h
    | inr (role, n) ↦
        rw (n, advance_pull_request) (dispatched_or_not epic (subject_of_issue p.issue_id) w h)
  ]

  pull_requests_keep :
      (current : Epic) (epic : Text) (ps : List PullRequest) (w : Worker)
      → P w
      → P (dispatch_pull_requests a project current epic blocked ps w)
  unfolding dispatch_pull_requests
  pull_requests_keep current epic [] w h = h
  pull_requests_keep current epic (p ∷ ps) w h =
      pull_requests_keep current epic ps (advance_pull_request a project current epic blocked p w)
        (pull_request_keeps current epic p w h)

  issues_keep :
      (epic : Text) (sweep : Bool) (w : Worker)
      → P w
      → P (advance_issues a project epic sweep blocked w).0
  unfolding advance_issues
  issues_keep epic sweep w h = elim (Bool-cases a.issues_ready) [
    | inr r ↦ rw (r, advance_issues) h
    | inl r ↦ elim (Bool-cases (a.open_pull_requests project epic)) [
      | inr o ↦ rw (r, o, advance_issues) h
      | inl o ↦ elim (Bool-cases (sweep && not (a.review_approved project epic))) [
        | inl s ↦ rw (r, o, s, advance_issues) h
        | inr s ↦ elim (Result-cases (a.get_epic project epic)) [
          | inr (e, g) ↦ rw (r, o, s, g, advance_issues) h
          | inl (current, g) ↦
              rw (r, o, s, g, advance_issues)
                (pull_requests_keep current epic current.pull_requests w h)
        ]
      ]
    ]
  ]

  epic_keeps :
      (sweep : Bool) (e : Epic) (w : Worker) → P w → P (advance_epic a project sweep blocked e w).0
  unfolding advance_epic
  epic_keeps sweep e w h = elim (Option-cases (epic_role e.state)) [
    | inl n ↦ rw (n, advance_epic) (issues_keep e.id sweep w h)
    | inr (role, n) ↦ rw (n, advance_epic) (dispatched_or_not e.id (subject_of_epic e) w h)
  ]

  pub epics_keep :
      (sweep : Bool) (es : List Epic) (w : Worker)
      → P w
      → P (advance_epics a project sweep blocked es w).0
  unfolding advance_epics
  epics_keep sweep [] w h = h
  epics_keep sweep (e ∷ es) w h =
      epics_keep sweep es (advance_epic a project sweep blocked e w).0 (epic_keeps sweep e w h)

-- A project's turn is the turns of its epics, none of which dispatches what is left alone.
module _ (a : Answers) (project : Project) (P : Worker → Type 0) where
  pub project_keeps :
      (sweep recovering : Bool) (w : Worker)
      → ((epics : List Epic)
          → a.epics project ≡ ok epics
          → P
              (advance_epics a project sweep
                (left_alone
                  (reconcile_project a recovering project epics w)
                  (eligible_subjects epics))
                epics
                w).0)
      → P w
      → P (advance_project a sweep recovering project w).0
  unfolding advance_project
  project_keeps sweep recovering w turn h = elim (Result-cases (a.epics project)) [
    | inr (e, g) ↦ rw (g, advance_project) h
    | inl (epics, g) ↦ rw (g, advance_project) (turn epics g)
  ]

-- Every dispatch of a turn is a step.
advance_epics-Reach :
    (a : Answers) (project : Project) (blocked : List AgentSubject) (sweep : Bool) (es : List Epic)
    (w : Worker)
    → Reach w (advance_epics a project sweep blocked es w).0
advance_epics-Reach a project blocked sweep es w =
    epics_keep a project blocked (Reach w)
      (λ epic subject u b r. next r (
        dispatches (a.dispatched_at (record { project = project.id; subject = subject }))
          (record { project = project.id; subject = subject }) epic refl))
      sweep es w here

advance_project-Reach :
    (a : Answers) (sweep recovering : Bool) (project : Project) (w : Worker)
    → Reach w (advance_project a sweep recovering project w).0
advance_project-Reach a sweep recovering project w =
    project_keeps a project (Reach w) sweep recovering w
      (λ epics g.
        advance_epics-Reach a project
          (left_alone (reconcile_project a recovering project epics w) (eligible_subjects epics))
          sweep epics w)
      here

advance_projects-Reach :
    (a : Answers) (sweep recovering : Bool) (projects : List Project) (w : Worker)
    → Reach w (advance_projects a sweep recovering projects w).0
unfolding advance_projects
advance_projects-Reach a sweep recovering [] w = here
advance_projects-Reach a sweep recovering (project ∷ rest) w =
    Reach-trans (advance_project-Reach a sweep recovering project w) (
      advance_projects-Reach a sweep recovering rest
        (advance_project a sweep recovering project w).0)

-- What Tick does to the scheduler is a sequence of the steps of the step relation, whatever the use
-- cases that it calls answer, errors included; so what holds of all such sequences holds of ticks.
pub tick-Reach : (a : Answers) (now : Time) (w : Worker) → Reach w (tick a now w).0
unfolding tick
tick-Reach a now w = elim (Result-cases a.projects) [
  | inr (e, g) ↦ rw (g, tick) (next here (drains now refl))
  | inl (projects, g) ↦
      rw (g, tick)
        (Reach-trans (next (next (next here (drains now refl)) (sweeps now refl)) (recovers refl)) (
          advance_projects-Reach a (due_for_sweep now (drain now w)).1
            (not (due_for_sweep now (drain now w)).0.recovered) projects
            (record (due_for_sweep now (drain now w)).0 { recovered = true })))
]

abbrev Undisturbed : SubjectKey → Worker → Worker → Type 0
Undisturbed key w u =
    (rounds_of key u.active ≡ rounds_of key w.active)
    × (lookup key u.inflight ≡ lookup key w.inflight)

dispatch-Undisturbed :
    (now : Time) (key other : SubjectKey) (epic : Text) (w u : Worker)
    → key_eq other key ≡ false
    → Undisturbed key w u
    → Undisturbed key w (dispatch now other epic u)
dispatch-Undisturbed now key other epic w u b h = elim (held_back-or-dispatched now other epic u) [
  | inl e ↦ subst (Undisturbed key w) (sym e) h
  | inr (free, room, e) ↦ subst (Undisturbed key w) (sym e) (
    ground (arith, h.0, rounds_of-snoc key u.active (record { key = other; epic_id = epic })),
    ground (arith, h.1, lookup-put other key epic u.inflight),
  )
]

distinct :
    (other subject : AgentSubject) (blocked : List AgentSubject) (project : ℕ)
    → any (subject_eq other) blocked ≡ false
    → any (subject_eq subject) blocked ≡ true
    → key_eq
        (record { project = project; subject = other })
        (record { project = project; subject = subject })
      ≡ false
distinct other subject blocked project free b = ground (
  arith,
  key_eq_iff (record { project = project; subject = other })
      (record { project = project; subject = subject }),
)

-- The subjects that reconciliation could not settle (all that are eligible, when it failed as a
-- whole) are left alone for the turn of their project: no round of theirs starts, and they are in
-- flight afterwards just when they were before.
pub advance_project_spares :
    (a : Answers) (sweep recovering : Bool) (project : Project) (epics : List Epic) (w : Worker)
    (subject : AgentSubject)
    → a.epics project ≡ ok epics
    → any
        (subject_eq subject)
        (left_alone (reconcile_project a recovering project epics w) (eligible_subjects epics))
      ≡ true
    → Undisturbed
        (record { project = project.id; subject = subject })
        w
        (advance_project a sweep recovering project w).0
unfolding advance_project
advance_project_spares a sweep recovering project epics w subject g b =
    let key : SubjectKey = record { project = project.id; subject = subject } in
    let blocked =
      left_alone (reconcile_project a recovering project epics w) (eligible_subjects epics) in
    rw (g, advance_project)
      (epics_keep a project blocked (Undisturbed key w)
        (λ epic other u free h.
          dispatch-Undisturbed _ key (record { project = project.id; subject = other }) epic w u
            (distinct _ _ blocked project.id free b) h)
        sweep epics w (refl, refl))

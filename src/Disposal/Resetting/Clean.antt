-- ===== src/Disposal/Resetting/Clean.antt =====
-- What is gone when a reset closes its pull request.
use mathlib.Core.Path.{subst}
use donsy.Prelude.{
  ◌≡◌, ◌≢◌, refl, sym, ap, ◌∙◌, inl, inr, Bool, true, false, ◌||◌, map, any, not, Option, none,
  some, List, [], ◌∷◌, ◌++◌, all, arith, Option-cases, Bool-cases, if◌then◌else◌, length, ltb,
}
use donsy.Text.{Text, is_empty}
use donsy.Errors.{Error, Result, ok, err, Result-cases}
use donsy.Epic.Issue.{Time}
use donsy.Epic.PullRequest
use donsy.Epic.PullRequest.{PullRequest}
use donsy.Epic.Aggregate.{Epic, find_first, pull_request_has_id}
use donsy.Epic.PullRequest.Status.{status_eq_iff}
use donsy.Epic.Work.{transition_pull_request}
use donsy.Epic.Work.Outcomes.{Recorded, outcome-Recorded}
use donsy.Agent
use donsy.Agent.{AgentRunStatus, AgentRun, AgentSubject, Sandbox}
use donsy.Workflow.{subject_of_issue, is_live_agent_run_status}
use donsy.Worker.Keys.{subject_eq}
use donsy.Round.Supervisor.{RunSupervisor}
use donsy.Completion.{update_epic}
use donsy.Completion.Drafting.{update_epic_ok}
use donsy.Completion.Publishing.{update_epic-failed}
use donsy.Landing.{CodeWorkspace, open_pull_request}
use donsy.Disposal.Forgetting.{
  ProjectRuntime, Forgotten, release_sandbox, errors_of, no_error, is_released, no_errors, released,
}
use donsy.Disposal.Resetting.{
  Cancelled, cancel_runs, drain_runs, discard_outputs, reset_sandboxes, ResetRuntime, clean_up,
  close_clean, reset_open, reset_issue, checkout_in, has_live,
}

abbrev pub is_cleared : ProjectRuntime → AgentSubject → Sandbox → Bool
is_cleared r subject b = not (subject_eq b.subject subject) || is_released r b

abbrev pub output_gone : Option (Text → Option Error) → AgentRun → Bool
output_gone output run = elim output [ none ↦ true | some discard ↦ no_error (discard run.id) ]

append_none : (xs ys : List Error) → xs ++ ys ≡ [] → (xs ≡ []) × (ys ≡ [])
append_none xs ys h = no_errors xs ys (ap (λ l. ltb 0 (length l)) h)

reset_sandboxes_cleared :
    (r : ProjectRuntime) (subject : AgentSubject) (bs : List Sandbox)
    → (reset_sandboxes r subject bs).1 ≡ []
    → all (is_cleared r subject) bs ≡ true
unfolding reset_sandboxes
reset_sandboxes_cleared r subject [] h = refl
reset_sandboxes_cleared r subject (b ∷ rest) h =
    let (here, later) =
      append_none (if subject_eq b.subject subject then release_sandbox r b else ([], [])).1
        (reset_sandboxes r subject rest).1 h in
    ground (arith, released r b, reset_sandboxes_cleared r subject rest later)

discard_outputs_gone :
    (output : Option (Text → Option Error)) (runs : List AgentRun)
    → discard_outputs output runs ≡ []
    → all (output_gone output) runs ≡ true
unfolding discard_outputs
discard_outputs_gone none [] h = refl
discard_outputs_gone none (run ∷ rest) h =
    discard_outputs_gone none rest (unfold discard_outputs in refl)
discard_outputs_gone (some discard) [] h = refl
discard_outputs_gone (some discard) (run ∷ rest) h =
    let (here, later) =
      append_none (errors_of (discard run.id)) (discard_outputs (some discard) rest) h in
    ground (arith, discard_outputs_gone (some discard) rest later)

-- Of the registry's answers, one is that no run is live, and every one before it that some run is.
abbrev pub is_live : AgentRunStatus → Bool
is_live Agent.queued = true
is_live Agent.admitted = true
is_live AgentRunStatus.running = true
is_live _ = false

abbrev pub live_run : AgentRun → Bool
live_run run = is_live run.status

abbrev pub IsDrained : Result (List AgentRun) → List (Result (List AgentRun)) → Type 0
IsDrained first later =
    (before : List (List AgentRun)) × (runs : List AgentRun) × (after : List
      (Result (List AgentRun)))
    × (first ∷ later ≡ map (λ l. ok l) before ++ ok runs ∷ after)
    × (all (any live_run) before ≡ true)
    × (any live_run runs ≡ false)

live_status : (s : AgentRunStatus) → is_live_agent_run_status s ≡ is_live s
unfolding is_live_agent_run_status
live_status Agent.queued = refl
live_status _ = ground arith

live_runs : (runs : List AgentRun) → has_live runs ≡ any live_run runs
live_runs [] = refl
live_runs (run ∷ rest) = ground (arith, live_status run.status, live_runs rest)

drained :
    (first : Result (List AgentRun)) (later : List (Result (List AgentRun)))
    → drain_runs first later ≡ none
    → IsDrained first later
unfolding drain_runs
drained (err x) later h = absurd (ground arith)
drained (ok runs) [] h = ([], runs, [], refl, refl, ground (arith, live_runs runs))
drained (ok runs) (next ∷ later) h = elim (Bool-cases (has_live runs)) [
  | inr b ↦ ([], runs, next ∷ later, refl, refl, sym (live_runs runs) ∙ b)
  | inl b ↦
      let (before, none_live, after, same, lives, ends) = drained next later (ground arith) in
      (
        runs ∷ before,
        none_live,
        after,
        ap (λ l. ok runs ∷ l) same,
        ground (arith, live_runs runs),
        ends,
      )
]

open_pull_request_ok :
    (current : Epic) (id : Text) (p : PullRequest)
    → open_pull_request current id ≡ ok p
    → (find_first (pull_request_has_id id) current.pull_requests ≡ some p)
      × (p.status ≡ PullRequest.opened)
unfolding open_pull_request
open_pull_request_ok current id p h =
    elim (Option-cases (find_first (pull_request_has_id id) current.pull_requests)) [
      | inl n ↦ absurd (ground arith)
      | inr (q, f) ↦ (ground arith, ground (arith, status_eq_iff q.status PullRequest.opened))
    ]

module _ (write : Epic → Option Error) (code : CodeWorkspace) (a : ResetRuntime) (now : Time) where
  -- What the clean-up has removed.
  abbrev pub IsClean : Text → PullRequest → List AgentRun → List Sandbox → Type 0
  IsClean epic_id p runs listed =
      (all (is_cleared a.project (subject_of_issue p.issue_id)) listed ≡ true)
      × (code.delete_branch (checkout_in epic_id p) p.head ≡ none)
      × (all (output_gone a.output) runs ≡ true)

  clean_up-IsClean :
      (epic_id : Text) (p : PullRequest) (runs : List AgentRun) (listed : List Sandbox)
      → (clean_up write code a now epic_id p runs listed).1 ≡ []
      → IsClean epic_id p runs listed
  unfolding clean_up
  clean_up-IsClean epic_id p runs listed h =
      let (boxes, rest) =
        append_none (reset_sandboxes a.project (subject_of_issue p.issue_id) listed).1
          (errors_of (code.delete_branch (checkout_in epic_id p) p.head)
            ++ discard_outputs a.output runs)
          h in
      let (branch, outputs) =
        append_none (errors_of (code.delete_branch (checkout_in epic_id p) p.head))
          (discard_outputs a.output runs) rest in
      (
        reset_sandboxes_cleared a.project (subject_of_issue p.issue_id) listed boxes,
        ground arith,
        discard_outputs_gone a.output runs outputs,
      )

  close_clean_ok :
      (c : Cancelled) (id : Text) (cleaned : Forgotten) (e : Epic)
      → (close_clean write code a now c id cleaned e).stored ≢ e
      → (cleaned.1 ≡ [])
        × (a.delete_subject_runtime ≡ none)
        × Recorded id PullRequest.closed e (close_clean write code a now c id cleaned e).stored
  unfolding close_clean
  close_clean_ok c id (removed, x ∷ errors) e h = absurd (h (ground arith))
  close_clean_ok c id (removed, []) e h = elim (Option-cases a.delete_subject_runtime) [
    | inr (x, d) ↦ absurd (h (ground arith))
    | inl d ↦
        let change = transition_pull_request id PullRequest.closed in
        let stored : (close_clean write code a now c id (removed, []) e).stored
            ≡ (update_epic write change e).0 =
          ground arith in
        elim (Option-cases (update_epic write change e).1) [
          | inr (x, f) ↦ absurd (h (stored ∙ update_epic-failed write change e (λ n. cc (f, n))))
          | inl f ↦
              let (t, v) = update_epic_ok write change e f in
              (
                refl,
                d,
                subst (λ (u : Epic). Recorded id PullRequest.closed e u) (sym (stored ∙ v))
                    (outcome-Recorded id PullRequest.closed e t),
              )
        ]
  ]

  reset_open_ok :
      (epic_id : Text) (p : PullRequest) (runs : List AgentRun) (id : Text) (s : RunSupervisor)
      (e : Epic)
      → (reset_open write code a now epic_id p runs id s e).stored ≢ e
      → (listed : List Sandbox) × (a.project.sandboxes ≡ ok listed)
        × IsClean epic_id p runs listed
        × IsDrained a.first a.later
        × (a.delete_subject_runtime ≡ none)
        × Recorded id PullRequest.closed e
            (reset_open write code a now epic_id p runs id s e).stored
  unfolding reset_open
  reset_open_ok epic_id p runs id s e h =
      let c = cancel_runs a.registry now runs s in
      elim (Option-cases c.failed) [
        | inr (x, f) ↦ absurd (h (ground arith))
        | inl f ↦ elim (Option-cases (drain_runs a.first a.later)) [
          | inr (x, d) ↦ absurd (h (ground arith))
          | inl d ↦ elim (Result-cases a.project.sandboxes) [
            | inr (x, b) ↦ absurd (h (ground arith))
            | inl (listed, b) ↦
                let ends =
                  close_clean write code a now c id
                    (clean_up write code a now epic_id p runs listed) e in
                let same : (reset_open write code a now epic_id p runs id s e).stored
                    ≡ ends.stored =
                  ground arith in
                let (clean, gone, closed) =
                  close_clean_ok c id (clean_up write code a now epic_id p runs listed) e
                    (λ k. h (same ∙ k)) in
                (
                  listed,
                  b,
                  clean_up-IsClean epic_id p runs listed clean,
                  drained a.first a.later d,
                  gone,
                  subst (λ (u : Epic). Recorded id PullRequest.closed e u) (sym same) closed,
                )
          ]
        ]
      ]

  -- If a reset changes the stored epic, then the first pull request under the identifier was open in
  -- the epic that it read; of the registry's answers while it drained one had no live run and every
  -- one before it had one; each listed sandbox of the issue was absent, or deleted with
  -- its credentials with no error; the deletion of the branch, of each transcript and of the records
  -- of the runtime gave no error; and the stored pull request is closed and its issue open again.
  pub resets-IsClean :
      (epic_id id : Text) (read : Result Epic) (s : RunSupervisor) (e : Epic)
      → (reset_issue write code a now epic_id id read s e).stored ≢ e
      → (current : Epic) × (p : PullRequest) × (runs : List AgentRun) × (listed : List Sandbox)
        × (read ≡ ok current)
        × (find_first (pull_request_has_id id) current.pull_requests ≡ some p)
        × (p.status ≡ PullRequest.opened)
        × (a.runs ≡ ok runs)
        × (a.project.sandboxes ≡ ok listed)
        × IsClean epic_id p runs listed
        × IsDrained a.first a.later
        × (a.delete_subject_runtime ≡ none)
        × Recorded id PullRequest.closed e (reset_issue write code a now epic_id id read s e).stored
  unfolding reset_issue
  resets-IsClean epic_id id (err x) s e h = absurd (h (ground arith))
  resets-IsClean epic_id id (ok current) s e h =
      elim (Result-cases (open_pull_request current id)) [
        | inr (x, o) ↦ absurd (h (ground arith))
        | inl (p, o) ↦ elim (Result-cases a.runs) [
          | inr (x, r) ↦ absurd (h (ground arith))
          | inl (runs, r) ↦
              elim (Bool-cases (is_empty epic_id || is_empty id || not a.project.has_runtime)) [
                | inl guard ↦ absurd (h (ground arith))
                | inr guard ↦
                    let same : (reset_issue write code a now epic_id id (ok current) s e).stored
                        ≡ (reset_open write code a now epic_id p runs id s e).stored =
                      ground arith in
                    let (found, opened) = open_pull_request_ok current id p o in
                    let (listed, b, clean, d, gone, closed) =
                      reset_open_ok epic_id p runs id s e (λ k. h (same ∙ k)) in
                    (
                      current,
                      p,
                      runs,
                      listed,
                      refl,
                      found,
                      opened,
                      r,
                      b,
                      clean,
                      d,
                      gone,
                      subst (λ (u : Epic). Recorded id PullRequest.closed e u) (sym same) closed,
                    )
              ]
        ]
      ]

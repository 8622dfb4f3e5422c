-- ===== src/Reconcile/Passes.antt =====
-- What holds of a whole pass.
use donsy.Prelude.{
  ◌≡◌, refl, Bool, true, false, ◌||◌, ◌&&◌, not, Option, none, some, List, [], ◌∷◌, ◌++◌, all, any,
  all_append, all_mono, ltb, leb, length, arith, inl, inr, ◌⊎◌, ◌+◌, Option-cases, Bool-cases,
  if◌then◌else◌, ap, sym, ◌∙◌,
}
use donsy.Text.{Text}
use donsy.Errors.{Error, ok, err, Result-cases}
use donsy.Epic.Issue.{Time}
use donsy.Agent.{AgentRun, AgentSubject, Sandbox, SandboxStatus}
use donsy.Workflow.{stall_live_runs}
use donsy.Worker.Tick.{ReconcileCommand}
use donsy.Reconcile.{
  SandboxCall, Provider, Limits, is_named, sandbox_status_eq, visit, visit_running, stop_unowned,
}
use donsy.Reconcile.Host.{HostRecord, HostCall, ProjectHost, release_host}
use donsy.Reconcile.Calls.{is_justified_by, visit_justified, may_stop, inspected}
use donsy.Reconcile.Handle.{
  ReconcileSettings, ProjectRecords, Loop, priority_sandboxes, live_runs_by_sandbox, visits,
  limits_of, is_active, finish_pass, pass_over, handle,
}

append_nil : {A : Type 0} (xs ys : List A) → xs ++ ys ≡ [] → (xs ≡ []) × (ys ≡ [])
append_nil [] ys h = (refl, h)
append_nil (x ∷ xs) ys h = absurd (ground arith)

empty_list : {A : Type 0} (xs : List A) → ltb 0 (length xs) ≡ false → xs ≡ []
empty_list [] h = refl
empty_list (x ∷ xs) h = absurd (ground arith)

-- The runs and the sandboxes that a pass judges.
abbrev pub runs_seen : ProjectRecords → ReconcileCommand → List AgentRun
runs_seen project command = elim project.runs [
  | err e ↦ []
  | ok runs ↦ if command.recover then [] else runs
]

abbrev pub sandboxes_seen : ProjectRecords → ReconcileCommand → List Sandbox
sandboxes_seen project command = elim project.sandboxes [
  | err e ↦ []
  | ok listed ↦ priority_sandboxes listed command.priority
]

module _ (h : Provider) (now : Time) where
  module _ (limits : Limits) (inflight terminal : List AgentSubject)
      (live : Text → List AgentRun) where
    abbrev pub is_justified : List Sandbox → SandboxCall → Bool
    is_justified bs c = any (λ b. is_justified_by h now limits inflight terminal live b c) bs

    pub visits_justified :
        (bs : List Sandbox)
        → all (is_justified bs) (visits h now limits inflight terminal live bs).calls ≡ true
    unfolding visits
    visits_justified [] = refl
    visits_justified (b ∷ rest) =
        let J = is_justified_by h now limits inflight terminal live in
        let here =
          all_mono (J b) (is_justified (b ∷ rest))
            (visit h now limits inflight terminal live b).calls (λ c k. ground arith)
            (visit_justified h now limits inflight terminal live b) in
        let later =
          all_mono (is_justified rest) (is_justified (b ∷ rest))
            (visits h now limits inflight terminal live rest).calls (λ c k. ground arith)
            (visits_justified rest) in
        all_append (is_justified (b ∷ rest)) (visit h now limits inflight terminal live b).calls
          (visits h now limits inflight terminal live rest).calls here later

    abbrev answers_no_error : Option Error → Bool
    answers_no_error none = true
    answers_no_error (some e) = false

    -- A sandbox that the provider sees at rest, or that the pass has just stopped.
    abbrev pub is_at_rest : Sandbox → Bool
    is_at_rest b = elim (h.inspect b) [
      | err e ↦ false
      | ok status ↦
          not (sandbox_status_eq status SandboxStatus.running)
          || (may_stop h now limits inflight terminal live b && answers_no_error (h.stop_now b))
    ]

    stop_unowned_ends :
        (b : Sandbox) (owners : List AgentRun) (finished : Bool)
        → (stop_unowned h now limits.max_runtime b owners finished).0.1 ≡ none
        → (stop_unowned h now limits.max_runtime b owners finished).1 ≡ true
        → ((not (ltb 0 (length owners))
              || (ltb 0 limits.max_runtime && leb (b.updated_at + limits.max_runtime) now)
              || finished)
            && answers_no_error (h.stop_now b))
          ≡ true
    unfolding stop_unowned
    stop_unowned_ends b owners finished k t = ground arith

    visit_running_rests :
        (b : Sandbox) (owners : List AgentRun) (finished : Bool)
        → (visit_running h now limits b owners finished).errors ≡ []
        → (visit_running h now limits b owners finished).is_busy ≡ false
        → ((stop_unowned h now limits.max_runtime b owners finished).0.1 ≡ none)
          × ((stop_unowned h now limits.max_runtime b owners finished).1 ≡ true)
    unfolding visit_running
    visit_running_rests b owners finished k t = ground arith

    visit_rests :
        (b : Sandbox)
        → is_named b.subject inflight ≡ false
        → (visit h now limits inflight terminal live b).errors ≡ []
        → (visit h now limits inflight terminal live b).is_busy ≡ false
        → is_at_rest b ≡ true
    unfolding visit
    visit_rests b free k t = elim (Result-cases (h.inspect b)) [
      | inl (s, e) ↦
          let here = inspected h now limits inflight terminal live b s SandboxStatus.running e in
          let rests = visit_running_rests b (live b.id) (is_named b.subject terminal) in
          let ends = stop_unowned_ends b (live b.id) (is_named b.subject terminal) in
          elim (Bool-cases (sandbox_status_eq s SandboxStatus.running)) [
            | inl r ↦
                let errors : (visit_running h now limits b (live b.id)
                      (is_named b.subject terminal)).errors
                    ≡ [] =
                  ground arith in
                let idle : (visit_running h now limits b (live b.id)
                      (is_named b.subject terminal)).is_busy
                    ≡ false =
                  ground arith in
                let (p, q) = rests errors idle in ground (arith, here, ends p q)
            | inr r ↦ ground (arith, here)
          ]
      | inr (e, i) ↦ absurd (ground arith)
    ]

    visits_rest :
        (bs : List Sandbox)
        → inflight ≡ []
        → (visits h now limits inflight terminal live bs).errors ≡ []
        → (visits h now limits inflight terminal live bs).is_busy ≡ false
        → all is_at_rest bs ≡ true
    unfolding visits
    visits_rest [] free k t = refl
    visits_rest (b ∷ rest) free k t =
        let none_busy : is_named b.subject inflight ≡ false = ap (λ l. is_named b.subject l) free in
        let (here, later) =
          append_nil (visit h now limits inflight terminal live b).errors
            (visits h now limits inflight terminal live rest).errors k in
        ground (arith, visit_rests b none_busy here, visits_rest rest free later)

  module _ (settings : ReconcileSettings) (project : ProjectRecords) (command : ReconcileCommand)
      (host : HostRecord) where
    abbrev loop_seen : Loop
    loop_seen =
        visits h now (limits_of h now settings) command.inflight command.terminal
          (live_runs_by_sandbox (runs_seen project command)) (sandboxes_seen project command)

    finish_calls :
        (m : Option ProjectHost) (stalled : List AgentRun) (loop : Loop)
        → (finish_pass h now settings m command host stalled loop).calls ≡ loop.calls
    unfolding finish_pass
    finish_calls none stalled loop = refl
    finish_calls (some m) stalled loop = refl

    finish_host_calls :
        (m : Option ProjectHost) (stalled : List AgentRun) (loop : Loop) (call : HostCall)
        (calls : List HostCall)
        → (finish_pass h now settings m command host stalled loop).host_calls ≡ call ∷ calls
        → is_active h now command loop ≡ false
    unfolding finish_pass release_host
    finish_host_calls none stalled loop call calls k = absurd (ground arith)
    finish_host_calls (some m) stalled loop call calls k = ground arith

    inactive :
        (loop : Loop)
        → is_active h now command loop ≡ false
        → (command.inflight ≡ [])
          × (command.priority ≡ [])
          × (loop.is_busy ≡ false)
          × (loop.errors ≡ [])
    inactive loop k = (
      empty_list command.inflight (ground arith),
      empty_list command.priority (ground arith),
      ground arith,
      empty_list loop.errors (ground arith),
    )

    -- A pass ends before its loop, or does what finish_pass makes of its loop.
    handle-Ends :
        ((handle h now settings project command host).calls ≡ [])
          × ((handle h now settings project command host).host_calls ≡ [])
        ⊎ ((stalled : List AgentRun) × (handle h now settings project command host
              ≡ finish_pass h now settings project.machine command host stalled loop_seen))
    unfolding handle pass_over
    handle-Ends = elim (Result-cases project.runs) [
      | inr (e, p) ↦ inl (ground arith, ground arith)
      | inl (runs, p) ↦ elim (Result-cases project.sandboxes) [
        | inr (e, q) ↦ inl (ground arith, ground arith)
        | inl (listed, q) ↦ elim (Bool-cases command.recover) [
          | inr r ↦ inr ([], ground arith)
          | inl r ↦ elim (Option-cases (stall_live_runs h.save_agent_run now runs).1) [
            | inl n ↦ inr ((stall_live_runs h.save_agent_run now runs).0, ground arith)
            | inr (e, n) ↦ inl (ground arith, ground arith)
          ]
        ]
      ]
    ]

    -- Each call of a pass on a sandbox is for a sandbox that is listed, selected by the priority
    -- (if there is one) and not of a subject in flight. A sandbox is stopped, and its runs are
    -- stalled, only if the provider saw it running and it has no live run, is past the running
    -- time, or its subject is finished. It is deleted, and its credentials are discarded, only if
    -- its subject is finished, the provider saw it broken, or the provider saw it stopped and its
    -- record, as it was before the pass, is older than the idle window. Nothing more is said of
    -- the saving of a record.
    pub calls_justified :
        all
          (is_justified
            (limits_of h now settings)
            command.inflight
            command.terminal
            (live_runs_by_sandbox (runs_seen project command))
            (sandboxes_seen project command))
          (handle h now settings project command host).calls
        ≡ true
    calls_justified =
        let J =
          is_justified (limits_of h now settings) command.inflight command.terminal
            (live_runs_by_sandbox (runs_seen project command)) (sandboxes_seen project command) in
        elim handle-Ends [
          | inl (none_made, unasked) ↦ ap (all J) none_made
          | inr (stalled, e) ↦
              (ap (λ p. all J p.calls) e
                ∙ ap (all J) (finish_calls project.machine stalled loop_seen))
              ∙ visits_justified (limits_of h now settings) command.inflight command.terminal
                  (live_runs_by_sandbox (runs_seen project command))
                  (sandboxes_seen project command)
        ]

    -- If a pass makes a call on the machine of the project, then nothing is in flight, there is no
    -- priority, and each sandbox that it looked at answered the inspection and either does not run
    -- or was one that may be stopped, whose stop gave no error.
    pub machine_rests :
        (call : HostCall) (calls : List HostCall)
        → (handle h now settings project command host).host_calls ≡ call ∷ calls
        → (command.inflight ≡ [])
          × (command.priority ≡ [])
          × (all
                (is_at_rest
                  (limits_of h now settings)
                  command.inflight
                  command.terminal
                  (live_runs_by_sandbox (runs_seen project command)))
                (sandboxes_seen project command)
              ≡ true)
    machine_rests call calls k = elim handle-Ends [
      | inl (none_made, unasked) ↦ absurd (ground arith)
      | inr (stalled, e) ↦
          let quiet =
            finish_host_calls project.machine stalled loop_seen call calls
              (sym (ap (λ p. p.host_calls) e) ∙ k) in
          let (free, unwanted, idle, unfailed) = inactive loop_seen quiet in
          (
            free,
            unwanted,
            visits_rest (limits_of h now settings) command.inflight command.terminal
                (live_runs_by_sandbox (runs_seen project command)) (sandboxes_seen project command)
                free unfailed idle,
          )
    ]

-- ===== src/Handler/Recorded.antt =====
-- What a round on an issue has done when its handler gives no error.
use mathlib.Core.Path.{subst}
use donsy.Prelude.{
  false, ◌&&◌, Bool-cases, ℕ, ◌≡◌, sym, ap, ◌∙◌, inl, inr, Bool, true, Option, none, some, arith,
  Option-cases,
}
use donsy.Text.{is_empty, Text}
use donsy.Errors.{Error, ok, Result-cases}
use donsy.Epic.PullRequest.{PullRequest}
use donsy.Epic.Aggregate.{Epic, find_issue}
use donsy.Epic.Work.{open_pull_request_for}
use donsy.Agent.{AgentRun, AgentRole, Sandbox}
use donsy.Workflow.{issue_role, stall_live_runs}
use donsy.Handler.Answers.{Answer-cases, IsAnswer, invoke-IsAnswer}
use donsy.Agent
use donsy.Agent.{role_eq}
use donsy.Agent.Settings.{role_eq_iff, AgentSettings, profile, override}
use donsy.Round.{Host, Rounds, RoundFailure, Answer, answered, broke_off, invoke, succeed}
use donsy.Round
use donsy.Completion
use donsy.Completion.{Checkout, Draw}
use donsy.Completion.Success.{RoleRecorded, complete-RoleRecorded}
use donsy.Handler.{Handled}
use donsy.Handler.Issue.{
  IssueRound, Prepared, prepare_role, prepare_issue, complete_round, invoke_round, run_reserved,
  handle_issue, minted, stage, saved_first,
}

-- The profile is that of the role in the settings of the project and the repository, and the runs are
-- those of the registry.
abbrev pub IsSetUp : IssueRound → AgentRole → PullRequest → Prepared → Type 0
IsSetUp a role p q =
    (settings own : AgentSettings) × (a.settings ≡ ok settings)
    × (a.repository_settings p ≡ ok own)
    × (profile role (override settings own) ≡ ok q.profile)
    × (a.runs ≡ ok q.runs)

-- What was found is of the epic that was read.
abbrev pub IsFound : IssueRound → Text → Prepared → Type 0
IsFound a id q =
    (a.read ≡ ok q.current)
    × (open_pull_request_for id q.current ≡ some q.pull_request)
    × (issue_role q.current q.pull_request ≡ some q.role)
    × IsSetUp a q.role q.pull_request q

module _ (a : IssueRound) where
  prepare_role_ok :
      (current : Epic) (p : PullRequest) (role : AgentRole) (issue : Text) (q : Prepared)
      → prepare_role a current p role issue ≡ ok (some q)
      → (q.current ≡ current) × (q.pull_request ≡ p) × (q.role ≡ role)
  unfolding prepare_role
  prepare_role_ok current p role issue q h = (ground arith, ground arith, ground arith)

  prepare_role-IsSetUp :
      (current : Epic) (p : PullRequest) (role : AgentRole) (issue : Text) (q : Prepared)
      → prepare_role a current p role issue ≡ ok (some q)
      → IsSetUp a role p q
  unfolding prepare_role
  prepare_role-IsSetUp current p role issue q h = elim (Result-cases a.settings) [
    | inr (x, s) ↦ absurd (ground arith)
    | inl (settings, s) ↦ elim (Result-cases (a.repository_settings p)) [
      | inr (x, o) ↦ absurd (ground arith)
      | inl (own, o) ↦ (settings, own, s, o, ground arith, ground arith)
    ]
  ]

  pub prepare_issue-IsFound :
      (id : Text) (q : Prepared) → prepare_issue a id ≡ ok (some q) → IsFound a id q
  unfolding prepare_issue
  prepare_issue-IsFound id q h = elim (Result-cases a.read) [
    | inr (x, r) ↦ absurd (ground arith)
    | inl (current, r) ↦ elim (Option-cases (open_pull_request_for id current)) [
      | inl n ↦ absurd (ground arith)
      | inr (p, o) ↦ elim (Option-cases (issue_role current p)) [
        | inl n ↦ absurd (ground arith)
        | inr (role, i) ↦ elim (Result-cases (find_issue id current)) [
          | inr (x, f) ↦ absurd (ground arith)
          | inl (issue, f) ↦
              let (same, found, chosen) =
                prepare_role_ok current p role issue.id q (ground arith) in
              (
                r ∙ ap ok (sym same),
                ap (open_pull_request_for id) same ∙ o ∙ ap some (sym found),
                ap (issue_role q.current) found
                    ∙ ap (λ u. issue_role u p) same
                    ∙ i
                    ∙ ap some (sym chosen),
                subst (λ x. IsSetUp a x q.pull_request q) (sym chosen)
                    (subst (λ x. IsSetUp a role x q) (sym found)
                      (prepare_role-IsSetUp current p role issue.id q (ground arith))),
              )
        ]
      ]
    ]
  ]

  pub stage_ok :
      (q : Prepared) (base : Text)
      → stage a q ≡ ok base
      → (path : Text) × (a.checkout q.pull_request ≡ ok path)
        × (a.resolve q.pull_request.base ≡ ok base)
  unfolding stage
  stage_ok q base h = elim (Result-cases (a.checkout q.pull_request)) [
    | inr (x, k) ↦ absurd (ground arith)
    | inl (path, k) ↦ (path, k, ground arith)
  ]

  module _ (h : Host) (lower : ℕ → ℕ) (write : Epic → Option Error) (c : Checkout) (draw : Draw)
      (judge : Text → Bool) (describe : RoundFailure → Text) (text_of : Error → Text) where
    -- A reviewer of pull requests has answered something, and what the round of its role records, for
    -- a base and an answer, is stored.
    abbrev pub AnswerRecorded : Prepared → Text → Text → Epic → Epic → Type 0
    AnswerRecorded q base answer e u =
        (q.role ≡ Agent.pr_reviewer → is_empty answer ≡ false)
        × RoleRecorded lower write c draw q.role (judge answer) base answer q.pull_request e u

    -- What a round of a role has recorded, where `rounds` is what it starts from: the base is the
    -- commit that the base branch resolved to, and the answer is that of the run which it began.
    abbrev pub HasRecorded : Prepared → Rounds → Epic → Epic → Type 0
    HasRecorded q rounds e u =
        (path base answer : Text) × (began : AgentRun × Sandbox) × (a.checkout q.pull_request
          ≡ ok path)
        × (a.resolve q.pull_request.base ≡ ok base)
        × ((Round.begin h a.sandbox (minted a q) rounds).1 ≡ answered began)
        × IsAnswer h began.0 answer
        × AnswerRecorded q base answer e u

    complete_round_ok :
        (q : Prepared) (base : Text) (run : AgentRun) (answer : Text) (s : Rounds) (e : Epic)
        → (complete_round a h lower write c draw judge describe text_of q base run answer s
            e).failed
          ≡ none
        → ((Completion.complete lower write c draw judge q.role base answer q.pull_request
              e).stored.1
            ≡ none)
          × ((role_eq q.role Agent.pr_reviewer && is_empty answer) ≡ false)
          × ((complete_round a h lower write c draw judge describe text_of q base run answer s
                e).stored
              ≡ (Completion.complete lower write c draw judge q.role base answer q.pull_request
                  e).stored.0)
    unfolding complete_round
    complete_round_ok q base run answer s e k =
        let done =
          Completion.complete lower write c draw judge q.role base answer q.pull_request e in
        elim (Bool-cases (role_eq q.role Agent.pr_reviewer && is_empty answer)) [
          | inl b ↦ absurd (ground arith)
          | inr b ↦ elim (Option-cases done.stored.1) [
            | inr (x, d) ↦ absurd (ground arith)
            | inl d ↦ (d, b, ground arith)
          ]
        ]

    complete_round-AnswerRecorded :
        (q : Prepared) (base : Text) (run : AgentRun) (answer : Text) (s : Rounds) (e : Epic)
        → (complete_round a h lower write c draw judge describe text_of q base run answer s
            e).failed
          ≡ none
        → AnswerRecorded q base answer e
            (complete_round a h lower write c draw judge describe text_of q base run answer s
              e).stored
    complete_round-AnswerRecorded q base run answer s e k =
        let (done, marked, kept) = complete_round_ok q base run answer s e k in
        (
          (λ r. ground (arith, (role_eq_iff q.role Agent.pr_reviewer).1 r)),
          subst
              (λ (u : Epic).
                RoleRecorded lower write c draw q.role (judge answer) base answer q.pull_request e
                  u)
              (sym kept)
              (complete-RoleRecorded lower write c draw judge q.role base answer q.pull_request e
                done),
        )

    invoke_round-AnswerRecorded :
        (q : Prepared) (base : Text) (began : AgentRun × Sandbox) (s : Rounds) (e : Epic)
        → (invoke_round a h lower write c draw judge describe text_of q base began s e).failed
          ≡ none
        → (answer : Text) × IsAnswer h began.0 answer
          × AnswerRecorded q base answer e
              (invoke_round a h lower write c draw judge describe text_of q base began s e).stored
    unfolding invoke_round
    invoke_round-AnswerRecorded q base (run, sandbox) s e k =
        let asked = invoke h sandbox run s in
        elim (Option-cases (a.prompt q.role run.session_mode)) [
          | inr (x, n) ↦ absurd (ground arith)
          | inl n ↦ elim (Answer-cases asked.1) [
            | inr (cause, b) ↦ absurd (ground arith)
            | inl (answer, b) ↦
                let same : invoke_round a h lower write c draw judge describe text_of q base
                      (run, sandbox) s e
                    ≡ complete_round a h lower write c draw judge describe text_of q base run answer
                        asked.0 e =
                  ground arith in
                (
                  answer,
                  invoke-IsAnswer h sandbox run s answer b,
                  subst (λ (r : Handled). AnswerRecorded q base answer e r.stored) (sym same)
                      (complete_round-AnswerRecorded q base run answer asked.0 e
                        (sym (ap (λ (r : Handled). r.failed) same) ∙ k)),
                )
          ]
        ]

    run_reserved-HasRecorded :
        (q : Prepared) (s : Rounds) (e : Epic)
        → (run_reserved a h lower write c draw judge describe text_of q s e).failed ≡ none
        → HasRecorded q s e
            (run_reserved a h lower write c draw judge describe text_of q s e).stored
    unfolding run_reserved
    run_reserved-HasRecorded q s e k =
        let started = Round.begin h a.sandbox (minted a q) s in
        elim (Result-cases (stage a q)) [
          | inr (x, n) ↦ absurd (ground arith)
          | inl (base, n) ↦ elim (Answer-cases started.1) [
            | inr (cause, b) ↦ absurd (ground arith)
            | inl (began, b) ↦
                let inside =
                  invoke_round a h lower write c draw judge describe text_of q base began started.0
                    e in
                let stored : (run_reserved a h lower write c draw judge describe text_of q s
                      e).stored
                    ≡ inside.stored =
                  ground arith in
                let failed : (run_reserved a h lower write c draw judge describe text_of q s
                      e).failed
                    ≡ inside.failed =
                  ground arith in
                let (path, found, resolved) = stage_ok q base n in
                let (answer, given, recorded) =
                  invoke_round-AnswerRecorded q base began started.0 e (sym failed ∙ k) in
                (
                  path,
                  base,
                  answer,
                  began,
                  found,
                  resolved,
                  b,
                  given,
                  subst (λ (u : Epic). AnswerRecorded q base answer e u) (sym stored) recorded,
                )
          ]
        ]

    -- If the handler had a reservation and gives no error, then the pull request that it read was open
    -- and had a role, with a profile in the settings; the handler checked out its branch, resolved its
    -- base branch to a commit, and began a run, whose command the host ran without an error; and for
    -- this commit and the answer in the output of the command the stored epic has what the round of
    -- this role records: the counters and the verdict, the report, and the state of the issue. If the
    -- role reviews pull requests, then the answer is not empty.
    pub handled-RoleRecorded :
        (id : Text) (s : Rounds) (e : Epic)
        → (handle_issue a h lower write c draw judge describe text_of id s e).reserved ≡ true
        → (handle_issue a h lower write c draw judge describe text_of id s e).failed ≡ none
        → (q : Prepared) × IsFound a id q
          × HasRecorded q
              (saved_first a (stall_live_runs a.save_stalled a.now q.runs).0 s)
              e
              (handle_issue a h lower write c draw judge describe text_of id s e).stored
    unfolding handle_issue
    handled-RoleRecorded id s e r k = elim (Result-cases (prepare_issue a id)) [
      | inr (x, p) ↦ absurd (ground arith)
      | inl (found, p) ↦ elim (Option-cases found) [
        | inl n ↦ absurd (ground arith)
        | inr (q, n) ↦
            let stalled = stall_live_runs a.save_stalled a.now q.runs in
            let reaped = saved_first a stalled.0 s in
            elim (Option-cases stalled.1) [
              | inr (x, u) ↦ absurd (ground arith)
              | inl u ↦ elim (Result-cases a.reserve) [
                | inr (x, v) ↦ absurd (ground arith)
                | inl (b, v) ↦
                    let inside =
                      run_reserved a h lower write c draw judge describe text_of q reaped e in
                    let same : handle_issue a h lower write c draw judge describe text_of id s e
                        ≡ inside =
                      ground arith in
                    (
                      q,
                      prepare_issue-IsFound id q (p ∙ ap ok n),
                      subst (λ (w : Handled). HasRecorded q reaped e w.stored) (sym same)
                          (run_reserved-HasRecorded q reaped e
                            (sym (ap (λ (w : Handled). w.failed) same) ∙ k)),
                    )
              ]
            ]
      ]
    ]

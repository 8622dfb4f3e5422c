-- ===== src/Handler/Failed.antt =====
-- A round on an issue whose handler gives an error, from the answer of the agent back to its start.
use mathlib.Core.Path.{subst}
use donsy.Prelude.{
  ℕ, ◌≡◌, ◌⊎◌, sym, ap, ◌∙◌, inl, inr, Bool, true, false, ◌&&◌, Option, none, some, arith,
  Option-cases, Bool-cases,
}
use donsy.Text.{Text, is_empty}
use donsy.Errors.{Error, ok, Result-cases}
use donsy.Epic.Aggregate.{Epic}
use donsy.Agent
use donsy.Agent.{AgentRun, AgentRole, Sandbox, role_eq}
use donsy.Agent.Settings.{role_eq_iff}
use donsy.Workflow.{stall_live_runs}
use donsy.Round
use donsy.Round.{
  Host, Rounds, RoundFailure, Cause, Answer, answered, broke_off, invoke, succeed, fail, plain,
}
use donsy.Completion
use donsy.Completion.{Checkout, Draw}
use donsy.Completion.Publishing.{completion_atomic}
use donsy.Completion.Success.{RoleRecorded, complete-RoleRecorded}
use donsy.Handler.{Handled, HandlerFailure, in_round, report_on_thread, report_failure}
use donsy.Handler.Answers.{Answer-cases, IsAnswer, invoke-IsAnswer}
use donsy.Handler.Issue.{
  IssueRound, Prepared, prepare_issue, complete_round, invoke_round, run_reserved, handle_issue,
  minted, stage, saved_first, reported, unmarked,
}
use donsy.Handler.Recorded.{IsFound, AnswerRecorded, HasRecorded, prepare_issue-IsFound, stage_ok}
use donsy.Handler.Failures.{ReportedAs, report_failure_ok}

module _ (a : IssueRound) (h : Host) (lower : ℕ → ℕ) (write : Epic → Option Error) (c : Checkout)
    (draw : Draw) (judge : Text → Bool) (describe : RoundFailure → Text)
    (text_of : Error → Text) where
  -- The failure is that the end of a run could not be recorded.
  abbrev pub IsUnrecorded : HandlerFailure → Type 0
  IsUnrecorded f =
      (run : AgentRun) × (s : Rounds) × (cause : Cause) × ((succeed h run s).1 ≡ some cause)
      × (f ≡ in_round (plain cause) none)

  -- The stored epic is as it was, or reports the failure, or else R holds of it.
  abbrev pub FailedBy : (Epic → Type 0) → Prepared → HandlerFailure → Epic → Epic → Type 0
  FailedBy R q f e u =
      (u ≡ e)
      ⊎ (ReportedAs write describe draw f q.role q.pull_request e u ⊎ (IsUnrecorded f × R u))

  FailedBy-map :
      (R S : Epic → Type 0) (q : Prepared) (f : HandlerFailure) (e u : Epic)
      → (R u → S u)
      → FailedBy R q f e u
      → FailedBy S q f e u
  FailedBy-map R S q f e u m (inl k) = inl k
  FailedBy-map R S q f e u m (inr (inl k)) = inr (inl k)
  FailedBy-map R S q f e u m (inr (inr (k, r))) = inr (inr (k, m r))

  reported_ok :
      (R : Epic → Type 0) (q : Prepared) (failing : Rounds × RoundFailure) (f : HandlerFailure)
      (e : Epic)
      → (reported a h lower write c draw judge describe text_of q failing e).failed ≡ some f
      → FailedBy R q f e (reported a h lower write c draw judge describe text_of q failing e).stored
  reported_ok R q (s, cause) f e k =
      let said =
        report_failure write describe draw
          (report_on_thread write describe draw q.role q.pull_request) cause e in
      let same : said.1 ≡ f = ground arith in
      elim (report_failure_ok write describe draw q.role q.pull_request cause e) [
        | inl u ↦ inl u
        | inr r ↦ inr (
            inl (
              subst
                (λ (g : HandlerFailure).
                  ReportedAs write describe draw g q.role q.pull_request e said.0)
                same r))
      ]

  complete_round_failed :
      (q : Prepared) (base : Text) (run : AgentRun) (answer : Text) (s : Rounds)
      (f : HandlerFailure) (e : Epic)
      → (complete_round a h lower write c draw judge describe text_of q base run answer s e).failed
        ≡ some f
      → FailedBy
          (AnswerRecorded a h lower write c draw judge describe text_of q base answer e)
          q
          f
          e
          (complete_round a h lower write c draw judge describe text_of q base run answer s
            e).stored
  complete_round_failed q base run answer s f e k =
      let R = AnswerRecorded a h lower write c draw judge describe text_of q base answer e in
      let done = Completion.complete lower write c draw judge q.role base answer q.pull_request e in
      let whole =
        complete_round a h lower write c draw judge describe text_of q base run answer s e in
      elim (Bool-cases (role_eq q.role Agent.pr_reviewer && is_empty answer)) [
        | inl b ↦
            let failing = fail h run (unmarked a h lower write c draw judge describe text_of) s in
            let same : whole ≡ reported a h lower write c draw judge describe text_of q failing e =
              unfold complete_round in ground arith in
            subst (λ (w : Handled). FailedBy R q f e w.stored) (sym same)
              (reported_ok R q failing f e (sym (ap (λ (w : Handled). w.failed) same) ∙ k))
        | inr b ↦ elim (Option-cases done.stored.1) [
          | inr (x, d) ↦
              let failing = fail h run (text_of x) s in
              let kept : done.stored.0 ≡ e =
                completion_atomic lower write c draw judge q.role base answer q.pull_request e
                  (λ n. cc (d, n)) in
              let same : whole
                  ≡ reported a h lower write c draw judge describe text_of q failing done.stored.0 =
                unfold complete_round in ground arith in
              let now =
                same
                ∙ ap
                    (λ (z : Epic).
                      reported a h lower write c draw judge describe text_of q failing z)
                    kept in
              subst (λ (w : Handled). FailedBy R q f e w.stored) (sym now)
                (reported_ok R q failing f e (sym (ap (λ (w : Handled). w.failed) now) ∙ k))
          | inl d ↦ elim (Option-cases (succeed h run s).1) [
            | inl n ↦ absurd (unfold complete_round in ground arith)
            | inr (cause, n) ↦
                let stored : whole.stored ≡ done.stored.0 = unfold complete_round in ground arith in
                inr (
                  inr (
                    (run, s, cause, n, unfold complete_round in ground arith),
                    (
                      (λ r. ground (arith, (role_eq_iff q.role Agent.pr_reviewer).1 r)),
                      subst
                          (λ (u : Epic).
                            RoleRecorded lower write c draw q.role (judge answer) base answer
                              q.pull_request e u)
                          (sym stored)
                          (complete-RoleRecorded lower write c draw judge q.role base answer
                            q.pull_request e d),
                    ),
                  ))
          ]
        ]
      ]

  invoke_round_failed :
      (q : Prepared) (base : Text) (began : AgentRun × Sandbox) (s : Rounds) (f : HandlerFailure)
      (e : Epic)
      → (invoke_round a h lower write c draw judge describe text_of q base began s e).failed
        ≡ some f
      → FailedBy
          (λ u.
            (answer : Text) × IsAnswer h began.0 answer
            × AnswerRecorded a h lower write c draw judge describe text_of q base answer e u)
          q
          f
          e
          (invoke_round a h lower write c draw judge describe text_of q base began s e).stored
  unfolding invoke_round
  invoke_round_failed q base (run, sandbox) s f e k =
      let R : Epic → Type 0 = λ u.
        (answer : Text) × IsAnswer h run answer
        × AnswerRecorded a h lower write c draw judge describe text_of q base answer e u in
      let asked = invoke h sandbox run s in
      let whole =
        invoke_round a h lower write c draw judge describe text_of q base (run, sandbox) s e in
      elim (Option-cases (a.prompt q.role run.session_mode)) [
        | inr (x, n) ↦ inl (ground arith)
        | inl n ↦ elim (Answer-cases asked.1) [
          | inr (cause, b) ↦
              let same : whole
                  ≡ reported a h lower write c draw judge describe text_of q (asked.0, cause) e =
                ground arith in
              subst (λ (w : Handled). FailedBy R q f e w.stored) (sym same)
                (reported_ok R q (asked.0, cause) f e
                  (sym (ap (λ (w : Handled). w.failed) same) ∙ k))
          | inl (answer, b) ↦
              let same : whole
                  ≡ complete_round a h lower write c draw judge describe text_of q base run answer
                      asked.0 e =
                ground arith in
              subst (λ (w : Handled). FailedBy R q f e w.stored) (sym same)
                (FailedBy-map
                  (AnswerRecorded a h lower write c draw judge describe text_of q base answer e) R q
                  f e
                  (complete_round a h lower write c draw judge describe text_of q base run answer
                    asked.0 e).stored
                  (λ r. (answer, invoke-IsAnswer h sandbox run s answer b, r))
                  (complete_round_failed q base run answer asked.0 f e
                    (sym (ap (λ (w : Handled). w.failed) same) ∙ k)))
        ]
      ]

  run_reserved_failed :
      (q : Prepared) (s : Rounds) (f : HandlerFailure) (e : Epic)
      → (run_reserved a h lower write c draw judge describe text_of q s e).failed ≡ some f
      → FailedBy
          (HasRecorded a h lower write c draw judge describe text_of q s e)
          q
          f
          e
          (run_reserved a h lower write c draw judge describe text_of q s e).stored
  unfolding run_reserved
  run_reserved_failed q s f e k =
      let started = Round.begin h a.sandbox (minted a q) s in
      elim (Result-cases (stage a q)) [
        | inr (x, n) ↦ inl (ground arith)
        | inl (base, n) ↦ elim (Answer-cases started.1) [
          | inr (cause, b) ↦ inl (ground arith)
          | inl (began, b) ↦
              let inside =
                invoke_round a h lower write c draw judge describe text_of q base began started.0
                  e in
              let stored : (run_reserved a h lower write c draw judge describe text_of q s e).stored
                  ≡ inside.stored =
                ground arith in
              let failed : (run_reserved a h lower write c draw judge describe text_of q s e).failed
                  ≡ inside.failed =
                ground arith in
              let (path, found, resolved) = stage_ok a q base n in
              subst
                (λ (u : Epic).
                  FailedBy (HasRecorded a h lower write c draw judge describe text_of q s e) q f e
                    u)
                (sym stored)
                (FailedBy-map
                  (λ u.
                    (answer : Text) × IsAnswer h began.0 answer
                    × AnswerRecorded a h lower write c draw judge describe text_of q base answer e
                        u)
                  (HasRecorded a h lower write c draw judge describe text_of q s e) q f e
                  inside.stored (λ r. (path, base, r.0, began, found, resolved, b, r.1, r.2))
                  (invoke_round_failed q base began started.0 f e (sym failed ∙ k)))
        ]
      ]

  -- If the handler of an issue gives an error, then the stored epic is as it was; or the first pull
  -- request under the identifier of the one that the handler read has one comment more, the last, which
  -- tells the cause of the failure, the cause is not a cancellation, and nothing else has changed; or
  -- the stored epic has what the round of the role records, and the error is that the end of a run
  -- could not be recorded.
  pub handler_failures :
      (id : Text) (s : Rounds) (f : HandlerFailure) (e : Epic)
      → (handle_issue a h lower write c draw judge describe text_of id s e).failed ≡ some f
      → ((handle_issue a h lower write c draw judge describe text_of id s e).stored ≡ e)
        ⊎ ((q : Prepared) × IsFound a id q
            × FailedBy
                (HasRecorded a h lower write c draw judge describe text_of q
                  (saved_first a (stall_live_runs a.save_stalled a.now q.runs).0 s)
                  e)
                q
                f
                e
                (handle_issue a h lower write c draw judge describe text_of id s e).stored)
  unfolding handle_issue
  handler_failures id s f e k = elim (Result-cases (prepare_issue a id)) [
    | inr (x, p) ↦ inl (ground arith)
    | inl (found, p) ↦ elim (Option-cases found) [
      | inl n ↦ inl (ground arith)
      | inr (q, n) ↦
          let stalled = stall_live_runs a.save_stalled a.now q.runs in
          let reaped = saved_first a stalled.0 s in
          elim (Option-cases stalled.1) [
            | inr (x, u) ↦ inl (ground arith)
            | inl u ↦ elim (Result-cases a.reserve) [
              | inr (x, v) ↦ inl (ground arith)
              | inl (true, v) ↦
                  let inside =
                    run_reserved a h lower write c draw judge describe text_of q reaped e in
                  let same : handle_issue a h lower write c draw judge describe text_of id s e
                      ≡ inside =
                    ground arith in
                  inr (
                    q,
                    prepare_issue-IsFound a id q (p ∙ ap ok n),
                    subst
                        (λ (w : Handled).
                          FailedBy
                            (HasRecorded a h lower write c draw judge describe text_of q reaped e) q
                            f e w.stored)
                        (sym same)
                        (run_reserved_failed q reaped f e
                          (sym (ap (λ (w : Handled). w.failed) same) ∙ k)),
                  )
              | inl (false, v) ↦ inl (ground arith)
            ]
          ]
    ]
  ]

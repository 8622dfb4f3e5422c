-- ===== src/Handler/Failures.antt =====
-- What a round on an issue leaves of the stored epic when its handler gives an error.
use mathlib.Core.Path.{subst}
use donsy.Prelude.{
  ◌≡◌, ◌⊎◌, sym, ap, ◌∙◌, inl, inr, true, false, not, Option, none, List, [], ◌∷◌, ◌++◌, all, arith,
  Option-cases, Bool-cases,
}
use donsy.Text.{Text, trim_space, text_eq}
use donsy.Errors.{Error, Outcome, ok, Result-cases, pull_request_not_found}
use donsy.Epic.Issue.{Comment, create_comment, set_comment_body}
use donsy.Epic.PullRequest.{PullRequest}
use donsy.Epic.Rounds
use donsy.Epic.Aggregate.{Epic, pull_request_has_id}
use donsy.Epic.Aggregate.Updates.{with_first_split}
use donsy.Epic.Work.{add_pull_request_comment}
use donsy.Agent.{AgentRole}
use donsy.Round.{RoundFailure}
use donsy.Identity.{role_text}
use donsy.Completion.{Draw, update_epic}
use donsy.Completion.Drafting.{update_epic_ok}
use donsy.Completion.Publishing.{update_epic-failed}
use donsy.Handler.{
  HandlerFailure, in_round, is_cancellation, failure_text, report_on_thread, report_failure,
}

-- The comment of a failure.
abbrev pub thread_comment : Draw → AgentRole → Text → Comment
thread_comment draw role said = record {
  id = draw.id;
  author = trim_space (role_text role);
  created_at = draw.now;
  body = failure_text role said;
}

-- The first pull request under the identifier has the comment as its last; nothing else is changed.
abbrev pub IsReported : Draw → AgentRole → PullRequest → Text → Epic → Epic → Type 0
IsReported draw role p said e u =
    (before after : List PullRequest) × (q : PullRequest) × (e.pull_requests ≡ before ++ q ∷ after)
    × (all (λ (x : PullRequest). not (text_eq x.id p.id)) before ≡ true)
    × (text_eq q.id p.id ≡ true)
    × (u ≡ record e {
      pull_requests =
          before
          ++ record q { comments = q.comments ++ thread_comment draw role said ∷ [] } ∷ after;
    })

thread_comment_ok :
    (draw : Draw) (role : AgentRole) (said : Text) (c : Comment)
    → create_comment draw.id draw.now (role_text role) (failure_text role said) ≡ ok c
    → c ≡ thread_comment draw role said
unfolding create_comment set_comment_body
thread_comment_ok draw role said c h = ground arith

commented-IsReported :
    (draw : Draw) (role : AgentRole) (p : PullRequest) (said : Text) (e : Epic)
    → (add_pull_request_comment p.id (thread_comment draw role said) e).1 ≡ none
    → IsReported draw role p said e
        (add_pull_request_comment p.id (thread_comment draw role said) e).0
unfolding add_pull_request_comment Rounds.add_comment
commented-IsReported draw role p said e h =
    let c = thread_comment draw role said in
    let (before, after, q, same, others, found, added, stored) =
      with_first_split (pull_request_has_id p.id) pull_request_not_found (Rounds.add_comment c)
        e.pull_requests h in
    (
      before,
      after,
      q,
      same,
      others,
      found,
      ap (λ l. record e { pull_requests = l }) stored
          ∙ ap (λ (x : PullRequest). record e { pull_requests = before ++ x ∷ after })
              (ground arith),
    )

module _ (write : Epic → Option Error) (describe : RoundFailure → Text) (draw : Draw) where
  report_on_thread-IsReported :
      (role : AgentRole) (p : PullRequest) (cause : RoundFailure) (e : Epic)
      → (report_on_thread write describe draw role p cause e).1 ≡ none
      → IsReported draw role p
          (describe cause)
          e
          (report_on_thread write describe draw role p cause e).0
  unfolding report_on_thread
  report_on_thread-IsReported role p cause e h =
      elim (Result-cases
        (create_comment draw.id draw.now (role_text role) (failure_text role (describe cause)))) [
          | inr (x, k) ↦ absurd (ground arith)
          | inl (c, k) ↦
              let made = thread_comment_ok draw role (describe cause) c k in
              let same : report_on_thread write describe draw role p cause e
                  ≡ add_pull_request_comment p.id (thread_comment draw role (describe cause)) e =
                ground arith in
              subst (λ (o : Outcome Epic). IsReported draw role p (describe cause) e o.0) (sym same)
                (commented-IsReported draw role p (describe cause) e
                  (ap (λ (o : Outcome Epic). o.1) (sym same) ∙ h))
        ]

  -- The failure is reported, and was not a cancellation.
  abbrev pub ReportedAs : HandlerFailure → AgentRole → PullRequest → Epic → Epic → Type 0
  ReportedAs f role p e u =
      (cause : RoundFailure) × (f ≡ in_round cause none)
      × (is_cancellation cause.cause ≡ false)
      × IsReported draw role p (describe cause) e u

  pub report_failure_ok :
      (role : AgentRole) (p : PullRequest) (cause : RoundFailure) (e : Epic)
      → ((report_failure write describe draw
            (report_on_thread write describe draw role p)
            cause
            e).0
          ≡ e)
        ⊎ ReportedAs
            (report_failure write describe draw
              (report_on_thread write describe draw role p)
              cause
              e).1
            role
            p
            e
            (report_failure write describe draw
              (report_on_thread write describe draw role p)
              cause
              e).0
  unfolding report_failure
  report_failure_ok role p cause e =
      let change = report_on_thread write describe draw role p cause in
      elim (Bool-cases (is_cancellation cause.cause)) [
        | inl b ↦ inl (ground arith)
        | inr b ↦ elim (Option-cases (update_epic write change e).1) [
          | inr (x, f) ↦ inl (ground (arith, update_epic-failed write change e (λ n. cc (f, n))))
          | inl f ↦
              let (done, kept) = update_epic_ok write change e f in
              let stored : (report_failure write describe draw
                    (report_on_thread write describe draw role p) cause e).0
                  ≡ (change e).0 =
                ground arith in
              inr (
                cause,
                ground arith,
                b,
                subst (λ (u : Epic). IsReported draw role p (describe cause) e u) (sym stored)
                    (report_on_thread-IsReported role p cause e done),
              )
        ]
      ]

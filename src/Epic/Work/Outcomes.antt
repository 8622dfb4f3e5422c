-- ===== src/Epic/Work/Outcomes.antt =====
-- What recording a pull request's outcome does to the epic.
use donsy.Prelude.{◌≡◌, ◌≢◌, refl, sym, ap, ◌∙◌, inl, inr, none, some, List, arith, Option-cases}
use donsy.Text.{Text, text_eq}
use donsy.Errors.{
  Outcome, failure, ◌and_then◌, issue_not_found, pull_request_not_found, bad_outcome,
}
use donsy.Epic.Issue
use donsy.Epic.Issue.{Issue, IssueState}
use donsy.Epic.Issue.States.{issue_state_eq_iff}
use donsy.Epic.PullRequest
use donsy.Epic.PullRequest.{PullRequest, PullRequestStatus, PullRequestEvent}
use donsy.Epic.Aggregate.{
  Epic, find_first, with_first, issue_has_id, pull_request_has_id, transition_issue,
  on_pull_requests, mutate,
}
use donsy.Epic.Aggregate.Updates.{
  find_first-test, with_first-found, with_first-missing, and_then_ok, mutate_cases,
}
use donsy.Epic.Work.{outcome_event, apply_outcome, transition_pull_request}

-- The state that an outcome takes the issue to.
abbrev pub issue_after : PullRequestStatus → IssueState
issue_after PullRequest.merged = Issue.merged
issue_after _ = Issue.opened

move_ok :
    (next : IssueState) (i : Issue)
    → (Issue.transition_to next i).1 ≡ none
    → (Issue.transition_to next i).0 ≡ record i { state = next }
unfolding Issue.transition_to
move_ok next i h = ground (arith, issue_state_eq_iff i.state next)

move-id : (next : IssueState) (i : Issue) → (Issue.transition_to next i).0.id ≡ i.id
unfolding Issue.transition_to
move-id next i = ground arith

pub transition_issue_ok :
    (x : Text) (next : IssueState) (e : Epic)
    → (transition_issue x next e).1 ≡ none
    → (i : Issue) × (find_first (issue_has_id x) e.issues ≡ some i)
      × (find_first (issue_has_id x) (transition_issue x next e).0.issues
          ≡ some (record i { state = next }))
transition_issue_ok x next e h = elim (Option-cases (find_first (issue_has_id x) e.issues)) [
  | inl n ↦ absurd (
      unfold transition_issue in
      cc (
        h,
        ap (λ (o : Outcome (List Issue)). o.1)
            (with_first-missing (issue_has_id x) issue_not_found (Issue.transition_to next) e.issues
              n),
      ))
  | inr (i, f) ↦
      let own = find_first-test (issue_has_id x) e.issues i f in
      let w =
        with_first-found (issue_has_id x) issue_not_found (Issue.transition_to next) e.issues i f
          (ap (λ (t : Text). text_eq t x) (move-id next i) ∙ own) in
      (i, f, unfold transition_issue in w.1 ∙ ap some (move_ok next i (sym w.0 ∙ h)))
]

apply_ok :
    (status : PullRequestStatus) (event : PullRequestEvent) (next : IssueState) (p : PullRequest)
    → outcome_event status ≡ some (event, next)
    → (PullRequest.apply event p).1 ≡ none
    → (p.status ≡ PullRequest.opened)
      × ((PullRequest.apply event p).0 ≡ record p { status = status })
      × (next ≡ issue_after status)
unfolding outcome_event PullRequest.apply
apply_ok PullRequest.merged event next p o h = ground arith
apply_ok _ event next p o h = ground arith

apply-id : (event : PullRequestEvent) (p : PullRequest) → (PullRequest.apply event p).0.id ≡ p.id
unfolding PullRequest.apply
apply-id event p = ground arith

-- An outcome that is recorded was one of an open pull request: its record, the first under the
-- identifier, now has the status, and the issue that it names was there and is now merged, or, for
-- a pull request that was closed, open again.
abbrev pub Recorded : Text → PullRequestStatus → Epic → Epic → Type 0
Recorded id status e e' =
    (p : PullRequest) × (find_first (pull_request_has_id id) e.pull_requests ≡ some p)
    × (p.status ≡ PullRequest.opened)
    × (find_first (pull_request_has_id id) e'.pull_requests ≡ some (record p { status = status }))
    × ((i : Issue) × (find_first (issue_has_id p.issue_id) e.issues ≡ some i)
        × (find_first (issue_has_id p.issue_id) e'.issues
            ≡ some (record i { state = issue_after status })))

apply_outcome_found :
    (id : Text) (event : PullRequestEvent) (next : IssueState) (e : Epic) (p : PullRequest)
    → find_first (pull_request_has_id id) e.pull_requests ≡ some p
    → apply_outcome id event next e ≡ (
        on_pull_requests
          (with_first (pull_request_has_id id) pull_request_not_found (PullRequest.apply event))
          e
        and_then transition_issue p.issue_id next)
unfolding apply_outcome
apply_outcome_found id event next e p f = rw (f, apply_outcome) refl

apply_outcome_missing :
    (id : Text) (event : PullRequestEvent) (next : IssueState) (e : Epic)
    → find_first (pull_request_has_id id) e.pull_requests ≡ none
    → apply_outcome id event next e ≡ failure pull_request_not_found e
unfolding apply_outcome
apply_outcome_missing id event next e f = rw (f, apply_outcome) refl

pub transition_issue-pull_requests :
    (x : Text) (next : IssueState) (e : Epic)
    → (transition_issue x next e).0.pull_requests ≡ e.pull_requests
unfolding transition_issue
transition_issue-pull_requests x next e = refl

apply_outcome_ok :
    (id : Text) (status : PullRequestStatus) (event : PullRequestEvent) (next : IssueState)
    (e : Epic)
    → outcome_event status ≡ some (event, next)
    → (apply_outcome id event next e).1 ≡ none
    → Recorded id status e (apply_outcome id event next e).0
apply_outcome_ok id status event next e o h =
    elim (Option-cases (find_first (pull_request_has_id id) e.pull_requests)) [
      | inl n ↦ absurd (cc (h, apply_outcome_missing id event next e n))
      | inr (p, f) ↦
          let own = find_first-test (pull_request_has_id id) e.pull_requests p f in
          let w =
            with_first-found (pull_request_has_id id) pull_request_not_found
              (PullRequest.apply event) e.pull_requests p f
              (ap (λ (t : Text). text_eq t id) (apply-id event p) ∙ own) in
          let marked =
            on_pull_requests
              (with_first (pull_request_has_id id) pull_request_not_found (PullRequest.apply event))
              e in
          let whole = apply_outcome_found id event next e p f in
          let went =
            and_then_ok marked (transition_issue p.issue_id next)
              (ap (λ (x : Outcome Epic). x.1) (sym whole) ∙ h) in
          let a = apply_ok status event next p o (sym w.0 ∙ went.0) in
          let t =
            transition_issue_ok p.issue_id next marked.0
              (ap (λ (x : Outcome Epic). x.1) (sym (went.1) ∙ sym whole) ∙ h) in
          let end = whole ∙ went.1 in
          (
            p,
            f,
            a.0,
            ap (λ (x : Outcome Epic). find_first (pull_request_has_id id) x.0.pull_requests) end
                ∙ ap (find_first (pull_request_has_id id))
                    (transition_issue-pull_requests p.issue_id next marked.0)
                ∙ w.1
                ∙ ap some a.1,
            (
              t.0,
              t.1,
              ap (λ (x : Outcome Epic). find_first (issue_has_id p.issue_id) x.0.issues) end
                  ∙ t.2
                  ∙ ap (λ s. some (record t.0 { state = s })) a.2,
            ),
          )
    ]

transition_as_mutation :
    (id : Text) (status : PullRequestStatus) (e : Epic) (event : PullRequestEvent)
    (next : IssueState)
    → outcome_event status ≡ some (event, next)
    → transition_pull_request id status e ≡ mutate (apply_outcome id event next) e
unfolding transition_pull_request
transition_as_mutation id status e event next o = rw (o, transition_pull_request) refl

transition_refused :
    (id : Text) (status : PullRequestStatus) (e : Epic)
    → outcome_event status ≡ none
    → transition_pull_request id status e ≡ failure bad_outcome e
unfolding transition_pull_request
transition_refused id status e o = rw (o, transition_pull_request) refl

-- If `TransitionPullRequest` gives no error, the first pull request under the identifier was open
-- and now has the status, and the first issue under its issue's identifier is now merged or, for a
-- pull request that was closed, open; nothing else of the two records changes.
pub outcome-Recorded :
    (id : Text) (status : PullRequestStatus) (e : Epic)
    → (transition_pull_request id status e).1 ≡ none
    → Recorded id status e (transition_pull_request id status e).0
outcome-Recorded id status e h = elim (Option-cases (outcome_event status)) [
  | inl n ↦ absurd (cc (h, transition_refused id status e n))
  | inr ((event, next), o) ↦
      let as_mutation = transition_as_mutation id status e event next o in
      let m = mutate_cases (apply_outcome id event next) e in
      let done = sym m.0 ∙ ap (λ (x : Outcome Epic). x.1) (sym as_mutation) ∙ h in
      let r = apply_outcome_ok id status event next e o done in
      let l = ap (λ (x : Outcome Epic). x.0.issues) as_mutation ∙ m.1 done in
      let q = ap (λ (x : Outcome Epic). x.0.pull_requests) as_mutation ∙ m.2 done in
      (
        r.0,
        r.1,
        r.2,
        ap (find_first (pull_request_has_id id)) q ∙ r.3,
        (r.4.0, r.4.1, ap (find_first (issue_has_id r.0.issue_id)) l ∙ r.4.2),
      )
]

-- If `TransitionPullRequest` gives an error, the epic is as it was.
pub outcome_atomic :
    (id : Text) (status : PullRequestStatus) (e : Epic)
    → (transition_pull_request id status e).1 ≢ none
    → (transition_pull_request id status e).0 ≡ e
outcome_atomic id status e h = elim (Option-cases (outcome_event status)) [
  | inl n ↦ ap (λ (x : Outcome Epic). x.0) (transition_refused id status e n)
  | inr ((event, next), o) ↦
      let as_mutation = transition_as_mutation id status e event next o in
      let m = mutate_cases (apply_outcome id event next) e in
      ap (λ (x : Outcome Epic). x.0) as_mutation
      ∙ m.3 (λ k. h (ap (λ (x : Outcome Epic). x.1) as_mutation ∙ m.0 ∙ k))
]

-- ===== src/Landing/Updates.antt =====
-- What the updates of the landing use cases leave in the epic.
use donsy.Prelude.{
  List, ◌≡◌, refl, sym, ap, ◌∙◌, inl, inr, none, some, [], ◌∷◌, ◌++◌, arith, Option-cases,
}
use donsy.Text.{Text}
use donsy.Errors.{Result, ok, Outcome, ◌and_then◌, pull_request_not_found}
use donsy.Epic.Issue.{Issue, IssueState, Comment}
use donsy.Epic.PullRequest.{PullRequest}
use donsy.Epic.Rounds
use donsy.Epic.Aggregate.{Epic, find_first, issue_has_id, pull_request_has_id, transition_issue}
use donsy.Epic.Aggregate.Updates.{and_then_ok, with_first-missing}
use donsy.Epic.Work.{update_pull_request, checked}
use donsy.Epic.Work.Outcomes.{transition_issue_ok, transition_issue-pull_requests}
use donsy.Completion.{commented}
use donsy.Completion.Records.{change_ok, commented_ok}

-- The first pull request under an identifier is changed and valid.
abbrev pub ChangeRecorded : Text → (PullRequest → Outcome PullRequest) → Epic → Epic → Type 0
ChangeRecorded id change e u =
    (p : PullRequest) × (find_first (pull_request_has_id id) e.pull_requests ≡ some p)
    × ((change p).1 ≡ none)
    × (find_first (pull_request_has_id id) u.pull_requests ≡ some (change p).0)
    × (Rounds.validate (change p).0 ≡ ok tt)

checked_ok :
    (change : PullRequest → Outcome PullRequest) (p : PullRequest)
    → (checked change p).1 ≡ none
    → ((change p).1 ≡ none)
      × ((checked change p).0 ≡ (change p).0)
      × (Rounds.validate (change p).0 ≡ ok tt)
checked_ok change p h = ground arith

checked-id :
    (change : PullRequest → Outcome PullRequest)
    → ((q : PullRequest) → (change q).0.id ≡ q.id)
    → (p : PullRequest) → (checked change p).0.id ≡ p.id
checked-id change keeps p = ground (arith, keeps p)

pub update_pull_request_ok :
    (id : Text) (change : PullRequest → Outcome PullRequest) (e : Epic)
    → ((q : PullRequest) → (change q).0.id ≡ q.id)
    → (update_pull_request id change e).1 ≡ none
    → ChangeRecorded id change e (update_pull_request id change e).0
unfolding update_pull_request
update_pull_request_ok id change e keeps h =
    elim (Option-cases (find_first (pull_request_has_id id) e.pull_requests)) [
      | inl n ↦ absurd (
          cc (
            h,
            ap (λ (o : Outcome (List PullRequest)). o.1)
                (with_first-missing (pull_request_has_id id) pull_request_not_found (checked change)
                  e.pull_requests n),
          ))
      | inr (p, f) ↦
          let w = change_ok id (checked change) e p (checked-id change keeps) f h in
          let c = checked_ok change p w.0 in (p, f, c.0, w.1 ∙ ap some c.1, c.2)
    ]

-- The first issue under an identifier has a state.
abbrev pub IssueRecorded : Text → IssueState → Epic → Epic → Type 0
IssueRecorded id next e u =
    (i : Issue) × (find_first (issue_has_id id) e.issues ≡ some i)
    × (find_first (issue_has_id id) u.issues ≡ some (record i { state = next }))

pub update_pull_request-issues :
    (id : Text) (change : PullRequest → Outcome PullRequest) (e : Epic)
    → (update_pull_request id change e).0.issues ≡ e.issues
unfolding update_pull_request
update_pull_request-issues id change e = refl

-- The update of a pull request, and the move of an issue.
abbrev pub moves :
    Text → (PullRequest → Outcome PullRequest) → Text → IssueState → Epic → Outcome Epic
moves id change issue next e = update_pull_request id change e and_then transition_issue issue next

pub moves_ok :
    (id : Text) (change : PullRequest → Outcome PullRequest) (issue : Text) (next : IssueState)
    (e : Epic)
    → ((q : PullRequest) → (change q).0.id ≡ q.id)
    → (moves id change issue next e).1 ≡ none
    → ChangeRecorded id change e (moves id change issue next e).0
      × IssueRecorded issue next e (moves id change issue next e).0
moves_ok id change issue next e keeps h =
    let a = and_then_ok (update_pull_request id change e) (transition_issue issue next) h in
    let e1 = (update_pull_request id change e).0 in
    let (p, f, c, found, valid) = update_pull_request_ok id change e keeps a.0 in
    let t = transition_issue_ok issue next e1 (ap (λ (x : Outcome Epic). x.1) (sym a.1) ∙ h) in
    let end = ap (λ (x : Outcome Epic). x.0) a.1 in
    (
      (
        p,
        f,
        c,
        ap (λ (s : Epic). find_first (pull_request_has_id id) s.pull_requests) end
            ∙ ap (find_first (pull_request_has_id id))
                (transition_issue-pull_requests issue next e1)
            ∙ found,
        valid,
      ),
      (
        t.0,
        sym (ap (find_first (issue_has_id issue)) (update_pull_request-issues id change e)) ∙ t.1,
        ap (λ (s : Epic). find_first (issue_has_id issue) s.issues) end ∙ t.2,
      ),
    )

-- The same, with a comment on the pull request in between.
abbrev pub CommentRecorded :
    Text → (PullRequest → Outcome PullRequest) → Result Comment → Epic → Epic → Type 0
CommentRecorded id change comment e u =
    (p : PullRequest) × (find_first (pull_request_has_id id) e.pull_requests ≡ some p)
    × ((change p).1 ≡ none)
    × ((c : Comment) × (comment ≡ ok c)
        × (find_first (pull_request_has_id id) u.pull_requests
            ≡ some (record (change p).0 { comments = (change p).0.comments ++ c ∷ [] })))

abbrev pub says_and_moves :
    Text
    → (PullRequest → Outcome PullRequest)
    → Result Comment
    → Text
    → IssueState
    → Epic
    → Outcome Epic
says_and_moves id change comment issue next e =
    update_pull_request id change e
    and_then commented id comment
    and_then transition_issue issue next

pub says_and_moves_ok :
    (id : Text) (change : PullRequest → Outcome PullRequest) (comment : Result Comment)
    (issue : Text) (next : IssueState) (e : Epic)
    → ((q : PullRequest) → (change q).0.id ≡ q.id)
    → (says_and_moves id change comment issue next e).1 ≡ none
    → CommentRecorded id change comment e (says_and_moves id change comment issue next e).0
      × IssueRecorded issue next e (says_and_moves id change comment issue next e).0
says_and_moves_ok id change comment issue next e keeps h =
    let e1 = (update_pull_request id change e).0 in
    let e2 = (commented id comment e1).0 in
    let a2 =
      and_then_ok (update_pull_request id change e and_then commented id comment)
        (transition_issue issue next) h in
    let a1 = and_then_ok (update_pull_request id change e) (commented id comment) a2.0 in
    let (p, f, c, found, valid) = update_pull_request_ok id change e keeps a1.0 in
    let said =
      commented_ok id comment e1 (change p).0 found
        (ap (λ (x : Outcome Epic). x.1) (sym a1.1) ∙ a2.0) in
    let o2 = ap (λ (x : Outcome Epic). x.0) a1.1 in
    let end =
      ap (λ (x : Outcome Epic). x.0) a2.1
      ∙ ap (λ (s : Epic). (transition_issue issue next s).0) o2 in
    let t = transition_issue_ok issue next e2 (
      ap (λ (s : Epic). (transition_issue issue next s).1) (sym o2)
      ∙ (ap (λ (x : Outcome Epic). x.1) (sym a2.1) ∙ h)) in
    (
      (
        p,
        f,
        c,
        (
          said.0,
          said.1,
          ap (λ (s : Epic). find_first (pull_request_has_id id) s.pull_requests) end
              ∙ ap (find_first (pull_request_has_id id))
                  (transition_issue-pull_requests issue next e2)
              ∙ said.2,
        ),
      ),
      (
        t.0,
        sym (ap (find_first (issue_has_id issue)) (said.3 ∙ update_pull_request-issues id change e))
            ∙ t.1,
        ap (λ (s : Epic). find_first (issue_has_id issue) s.issues) end ∙ t.2,
      ),
    )

-- ===== src/Completion/Records.antt =====
-- What the end of a round records in the epic.
use mathlib.Core.Path.{subst}
use donsy.Prelude.{
  ◌≡◌, refl, sym, ap, ◌∙◌, inl, inr, none, some, [], ◌∷◌, ◌++◌, arith, Option-cases,
}
use donsy.Text.{Text, text_eq}
use donsy.Text.Equality.{text_eq_iff}
use donsy.Errors.{Result, ok, err, Outcome, ◌and_then◌, Result-cases, pull_request_not_found}
use donsy.Epic.Issue.{Issue, IssueState, Comment}
use donsy.Epic.PullRequest.{PullRequest}
use donsy.Epic.Rounds
use donsy.Epic.Aggregate.{
  Epic, find_first, with_first, issue_has_id, pull_request_has_id, on_pull_requests,
  transition_issue,
}
use donsy.Epic.Aggregate.Updates.{find_first-test, with_first-found, and_then_ok}
use donsy.Epic.Work.{add_pull_request_comment}
use donsy.Epic.Work.Outcomes.{transition_issue_ok, transition_issue-pull_requests}
use donsy.Completion.{record_round, commented, still_valid}

-- A change of the pull requests under an identifier, at the first of them.
pub change_ok :
    (id : Text) (change : PullRequest → Outcome PullRequest) (e : Epic) (p : PullRequest)
    → ((q : PullRequest) → (change q).0.id ≡ q.id)
    → find_first (pull_request_has_id id) e.pull_requests ≡ some p
    → (on_pull_requests (with_first (pull_request_has_id id) pull_request_not_found change) e).1
      ≡ none
    → ((change p).1 ≡ none)
      × (find_first
            (pull_request_has_id id)
            (on_pull_requests
              (with_first (pull_request_has_id id) pull_request_not_found change)
              e).0.pull_requests
          ≡ some (change p).0)
change_ok id change e p keeps f h =
    let own = find_first-test (pull_request_has_id id) e.pull_requests p f in
    let w =
      with_first-found (pull_request_has_id id) pull_request_not_found change e.pull_requests p f
        (ap (λ (t : Text). text_eq t id) (keeps p) ∙ own) in
    (sym w.0 ∙ h, w.1)

add_comment-id : (c : Comment) (p : PullRequest) → (Rounds.add_comment c p).0.id ≡ p.id
unfolding Rounds.add_comment
add_comment-id c p = ground arith

add_comment_ok :
    (c : Comment) (p : PullRequest)
    → (Rounds.add_comment c p).1 ≡ none
    → (Rounds.add_comment c p).0 ≡ record p { comments = p.comments ++ c ∷ [] }
unfolding Rounds.add_comment
add_comment_ok c p h = ground arith

pub commented_ok :
    (id : Text) (comment : Result Comment) (e : Epic) (p : PullRequest)
    → find_first (pull_request_has_id id) e.pull_requests ≡ some p
    → (commented id comment e).1 ≡ none
    → (c : Comment) × (comment ≡ ok c)
      × (find_first (pull_request_has_id id) (commented id comment e).0.pull_requests
          ≡ some (record p { comments = p.comments ++ c ∷ [] }))
      × ((commented id comment e).0.issues ≡ e.issues)
unfolding add_pull_request_comment
commented_ok id (err x) e p f h = cc
commented_ok id (ok c) e p f h =
    let w = change_ok id (Rounds.add_comment c) e p (add_comment-id c) f h in
    (c, refl, w.1 ∙ ap some (add_comment_ok c p w.0), refl)

still_valid_ok :
    (id : Text) (e : Epic) (p : PullRequest)
    → find_first (pull_request_has_id id) e.pull_requests ≡ some p
    → (still_valid id e).1 ≡ none
    → ((still_valid id e).0 ≡ e) × (Rounds.validate p ≡ ok tt)
still_valid_ok id e p f h = elim (Result-cases (Rounds.validate p)) [
  | inl (u, v) ↦ ground arith
  | inr (x, v) ↦ ground arith
]

-- What a round has recorded: the first pull request under the identifier is changed and has the
-- comment as its last, it is valid, and the first issue under the issue's identifier has the state.
abbrev pub RoundRecorded :
    Text → (PullRequest → Outcome PullRequest) → Result Comment → IssueState → Epic → Epic → Type 0
RoundRecorded id change comment next e u =
    (p : PullRequest) × (find_first (pull_request_has_id id) e.pull_requests ≡ some p)
    × ((change p).1 ≡ none)
    × ((c : Comment) × (comment ≡ ok c)
        × (find_first (pull_request_has_id id) u.pull_requests
            ≡ some (record (change p).0 { comments = (change p).0.comments ++ c ∷ [] }))
        × (Rounds.validate (record (change p).0 { comments = (change p).0.comments ++ c ∷ [] })
            ≡ ok tt))
    × ((i : Issue) × (find_first (issue_has_id p.issue_id) e.issues ≡ some i)
        × (find_first (issue_has_id p.issue_id) u.issues ≡ some (record i { state = next })))

module _ (id : Text) (change : PullRequest → Outcome PullRequest) (comment : Result Comment)
    (next : IssueState) (keeps : (q : PullRequest) → (change q).0.id ≡ q.id) where
  abbrev changed : Epic → Outcome Epic
  changed e = on_pull_requests (with_first (pull_request_has_id id) pull_request_not_found change) e

  record_round_missing :
      (e : Epic)
      → find_first (pull_request_has_id id) e.pull_requests ≡ none
      → (record_round id change comment next e).1 ≡ some pull_request_not_found
  unfolding record_round
  record_round_missing e f = rw (f, record_round) refl

  record_round_found :
      (e : Epic) (p : PullRequest)
      → find_first (pull_request_has_id id) e.pull_requests ≡ some p
      → record_round id change comment next e ≡ (
          changed e
          and_then commented p.id comment
          and_then transition_issue p.issue_id next
          and_then still_valid id)
  unfolding record_round
  record_round_found e p f = rw (f, record_round) refl

  same_id :
      (e : Epic) (p : PullRequest)
      → find_first (pull_request_has_id id) e.pull_requests ≡ some p
      → p.id ≡ id
  same_id e p f =
      (text_eq_iff p.id id).0 (find_first-test (pull_request_has_id id) e.pull_requests p f)

  chain_ok :
      (e : Epic) (p : PullRequest)
      → find_first (pull_request_has_id id) e.pull_requests ≡ some p
      → (changed e
          and_then commented id comment
          and_then transition_issue p.issue_id next
          and_then still_valid id).1
        ≡ none
      → RoundRecorded id change comment next e
          (changed e
            and_then commented id comment
            and_then transition_issue p.issue_id next
            and_then still_valid id).0
  chain_ok e p f h =
      let a3 =
        and_then_ok
          (changed e and_then commented id comment and_then transition_issue p.issue_id next)
          (still_valid id) h in
      let a2 =
        and_then_ok (changed e and_then commented id comment) (transition_issue p.issue_id next)
          a3.0 in
      let a1 = and_then_ok (changed e) (commented id comment) a2.0 in
      let e1 = (changed e).0 in
      let e2 = (commented id comment e1).0 in
      let e3 = (transition_issue p.issue_id next e2).0 in
      let c1 = change_ok id change e p keeps f a1.0 in
      let c2 =
        commented_ok id comment e1 (change p).0 c1.1
          (ap (λ (x : Outcome Epic). x.1) (sym a1.1) ∙ a2.0) in
      let final = record (change p).0 { comments = (change p).0.comments ++ c2.0 ∷ [] } in
      let issue = p.issue_id in
      let o2 = ap (λ (x : Outcome Epic). x.0) a1.1 in
      let t = transition_issue_ok issue next e2 (
        ap (λ (s : Epic). (transition_issue issue next s).1) (sym o2)
        ∙ (ap (λ (x : Outcome Epic). x.1) (sym a2.1) ∙ a3.0)) in
      let o3 =
        ap (λ (x : Outcome Epic). x.0) a2.1
        ∙ ap (λ (s : Epic). (transition_issue issue next s).0) o2 in
      let q3 =
        ap (find_first (pull_request_has_id id)) (transition_issue-pull_requests issue next e2)
        ∙ c2.2 in
      let v = still_valid_ok id e3 final q3 (
        ap (λ (s : Epic). (still_valid id s).1) (sym o3)
        ∙ (ap (λ (x : Outcome Epic). x.1) (sym a3.1) ∙ h)) in
      let o4 =
        ap (λ (x : Outcome Epic). x.0) a3.1 ∙ ap (λ (s : Epic). (still_valid id s).0) o3 ∙ v.0 in
      (
        p,
        f,
        c1.0,
        (
          c2.0,
          c2.1,
          ap (λ (s : Epic). find_first (pull_request_has_id id) s.pull_requests) o4 ∙ q3,
          v.1,
        ),
        (
          t.0,
          ap (find_first (issue_has_id issue)) (sym c2.3) ∙ t.1,
          ap (λ (s : Epic). find_first (issue_has_id issue) s.issues) o4 ∙ t.2,
        ),
      )

  pub record_round-RoundRecorded :
      (e : Epic)
      → (record_round id change comment next e).1 ≡ none
      → RoundRecorded id change comment next e (record_round id change comment next e).0
  record_round-RoundRecorded e h =
      elim (Option-cases (find_first (pull_request_has_id id) e.pull_requests)) [
        | inl n ↦ absurd (cc (h, record_round_missing e n))
        | inr (p, f) ↦
            let whole =
              subst
                (λ x. record_round id change comment next e ≡ (
                  changed e
                  and_then commented x comment
                  and_then transition_issue p.issue_id next
                  and_then still_valid id))
                (same_id e p f) (record_round_found e p f) in
            subst (λ (x : Outcome Epic). RoundRecorded id change comment next e x.0) (sym whole)
              (chain_ok e p f (ap (λ (x : Outcome Epic). x.1) (sym whole) ∙ h))
      ]

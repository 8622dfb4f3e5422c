-- ===== src/Epic/Closing/Steps.antt =====
-- What closing may do to a tree: each issue stays or, unless it was settled, is closed, and each
-- pull request stays or goes from open to closed.
use donsy.Prelude.{
  ◌≡◌, refl, ap, ◌∙◌, ◌⊎◌, inl, inr, Bool, true, false, ◌&&◌, none, some, List, [], ◌∷◌, arith,
  Bool-cases, Option-cases, if◌then◌else◌,
}
use donsy.Text.{Text, text_eq}
use donsy.Errors.{Error, Outcome, success, ◌and_then◌, issue_not_found}
use donsy.Epic.Issue
use donsy.Epic.Issue.{Issue, issue_state_eq, settled}
use donsy.Epic.PullRequest
use donsy.Epic.PullRequest.{PullRequest, status_eq}
use donsy.Epic.Aggregate.{
  Epic, find_first, with_first, issue_has_id, transition_issue, on_pull_requests,
}
use donsy.Epic.Closing.{close_record, close_records, close_visit}

abbrev pub IssueStep : Issue → Issue → Type 0
IssueStep i j = (j ≡ i) ⊎ ((settled i ≡ false) × (j ≡ record i { state = Issue.closed }))

abbrev pub RecordStep : PullRequest → PullRequest → Type 0
RecordStep p q =
    (q ≡ p) ⊎ ((p.status ≡ PullRequest.opened) × (q ≡ record p { status = PullRequest.closed }))

-- A relation between the elements of two lists, in their places.
abbrev pub Pointwise : {A : Type 0} → (A → A → Type 0) → List A → List A → Type 0
Pointwise R [] [] = Unit
Pointwise R (x ∷ xs) (y ∷ ys) = R x y × Pointwise R xs ys
Pointwise R _ _ = ⊥

Pointwise-refl :
    {A : Type 0} (R : A → A → Type 0) (r : (x : A) → R x x) (xs : List A) → Pointwise R xs xs
Pointwise-refl R r [] = tt
Pointwise-refl R r (x ∷ xs) = (r x, Pointwise-refl R r xs)

Pointwise-trans :
    {A : Type 0} (R : A → A → Type 0) (t : (x y z : A) → R x y → R y z → R x z) (xs ys zs : List A)
    → Pointwise R xs ys
    → Pointwise R ys zs
    → Pointwise R xs zs
Pointwise-trans R t [] [] [] p q = tt
Pointwise-trans R t [] [] (z ∷ zs) p q = elim q [ ]
Pointwise-trans R t [] (y ∷ ys) zs p q = elim p [ ]
Pointwise-trans R t (x ∷ xs) [] zs p q = elim p [ ]
Pointwise-trans R t (x ∷ xs) (y ∷ ys) [] p q = elim q [ ]
Pointwise-trans R t (x ∷ xs) (y ∷ ys) (z ∷ zs) p q =
    (t x y z p.0 q.0, Pointwise-trans R t xs ys zs p.1 q.1)

IssueStep-trans : (i j k : Issue) → IssueStep i j → IssueStep j k → IssueStep i k
unfolding settled
IssueStep-trans i j k p q = ground arith

RecordStep-trans : (p q r : PullRequest) → RecordStep p q → RecordStep q r → RecordStep p r
RecordStep-trans p q r s t = ground arith

pub record Closes (e e' : Epic) : Type 0 where
  pub issues : Pointwise IssueStep e.issues e'.issues
  pub records : Pointwise RecordStep e.pull_requests e'.pull_requests
  pub rest : record e' { issues = e.issues; pull_requests = e.pull_requests } ≡ e

pub Closes-refl : (e : Epic) → Closes e e
Closes-refl e = record {
  issues = Pointwise-refl IssueStep (λ i. inl refl) e.issues;
  records = Pointwise-refl RecordStep (λ p. inl refl) e.pull_requests;
  rest = refl;
}

pub Closes-trans : (a b c : Epic) → Closes a b → Closes b c → Closes a c
Closes-trans a b c p q = record {
  issues = Pointwise-trans IssueStep IssueStep-trans a.issues b.issues c.issues p.issues q.issues;
  records =
      Pointwise-trans RecordStep RecordStep-trans a.pull_requests b.pull_requests c.pull_requests
        p.records q.records;
  rest =
      ap (λ (t : Epic). record t { issues = a.issues; pull_requests = a.pull_requests }) q.rest
      ∙ p.rest;
}

-- The steps that a visit is made of.
transition_closed-step : (i : Issue) → IssueStep i (Issue.transition_to Issue.closed i).0
unfolding Issue.transition_to settled
transition_closed-step i = elim (Bool-cases (settled i)) [
  | inl e ↦ inl (ground arith)
  | inr e ↦ inr (e, ground arith)
]

with_first-steps :
    (test : Issue → Bool) (missing : Error) (xs : List Issue)
    → Pointwise IssueStep xs (with_first test missing (Issue.transition_to Issue.closed) xs).0
unfolding with_first
with_first-steps test missing [] = tt
with_first-steps test missing (x ∷ xs) = elim (Bool-cases (test x)) [
  | inl h ↦ rw h (transition_closed-step x, Pointwise-refl IssueStep (λ i. inl refl) xs)
  | inr h ↦ rw h (inl refl, with_first-steps test missing xs)
]

close_record-step :
    (id : Text) (p : PullRequest)
    → RecordStep p (close_record id p).0 × ((close_record id p).1 ≡ none)
unfolding close_record
close_record-step id p =
    elim (Bool-cases (text_eq p.issue_id id && status_eq p.status PullRequest.opened)) [
      | inl h ↦ (inr (ground arith, ground arith), ground arith)
      | inr h ↦ rw h (inl refl, refl)
    ]

-- No record stops the loop.
pub close_records-cons :
    (id : Text) (p : PullRequest) (ps : List PullRequest)
    → close_records id (p ∷ ps)
      ≡ ((close_record id p).0 ∷ (close_records id ps).0, (close_records id ps).1)
unfolding close_records
close_records-cons id p ps = ground (arith, close_record-step id p)

pub close_records-steps :
    (id : Text) (ps : List PullRequest)
    → Pointwise RecordStep ps (close_records id ps).0 × ((close_records id ps).1 ≡ none)
close_records-steps id [] = unfold close_records in (tt, refl)
close_records-steps id (p ∷ ps) =
    let step = close_record-step id p in
    rw (close_records-cons id p ps)
      ((step.0, (close_records-steps id ps).0), (close_records-steps id ps).1)

pub and_then-Closes :
    (e : Epic) (o : Outcome Epic) (f : Epic → Outcome Epic)
    → Closes e o.0
    → ((e' : Epic) → Closes e' (f e').0)
    → Closes e (o and_then f).0
and_then-Closes e (e', none) f c k = Closes-trans e e' (f e').0 c (k e')
and_then-Closes e (e', some error) f c k = c

transition_issue-Closes : (id : Text) (e : Epic) → Closes e (transition_issue id Issue.closed e).0
unfolding transition_issue
transition_issue-Closes id e = record {
  issues = with_first-steps (issue_has_id id) issue_not_found e.issues;
  records = Pointwise-refl RecordStep (λ p. inl refl) e.pull_requests;
  rest = refl;
}

records-Closes : (id : Text) (e : Epic) → Closes e (on_pull_requests (close_records id) e).0
records-Closes id e = record {
  issues = Pointwise-refl IssueStep (λ i. inl refl) e.issues;
  records = (close_records-steps id e.pull_requests).0;
  rest = refl;
}

pub close_visit-Closes : (issue : Issue) (e : Epic) → Closes e (close_visit issue e).0
unfolding close_visit
close_visit-Closes issue e = elim (Option-cases (find_first (issue_has_id issue.id) e.issues)) [
  | inl h ↦ rw (h, close_visit) (Closes-refl e)
  | inr (i, h) ↦ rw (h, close_visit) (visit i (Bool-cases (issue_state_eq i.state Issue.merged)))
]
  where
    visit :
        (i : Issue)
        → (issue_state_eq i.state Issue.merged ≡ true)
          ⊎ (issue_state_eq i.state Issue.merged ≡ false)
        → Closes e
            (if issue_state_eq i.state Issue.merged
              then success e
              else transition_issue issue.id Issue.closed e
                and_then on_pull_requests (close_records issue.id)).0
    visit i (inl m) = rw m (Closes-refl e)
    visit i (inr m) = rw m (
        and_then-Closes e (transition_issue issue.id Issue.closed e)
          (on_pull_requests (close_records issue.id)) (transition_issue-Closes issue.id e)
          (records-Closes issue.id))

-- ===== src/Landing/Opening/Ready.antt =====
-- Which branches a tick cuts, and what it records of them.
use donsy.Prelude.{
  ◌≡◌, refl, inl, inr, Bool, true, false, ◌&&◌, not, Option, none, some, List, [], ◌∷◌, ◌++◌, any,
  all, all_append, all_mono, arith, Bool-cases,
}
use donsy.Text.{Text, text_eq}
use donsy.Text.Equality.{text_eq_iff}
use donsy.Errors.{Error, ok, Result-cases}
use donsy.Epic.Issue.{Issue}
use donsy.Epic.State
use donsy.Epic.State.{epic_state_eq}
use donsy.Epic.Aggregate.{Epic, branch_name}
use donsy.Completion.{Draw}
use donsy.Landing.{CodeCheckout, CodeWorkspace, CodeCall, merges, cuts, pushes, deletes, updates}
use donsy.Text.{is_empty}
use donsy.Epic.Issue
use donsy.Epic.Issue.{issue_state_eq}
use donsy.Epic.Work.{blocked, open_pull_request_for}
use donsy.Landing.Opening.{
  resync_blocked, issue_checkout, is_passed_over, open_issue, open_issues, open_ready,
  open_pull_requests,
}

abbrev has_no_open_pull_request : Epic → Issue → Bool
has_no_open_pull_request current i = elim (open_pull_request_for i.id current) [
  | none ↦ true
  | some p ↦ false
]

abbrev pub is_ready_issue : Epic → Issue → Bool
is_ready_issue current i =
    not (is_empty i.parent_id)
    && issue_state_eq i.state Issue.opened
    && not (blocked i.id current)
    && has_no_open_pull_request current i

not_passed_over :
    (current : Epic) (i : Issue)
    → is_passed_over current i ≡ false
    → is_ready_issue current i ≡ true
unfolding is_passed_over
not_passed_over current i h = ground arith

-- A call on the branch of an issue of the list that is ready.
abbrev pub is_for : Epic → CodeCheckout → Text → Issue → Bool
is_for current c branch i =
    text_eq i.id c.issue_id && text_eq (branch_name i current) branch && is_ready_issue current i

abbrev pub is_ready_call : Epic → List Issue → CodeCall → Bool
is_ready_call current issues (cuts c branch) = any (is_for current c branch) issues
is_ready_call current issues (pushes c branch) = any (is_for current c branch) issues
is_ready_call current issues updates = true
is_ready_call current issues _ = false

text_same : (t : Text) → text_eq t t ≡ true
text_same t = (text_eq_iff t t).1 refl

widen :
    (current : Epic) (i : Issue) (rest : List Issue) (call : CodeCall)
    → is_ready_call current rest call ≡ true
    → is_ready_call current (i ∷ rest) call ≡ true
widen current i rest (cuts c b) k = ground arith
widen current i rest (pushes c b) k = ground arith
widen current i rest updates k = refl
widen current i rest (merges c b) k = k
widen current i rest (deletes c b) k = k

module _ (write : Epic → Option Error) (code : CodeWorkspace) (draws : Text → Draw)
    (current : Epic) where
  open_issue_ready :
      (i : Issue) (rest : List Issue) (e : Epic)
      → is_passed_over current i ≡ false
      → all (is_ready_call current (i ∷ rest)) (open_issue write code draws current i e).calls
        ≡ true
  unfolding open_issue
  open_issue_ready i rest e h =
      ground (arith, not_passed_over current i h, text_same i.id, text_same (branch_name i current))

  open_issues_ready :
      (issues : List Issue) (e : Epic)
      → all
          (is_ready_call current issues)
          (open_issues write code draws current issues e).landing.calls
        ≡ true
  unfolding open_issues
  open_issues_ready [] e = refl
  open_issues_ready (i ∷ rest) e =
      let J = is_ready_call current (i ∷ rest) in
      let wider =
        λ (x : CodeCall) (k : is_ready_call current rest x ≡ true). widen current i rest x k in
      let here = open_issue write code draws current i e in
      let later = open_issues write code draws current rest here.stored in
      let more =
        all_mono (is_ready_call current rest) J later.landing.calls wider
          (open_issues_ready rest here.stored) in
      elim (Bool-cases (is_passed_over current i)) [
        | inl p ↦ ground (
          arith,
          all_mono (is_ready_call current rest) J
              (open_issues write code draws current rest e).landing.calls wider
              (open_issues_ready rest e),
        )
        | inr p ↦
            ground (
              arith,
              open_issue_ready i rest e p,
              all_append J here.calls later.landing.calls,
              more,
            )
      ]

  -- A record is written only for a branch that was cut and published.
  open_issue_published :
      (i : Issue) (e : Epic)
      → (open_issue write code draws current i e).failed ≡ none
      → (base : Text) × (code.default_branch i.repository ≡ ok base)
        × (code.checkout (issue_checkout current i) (branch_name i current) base ≡ none)
        × (code.push (issue_checkout current i) (branch_name i current) ≡ none)
  unfolding open_issue
  open_issue_published i e h = elim (Result-cases (code.default_branch i.repository)) [
    | inl (base, d) ↦ (base, d, ground arith, ground arith)
    | inr (x, d) ↦ absurd (ground arith)
  ]

module _ (write : Epic → Option Error) (ranged : List (Text × Bool) → List (Text × Bool))
    (draws : Text → Draw) where
  resync_ready :
      (current e : Epic) (issues : List Issue)
      → all (is_ready_call current issues) (resync_blocked write ranged current e).calls ≡ true
  unfolding resync_blocked
  resync_ready current e issues = ground arith

  -- Each call of a tick that cuts or publishes a branch is made while the epic that was read is
  -- Ready, and is for the branch of one of its issues that has a parent, is open, waits on nothing
  -- and has no open pull request; a tick makes no other call but updates of the epic.
  pub opens_ready :
      (code : CodeWorkspace) (current e : Epic)
      → all
          (λ c.
            epic_state_eq current.progress.state State.ready
            && is_ready_call current current.issues c)
          (open_pull_requests write ranged draws (some code) (ok current) e).landing.calls
        ≡ true
  unfolding open_pull_requests open_ready
  opens_ready code current e =
      let ready = epic_state_eq current.progress.state State.ready in
      let J = is_ready_call current current.issues in
      let synced = resync_blocked write ranged current e in
      let opened = open_issues write code draws current current.issues synced.stored in
      let first = resync_ready current e current.issues in
      let second = open_issues_ready write code draws current current.issues synced.stored in
      elim (Bool-cases ready) [
        | inl r ↦
            let weak = λ (calls : List CodeCall) (k : all J calls ≡ true).
              all_mono J (λ c. ready && J c) calls (λ c j. ground arith) k in
            ground (
              arith,
              weak synced.calls first,
              weak (synced.calls ++ opened.landing.calls)
                  (all_append J synced.calls opened.landing.calls first second),
            )
        | inr r ↦ ground arith
      ]

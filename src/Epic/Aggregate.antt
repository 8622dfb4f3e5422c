-- ===== src/Epic/Aggregate.antt =====
-- internal/domain/epic/epic.go and epic_progress.go: the epic with its issues and pull requests,
-- and the operations on the epic and its issues. A method with a pointer receiver gives the epic
-- that it leaves, beside its error. Work.antt has the operations on its pull requests, and
-- Closing.antt the walk over the tree.
pub mod Updates
use donsy.Prelude.{
  ℕ, Bool, true, false, ◌||◌, ◌&&◌, not, Option, none, some, List, [], ◌∷◌, ◌++◌, map, any, ltb,
  length, if◌then◌else◌,
}
use donsy.Prelude.Int.{ℤ, pos}
use donsy.Text.{Text, text_eq, is_empty, trim_space, codes}
use donsy.Slug.{slug, slug_max, hyphen}
use donsy.Errors.{
  Error, Result, ok, err, ◌>>=◌, Outcome, success, failure, ◌and_then◌, repository_required,
  parent_not_found, issue_not_found, pull_request_not_found, root_not_found, closed_title,
  closed_body, title_required, branches_cut, bad_outcome,
}
use donsy.Epic.State
use donsy.Epic.State.{EpicState, EpicEvent, Progress, epic_state_eq}
use donsy.Epic.Issue
use donsy.Epic.Issue.{Issue, IssueState, Comment, issue_state_eq, settled, set_parent}
use donsy.Epic.PullRequest
use donsy.Epic.PullRequest.{
  PullRequest, PullRequestStatus, PullRequestEvent, status_eq, merge, close,
}
use donsy.Epic.Rounds

pub record Epic : Type 0 where
  pub id : Text
  pub title : Text
  pub assignee : Text
  pub repositories : List Text
  pub body : Text
  pub progress : Progress
  pub open progress use *
  pub branch_prefix : Text
  pub issues : List Issue
  pub pull_requests : List PullRequest

-- `Apply`, `RecordDraftingPass`, `ForceState` and `TransitionTo` as methods of the epic.
abbrev pub on_progress : (Progress → Outcome Progress) → Epic → Outcome Epic
on_progress f e = let (p, failed) = f e.progress in (record e { progress = p }, failed)

-- The loop that changes the first element under a test: `for i := range xs { if ... { continue };
-- return change(&xs[i]) }; return missing`. What the change writes before it fails stays written.
module _ {ℓ} {A : Type ℓ} where
  unfoldable pub with_first : (A → Bool) → Error → (A → Outcome A) → List A → Outcome (List A)
  with_first test missing change [] = failure missing []
  with_first test missing change (x ∷ xs) =
      let (x', here) = change x in
      let (xs', below) = with_first test missing change xs in
      if test x then (x' ∷ xs, here) else (x ∷ xs', below)

  -- The first element under a test.
  unfoldable pub find_first : (A → Bool) → List A → Option A
  find_first test [] = none
  find_first test (x ∷ xs) = if test x then some x else find_first test xs

abbrev pub issue_has_id : Text → Issue → Bool
issue_has_id id i = text_eq i.id id

abbrev pub pull_request_has_id : Text → PullRequest → Bool
pull_request_has_id id p = text_eq p.id id

abbrev pub result_of {ℓ} : {A : Type ℓ} → Error → Option A → Result A
result_of e none = err e
result_of e (some a) = ok a

unfoldable pub find_issue : Text → Epic → Result Issue
unfolding find_first
find_issue id e = result_of issue_not_found (find_first (issue_has_id id) e.issues)

unfoldable pub root_issue : Epic → Result Issue
unfolding find_first
root_issue e = result_of root_not_found (find_first (λ i. is_empty i.parent_id) e.issues)

-- `(e *Epic) SetTitle`, `SetBody` and `SetBranchPrefix`.
unfoldable pub set_title : Text → Epic → Outcome Epic
unfolding epic_state_eq
set_title title e =
    if epic_state_eq e.state State.closed
    then failure closed_title e
    else if is_empty (trim_space title)
    then failure title_required e
    else success (record e { title = trim_space title })

unfoldable pub set_body : Text → Epic → Outcome Epic
unfolding epic_state_eq
set_body body e =
    if epic_state_eq e.state State.closed
    then failure closed_body e
    else success (record e { body = body })

unfoldable pub set_branch_prefix : Text → Epic → Outcome Epic
set_branch_prefix prefix e =
    if ltb 0 (length e.pull_requests)
    then failure branches_cut e
    else success (record e { branch_prefix = slug prefix })

-- `strings.Join(segments, "-")` over the segments that are not empty.
unfoldable pub join_segments : List Text → Text
join_segments [] = []
join_segments (s ∷ []) = s
join_segments (s ∷ t ∷ rest) = s ++ hyphen ∷ join_segments (t ∷ rest)

unfoldable pub kept_segments : List Text → List Text
kept_segments [] = []
kept_segments (s ∷ rest) = if is_empty s then kept_segments rest else s ∷ kept_segments rest

abbrev pub branch_namespace : Text
branch_namespace = codes "gm/"

-- `branchTitleLimit`.
abbrev pub branch_title_limit : ℕ
branch_title_limit = 40

unfoldable pub branch_name : Issue → Epic → Text
unfolding join_segments kept_segments
branch_name issue e =
    branch_namespace
    ++ join_segments
        (kept_segments (e.branch_prefix ∷ slug_max issue.title branch_title_limit ∷ issue.id ∷ []))

pub record Branch : Type 0 where
  pub pull_request_id : Text
  pub issue_id : Text
  pub repository : Text
  pub name : Text

unfoldable pub abandoned_among : List PullRequest → List Branch
unfolding status_eq
abandoned_among [] = []
abandoned_among (p ∷ rest) =
    let more = abandoned_among rest in
    if not (status_eq p.status PullRequest.closed)
    then more
    else record {
      pull_request_id = p.id;
      issue_id = p.issue_id;
      repository = p.repository;
      name = p.head;
    }
      ∷ more

unfoldable pub abandoned_branches : Epic → List Branch
unfolding abandoned_among
abandoned_branches e = abandoned_among e.pull_requests

unfoldable pub add_issue : Text → Issue → Epic → Outcome Epic
add_issue parent issue e =
    if is_empty (trim_space issue.repository)
    then failure repository_required e
    else if any (issue_has_id parent) e.issues
    then success (record e { issues = e.issues ++ (set_parent parent issue).0 ∷ [] })
    else failure parent_not_found e

abbrev pub on_issues : (List Issue → Outcome (List Issue)) → Epic → Outcome Epic
on_issues f e = let (issues, failed) = f e.issues in (record e { issues = issues }, failed)

abbrev pub on_pull_requests : (List PullRequest → Outcome (List PullRequest)) → Epic → Outcome Epic
on_pull_requests f e =
    let (records, failed) = f e.pull_requests in (record e { pull_requests = records }, failed)

unfoldable pub transition_issue : Text → IssueState → Epic → Outcome Epic
unfolding with_first Issue.transition_to
transition_issue id next e =
    on_issues (with_first (issue_has_id id) issue_not_found (Issue.transition_to next)) e

unfoldable pub add_pull_request : Text → PullRequest → Epic → Outcome Epic
unfolding Rounds.validate transition_issue
add_pull_request issue_id p e = elim (Rounds.validate p) [
  | err failed ↦ failure failed e
  | ok _ ↦ transition_issue issue_id Issue.coding e and_then λ e'.
      success
        (record e' { pull_requests = e'.pull_requests ++ record p { issue_id = issue_id } ∷ [] })
]

-- `mutate`: the change works on copies of the two lists, which are kept only if it succeeds.
unfoldable pub mutate : (Epic → Outcome Epic) → Epic → Outcome Epic
mutate change e =
    let (updated, failed) = change e in
    elim failed [
      | none ↦ success (record e { issues = updated.issues; pull_requests = updated.pull_requests })
      | some error ↦ failure error e
    ]

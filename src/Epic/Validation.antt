-- ===== src/Epic/Validation.antt =====
-- internal/domain/epic/epic.go and epic_progress.go: what makes an epic valid, and its creation. A
-- map from identifiers is a search in the list of issues, of which no two have one identifier when
-- it is read. The three walks of the source have no bound; here they take fuel.
pub mod Creation
mod Examples
use donsy.Prelude.{
  ℕ, zero, suc, ◌+◌, Bool, true, false, ◌||◌, ◌&&◌, not, Option, none, some, List, [], ◌∷◌, ◌++◌,
  any, ◌==◌, ltb, length, if◌then◌else◌,
}
use donsy.Prelude.Int.{ℤ, pos, ltb_ℤ}
use donsy.Text.{Text, text_eq, is_empty, trim_space}
use donsy.Slug.{slug}
use donsy.Errors.{
  Error, Result, ok, err, ◌>>=◌, Outcome, success, failure, ◌and_then◌, title_required,
  assignee_required, repository_required, invalid_epic_state, id_required, duplicate_scope,
  bad_prefix, negative_passes, no_issues, root_with_repository, issue_repository_required,
  out_of_scope, duplicate_issue, root_count, missing_parent, parent_cycle, self_blocked,
  missing_blocker, repeated_blocker, ancestor_blocker, wait_cycle, missing_issue, out_of_fuel,
}
use donsy.Epic.State
use donsy.Epic.State.{is_epic_state}
use donsy.Epic.Issue
use donsy.Epic.Issue.{Issue, Time, create_issue}
use donsy.Epic.PullRequest.{PullRequest}
use donsy.Epic.Rounds
use donsy.Epic.Rounds.{validate_comments}
use donsy.Epic.Aggregate.{Epic, find_first, issue_has_id}

-- The loop over `Repositories`, with `seenRepositories`.
unfoldable pub validate_scope : List Text → List Text → Result (List Text)
unfolding text_eq trim_space
validate_scope seen [] = ok seen
validate_scope seen (r ∷ rest) =
    let repository = trim_space r in
    let more = validate_scope (repository ∷ seen) rest in
    if is_empty repository
    then err repository_required
    else if any (text_eq repository) seen
    then err duplicate_scope
    else more

-- What the loop over the issues says of the repository of one.
unfoldable pub validate_repository : Bool → List Text → Issue → Result (Unit {0})
unfolding text_eq trim_space
validate_repository declared scope issue =
    if is_empty issue.parent_id
    then if is_empty (trim_space issue.repository) then ok tt else err root_with_repository
    else if is_empty (trim_space issue.repository)
    then err issue_repository_required
    else if not (any (text_eq (trim_space issue.repository)) scope) && declared
    then err out_of_scope
    else ok tt

-- The loop over the issues, with the keys of `issues`; it gives `rootCount`.
unfoldable pub validate_issues : Bool → List Text → List Text → List Issue → Result ℕ
unfolding text_eq Issue.validate validate_comments validate_repository
validate_issues declared scope seen [] = ok 0
validate_issues declared scope seen (issue ∷ rest) =
    let below = validate_issues declared scope (issue.id ∷ seen) rest in
    Issue.validate issue >>= λ _. validate_comments issue.comments >>= λ _.
    validate_repository declared scope issue >>= λ _.
    if any (text_eq issue.id) seen
    then err duplicate_issue
    else below >>= λ roots. ok (if is_empty issue.parent_id then suc roots else roots)

-- The walk from an issue to the root, with `seen`.
unfoldable pub climb : ℕ → List Issue → List Text → Issue → Result (Unit {0})
unfolding find_first text_eq
climb zero issues seen current = err out_of_fuel
climb (suc fuel) issues seen current =
    if is_empty current.parent_id
    then ok tt
    else if any (text_eq current.id) seen
    then err parent_cycle
    else elim (find_first (issue_has_id current.parent_id) issues) [
      | none ↦ ok tt
      | some parent ↦ climb fuel issues (current.id ∷ seen) parent
    ]

-- The loop that looks for missing parents and for circles.
unfoldable pub validate_parents : ℕ → List Issue → List Issue → Result (Unit {0})
unfolding climb
validate_parents fuel issues [] = ok tt
validate_parents fuel issues (issue ∷ rest) =
    let below = validate_parents fuel issues rest in
    if not (is_empty issue.parent_id) && not (any (issue_has_id issue.parent_id) issues)
    then err missing_parent
    else climb fuel issues [] issue >>= λ _. below

unfoldable pub is_ancestor : ℕ → List Issue → Issue → Text → Result Bool
unfolding find_first text_eq
is_ancestor zero issues current candidate = err out_of_fuel
is_ancestor (suc fuel) issues current candidate =
    if is_empty current.parent_id
    then ok false
    else if text_eq current.parent_id candidate
    then ok true
    else elim (find_first (issue_has_id current.parent_id) issues) [
      | none ↦ ok false
      | some parent ↦ is_ancestor fuel issues parent candidate
    ]

-- The loop over `BlockedBy` of one issue, with `named`.
unfoldable pub validate_blockers :
    ℕ → List Issue → Issue → List Text → List Text → Result (Unit {0})
unfolding text_eq is_ancestor
validate_blockers fuel issues issue named [] = ok tt
validate_blockers fuel issues issue named (blocker ∷ rest) =
    let below = validate_blockers fuel issues issue (blocker ∷ named) rest in
    if text_eq blocker issue.id
    then err self_blocked
    else if not (any (issue_has_id blocker) issues)
    then err missing_blocker
    else if any (text_eq blocker) named
    then err repeated_blocker
    else is_ancestor fuel issues issue blocker >>= λ above.
        if above then err ancestor_blocker else below

unfoldable pub validate_all_blockers : ℕ → List Issue → List Issue → Result (Unit {0})
unfolding validate_blockers
validate_all_blockers fuel issues [] = ok tt
validate_all_blockers fuel issues (issue ∷ rest) =
    let below = validate_all_blockers fuel issues rest in
    validate_blockers fuel issues issue [] issue.blocked_by >>= λ _. below

-- `progress`: the newest mark of an identifier is the first; `true` is `visited`.
abbrev pub Marks : Type 0
Marks = List (Text × Bool)

unfoldable pub mark_of : Text → Marks → Option Bool
unfolding text_eq
mark_of id [] = none
mark_of id ((other, mark) ∷ rest) = if text_eq other id then some mark else mark_of id rest

-- `children[id]`.
unfoldable pub children_of : Text → List Issue → List Text
unfolding text_eq
children_of id [] = []
children_of id (issue ∷ rest) =
    let more = children_of id rest in
    if not (is_empty issue.parent_id) && text_eq issue.parent_id id then issue.id ∷ more else more

unfoldable pub present : List Issue → List Text → List Text
present issues [] = []
present issues (id ∷ rest) =
    let more = present issues rest in if any (issue_has_id id) issues then id ∷ more else more

unfoldable pub waits_for : List Issue → Text → List Text
unfolding find_first children_of present
waits_for issues id = elim (find_first (issue_has_id id) issues) [
  | none ↦ children_of id issues
  | some issue ↦ children_of id issues ++ present issues issue.blocked_by
]

unfoldable pub walk_all : (Text → Marks → Outcome Marks) → List Text → Marks → Outcome Marks
walk_all walk [] marks = success marks
walk_all walk (id ∷ rest) marks = walk id marks and_then walk_all walk rest

-- `walk`.
unfoldable pub walk_waits : ℕ → List Issue → Text → Marks → Outcome Marks
unfolding mark_of waits_for walk_all
walk_waits zero issues id marks = failure out_of_fuel marks
walk_waits (suc fuel) issues id marks = elim (mark_of id marks) [
  | some mark ↦ if mark then success marks else failure wait_cycle marks
  | none ↦
      walk_all (walk_waits fuel issues) (waits_for issues id) ((id, false) ∷ marks) and_then λ seen.
      success ((id, true) ∷ seen)
]

abbrev ids : List Issue → List Text
ids [] = []
ids (issue ∷ rest) = issue.id ∷ ids rest

unfoldable pub waits_acyclic : ℕ → List Issue → Result (Unit {0})
unfolding walk_waits walk_all
waits_acyclic fuel issues = elim (walk_all (walk_waits fuel issues) (ids issues) []).1 [
  | none ↦ ok tt
  | some failed ↦ err failed
]

unfoldable pub validate_blocked_by : ℕ → List Issue → Result (Unit {0})
unfolding validate_all_blockers waits_acyclic
validate_blocked_by fuel issues =
    validate_all_blockers fuel issues issues >>= λ _. waits_acyclic fuel issues

-- The loop over the pull requests.
unfoldable pub validate_pull_requests : List Issue → List PullRequest → Result (Unit {0})
unfolding Rounds.validate
validate_pull_requests issues [] = ok tt
validate_pull_requests issues (p ∷ rest) =
    let below = validate_pull_requests issues rest in
    Rounds.validate p >>= λ _.
    if any (issue_has_id p.issue_id) issues then below else err missing_issue

-- The tree: the issues, their parents and blockers, and the pull requests.
unfoldable pub validate_tree : ℕ → List Text → Epic → Result (Unit {0})
unfolding validate_issues validate_parents validate_blocked_by validate_pull_requests
validate_tree fuel scope e =
    validate_issues (ltb 0 (length e.repositories)) scope [] e.issues >>= λ roots.
    if not (roots == 1)
    then err root_count
    else validate_parents fuel e.issues e.issues >>= λ _.
        validate_blocked_by fuel e.issues >>= λ _. validate_pull_requests e.issues e.pull_requests

-- `(e *Epic) Validate`.
unfoldable pub validate_epic : ℕ → Epic → Result (Unit {0})
unfolding text_eq trim_space slug is_epic_state validate_scope validate_tree
validate_epic fuel e =
    if is_empty e.id
    then err id_required
    else if is_empty (trim_space e.title)
    then err title_required
    else if is_empty (trim_space e.assignee)
    then err assignee_required
    else validate_scope [] e.repositories >>= λ scope.
        if not (text_eq e.branch_prefix (slug e.branch_prefix))
        then err bad_prefix
        else if not (is_epic_state e.state)
        then err invalid_epic_state
        else if ltb_ℤ e.drafting_passes (pos 0)
        then err negative_passes
        else if not (ltb 0 (length e.issues))
        then err no_issues
        else validate_tree fuel scope e

-- `CreateEpic`, with the identifiers and the time that `MintULID` and the clock give. The source
-- gives the epic beside the error of `Validate`.
unfoldable pub create_epic :
    Text → Text → Time → Text → Text → Text → Result (Epic × Result (Unit {0}))
unfolding trim_space create_issue validate_epic
create_epic id root_id now title assignee body =
    if is_empty (trim_space title)
    then err title_required
    else if is_empty (trim_space assignee)
    then err assignee_required
    else create_issue root_id now (trim_space title) body [] >>= λ root.
        let e : Epic = record {
          id = id;
          title = trim_space title;
          assignee = trim_space assignee;
          repositories = [];
          body = body;
          progress = record { state = State.concept; drafting_passes = pos 0 };
          branch_prefix = [];
          issues = root ∷ [];
          pull_requests = [];
        } in
        ok (e, validate_epic 2 e)

-- ===== src/Epic/Validation/Creation.antt =====
-- What a created epic is, and what validity says of the parts of an epic.
use donsy.Prelude.{
  ℕ, ◌≡◌, refl, Bool, true, false, ◌||◌, List, [], ◌∷◌, any, arith, All, length, inl, inr,
}
use donsy.Text.{Text, text_eq, is_empty, trim_space}
use donsy.Text.Equality.{text_eq_refl}
use donsy.Text.Trim.{trim_space_idem}
use donsy.Errors.{ok, Result-cases}
use donsy.Epic.State
use donsy.Epic.Issue
use donsy.Epic.Issue.{Issue, Time, create_issue}
use donsy.Prelude.Int.{pos}
use donsy.Epic.PullRequest.{PullRequest}
use donsy.Epic.Rounds
use donsy.Epic.Aggregate.{Epic, issue_has_id, find_first}
use donsy.Epic.Validation.{
  validate_epic, validate_scope, validate_tree, validate_issues, validate_parents,
  validate_pull_requests, validate_blocked_by, validate_all_blockers, validate_blockers,
  create_epic, waits_acyclic, walk_all, walk_waits, waits_for,
}

abbrev pub is_there : List Issue → Text → Bool
is_there issues id = any (issue_has_id id) issues

-- The parts of a tree: every issue valid, under a parent that is there, with blockers that are
-- there and are not the issue; every pull request valid, of an issue that is there.
abbrev pub SoundIssue : List Issue → Issue → Type 0
SoundIssue issues i =
    ((is_empty i.parent_id || is_there issues i.parent_id) ≡ true)
    × All (λ b. (is_there issues b ≡ true) × (text_eq b i.id ≡ false)) i.blocked_by

abbrev pub SoundRecord : List Issue → PullRequest → Type 0
SoundRecord issues p = (Rounds.validate p ≡ ok tt) × (is_there issues p.issue_id ≡ true)

records_sound :
    (issues : List Issue) (ps : List PullRequest)
    → validate_pull_requests issues ps ≡ ok tt
    → All (SoundRecord issues) ps
unfolding validate_pull_requests
records_sound issues [] h = tt
records_sound issues (p ∷ ps) h =
    ((ground arith, ground arith), records_sound issues ps (ground arith))

parents_there :
    (fuel : ℕ) (issues rest : List Issue)
    → validate_parents fuel issues rest ≡ ok tt
    → All (λ i. (is_empty i.parent_id || is_there issues i.parent_id) ≡ true) rest
unfolding validate_parents
parents_there fuel issues [] h = tt
parents_there fuel issues (i ∷ rest) h =
    (ground arith, parents_there fuel issues rest (ground arith))

blockers_there :
    (fuel : ℕ) (issues : List Issue) (i : Issue) (named blockers : List Text)
    → validate_blockers fuel issues i named blockers ≡ ok tt
    → All (λ b. (is_there issues b ≡ true) × (text_eq b i.id ≡ false)) blockers
unfolding validate_blockers
blockers_there fuel issues i named [] h = tt
blockers_there fuel issues i named (b ∷ rest) h =
    ((ground arith, ground arith), blockers_there fuel issues i (b ∷ named) rest (ground arith))

every_blocker_there :
    (fuel : ℕ) (issues rest : List Issue)
    → validate_all_blockers fuel issues rest ≡ ok tt
    → All (λ i. All (λ b. (is_there issues b ≡ true) × (text_eq b i.id ≡ false)) i.blocked_by) rest
unfolding validate_all_blockers
every_blocker_there fuel issues [] h = tt
every_blocker_there fuel issues (i ∷ rest) h = (
  blockers_there fuel issues i [] i.blocked_by (ground arith),
  every_blocker_there fuel issues rest (ground arith),
)

both : {A : Type 0} (P Q : A → Type 0) (xs : List A) → All P xs → All Q xs → All (λ x. P x × Q x) xs
both P Q [] p q = tt
both P Q (x ∷ xs) p q = ((p.0, q.0), both P Q xs p.1 q.1)

tree_of :
    (fuel : ℕ) (e : Epic)
    → validate_epic fuel e ≡ ok tt
    → (scope : List Text) × (validate_tree fuel scope e ≡ ok tt)
unfolding validate_epic
tree_of fuel e h = elim (Result-cases (validate_scope [] e.repositories)) [
  | inl (scope, q) ↦ (scope, ground arith)
  | inr (x, q) ↦ absurd (ground arith)
]

tree_parts :
    (fuel : ℕ) (scope : List Text) (e : Epic)
    → validate_tree fuel scope e ≡ ok tt
    → (validate_parents fuel e.issues e.issues ≡ ok tt)
      × (validate_all_blockers fuel e.issues e.issues ≡ ok tt)
      × (validate_pull_requests e.issues e.pull_requests ≡ ok tt)
unfolding validate_tree validate_blocked_by
tree_parts fuel scope e h = (ground arith, ground arith, ground arith)

-- In an epic that `Validate` accepts, every issue's parent and every blocker is there, no issue
-- blocks itself, and every pull request is valid and of an issue that is there.
pub validate_epic_sound :
    (fuel : ℕ) (e : Epic)
    → validate_epic fuel e ≡ ok tt
    → All (SoundIssue e.issues) e.issues × All (SoundRecord e.issues) e.pull_requests
validate_epic_sound fuel e h =
    let (scope, valid) = tree_of fuel e h in
    let (parents, blockers, records) = tree_parts fuel scope e valid in
    (
      both (λ i. (is_empty i.parent_id || is_there e.issues i.parent_id) ≡ true)
          (λ i. All (λ b. (is_there e.issues b ≡ true) × (text_eq b i.id ≡ false)) i.blocked_by)
          e.issues (parents_there fuel e.issues e.issues parents)
          (every_blocker_there fuel e.issues e.issues blockers),
      records_sound e.issues e.pull_requests records,
    )

-- The root issue and the epic that `CreateEpic` makes.
abbrev root_of : Text → Time → Text → Text → Issue
root_of id now title body = record {
  id = id;
  title = trim_space title;
  parent_id = [];
  repository = [];
  state = Issue.opened;
  created_at = now;
  body = body;
  comments = [];
  blocked_by = [];
}

abbrev epic_of : Text → Text → Time → Text → Text → Text → Epic
epic_of id root_id now title assignee body = record {
  id = id;
  title = trim_space title;
  assignee = trim_space assignee;
  repositories = [];
  body = body;
  progress = record { state = State.concept; drafting_passes = pos 0 };
  branch_prefix = [];
  issues = root_of root_id now title body ∷ [];
  pull_requests = [];
}

create_root :
    (id : Text) (now : Time) (title body : Text)
    → is_empty id ≡ false
    → is_empty (trim_space title) ≡ false
    → create_issue id now (trim_space title) body [] ≡ ok (root_of id now title body)
unfolding create_issue trim_space
create_root id now title body h j = ground (arith, trim_space_idem title)

root_waits :
    (root_id : Text) (now : Time) (title body : Text)
    → waits_acyclic 2 (root_of root_id now title body ∷ []) ≡ ok tt
unfolding waits_acyclic
root_waits root_id now title body =
    rw (text_eq_refl root_id, waits_acyclic, walk_all, walk_waits, waits_for, find_first) refl

root_is_valid :
    (root_id : Text) (now : Time) (title body : Text)
    → is_empty root_id ≡ false
    → is_empty (trim_space title) ≡ false
    → Issue.validate (root_of root_id now title body) ≡ ok tt
unfolding Issue.validate
root_is_valid root_id now title body h j = rw (h, trim_space_idem title, j) refl

single_root_tree :
    (id root_id : Text) (now : Time) (title assignee body : Text)
    → is_empty root_id ≡ false
    → is_empty (trim_space title) ≡ false
    → validate_tree 2 [] (epic_of id root_id now title assignee body) ≡ ok tt
unfolding validate_tree validate_issues
single_root_tree id root_id now title assignee body h j =
    ground (arith, root_waits root_id now title body, root_is_valid root_id now title body h j)

epic_is_valid :
    (id root_id : Text) (now : Time) (title assignee body : Text)
    → is_empty id ≡ false
    → is_empty root_id ≡ false
    → is_empty (trim_space title) ≡ false
    → is_empty (trim_space assignee) ≡ false
    → validate_epic 2 (epic_of id root_id now title assignee body) ≡ ok tt
unfolding validate_epic
epic_is_valid id root_id now title assignee body h i j k = ground (
  arith,
  trim_space_idem title,
  trim_space_idem assignee,
  single_root_tree id root_id now title assignee body i j,
)

-- `CreateEpic` with a title and an assignee that are not blank gives, with identifiers that are not
-- empty, an epic that is valid, in `Concept`, with one issue, its root, and no pull request.
pub create_epic-valid :
    (id root_id : Text) (now : Time) (title assignee body : Text)
    → is_empty id ≡ false
    → is_empty root_id ≡ false
    → is_empty (trim_space title) ≡ false
    → is_empty (trim_space assignee) ≡ false
    → (e : Epic) × (create_epic id root_id now title assignee body ≡ ok (e, ok tt))
      × (e.state ≡ State.concept)
      × (length e.issues ≡ 1)
      × (e.pull_requests ≡ [])
unfolding create_epic
create_epic-valid id root_id now title assignee body h i j k =
    (epic_of id root_id now title assignee body, made, refl, refl, refl)
  where
    made :
        create_epic id root_id now title assignee body
        ≡ ok (epic_of id root_id now title assignee body, ok tt)
    made =
        rw
          (
            create_epic,
            j,
            k,
            create_root root_id now title body i j,
            epic_is_valid id root_id now title assignee body h i j k,
          )
          refl

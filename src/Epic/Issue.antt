-- ===== src/Epic/Issue.antt =====
-- internal/domain/epic/issue.go, issue_state.go and comment.go: one issue of an epic, its state
-- machine, and the comments on it. `MintULID` and the clock are not code of this repository's
-- domain: the functions that create take the identifier and the time they give.
pub mod States
pub mod Creation
mod Examples
use donsy.Prelude.{ℕ, Bool, true, false, ◌||◌, not, List, [], ◌∷◌, ◌++◌, ◌==◌, if◌then◌else◌}
use donsy.Text.{Text, text_eq, is_empty, trim_space}
use donsy.Errors.{
  Error, Result, ok, err, ◌>>=◌, Outcome, success, failure, invalid_issue_state,
  no_issue_transition, issue_fields_required, title_required, closed_title, closed_body,
  comment_id_required, comment_author_required, comment_time_required,
}

-- A Go string type: `unknown` is a text that is none of the constants.
pub data IssueState : Type 0 where
  opened coding review pr stale merged closed : IssueState
  unknown : Text → IssueState

-- A `time.Time`, in nanoseconds since the zero time; `IsZero` is `t == 0`.
abbrev pub Time : Type 0
Time = ℕ

pub record Comment : Type 0 where
  pub id : Text
  pub author : Text
  pub created_at : Time
  pub body : Text

pub record Issue : Type 0 where
  pub id : Text
  pub title : Text
  pub parent_id : Text
  pub repository : Text
  pub state : IssueState
  pub created_at : Time
  pub body : Text
  pub comments : List Comment
  pub blocked_by : List Text

-- `a == b` on states.
unfoldable pub issue_state_eq : IssueState → IssueState → Bool
issue_state_eq opened opened = true
issue_state_eq coding coding = true
issue_state_eq review review = true
issue_state_eq pr pr = true
issue_state_eq stale stale = true
issue_state_eq merged merged = true
issue_state_eq closed closed = true
issue_state_eq (unknown s) (unknown t) = text_eq s t
issue_state_eq _ _ = false

unfoldable pub is_issue_state : IssueState → Bool
is_issue_state (unknown s) = false
is_issue_state _ = true

unfoldable pub issue_transition : IssueState → IssueState → Bool
unfolding issue_state_eq
issue_transition merged next = false
issue_transition closed next = false
issue_transition current closed = true
issue_transition current opened = true
issue_transition current coding = issue_state_eq current opened || issue_state_eq current review
issue_transition current review =
    issue_state_eq current coding || issue_state_eq current stale || issue_state_eq current pr
issue_transition current pr = issue_state_eq current review
issue_transition current stale = issue_state_eq current pr
issue_transition current merged = issue_state_eq current pr
issue_transition current (unknown s) = false

-- `(i *Issue) TransitionTo`.
unfoldable pub transition_to : IssueState → Issue → Outcome Issue
unfolding is_issue_state issue_state_eq issue_transition
transition_to next i =
    if not (is_issue_state next)
    then failure invalid_issue_state i
    else if issue_state_eq i.state next
    then success i
    else if not (issue_transition i.state next)
    then failure no_issue_transition i
    else success (record i { state = next })

unfoldable pub settled : Issue → Bool
unfolding issue_state_eq
settled i = issue_state_eq i.state merged || issue_state_eq i.state closed

-- `(i Issue) Validate`.
unfoldable pub validate : Issue → Result (Unit {0})
unfolding is_issue_state
validate i =
    if is_empty i.id || is_empty (trim_space i.title)
    then err issue_fields_required
    else if not (is_issue_state i.state)
    then err invalid_issue_state
    else ok tt

-- The identifier and the time are those that `MintULID` and the clock give.
unfoldable pub create_issue : Text → Time → Text → Text → Text → Result Issue
unfolding validate
create_issue id now title body repository =
    let name = trim_space title in
    let issue : Issue = record {
      id = id;
      title = name;
      parent_id = [];
      repository = trim_space repository;
      state = opened;
      created_at = now;
      body = body;
      comments = [];
      blocked_by = [];
    } in
    if is_empty name then err title_required else (validate issue >>= λ _. ok issue)

unfoldable pub set_parent : Text → Issue → Outcome Issue
set_parent parent i = success (record i { parent_id = parent })

-- `(i *Issue) SetTitle` and `SetBody`.
unfoldable pub set_title : Text → Issue → Outcome Issue
unfolding issue_state_eq
set_title title i =
    if issue_state_eq i.state closed
    then failure closed_title i
    else success (record i { title = title })

unfoldable pub set_body : Text → Issue → Outcome Issue
unfolding issue_state_eq
set_body body i =
    if issue_state_eq i.state closed
    then failure closed_body i
    else success (record i { body = body })

-- `(c Comment) Validate`.
unfoldable pub validate_comment : Comment → Result (Unit {0})
validate_comment c =
    if is_empty c.id
    then err comment_id_required
    else if is_empty (trim_space c.author)
    then err comment_author_required
    else if c.created_at == 0
    then err comment_time_required
    else ok tt

unfoldable pub set_comment_body : Text → Comment → Outcome Comment
set_comment_body body c = success (record c { body = body })

unfoldable pub create_comment : Text → Time → Text → Text → Result Comment
unfolding validate_comment set_comment_body
create_comment id now author body =
    let comment : Comment = record {
      id = id;
      author = trim_space author;
      created_at = now;
      body = [];
    } in
    validate_comment comment >>= λ _. ok (set_comment_body body comment).0

-- `(i *Issue) AddComment`.
unfoldable pub add_comment : Comment → Issue → Outcome Issue
unfolding validate_comment
add_comment comment i = elim (validate_comment comment) [
  | err e ↦ failure e i
  | ok _ ↦ success (record i { comments = i.comments ++ comment ∷ [] })
]

-- ===== src/Epic/Issue/Examples.antt =====
-- Issues, created and moved, and the theorems at them.
use donsy.Prelude.{◌≡◌, refl, ◌⊎◌, true, false, not, ◌||◌, List, [], ◌∷◌, ◌++◌, none}
use mathlib.Core.List.{Memᴰ}
use donsy.Text.{codes, is_empty, trim_space}
use donsy.Errors.{ok, is_ok, succeeds}
use donsy.Epic.Issue.{
  IssueState, opened, coding, review, pr, stale, merged, Issue, Comment, validate, transition_to,
  settled, create_issue, validate_comment, create_comment, add_comment,
}
use donsy.Epic.Issue.States.{
  issue_move_cases, issue_move-settled, run, visited, merged_was_reviewed,
}
use donsy.Epic.Issue.Creation.{
  create_issue-is_ok, create_issue-valid, create_comment-valid, add_comment_cases,
}

abbrev fresh : Issue
fresh = record {
  id = codes "01H";
  title = codes "Cut the branch";
  parent_id = [];
  repository = codes "donsy";
  state = opened;
  created_at = 5;
  body = codes "now";
  comments = [];
  blocked_by = [];
}

created :
    create_issue (codes "01H") 5 (codes " Cut the branch ") (codes "now") (codes "donsy ")
    ≡ ok fresh
unfolding create_issue trim_space
created = refl

create_issue-is_ok_example :
    is_ok (create_issue (codes "01H") 5 (codes "   ") (codes "now") (codes "donsy"))
    ≡ not (is_empty (codes "01H") || is_empty (trim_space (codes "   ")))
create_issue-is_ok_example =
    create_issue-is_ok (codes "01H") 5 (codes "   ") (codes "now") (codes "donsy")

create_issue-valid_example :
    (validate fresh ≡ ok tt)
    × (fresh.state ≡ opened)
    × (fresh.parent_id ≡ [])
    × (trim_space fresh.title ≡ fresh.title)
    × (trim_space fresh.repository ≡ fresh.repository)
create_issue-valid_example =
    create_issue-valid (codes "01H") 5 (codes " Cut the branch ") (codes "now") (codes "donsy ")
      fresh created

abbrev praise : Comment
praise = record { id = codes "c1"; author = codes "ada"; created_at = 9; body = codes "good" }

create_comment-valid_example : (validate_comment praise ≡ ok tt) × (praise.body ≡ codes "good")
unfolding create_comment trim_space
create_comment-valid_example =
    create_comment-valid (codes "c1") 9 (codes "ada ") (codes "good") praise refl

add_comment_cases_example :
    ((validate_comment praise ≡ ok tt)
      × (add_comment praise fresh ≡ (record fresh { comments = [] ++ praise ∷ [] }, none)))
    ⊎ ((is_ok (validate_comment praise) ≡ false)
        × (succeeds (add_comment praise fresh) ≡ false)
        × ((add_comment praise fresh).0 ≡ fresh))
add_comment_cases_example = add_comment_cases praise fresh

issue_move_cases_example :
    ((succeeds (transition_to coding fresh) ≡ true)
      × ((transition_to coding fresh).0 ≡ record fresh { state = coding }))
    ⊎ ((succeeds (transition_to coding fresh) ≡ false) × ((transition_to coding fresh).0 ≡ fresh))
issue_move_cases_example = issue_move_cases coding fresh

issue_move-settled_example :
    (transition_to opened (record fresh { state = merged })).0 ≡ record fresh { state = merged }
unfolding settled
issue_move-settled_example = issue_move-settled opened (record fresh { state = merged }) refl

-- Merging too early is tried, and refused.
abbrev moves : List IssueState
moves = coding ∷ merged ∷ review ∷ pr ∷ stale ∷ review ∷ pr ∷ merged ∷ opened ∷ []

merged_was_reviewed_example : Memᴰ pr (visited moves fresh) × Memᴰ review (visited moves fresh)
unfolding run transition_to
merged_was_reviewed_example = merged_was_reviewed moves fresh refl refl

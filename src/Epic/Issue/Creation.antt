-- ===== src/Epic/Issue/Creation.antt =====
-- What is created is valid, and what is added to an issue is checked first.
use donsy.Prelude.{◌≡◌, ◌⊎◌, inl, inr, false, ◌||◌, not, [], ◌∷◌, ◌++◌, arith, none, Bool-cases}
use donsy.Text.{Text, is_empty, trim_space}
use donsy.Text.Trim.{trim_space_idem}
use donsy.Errors.{ok, is_ok, succeeds}
use donsy.Epic.Issue.{
  opened, Issue, Comment, Time, validate, create_issue, validate_comment, create_comment,
  add_comment,
}

-- `createIssue` succeeds exactly when there are an identifier and a title that is not blank.
pub create_issue-is_ok :
    (id : Text) (now : Time) (title body repository : Text)
    → is_ok (create_issue id now title body repository)
      ≡ not (is_empty id || is_empty (trim_space title))
unfolding create_issue
create_issue-is_ok id now title body repository = ground (arith, trim_space_idem title)

-- What `createIssue` returns is a valid open issue with no parent, under a title and a repository
-- without blanks at their ends.
pub create_issue-valid :
    (id : Text) (now : Time) (title body repository : Text) (i : Issue)
    → create_issue id now title body repository ≡ ok i
    → (validate i ≡ ok tt)
      × (i.state ≡ opened)
      × (i.parent_id ≡ [])
      × (trim_space i.title ≡ i.title)
      × (trim_space i.repository ≡ i.repository)
unfolding create_issue
create_issue-valid id now title body repository i h =
    ground (arith, trim_space_idem title, trim_space_idem repository)

-- What `CreateComment` returns is a valid comment with the body that was given.
pub create_comment-valid :
    (id : Text) (now : Time) (author body : Text) (c : Comment)
    → create_comment id now author body ≡ ok c
    → (validate_comment c ≡ ok tt) × (c.body ≡ body)
unfolding create_comment
create_comment-valid id now author body c h = ground (arith, trim_space_idem author)

-- A valid comment goes behind the others; any other is refused and changes nothing.
pub add_comment_cases :
    (c : Comment) (i : Issue)
    → ((validate_comment c ≡ ok tt)
        × (add_comment c i ≡ (record i { comments = i.comments ++ c ∷ [] }, none)))
      ⊎ ((is_ok (validate_comment c) ≡ false)
          × (succeeds (add_comment c i) ≡ false)
          × ((add_comment c i).0 ≡ i))
unfolding add_comment
add_comment_cases c i = elim (Bool-cases (is_ok (validate_comment c))) [
  | inl e ↦ inl (ground arith, ground arith)
  | inr e ↦ inr (e, ground arith, ground arith)
]

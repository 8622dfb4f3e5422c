-- ===== src/Epic/Closing/Examples.antt =====
-- Closing the issues of a small epic, and the theorems at it.
use donsy.Prelude.{ℕ, ◌≡◌, refl, none, [], arith, if◌then◌else◌}
use donsy.Text.{Text, text_eq, codes}
use donsy.Errors.{failure, issue_not_found}
use donsy.Epic.Issue
use donsy.Epic.Aggregate.{find_first}
use donsy.Epic.Closing.{close_issue}
use donsy.Epic.Closing.Walk.{Below, SettledIn, edges}
use donsy.Epic.Closing.Total.{close_issue_settles, close_issue-missing}
use donsy.Epic.Sample.{sample_epic, issue_of}

abbrev depth : Text → ℕ
unfolding text_eq
depth id = if text_eq id [] then 3 else if text_eq id (codes "R") then 2 else 1

close_issue_settles_example :
    ((close_issue 3 (codes "R") sample_epic).1 ≡ none)
    × ((y : Text)
        → Below (edges sample_epic.issues) y (codes "R")
        → SettledIn y (close_issue 3 (codes "R") sample_epic).0)
unfolding find_first text_eq
close_issue_settles_example =
    close_issue_settles depth 3 (codes "R") sample_epic
      (omega arith, (omega arith, (omega arith, tt)))
      (issue_of (codes "R") [] [] Issue.opened, refl) (omega arith)

close_issue-missing_example :
    close_issue 3 (codes "Z") sample_epic ≡ failure issue_not_found sample_epic
unfolding find_first text_eq
close_issue-missing_example = close_issue-missing 2 (codes "Z") sample_epic refl

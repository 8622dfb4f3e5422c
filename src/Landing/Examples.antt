-- ===== src/Landing/Examples.antt =====
-- An epic with an approved pull request, and the theorems at it.
use donsy.Prelude.{
  ◌≡◌, ◌⊎◌, refl, ap, true, false, ◌&&◌, Option, none, some, [], ◌∷◌, all, any, arith,
}
use donsy.Prelude.Int.{pos}
use donsy.Text.{Text, codes, text_eq}
use donsy.Errors.{Error, Outcome, ok, merge_conflict}
use donsy.Epic.Issue
use donsy.Epic.Issue.{create_comment}
use donsy.Epic.State
use donsy.Epic.State.{EpicState, epic_state_eq}
use donsy.Epic.PullRequest
use donsy.Epic.PullRequest.{PullRequest, set_flag, has_flag}
use donsy.Epic.Aggregate.{Epic, find_first, pull_request_has_id}
use donsy.Epic.Sample.{issue_of, sample_pull_request, sample_epic}
use donsy.Epic.Work.Outcomes.{Recorded}
use donsy.Completion.{Draw, update_epic}
use donsy.Epic.Rounds.{can_code}
use donsy.Epic.Rounds.Rationing.{Rationed}
use donsy.Epic.Work.{delivered}
use donsy.Landing.{
  CodeWorkspace, BranchState, landed, conflicts, Merged, merges, updates, deletes, cuts, pushes,
  open_pull_request, checkout_of, conflict_text, stale_update, merge_pull_request,
}
use donsy.Landing.Updates.{says_and_moves, CommentRecorded, IssueRecorded}
use donsy.Landing.Grouping.{
  group_by_remote, records_under, waiting_under, is_distinct, awaiting_merge, remote_key,
  group_by_remote_exact,
}
use donsy.Landing.Sweep.{
  branch_update, StaleRecorded, PushRecorded, branch_update_ok, external_push, pushed_text,
}
use donsy.Landing.Opening.{open_pull_requests}
use donsy.Landing.Opening.Ready.{is_ready_call, opens_ready}
use donsy.Landing.Retrying.{grant_use_case, grant_use_case_resumes, complete_delivered}
use donsy.Landing.Merging.{is_delete, deletes_merged, conflict-Recorded}

abbrev stores : Epic → Option Error
stores e = none

abbrev answering : Merged → CodeWorkspace
answering m = record {
  merge = λ c head base. m;
  delete_branch = λ c branch. none;
  default_branch = λ r. ok (codes "main");
  checkout = λ c branch base. none;
  push = λ c branch. none;
  inspect_branches = λ e r b heads.
      ok ((codes "gm/fix-A", record { head = codes "f00d"; is_behind = false }) ∷ []);
}

abbrev draw : Draw
draw = record { id = codes "C1"; now = 9 }

abbrev approved_pull_request : PullRequest
approved_pull_request = record sample_pull_request {
  approved = true;
  reviewed_head = codes "beef";
  rounds = pos 1;
  reviews = pos 1;
  coding_rounds = pos 1;
}

abbrev approved_epic : Epic
approved_epic = record sample_epic {
  issues =
      issue_of (codes "R") [] [] Issue.opened
      ∷ issue_of (codes "A") (codes "R") [] Issue.pr
      ∷ issue_of (codes "B") (codes "R") [] Issue.opened
      ∷ [];
  pull_requests = approved_pull_request ∷ [];
}

-- A merge publishes the branch, writes the record and deletes the branch.
merge_run :
    (merge_pull_request stores
      (some (answering landed))
      draw
      (ok approved_epic)
      (codes "P")
      approved_epic).calls
    ≡ merges (checkout_of approved_epic approved_pull_request) (codes "gm/fix-A")
      ∷ updates
      ∷ deletes (checkout_of approved_epic approved_pull_request) (codes "gm/fix-A")
      ∷ []
unfolding merge_pull_request open_pull_request donsy.Epic.Aggregate.find_first donsy.Text.text_eq
    PullRequest.status_eq donsy.Landing.merge_open donsy.Completion.update_epic
    donsy.Epic.Work.transition_pull_request
merge_run = refl

deletes_run :
    any is_delete
      (merge_pull_request stores
        (some (answering landed))
        draw
        (ok approved_epic)
        (codes "P")
        approved_epic).calls
    ≡ true
deletes_run = ap (any is_delete) merge_run

deletes_merged_example :
    (read : Epic) × (p : PullRequest) × (ok approved_epic ≡ ok read)
    × (open_pull_request read (codes "P") ≡ ok p)
    × ((answering landed).merge (checkout_of read p) p.head p.base ≡ landed)
    × Recorded p.id PullRequest.merged approved_epic
        (merge_pull_request stores
          (some (answering landed))
          draw
          (ok approved_epic)
          (codes "P")
          approved_epic).stored
deletes_merged_example =
    deletes_merged stores (answering landed) draw (ok approved_epic) (codes "P") approved_epic
      deletes_run

abbrev conflicting : CodeWorkspace
conflicting = answering (conflicts (codes "both sides"))

open_run : open_pull_request approved_epic (codes "P") ≡ ok approved_pull_request
unfolding open_pull_request donsy.Epic.Aggregate.find_first donsy.Text.text_eq PullRequest.status_eq
open_run = refl

marked_run :
    (update_epic stores
      (stale_update stores draw approved_pull_request (codes "both sides"))
      approved_epic).1
    ≡ none
unfolding update_epic stale_update donsy.Epic.Work.update_pull_request text_eq set_flag
    donsy.Text.trim_space create_comment donsy.Epic.Work.add_pull_request_comment
    donsy.Epic.Aggregate.transition_issue
marked_run = refl

conflict-Recorded_example :
    ((merge_pull_request stores
        (some conflicting)
        draw
        (ok approved_epic)
        (codes "P")
        approved_epic).failed
      ≡ some merge_conflict)
    × CommentRecorded
        (codes "P")
        (set_flag PullRequest.stale true)
        (create_comment
          (codes "C1")
          9
          (codes "merge")
          (conflict_text approved_pull_request (codes "both sides")))
        approved_epic
        (merge_pull_request stores
          (some conflicting)
          draw
          (ok approved_epic)
          (codes "P")
          approved_epic).stored
    × IssueRecorded
        (codes "A")
        Issue.stale
        approved_epic
        (merge_pull_request stores
          (some conflicting)
          draw
          (ok approved_epic)
          (codes "P")
          approved_epic).stored
conflict-Recorded_example =
    conflict-Recorded stores conflicting draw approved_epic (codes "P") approved_pull_request
      (codes "both sides") approved_epic open_run refl marked_run

group_by_remote_exact_example :
    (is_distinct (group_by_remote approved_epic) ≡ true)
    × ((key : Text)
        → records_under key (group_by_remote approved_epic)
          ≡ waiting_under (awaiting_merge approved_epic) key approved_epic.pull_requests)
group_by_remote_exact_example = group_by_remote_exact approved_epic

-- The approved pull request is the one that waits.
waiting_run :
    waiting_under
      (awaiting_merge approved_epic)
      (remote_key (codes "acme/app") (codes "main"))
      approved_epic.pull_requests
    ≡ approved_pull_request ∷ []
unfolding waiting_under awaiting_merge PullRequest.status_eq donsy.Epic.Aggregate.find_issue text_eq
    Issue.issue_state_eq
waiting_run = refl

abbrev moved_branch : BranchState
moved_branch = record { head = codes "f00d"; is_behind = false }

abbrev moved_update : Epic → Outcome Epic
moved_update =
    says_and_moves (codes "P") external_push
      (create_comment (codes "C1") 9 (codes "merge")
        (pushed_text approved_pull_request (codes "f00d")))
      (codes "A") Issue.review

branch_update_run : branch_update draw approved_pull_request moved_branch ≡ some moved_update
unfolding branch_update text_eq
branch_update_run = refl

moved_run : (moved_update approved_epic).1 ≡ none
unfolding donsy.Epic.Work.update_pull_request text_eq donsy.Epic.Rounds.record_external_push
    donsy.Text.trim_space create_comment donsy.Epic.Work.add_pull_request_comment
    donsy.Epic.Aggregate.transition_issue
moved_run = refl

branch_update_ok_example :
    ((false ≡ true)
      × StaleRecorded approved_pull_request approved_epic (moved_update approved_epic).0)
    ⊎ ((false ≡ false)
        × (text_eq (codes "beef") (codes "f00d") ≡ false)
        × PushRecorded draw approved_pull_request
            (codes "f00d")
            approved_epic
            (moved_update approved_epic).0)
branch_update_ok_example =
    branch_update_ok draw approved_pull_request moved_branch moved_update approved_epic
      branch_update_run moved_run

opens_ready_example :
    all
      (λ c.
        epic_state_eq EpicState.ready State.ready
        && is_ready_call approved_epic approved_epic.issues c)
      (open_pull_requests stores
        (λ l. l)
        (λ i. draw)
        (some (answering landed))
        (ok approved_epic)
        approved_epic).landing.calls
    ≡ true
opens_ready_example =
    opens_ready stores (λ l. l) (λ i. draw) (answering landed) approved_epic approved_epic

-- One branch is cut: that of the issue without a pull request.
opens_run :
    (open_pull_requests stores
      (λ l. l)
      (λ i. draw)
      (some (answering landed))
      (ok approved_epic)
      approved_epic).opened
    ≡ 1
unfolding open_pull_requests donsy.Landing.Opening.open_ready epic_state_eq
    donsy.Landing.Opening.resync_blocked donsy.Landing.Opening.stale_flags PullRequest.status_eq
    has_flag donsy.Epic.Work.blocked text_eq donsy.Landing.Opening.open_issues
    donsy.Landing.Opening.is_passed_over donsy.Epic.Work.open_pull_request_for
    donsy.Landing.Opening.open_issue update_epic donsy.Landing.Opening.opening_update
    donsy.Epic.Rounds.create_pull_request donsy.Epic.Aggregate.add_pull_request
    donsy.Epic.Aggregate.branch_name donsy.Slug.slug_max donsy.Slug.slug donsy.Text.trim_space
opens_run = refl

abbrev spent_pull_request : PullRequest
spent_pull_request = record sample_pull_request {
  rounds = pos 10;
  reviews = pos 10;
  coding_rounds = pos 10;
}

abbrev spent_epic : Epic
spent_epic = record approved_epic { pull_requests = spent_pull_request ∷ [] }

grant_run : (grant_use_case stores (codes "P") spent_epic).1 ≡ none
unfolding grant_use_case update_epic donsy.Epic.Work.update_pull_request text_eq
    donsy.Landing.Retrying.grant_round PullRequest.status_eq can_code
    donsy.Epic.Rounds.grant_coding_round donsy.Text.trim_space
grant_run = refl

found_run :
    find_first (pull_request_has_id (codes "P")) spent_epic.pull_requests ≡ some spent_pull_request
unfolding find_first text_eq
found_run = refl

spent-Rationed : Rationed spent_pull_request
spent-Rationed = record { coded = refl; granted = refl; within = omega arith }

grant_use_case_resumes_example :
    (PullRequest.opened ≡ PullRequest.opened)
    × (can_code spent_pull_request ≡ false)
    × ((q : PullRequest) × (find_first
            (pull_request_has_id (codes "P"))
            (grant_use_case stores (codes "P") spent_epic).0.pull_requests
          ≡ some q)
        × (can_code q ≡ true)
        × (has_flag PullRequest.round_limit q ≡ false)
        × (has_flag PullRequest.failed q ≡ false))
grant_use_case_resumes_example =
    grant_use_case_resumes stores (codes "P") spent_epic spent_pull_request found_run spent-Rationed
      (omega arith) grant_run

abbrev delivered_epic : Epic
delivered_epic = record sample_epic {
  issues =
      issue_of (codes "R") [] [] Issue.opened
      ∷ issue_of (codes "A") (codes "R") [] Issue.merged
      ∷ [];
  pull_requests = [];
}

completed_run :
    epic_state_eq
      (complete_delivered stores (ok delivered_epic) delivered_epic).1.0.progress.state
      State.done
    ≡ true
unfolding complete_delivered epic_state_eq delivered update_epic State.apply
completed_run = refl

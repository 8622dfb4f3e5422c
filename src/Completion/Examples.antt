-- ===== src/Completion/Examples.antt =====
-- A round of coding on the small epic, and one whose push fails.
use donsy.Prelude.{
  ◌≡◌, ◌≢◌, refl, true, false, ◌&&◌, not, Bool, Option, none, some, List, [], ◌∷◌, all,
}
use donsy.Text.{Text, codes, is_empty, trim_space, text_eq}
use donsy.Errors.{Error, ok, outside}
use donsy.Slug.{to_lower}
use donsy.Epic.Issue
use donsy.Epic.Issue.{create_comment}
use donsy.Epic.Rounds
use donsy.Epic.Rounds.{record_coding_round, can_code}
use donsy.Epic.Aggregate.{Epic, with_first, find_first, transition_issue}
use donsy.Epic.Work.{add_pull_request_comment}
use donsy.Epic.State
use donsy.Epic.State.{EpicState}
use donsy.Prelude.Int.{pos}
use donsy.Workflow.{has_planned_work}
use donsy.Completion.Drafting.{
  complete_epic_run, refined_update, IsDrafted, complete_epic_run-IsDrafted,
}
use donsy.Completion.Conversation.{comments_since, after_last}
use donsy.Epic.Issue.{Comment}
use donsy.Epic.Sample.{sample_epic, sample_pull_request}
use donsy.Agent
use donsy.PushGate.{
  evaluate_push_gate, protected, normalized, trim_prefix, has_prefix, drop, check_paths,
  check_commits,
}
use donsy.PushGate.Verdict.{is_publishable}
use donsy.Completion.{
  Checkout, Draw, complete, complete_coding, complete_merge, coding_update, publish, gate,
  update_epic, record_round, report, short,
}
use donsy.Completion.Publishing.{pushed_was_gated, run_commits}
use donsy.Completion.Success.{RoleRecorded, complete-RoleRecorded}

abbrev checkout : Checkout
checkout = record {
  commit_all = none;
  descends_from = λ base. ok true;
  commits_since = λ base. ok ((codes "c1", codes "main.go" ∷ []) ∷ []);
  push = λ branch. none;
  resolve = λ branch. ok (codes "c1");
}

abbrev offline : Checkout
offline = record checkout { push = λ branch. some outside }

abbrev draw : Draw
draw = record { id = codes "m1"; now = 9 }

abbrev stores : Epic → Option Error
stores e = none

abbrev judge : Text → Bool
judge answer = false

coding_is_pushed :
    (complete_coding to_lower stores checkout draw
      (codes "b0")
      (codes "Done.")
      sample_pull_request
      sample_epic).pushed
    ≡ true
unfolding complete_coding gate publish evaluate_push_gate check_commits check_paths protected
    normalized trim_prefix has_prefix drop trim_space to_lower
coding_is_pushed = refl

pushed_was_gated_example :
    (descends : Bool) × (infos : List (Text × List Text)) × (checkout.descends_from (codes "b0")
      ≡ ok descends)
    × (checkout.commits_since (codes "b0") ≡ ok infos)
    × ((not (is_empty (trim_space (codes "b0")))
          && all
              (is_publishable to_lower)
              (run_commits to_lower stores checkout draw descends infos))
        ≡ true)
pushed_was_gated_example =
    pushed_was_gated to_lower stores checkout draw (codes "b0") (codes "Done.") sample_pull_request
      sample_epic coding_is_pushed

coding_ends_well :
    (complete to_lower stores checkout draw judge Agent.coding
      (codes "b0")
      (codes "Done.")
      sample_pull_request
      sample_epic).stored.1
    ≡ none
unfolding complete complete_coding coding_update update_epic record_round report short gate publish
    evaluate_push_gate check_commits check_paths protected normalized trim_prefix has_prefix drop
    trim_space to_lower create_comment record_coding_round with_first find_first
    add_pull_request_comment Rounds.add_comment transition_issue Issue.transition_to Rounds.validate
    text_eq
coding_ends_well = refl

complete-RoleRecorded_example :
    RoleRecorded to_lower stores checkout draw Agent.coding false
      (codes "b0")
      (codes "Done.")
      sample_pull_request
      sample_epic
      (complete to_lower stores checkout draw judge Agent.coding
        (codes "b0")
        (codes "Done.")
        sample_pull_request
        sample_epic).stored.0
complete-RoleRecorded_example =
    complete-RoleRecorded to_lower stores checkout draw judge Agent.coding (codes "b0")
      (codes "Done.") sample_pull_request sample_epic coding_ends_well

push_fails :
    (complete to_lower stores offline draw judge Agent.merge
      (codes "b0")
      (codes "Done.")
      sample_pull_request
      sample_epic).stored.1
    ≢ none
unfolding complete complete_merge publish
push_fails = cc

abbrev refining : Epic
refining = record sample_epic {
  progress = record { state = EpicState.refine; drafting_passes = pos 1 };
}

refining_ends_well :
    (complete_epic_run stores (λ e. ok e) judge draw Agent.refiner (codes "Done.") refining).1
    ≡ none
unfolding complete_epic_run refined_update has_planned_work State.apply update_epic
refining_ends_well = refl

complete_epic_run-IsDrafted_example :
    IsDrafted Agent.refiner
      (λ e. ok e)
      draw
      false
      (codes "Done.")
      refining
      (complete_epic_run stores (λ e. ok e) judge draw Agent.refiner (codes "Done.") refining).0
complete_epic_run-IsDrafted_example =
    complete_epic_run-IsDrafted stores (λ e. ok e) judge draw Agent.refiner (codes "Done.") refining
      refining_ends_well

abbrev comment_by : Text → Comment
comment_by author = record { id = codes "m"; author = author; created_at = 4; body = codes "Well." }

abbrev thread : List Comment
thread =
    comment_by (codes "coding")
    ∷ comment_by (codes "pr-reviewer")
    ∷ comment_by (codes "coding")
    ∷ comment_by (codes "ann")
    ∷ []

last_word : comments_since (codes "coding") thread ≡ comment_by (codes "ann") ∷ []
unfolding comments_since after_last text_eq
last_word = refl

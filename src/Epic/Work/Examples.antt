-- ===== src/Epic/Work/Examples.antt =====
-- Outcomes recorded on a small epic, and the theorems at them.
use donsy.Prelude.{refl}
use donsy.Text.{codes, text_eq}
use donsy.Epic.PullRequest
use donsy.Epic.Work.{transition_pull_request}
use donsy.Epic.Work.Outcomes.{Recorded, outcome-Recorded}
use donsy.Epic.Sample.{sample_epic}

outcome-Recorded_example :
    Recorded
      (codes "P")
      PullRequest.closed
      sample_epic
      (transition_pull_request (codes "P") PullRequest.closed sample_epic).0
unfolding transition_pull_request text_eq
outcome-Recorded_example = outcome-Recorded (codes "P") PullRequest.closed sample_epic refl

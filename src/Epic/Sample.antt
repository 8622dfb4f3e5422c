-- ===== src/Epic/Sample.antt =====
-- A small epic, for the examples: a root with two issues under it, one with an open pull request.
use donsy.Prelude.{if◌then◌else◌, false, List, [], ◌∷◌}
use donsy.Prelude.Int.{pos}
use donsy.Text.{Text, codes, is_empty}
use donsy.Epic.State.{EpicState}
use donsy.Epic.Issue
use donsy.Epic.Issue.{Issue, IssueState}
use donsy.Epic.PullRequest
use donsy.Epic.PullRequest.{PullRequest}
use donsy.Epic.Aggregate.{Epic}

abbrev pub issue_of : Text → Text → List Text → IssueState → Issue
issue_of id parent blockers state = record {
  id = id;
  parent_id = parent;
  blocked_by = blockers;
  title = codes "Fix";
  body = [];
  state = state;
  repository = if is_empty parent then [] else codes "acme/app";
  created_at = 3;
  comments = [];
}

abbrev pub sample_pull_request : PullRequest
sample_pull_request = record {
  id = codes "P";
  issue_id = codes "A";
  title = codes "Fix";
  status = PullRequest.opened;
  repository = codes "acme/app";
  number = pos 7;
  url = [];
  head = codes "gm/fix-A";
  base = codes "main";
  flags = [];
  reviewed_head = [];
  reviewed_base = [];
  rounds = pos 0;
  reviews = pos 0;
  rounds_granted = pos 0;
  coding_rounds = pos 0;
  approved = false;
  created_at = 5;
  comments = [];
}

abbrev pub sample_epic : Epic
sample_epic = record {
  id = codes "E";
  title = codes "Scheduler";
  assignee = codes "ann";
  repositories = codes "acme/app" ∷ [];
  body = [];
  progress = record { state = EpicState.ready; drafting_passes = pos 1 };
  branch_prefix = [];
  issues =
      issue_of (codes "R") [] [] Issue.opened
      ∷ issue_of (codes "A") (codes "R") [] Issue.coding
      ∷ issue_of (codes "B") (codes "R") (codes "A" ∷ []) Issue.opened
      ∷ [];
  pull_requests = sample_pull_request ∷ [];
}

-- ===== src/Epic/PullRequest/Examples.antt =====
-- Pull requests with flags and outcomes, and the theorems at them.
use donsy.Prelude.{true, [], ◌∷◌}
use donsy.Prelude.Int.{pos}
use donsy.Text.{codes}
use donsy.Epic.PullRequest.{PullRequest, merged, stale}

abbrev landed : PullRequest
landed = record {
  id = codes "P1";
  issue_id = codes "A";
  title = codes "Fix the scheduler";
  status = merged;
  repository = codes "acme/app";
  number = pos 7;
  url = [];
  head = codes "gm/fix";
  base = codes "main";
  flags = stale ∷ [];
  reviewed_head = [];
  reviewed_base = [];
  rounds = pos 1;
  reviews = pos 1;
  rounds_granted = pos 0;
  coding_rounds = pos 1;
  approved = true;
  created_at = 5;
  comments = [];
}

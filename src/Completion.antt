-- ===== src/Completion.antt =====
-- internal/application/usecases/run_issue_agent.go: what a round on an issue does when the agent has
-- answered. Checkout is what the workspace of the code answers; `write` is the store's `WriteEpic`,
-- and a write that fails leaves what is stored as it was.
pub mod Records
pub mod Publishing
pub mod Success
pub mod Drafting
pub mod Conversation
mod Examples
use donsy.Prelude.{
  ℕ, Bool, true, false, ◌&&◌, not, Option, none, some, List, [], ◌∷◌, ◌++◌, map, ltb, if◌then◌else◌,
}
use donsy.Text.{Text, codes, is_empty, trim_space, byte_length}
use donsy.Slug.{take}
use donsy.Errors.{
  Error, Result, ok, err, ◌>>=◌, Outcome, success, failure, ◌and_then◌, pull_request_not_found,
}
use donsy.Epic.Issue
use donsy.Epic.Issue.{Time, Comment, IssueState, create_comment}
use donsy.Epic.PullRequest.{PullRequest}
use donsy.Epic.Rounds
use donsy.Epic.Rounds.{record_coding_round, record_merge_round, record_review}
use donsy.Epic.Aggregate.{
  Epic, find_first, with_first, pull_request_has_id, on_pull_requests, transition_issue,
}
use donsy.Epic.Work.{add_pull_request_comment}
use donsy.Agent
use donsy.Agent.{AgentRole}
use donsy.PushGate.{RunCommit, evaluate_push_gate}

-- `CommitAll`, `DescendsFrom`, `CommitsSince` (the paths of each commit), `Push` and `Resolve`.
pub record Checkout : Type 0 where
  pub commit_all : Option Error
  pub descends_from : Text → Result Bool
  pub commits_since : Text → Result (List (Text × List Text))
  pub push : Text → Option Error
  pub resolve : Text → Result Text

-- The identifier and the time that `CreateComment` draws.
pub record Draw : Type 0 where
  pub id : Text
  pub now : Time

-- `short`; a hash is ASCII.
unfoldable pub short : Text → Text
short hash = if ltb 8 (byte_length hash) then take 8 hash else hash

-- The comment that `addReport` makes.
unfoldable pub report : Draw → Text → Text → Text → Result Comment
report draw author answer head =
    let body = trim_space answer in
    create_comment draw.id draw.now author (
      if is_empty body
      then codes "The agent returned no report for " ++ short head ++ codes "."
      else body)

-- `addReport`.
abbrev pub commented : Text → Result Comment → Epic → Outcome Epic
commented id (err x) e = failure x e
commented id (ok c) e = add_pull_request_comment id c e

abbrev pub still_valid : Text → Epic → Outcome Epic
still_valid id e = elim (find_first (pull_request_has_id id) e.pull_requests) [
  | none ↦ failure pull_request_not_found e
  | some p ↦ elim (Rounds.validate p) [ ok _ ↦ success e | err x ↦ failure x e ]
]

-- The update of the epic that ends a round: `change` and the comment work on the record of the pull
-- request in the epic, the issue's state on the epic beside it, and then the record is checked.
unfoldable pub record_round :
    Text → (PullRequest → Outcome PullRequest) → Result Comment → IssueState → Epic → Outcome Epic
record_round id change comment next e = elim (find_first (pull_request_has_id id) e.pull_requests) [
  | none ↦ failure pull_request_not_found e
  | some p ↦
      on_pull_requests (with_first (pull_request_has_id id) pull_request_not_found change) e
      and_then commented p.id comment
      and_then transition_issue p.issue_id next
      and_then still_valid id
]

-- The updates of the three rounds, with the commit at the head of the branch.
unfoldable pub coding_update : Draw → Text → PullRequest → Text → Epic → Outcome Epic
coding_update draw answer p head =
    record_round p.id record_coding_round (report draw (codes "coding") answer head) Issue.review

unfoldable pub merge_update : Draw → Text → PullRequest → Text → Epic → Outcome Epic
merge_update draw answer p head =
    record_round p.id (λ r. success (record_merge_round r))
      (report draw (codes "merge") answer head) Issue.review

unfoldable pub review_update : Draw → Bool → Text → Text → PullRequest → Text → Epic → Outcome Epic
review_update draw approved base answer p head =
    record_round p.id (record_review approved head base)
      (report draw (codes "pr-reviewer") answer head) (if approved then Issue.pr else Issue.coding)

-- `UpdateEpic` of the store.
unfoldable pub update_epic : (Epic → Option Error) → (Epic → Outcome Epic) → Epic → Outcome Epic
update_epic write change e =
    let (e', failed) = change e in
    let written : Outcome Epic = elim (write e') [ some x ↦ failure x e | none ↦ success e' ] in
    elim failed [ some x ↦ failure x e | none ↦ written ]

-- What a round leaves: whether it called `Push`, and the epic that is stored.
pub record Completed : Type 0 where
  pub pushed : Bool
  pub stored : Outcome Epic

abbrev unpushed : Error → Epic → Completed
unpushed x e = record { pushed = false; stored = failure x e }

-- `gate`.
unfoldable pub gate : (ℕ → ℕ) → Checkout → Text → Result (Unit {0})
gate lower c base = c.descends_from base >>= λ descends. c.commits_since base >>= λ infos.
    evaluate_push_gate lower base
      (map (λ info. record { hash = info.0; descends_from_base = descends; paths = info.1 }) infos)

-- `Push` and `Resolve`, and the update with the commit that they give.
unfoldable pub publish :
    (Epic → Option Error) → Checkout → Text → (Text → Epic → Outcome Epic) → Epic → Completed
publish write c branch change e =
    let pushed : Outcome Epic = elim (c.resolve branch) [
      | err x ↦ failure x e
      | ok head ↦ update_epic write (change head) e
    ] in
    elim (c.push branch) [
      | some x ↦ record { pushed = true; stored = failure x e }
      | none ↦ record { pushed = true; stored = pushed }
    ]

module _ (lower : ℕ → ℕ) (write : Epic → Option Error) (c : Checkout) (draw : Draw) where
  -- `completeCoding`, `completeMerge` and `completeReview`: `p` is the pull request as the round
  -- found it, `e` the epic as it is stored now.
  unfoldable pub complete_coding : Text → Text → PullRequest → Epic → Completed
  complete_coding base answer p e =
      let published = publish write c p.head (coding_update draw answer p) e in
      let gated : Completed = elim (gate lower c base) [
        | err x ↦ unpushed x e
        | ok _ ↦ published
      ] in
      elim c.commit_all [ some x ↦ unpushed x e | none ↦ gated ]

  unfoldable pub complete_merge : Text → PullRequest → Epic → Completed
  complete_merge answer p e =
      let published = publish write c p.head (merge_update draw answer p) e in
      elim c.commit_all [ some x ↦ unpushed x e | none ↦ published ]

  unfoldable pub complete_review : Bool → Text → Text → PullRequest → Epic → Completed
  complete_review approved base answer p e = elim (c.resolve p.head) [
    | err x ↦ unpushed x e
    | ok head ↦ record {
      pushed = false;
      stored = update_epic write (review_update draw approved base answer p head) e;
    }
  ]

  -- `complete`; `judge` is `ReviewApproved` of the command builder.
  unfoldable pub complete : (Text → Bool) → AgentRole → Text → Text → PullRequest → Epic → Completed
  complete judge Agent.coding base answer p e = complete_coding base answer p e
  complete judge Agent.merge base answer p e = complete_merge answer p e
  complete judge _ base answer p e = complete_review (judge answer) base answer p e

-- ===== src/Completion/Publishing.antt =====
-- What the end of a round publishes and stores.
use donsy.Prelude.{
  ℕ, ◌≡◌, ◌≢◌, Bool, true, ◌&&◌, not, Option, none, List, map, all, arith, inl, inr,
}
use donsy.Text.{Text, is_empty, trim_space}
use donsy.Errors.{Error, ok, Outcome, Result-cases}
use donsy.Epic.PullRequest.{PullRequest}
use donsy.Epic.Aggregate.{Epic}
use donsy.Agent
use donsy.Agent.{AgentRole}
use donsy.PushGate.{RunCommit}
use donsy.PushGate.Verdict.{is_publishable, evaluate_push_gate_iff}
use donsy.Completion.{
  Checkout, Draw, gate, publish, update_epic, complete_coding, complete_merge, complete_review,
  complete, coding_update, merge_update, review_update,
}

pub update_epic-failed :
    (write : Epic → Option Error) (change : Epic → Outcome Epic) (e : Epic)
    → (update_epic write change e).1 ≢ none
    → (update_epic write change e).0 ≡ e
unfolding update_epic
update_epic-failed write change e h = ground arith

module _ (lower : ℕ → ℕ) (write : Epic → Option Error) (c : Checkout) (draw : Draw) where
  -- What the gate asks of the commits of a round.
  abbrev pub run_commits : Bool → List (Text × List Text) → List RunCommit
  run_commits descends infos =
      map (λ info. record { hash = info.0; descends_from_base = descends; paths = info.1 }) infos

  gate_passed :
      (base : Text)
      → gate lower c base ≡ ok tt
      → (descends : Bool) × (infos : List (Text × List Text)) × (c.descends_from base ≡ ok descends)
        × (c.commits_since base ≡ ok infos)
        × ((not (is_empty (trim_space base))
              && all (is_publishable lower) (run_commits descends infos))
            ≡ true)
  unfolding gate
  gate_passed base h = elim (Result-cases (c.descends_from base)) [
    | inr (x, d) ↦ absurd (cc (h, d))
    | inl (descends, d) ↦ elim (Result-cases (c.commits_since base)) [
      | inr (x, s) ↦ absurd (cc (h, d, s))
      | inl (infos, s) ↦ (
        descends,
        infos,
        d,
        s,
        (evaluate_push_gate_iff lower base (run_commits descends infos)).0 (ground arith),
      )
    ]
  ]

  publish-failed :
      (branch : Text) (change : Text → Epic → Outcome Epic) (e : Epic)
      → (publish write c branch change e).stored.1 ≢ none
      → (publish write c branch change e).stored.0 ≡ e
  unfolding publish
  publish-failed branch change e h = elim (Result-cases (c.resolve branch)) [
    | inl (head, r) ↦ ground (arith, update_epic-failed write (change head) e)
    | inr (x, r) ↦ ground arith
  ]

  -- A round of coding calls `Push` only if a base was recorded, every commit since then descends from
  -- it, and none changes a protected path.
  pub pushed_was_gated :
      (base answer : Text) (p : PullRequest) (e : Epic)
      → (complete_coding lower write c draw base answer p e).pushed ≡ true
      → (descends : Bool) × (infos : List (Text × List Text)) × (c.descends_from base ≡ ok descends)
        × (c.commits_since base ≡ ok infos)
        × ((not (is_empty (trim_space base))
              && all (is_publishable lower) (run_commits descends infos))
            ≡ true)
  unfolding complete_coding
  pushed_was_gated base answer p e h = gate_passed base (ground arith)

  coding-failed :
      (base answer : Text) (p : PullRequest) (e : Epic)
      → (complete_coding lower write c draw base answer p e).stored.1 ≢ none
      → (complete_coding lower write c draw base answer p e).stored.0 ≡ e
  unfolding complete_coding
  coding-failed base answer p e h =
      ground (arith, publish-failed p.head (coding_update draw answer p) e)

  merge-failed :
      (answer : Text) (p : PullRequest) (e : Epic)
      → (complete_merge lower write c draw answer p e).stored.1 ≢ none
      → (complete_merge lower write c draw answer p e).stored.0 ≡ e
  unfolding complete_merge
  merge-failed answer p e h = ground (arith, publish-failed p.head (merge_update draw answer p) e)

  review-failed :
      (approved : Bool) (base answer : Text) (p : PullRequest) (e : Epic)
      → (complete_review lower write c draw approved base answer p e).stored.1 ≢ none
      → (complete_review lower write c draw approved base answer p e).stored.0 ≡ e
  unfolding complete_review
  review-failed approved base answer p e h = elim (Result-cases (c.resolve p.head)) [
    | inl (head, r) ↦
        ground (arith, update_epic-failed write (review_update draw approved base answer p head) e)
    | inr (x, r) ↦ ground arith
  ]

  -- If `complete` gives an error, then it leaves the stored epic as it was. The comment that the
  -- handler makes of the failure comes after it.
  pub completion_atomic :
      (judge : Text → Bool) (role : AgentRole) (base answer : Text) (p : PullRequest) (e : Epic)
      → (complete lower write c draw judge role base answer p e).stored.1 ≢ none
      → (complete lower write c draw judge role base answer p e).stored.0 ≡ e
  unfolding complete
  completion_atomic judge Agent.coding base answer p e h = coding-failed base answer p e h
  completion_atomic judge Agent.merge base answer p e h = merge-failed answer p e h
  completion_atomic judge Agent.refiner base answer p e h =
      review-failed (judge answer) base answer p e h
  completion_atomic judge Agent.issue_reviewer base answer p e h =
      review-failed (judge answer) base answer p e h
  completion_atomic judge Agent.pr_reviewer base answer p e h =
      review-failed (judge answer) base answer p e h
  completion_atomic judge (AgentRole.unknown t) base answer p e h =
      review-failed (judge answer) base answer p e h

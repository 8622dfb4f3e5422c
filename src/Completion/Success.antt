-- ===== src/Completion/Success.antt =====
-- A round on an issue that ends without an error, for each role.
use mathlib.Core.Path.{subst}
use donsy.Prelude.{ℕ, ◌≡◌, refl, sym, ap, ◌∙◌, inl, inr, Bool, Option, none, arith, if◌then◌else◌}
use donsy.Text.{Text, codes}
use donsy.Errors.{Error, ok, Outcome, success, Result-cases}
use donsy.Epic.Issue
use donsy.Epic.Issue.{IssueState}
use donsy.Epic.PullRequest.{PullRequest, remove_flag, set_flag}
use donsy.Epic.Rounds.{record_coding_round, record_merge_round, record_review}
use donsy.Epic.Aggregate.{Epic}
use donsy.Agent
use donsy.Agent.{AgentRole}
use donsy.Completion.{
  Checkout, Draw, report, publish, update_epic, coding_update, merge_update, review_update,
  complete_coding, complete_merge, complete_review, complete,
}
use donsy.Completion.Records.{RoundRecorded, record_round-RoundRecorded}

-- What a round of a role does to the record, who reports it, and where the issue goes.
abbrev pub change_of : AgentRole → Bool → Text → Text → PullRequest → Outcome PullRequest
change_of Agent.coding approved head base p = record_coding_round p
change_of Agent.merge approved head base p = success (record_merge_round p)
change_of _ approved head base p = record_review approved head base p

abbrev pub author_of : AgentRole → Text
author_of Agent.coding = codes "coding"
author_of Agent.merge = codes "merge"
author_of _ = codes "pr-reviewer"

abbrev pub next_of : AgentRole → Bool → IssueState
next_of Agent.coding approved = Issue.review
next_of Agent.merge approved = Issue.review
next_of _ approved = if approved then Issue.pr else Issue.coding

coding_round-id : (p : PullRequest) → (record_coding_round p).0.id ≡ p.id
unfolding record_coding_round remove_flag set_flag
coding_round-id p = ground arith

merge_round-id : (p : PullRequest) → (record_merge_round p).id ≡ p.id
unfolding record_merge_round remove_flag
merge_round-id p = refl

review-id :
    (approved : Bool) (head base : Text) (p : PullRequest)
    → (record_review approved head base p).0.id ≡ p.id
unfolding record_review remove_flag set_flag
review-id approved head base p = ground arith

module _ (lower : ℕ → ℕ) (write : Epic → Option Error) (c : Checkout) (draw : Draw) where
  update_epic_ok :
      (change : Epic → Outcome Epic) (e : Epic)
      → (update_epic write change e).1 ≡ none
      → ((change e).1 ≡ none) × ((update_epic write change e).0 ≡ (change e).0)
  unfolding update_epic
  update_epic_ok change e h = ground arith

  publish_ok :
      (branch : Text) (change : Text → Epic → Outcome Epic) (e : Epic)
      → (publish write c branch change e).stored.1 ≡ none
      → (head : Text) × (c.resolve branch ≡ ok head)
        × ((change head e).1 ≡ none)
        × ((publish write c branch change e).stored.0 ≡ (change head e).0)
  unfolding publish
  publish_ok branch change e h = elim (Result-cases (c.resolve branch)) [
    | inr (x, r) ↦ absurd (ground arith)
    | inl (head, r) ↦
        let u = update_epic_ok (change head) e (ground arith) in (head, r, u.0, ground arith)
  ]

  coding_is_publish :
      (base answer : Text) (p : PullRequest) (e : Epic)
      → (complete_coding lower write c draw base answer p e).stored.1 ≡ none
      → complete_coding lower write c draw base answer p e
        ≡ publish write c p.head (coding_update draw answer p) e
  unfolding complete_coding
  coding_is_publish base answer p e h = ground arith

  merge_is_publish :
      (answer : Text) (p : PullRequest) (e : Epic)
      → (complete_merge lower write c draw answer p e).stored.1 ≡ none
      → complete_merge lower write c draw answer p e
        ≡ publish write c p.head (merge_update draw answer p) e
  unfolding complete_merge
  merge_is_publish answer p e h = ground arith

  -- What each role has recorded when it ends without an error.
  abbrev pub RoleRecorded : AgentRole → Bool → Text → Text → PullRequest → Epic → Epic → Type 0
  RoleRecorded role approved base answer p e u =
      (head : Text) × (c.resolve p.head ≡ ok head)
      × RoundRecorded p.id (change_of role approved head base)
          (report draw (author_of role) answer head) (next_of role approved) e u

  coding-RoleRecorded :
      (approved : Bool) (base answer : Text) (p : PullRequest) (e : Epic)
      → (complete_coding lower write c draw base answer p e).stored.1 ≡ none
      → RoleRecorded Agent.coding approved base answer p e
          (complete_coding lower write c draw base answer p e).stored.0
  coding-RoleRecorded approved base answer p e h =
      let same = coding_is_publish base answer p e h in
      let (head, r, done, kept) =
        publish_ok p.head (coding_update draw answer p) e (ap (λ x. x.stored.1) (sym same) ∙ h) in
      (
        head,
        r,
        subst
            (RoundRecorded p.id record_coding_round (report draw (codes "coding") answer head)
              Issue.review e)
            (sym (ap (λ x. x.stored.0) same ∙ kept))
            (unfold coding_update in
              record_round-RoundRecorded p.id record_coding_round
                (report draw (codes "coding") answer head) Issue.review coding_round-id e done),
      )

  merge-RoleRecorded :
      (approved : Bool) (base answer : Text) (p : PullRequest) (e : Epic)
      → (complete_merge lower write c draw answer p e).stored.1 ≡ none
      → RoleRecorded Agent.merge approved base answer p e
          (complete_merge lower write c draw answer p e).stored.0
  merge-RoleRecorded approved base answer p e h =
      let same = merge_is_publish answer p e h in
      let (head, r, done, kept) =
        publish_ok p.head (merge_update draw answer p) e (ap (λ x. x.stored.1) (sym same) ∙ h) in
      (
        head,
        r,
        subst
            (RoundRecorded p.id (λ q. success (record_merge_round q))
              (report draw (codes "merge") answer head) Issue.review e)
            (sym (ap (λ x. x.stored.0) same ∙ kept))
            (unfold merge_update in
              record_round-RoundRecorded p.id (λ q. success (record_merge_round q))
                (report draw (codes "merge") answer head) Issue.review merge_round-id e done),
      )

  review-RoleRecorded :
      (approved : Bool) (base answer : Text) (p : PullRequest) (e : Epic)
      → (complete_review lower write c draw approved base answer p e).stored.1 ≡ none
      → RoleRecorded Agent.pr_reviewer approved base answer p e
          (complete_review lower write c draw approved base answer p e).stored.0
  unfolding complete_review
  review-RoleRecorded approved base answer p e h = elim (Result-cases (c.resolve p.head)) [
    | inr (x, r) ↦ absurd (ground arith)
    | inl (head, r) ↦
        let change = review_update draw approved base answer p head in
        let u = update_epic_ok change e (ground arith) in
        let kept : (complete_review lower write c draw approved base answer p e).stored.0
            ≡ (change e).0 =
          ground arith in
        (
          head,
          r,
          subst
              (RoundRecorded p.id (record_review approved head base)
                (report draw (codes "pr-reviewer") answer head)
                (if approved then Issue.pr else Issue.coding) e)
              (sym kept)
              (unfold review_update in
                record_round-RoundRecorded p.id (record_review approved head base)
                  (report draw (codes "pr-reviewer") answer head)
                  (if approved then Issue.pr else Issue.coding) (review-id approved head base) e
                  u.0),
        )
  ]

  -- A round that ends without an error has its counters and verdict on the first pull request under
  -- its identifier, at the commit that its branch has, and its report as the last comment; the record
  -- is valid, and the issue is in Review after coding and merging, in Pr after an approval, and in
  -- Coding after a review that asks for changes.
  pub complete-RoleRecorded :
      (judge : Text → Bool) (role : AgentRole) (base answer : Text) (p : PullRequest) (e : Epic)
      → (complete lower write c draw judge role base answer p e).stored.1 ≡ none
      → RoleRecorded role
          (judge answer)
          base
          answer
          p
          e
          (complete lower write c draw judge role base answer p e).stored.0
  unfolding complete
  complete-RoleRecorded judge Agent.coding base answer p e h =
      coding-RoleRecorded (judge answer) base answer p e h
  complete-RoleRecorded judge Agent.merge base answer p e h =
      merge-RoleRecorded (judge answer) base answer p e h
  complete-RoleRecorded judge Agent.refiner base answer p e h =
      review-RoleRecorded (judge answer) base answer p e h
  complete-RoleRecorded judge Agent.issue_reviewer base answer p e h =
      review-RoleRecorded (judge answer) base answer p e h
  complete-RoleRecorded judge Agent.pr_reviewer base answer p e h =
      review-RoleRecorded (judge answer) base answer p e h
  complete-RoleRecorded judge (AgentRole.unknown t) base answer p e h =
      review-RoleRecorded (judge answer) base answer p e h

-- ===== src/Landing/Merging.antt =====
-- What the merge of a pull request publishes and records.
use mathlib.Core.Path.{subst}
use donsy.Prelude.{
  ◌≡◌, refl, sym, ap, ◌∙◌, inl, inr, Bool, true, false, Option, none, some, [], any, arith,
  Option-cases,
}
use donsy.Text.{Text, codes}
use donsy.Errors.{Error, Result, ok, err, Result-cases, merge_conflict}
use donsy.Epic.Issue
use donsy.Epic.Issue.{create_comment}
use donsy.Epic.PullRequest
use donsy.Epic.PullRequest.{PullRequest, set_flag}
use donsy.Epic.Aggregate.{Epic}
use donsy.Epic.Work.{transition_pull_request}
use donsy.Epic.Work.Outcomes.{Recorded, outcome-Recorded}
use donsy.Completion.{Draw, update_epic}
use donsy.Completion.Drafting.{update_epic_ok}
use donsy.Landing.{
  landed, conflicts, CodeWorkspace, CodeCheckout, CodeCall, deletes, Landing, open_pull_request,
  checkout_of, conflict_text, stale_update, merge_open, merge_pull_request,
}
use donsy.Landing.Updates.{CommentRecorded, IssueRecorded, says_and_moves_ok}

abbrev pub is_delete : CodeCall → Bool
is_delete (deletes c b) = true
is_delete _ = false

set_flag-id : (p : PullRequest) → (set_flag PullRequest.stale true p).0.id ≡ p.id
unfolding set_flag PullRequest.add_flag PullRequest.has_flag
set_flag-id p = ground arith

module _ (write : Epic → Option Error) (code : CodeWorkspace) (draw : Draw) where
  merge_open_deletes :
      (c : CodeCheckout) (p : PullRequest) (e : Epic)
      → any is_delete (merge_open write code draw c p e).calls ≡ true
      → (code.merge c p.head p.base ≡ landed)
        × ((transition_pull_request p.id PullRequest.merged e).1 ≡ none)
        × ((merge_open write code draw c p e).stored
            ≡ (transition_pull_request p.id PullRequest.merged e).0)
  unfolding merge_open
  merge_open_deletes c p e h =
      elim (Option-cases
        (update_epic write (transition_pull_request p.id PullRequest.merged) e).1) [
          | inl n ↦
              let up = update_epic_ok write (transition_pull_request p.id PullRequest.merged) e n in
              (ground arith, up.0, ground (arith, up.1))
          | inr (x, n) ↦ absurd (ground arith)
        ]

  merge_found :
      (read : Epic) (id : Text) (p : PullRequest) (e : Epic)
      → open_pull_request read id ≡ ok p
      → merge_pull_request write (some code) draw (ok read) id e
        ≡ merge_open write code draw (checkout_of read p) p e
  unfolding merge_pull_request
  merge_found read id p e o = rw (o, merge_pull_request) refl

  merge_missing :
      (read : Epic) (id : Text) (x : Error) (e : Epic)
      → open_pull_request read id ≡ err x
      → (merge_pull_request write (some code) draw (ok read) id e).calls ≡ []
  unfolding merge_pull_request
  merge_missing read id x e o = rw (o, merge_pull_request) refl

  -- If the use case calls for the deletion of a branch, then the epic could be read and the pull
  -- request was open in it, the merge of its head onto its base gave no error, and the stored epic
  -- has its pull request, until then open, as merged, and the issue of that pull request as merged.
  pub deletes_merged :
      (current : Result Epic) (id : Text) (e : Epic)
      → any is_delete (merge_pull_request write (some code) draw current id e).calls ≡ true
      → (read : Epic) × (p : PullRequest) × (current ≡ ok read)
        × (open_pull_request read id ≡ ok p)
        × (code.merge (checkout_of read p) p.head p.base ≡ landed)
        × Recorded p.id PullRequest.merged e
            (merge_pull_request write (some code) draw current id e).stored
  unfolding merge_pull_request
  deletes_merged (err x) id e h = absurd (ground arith)
  deletes_merged (ok read) id e h = elim (Result-cases (open_pull_request read id)) [
    | inr (x, o) ↦ absurd (ground (arith, merge_missing read id x e o))
    | inl (p, o) ↦
        let found = merge_found read id p e o in
        let (l, t, s) =
          merge_open_deletes (checkout_of read p) p e
            (sym (ap (λ (r : Landing). any is_delete r.calls) found) ∙ h) in
        (
          read,
          p,
          refl,
          o,
          l,
          subst (λ (u : Epic). Recorded p.id PullRequest.merged e u)
              (sym (ap (λ (r : Landing). r.stored) found ∙ s))
              (outcome-Recorded p.id PullRequest.merged e t),
        )
  ]

  merge_open_conflicts :
      (c : CodeCheckout) (p : PullRequest) (text : Text) (e : Epic)
      → code.merge c p.head p.base ≡ conflicts text
      → (update_epic write (stale_update write draw p text) e).1 ≡ none
      → ((merge_open write code draw c p e).failed ≡ some merge_conflict)
        × ((merge_open write code draw c p e).stored
            ≡ (update_epic write (stale_update write draw p text) e).0)
  unfolding merge_open
  merge_open_conflicts c p text e m u = (ground arith, ground arith)

  -- If the merge of an open pull request conflicts and the update behind it gives no error, the use
  -- case reports the conflict; the stored pull request is flagged stale, without another change
  -- than the comment with the conflict, which is its last, and the issue is Stale.
  pub conflict-Recorded :
      (read : Epic) (id : Text) (p : PullRequest) (text : Text) (e : Epic)
      → open_pull_request read id ≡ ok p
      → code.merge (checkout_of read p) p.head p.base ≡ conflicts text
      → (update_epic write (stale_update write draw p text) e).1 ≡ none
      → ((merge_pull_request write (some code) draw (ok read) id e).failed ≡ some merge_conflict)
        × CommentRecorded p.id
            (set_flag PullRequest.stale true)
            (create_comment draw.id draw.now (codes "merge") (conflict_text p text))
            e
            (merge_pull_request write (some code) draw (ok read) id e).stored
        × IssueRecorded p.issue_id Issue.stale e
            (merge_pull_request write (some code) draw (ok read) id e).stored
  unfolding stale_update
  conflict-Recorded read id p text e o m u =
      let found = merge_found read id p e o in
      let (f, s) = merge_open_conflicts (checkout_of read p) p text e m u in
      let (t, v) = update_epic_ok write (stale_update write draw p text) e u in
      let comment = create_comment draw.id draw.now (codes "merge") (conflict_text p text) in
      let done =
        says_and_moves_ok p.id (set_flag PullRequest.stale true) comment p.issue_id Issue.stale e
          set_flag-id t in
      let stored = sym (ap (λ (r : Landing). r.stored) found ∙ s ∙ v) in
      (
        ap (λ (r : Landing). r.failed) found ∙ f,
        subst (λ (w : Epic). CommentRecorded p.id (set_flag PullRequest.stale true) comment e w)
            stored done.0,
        subst (λ (w : Epic). IssueRecorded p.issue_id Issue.stale e w) stored done.1,
      )

-- ===== src/Disposal/Abandoned.antt =====
-- Which branches a close deletes.
use mathlib.Core.Path.{subst}
use donsy.Prelude.{
  ◌≡◌, refl, sym, inl, inr, Bool, true, ◌&&◌, Option, none, some, List, [], ◌∷◌, any, all, all_mono,
  arith, Option-cases,
}
use donsy.Text.{Text, text_eq}
use donsy.Text.Equality.{text_eq_iff}
use donsy.Errors.{Error, Outcome}
use donsy.Epic.PullRequest
use donsy.Epic.PullRequest.{PullRequest, status_eq}
use donsy.Epic.Aggregate.{Epic, Branch, abandoned_among, abandoned_branches}
use donsy.Completion.{update_epic}
use donsy.Completion.Drafting.{update_epic_ok}
use donsy.Landing.{CodeWorkspace}
use donsy.Disposal.{
  open_pull_request_ids, branches_among, newly_abandoned, delete_abandoned_branches, close_with,
}

-- The pull request of a branch, as it was open, and as it is closed.
abbrev pub is_of_open : List PullRequest → Branch → Bool
is_of_open ps b =
    any (λ p. text_eq b.pull_request_id p.id && status_eq p.status PullRequest.opened) ps

abbrev pub is_of_closed : List PullRequest → Branch → Bool
is_of_closed ps b =
    any
      (λ p.
        text_eq b.pull_request_id p.id
        && text_eq b.name p.head
        && text_eq b.repository p.repository
        && status_eq p.status PullRequest.closed)
      ps

any-open_pull_request_ids :
    (b : Branch) (ps : List PullRequest)
    → any (text_eq b.pull_request_id) (open_pull_request_ids ps) ≡ is_of_open ps b
unfolding open_pull_request_ids
any-open_pull_request_ids b [] = refl
any-open_pull_request_ids b (p ∷ rest) = ground (arith, any-open_pull_request_ids b rest)

same_text : (t : Text) → text_eq t t ≡ true
same_text t = (text_eq_iff t t).1 refl

abandoned_are_closed : (ps : List PullRequest) → all (is_of_closed ps) (abandoned_among ps) ≡ true
unfolding abandoned_among
abandoned_are_closed [] = refl
abandoned_are_closed (p ∷ rest) =
    let wider =
      all_mono (is_of_closed rest) (is_of_closed (p ∷ rest)) (abandoned_among rest)
        (λ b k. ground arith) (abandoned_are_closed rest) in
    ground (arith, wider, same_text p.id, same_text p.head, same_text p.repository)

branches_among_kept :
    (P : Branch → Bool) (was_open : List Text) (bs : List Branch)
    → all P bs ≡ true
    → all (λ b. any (text_eq b.pull_request_id) was_open && P b) (branches_among was_open bs) ≡ true
unfolding branches_among
branches_among_kept P was_open [] h = refl
branches_among_kept P was_open (b ∷ rest) h = ground (arith, branches_among_kept P was_open rest)

newly_abandoned_spares :
    (e u : Epic)
    → all
        (λ b. is_of_open e.pull_requests b && is_of_closed u.pull_requests b)
        (newly_abandoned u (open_pull_request_ids e.pull_requests))
      ≡ true
unfolding newly_abandoned abandoned_branches
newly_abandoned_spares e u =
    let ids = open_pull_request_ids e.pull_requests in
    let P = is_of_closed u.pull_requests in
    all_mono (λ b. any (text_eq b.pull_request_id) ids && P b)
      (λ b. is_of_open e.pull_requests b && P b)
      (branches_among ids (abandoned_among u.pull_requests))
      (λ b k. ground (arith, any-open_pull_request_ids b e.pull_requests))
      (branches_among_kept P ids (abandoned_among u.pull_requests)
        (abandoned_are_closed u.pull_requests))

deleted_spares :
    (P : Branch → Bool) (code : Option CodeWorkspace) (id : Text) (bs : List Branch)
    → all P bs ≡ true
    → all P (delete_abandoned_branches code id bs).0 ≡ true
unfolding delete_abandoned_branches
deleted_spares P none id bs h = refl
deleted_spares P (some code) id bs h = h

-- Each branch that a close deletes is that of a pull request which was open in the stored epic and
-- is closed, with this branch as its head, in the epic that the close has stored; a close that
-- could not be stored deletes none.
pub close_with_spares :
    (write : Epic → Option Error) (code : Option CodeWorkspace) (change : Epic → Outcome Epic)
    (id : Text) (e : Epic)
    → all
        (λ b.
          is_of_open e.pull_requests b
          && is_of_closed (close_with write code change id e).stored.pull_requests b)
        (close_with write code change id e).deleted
      ≡ true
unfolding close_with
close_with_spares write code change id e = elim (Option-cases (update_epic write change e).1) [
  | inr (x, f) ↦ ground arith
  | inl f ↦
      let stored = (update_epic_ok write change e f).1 in
      let ids = open_pull_request_ids e.pull_requests in
      let fresh : Epic → Branch → Bool =
        λ u b. is_of_open e.pull_requests b && is_of_closed u.pull_requests b in
      let kept =
        deleted_spares (fresh (change e).0) code id (newly_abandoned (change e).0 ids)
          (newly_abandoned_spares e (change e).0) in
      let said =
        subst
          (λ (u : Epic).
            all (fresh u) (delete_abandoned_branches code id (newly_abandoned (change e).0 ids)).0
            ≡ true)
          (sym stored) kept in
      ground (arith, said)
]

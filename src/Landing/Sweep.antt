-- ===== src/Landing/Sweep.antt =====
-- review_approved_branches.go: the sweep over the branches that wait for a merge.
use mathlib.Core.Path.{subst}
use donsy.Prelude.{
  ◌≡◌, ◌⊎◌, Option-cases, refl, sym, ap, ◌∙◌, inl, inr, Bool, true, false, Option, none, some, List,
  [], ◌∷◌, ◌++◌, all, any, all_append, arith, Bool-cases, if◌then◌else◌,
}
use donsy.Prelude.Int.{inc}
use donsy.Text.{Text, codes, text_eq, trim_space}
use donsy.Errors.{Error, Result, ok, err, Outcome, success, Result-cases}
use donsy.Epic.Issue
use donsy.Epic.Issue.{create_comment, set_comment_body, Comment}
use donsy.Epic.PullRequest
use donsy.Epic.PullRequest.{PullRequest, set_flag, flag_eq}
use donsy.Epic.Rounds
use donsy.Epic.Rounds.{record_external_push, invalidate_review}
use donsy.Epic.Aggregate.{Epic, find_first, pull_request_has_id}
use donsy.Completion.{Draw, update_epic, short}
use donsy.Landing.{BranchState, CodeWorkspace}
use donsy.Landing.Updates.{
  moves, moves_ok, says_and_moves, says_and_moves_ok, ChangeRecorded, CommentRecorded,
  IssueRecorded,
}
use donsy.Landing.Grouping.{
  RemoteGroup, heads, awaiting_merge, add_to_group, group_from, group_by_remote,
}

-- The text of the comment that `sendBackToReview` makes.
unfoldable pub pushed_text : PullRequest → Text → Text
pushed_text p head =
    codes "`"
    ++ p.head
    ++ codes "` was pushed to outside the loop and is now at "
    ++ short head
    ++ codes ", which the approval did not cover. Sending it back for review."

abbrev pub external_push : PullRequest → Outcome PullRequest
external_push p = success (record_external_push p)

-- `apply`: the update that the state of a branch asks for, if it asks for one.
unfoldable pub branch_update : Draw → PullRequest → BranchState → Option (Epic → Outcome Epic)
branch_update draw p state =
    if state.is_behind
    then some (moves p.id (set_flag PullRequest.stale true) p.issue_id Issue.stale)
    else if text_eq p.reviewed_head state.head
    then none
    else some (
        says_and_moves p.id external_push
          (create_comment draw.id draw.now (codes "merge") (pushed_text p state.head)) p.issue_id
          Issue.review)

-- What a sweep leaves: the pull requests that it updated, the stored epic, and its errors.
pub record Swept : Type 0 where
  pub updated : List PullRequest
  pub stored : Epic
  pub errors : List Error

unfoldable pub state_of : Text → List (Text × BranchState) → Option BranchState
state_of head [] = none
state_of head ((name, state) ∷ rest) =
    let more = state_of head rest in if text_eq name head then some state else more

module _ (write : Epic → Option Error) (draws : Text → Draw) where
  abbrev pub also : PullRequest → Swept → Swept
  also p s = record s { updated = p ∷ s.updated }

  abbrev pub failing_with : Option Error → Swept → Swept
  failing_with none s = s
  failing_with (some x) s = record s { errors = x ∷ s.errors }

  -- The loop over the records of a group, the epic being stored.
  unfoldable pub sweep_records : List (Text × BranchState) → List PullRequest → Epic → Swept
  sweep_records states [] e = record { updated = []; stored = e; errors = [] }
  sweep_records states (p ∷ rest) e =
      let unchanged = sweep_records states rest e in
      let on_update : (Epic → Outcome Epic) → Swept = λ change. also p (
        failing_with (update_epic write change e).1
          (sweep_records states rest (update_epic write change e).0)) in
      elim (state_of p.head states) [
        | none ↦ unchanged
        | some state ↦ elim (branch_update (draws p.id) p state) [
          | none ↦ unchanged
          | some change ↦ on_update change
        ]
      ]

  abbrev pub followed_by : Swept → Swept → Swept
  followed_by s t = record {
    updated = s.updated ++ t.updated;
    stored = t.stored;
    errors = s.errors ++ t.errors;
  }

  -- The loop over the groups, and `Handle`.
  unfoldable pub sweep_groups : CodeWorkspace → Text → List RemoteGroup → Epic → Swept
  sweep_groups code epic_id [] e = record { updated = []; stored = e; errors = [] }
  sweep_groups code epic_id (g ∷ rest) e =
      let skipped = sweep_groups code epic_id rest e in
      let swept : List (Text × BranchState) → Swept = λ states.
        followed_by (sweep_records states g.records e)
          (sweep_groups code epic_id rest (sweep_records states g.records e).stored) in
      elim (code.inspect_branches epic_id g.repository g.base (heads g)) [
        | err x ↦ failing_with (some x) skipped
        | ok states ↦ swept states
      ]

  unfoldable pub review_approved_branches : Option CodeWorkspace → Result Epic → Epic → Swept
  review_approved_branches none read e = record { updated = []; stored = e; errors = [] }
  review_approved_branches (some code) (err x) e = record {
    updated = [];
    stored = e;
    errors = x ∷ [];
  }
  review_approved_branches (some code) (ok current) e =
      sweep_groups code current.id (group_by_remote current) e

set_flag-id : (p : PullRequest) → (set_flag PullRequest.stale true p).0.id ≡ p.id
unfolding set_flag PullRequest.add_flag PullRequest.has_flag
set_flag-id p = ground arith

external_push-id : (p : PullRequest) → (external_push p).0.id ≡ p.id
unfolding record_external_push
external_push-id p = refl

-- A pull request with the flag once, and no other change.
abbrev pub flagged_stale : PullRequest → PullRequest
flagged_stale q =
    if any (λ f. flag_eq f PullRequest.stale) q.flags
    then q
    else record q { flags = q.flags ++ PullRequest.stale ∷ [] }

stale_ok : (q : PullRequest) → (set_flag PullRequest.stale true q).0 ≡ flagged_stale q
unfolding set_flag PullRequest.add_flag PullRequest.has_flag PullRequest.is_pull_request_flag
stale_ok q = ground arith

-- What a branch that is behind leaves, and what one that was pushed to leaves.
abbrev pub StaleRecorded : PullRequest → Epic → Epic → Type 0
StaleRecorded p e u =
    ((q : PullRequest) × (find_first (pull_request_has_id p.id) e.pull_requests ≡ some q)
      × (find_first (pull_request_has_id p.id) u.pull_requests ≡ some (flagged_stale q))
      × (Rounds.validate (flagged_stale q) ≡ ok tt))
    × IssueRecorded p.issue_id Issue.stale e u

behind_is_stale :
    (p : PullRequest) (e u : Epic)
    → ChangeRecorded p.id (set_flag PullRequest.stale true) e u
      × IssueRecorded p.issue_id Issue.stale e u
    → StaleRecorded p e u
behind_is_stale p e u ((q, f, k, g, v), moved) = (
  (
    q,
    f,
    g ∙ ap some (stale_ok q),
    subst (λ (x : PullRequest). Rounds.validate x ≡ ok tt) (stale_ok q) v,
  ),
  moved,
)

abbrev pub pushed_comment : Draw → PullRequest → Text → Comment
pushed_comment draw p head = record {
  id = draw.id;
  author = codes "merge";
  created_at = draw.now;
  body = pushed_text p head;
}

-- A pull request with one round more, no approval, no reviewed commits and one comment more.
abbrev pub withdrawn : Comment → PullRequest → PullRequest
withdrawn c q = record q {
  rounds = inc q.rounds;
  approved = false;
  reviewed_head = [];
  reviewed_base = [];
  comments = q.comments ++ c ∷ [];
}

abbrev pub PushRecorded : Draw → PullRequest → Text → Epic → Epic → Type 0
PushRecorded draw p head e u =
    ((q : PullRequest) × (find_first (pull_request_has_id p.id) e.pull_requests ≡ some q)
      × (find_first (pull_request_has_id p.id) u.pull_requests
          ≡ some (withdrawn (pushed_comment draw p head) q)))
    × IssueRecorded p.issue_id Issue.review e u

pushed_comment_ok :
    (draw : Draw) (p : PullRequest) (head : Text) (c : Comment)
    → create_comment draw.id draw.now (codes "merge") (pushed_text p head) ≡ ok c
    → c ≡ pushed_comment draw p head
unfolding create_comment set_comment_body trim_space
pushed_comment_ok draw p head c h = ground arith

push_withdraws :
    (draw : Draw) (p : PullRequest) (head : Text) (e u : Epic)
    → CommentRecorded p.id external_push
        (create_comment draw.id draw.now (codes "merge") (pushed_text p head))
        e
        u
      × IssueRecorded p.issue_id Issue.review e u
    → PushRecorded draw p head e u
unfolding record_external_push invalidate_review
push_withdraws draw p head e u ((q, f, k, (c, made, g)), moved) = (
  (q, f, g ∙ ap (λ (d : Comment). some (withdrawn d q)) (pushed_comment_ok draw p head c made)),
  moved,
)

-- If the state of a branch asks for an update and the update gives no error, then either the branch
-- is behind, its pull request, which is valid, is flagged stale without another change, and the
-- issue is Stale; or it is not behind and its head is not the reviewed one, its pull request counts
-- one round more, has neither an approval nor reviewed commits, has a comment with the head as its
-- last, and is otherwise as it was, and the issue is in Review.
pub branch_update_ok :
    (draw : Draw) (p : PullRequest) (state : BranchState) (change : Epic → Outcome Epic) (e : Epic)
    → branch_update draw p state ≡ some change
    → (change e).1 ≡ none
    → ((state.is_behind ≡ true) × StaleRecorded p e (change e).0)
      ⊎ ((state.is_behind ≡ false)
          × (text_eq p.reviewed_head state.head ≡ false)
          × PushRecorded draw p state.head e (change e).0)
unfolding branch_update
branch_update_ok draw p state change e h k =
    let comment = create_comment draw.id draw.now (codes "merge") (pushed_text p state.head) in
    elim (Bool-cases state.is_behind) [
      | inl b ↦
          let asked : change ≡ moves p.id (set_flag PullRequest.stale true) p.issue_id Issue.stale =
            ground arith in
          inl (
            b,
            subst (λ f. StaleRecorded p e (f e).0) (sym asked)
                (behind_is_stale p e
                  (moves p.id (set_flag PullRequest.stale true) p.issue_id Issue.stale e).0
                  (moves_ok p.id (set_flag PullRequest.stale true) p.issue_id Issue.stale e
                    set_flag-id (ap (λ f. (f e).1) (sym asked) ∙ k))),
          )
      | inr b ↦
          let asked : change ≡ says_and_moves p.id external_push comment p.issue_id Issue.review =
            ground arith in
          inr (
            b,
            ground arith,
            subst (λ f. PushRecorded draw p state.head e (f e).0) (sym asked)
                (push_withdraws draw p state.head e
                  (says_and_moves p.id external_push comment p.issue_id Issue.review e).0
                  (says_and_moves_ok p.id external_push comment p.issue_id Issue.review e
                    external_push-id (ap (λ f. (f e).1) (sym asked) ∙ k))),
          )
    ]

awaits_in : Epic → List RemoteGroup → Bool
awaits_in current gs = all (λ g. all (awaiting_merge current) g.records) gs

add_to_group_awaits :
    (current : Epic) (p : PullRequest) (gs : List RemoteGroup)
    → awaiting_merge current p ≡ true
    → awaits_in current gs ≡ true
    → awaits_in current (add_to_group p gs) ≡ true
unfolding add_to_group awaits_in
add_to_group_awaits current p [] h k = ground arith
add_to_group_awaits current p (g ∷ rest) h k = ground (
  arith,
  add_to_group_awaits current p rest h,
  all_append (awaiting_merge current) g.records (p ∷ []),
)

group_from_awaits :
    (current : Epic) (ps : List PullRequest) (gs : List RemoteGroup)
    → awaits_in current gs ≡ true
    → awaits_in current (group_from (awaiting_merge current) gs ps) ≡ true
unfolding group_from
group_from_awaits current [] gs k = k
group_from_awaits current (p ∷ rest) gs k = ground (
  arith,
  group_from_awaits current rest gs k,
  add_to_group_awaits current p gs,
  group_from_awaits current rest (add_to_group p gs),
)

module _ (write : Epic → Option Error) (draws : Text → Draw) (current : Epic) where
  sweep_records_awaits :
      (states : List (Text × BranchState)) (ps : List PullRequest) (e : Epic)
      → all (awaiting_merge current) ps ≡ true
      → all (awaiting_merge current) (sweep_records write draws states ps e).updated ≡ true
  unfolding sweep_records
  sweep_records_awaits states [] e h = refl
  sweep_records_awaits states (p ∷ rest) e h = elim (Option-cases (state_of p.head states)) [
    | inl n ↦ ground (arith, sweep_records_awaits states rest e)
    | inr (state, n) ↦ elim (Option-cases (branch_update (draws p.id) p state)) [
      | inl m ↦ ground (arith, sweep_records_awaits states rest e)
      | inr (change, m) ↦
          ground (arith, sweep_records_awaits states rest (update_epic write change e).0)
    ]
  ]

  sweep_groups_awaits :
      (code : CodeWorkspace) (gs : List RemoteGroup) (e : Epic)
      → awaits_in current gs ≡ true
      → all (awaiting_merge current) (sweep_groups write draws code current.id gs e).updated ≡ true
  unfolding sweep_groups awaits_in
  sweep_groups_awaits code [] e h = refl
  sweep_groups_awaits code (g ∷ rest) e h =
      elim (Result-cases (code.inspect_branches current.id g.repository g.base (heads g))) [
        | inr (x, i) ↦ ground (arith, sweep_groups_awaits code rest e)
        | inl (states, i) ↦
            let here = sweep_records write draws states g.records e in
            ground (
              arith,
              sweep_records_awaits states g.records e,
              sweep_groups_awaits code rest here.stored,
              all_append (awaiting_merge current) here.updated
                  (sweep_groups write draws code current.id rest here.stored).updated,
            )
      ]

-- A sweep updates only pull requests that wait for a merge.
pub sweep_awaits :
    (write : Epic → Option Error) (draws : Text → Draw) (code : Option CodeWorkspace)
    (current e : Epic)
    → all
        (awaiting_merge current)
        (review_approved_branches write draws code (ok current) e).updated
      ≡ true
unfolding review_approved_branches
sweep_awaits write draws none current e = refl
sweep_awaits write draws (some code) current e =
    sweep_groups_awaits write draws current code (group_by_remote current) e (
      unfold group_by_remote in
      group_from_awaits current current.pull_requests [] (unfold awaits_in in refl))

-- ===== src/Workflow/Roles.antt =====
-- What role runs next on a pull request, and how the roles follow each other.
use donsy.Prelude.{
  ◌≡◌, refl, ap, ◌∙◌, ◌↔◌, Bool, true, false, ◌&&◌, not, Option, none, some, arith, if◌then◌else◌,
}
use donsy.Prelude.Int.{ltb_ℤ}
use donsy.Text.{Text}
use donsy.Errors.{ok}
use donsy.Epic.State.{EpicState, epic_state_eq}
use donsy.Epic.PullRequest.{
  PullRequest, opened, status_eq, has_flag, stale, failed, round_limit, flag_eq, set_flag,
  remove_flag,
}
use donsy.Epic.Rounds.{can_code, record_coding_round, record_review, record_merge_round, validate}
use donsy.Epic.Rounds.Validity.{HasRoom}
use donsy.Epic.Rounds.Limit.{
  coded, judged, coding_round_outcome, merge_round_outcome, review_outcome,
}
use donsy.Epic.PullRequest.Flags.{has_flag-remove_flag, has_flag-set_flag}
use donsy.Epic.Aggregate.{Epic}
use donsy.Epic.Work.{blocked}
use donsy.Agent
use donsy.Agent.{AgentRole}
use donsy.Workflow.{issue_role}

-- The pull request can be worked on: its epic is ready, it is open, and nothing blocks its issue.
abbrev pub is_workable : Epic → PullRequest → Bool
is_workable e p =
    epic_state_eq e.state EpicState.ready && status_eq p.status opened && not (blocked p.issue_id e)

-- The cycle of the documentation, read off one record.
abbrev pub cycle : PullRequest → Option AgentRole
cycle p =
    if has_flag stale p
    then some Agent.merge
    else if ltb_ℤ p.reviews p.rounds
    then some Agent.pr_reviewer
    else if not p.approved && can_code p
    then some Agent.coding
    else none

issue_role-workable :
    (e : Epic) (p : PullRequest) → issue_role e p ≡ (if is_workable e p then cycle p else none)
unfolding issue_role
issue_role-workable e p = ground arith

-- `IssueRole` gives `coding` exactly for a pull request that is open, of a ready epic in which
-- nothing blocks its issue, that is not stale, has no more rounds than reviews, is not approved
-- and has a coding round left.
pub issue_role_coding_iff :
    (e : Epic) (p : PullRequest)
    → (issue_role e p ≡ some Agent.coding) ↔ (
        (is_workable e p
          && not (has_flag stale p)
          && not (ltb_ℤ p.reviews p.rounds)
          && not p.approved
          && can_code p)
        ≡ true)
unfolding issue_role
issue_role_coding_iff e p = ((λ h. ground arith), λ h. ground arith)

role_of :
    (e : Epic) (p r : PullRequest)
    → is_workable e p ≡ true
    → r.status ≡ p.status
    → r.issue_id ≡ p.issue_id
    → issue_role e r ≡ cycle r
role_of e p r h s i =
    let w : is_workable e r ≡ true = rw (s, i) h in
    issue_role-workable e r ∙ ap (λ (b : Bool). if b then cycle r else none) w

-- What the two flag writes at the end of a round keep.
abbrev finished : Bool → PullRequest → PullRequest
finished b c = (set_flag round_limit b (remove_flag failed c)).0

finished-keeps :
    (b : Bool) (c : PullRequest)
    → ((finished b c).status ≡ c.status)
      × ((finished b c).issue_id ≡ c.issue_id)
      × (has_flag stale (finished b c) ≡ has_flag stale c)
unfolding set_flag remove_flag flag_eq
finished-keeps b c = (
  ground arith,
  ground arith,
  has_flag-set_flag round_limit stale b (remove_flag failed c) refl
      ∙ has_flag-remove_flag failed stale c,
)

coding_round-keeps :
    (p : PullRequest)
    → let r = (record_coding_round p).0 in
      (r.status ≡ p.status) × (r.issue_id ≡ p.issue_id) × (has_flag stale r ≡ has_flag stale p)
unfolding record_coding_round has_flag
coding_round-keeps p = finished-keeps (not (can_code (remove_flag failed (coded p)))) (coded p)

review-keeps :
    (approved : Bool) (head base : Text) (p : PullRequest)
    → let r = (record_review approved head base p).0 in
      (r.status ≡ p.status) × (r.issue_id ≡ p.issue_id) × (has_flag stale r ≡ has_flag stale p)
unfolding record_review has_flag
review-keeps approved head base p =
    let c = judged approved head base p in
    finished-keeps (not approved && not (can_code (remove_flag failed c))) c

review-can_code :
    (approved : Bool) (head base : Text) (p : PullRequest)
    → can_code (record_review approved head base p).0 ≡ can_code p
unfolding record_review set_flag remove_flag can_code
review-can_code approved head base p = ground arith

cycle_owed :
    (r : PullRequest)
    → has_flag stale r ≡ false
    → ltb_ℤ r.reviews r.rounds ≡ true
    → cycle r ≡ some Agent.pr_reviewer
cycle_owed r s o = ground arith

cycle_judged :
    (r : PullRequest)
    → has_flag stale r ≡ false
    → ltb_ℤ r.reviews r.rounds ≡ false
    → cycle r ≡ (if not r.approved && can_code r then some Agent.coding else none)
cycle_judged r s o = ground arith

-- After a coding round on a valid pull request that can be worked on, that is not stale and whose
-- counters have room, the reviewer runs next.
pub coding_then_review :
    (e : Epic) (p : PullRequest)
    → is_workable e p ≡ true
    → has_flag stale p ≡ false
    → validate p ≡ ok tt
    → HasRoom p
    → issue_role e (record_coding_round p).0 ≡ some Agent.pr_reviewer
coding_then_review e p w s v room =
    let r = (record_coding_round p).0 in
    let kept = coding_round-keeps p in
    let outcome = coding_round_outcome p v room in
    role_of e p r w kept.0 kept.1 ∙ cycle_owed r (kept.2 ∙ s) outcome.4

-- After a review of a pull request that can be worked on and is not stale, coding runs next if the
-- review refused it and a coding round is left; otherwise nothing does.
pub review_then_coding :
    (approved : Bool) (head base : Text) (e : Epic) (p : PullRequest)
    → is_workable e p ≡ true
    → has_flag stale p ≡ false
    → issue_role e (record_review approved head base p).0
      ≡ (if not approved && can_code p then some Agent.coding else none)
review_then_coding approved head base e p w s =
    let r = (record_review approved head base p).0 in
    let kept = review-keeps approved head base p in
    let outcome = review_outcome approved head base p in
    role_of e p r w kept.0 kept.1
    ∙ cycle_judged r (kept.2 ∙ s) outcome.5
    ∙ rw (outcome.3, review-can_code approved head base p) refl

-- After a merge round on a valid pull request that can be worked on and whose counters have room,
-- the reviewer runs next, stale or not as it was.
pub merge_then_review :
    (e : Epic) (p : PullRequest)
    → is_workable e p ≡ true
    → validate p ≡ ok tt
    → HasRoom p
    → issue_role e (record_merge_round p) ≡ some Agent.pr_reviewer
merge_then_review e p w v room =
    let r = record_merge_round p in
    let outcome = merge_round_outcome p v room in
    role_of e p r w (unfold record_merge_round in refl) (unfold record_merge_round in refl)
    ∙ cycle_owed r outcome.0 outcome.4

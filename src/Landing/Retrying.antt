-- ===== src/Landing/Retrying.antt =====
-- grant_coding_round.go and complete_epic.go.
use donsy.Prelude.{
  ◌+◌, ◌<◌, ◌≡◌, refl, sym, ap, ◌∙◌, Bool, true, false, ◌||◌, not, Option, none, some, arith,
  if◌then◌else◌,
}
use donsy.Prelude.Int.{pos_part, two63, inc, inc-parts}
use donsy.Text.{Text}
use donsy.Errors.{Error, Result, ok, err, Outcome, success, failure, not_open, coding_rounds_left}
use donsy.Epic.State
use donsy.Epic.State.{epic_state_eq, EpicEvent}
use donsy.Epic.PullRequest
use donsy.Epic.PullRequest.{PullRequest, status_eq, has_flag, remove_flag}
use donsy.Epic.Rounds.{can_code, grant_coding_round}
use donsy.Epic.Rounds.Rationing.{Rationed, can_code-eq-ltb}
use donsy.Epic.Rounds.Limit.{set_round_limit, not_failed}
use donsy.Completion.Drafting.{update_epic_ok}
use donsy.Epic.Aggregate.{Epic, on_progress, find_first, pull_request_has_id}
use donsy.Epic.Work.{update_pull_request, delivered}
use donsy.Completion.{update_epic}
use donsy.Landing.Updates.{update_pull_request_ok}

-- The change that `GrantCodingRoundUseCase` makes.
unfoldable pub grant_round : PullRequest → Outcome PullRequest
grant_round p =
    if not (status_eq p.status PullRequest.opened)
    then failure not_open p
    else if can_code p
    then failure coding_rounds_left p
    else grant_coding_round p

unfoldable pub grant_use_case : (Epic → Option Error) → Text → Epic → Outcome Epic
grant_use_case write id e = update_epic write (update_pull_request id grant_round) e

-- `CompleteEpicUseCase.Handle`: what it reports, and what it leaves.
unfoldable pub complete_delivered : (Epic → Option Error) → Result Epic → Epic → Bool × Outcome Epic
complete_delivered write (err x) e = (false, failure x e)
complete_delivered write (ok current) e =
    if not (epic_state_eq current.progress.state State.ready) || not (delivered current)
    then (false, success e)
    else (true, update_epic write (on_progress (State.apply EpicEvent.done)) e)

grant_round-id : (p : PullRequest) → (grant_round p).0.id ≡ p.id
unfolding grant_round grant_coding_round PullRequest.set_flag PullRequest.add_flag
    PullRequest.remove_flag PullRequest.has_flag
grant_round-id p = ground arith

grant_round_ok :
    (p : PullRequest)
    → (grant_round p).1 ≡ none
    → (p.status ≡ PullRequest.opened)
      × (can_code p ≡ false)
      × ((grant_round p).0 ≡ (grant_coding_round p).0)
unfolding grant_round status_eq
grant_round_ok p h = ground arith

grant_resumes :
    (p : PullRequest)
    → Rationed p
    → pos_part p.rounds_granted + 12 < two63
    → (can_code (grant_coding_round p).0 ≡ true)
      × (has_flag PullRequest.round_limit (grant_coding_round p).0 ≡ false)
      × (has_flag PullRequest.failed (grant_coding_round p).0 ≡ false)
unfolding grant_coding_round
grant_resumes p v room =
    let granted =
      remove_flag PullRequest.failed (record p { rounds_granted = inc p.rounds_granted }) in
    let able : can_code granted ≡ true =
      unfold remove_flag in
      ground (
        arith,
        v.coded,
        v.granted,
        v.within,
        inc-parts p.rounds_granted,
        can_code-eq-ltb (record p { rounds_granted = inc p.rounds_granted }),
      ) in
    let limited = set_round_limit (not (can_code granted)) granted in
    (
      limited.3 ∙ able,
      limited.1 ∙ ap not able,
      limited.2 ∙ not_failed (record p { rounds_granted = inc p.rounds_granted }),
    )

-- If the retry of a pull request with rationed counters below the overflow gives no error, then the
-- pull request was open with its rounds spent, and the stored one may take a coding round and has
-- neither the limit's flag nor the failure flag.
pub grant_use_case_resumes :
    (write : Epic → Option Error) (id : Text) (e : Epic) (p : PullRequest)
    → find_first (pull_request_has_id id) e.pull_requests ≡ some p
    → Rationed p
    → pos_part p.rounds_granted + 12 < two63
    → (grant_use_case write id e).1 ≡ none
    → (p.status ≡ PullRequest.opened)
      × (can_code p ≡ false)
      × ((q : PullRequest) × (find_first
              (pull_request_has_id id)
              (grant_use_case write id e).0.pull_requests
            ≡ some q)
          × (can_code q ≡ true)
          × (has_flag PullRequest.round_limit q ≡ false)
          × (has_flag PullRequest.failed q ≡ false))
unfolding grant_use_case
grant_use_case_resumes write id e p f v room h =
    let change = update_pull_request id grant_round in
    let (done, stored) = update_epic_ok write change e h in
    let (q, found, changed, now, valid) =
      update_pull_request_ok id grant_round e grant_round-id done in
    let same : q ≡ p = ground arith in
    let changed_p = ap (λ r. (grant_round r).1) (sym same) ∙ changed in
    let (opened, spent, result) = grant_round_ok p changed_p in
    let (a, b, c) = grant_resumes p v room in
    (
      opened,
      spent,
      (
        (grant_coding_round p).0,
        ap (λ (s : Epic). find_first (pull_request_has_id id) s.pull_requests) stored
            ∙ now
            ∙ ap some (ap (λ r. (grant_round r).0) same ∙ result),
        a,
        b,
        c,
      ),
    )

-- If the use case leaves an epic Done that was not, then the epic that it read was Ready with its
-- work delivered, the stored one was Ready, and there is no error.
pub completes_delivered :
    (write : Epic → Option Error) (read : Result Epic) (e : Epic)
    → epic_state_eq e.progress.state State.done ≡ false
    → epic_state_eq (complete_delivered write read e).1.0.progress.state State.done ≡ true
    → (current : Epic) × (read ≡ ok current)
      × (current.progress.state ≡ State.ready)
      × (delivered current ≡ true)
      × (e.progress.state ≡ State.ready)
      × ((complete_delivered write read e).1.1 ≡ none)
unfolding complete_delivered update_epic State.apply State.epic_transition epic_state_eq
completes_delivered write (err x) e h k = absurd (ground arith)
completes_delivered write (ok current) e h k =
    (current, refl, ground arith, ground arith, ground arith, ground arith)

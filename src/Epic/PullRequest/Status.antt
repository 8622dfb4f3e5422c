-- ===== src/Epic/PullRequest/Status.antt =====
-- The status machine: open, and two outcomes that are final.
use donsy.Prelude.{◌≡◌, ◌≢◌, ◌||◌, ◌&&◌, if◌then◌else◌, ◌↔◌, true, some, arith}
use donsy.Text.Equality.{text_eq_iff}
use donsy.Errors.{succeeds}
use donsy.Epic.PullRequest.{
  PullRequestStatus, opened, closed, merged, PullRequestEvent, PullRequest, status_eq,
  is_pull_request_status, pull_request_transition, pull_request_event_for_transition, apply,
  transition_to,
}

pub status_eq_iff : (a b : PullRequestStatus) → (status_eq a b ≡ true) ↔ (a ≡ b)
unfolding status_eq
status_eq_iff (PullRequestStatus.unknown s) (PullRequestStatus.unknown t) =
    ground (arith, text_eq_iff s t)
status_eq_iff _ _ = ground arith

-- The event that is chosen for a change of status is exactly the event that makes it.
pub status_event_iff :
    (current next : PullRequestStatus) (event : PullRequestEvent)
    → (pull_request_event_for_transition current next ≡ some event)
      ↔ (pull_request_transition current event ≡ some next)
unfolding pull_request_event_for_transition pull_request_transition
status_event_iff opened next event = ground arith
status_event_iff _ next event = ground arith

-- Of a record with one of the three statuses, `TransitionTo` succeeds exactly for the status that
-- it has already and, if it is open, for the two outcomes. It then changes the status alone, and
-- otherwise nothing.
pub status_move :
    (next : PullRequestStatus) (p : PullRequest)
    → is_pull_request_status p.status ≡ true
    → (succeeds (transition_to next p) ≡ (
        status_eq p.status next
        || (status_eq p.status opened && (status_eq next merged || status_eq next closed))))
      × ((transition_to next p).0
          ≡ (if succeeds (transition_to next p) then record p { status = next } else p))
unfolding transition_to
status_move next p v =
    (ground (arith, status_eq_iff p.status next), ground (arith, status_eq_iff p.status next))

-- A record that is not open stays as it is under every event and every change of status.
pub outcome_final :
    (event : PullRequestEvent) (next : PullRequestStatus) (p : PullRequest)
    → p.status ≢ opened
    → ((apply event p).0 ≡ p) × ((transition_to next p).0 ≡ p)
unfolding apply transition_to
outcome_final event next p h = ground (arith, status_eq_iff p.status next)

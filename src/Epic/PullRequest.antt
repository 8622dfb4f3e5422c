-- ===== src/Epic/PullRequest.antt =====
-- internal/domain/epic/pull_request.go, pull_request_status.go, pull_request_state.go and
-- pull_request_flag.go: the record of a pull request, its status machine and its flags. Its round
-- counters are in Rounds.antt.
pub mod Flags
pub mod Status
mod Examples
use donsy.Prelude.{
  ℕ, Bool, true, false, ◌||◌, ◌&&◌, not, Option, none, some, List, [], ◌∷◌, ◌++◌, any, all,
  if◌then◌else◌,
}
use donsy.Prelude.Int.{ℤ, pos, inc, add_const, ltb_ℤ}
use donsy.Text.{Text, text_eq, is_empty, trim_space}
use donsy.Errors.{
  Error, Result, ok, err, ◌>>=◌, Outcome, success, failure, ◌and_then◌, invalid_status,
  no_status_event, no_status_transition, pull_request_fields_required, invalid_flag, unknown_flag,
  negative_rounds, too_many_reviews, too_many_coding_rounds,
}
use donsy.Epic.Issue.{Time, Comment, validate_comment}

-- Go string types: `unknown` is a text that is none of the constants.
pub data PullRequestStatus : Type 0 where
  opened closed merged : PullRequestStatus
  unknown : Text → PullRequestStatus

pub data PullRequestEvent : Type 0 where
  merge close : PullRequestEvent
  unknown : Text → PullRequestEvent

pub data PullRequestFlag : Type 0 where
  blocked round_limit failed human_needed stale : PullRequestFlag
  unknown : Text → PullRequestFlag

pub record PullRequest : Type 0 where
  pub id : Text
  pub issue_id : Text
  pub title : Text
  pub status : PullRequestStatus
  pub repository : Text
  pub number : ℤ
  pub url : Text
  pub head : Text
  pub base : Text
  pub flags : List PullRequestFlag
  pub reviewed_head : Text
  pub reviewed_base : Text
  pub rounds : ℤ
  pub reviews : ℤ
  pub rounds_granted : ℤ
  pub coding_rounds : ℤ
  pub approved : Bool
  pub created_at : Time
  pub comments : List Comment

-- `a == b` on statuses and on flags.
unfoldable pub status_eq : PullRequestStatus → PullRequestStatus → Bool
status_eq opened opened = true
status_eq closed closed = true
status_eq merged merged = true
status_eq (PullRequestStatus.unknown s) (PullRequestStatus.unknown t) = text_eq s t
status_eq _ _ = false

unfoldable pub flag_eq : PullRequestFlag → PullRequestFlag → Bool
flag_eq blocked blocked = true
flag_eq round_limit round_limit = true
flag_eq failed failed = true
flag_eq human_needed human_needed = true
flag_eq stale stale = true
flag_eq (PullRequestFlag.unknown s) (PullRequestFlag.unknown t) = text_eq s t
flag_eq _ _ = false

unfoldable pub is_pull_request_status : PullRequestStatus → Bool
is_pull_request_status (PullRequestStatus.unknown s) = false
is_pull_request_status _ = true

unfoldable pub pull_request_transition :
    PullRequestStatus → PullRequestEvent → Option PullRequestStatus
pull_request_transition opened merge = some merged
pull_request_transition opened close = some closed
pull_request_transition _ _ = none

unfoldable pub pull_request_event_for_transition :
    PullRequestStatus → PullRequestStatus → Option PullRequestEvent
pull_request_event_for_transition opened merged = some merge
pull_request_event_for_transition opened closed = some close
pull_request_event_for_transition _ _ = none

unfoldable pub apply : PullRequestEvent → PullRequest → Outcome PullRequest
unfolding is_pull_request_status pull_request_transition
apply event p =
    if not (is_pull_request_status p.status)
    then failure invalid_status p
    else elim (pull_request_transition p.status event) [
      | none ↦ failure no_status_event p
      | some next ↦ success (record p { status = next })
    ]

unfoldable pub transition_to : PullRequestStatus → PullRequest → Outcome PullRequest
unfolding is_pull_request_status status_eq pull_request_event_for_transition apply
transition_to next p =
    if not (is_pull_request_status next)
    then failure invalid_status p
    else if status_eq p.status next
    then success p
    else elim (pull_request_event_for_transition p.status next) [
      | none ↦ failure no_status_transition p
      | some event ↦ apply event p
    ]

unfoldable pub is_pull_request_flag : PullRequestFlag → Bool
is_pull_request_flag (PullRequestFlag.unknown s) = false
is_pull_request_flag _ = true

-- `HasFlag` over the list of flags.
unfoldable pub has_flag : PullRequestFlag → PullRequest → Bool
unfolding flag_eq
has_flag flag p = any (λ current. flag_eq current flag) p.flags

unfoldable pub add_flag : PullRequestFlag → PullRequest → Outcome PullRequest
unfolding is_pull_request_flag has_flag
add_flag flag p =
    if not (is_pull_request_flag flag)
    then failure unknown_flag p
    else if has_flag flag p
    then success p
    else success (record p { flags = p.flags ++ flag ∷ [] })

-- The loop of `RemoveFlag`. An empty result and `nil` are one list here.
unfoldable pub remaining_flags : PullRequestFlag → List PullRequestFlag → List PullRequestFlag
unfolding flag_eq
remaining_flags flag [] = []
remaining_flags flag (current ∷ rest) =
    let more = remaining_flags flag rest in if flag_eq current flag then more else current ∷ more

unfoldable pub remove_flag : PullRequestFlag → PullRequest → PullRequest
unfolding remaining_flags
remove_flag flag p = record p { flags = remaining_flags flag p.flags }

unfoldable pub set_flag : PullRequestFlag → Bool → PullRequest → Outcome PullRequest
unfolding add_flag remove_flag
set_flag flag present p = if present then add_flag flag p else success (remove_flag flag p)

-- ===== src/Epic/Rounds.antt =====
-- internal/domain/epic/pull_request.go: the round counters of a pull request and its verdicts,
-- what makes a record valid, and its creation.
pub mod Validity
pub mod Limit
pub mod Rationing
mod Examples
use donsy.Prelude.{
  ℕ, Bool, true, false, ◌||◌, ◌&&◌, not, Option, none, some, List, [], ◌∷◌, ◌++◌, any, all,
  if◌then◌else◌,
}
use donsy.Prelude.Int.{ℤ, pos, inc, add_const, ltb_ℤ}
use donsy.Text.{Text, text_eq, is_empty, trim_space}
use donsy.Errors.{
  Error, Result, ok, err, ◌>>=◌, Outcome, success, failure, ◌and_then◌, invalid_status,
  no_status_event, no_status_transition, pull_request_fields_required, invalid_flag, unknown_flag,
  negative_rounds, too_many_reviews, too_many_coding_rounds,
}
use donsy.Epic.Issue.{Time, Comment, validate_comment}
use donsy.Epic.PullRequest.{
  PullRequestStatus, opened, PullRequest, round_limit, failed, stale, is_pull_request_status,
  is_pull_request_flag, remove_flag, set_flag,
}

-- `MaxCodingRounds`.
abbrev pub max_coding_rounds : ℕ
max_coding_rounds = 10

unfoldable pub review_is_stale : Text → Text → PullRequest → Bool
unfolding text_eq
review_is_stale head base p =
    not (text_eq p.reviewed_head head) || not (text_eq p.reviewed_base base)

-- `p.CodingRounds < MaxCodingRounds+p.RoundsGranted`.
unfoldable pub can_code : PullRequest → Bool
unfolding add_const
can_code p = ltb_ℤ p.coding_rounds (add_const max_coding_rounds p.rounds_granted)

unfoldable pub invalidate_review : PullRequest → PullRequest
invalidate_review p = record p { approved = false; reviewed_head = []; reviewed_base = [] }

unfoldable pub record_coding_round : PullRequest → Outcome PullRequest
unfolding inc invalidate_review remove_flag set_flag can_code
record_coding_round p =
    let counted = record p { rounds = inc p.rounds; coding_rounds = inc p.coding_rounds } in
    let cleared = remove_flag failed (invalidate_review counted) in
    set_flag round_limit (not (can_code cleared)) cleared

unfoldable pub grant_coding_round : PullRequest → Outcome PullRequest
unfolding inc remove_flag set_flag can_code
grant_coding_round p =
    let granted = remove_flag failed (record p { rounds_granted = inc p.rounds_granted }) in
    set_flag round_limit (not (can_code granted)) granted

unfoldable pub record_merge_round : PullRequest → PullRequest
unfolding inc invalidate_review remove_flag
record_merge_round p =
    remove_flag stale (remove_flag failed (invalidate_review (record p { rounds = inc p.rounds })))

unfoldable pub record_external_push : PullRequest → PullRequest
unfolding inc invalidate_review
record_external_push p = invalidate_review (record p { rounds = inc p.rounds })

unfoldable pub record_review : Bool → Text → Text → PullRequest → Outcome PullRequest
unfolding remove_flag set_flag can_code
record_review approved head base p =
    let judged = record p {
      reviews = p.rounds;
      approved = approved;
      reviewed_head = head;
      reviewed_base = base;
    } in
    let cleared = remove_flag failed judged in
    set_flag round_limit (not approved && not (can_code cleared)) cleared

-- The first comment that `Validate` refuses ends its loop.
unfoldable pub validate_comments : List Comment → Result (Unit {0})
unfolding validate_comment
validate_comments [] = ok tt
validate_comments (c ∷ rest) = validate_comment c >>= λ _. validate_comments rest

abbrev is_negative : ℤ → Bool
is_negative n = ltb_ℤ n (pos 0)

-- `(p PullRequest) Validate`.
unfoldable pub validate : PullRequest → Result (Unit {0})
unfolding is_pull_request_status is_pull_request_flag validate_comments
validate p =
    if is_empty p.id || is_empty p.issue_id || is_empty (trim_space p.title)
    then err pull_request_fields_required
    else if not (is_pull_request_status p.status)
    then err invalid_status
    else if not (all is_pull_request_flag p.flags)
    then err invalid_flag
    else if is_negative p.rounds
        || is_negative p.reviews
        || is_negative p.rounds_granted
        || is_negative p.coding_rounds
    then err negative_rounds
    else if ltb_ℤ p.rounds p.reviews
    then err too_many_reviews
    else if ltb_ℤ p.rounds p.coding_rounds
    then err too_many_coding_rounds
    else validate_comments p.comments

-- The identifier and the time are those that `MintULID` and the clock give.
unfoldable pub create_pull_request :
    Text → Time → Text → Text → Text → Text → Text → Result PullRequest
unfolding validate
create_pull_request id now issue_id title repository head base =
    let p : PullRequest = record {
      id = id;
      issue_id = issue_id;
      title = trim_space title;
      status = opened;
      repository = trim_space repository;
      number = pos 0;
      url = [];
      head = trim_space head;
      base = trim_space base;
      flags = [];
      reviewed_head = [];
      reviewed_base = [];
      rounds = pos 0;
      reviews = pos 0;
      rounds_granted = pos 0;
      coding_rounds = pos 0;
      approved = false;
      created_at = now;
      comments = [];
    } in
    validate p >>= λ _. ok p

-- `(p *PullRequest) AddComment`.
unfoldable pub add_comment : Comment → PullRequest → Outcome PullRequest
unfolding validate_comment
add_comment comment p = elim (validate_comment comment) [
  | err e ↦ failure e p
  | ok _ ↦ success (record p { comments = p.comments ++ comment ∷ [] })
]

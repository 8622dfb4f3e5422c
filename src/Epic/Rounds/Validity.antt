-- ===== src/Epic/Rounds/Validity.antt =====
-- Every method that counts a round keeps a valid record valid, below the overflow of the counters.
use donsy.Prelude.{
  ◌+◌, ◌≤◌, ◌<◌, ◌≡◌, refl, Bool, true, false, ◌||◌, List, [], ◌∷◌, ◌++◌, all, arith,
}
use donsy.Prelude.Int.{pos_part, neg_part, inc, two63, inc-parts}
use donsy.Text.{Text, is_empty, trim_space}
use donsy.Errors.{ok}
use donsy.Epic.PullRequest.{
  PullRequestFlag, PullRequest, round_limit, failed, stale, is_pull_request_status,
  is_pull_request_flag, remaining_flags, remove_flag, set_flag,
}
use donsy.Epic.Rounds.{
  invalidate_review, record_coding_round, grant_coding_round, record_merge_round,
  record_external_push, record_review, validate, validate_comments,
}

-- What `Validate` accepts, as facts: the counters are not negative, and neither the reviews nor
-- the coding rounds pass the rounds.
pub record IsValid (p : PullRequest) : Type 0 where
  pub identified : (is_empty p.id || is_empty p.issue_id || is_empty (trim_space p.title)) ≡ false
  pub status : is_pull_request_status p.status ≡ true
  pub flags : all is_pull_request_flag p.flags ≡ true
  pub rounds : neg_part p.rounds ≡ 0
  pub reviews : neg_part p.reviews ≡ 0
  pub granted : neg_part p.rounds_granted ≡ 0
  pub coded : neg_part p.coding_rounds ≡ 0
  pub reviews_le : pos_part p.reviews ≤ pos_part p.rounds
  pub coded_le : pos_part p.coding_rounds ≤ pos_part p.rounds
  pub comments : validate_comments p.comments ≡ ok tt

pub validate-IsValid : (p : PullRequest) → validate p ≡ ok tt → IsValid p
unfolding validate
validate-IsValid p h = record {
  identified = ground arith;
  status = ground arith;
  flags = ground arith;
  rounds = ground arith;
  reviews = ground arith;
  granted = ground arith;
  coded = ground arith;
  reviews_le = ground arith;
  coded_le = ground arith;
  comments = ground arith;
}

pub validate_of_IsValid : (p : PullRequest) → IsValid p → validate p ≡ ok tt
unfolding validate
validate_of_IsValid p v = ground arith

known-remaining :
    (f : PullRequestFlag) (flags : List PullRequestFlag)
    → all is_pull_request_flag flags ≡ true
    → all is_pull_request_flag (remaining_flags f flags) ≡ true
unfolding remaining_flags
known-remaining f [] h = refl
known-remaining f (c ∷ rest) h = ground (arith, known-remaining f rest)

known-append :
    (f : PullRequestFlag) (flags : List PullRequestFlag)
    → all is_pull_request_flag flags ≡ true
    → is_pull_request_flag f ≡ true
    → all is_pull_request_flag (flags ++ f ∷ []) ≡ true
known-append f [] h k = ground arith
known-append f (c ∷ rest) h k = ground (arith, known-append f rest)

-- The parts that the flags' methods leave alone.
pub remove_flag-IsValid :
    (f : PullRequestFlag) (p : PullRequest) → IsValid p → IsValid (remove_flag f p)
unfolding remove_flag
remove_flag-IsValid f p v = ground (arith, known-remaining f p.flags)

pub set_flag-IsValid :
    (f : PullRequestFlag) (b : Bool) (p : PullRequest)
    → is_pull_request_flag f ≡ true
    → IsValid p
    → IsValid (set_flag f b p).0
unfolding set_flag
set_flag-IsValid f true p k v = ground (arith, known-append f p.flags)
set_flag-IsValid f false p k v = ground (arith, known-remaining f p.flags)

-- The counters that a method increments are not at their greatest value.
abbrev pub HasRoom : PullRequest → Type 0
HasRoom p = (pos_part p.rounds + 1 < two63) × (pos_part p.rounds_granted + 1 < two63)

invalidate_review-IsValid : (p : PullRequest) → IsValid p → IsValid (invalidate_review p)
unfolding invalidate_review
invalidate_review-IsValid p v = ground arith

module _ (p : PullRequest) (valid : IsValid p) (room : HasRoom p) where
  counted-IsValid :
      IsValid (record p { rounds = inc p.rounds; coding_rounds = inc p.coding_rounds })
  counted-IsValid = ground (arith, inc-parts p.rounds, inc-parts p.coding_rounds)

  pushed-IsValid : IsValid (record_external_push p)
  unfolding record_external_push
  pushed-IsValid = ground (arith, inc-parts p.rounds)

  coding-IsValid : IsValid (record_coding_round p).0
  unfolding record_coding_round
  coding-IsValid =
      set_flag-IsValid round_limit _ _ refl
        (remove_flag-IsValid failed _ (invalidate_review-IsValid _ counted-IsValid))

  merge-IsValid : IsValid (record_merge_round p)
  unfolding record_merge_round record_external_push
  merge-IsValid = remove_flag-IsValid stale _ (remove_flag-IsValid failed _ pushed-IsValid)

  granted-IsValid : IsValid (record p { rounds_granted = inc p.rounds_granted })
  granted-IsValid = ground (arith, inc-parts p.rounds_granted)

  grant-IsValid : IsValid (grant_coding_round p).0
  unfolding grant_coding_round
  grant-IsValid =
      set_flag-IsValid round_limit _ _ refl (remove_flag-IsValid failed _ granted-IsValid)

judged-IsValid :
    (approved : Bool) (head base : Text) (p : PullRequest)
    → IsValid p
    → IsValid (record p {
      reviews = p.rounds;
      approved = approved;
      reviewed_head = head;
      reviewed_base = base;
    })
judged-IsValid approved head base p v = ground arith

review-IsValid :
    (approved : Bool) (head base : Text) (p : PullRequest)
    → IsValid p
    → IsValid (record_review approved head base p).0
unfolding record_review
review-IsValid approved head base p v =
    set_flag-IsValid round_limit _ _ refl
      (remove_flag-IsValid failed _ (judged-IsValid approved head base p v))

-- A valid record whose counters have room stays valid under each of the five methods that count,
-- whatever the verdict of a review.
pub counting_keeps_valid :
    (p : PullRequest) (approved : Bool) (head base : Text)
    → validate p ≡ ok tt
    → HasRoom p
    → (validate (record_coding_round p).0 ≡ ok tt)
      × (validate (grant_coding_round p).0 ≡ ok tt)
      × (validate (record_merge_round p) ≡ ok tt)
      × (validate (record_external_push p) ≡ ok tt)
      × (validate (record_review approved head base p).0 ≡ ok tt)
counting_keeps_valid p approved head base h room =
    let v = validate-IsValid p h in
    (
      validate_of_IsValid _ (coding-IsValid p v room),
      validate_of_IsValid _ (grant-IsValid p v room),
      validate_of_IsValid _ (merge-IsValid p v room),
      validate_of_IsValid _ (pushed-IsValid p v room),
      validate_of_IsValid _ (review-IsValid approved head base p v),
    )

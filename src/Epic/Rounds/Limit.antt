-- ===== src/Epic/Rounds/Limit.antt =====
-- What a round leaves behind: which flags, whether a reviewer is owed, and what the limit says.
use donsy.Prelude.{◌≡◌, refl, ap, sym, ◌∙◌, Bool, true, false, ◌||◌, ◌&&◌, not, arith}
use donsy.Prelude.Int.{inc, inc-parts, ltb_ℤ}
use donsy.Text.{Text, text_eq}
use donsy.Text.Equality.{text_eq_refl}
use donsy.Errors.{ok, succeeds}
use donsy.Epic.PullRequest.{
  PullRequest, round_limit, failed, stale, flag_eq, has_flag, remove_flag, set_flag,
}
use donsy.Epic.PullRequest.Flags.{has_flag-remove_flag, has_flag-set_flag}
use donsy.Epic.Rounds.{
  can_code, review_is_stale, invalidate_review, record_coding_round, record_merge_round,
  record_review, validate,
}
use donsy.Epic.Rounds.Validity.{IsValid, validate-IsValid, HasRoom}

-- The last step of the rounds that are rationed: `SetFlag(FlagRoundLimit, b)`.
abbrev pub Limited : Bool → PullRequest → Type 0
Limited b c =
    let o = set_flag round_limit b c in
    (succeeds o ≡ true)
    × (has_flag round_limit o.0 ≡ b)
    × (has_flag failed o.0 ≡ has_flag failed c)
    × (can_code o.0 ≡ can_code c)
    × (o.0.approved ≡ c.approved)
    × (o.0.reviews ≡ c.reviews)
    × (o.0.rounds ≡ c.rounds)
    × (o.0.reviewed_head ≡ c.reviewed_head)
    × (o.0.reviewed_base ≡ c.reviewed_base)

pub set_round_limit : (b : Bool) (c : PullRequest) → Limited b c
unfolding set_flag can_code
set_round_limit b c = (
  ground arith,
  has_flag-set_flag round_limit round_limit b c refl,
  has_flag-set_flag round_limit failed b c refl,
  ground arith,
  ground arith,
  ground arith,
  ground arith,
  ground arith,
  ground arith,
)

pub not_failed : (p : PullRequest) → has_flag failed (remove_flag failed p) ≡ false
unfolding flag_eq
not_failed p = has_flag-remove_flag failed failed p

-- The record before that step, the failure flag still on it.
abbrev pub coded : PullRequest → PullRequest
coded p =
    invalidate_review (record p { rounds = inc p.rounds; coding_rounds = inc p.coding_rounds })

abbrev pub judged : Bool → Text → Text → PullRequest → PullRequest
judged approved head base p = record p {
  reviews = p.rounds;
  approved = approved;
  reviewed_head = head;
  reviewed_base = base;
}

owed : (p : PullRequest) → IsValid p → HasRoom p → ltb_ℤ p.reviews (inc p.rounds) ≡ true
owed p v room = ground (arith, inc-parts p.rounds)

covered : (head base : Text) → (not (text_eq head head) || not (text_eq base base)) ≡ false
covered head base = ground (arith, text_eq_refl head, text_eq_refl base)

-- After a coding round on a valid record whose counters have room, with no error, the failure flag
-- is gone, the record is not approved, its reviews are fewer than its rounds, and the limit's flag
-- is there exactly if `CanCode` fails.
pub coding_round_outcome :
    (p : PullRequest)
    → validate p ≡ ok tt
    → HasRoom p
    → let r = (record_coding_round p).0 in
      (succeeds (record_coding_round p) ≡ true)
      × (has_flag round_limit r ≡ not (can_code r))
      × (has_flag failed r ≡ false)
      × (r.approved ≡ false)
      × (ltb_ℤ r.reviews r.rounds ≡ true)
unfolding record_coding_round
coding_round_outcome p h room =
    let c = remove_flag failed (coded p) in
    let l = set_round_limit (not (can_code c)) c in
    (
      l.0,
      l.1 ∙ ap not (sym l.3),
      l.2 ∙ not_failed (coded p),
      l.4,
      rw (l.5, l.6) (owed p (validate-IsValid p h) room),
    )

-- After a merge round on a valid record whose counters have room, the stale and failure flags are
-- gone, the record is not approved, its reviews are fewer than its rounds, and `CanCode` is as
-- before.
pub merge_round_outcome :
    (p : PullRequest)
    → validate p ≡ ok tt
    → HasRoom p
    → let r = record_merge_round p in
      (has_flag stale r ≡ false)
      × (has_flag failed r ≡ false)
      × (r.approved ≡ false)
      × (can_code r ≡ can_code p)
      × (ltb_ℤ r.reviews r.rounds ≡ true)
unfolding record_merge_round flag_eq can_code
merge_round_outcome p h room =
    let c = invalidate_review (record p { rounds = inc p.rounds }) in
    let m = remove_flag failed c in
    (
      has_flag-remove_flag stale stale m,
      has_flag-remove_flag stale failed m ∙ not_failed c,
      refl,
      refl,
      owed p (validate-IsValid p h) room,
    )

-- After a review, with no error, the verdict is on record, the review is not stale for the commits
-- it judged, the reviews are no fewer than the rounds, the failure flag is gone, and the limit's
-- flag is there exactly for a refusal after which `CanCode` fails.
pub review_outcome :
    (approved : Bool) (head base : Text) (p : PullRequest)
    → let r = (record_review approved head base p).0 in
      (succeeds (record_review approved head base p) ≡ true)
      × (has_flag round_limit r ≡ (not approved && not (can_code r)))
      × (has_flag failed r ≡ false)
      × (r.approved ≡ approved)
      × (review_is_stale head base r ≡ false)
      × (ltb_ℤ r.reviews r.rounds ≡ false)
unfolding record_review review_is_stale
review_outcome approved head base p =
    let c = remove_flag failed (judged approved head base p) in
    let l = set_round_limit (not approved && not (can_code c)) c in
    (
      l.0,
      l.1 ∙ ap (λ (t : Bool). not approved && not t) (sym l.3),
      l.2 ∙ not_failed (judged approved head base p),
      l.4,
      rw (review_is_stale, l.7, l.8) (covered head base),
      rw (l.5, l.6) (ground arith),
    )

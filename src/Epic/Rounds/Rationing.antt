-- ===== src/Epic/Rounds/Rationing.antt =====
-- The rationing of coding rounds over the life of a pull request: a coding round is started only
-- while `CanCode` holds (`IssueRole`), and a round is granted only once it does not
-- (`GrantCodingRoundUseCase`); the other rounds are free.
use donsy.Prelude.{
  ℕ, suc, ◌+◌, ◌≤◌, ◌<◌, ◌≡◌, Bool, List, [], ◌∷◌, arith, length, ltb, if◌then◌else◌,
}
use donsy.Prelude.Int.{pos_part, neg_part, inc, two63, inc-parts, add_const-pos}
use donsy.Text.{Text}
use donsy.Epic.PullRequest.{PullRequest}
use donsy.Epic.Rounds.{
  can_code, record_coding_round, grant_coding_round, record_merge_round, record_external_push,
  record_review, max_coding_rounds,
}

pub data Round : Type 0 where
  coding grant merge push : Round
  review : Bool → Text → Text → Round

unfoldable pub perform : Round → PullRequest → PullRequest
perform coding p = if can_code p then (record_coding_round p).0 else p
perform grant p = if can_code p then p else (grant_coding_round p).0
perform merge p = record_merge_round p
perform push p = record_external_push p
perform (review approved head base) p = (record_review approved head base p).0

unfoldable pub perform_all : List Round → PullRequest → PullRequest
perform_all [] p = p
perform_all (r ∷ rest) p = perform_all rest (perform r p)

abbrev pub grants : List Round → ℕ
grants [] = 0
grants (grant ∷ rest) = suc (grants rest)
grants (_ ∷ rest) = grants rest

-- The two counters that the ration is about.
pub record Rationed (p : PullRequest) : Type 0 where
  pub coded : neg_part p.coding_rounds ≡ 0
  pub granted : neg_part p.rounds_granted ≡ 0
  pub within : pos_part p.coding_rounds ≤ max_coding_rounds + pos_part p.rounds_granted

pub can_code-eq-ltb :
    (p : PullRequest)
    → neg_part p.coding_rounds ≡ 0
    → neg_part p.rounds_granted ≡ 0
    → 10 + pos_part p.rounds_granted < two63
    → can_code p ≡ ltb (pos_part p.coding_rounds) (10 + pos_part p.rounds_granted)
unfolding can_code
can_code-eq-ltb p c g h = ground (arith, add_const-pos 10 (pos_part p.rounds_granted))

module _ (p : PullRequest) where
  coding-counters :
      ((record_coding_round p).0.coding_rounds ≡ inc p.coding_rounds)
      × ((record_coding_round p).0.rounds_granted ≡ p.rounds_granted)
  unfolding record_coding_round
  coding-counters = (ground arith, ground arith)

  grant-counters :
      ((grant_coding_round p).0.coding_rounds ≡ p.coding_rounds)
      × ((grant_coding_round p).0.rounds_granted ≡ inc p.rounds_granted)
  unfolding grant_coding_round
  grant-counters = (ground arith, ground arith)

  review-counters :
      (approved : Bool) (head base : Text)
      → ((record_review approved head base p).0.coding_rounds ≡ p.coding_rounds)
        × ((record_review approved head base p).0.rounds_granted ≡ p.rounds_granted)
  unfolding record_review
  review-counters approved head base = (ground arith, ground arith)

perform-Rationed :
    (r : Round) (p : PullRequest)
    → Rationed p
    → pos_part p.rounds_granted + 11 < two63
    → Rationed (perform r p)
      × (pos_part (perform r p).rounds_granted ≤ pos_part p.rounds_granted + grants (r ∷ []))
unfolding perform
perform-Rationed coding p v room = (
  ground (arith, coding-counters p, inc-parts p.coding_rounds, can_code-eq-ltb p),
  ground (arith, coding-counters p, inc-parts p.coding_rounds, can_code-eq-ltb p),
)
perform-Rationed grant p v room = (
  ground (arith, grant-counters p, inc-parts p.rounds_granted),
  ground (arith, grant-counters p, inc-parts p.rounds_granted),
)
perform-Rationed merge p v room = unfold record_merge_round in (ground arith, ground arith)
perform-Rationed push p v room = unfold record_external_push in (ground arith, ground arith)
perform-Rationed (review approved head base) p v room = (
  ground (arith, review-counters p approved head base),
  ground (arith, review-counters p approved head base),
)

grants-cons : (r : Round) (rest : List Round) → grants (r ∷ rest) ≡ grants (r ∷ []) + grants rest
grants-cons grant rest = omega arith
grants-cons _ rest = omega arith

grants-le-one : (r : Round) → grants (r ∷ []) ≤ 1
grants-le-one grant = omega arith
grants-le-one _ = omega arith

-- From counters that are not negative and within the ration, with room below the overflow, any
-- sequence of rounds in which coding goes by `CanCode` and grants are made only without it keeps
-- the coding rounds within ten, the grants before it and the grants in it.
pub coding_rounds-Rationed :
    (rounds : List Round) (p : PullRequest)
    → Rationed p
    → pos_part p.rounds_granted + 11 + length rounds < two63
    → Rationed (perform_all rounds p)
      × (pos_part (perform_all rounds p).coding_rounds
          ≤ max_coding_rounds + pos_part p.rounds_granted + grants rounds)
unfolding perform_all
coding_rounds-Rationed [] p v room = (v, omega arith)
coding_rounds-Rationed (r ∷ rest) p v room =
    let now = perform-Rationed r p v (omega arith) in
    let later =
      coding_rounds-Rationed rest (perform r p) now.0 (omega (arith, now.1, grants-le-one r)) in
    (later.0, omega (arith, later.1, now.1, grants-cons r rest))

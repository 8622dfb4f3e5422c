-- ===== src/Epic/Rounds/Examples.antt =====
-- Rounds on a concrete pull request, and the theorems at them.
use donsy.Prelude.{◌≡◌, refl, ◌≤◌, ◌+◌, true, false, List, [], ◌∷◌, arith}
use donsy.Prelude.Int.{pos_part}
use donsy.Text.{codes, trim_space}
use donsy.Errors.{ok}
use donsy.Epic.Rounds.{
  record_coding_round, grant_coding_round, record_merge_round, record_external_push, record_review,
  validate, max_coding_rounds,
}
use donsy.Epic.Rounds.Validity.{counting_keeps_valid}
use donsy.Epic.Rounds.Rationing.{
  Round, coding, grant, push, review, perform_all, grants, Rationed, coding_rounds-Rationed,
}
use donsy.Epic.Sample.{sample_pull_request}

sample_is_valid : validate sample_pull_request ≡ ok tt
unfolding validate trim_space
sample_is_valid = refl

counting_keeps_valid_example :
    (validate (record_coding_round sample_pull_request).0 ≡ ok tt)
    × (validate (grant_coding_round sample_pull_request).0 ≡ ok tt)
    × (validate (record_merge_round sample_pull_request) ≡ ok tt)
    × (validate (record_external_push sample_pull_request) ≡ ok tt)
    × (validate (record_review true (codes "c0") (codes "b0") sample_pull_request).0 ≡ ok tt)
counting_keeps_valid_example =
    counting_keeps_valid sample_pull_request true (codes "c0") (codes "b0") sample_is_valid
      (omega arith, omega arith)

abbrev two_rounds : List Round
two_rounds = coding ∷ review false (codes "c1") (codes "b0") ∷ push ∷ grant ∷ coding ∷ []

sample_is_Rationed : Rationed sample_pull_request
sample_is_Rationed = record { coded = refl; granted = refl; within = omega arith }

coding_rounds-Rationed_example :
    Rationed (perform_all two_rounds sample_pull_request)
    × (pos_part (perform_all two_rounds sample_pull_request).coding_rounds
        ≤ max_coding_rounds + pos_part sample_pull_request.rounds_granted + grants two_rounds)
coding_rounds-Rationed_example =
    coding_rounds-Rationed two_rounds sample_pull_request sample_is_Rationed (omega arith)

-- ===== src/Epic/State/Drafting.antt =====
-- The drafting volley: reviews of one epic that each end in a verdict, and what ends it.
use donsy.Prelude.{
  ℕ, ◌+◌, ◌≤◌, ◌<◌, ◌≡◌, ap, ◌∙◌, refl, inl, inr, Bool, true, false, ◌||◌, List, [], ◌∷◌, arith,
  length, Bool-cases, if◌then◌else◌, leb,
}
use donsy.Prelude.Int.{pos, two63, inc-pos}
use donsy.Errors.{Outcome, succeeds, success}
use donsy.Epic.State.{
  EpicState, changes_requested, proposed, EpicEvent, Progress, apply, record_drafting_pass,
}

-- Of an epic in review with `k` passes behind it, below the overflow, an approval, or a verdict
-- that is the third pass or a later one, proposes the epic; any other verdict asks for changes.
-- The pass is counted either way.
pub record_drafting_pass-review :
    (approved : Bool) (e : Progress) (k : ℕ)
    → e.state ≡ EpicState.review
    → e.drafting_passes ≡ pos k
    → k + 1 < two63
    → record_drafting_pass approved e
      ≡ success (record {
        state = if approved || leb 3 (k + 1) then proposed else changes_requested;
        drafting_passes = pos (k + 1);
      })
unfolding record_drafting_pass
record_drafting_pass-review true e k s p h = ground (arith, inc-pos k)
record_drafting_pass-review false e k s p h = ground (arith, inc-pos k)

-- A verdict that the state cannot take burns no pass: the epic is left as it was.
pub record_drafting_pass_refused :
    (approved : Bool) (e : Progress)
    → succeeds (record_drafting_pass approved e) ≡ false
    → (record_drafting_pass approved e).0 ≡ e
unfolding record_drafting_pass
record_drafting_pass_refused approved e h = ground arith

-- After a request for changes the epic goes back to review and `rest` follows; in any other state
-- it stays as the verdict left it.
resume : (Progress → Progress) → Progress → Progress
resume rest judged = elim judged.state [
  | changes_requested ↦ rest (apply EpicEvent.review judged).0
  | _ ↦ judged
]

-- A reviewer gives the verdicts in turn, for as long as the epic comes back to review.
pub volley : List Bool → Progress → Progress
volley [] e = e
volley (verdict ∷ rest) e = resume (volley rest) (record_drafting_pass verdict e).0

after-pass : Bool → ℕ → Progress
after-pass approved k = record {
  state = if approved || leb 3 (k + 1) then proposed else changes_requested;
  drafting_passes = pos (k + 1);
}

resume-stop :
    (rest : Progress → Progress) (verdict : Bool) (k : ℕ)
    → (verdict || leb 3 (k + 1)) ≡ true
    → resume rest (after-pass verdict k)
      ≡ record { state = proposed; drafting_passes = pos (k + 1) }
unfolding resume after-pass
resume-stop rest verdict k stop = rw stop

resume-go_on :
    (rest : Progress → Progress) (verdict : Bool) (k : ℕ)
    → (verdict || leb 3 (k + 1)) ≡ false
    → resume rest (after-pass verdict k)
      ≡ rest (record { state = EpicState.review; drafting_passes = pos (k + 1) })
unfolding resume after-pass apply
resume-go_on rest verdict k go = rw go

room : (verdict : Bool) (k : ℕ) → k < 3 → (verdict || leb 3 (k + 1)) ≡ false → k + 1 < 3
room verdict k h go = ground arith

-- An epic in review with fewer than three passes behind it, given verdicts that make three passes
-- together with those, with the drafting resumed between them, ends proposed after at most three
-- passes, whatever the verdicts say.
pub volley_proposes :
    (verdicts : List Bool) (e : Progress) (k : ℕ)
    → e.state ≡ EpicState.review
    → e.drafting_passes ≡ pos k
    → k < 3
    → 3 ≤ k + length verdicts
    → ((volley verdicts e).state ≡ proposed)
      × ((n : ℕ) × ((volley verdicts e).drafting_passes ≡ pos n) × (n ≤ 3))
volley_proposes [] e k s p h l = absurd (omega arith)
volley_proposes (verdict ∷ rest) e k s p h l = elim (Bool-cases (verdict || leb 3 (k + 1))) [
  | inl stop ↦ rw (judged ∙ resume-stop _ verdict k stop) (refl, (k + 1, refl, omega arith))
  | inr go ↦
      rw (judged ∙ resume-go_on _ verdict k go)
        (volley_proposes rest _ (k + 1) refl refl (room verdict k h go) (omega arith))
]
  where
    judged : volley (verdict ∷ rest) e ≡ resume (volley rest) (after-pass verdict k)
    judged =
        unfold volley after-pass in
        ap (λ (t : Outcome Progress). resume (volley rest) t.0)
          (record_drafting_pass-review verdict e k s p (omega arith))

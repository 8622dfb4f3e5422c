-- ===== src/Workflow/Rounds.antt =====
-- The number of the next round, and the runs that a restart ends.
use donsy.Prelude.{
  ◌≡◌, refl, sym, ◌∙◌, inl, inr, ◌<◌, ◌+◌, true, false, Option, none, some, List, [], ◌∷◌, ◌++◌,
  map, arith, All, Bool-cases, if◌then◌else◌,
}
use mathlib.Core.Path.{subst}
use donsy.Prelude.Int.{ℤ, pos, negsuc, pos_part, ltb_ℤ, inc, two63}
use donsy.Errors.{Error, success}
use donsy.Epic.Issue.{Time}
use donsy.Agent
use donsy.Agent.{AgentRun, AgentRunStatus, counts_toward_round_limit, apply_run, host_failed}
use donsy.Workflow.{
  next_round, next_round_from, stall_live_runs, is_live_agent_run_status, restart_error,
}

inc_above : (x : ℤ) → pos_part x + 1 < two63 → ltb_ℤ x (inc x) ≡ true
unfolding inc
inc_above (pos n) h = ground arith
inc_above (negsuc n) h = ground arith

below_trans : (a b c : ℤ) → ltb_ℤ a b ≡ true → ltb_ℤ c b ≡ false → ltb_ℤ a c ≡ true
below_trans a b c h k = ground arith

stays_above :
    (a b c d : ℤ) → ltb_ℤ d c ≡ false → ltb_ℤ a c ≡ true → ltb_ℤ a b ≡ false → ltb_ℤ d b ≡ false
stays_above a b c d h k l = ground arith

not_below_refl : (a : ℤ) → ltb_ℤ a a ≡ false
not_below_refl a = ground arith

-- No round of the runs is at the top of the range of ints.
abbrev pub IsCountable : List AgentRun → Type 0
IsCountable runs = All (λ r. pos_part r.round + 1 < two63) runs

-- A round is above every counted run of a list.
abbrev pub IsAbove : ℤ → List AgentRun → Type 0
IsAbove round runs = All (λ r. counts_toward_round_limit r ≡ true → ltb_ℤ r.round round ≡ true) runs

next_round_from-skipped :
    (round : ℤ) (run : AgentRun) (rest : List AgentRun)
    → counts_toward_round_limit run ≡ false
    → next_round_from round (run ∷ rest) ≡ next_round_from round rest
unfolding next_round_from
next_round_from-skipped round run rest h = ground arith

next_round_from-raised :
    (round : ℤ) (run : AgentRun) (rest : List AgentRun)
    → counts_toward_round_limit run ≡ true
    → ltb_ℤ run.round round ≡ false
    → next_round_from round (run ∷ rest) ≡ next_round_from (inc run.round) rest
unfolding next_round_from
next_round_from-raised round run rest h k = ground arith

next_round_from-kept :
    (round : ℤ) (run : AgentRun) (rest : List AgentRun)
    → ltb_ℤ run.round round ≡ true
    → next_round_from round (run ∷ rest) ≡ next_round_from round rest
unfolding next_round_from
next_round_from-kept round run rest h = ground arith

abbrev Exceeds : ℤ → List AgentRun → ℤ → Type 0
Exceeds round runs result = (ltb_ℤ result round ≡ false) × IsAbove result runs

next_round_from-Exceeds :
    (round : ℤ) (runs : List AgentRun)
    → IsCountable runs
    → Exceeds round runs (next_round_from round runs)
next_round_from-Exceeds round [] h = (unfold next_round_from in not_below_refl round, tt)
next_round_from-Exceeds round (run ∷ rest) h = elim (Bool-cases (counts_toward_round_limit run)) [
  | inr c ↦
      let below = next_round_from-Exceeds round rest h.1 in
      subst (Exceeds round (run ∷ rest)) (sym (next_round_from-skipped round run rest c))
        (below.0, ((λ k. cc (c, k)), below.1))
  | inl c ↦ elim (Bool-cases (ltb_ℤ run.round round)) [
    | inl l ↦
        let below = next_round_from-Exceeds round rest h.1 in
        subst (Exceeds round (run ∷ rest)) (sym (next_round_from-kept round run rest l)) (
          below.0,
          ((λ k. below_trans run.round round (next_round_from round rest) l below.0), below.1),
        )
    | inr l ↦
        let below = next_round_from-Exceeds (inc run.round) rest h.1 in
        let above = inc_above run.round h.0 in
        subst (Exceeds round (run ∷ rest)) (sym (next_round_from-raised round run rest c l)) (
          stays_above run.round round (inc run.round) (next_round_from (inc run.round) rest) below.0
              above l,
          (
            (λ k.
                below_trans run.round (inc run.round) (next_round_from (inc run.round) rest) above
                  below.0),
            below.1,
          ),
        )
  ]
]

-- If no run's round is the greatest int, the next round is at least 1 and above the round of every
-- run that counts.
pub next_round-IsAbove :
    (runs : List AgentRun)
    → IsCountable runs
    → (ltb_ℤ (next_round runs) (pos 1) ≡ false) × IsAbove (next_round runs) runs
unfolding next_round
next_round-IsAbove runs h = next_round_from-Exceeds (pos 1) runs h

next_round_from-host_failed :
    (round : ℤ) (xs : List AgentRun) (run : AgentRun) (ys : List AgentRun)
    → counts_toward_round_limit run ≡ false
    → next_round_from round (xs ++ run ∷ ys) ≡ next_round_from round (xs ++ ys)
next_round_from-host_failed round [] run ys h = next_round_from-skipped round run ys h
next_round_from-host_failed round (x ∷ xs) run ys h =
    elim (Bool-cases (counts_toward_round_limit x)) [
      | inr c ↦
          next_round_from-skipped round x (xs ++ run ∷ ys) c
          ∙ next_round_from-host_failed round xs run ys h
          ∙ sym (next_round_from-skipped round x (xs ++ ys) c)
      | inl c ↦ elim (Bool-cases (ltb_ℤ x.round round)) [
        | inl l ↦
            next_round_from-kept round x (xs ++ run ∷ ys) l
            ∙ next_round_from-host_failed round xs run ys h
            ∙ sym (next_round_from-kept round x (xs ++ ys) l)
        | inr l ↦
            next_round_from-raised round x (xs ++ run ∷ ys) c l
            ∙ next_round_from-host_failed (inc x.round) xs run ys h
            ∙ sym (next_round_from-raised round x (xs ++ ys) c l)
      ]
    ]

-- A run that the host failed spends no round: wherever it stands among the runs, the next round is
-- the one without it.
pub next_round-host_failed :
    (xs : List AgentRun) (run : AgentRun) (ys : List AgentRun)
    → run.status ≡ host_failed
    → next_round (xs ++ run ∷ ys) ≡ next_round (xs ++ ys)
unfolding next_round
next_round-host_failed xs run ys h =
    next_round_from-host_failed (pos 1) xs run ys
      (unfold counts_toward_round_limit in rw (h, counts_toward_round_limit) refl)

-- The run that a restart leaves of a live one.
abbrev pub stalled_at : Time → AgentRun → AgentRun
stalled_at now run = record run {
  status = Agent.stalled;
  error = restart_error;
  finished_at = some now;
}

unfoldable pub live_runs : List AgentRun → List AgentRun
live_runs [] = []
live_runs (run ∷ rest) =
    let more = live_runs rest in if is_live_agent_run_status run.status then run ∷ more else more

-- With a registry whose saves succeed, `stallLiveRuns` gives no error and saves every live run,
-- and no other, in order: stalled, ended now, with the restart's message, and otherwise as it was.
pub stall_live_runs_lem :
    (save : AgentRun → Option Error) (now : Time) (runs : List AgentRun)
    → ((r : AgentRun) → save r ≡ none)
    → stall_live_runs save now runs ≡ success (map (stalled_at now) (live_runs runs))
unfolding stall_live_runs live_runs
stall_live_runs_lem save now [] h = refl
stall_live_runs_lem save now (run ∷ rest) h =
    ground (arith, h (stalled_at now run), stall_live_runs_lem save now rest h)

-- ===== src/Handler/Answers.antt =====
-- The answer of an agent in a round that a handler runs.
use donsy.Prelude.{◌≡◌, ◌⊎◌, refl, inl, inr, none, arith, Option-cases}
use donsy.Text.{Text}
use donsy.Agent.{AgentRun, Sandbox}
use donsy.Round.{Host, Rounds, RoundFailure, Answer, answered, broke_off, invoke}

pub Answer-cases :
    {A : Type 0} (m : Answer A)
    → ((x : A) × (m ≡ answered x)) ⊎ ((e : RoundFailure) × (m ≡ broke_off e))
Answer-cases (answered x) = inl (x, refl)
Answer-cases (broke_off e) = inr (e, refl)

-- The host ran the command of the run without an error, and this is the answer in its output.
abbrev pub IsAnswer : Host → AgentRun → Text → Type 0
IsAnswer h run answer =
    (h.command run ≡ none) × ((h.run run).1 ≡ none) × (answer ≡ h.extract_answer (h.run run).0)

pub invoke-IsAnswer :
    (h : Host) (sandbox : Sandbox) (run : AgentRun) (s : Rounds) (answer : Text)
    → (invoke h sandbox run s).1 ≡ answered answer
    → IsAnswer h run answer
unfolding invoke
invoke-IsAnswer h sandbox run s answer k = elim (Option-cases (h.command run)) [
  | inr (x, c) ↦ absurd (ground arith)
  | inl c ↦ elim (Option-cases (h.run run).1) [
    | inr (x, f) ↦ absurd (ground arith)
    | inl f ↦ (c, f, ground arith)
  ]
]

-- ===== src/Disposal/Cancelling.antt =====
-- cancel_agent_run.go, with the supervisor that it signals.
use donsy.Prelude.{
  ◌≡◌, ◌⊎◌, refl, inl, inr, Bool, true, false, not, Option, none, some, arith, Bool-cases,
  if◌then◌else◌,
}
use donsy.Text.{Text, is_empty, trim_space}
use donsy.Text.Equality.{text_eq_iff}
use donsy.Errors.{Error, Result, ok, err, Result-cases, id_required}
use donsy.Epic.Issue.{Time}
use donsy.Agent
use donsy.Agent.{AgentRun, AgentRunStatus, apply_run}
use donsy.Workflow.{is_live_agent_run_status}
use donsy.Round.Supervisor
use donsy.Round.Supervisor.{RunSupervisor, has_key, was_cancelled}

-- `GetAgentRun` and `SaveAgentRun`.
pub record Registry : Type 0 where
  pub get_agent_run : Text → Result AgentRun
  pub save_agent_run : AgentRun → Option Error

-- What the use case leaves: the supervisor, the run that it saved, and its answer.
pub record CancelledRun : Type 0 where
  pub supervisor : RunSupervisor
  pub saved : Option AgentRun
  pub answer : Result Bool

abbrev pub answers : RunSupervisor → Result Bool → CancelledRun
answers s a = record { supervisor = s; saved = none; answer = a }

module _ (r : Registry) (now : Time) where
  unfoldable pub cancel_live : AgentRun → RunSupervisor → CancelledRun
  cancel_live run s =
      let (cancelled, refused) = apply_run Agent.cancel now run in
      elim refused [
        | some x ↦ answers s (err x)
        | none ↦ record {
          supervisor = s;
          saved = some cancelled;
          answer = elim (r.save_agent_run cancelled) [ none ↦ ok true | some x ↦ err x ];
        }
      ]

  unfoldable pub cancel_agent_run : Text → RunSupervisor → CancelledRun
  cancel_agent_run id s =
      let (signalled, did) = Supervisor.cancel id s in
      if is_empty (trim_space id) then answers s (err id_required) else elim (r.get_agent_run id) [
        | err x ↦ answers s (err x)
        | ok run ↦
            if not (is_live_agent_run_status run.status)
            then answers s (ok false)
            else if did
            then answers signalled (ok true)
            else cancel_live run s
      ]

  cancel_live_ok :
      (run : AgentRun) (s : RunSupervisor) (b : Bool)
      → (cancel_live run s).answer ≡ ok b
      → (b ≡ true)
        × ((c : AgentRun) × ((cancel_live run s).saved ≡ some c)
            × (c.status ≡ Agent.cancelled)
            × (r.save_agent_run c ≡ none))
  unfolding cancel_live apply_run Agent.agent_run_transition
  cancel_live_ok run s b h =
      (ground arith, ((apply_run Agent.cancel now run).0, ground arith, ground arith, ground arith))

  signal_ok :
      (id : Text) (s : RunSupervisor)
      → (Supervisor.cancel id s).1 ≡ true
      → was_cancelled id (Supervisor.cancel id s).0 ≡ true
  unfolding Supervisor.cancel was_cancelled has_key
  signal_ok id s h = ground (arith, (text_eq_iff id id).1 refl)

  -- If the use case answers without an error, the run could be read. It answers true only for a
  -- live run, with the signal set in the supervisor or the run saved as cancelled, and false only
  -- for a run that is not live, with nothing saved and no signal set.
  pub cancels_live :
      (id : Text) (s : RunSupervisor) (b : Bool)
      → (cancel_agent_run id s).answer ≡ ok b
      → (run : AgentRun) × (r.get_agent_run id ≡ ok run)
        × (is_live_agent_run_status run.status ≡ b)
        × (((b ≡ false)
              × ((cancel_agent_run id s).saved ≡ none)
              × ((cancel_agent_run id s).supervisor ≡ s))
            ⊎ ((b ≡ true) × (was_cancelled id (cancel_agent_run id s).supervisor ≡ true))
            ⊎ ((b ≡ true)
                × ((c : AgentRun) × ((cancel_agent_run id s).saved ≡ some c)
                    × (c.status ≡ Agent.cancelled)
                    × (r.save_agent_run c ≡ none))))
  unfolding cancel_agent_run
  cancels_live id s b h = elim (Result-cases (r.get_agent_run id)) [
    | inr (x, g) ↦ absurd (ground arith)
    | inl (run, g) ↦ elim (Bool-cases (is_live_agent_run_status run.status)) [
      | inr dead ↦ (run, g, ground arith, inl (ground arith, ground arith, ground arith))
      | inl live ↦ elim (Bool-cases (Supervisor.cancel id s).1) [
        | inl did ↦
            (run, g, ground arith, inr (inl (ground arith, ground (arith, signal_ok id s did))))
        | inr not_there ↦
            let same : (cancel_live run s).answer ≡ ok b = ground arith in
            let (t, c) = cancel_live_ok run s b same in
            (run, g, ground arith, inr (inr (t, (c.0, ground (arith, c.1), c.2, c.3))))
      ]
    ]
  ]

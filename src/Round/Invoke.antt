-- ===== src/Round/Invoke.antt =====
-- What `invoke` makes of the sandbox.
use donsy.Prelude.{◌≡◌, Option, none, some, ◌∷◌, arith, if◌then◌else◌}
use donsy.Text.{Text}
use donsy.Agent
use donsy.Agent.{AgentRun, AgentRunStatus, AgentRunEvent, Sandbox, SandboxStatus, apply_run}
use donsy.Round.{
  Host, Rounds, answered, host_failed, fail, save_run, end_run, stop_sandbox, save_sandbox_status,
  invoke, during_call,
}
use donsy.Round.Triples.{during_call-saved}

module _ (h : Host) where
  save_run-sandboxes : (r : AgentRun) (s : Rounds) → (save_run h r s).0.sandboxes ≡ s.sandboxes
  unfolding save_run
  save_run-sandboxes r s = ground (arith, during_call-saved s)

  end_run-sandboxes :
      (r : AgentRun) (text : Text) (event : AgentRunEvent) (s : Rounds)
      → (end_run h r text event s).0.sandboxes ≡ s.sandboxes
  unfolding end_run
  end_run-sandboxes r text event s = grind (arith, save_run-sandboxes)

  host_failed-sandboxes :
      (r : AgentRun) (text : Text) (s : Rounds) → (host_failed h r text s).0.sandboxes ≡ s.sandboxes
  unfolding host_failed
  host_failed-sandboxes r text s = end_run-sandboxes r text Agent.host_fail s

  fail-sandboxes :
      (r : AgentRun) (text : Text) (s : Rounds) → (fail h r text s).0.sandboxes ≡ s.sandboxes
  unfolding fail
  fail-sandboxes r text s = end_run-sandboxes r text Agent.fail s

  -- Whether the stop fails, and the sandbox as it is recorded then.
  abbrev pub stop_failure : Sandbox → Option Text
  stop_failure b = if h.shutting_down then h.stop_now b else h.stop b

  abbrev pub landed : Sandbox → Sandbox
  landed b = record b {
    status = elim (stop_failure b) [ none ↦ Agent.stopped | some text ↦ Agent.broken ];
    updated_at = h.sandbox_at;
  }

  module _ (keeps : (b : Sandbox) → h.save_sandbox b ≡ none) where
    stop_sandbox_lem :
        (b : Sandbox) (s : Rounds)
        → ((stop_sandbox h b s).0.sandboxes ≡ landed b ∷ s.sandboxes)
          × ((stop_sandbox h b s).2 ≡ answered (landed b))
    unfolding stop_sandbox save_sandbox_status Agent.reconcile Agent.is_sandbox_status
    stop_sandbox_lem b s =
        ground (arith, keeps (landed b), during_call-saved s, during_call-saved (during_call s))

    -- Where the registry saves what it is given, `invoke` stops the sandbox whatever the agent and the
    -- stop give, and records it as stopped, or as broken if the stop failed; but not where the command
    -- cannot be built: then the sandbox stays as it was.
    pub invoke_stops :
        (b : Sandbox) (r : AgentRun) (s : Rounds)
        → (invoke h b r s).0.sandboxes
          ≡ elim (h.command r) [ some text ↦ s.sandboxes | none ↦ landed b ∷ s.sandboxes ]
    unfolding invoke
    invoke_stops b r s = grind (
      arith,
      stop_sandbox_lem b (during_call s),
      during_call-saved s,
      host_failed-sandboxes,
      fail-sandboxes,
    )

-- ===== src/Round/Examples.antt =====
-- A host that fails to start the sandbox, and the theorems of a round at it.
use donsy.Prelude.{◌≡◌, refl, true, false, none, some, [], ◌∷◌, ◌++◌}
use donsy.Prelude.Int.{pos}
use donsy.Text.{codes}
use donsy.Agent
use donsy.Agent.{AgentRun, AgentEngine, AgentSubjectKind, Sandbox, SandboxStatus, SessionMode}
use donsy.Round.{Host, Rounds, begin, invoke, is_host_failed}
use donsy.Round.Supervisor.{new_run_supervisor}
use donsy.Round.Triples.{Ends}
use donsy.Round.Blame.{rounds_blame_no_host}
use donsy.Round.Begin.{HasBegun, IsReleased, begin_settles}
use donsy.Round.Invoke.{landed, invoke_stops}

abbrev host : Host
host = record {
  save_agent_run = λ r. none;
  save_sandbox = λ b. none;
  ensure = λ b. (true, none);
  start = λ b. some (codes "no kvm");
  command = λ r. none;
  run = λ r. (codes "done", none);
  stalled = false;
  expired = false;
  stalled_text = λ t. codes "silent: " ++ t;
  expired_text = λ t. codes "late: " ++ t;
  shutting_down = false;
  stop = λ b. none;
  stop_now = λ b. none;
  extract_answer = λ t. t;
  started_at = 12;
  ended_at = 20;
  sandbox_at = 15;
}

abbrev run_1 : AgentRun
run_1 = record {
  id = codes "r1";
  project_id = 1;
  sandbox_id = codes "s1";
  role = Agent.coding;
  subject = record { kind = AgentSubjectKind.issue; id = codes "A" };
  engine = AgentEngine.open_code;
  agent = codes "gpt";
  variant = [];
  session_mode = SessionMode.fresh;
  status = Agent.queued;
  round = pos 1;
  error = [];
  created_at = 10;
  started_at = none;
  finished_at = none;
}

abbrev sandbox_1 : Sandbox
sandbox_1 = record {
  id = codes "s1";
  project_id = 1;
  name = codes "gm-s1";
  role = Agent.coding;
  subject = run_1.subject;
  status = SandboxStatus.absent;
  created_at = 9;
  updated_at = 9;
}

abbrev rounds : Rounds
rounds = record {
  runs = [];
  sandboxes = [];
  supervisor = new_run_supervisor;
  arriving = [] ∷ (codes "r1" ∷ []) ∷ [];
}

rounds_blame_no_host_example :
    Ends
      (λ started s'. is_host_failed started.0.status ≡ false)
      (λ e s'. e.from_host ≡ false)
      (begin host sandbox_1 run_1 rounds)
    × Ends
        (λ answer s'. Unit {0})
        (λ e s'. e.from_host ≡ false)
        (invoke host sandbox_1 run_1 rounds)
rounds_blame_no_host_example = rounds_blame_no_host host sandbox_1 run_1 rounds refl

begin_settles_example :
    Ends (HasBegun (codes "r1")) (IsReleased (codes "r1")) (begin host sandbox_1 run_1 rounds)
begin_settles_example = begin_settles host (λ r. refl) (λ b. refl) sandbox_1 run_1 rounds refl

invoke_stops_example :
    (invoke host sandbox_1 run_1 rounds).0.sandboxes ≡ elim (host.command run_1) [
      | some text ↦ rounds.sandboxes
      | none ↦ landed host sandbox_1 ∷ rounds.sandboxes
    ]
invoke_stops_example = invoke_stops host (λ b. refl) sandbox_1 run_1 rounds

-- ===== src/Reconcile/Examples.antt =====
-- A project with a sandbox that nobody owns, and a machine that has rested for long enough.
use donsy.Prelude.{◌≡◌, refl, true, false, none, some, [], ◌∷◌, all}
use donsy.Text.{codes}
use donsy.Errors.{ok}
use donsy.Agent.{AgentSubject, AgentSubjectKind, AgentRole, Sandbox, SandboxStatus}
use donsy.Worker.Tick.{ReconcileCommand}
use donsy.Reconcile.{SandboxCall, stops_now, deletes, saves, discards, Provider}
use donsy.Reconcile.Host.{
  HostRecord, HostCall, reaps, stops_profile, ProjectHost, idle_host, after_passes, release_host,
  rested_since, is_ordered, host_stops_rested,
}
use donsy.Reconcile.Handle.{
  ReconcileSettings, ProjectRecords, handle, limits_of, live_runs_by_sandbox,
}
use donsy.Reconcile.Passes.{
  calls_justified, machine_rests, is_justified, is_at_rest, runs_seen, sandboxes_seen,
}

abbrev all_well : SandboxStatus → Provider
all_well status = record {
  inspect = λ b. ok status;
  stop_now = λ b. none;
  delete = λ b. none;
  has_creds = true;
  discard = λ n. none;
  save_sandbox = λ b. none;
  save_agent_run = λ r. none;
}

abbrev sandbox_A : Sandbox
sandbox_A = record {
  id = codes "s1";
  project_id = 1;
  name = codes "a";
  role = AgentRole.coding;
  subject = record { kind = AgentSubjectKind.issue; id = codes "A" };
  status = SandboxStatus.stopped;
  created_at = 1;
  updated_at = 10;
}

abbrev machine_A : ProjectHost
machine_A = record { reap = none; stop_profile = ok true }

abbrev project_A : ProjectRecords
project_A = record { runs = ok []; sandboxes = ok (sandbox_A ∷ []); machine = some machine_A }

abbrev settings_A : ReconcileSettings
settings_A = record {
  idle_after = 50;
  max_runtime = 100;
  host_idle_after = 20;
  disk = record { free_bytes = none; pressure_below = 0; idle_under_pressure = 0 };
}

abbrev quiet_command : ReconcileCommand
quiet_command = record { project = 1; recover = false; terminal = []; inflight = []; priority = [] }

abbrev rested_host : HostRecord
rested_host = record { last_busy = some 5; is_released = false }

-- A sandbox that runs unowned is stopped, and its record is stamped.
stops_unowned_run :
    (handle
      (all_well SandboxStatus.running)
      30
      settings_A
      project_A
      quiet_command
      rested_host).calls
    ≡ stops_now sandbox_A ∷ saves (record sandbox_A { updated_at = 30 }) ∷ []
unfolding handle donsy.Reconcile.Handle.pass_over donsy.Reconcile.Handle.finish_pass
    donsy.Reconcile.Handle.visits donsy.Reconcile.Handle.priority_sandboxes donsy.Reconcile.visit
    donsy.Reconcile.sandbox_status_eq donsy.Reconcile.visit_running donsy.Reconcile.stop_unowned
    live_runs_by_sandbox donsy.Workflow.stall_live_runs donsy.Reconcile.settle_sandbox
    donsy.Agent.reconcile donsy.Reconcile.Handle.idle_window donsy.Agent.role_eq
stops_unowned_run = refl

calls_justified_example :
    all
      (is_justified
        (all_well SandboxStatus.running)
        30
        (limits_of (all_well SandboxStatus.running) 30 settings_A)
        []
        []
        (live_runs_by_sandbox (runs_seen project_A quiet_command))
        (sandboxes_seen project_A quiet_command))
      (handle
        (all_well SandboxStatus.running)
        30
        settings_A
        project_A
        quiet_command
        rested_host).calls
    ≡ true
calls_justified_example =
    calls_justified (all_well SandboxStatus.running) 30 settings_A project_A quiet_command
      rested_host

-- The machine of a project whose sandbox is at rest is asked to stop.
stops_machine_run :
    (handle
      (all_well SandboxStatus.stopped)
      30
      settings_A
      project_A
      quiet_command
      rested_host).host_calls
    ≡ reaps ∷ stops_profile ∷ []
unfolding handle donsy.Reconcile.Handle.pass_over donsy.Reconcile.Handle.finish_pass
    donsy.Reconcile.Handle.visits donsy.Reconcile.Handle.priority_sandboxes donsy.Reconcile.visit
    donsy.Reconcile.sandbox_status_eq donsy.Reconcile.visit_running donsy.Reconcile.stop_unowned
    live_runs_by_sandbox donsy.Workflow.stall_live_runs donsy.Reconcile.settle_sandbox
    donsy.Agent.reconcile donsy.Reconcile.Handle.idle_window donsy.Agent.role_eq release_host
    donsy.Reconcile.Host.stop_host
stops_machine_run = refl

machine_rests_example :
    (quiet_command.inflight ≡ [])
    × (quiet_command.priority ≡ [])
    × (all
          (is_at_rest
            (all_well SandboxStatus.stopped)
            30
            (limits_of (all_well SandboxStatus.stopped) 30 settings_A)
            []
            []
            (live_runs_by_sandbox (runs_seen project_A quiet_command)))
          (sandboxes_seen project_A quiet_command)
        ≡ true)
machine_rests_example =
    machine_rests (all_well SandboxStatus.stopped) 30 settings_A project_A quiet_command rested_host
      reaps (stops_profile ∷ []) stops_machine_run

rests_run :
    (release_host machine_A 20 false 40 (after_passes machine_A 20 ((5, true) ∷ []))).calls
    ≡ reaps ∷ stops_profile ∷ []
unfolding release_host after_passes donsy.Reconcile.Host.stop_host
rests_run = refl

host_stops_rested_example : (false ≡ false) × (rested_since machine_A 20 40 ((5, true) ∷ []) ≡ true)
unfolding is_ordered
host_stops_rested_example =
    host_stops_rested machine_A 20 ((5, true) ∷ []) false 40 reaps (stops_profile ∷ []) refl
      rests_run

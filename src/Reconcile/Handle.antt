-- ===== src/Reconcile/Handle.antt =====
-- `Handle`, `idleWindow`, `prioritySandboxes` and `liveRunsBySandbox`. The priority of a command is
-- the writes to its map, the last of which counts.
use donsy.Prelude.{
  ℕ, Bool, false, ◌||◌, ◌&&◌, Option, none, some, List, [], ◌∷◌, ◌++◌, ltb, leb, length,
  if◌then◌else◌,
}
use donsy.Text.{Text, text_eq}
use donsy.Errors.{Error, Result, ok, err}
use donsy.Epic.Issue.{Time}
use donsy.Agent.{AgentRun, AgentRole, AgentSubject, Sandbox, role_eq}
use donsy.Workflow.{is_live_agent_run_status, stall_live_runs}
use donsy.Worker.Keys.{subject_eq}
use donsy.Worker.Tick.{Reconciled, reconciled, partially, unreconciled, ReconcileCommand}
use donsy.Reconcile.{SandboxCall, Provider, Visit, Limits, visit}
use donsy.Reconcile.Host.{HostRecord, HostCall, ProjectHost, release_host}

-- `disk`, if there is one, and its two settings.
pub record Disk : Type 0 where
  pub free_bytes : Option (Result ℕ)
  pub pressure_below : ℕ
  pub idle_under_pressure : ℕ

unfoldable pub idle_window : Disk → ℕ → ℕ
idle_window disk idle_after = elim disk.free_bytes [
  | none ↦ idle_after
  | some answer ↦
      if leb disk.pressure_below 0 || leb disk.idle_under_pressure 0
      then idle_after
      else elim answer [
        | err e ↦ idle_after
        | ok free ↦
            if leb disk.pressure_below free
            then idle_after
            else if ltb 0 idle_after && ltb idle_after disk.idle_under_pressure
            then idle_after
            else disk.idle_under_pressure
      ]
]

-- The role of the last write to a subject.
unfoldable pub priority_role : List (AgentSubject × AgentRole) → AgentSubject → Option AgentRole
priority_role [] subject = none
priority_role ((key, role) ∷ rest) subject =
    let later = priority_role rest subject in
    elim later [ some r ↦ some r | none ↦ if subject_eq key subject then some role else none ]

abbrev pub is_selected : List (AgentSubject × AgentRole) → Sandbox → Bool
is_selected priority b = elim (priority_role priority b.subject) [
  | some role ↦ role_eq b.role role
  | none ↦ false
]

unfoldable pub select_sandboxes : (Sandbox → Bool) → List Sandbox → List Sandbox
select_sandboxes keep [] = []
select_sandboxes keep (b ∷ rest) =
    let more = select_sandboxes keep rest in if keep b then b ∷ more else more

unfoldable pub priority_sandboxes : List Sandbox → List (AgentSubject × AgentRole) → List Sandbox
priority_sandboxes sandboxes [] = sandboxes
priority_sandboxes sandboxes (p ∷ rest) = select_sandboxes (is_selected (p ∷ rest)) sandboxes

unfoldable pub live_runs_by_sandbox : List AgentRun → Text → List AgentRun
live_runs_by_sandbox [] id = []
live_runs_by_sandbox (run ∷ rest) id =
    let more = live_runs_by_sandbox rest id in
    if is_live_agent_run_status run.status && text_eq run.sandbox_id id then run ∷ more else more

-- What the registry lists for the project, and the rest of what a pass reads.
pub record ProjectRecords : Type 0 where
  pub runs : Result (List AgentRun)
  pub sandboxes : Result (List Sandbox)
  pub machine : Option ProjectHost

pub record ReconcileSettings : Type 0 where
  pub idle_after : ℕ
  pub max_runtime : ℕ
  pub host_idle_after : ℕ
  pub disk : Disk

-- What a pass does: the runs that it stalls first, its calls on sandboxes and on the machine, the
-- machine's entry behind it, and its answer.
pub record Pass : Type 0 where
  pub recovered : List AgentRun
  pub calls : List SandboxCall
  pub host : HostRecord
  pub host_calls : List HostCall
  pub result : Reconciled

-- What the loop gathers.
pub record Loop : Type 0 where
  pub calls : List SandboxCall
  pub errors : List Error
  pub left : List AgentSubject
  pub is_busy : Bool

module _ (h : Provider) (now : Time) where
  abbrev pub gather : Sandbox → Visit → Loop → Loop
  gather b v rest = record {
    calls = v.calls ++ rest.calls;
    errors = v.errors ++ rest.errors;
    left = if v.is_left then b.subject ∷ rest.left else rest.left;
    is_busy = v.is_busy || rest.is_busy;
  }

  unfoldable pub visits :
      Limits → List AgentSubject → List AgentSubject → (Text → List AgentRun) → List Sandbox → Loop
  visits limits inflight terminal live [] = record {
    calls = [];
    errors = [];
    left = [];
    is_busy = false;
  }
  visits limits inflight terminal live (b ∷ rest) =
      gather b (visit h now limits inflight terminal live b)
        (visits limits inflight terminal live rest)

  abbrev pub limits_of : ReconcileSettings → Limits
  limits_of settings = record {
    idle_after = idle_window settings.disk settings.idle_after;
    max_runtime = settings.max_runtime;
  }

  abbrev pub is_active : ReconcileCommand → Loop → Bool
  is_active command loop =
      ltb 0 (length command.priority)
      || loop.is_busy
      || ltb 0 (length command.inflight)
      || ltb 0 (length loop.errors)

  -- From the listed sandboxes on.
  unfoldable pub finish_pass :
      ReconcileSettings
      → Option ProjectHost
      → ReconcileCommand
      → HostRecord
      → List AgentRun
      → Loop
      → Pass
  finish_pass settings none command host recovered loop = record {
    recovered = recovered;
    calls = loop.calls;
    host = host;
    host_calls = [];
    result = if ltb 0 (length loop.errors) then partially loop.left else reconciled;
  }
  finish_pass settings (some machine) command host recovered loop =
      let released =
        release_host machine settings.host_idle_after (is_active command loop) now host in
      record {
        recovered = recovered;
        calls = loop.calls;
        host = released.host;
        host_calls = released.calls;
        result = elim released.failed [
          | some e ↦ partially loop.left
          | none ↦ if ltb 0 (length loop.errors) then partially loop.left else reconciled
        ];
      }

  abbrev pub gives_up : HostRecord → List AgentRun → Pass
  gives_up host recovered = record {
    recovered = recovered;
    calls = [];
    host = host;
    host_calls = [];
    result = unreconciled;
  }

  unfoldable pub pass_over :
      ReconcileSettings
      → ProjectRecords
      → ReconcileCommand
      → HostRecord
      → List AgentRun
      → List AgentRun
      → Pass
  pass_over settings project command host recovered runs = elim project.sandboxes [
    | err e ↦ gives_up host recovered
    | ok listed ↦ finish_pass settings project.machine command host recovered (
        visits (limits_of settings) command.inflight command.terminal (live_runs_by_sandbox runs)
          (priority_sandboxes listed command.priority))
  ]

  unfoldable pub handle : ReconcileSettings → ProjectRecords → ReconcileCommand → HostRecord → Pass
  handle settings project command host = elim project.runs [
    | err e ↦ gives_up host []
    | ok runs ↦
        let (stalled, failed) = stall_live_runs h.save_agent_run now runs in
        let recovered : Pass = elim failed [
          | some e ↦ gives_up host stalled
          | none ↦ pass_over settings project command host stalled []
        ] in
        if command.recover then recovered else pass_over settings project command host [] runs
  ]

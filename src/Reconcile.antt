-- ===== src/Reconcile.antt =====
-- internal/application/usecases/reconcile_sandboxes.go: what a pass of reconciliation does to the
-- sandboxes of a project. Provider is what the registry, the inspector, the sandboxes and the
-- credentials answer; a pass is the calls that it makes, in their order, with its errors, and the
-- subjects that it could not reconcile. Durations are natural numbers, and zero turns one off.
pub mod Calls
pub mod Handle
pub mod Host
pub mod Passes
mod Examples
use donsy.Prelude.{
  ℕ, zero, suc, ◌+◌, Bool, true, false, ◌||◌, ◌&&◌, not, Option, none, some, List, [], ◌∷◌, ◌++◌,
  any, map, ltb, leb, length, if◌then◌else◌,
}
use donsy.Text.{Text, text_eq}
use donsy.Errors.{Error, Result, ok, err, Outcome, success, failure}
use donsy.Epic.Issue.{Time}
use donsy.Agent
use donsy.Agent.{
  AgentRun, AgentRole, AgentSubject, Sandbox, SandboxStatus, SandboxEvent, apply_sandbox, reconcile,
  role_eq,
}
use donsy.Workflow.{is_live_agent_run_status, stall_live_runs}
use donsy.Worker.Keys.{subject_eq}

-- A call that changes something: the sandbox is the record as it stands then.
pub data SandboxCall : Type 0 where
  stops_now deletes discards saves : Sandbox → SandboxCall
  stalls : Sandbox → AgentRun → SandboxCall

pub record Provider : Type 0 where
  pub inspect : Sandbox → Result SandboxStatus
  pub stop_now : Sandbox → Option Error
  pub delete : Sandbox → Option Error
  pub has_creds : Bool
  pub discard : Text → Option Error
  pub save_sandbox : Sandbox → Option Error
  pub save_agent_run : AgentRun → Option Error

-- What a part of a pass gives: its calls, and the error that ends it.
abbrev pub Done : Type 0
Done = List SandboxCall × Option Error

abbrev pub then_do : SandboxCall → Option Error → Done → Done
then_do call (some e) rest = (call ∷ [], some e)
then_do call none (calls, failed) = (call ∷ calls, failed)

-- `status == s` for the three statuses that a pass asks for, and the equality of statuses.
unfoldable pub sandbox_status_eq : SandboxStatus → SandboxStatus → Bool
sandbox_status_eq Agent.absent Agent.absent = true
sandbox_status_eq Agent.creating Agent.creating = true
sandbox_status_eq SandboxStatus.stopped SandboxStatus.stopped = true
sandbox_status_eq Agent.starting Agent.starting = true
sandbox_status_eq SandboxStatus.running SandboxStatus.running = true
sandbox_status_eq Agent.stopping Agent.stopping = true
sandbox_status_eq Agent.broken Agent.broken = true
sandbox_status_eq Agent.deleting Agent.deleting = true
sandbox_status_eq (SandboxStatus.unknown s) (SandboxStatus.unknown t) = text_eq s t
sandbox_status_eq _ _ = false

abbrev pub is_named : AgentSubject → List AgentSubject → Bool
is_named subject subjects = any (subject_eq subject) subjects

module _ (h : Provider) (now : Time) where
  abbrev pub save : Sandbox → Done
  save b = then_do (saves b) (h.save_sandbox b) ([], none)

  -- `reclaim`: the record passes through both events of a deletion.
  unfoldable pub delete_record : Sandbox → Done
  delete_record b =
      let (deleting, refused) = apply_sandbox SandboxEvent.delete b in
      let (deleted, unfinished) = apply_sandbox SandboxEvent.delete_done deleting in
      elim refused [
        | some e ↦ ([], some e)
        | none ↦ elim unfinished [
          | some e ↦ ([], some e)
          | none ↦ save (record deleted { updated_at = now })
        ]
      ]

  unfoldable pub reclaim : Sandbox → Done
  reclaim b = then_do (deletes b) (h.delete b) (
      if h.has_creds
      then then_do (discards b) (h.discard b.name) (delete_record b)
      else delete_record b)

  unfoldable pub retire : Sandbox → Done
  retire b =
      if sandbox_status_eq b.status Agent.absent
      then save (record b { updated_at = now })
      else reclaim b

  -- `stopUnowned`; `max_runtime` turns the cap off when it is zero.
  unfoldable pub stop_unowned : ℕ → Sandbox → List AgentRun → Bool → Done × Bool
  stop_unowned max_runtime b owners finished =
      let overran = ltb 0 max_runtime && leb (b.updated_at + max_runtime) now in
      let (stalled, unstalled) = stall_live_runs h.save_agent_run now owners in
      if ltb 0 (length owners) && not overran && not finished
      then (([], none), false)
      else (then_do (stops_now b) (h.stop_now b) (map (stalls b) stalled, unstalled), true)

-- What a pass makes of one sandbox: its calls and errors, whether its subject is left unreconciled,
-- and whether it is seen running.
pub record Visit : Type 0 where
  pub calls : List SandboxCall
  pub errors : List Error
  pub is_left : Bool
  pub is_busy : Bool

abbrev pub quiet : Visit
quiet = record { calls = []; errors = []; is_left = false; is_busy = false }

abbrev pub left_with : Error → List SandboxCall → Visit
left_with e calls = record quiet { calls = calls; errors = e ∷ []; is_left = true }

-- The end of a branch that leaves the subject unreconciled when it fails.
abbrev pub or_left : Done → Visit
or_left (calls, none) = record quiet { calls = calls }
or_left (calls, some e) = left_with e calls

-- The end of the last branch, which does not.
abbrev pub or_reported : Done → Visit
or_reported (calls, none) = record quiet { calls = calls }
or_reported (calls, some e) = record quiet { calls = calls; errors = e ∷ [] }

pub record Limits : Type 0 where
  pub idle_after : ℕ
  pub max_runtime : ℕ

module _ (h : Provider) (now : Time) (limits : Limits) where
  -- The loop's body behind the stop: `recorded` is the status that the record had, `stopped` whether
  -- the pass has just stopped the sandbox.
  unfoldable pub settle_sandbox : Sandbox → SandboxStatus → SandboxStatus → Bool → Bool → Visit
  settle_sandbox b status recorded stopped finished =
      let (agreed, failed) = reconcile status b in
      let idle =
        ltb 0 limits.idle_after
        && sandbox_status_eq status SandboxStatus.stopped
        && leb (b.updated_at + limits.idle_after) now in
      elim failed [
        | some e ↦ left_with e []
        | none ↦
            if finished
            then or_left (retire h now agreed)
            else if sandbox_status_eq status Agent.broken
            then or_left (reclaim h now agreed)
            else if idle
            then or_left (reclaim h now agreed)
            else if sandbox_status_eq recorded status && not stopped
            then quiet
            else or_reported (save h now (record agreed { updated_at = now }))
      ]

  abbrev pub after_calls : List SandboxCall → Visit → Visit
  after_calls calls v = record v { calls = calls ++ v.calls }

  abbrev pub seen_running : Visit → Visit
  seen_running v = record v { is_busy = true }

  unfoldable pub visit_running : Sandbox → List AgentRun → Bool → Visit
  visit_running b owners finished =
      let ((calls, failed), stopped) = stop_unowned h now limits.max_runtime b owners finished in
      elim failed [
        | some e ↦ left_with e calls
        | none ↦
            if stopped
            then after_calls calls (
                settle_sandbox (record b { updated_at = now }) SandboxStatus.stopped b.status true
                  finished)
            else seen_running (settle_sandbox b SandboxStatus.running b.status false finished)
      ]

  -- The loop's body.
  unfoldable pub visit :
      List AgentSubject → List AgentSubject → (Text → List AgentRun) → Sandbox → Visit
  visit inflight terminal live b =
      let finished = is_named b.subject terminal in
      let inspected : Visit = elim (h.inspect b) [
        | err e ↦ left_with e []
        | ok status ↦
            if sandbox_status_eq status SandboxStatus.running
            then visit_running b (live b.id) finished
            else settle_sandbox b status b.status false finished
      ] in
      if is_named b.subject inflight then quiet else inspected

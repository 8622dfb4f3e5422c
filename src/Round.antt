-- ===== src/Round.antt =====
-- internal/application/usecases/agent_round.go: a round of an agent, from the record of its run to
-- the stop of its sandbox. Host is what the registry, the sandboxes, the runtime and the command
-- builder answer: an error is its text. Rounds is what they keep: the runs and sandboxes as they
-- were saved, the newest first, and the supervisor; `arriving` are the cancellations that come in
-- during each of the calls to come.
pub mod Supervisor
pub mod Triples
pub mod Blame
pub mod Begin
pub mod Invoke
mod Examples
use donsy.Prelude.{
  ℕ, Bool, true, false, ◌||◌, ◌&&◌, not, Option, none, some, List, [], ◌∷◌, ◌++◌, if◌then◌else◌,
}
use donsy.Prelude.Int.{ℤ}
use donsy.Text.{Text, codes, is_empty, trim_space}
use donsy.Errors.{Error, Outcome}
use donsy.Epic.Issue.{Time}
use donsy.Agent
use donsy.Agent.{
  AgentRun, AgentRunStatus, AgentRunEvent, AgentEngine, Sandbox, SandboxStatus, SessionMode,
  apply_run, reconcile, session_mode_after,
}
use Supervisor
use Supervisor.{RunSupervisor, release, complete, was_cancelled, forget}

pub record Host : Type 0 where
  pub save_agent_run : AgentRun → Option Text
  pub save_sandbox : Sandbox → Option Text
  pub ensure : Sandbox → Bool × Option Text
  pub start : Sandbox → Option Text
  pub command : AgentRun → Option Text
  pub run : AgentRun → Text × Option Text
  pub stalled : Bool
  pub expired : Bool
  pub stalled_text : Text → Text
  pub expired_text : Text → Text
  pub shutting_down : Bool
  pub stop : Sandbox → Option Text
  pub stop_now : Sandbox → Option Text
  pub extract_answer : Text → Text
  pub started_at : Time
  pub ended_at : Time
  pub sandbox_at : Time

-- What a round fails with: `errRunCancelled`, an error of the registry, the host or the agent with
-- its text, or an error of the domain.
pub data Cause : Type 0 where
  run_cancelled : Cause
  caused : Text → Cause
  refused : Error → Cause

-- An error of a round, and whether it wraps `ErrHostFailure`.
pub record RoundFailure : Type 0 where
  pub from_host : Bool
  pub cause : Cause

pub record Rounds : Type 0 where
  pub runs : List AgentRun
  pub sandboxes : List Sandbox
  pub supervisor : RunSupervisor
  pub arriving : List (List Text)

abbrev cancel_all : List Text → RunSupervisor → RunSupervisor
cancel_all [] s = s
cancel_all (id ∷ rest) s = cancel_all rest (Supervisor.cancel id s).0

-- What arrives during one call.
unfoldable pub during_call : Rounds → Rounds
unfolding Supervisor.cancel
during_call s = elim s.arriving [
  | [] ↦ s
  | ids ∷ later ↦ record s { supervisor = cancel_all ids s.supervisor; arriving = later }
]

-- What a part of a round gives: its value, or the failure that ends the round.
pub data Answer {ℓ} (A : Type ℓ) : Type ℓ where
  answered : A → Answer A
  broke_off : RoundFailure → Answer A

abbrev pub plain : Cause → RoundFailure
plain cause = record { from_host = false; cause = cause }

-- `registry.SaveAgentRun`.
unfoldable pub save_run : Host → AgentRun → Rounds → Rounds × Option Cause
unfolding during_call
save_run h run s =
    let s' = during_call s in
    elim (h.save_agent_run run) [
      | some text ↦ (s', some (caused text))
      | none ↦ (record s' { runs = run ∷ s'.runs }, none)
    ]

-- `saveSandboxStatus`: the sandbox of the spec changes too.
unfoldable pub save_sandbox_status :
    Host → SandboxStatus → Sandbox → Rounds → Rounds × Answer Sandbox
unfolding during_call reconcile
save_sandbox_status h status sandbox s =
    let (landed, failed) = reconcile status sandbox in
    let stamped = record landed { updated_at = h.sandbox_at } in
    elim failed [
      | some e ↦ (s, broke_off (plain (refused e)))
      | none ↦
          let s' = during_call s in
          elim (h.save_sandbox stamped) [
            | some text ↦ (s', broke_off (plain (caused text)))
            | none ↦ (record s' { sandboxes = stamped ∷ s'.sandboxes }, answered stamped)
          ]
    ]

abbrev pub cancel_text : Text
cancel_text = codes "run was cancelled"

abbrev blank_line : Text
blank_line = 10 ∷ 10 ∷ []

-- What the run says of its end: the cause, before what it said already.
abbrev pub with_error : Text → AgentRun → AgentRun
with_error said run = record run {
  error = if is_empty run.error then said else said ++ blank_line ++ run.error;
}

-- `end`: the run is a copy, so the caller's record does not change.
unfoldable pub end_run : Host → AgentRun → Text → AgentRunEvent → Rounds → Rounds × Cause
unfolding was_cancelled forget apply_run save_run
end_run h run text event s =
    let stopped = was_cancelled run.id s.supervisor in
    let s' = if stopped then record s { supervisor = forget run.id s.supervisor } else s in
    let noted = with_error (if stopped then cancel_text else text) run in
    let (applied, failed) = apply_run (if stopped then Agent.cancel else event) h.ended_at noted in
    elim failed [
      | some e ↦ (s', refused e)
      | none ↦
          let (s'', unsaved) = save_run h applied s' in
          elim unsaved [
            | some cause ↦ (s'', cause)
            | none ↦ (s'', if stopped then run_cancelled else caused text)
          ]
    ]

abbrev pub is_host_failed : AgentRunStatus → Bool
is_host_failed Agent.host_failed = true
is_host_failed _ = false

-- `hostFailed`: it reads the status of its own record after `end`. `end` returns an error always.
unfoldable pub host_failed : Host → AgentRun → Text → Rounds → Rounds × RoundFailure
unfolding end_run
host_failed h run text s =
    let (s', cause) = end_run h run text Agent.host_fail s in
    (s', record { from_host = is_host_failed run.status; cause = cause })

unfoldable pub fail : Host → AgentRun → Text → Rounds → Rounds × RoundFailure
unfolding end_run
fail h run text s = let (s', cause) = end_run h run text Agent.fail s in (s', plain cause)

unfoldable pub succeed : Host → AgentRun → Rounds → Rounds × Option Cause
unfolding forget apply_run save_run
succeed h run s =
    let s' = record s { supervisor = forget run.id s.supervisor } in
    let (applied, failed) = apply_run Agent.succeed h.ended_at run in
    elim failed [ some e ↦ (s', some (refused e)) | none ↦ save_run h applied s' ]

-- The run that `begin` mints, from its identifier and the time.
unfoldable pub queued_run : Text → Time → Text → Text → ℤ → List AgentRun → Sandbox → AgentRun
unfolding session_mode_after
queued_run id now agent variant round previous sandbox = record {
  id = id;
  project_id = sandbox.project_id;
  sandbox_id = sandbox.id;
  role = sandbox.role;
  subject = sandbox.subject;
  engine = AgentEngine.open_code;
  agent = agent;
  variant = variant;
  session_mode = session_mode_after AgentEngine.open_code sandbox.role previous;
  status = Agent.queued;
  round = round;
  error = [];
  created_at = now;
  started_at = none;
  finished_at = none;
}

infixl 5 ◌then◌
-- `if err != nil { return fail(err) }`, and the rest.
abbrev pub ◌then◌ {ℓ κ} :
    {A : Type ℓ} {B : Type κ}
    → Rounds × Answer A
    → (A → Rounds → Rounds × Answer B)
    → Rounds × Answer B
(s, answered a) then f = f a s
(s, broke_off e) then f = (s, broke_off e)

abbrev pub saved : Rounds × Option Cause → Rounds × Answer (Unit {0})
saved (s, none) = (s, answered tt)
saved (s, some cause) = (s, broke_off (plain cause))

abbrev pub broken : Rounds × RoundFailure → {A : Type 0} → Rounds × Answer A
broken (s, e) = (s, broke_off e)

-- The steps of `begin`, each with the run and the sandbox as it leaves them.
unfoldable pub move : Host → AgentRunEvent → Time → AgentRun → Rounds → Rounds × Answer AgentRun
unfolding apply_run save_run
move h event at run s =
    let (applied, failed) = apply_run event at run in
    elim failed [
      | some e ↦ (s, broke_off (plain (refused e)))
      | none ↦ saved (save_run h applied s) then λ _ s'. (s', answered applied)
    ]

unfoldable pub ensure_sandbox : Host → Sandbox → AgentRun → Rounds → Rounds × Answer AgentRun
unfolding during_call host_failed save_run
ensure_sandbox h sandbox run s =
    let s' = during_call s in
    let (created, failed) = h.ensure sandbox in
    let fresh = record run { session_mode = SessionMode.fresh } in
    elim failed [
      | some text ↦ broken (host_failed h run text s')
      | none ↦
          if created && Agent.continues run.session_mode
          then saved (save_run h fresh s')
          then (λ _ s''. (s'', answered fresh))
          else (s', answered run)
    ]

unfoldable pub start_sandbox : Host → Sandbox → AgentRun → Rounds → Rounds × Answer (Unit {0})
unfolding during_call host_failed
start_sandbox h sandbox run s =
    let s' = during_call s in
    elim (h.start sandbox) [
      | some text ↦ broken (host_failed h run text s')
      | none ↦ (s', answered tt)
    ]

-- The rest of `begin`, from the run that is admitted and whose sandbox is there.
unfoldable pub boot : Host → Sandbox → AgentRun → Rounds → Rounds × Answer (AgentRun × Sandbox)
unfolding move save_sandbox_status start_sandbox
boot h sandbox run s = save_sandbox_status h Agent.stopped sandbox s then (λ stopped s1.
    start_sandbox h stopped run s1 then (λ _ s2.
      save_sandbox_status h Agent.running stopped s2 then (λ running s3.
        move h Agent.start h.started_at run s3
        then (λ started s4. (s4, answered (started, running))))))

-- `begin` behind the supervisor's `Begin`, from the run that it minted.
unfoldable pub begin_run : Host → Sandbox → AgentRun → Rounds → Rounds × Answer (AgentRun × Sandbox)
unfolding save_run move ensure_sandbox boot
begin_run h sandbox run s =
    saved (save_run h run s)
    then (λ _ s1. move h Agent.admit run.created_at run s1)
    then (λ admitted s2. ensure_sandbox h sandbox admitted s2)
    then (λ ensured s3. boot h sandbox ensured s3)

-- What the function that `begin` returns does, and `begin`: on failure it does it itself.
unfoldable pub finish : Text → Rounds → Rounds
unfolding release complete
finish id s = record s { supervisor = complete id (release id s.supervisor) }

abbrev pub settle : Text → {A : Type 0} → Rounds × Answer A → Rounds × Answer A
settle id (s, answered a) = (s, answered a)
settle id (s, broke_off e) = (finish id s, broke_off e)

abbrev pub tracked : Text → Rounds → Rounds
tracked id s = record s { supervisor = Supervisor.begin id s.supervisor }

unfoldable pub begin : Host → Sandbox → AgentRun → Rounds → Rounds × Answer (AgentRun × Sandbox)
unfolding Supervisor.begin begin_run finish
begin h sandbox run s = settle run.id (begin_run h sandbox run (tracked run.id s))

-- `invoke`: the stop happens whatever the agent gave.
unfoldable pub stop_sandbox : Host → Sandbox → Rounds → Rounds × Option Text × Answer Sandbox
unfolding during_call save_sandbox_status
stop_sandbox h sandbox s =
    let s' = during_call s in
    let failed = if h.shutting_down then h.stop_now sandbox else h.stop sandbox in
    let status : SandboxStatus = elim failed [ none ↦ Agent.stopped | some text ↦ Agent.broken ] in
    let (s'', kept) = save_sandbox_status h status sandbox s' in (s'', failed, kept)

unfoldable pub invoke : Host → Sandbox → AgentRun → Rounds → Rounds × Answer Text
unfolding during_call fail host_failed stop_sandbox trim_space
invoke h sandbox run s = elim (h.command run) [
  | some text ↦ broken (fail h run text s)
  | none ↦
      let (output, failed) = h.run run in
      let (s', stop_failed, kept) = stop_sandbox h sandbox (during_call s) in
      elim kept [
        | broke_off e ↦ (s', broke_off e)
        | answered stopped ↦ elim failed [
          | some text ↦
              let said =
                if h.stalled
                then h.stalled_text text
                else if h.expired
                then h.expired_text text
                else text in
              broken (host_failed h (record run { error = trim_space output }) said s')
          | none ↦ elim stop_failed [
            | some text ↦ broken (host_failed h run text s')
            | none ↦ (s', answered (h.extract_answer output))
          ]
        ]
      ]
]

-- ===== src/Agent.antt =====
-- internal/domain/agent/agent.go: agents' roles and subjects, the mode of a session, the sandbox
-- and the run of one round, each with its state machine. `RunUsage`, whose cost is a float, is
-- left out of the run.
pub mod Sandboxes
pub mod Runs
pub mod Sessions
pub mod Settings
mod Examples
use donsy.Prelude.{
  ℕ, Bool, true, false, ◌||◌, ◌&&◌, not, Option, none, some, List, [], ◌∷◌, any, if◌then◌else◌,
}
use donsy.Prelude.Int.{ℤ, pos, ltb_ℤ}
use donsy.Text.{Text, text_eq, is_empty, codes}
use donsy.Errors.{
  Error, Result, ok, err, Outcome, success, failure, bad_subject_kind, subject_id_required,
  sandbox_fields_required, bad_sandbox, no_sandbox_event, bad_sandbox_status, run_fields_required,
  bad_run, no_continuation, no_run_event,
}
use donsy.Epic.Issue.{Time}

-- Go string types: `unknown` is a text that is none of the constants.
pub data AgentRole : Type 0 where
  refiner issue_reviewer coding pr_reviewer merge : AgentRole
  unknown : Text → AgentRole

pub data AgentEngine : Type 0 where
  open_code : AgentEngine
  unknown : Text → AgentEngine

pub data AgentSubjectKind : Type 0 where
  epic issue : AgentSubjectKind
  unknown : Text → AgentSubjectKind

pub record AgentSubject : Type 0 where
  pub kind : AgentSubjectKind
  pub id : Text

pub data SessionMode : Type 0 where
  fresh continue : SessionMode
  unknown : Text → SessionMode

pub data SandboxStatus : Type 0 where
  absent creating stopped starting running stopping broken deleting : SandboxStatus
  unknown : Text → SandboxStatus

pub data SandboxEvent : Type 0 where
  create start ready stop stopped fail delete delete_done : SandboxEvent
  unknown : Text → SandboxEvent

pub data AgentRunStatus : Type 0 where
  queued admitted running succeeded failed cancelled stalled host_failed : AgentRunStatus
  unknown : Text → AgentRunStatus

pub data AgentRunEvent : Type 0 where
  admit start succeed fail cancel stall host_fail : AgentRunEvent
  unknown : Text → AgentRunEvent

-- `a == b` on roles.
unfoldable pub role_eq : AgentRole → AgentRole → Bool
role_eq refiner refiner = true
role_eq issue_reviewer issue_reviewer = true
role_eq coding coding = true
role_eq pr_reviewer pr_reviewer = true
role_eq merge merge = true
role_eq (AgentRole.unknown s) (AgentRole.unknown t) = text_eq s t
role_eq _ _ = false

-- `roles`, in the order of the pipeline.
abbrev pub roles : List AgentRole
roles = refiner ∷ issue_reviewer ∷ coding ∷ pr_reviewer ∷ merge ∷ []

unfoldable pub is_agent_role : AgentRole → Bool
unfolding role_eq
is_agent_role role = any (λ candidate. role_eq candidate role) roles

abbrev is_subject_kind : AgentSubjectKind → Bool
is_subject_kind (AgentSubjectKind.unknown k) = false
is_subject_kind _ = true

-- `(s AgentSubject) Validate`.
unfoldable pub validate_subject : AgentSubject → Result (Unit {0})
validate_subject s =
    if not (is_subject_kind s.kind)
    then err bad_subject_kind
    else if is_empty s.id
    then err subject_id_required
    else ok tt

unfoldable pub session_mode_for : AgentEngine → AgentRole → SessionMode
session_mode_for (AgentEngine.unknown e) role = fresh
session_mode_for open_code merge = fresh
session_mode_for open_code role = continue

pub record Sandbox : Type 0 where
  pub id : Text
  pub project_id : ℕ
  pub name : Text
  pub role : AgentRole
  pub subject : AgentSubject
  pub status : SandboxStatus
  pub created_at : Time
  pub updated_at : Time

unfoldable pub is_sandbox_status : SandboxStatus → Bool
is_sandbox_status (SandboxStatus.unknown s) = false
is_sandbox_status _ = true

-- The case of `fail` is open to every other status, an undefined one too.
unfoldable pub sandbox_transition : SandboxStatus → SandboxEvent → Option SandboxStatus
sandbox_transition absent create = some creating
sandbox_transition creating ready = some SandboxStatus.stopped
sandbox_transition SandboxStatus.stopped SandboxEvent.start = some starting
sandbox_transition starting ready = some SandboxStatus.running
sandbox_transition SandboxStatus.running stop = some stopping
sandbox_transition stopping SandboxEvent.stopped = some SandboxStatus.stopped
sandbox_transition SandboxStatus.stopped delete = some deleting
sandbox_transition broken delete = some deleting
sandbox_transition deleting delete_done = some absent
sandbox_transition absent SandboxEvent.fail = none
sandbox_transition deleting SandboxEvent.fail = none
sandbox_transition status SandboxEvent.fail = some broken
sandbox_transition _ _ = none

-- `(v *Sandbox) Validate`.
unfoldable pub validate_sandbox : Sandbox → Result (Unit {0})
unfolding is_agent_role is_sandbox_status validate_subject
validate_sandbox v =
    if is_empty v.id || is_empty v.name
    then err sandbox_fields_required
    else if not (is_agent_role v.role) || not (is_sandbox_status v.status)
    then err bad_sandbox
    else validate_subject v.subject

-- `(v *Sandbox) Apply`.
unfoldable pub apply_sandbox : SandboxEvent → Sandbox → Outcome Sandbox
unfolding sandbox_transition
apply_sandbox event v = elim (sandbox_transition v.status event) [
  | none ↦ failure no_sandbox_event v
  | some next ↦ success (record v { status = next })
]

unfoldable pub reconcile : SandboxStatus → Sandbox → Outcome Sandbox
unfolding is_sandbox_status
reconcile observed v =
    if not (is_sandbox_status observed)
    then failure bad_sandbox_status v
    else success (record v { status = observed })

-- A `*time.Time` is an option: nothing writes to the time that it points at.
pub record AgentRun : Type 0 where
  pub id : Text
  pub project_id : ℕ
  pub sandbox_id : Text
  pub role : AgentRole
  pub subject : AgentSubject
  pub engine : AgentEngine
  pub agent : Text
  pub variant : Text
  pub session_mode : SessionMode
  pub status : AgentRunStatus
  pub round : ℤ
  pub error : Text
  pub created_at : Time
  pub started_at : Option Time
  pub finished_at : Option Time

unfoldable pub is_agent_run_status : AgentRunStatus → Bool
is_agent_run_status (AgentRunStatus.unknown s) = false
is_agent_run_status _ = true

unfoldable pub is_terminal_agent_run_status : AgentRunStatus → Bool
is_terminal_agent_run_status succeeded = true
is_terminal_agent_run_status failed = true
is_terminal_agent_run_status cancelled = true
is_terminal_agent_run_status stalled = true
is_terminal_agent_run_status host_failed = true
is_terminal_agent_run_status _ = false

unfoldable pub counts_toward_round_limit : AgentRun → Bool
counts_toward_round_limit r = elim r.status [ host_failed ↦ false | _ ↦ true ]

unfoldable pub agent_run_transition : AgentRunStatus → AgentRunEvent → Option AgentRunStatus
agent_run_transition queued admit = some admitted
agent_run_transition admitted AgentRunEvent.start = some AgentRunStatus.running
agent_run_transition queued cancel = some cancelled
agent_run_transition admitted cancel = some cancelled
agent_run_transition AgentRunStatus.running succeed = some succeeded
agent_run_transition queued AgentRunEvent.fail = some failed
agent_run_transition admitted AgentRunEvent.fail = some failed
agent_run_transition AgentRunStatus.running AgentRunEvent.fail = some failed
agent_run_transition AgentRunStatus.running cancel = some cancelled
agent_run_transition queued stall = some stalled
agent_run_transition admitted stall = some stalled
agent_run_transition AgentRunStatus.running stall = some stalled
agent_run_transition queued host_fail = some host_failed
agent_run_transition admitted host_fail = some host_failed
agent_run_transition AgentRunStatus.running host_fail = some host_failed
agent_run_transition _ _ = none

abbrev is_open_code : AgentEngine → Bool
is_open_code open_code = true
is_open_code _ = false

abbrev is_session_mode : SessionMode → Bool
is_session_mode (SessionMode.unknown s) = false
is_session_mode _ = true

abbrev pub continues : SessionMode → Bool
continues continue = true
continues _ = false

-- `(r *AgentRun) Validate`.
unfoldable pub validate_run : AgentRun → Result (Unit {0})
unfolding is_agent_role is_agent_run_status session_mode_for validate_subject
validate_run r =
    if is_empty r.id || is_empty r.sandbox_id || is_empty r.agent || ltb_ℤ r.round (pos 1)
    then err run_fields_required
    else if not (is_agent_role r.role)
        || not (is_open_code r.engine)
        || not (is_session_mode r.session_mode)
        || not (is_agent_run_status r.status)
    then err bad_run
    else if continues r.session_mode && not (continues (session_mode_for r.engine r.role))
    then err no_continuation
    else validate_subject r.subject

abbrev is_running : AgentRunStatus → Bool
is_running AgentRunStatus.running = true
is_running _ = false

-- `(r *AgentRun) Apply`.
unfoldable pub apply_run : AgentRunEvent → Time → AgentRun → Outcome AgentRun
unfolding agent_run_transition is_terminal_agent_run_status
apply_run event at r = elim (agent_run_transition r.status event) [
  | none ↦ failure no_run_event r
  | some next ↦ success (record r {
    status = next;
    started_at = if is_running next then some at else r.started_at;
    finished_at = if is_terminal_agent_run_status next then some at else r.finished_at;
  })
]

-- The loop of `lastRoundSucceeded`, with the run that it holds as the latest.
unfoldable pub latest_round : AgentRole → Option AgentRun → List AgentRun → Option AgentRun
unfolding role_eq
latest_round role latest [] = latest
latest_round role none (run ∷ rest) =
    let newer = latest_round role (some run) rest in
    let older = latest_round role none rest in if not (role_eq run.role role) then older else newer
latest_round role (some held) (run ∷ rest) =
    let newer = latest_round role (some run) rest in
    let older = latest_round role (some held) rest in
    if not (role_eq run.role role)
    then older
    else if ltb_ℤ held.round run.round
    then newer
    else older

abbrev pub has_succeeded : AgentRunStatus → Bool
has_succeeded succeeded = true
has_succeeded _ = false

unfoldable pub last_round_succeeded : AgentRole → List AgentRun → Bool
unfolding latest_round
last_round_succeeded role previous = elim (latest_round role none previous) [
  | none ↦ false
  | some latest ↦ has_succeeded latest.status
]

-- `sessionContinuationEnabled`.
abbrev pub session_continuation_enabled : Bool
session_continuation_enabled = false

unfoldable pub session_mode_after : AgentEngine → AgentRole → List AgentRun → SessionMode
unfolding session_mode_for last_round_succeeded
session_mode_after engine role previous =
    if not session_continuation_enabled
    then fresh
    else if not (continues (session_mode_for engine role))
    then fresh
    else if not (last_round_succeeded role previous)
    then fresh
    else continue

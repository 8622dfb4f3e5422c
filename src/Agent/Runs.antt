-- ===== src/Agent/Runs.antt =====
-- The life of a run of an agent: its times, and how far it can go.
use donsy.Prelude.{◌≡◌, ◌≤◌, ◌+◌, ℕ, Bool, true, false, Option, none, some, List, [], ◌∷◌, arith}
use donsy.Errors.{ok, failure, succeeds, no_run_event}
use donsy.Epic.Issue.{Time}
use donsy.Agent.{
  AgentRun, AgentRunStatus, AgentRunEvent, queued, admitted, running, apply_run,
  is_terminal_agent_run_status, validate_run,
}

-- A run that has ended accepts no event, and stays as it is.
pub ended_run_absorbs :
    (event : AgentRunEvent) (at : Time) (r : AgentRun)
    → is_terminal_agent_run_status r.status ≡ true
    → apply_run event at r ≡ failure no_run_event r
unfolding apply_run
ended_run_absorbs event at r h = ground arith

-- `Apply` keeps a valid run valid.
pub apply_run-valid :
    (event : AgentRunEvent) (at : Time) (r : AgentRun)
    → validate_run r ≡ ok tt
    → validate_run (apply_run event at r).0 ≡ ok tt
unfolding apply_run validate_run
apply_run-valid event at r h = ground arith

abbrev pub is_some {ℓ} : {A : Type ℓ} → Option A → Bool
is_some none = false
is_some (some a) = true

abbrev pub is_live : AgentRunStatus → Bool
is_live queued = true
is_live admitted = true
is_live running = true
is_live _ = false

-- The times of a run agree with its status: it has an end exactly if its status is terminal, and a
-- running one has a start.
abbrev pub IsTimed : AgentRun → Type 0
IsTimed r =
    (is_some r.finished_at ≡ is_terminal_agent_run_status r.status)
    × (r.status ≡ running → is_some r.started_at ≡ true)

pub apply_run-IsTimed :
    (event : AgentRunEvent) (at : Time) (r : AgentRun)
    → IsTimed r
    → IsTimed (apply_run event at r).0
unfolding apply_run
apply_run-IsTimed event at r h = (ground arith, λ k. ground arith)

-- The run after events at times, the errors ignored, and how many of them were accepted.
unfoldable pub live : List (AgentRunEvent × Time) → AgentRun → AgentRun
live [] r = r
live ((event, at) ∷ rest) r = live rest (apply_run event at r).0

abbrev count : Bool → ℕ
count true = 1
count false = 0

unfoldable pub accepted : List (AgentRunEvent × Time) → AgentRun → ℕ
accepted [] r = 0
accepted ((event, at) ∷ rest) r =
    count (succeeds (apply_run event at r)) + accepted rest (apply_run event at r).0

-- If a run has an end exactly when its status is terminal, and a start when it runs, the same
-- holds after any events at any times, the refused ones ignored.
pub live-IsTimed :
    (events : List (AgentRunEvent × Time)) (r : AgentRun) → IsTimed r → IsTimed (live events r)
unfolding live
live-IsTimed [] r h = h
live-IsTimed ((event, at) ∷ rest) r h =
    live-IsTimed rest (apply_run event at r).0 (apply_run-IsTimed event at r h)

-- The number of steps that a status has left.
abbrev steps_left : AgentRunStatus → ℕ
steps_left queued = 3
steps_left admitted = 2
steps_left running = 1
steps_left _ = 0

apply_run-steps :
    (event : AgentRunEvent) (at : Time) (r : AgentRun)
    → count (succeeds (apply_run event at r)) + steps_left (apply_run event at r).0.status
      ≤ steps_left r.status
unfolding apply_run
apply_run-steps event at r = ground arith

accepted_le_left :
    (events : List (AgentRunEvent × Time)) (r : AgentRun) → accepted events r ≤ steps_left r.status
unfolding accepted
accepted_le_left [] r = omega arith
accepted_le_left ((event, at) ∷ rest) r =
    omega (arith, apply_run-steps event at r, accepted_le_left rest (apply_run event at r).0)

steps_left_le : (s : AgentRunStatus) → steps_left s ≤ 3
steps_left_le s = ground arith

-- Of any events that a run is given, it accepts at most three.
pub accepted_le : (events : List (AgentRunEvent × Time)) (r : AgentRun) → accepted events r ≤ 3
accepted_le events r = omega (arith, accepted_le_left events r, steps_left_le r.status)

abbrev pub is_ending : AgentRunEvent → Bool
is_ending AgentRunEvent.fail = true
is_ending AgentRunEvent.cancel = true
is_ending AgentRunEvent.stall = true
is_ending AgentRunEvent.host_fail = true
is_ending _ = false

-- In each of the three live statuses a failure, a stall, a cancellation and a host failure are all
-- accepted, and end the run; from any other status none of them is.
pub can_end :
    (event : AgentRunEvent) (at : Time) (r : AgentRun)
    → is_ending event ≡ true
    → (succeeds (apply_run event at r) ≡ is_live r.status)
      × (is_live r.status ≡ true
          → is_terminal_agent_run_status (apply_run event at r).0.status ≡ true)
unfolding apply_run
can_end event at r h = (ground arith, λ l. ground arith)

-- ===== src/Worker.antt =====
-- internal/application/usecases/epic_worker.go: the scheduler of rounds. Worker is the state that
-- the goroutine of `Run` owns, with the two channels: `active` are the rounds that hold a slot of
-- `rounds`, `finished` those that gave the slot back and wait to send their result, and `results`
-- the buffer of the channel. A map is a list of its entries, one for each key. Counts and times are
-- as in the rest of the library; a duration is in nanoseconds.
pub mod Keys
pub mod Retries
pub mod Steps
pub mod Exclusion
pub mod Tick
mod Examples
use donsy.Prelude.{
  ℕ, zero, suc, ◌+◌, ◌-◌, ◌*◌, ◌^◌, Bool, true, false, ◌||◌, ◌&&◌, not, Option, none, some, List,
  [], ◌∷◌, ◌++◌, any, ltb, leb, ◌==◌, length, if◌then◌else◌,
}
use donsy.Prelude.Int.{ℤ, pos, inc, wrap, ltb_ℤ, pos_part}
use donsy.Text.{Text, text_eq}
use donsy.Epic.Issue.{Time}
use donsy.Agent.{AgentSubject, AgentSubjectKind}
use Keys.{SubjectKey, lookup, delete, put}

-- An error of a round: whether it wraps `ErrHostFailure`, and its text.
pub record Failure : Type 0 where
  pub from_host : Bool
  pub message : Text

pub record RoundResult : Type 0 where
  pub key : SubjectKey
  pub epic_id : Text
  pub failed : Option Failure

pub record Retry : Type 0 where
  pub failures : ℤ
  pub until : Time
  pub host_failures : ℤ

-- A round on its goroutine: its subject, and the epic that it belongs to.
pub record Round : Type 0 where
  pub key : SubjectKey
  pub epic_id : Text

pub record Worker : Type 0 where
  pub inflight : List (SubjectKey × Text)
  pub retries : List (SubjectKey × Retry)
  pub reported : List (SubjectKey × Text)
  pub last_sweep : Time
  pub recovered : Bool
  pub active : List Round
  pub finished : List RoundResult
  pub results : List RoundResult

abbrev pub second : ℕ
second = 1000000000

-- `retryBase`, `retryCap`, `hostFailureBreaker`, `breakerCooldown`, `maxConcurrentRounds` and
-- `approvedBranchSweepInterval`.
abbrev pub retry_base : ℕ
retry_base = 15 * second

abbrev pub retry_cap : ℕ
retry_cap = 3600 * second

abbrev pub host_failure_breaker : ℤ
host_failure_breaker = pos 5

abbrev pub breaker_cooldown : ℕ
breaker_cooldown = 21600 * second

abbrev pub max_concurrent_rounds : ℕ
max_concurrent_rounds = 8

abbrev pub approved_branch_sweep_interval : ℕ
approved_branch_sweep_interval = 60 * second

-- `NewEpicWorker`.
abbrev pub new_epic_worker : Worker
new_epic_worker = record {
  inflight = [];
  retries = [];
  reported = [];
  last_sweep = 0;
  recovered = false;
  active = [];
  finished = [];
  results = [];
}

-- `retryBase << (failures - 1)` in 64 bits, and its cap. The count is at least 1 here.
unfoldable pub retry_delay : ℤ → ℕ
retry_delay failures =
    let shifted = wrap (pos (retry_base * 2 ^ (pos_part failures - 1))) in
    if not (ltb_ℤ (pos 0) shifted) || ltb_ℤ (pos retry_cap) shifted
    then retry_cap
    else pos_part shifted

abbrev pub no_retry : Retry
no_retry = record { failures = pos 0; until = 0; host_failures = pos 0 }

abbrev pub held_for : SubjectKey → List (SubjectKey × Retry) → Retry
held_for key retries = elim (lookup key retries) [ none ↦ no_retry | some held ↦ held ]

-- What `record` books of a failed round.
unfoldable pub booked : Time → Failure → Retry → Retry
unfolding inc retry_delay
booked now failed held =
    let failures = inc held.failures in
    let delay = retry_delay failures in
    let host_failures = if failed.from_host then inc held.host_failures else pos 0 in
    let broken = failed.from_host && not (ltb_ℤ host_failures host_failure_breaker) in
    record {
      failures = failures;
      until = now + (if broken then breaker_cooldown else delay);
      host_failures = host_failures;
    }

-- `record`.
unfoldable pub record_result : Time → RoundResult → Worker → Worker
unfolding lookup delete put booked
record_result now result w =
    let freed = record w { inflight = delete result.key w.inflight } in
    elim result.failed [
      | none ↦ record freed { retries = delete result.key w.retries }
      | some failed ↦ record freed {
        retries = put result.key (booked now failed (held_for result.key w.retries)) w.retries;
      }
    ]

-- `reportSubject`: the worker, and the text that is reported.
unfoldable pub report_subject : SubjectKey → Option Failure → Worker → Worker × Option Text
unfolding lookup delete put text_eq
report_subject key failed w = elim failed [
  | none ↦ (record w { reported = delete key w.reported }, none)
  | some f ↦
      let known : Text = elim (lookup key w.reported) [ none ↦ [] | some message ↦ message ] in
      if text_eq known f.message
      then (w, none)
      else (record w { reported = put key f.message w.reported }, some f.message)
]

-- `finish`; `tripped` is the text that names the count and the wait.
unfoldable pub finish : (Text → Text) → Time → RoundResult → Worker → Worker × Option Text
unfolding lookup record_result report_subject
finish tripped now result w =
    let booked = record_result now result w in
    let held = held_for result.key booked.retries in
    let failed : Option Failure = elim result.failed [
      | none ↦ none
      | some f ↦ some (
          if not (ltb_ℤ held.host_failures host_failure_breaker)
            && not (ltb_ℤ host_failure_breaker held.host_failures)
          then record f { message = tripped f.message }
          else f)
    ] in
    report_subject result.key failed booked

-- The tests of `dispatch`, in its order: a round on the subject, a hold, and the ceiling.
unfoldable pub is_busy : SubjectKey → Worker → Bool
unfolding lookup
is_busy key w = elim (lookup key w.inflight) [ none ↦ false | some epic ↦ true ]

unfoldable pub is_held : Time → SubjectKey → Worker → Bool
unfolding lookup
is_held now key w = elim (lookup key w.retries) [ none ↦ false | some held ↦ ltb now held.until ]

-- `dispatch`. The round itself goes on beside the scheduler: see Steps.
unfoldable pub dispatch : Time → SubjectKey → Text → Worker → Worker
unfolding is_busy is_held put
dispatch now key epic w =
    if is_busy key w || is_held now key w || not (ltb (length w.active) max_concurrent_rounds)
    then w
    else record w {
      inflight = put key epic w.inflight;
      active = w.active ++ record { key = key; epic_id = epic } ∷ [];
    }

unfoldable pub record_all : Time → List RoundResult → Worker → Worker
unfolding record_result
record_all now [] w = w
record_all now (result ∷ rest) w = record_all now rest (record_result now result w)

-- `drain`: all that is in the channel. What is sent while it runs is received by the next one.
unfoldable pub drain : Time → Worker → Worker
unfolding record_all
drain now w = record_all now w.results (record w { results = [] })

-- `inflightSubjects` and `inflightEpics`: the elements of the set, maybe more than once.
unfoldable pub inflight_subjects : ℕ → List (SubjectKey × Text) → List AgentSubject
inflight_subjects project [] = []
inflight_subjects project ((key, epic) ∷ rest) =
    let more = inflight_subjects project rest in
    if key.project == project then key.subject ∷ more else more

unfoldable pub inflight_epics : ℕ → List (SubjectKey × Text) → List Text
inflight_epics project [] = []
inflight_epics project ((key, epic) ∷ rest) =
    let more = inflight_epics project rest in if key.project == project then epic ∷ more else more

-- `dueForSweep`.
unfoldable pub due_for_sweep : Time → Worker → Worker × Bool
due_for_sweep now w =
    if not (w.last_sweep == 0) && ltb (now - w.last_sweep) approved_branch_sweep_interval
    then (w, false)
    else (record w { last_sweep = now }, true)

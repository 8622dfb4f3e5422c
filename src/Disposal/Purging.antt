-- ===== src/Disposal/Purging.antt =====
-- purge_finished_work.go: the calls that remove the working copies and the transcripts of finished
-- work, in their order.
use donsy.Prelude.{
  ◌≡◌, refl, ap, ◌∙◌, inl, inr, Bool, true, ◌||◌, ◌&&◌, not, Option, none, some, List, [], ◌∷◌,
  ◌++◌, any, all, all_mono, all_append, arith, Option-cases, if◌then◌else◌, length, ltb,
}
use donsy.Text.{Text, text_eq}
use donsy.Text.Equality.{text_eq_iff}
use donsy.Errors.{Error, Result, ok, err, Result-cases}
use donsy.Epic.State
use donsy.Epic.State.{EpicState, epic_state_eq}
use donsy.Epic.Aggregate.{Epic}
use donsy.Agent.{AgentRun, AgentSubject}
use donsy.Workflow.{terminal_subjects, is_live_agent_run_status}
use donsy.Worker.Keys.{subject_eq}
use donsy.Worker.Tick.{PurgeCommand}

pub data PurgeCall : Type 0 where
  purges_workspace purges_checkouts discards_output : Text → PurgeCall

-- The working copies, the checkouts and the transcripts, where they are there, and the runs that the
-- registry lists, where there is one.
pub record Remains : Type 0 where
  pub repos : Option (Text → Option Error)
  pub code : Option (Text → Option Error)
  pub output : Option (Text → Option Error)
  pub runs : Option (Result (List AgentRun))

abbrev pub Purged : Type 0
Purged = List PurgeCall × List Error

abbrev pub then_purged : Purged → Purged → Purged
then_purged (calls, errors) (later, failures) = (calls ++ later, errors ++ failures)

unfoldable pub finished_epics : List Epic → List Text
finished_epics [] = []
finished_epics (e ∷ rest) =
    let more = finished_epics rest in
    if epic_state_eq e.progress.state State.done || epic_state_eq e.progress.state State.closed
    then e.id ∷ more
    else more

-- One call, where what it is made on is there.
abbrev pub purge_call : (Text → PurgeCall) → Option (Text → Option Error) → Text → Purged
purge_call call none id = ([], [])
purge_call call (some remove) id = (call id ∷ [], elim (remove id) [ none ↦ [] | some x ↦ x ∷ [] ])

module _ (r : Remains) where
  -- The loop of `Handle`.
  unfoldable pub purge_epics : List Text → List Text → Purged
  purge_epics inflight [] = ([], [])
  purge_epics inflight (id ∷ rest) =
      let more = purge_epics inflight rest in
      if any (text_eq id) inflight
      then more
      else then_purged
          (then_purged (purge_call purges_workspace r.repos id)
            (purge_call purges_checkouts r.code id))
          more

  -- `discardTranscripts`, and its loop.
  unfoldable pub discard_runs : (Text → Option Error) → List AgentSubject → List AgentRun → Purged
  discard_runs remove terminal [] = ([], [])
  discard_runs remove terminal (run ∷ rest) =
      let more = discard_runs remove terminal rest in
      if not (any (subject_eq run.subject) terminal)
      then more
      else if is_live_agent_run_status run.status
      then more
      else then_purged (purge_call discards_output (some remove) run.id) more

  unfoldable pub discard_transcripts : List Epic → Purged
  discard_transcripts epics = elim r.output [
    | none ↦ ([], [])
    | some remove ↦ elim r.runs [
      | none ↦ ([], [])
      | some listed ↦
          let discarded : Purged = elim listed [
            | err x ↦ ([], x ∷ [])
            | ok runs ↦ discard_runs remove (terminal_subjects epics) runs
          ] in
          if ltb 0 (length (terminal_subjects epics)) then discarded else ([], [])
    ]
  ]

  unfoldable pub purge_finished_work : PurgeCommand → Purged
  purge_finished_work command =
      then_purged (purge_epics command.inflight (finished_epics command.epics))
        (discard_transcripts command.epics)

-- What a call may remove.
abbrev pub is_finished_epic : List Epic → Text → Bool
is_finished_epic epics id =
    any
      (λ (e : Epic).
        text_eq e.id id
        && (epic_state_eq e.progress.state State.done
            || epic_state_eq e.progress.state State.closed))
      epics

abbrev pub is_finished_run : List AgentSubject → List AgentRun → Text → Bool
is_finished_run terminal runs id =
    any
      (λ (run : AgentRun).
        text_eq run.id id
        && any (subject_eq run.subject) terminal
        && not (is_live_agent_run_status run.status))
      runs

abbrev pub runs_listed : Remains → List AgentRun
runs_listed r = elim r.runs [
  | none ↦ []
  | some listed ↦ elim listed [ err x ↦ [] | ok runs ↦ runs ]
]

abbrev pub may_purge : Remains → PurgeCommand → PurgeCall → Bool
may_purge r command (purges_workspace id) =
    is_finished_epic command.epics id && not (any (text_eq id) command.inflight)
may_purge r command (purges_checkouts id) =
    is_finished_epic command.epics id && not (any (text_eq id) command.inflight)
may_purge r command (discards_output id) =
    is_finished_run (terminal_subjects command.epics) (runs_listed r) id

finished_epics_finished :
    (epics : List Epic) → all (is_finished_epic epics) (finished_epics epics) ≡ true
unfolding finished_epics
finished_epics_finished [] = refl
finished_epics_finished (e ∷ rest) = ground (
  arith,
  (text_eq_iff e.id e.id).1 refl,
  all_mono (is_finished_epic rest) (is_finished_epic (e ∷ rest)) (finished_epics rest)
      (λ id k. ground arith) (finished_epics_finished rest),
)

module _ (r : Remains) (command : PurgeCommand) where
  purge_epics_may :
      (ids : List Text)
      → all (is_finished_epic command.epics) ids ≡ true
      → all (may_purge r command) (purge_epics r command.inflight ids).0 ≡ true
  unfolding purge_epics
  purge_epics_may [] h = refl
  purge_epics_may (id ∷ rest) h = ground (
    arith,
    purge_epics_may rest,
    all_append (may_purge r command)
        ((purge_call purges_workspace r.repos id).0 ++ (purge_call purges_checkouts r.code id).0)
        (purge_epics r command.inflight rest).0,
  )

  discard_runs_finished :
      (remove : Text → Option Error) (terminal : List AgentSubject) (runs : List AgentRun)
      (P : PurgeCall → Bool)
      → ((id : Text) → is_finished_run terminal runs id ≡ true → P (discards_output id) ≡ true)
      → all P (discard_runs r remove terminal runs).0 ≡ true
  unfolding discard_runs
  discard_runs_finished remove terminal [] P k = refl
  discard_runs_finished remove terminal (run ∷ rest) P k = ground (
    arith,
    (text_eq_iff run.id run.id).1 refl,
    k run.id,
    discard_runs_finished remove terminal rest P (λ id j. k id (ground arith)),
  )

  discard_transcripts_may : all (may_purge r command) (discard_transcripts r command.epics).0 ≡ true
  unfolding discard_transcripts
  discard_transcripts_may = elim (Option-cases r.output) [
    | inl n ↦ ground arith
    | inr (remove, o) ↦ elim (Option-cases r.runs) [
      | inl n ↦ ground arith
      | inr (listed, q) ↦ elim (Result-cases listed) [
        | inr (x, l) ↦ ground arith
        | inl (runs, l) ↦
            let seen : runs_listed r ≡ runs = ground arith in
            let terminal = terminal_subjects command.epics in
            let may =
              discard_runs_finished remove terminal runs (may_purge r command)
                (λ id k. ap (λ rs. is_finished_run terminal rs id) seen ∙ k) in
            ground (arith, may)
      ]
    ]
  ]

  -- Each call of a purge on the working copies or the checkouts is for an epic of the command that is
  -- Done or Closed and not in flight, and each on a transcript is for a listed run of a terminal
  -- subject that is not live.
  pub purges_finished : all (may_purge r command) (purge_finished_work r command).0 ≡ true
  unfolding purge_finished_work
  purges_finished =
      all_append (may_purge r command)
        (purge_epics r command.inflight (finished_epics command.epics)).0
        (discard_transcripts r command.epics).0
        (purge_epics_may (finished_epics command.epics) (finished_epics_finished command.epics))
        discard_transcripts_may

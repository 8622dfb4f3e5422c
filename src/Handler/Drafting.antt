-- ===== src/Handler/Drafting.antt =====
-- `RunEpicAgentUseCase.Handle`. DraftingRound is what the store, the registry and the sandboxes answer
-- in it. The release of the reservation and the round's `finish` are deferred calls.
use donsy.Prelude.{
  ℕ, Bool, true, false, ◌&&◌, not, Option, none, some, List, [], ◌∷◌, ◌++◌, if◌then◌else◌, ◌==◌,
}
use donsy.Prelude.Int.{ℤ, ltb_ℤ}
use donsy.Text.{Text, codes, is_empty}
use donsy.Errors.{Error, Result, ok, err, ◌>>=◌, outside}
use donsy.Epic.Issue.{Time}
use donsy.Epic.State
use donsy.Epic.State.{EpicState, EpicEvent, epic_state_eq}
use donsy.Epic.Aggregate.{Epic, on_progress}
use donsy.Agent
use donsy.Agent.{AgentRun, AgentRole, AgentSubject, Sandbox, SessionMode, role_eq}
use donsy.Agent.Settings.{AgentSettings, AgentProfile, profile}
use donsy.Workflow.{epic_role, next_round, round_limit, stall_live_runs, subject_of_epic}
use donsy.Worker.Keys.{subject_eq}
use donsy.Round
use donsy.Round.{
  Host, Rounds, RoundFailure, answered, broke_off, plain, queued_run, fail, succeed, invoke,
}
use donsy.Completion.{Draw, update_epic}
use donsy.Completion.Drafting.{complete_epic_run, fail_epic_for_round_limit}
use donsy.Handler.{Handled, HandlerFailure, before_round, in_round, report_on_root, report_failure}
use donsy.Handler.Mounts.{MountHost, epic_mounts, is_refiner}

pub record DraftingRound : Type 0 where
  pub read : Result Epic
  pub settings : Result AgentSettings
  pub read_file : Text → Result Text
  pub project_id : ℕ
  pub sandbox : Sandbox
  pub runs : Result (List AgentRun)
  pub save_stalled : AgentRun → Option Error
  pub reserve : Result Bool
  pub mounts : MountHost
  pub prompt : AgentRole → SessionMode → Option Text
  pub limit_text : AgentRole → ℤ → Text
  pub run_id : Text
  pub now : Time

pub record PreparedDraft : Type 0 where
  pub current : Epic
  pub role : AgentRole
  pub profile : AgentProfile
  pub runs : List AgentRun

-- The assignment of the state.
abbrev pub refining : PreparedDraft → PreparedDraft
refining p = record p {
  current = record p.current { progress = record p.current.progress { state = EpicState.refine } };
}

module _ (a : DraftingRound) where
  abbrev pub belongs : Epic → AgentRole → Bool
  belongs current role =
      (a.sandbox.project_id == a.project_id)
      && role_eq a.sandbox.role role
      && subject_eq a.sandbox.subject (subject_of_epic current)

  abbrev pub has_scope : Epic → Bool
  has_scope current = elim current.repositories [ [] ↦ false | ◌∷◌ r rest ↦ true ]

  unfoldable pub prepare_draft_role : Epic → AgentRole → Result (Option PreparedDraft)
  prepare_draft_role current role = a.settings >>= λ settings. profile role settings >>= λ chosen.
      (if is_empty settings.setup_script then ok [] else a.read_file settings.setup_script)
      >>= λ script.
          (if has_scope current && belongs current role then a.runs else err outside) >>= λ runs.
          ok (some (record { current = current; role = role; profile = chosen; runs = runs }))

  unfoldable pub prepare_draft : Result (Option PreparedDraft)
  prepare_draft = a.read >>= λ current. elim (epic_role current.progress.state) [
    | none ↦ ok none
    | some role ↦ prepare_draft_role current role
  ]

  abbrev pub minted_draft : PreparedDraft → AgentRun
  minted_draft p =
      queued_run a.run_id a.now p.profile.agent p.profile.variant (next_round p.runs) p.runs
        a.sandbox

  abbrev pub reaped_draft : List AgentRun → Rounds → Rounds
  reaped_draft runs s = record s { runs = runs ++ s.runs }

  module _ (h : Host) (write : Epic → Option Error) (tree : Epic → Result Epic) (draw : Draw)
      (judge : Text → Bool) (describe : RoundFailure → Text) (text_of : Error → Text) where
    abbrev pub ends_draft : Rounds → Epic → Option HandlerFailure → Handled
    ends_draft rounds stored failed = record {
      rounds = rounds;
      stored = stored;
      reserved = true;
      failed = failed;
    }

    abbrev pub reported_draft : PreparedDraft → Rounds × RoundFailure → Epic → Handled
    reported_draft p (s, failed) e =
        let (stored, said) =
          report_failure write describe draw (report_on_root write describe draw p.role) failed e in
        ends_draft s stored (some said)

    abbrev pub unmarked_draft : Text
    unmarked_draft = codes "agent did not return a marked answer"

    unfoldable pub complete_draft : PreparedDraft → AgentRun → Text → Rounds → Epic → Handled
    complete_draft p run answer s e =
        let (stored, failed) = complete_epic_run write tree judge draw p.role answer e in
        let (finished, unsaved) = succeed h run s in
        let recorded : Handled = elim failed [
          | some x ↦ reported_draft p (fail h run (text_of x) s) stored
          | none ↦ elim unsaved [
            | none ↦ ends_draft finished stored none
            | some cause ↦ ends_draft finished stored (some (in_round (plain cause) none))
          ]
        ] in
        if role_eq p.role Agent.issue_reviewer && is_empty answer
        then reported_draft p (fail h run unmarked_draft s) e
        else recorded

    unfoldable pub invoke_draft : PreparedDraft → AgentRun × Sandbox → Rounds → Epic → Handled
    invoke_draft p (run, sandbox) s e =
        let (s', answer) = invoke h sandbox run s in
        elim (a.prompt p.role run.session_mode) [
          | some x ↦
              let (failed, cause) = fail h run x s in
              ends_draft failed e (some (in_round cause none))
          | none ↦ elim answer [
            | broke_off cause ↦ reported_draft p (s', cause) e
            | answered text ↦ complete_draft p run text s' e
          ]
        ]

    abbrev pub finishing_draft : Text → Handled → Handled
    finishing_draft id r = record r { rounds = Round.finish id r.rounds }

    unfoldable pub draft_reserved : PreparedDraft → Rounds → Epic → Handled
    draft_reserved p s e =
        let run = minted_draft p in
        let (begun, started) = Round.begin h a.sandbox run s in
        elim (epic_mounts a.mounts p.current p.role) [
          | err x ↦ ends_draft s e (some (before_round x))
          | ok mounts ↦ elim started [
            | broke_off cause ↦ ends_draft begun e (some (in_round cause none))
            | answered began ↦ finishing_draft run.id (invoke_draft p began begun e)
          ]
        ]

    abbrev pub idles_draft : Rounds → Epic → Option HandlerFailure → Handled
    idles_draft s e failed = record { rounds = s; stored = e; reserved = false; failed = failed }

    abbrev pub failing_before : Option Error → Option HandlerFailure
    failing_before none = none
    failing_before (some x) = some (before_round x)

    -- From the round limit on.
    unfoldable pub draft_within : PreparedDraft → Rounds → Epic → Handled
    draft_within p s e =
        let limit = round_limit p.profile.max_rounds in
        let (stopped, unstopped) =
          fail_epic_for_round_limit write draw (a.limit_text p.role limit) e in
        let admitted : Handled = elim a.reserve [
          | err x ↦ idles_draft s e (some (before_round x))
          | ok b ↦ if b then draft_reserved p s e else idles_draft s e none
        ] in
        if ltb_ℤ limit (next_round p.runs)
        then idles_draft s stopped (failing_before unstopped)
        else admitted

    -- The epic is in Refine before its refiner runs.
    unfoldable pub draft_refining : PreparedDraft → Rounds → Epic → Handled
    draft_refining p s e =
        let (stored, failed) = update_epic write (on_progress (State.apply EpicEvent.refine)) e in
        let moved : Handled = elim failed [
          | some x ↦ idles_draft s stored (some (before_round x))
          | none ↦ draft_within (refining p) s stored
        ] in
        let stays = draft_within p s e in
        if is_refiner p.role && not (epic_state_eq p.current.progress.state EpicState.refine)
        then moved
        else stays

    unfoldable pub handle_epic : Rounds → Epic → Handled
    handle_epic s e = elim prepare_draft [
      | err x ↦ idles_draft s e (some (before_round x))
      | ok found ↦ elim found [
        | none ↦ idles_draft s e none
        | some p ↦
            let (stalled, unstalled) = stall_live_runs a.save_stalled a.now p.runs in
            elim unstalled [
              | some x ↦ idles_draft (reaped_draft stalled s) e (some (before_round x))
              | none ↦ draft_refining p (reaped_draft stalled s) e
            ]
      ]
    ]

-- ===== src/Handler/Drafted.antt =====
-- What a round on an epic has done when its handler gives no error.
use mathlib.Core.Path.{subst}
use donsy.Prelude.{
  ◌≡◌, sym, ap, ◌∙◌, inl, inr, Bool, true, false, ◌&&◌, not, Option, none, some, arith,
  Option-cases, Bool-cases, if◌then◌else◌,
}
use donsy.Prelude.Int.{ltb_ℤ}
use donsy.Text.{Text}
use donsy.Errors.{Error, Result, ok, Result-cases}
use donsy.Epic.State
use donsy.Epic.State.{EpicState, EpicEvent, epic_state_eq}
use donsy.Epic.Aggregate.{Epic, on_progress}
use donsy.Agent.{AgentRun, AgentRole, Sandbox}
use donsy.Workflow.{stall_live_runs, next_round, round_limit}
use donsy.Round.{Host, Rounds, RoundFailure, Answer, answered, broke_off, invoke, succeed}
use donsy.Round
use donsy.Completion.{Draw, update_epic}
use donsy.Completion.Drafting.{complete_epic_run, IsDrafted, complete_epic_run-IsDrafted}
use donsy.Handler.{Handled}
use donsy.Handler.Mounts.{epic_mounts, is_refiner}
use donsy.Handler.Answers.{Answer-cases, IsAnswer, invoke-IsAnswer}
use donsy.Agent
use donsy.Agent.{role_eq}
use donsy.Agent.Settings.{role_eq_iff, AgentSettings, profile}
use donsy.Text.{is_empty}
use donsy.Completion.Drafting.{update_epic_ok}
use donsy.Workflow.{epic_role}
use donsy.Handler.Drafting.{
  prepare_draft_role, DraftingRound, PreparedDraft, prepare_draft, complete_draft, invoke_draft,
  draft_reserved, draft_within, draft_refining, handle_epic, minted_draft, reaped_draft, refining,
}

-- What was found is of the epic that was read, the settings and the registry.
abbrev pub IsFoundDraft : DraftingRound → PreparedDraft → Type 0
IsFoundDraft a q =
    (a.read ≡ ok q.current)
    × (epic_role q.current.progress.state ≡ some q.role)
    × ((settings : AgentSettings) × (a.settings ≡ ok settings)
        × (profile q.role settings ≡ ok q.profile))
    × (a.runs ≡ ok q.runs)

prepare_draft_role_ok :
    (a : DraftingRound) (current : Epic) (role : AgentRole) (q : PreparedDraft)
    → prepare_draft_role a current role ≡ ok (some q)
    → (q.current ≡ current)
      × (q.role ≡ role)
      × ((settings : AgentSettings) × (a.settings ≡ ok settings)
          × (profile role settings ≡ ok q.profile))
      × (a.runs ≡ ok q.runs)
unfolding prepare_draft_role
prepare_draft_role_ok a current role q h = elim (Result-cases a.settings) [
  | inr (x, s) ↦ absurd (ground arith)
  | inl (settings, s) ↦ (ground arith, ground arith, (settings, s, ground arith), ground arith)
]

prepare_draft-IsFoundDraft :
    (a : DraftingRound) (q : PreparedDraft) → prepare_draft a ≡ ok (some q) → IsFoundDraft a q
unfolding prepare_draft
prepare_draft-IsFoundDraft a q h = elim (Result-cases a.read) [
  | inr (x, r) ↦ absurd (ground arith)
  | inl (current, r) ↦ elim (Option-cases (epic_role current.progress.state)) [
    | inl n ↦ absurd (ground arith)
    | inr (role, n) ↦
        let (same, chosen, (settings, s, found), runs) =
          prepare_draft_role_ok a current role q (ground arith) in
        (
          r ∙ ap ok (sym same),
          ap (λ (c : Epic). epic_role c.progress.state) same ∙ n ∙ ap some (sym chosen),
          (settings, s, ap (λ x. profile x settings) chosen ∙ found),
          runs,
        )
  ]
]

refined_state :
    (p : State.Progress)
    → (State.apply EpicEvent.refine p).1 ≡ none
    → (State.apply EpicEvent.refine p).0 ≡ record p { state = EpicState.refine }
unfolding State.apply
refined_state p h = ground arith

module _ (a : DraftingRound) (h : Host) (write : Epic → Option Error) (tree : Epic → Result Epic)
    (draw : Draw) (judge : Text → Bool) (describe : RoundFailure → Text)
    (text_of : Error → Text) where
  -- The reviewer has answered something, and the update of a round of the role, for an answer, is
  -- stored.
  abbrev pub AnswerDrafted : AgentRole → Text → Epic → Epic → Type 0
  AnswerDrafted role answer e u =
      (role ≡ Agent.issue_reviewer → is_empty answer ≡ false)
      × IsDrafted role tree draw (judge answer) answer e u

  -- The update of a round, from the stored epic e to u, where `rounds` is what it starts from: the
  -- answer is that of the run which it began.
  abbrev pub HasDrafted : PreparedDraft → Rounds → Epic → Epic → Type 0
  HasDrafted q rounds e u =
      (answer : Text) × (began : AgentRun × Sandbox) × ((Round.begin h a.sandbox (minted_draft a q)
          rounds).1
        ≡ answered began)
      × IsAnswer h began.0 answer
      × AnswerDrafted q.role answer e u

  complete_draft_ok :
      (q : PreparedDraft) (run : AgentRun) (answer : Text) (s : Rounds) (e : Epic)
      → (complete_draft a h write tree draw judge describe text_of q run answer s e).failed ≡ none
      → ((complete_epic_run write tree judge draw q.role answer e).1 ≡ none)
        × ((role_eq q.role Agent.issue_reviewer && is_empty answer) ≡ false)
        × ((complete_draft a h write tree draw judge describe text_of q run answer s e).stored
            ≡ (complete_epic_run write tree judge draw q.role answer e).0)
  unfolding complete_draft
  complete_draft_ok q run answer s e k =
      elim (Bool-cases (role_eq q.role Agent.issue_reviewer && is_empty answer)) [
        | inl b ↦ absurd (ground arith)
        | inr b ↦ elim (Option-cases (complete_epic_run write tree judge draw q.role answer e).1) [
          | inr (x, d) ↦ absurd (ground arith)
          | inl d ↦ (d, b, ground arith)
        ]
      ]

  complete_draft-AnswerDrafted :
      (q : PreparedDraft) (run : AgentRun) (answer : Text) (s : Rounds) (e : Epic)
      → (complete_draft a h write tree draw judge describe text_of q run answer s e).failed ≡ none
      → AnswerDrafted q.role answer e
          (complete_draft a h write tree draw judge describe text_of q run answer s e).stored
  complete_draft-AnswerDrafted q run answer s e k =
      let (done, marked, kept) = complete_draft_ok q run answer s e k in
      (
        (λ r. ground (arith, (role_eq_iff q.role Agent.issue_reviewer).1 r)),
        subst (λ (u : Epic). IsDrafted q.role tree draw (judge answer) answer e u) (sym kept)
            (complete_epic_run-IsDrafted write tree judge draw q.role answer e done),
      )

  invoke_draft-AnswerDrafted :
      (q : PreparedDraft) (began : AgentRun × Sandbox) (s : Rounds) (e : Epic)
      → (invoke_draft a h write tree draw judge describe text_of q began s e).failed ≡ none
      → (answer : Text) × IsAnswer h began.0 answer
        × AnswerDrafted q.role answer e
            (invoke_draft a h write tree draw judge describe text_of q began s e).stored
  unfolding invoke_draft
  invoke_draft-AnswerDrafted q (run, sandbox) s e k =
      let asked = invoke h sandbox run s in
      elim (Option-cases (a.prompt q.role run.session_mode)) [
        | inr (x, n) ↦ absurd (ground arith)
        | inl n ↦ elim (Answer-cases asked.1) [
          | inr (cause, b) ↦ absurd (ground arith)
          | inl (answer, b) ↦
              let same : invoke_draft a h write tree draw judge describe text_of q (run, sandbox) s
                    e
                  ≡ complete_draft a h write tree draw judge describe text_of q run answer asked.0
                      e =
                ground arith in
              (
                answer,
                invoke-IsAnswer h sandbox run s answer b,
                subst (λ (r : Handled). AnswerDrafted q.role answer e r.stored) (sym same)
                    (complete_draft-AnswerDrafted q run answer asked.0 e
                      (sym (ap (λ (r : Handled). r.failed) same) ∙ k)),
              )
        ]
      ]

  draft_reserved-HasDrafted :
      (q : PreparedDraft) (s : Rounds) (e : Epic)
      → (draft_reserved a h write tree draw judge describe text_of q s e).failed ≡ none
      → HasDrafted q s e (draft_reserved a h write tree draw judge describe text_of q s e).stored
  unfolding draft_reserved
  draft_reserved-HasDrafted q s e k =
      let started = Round.begin h a.sandbox (minted_draft a q) s in
      elim (Result-cases (epic_mounts a.mounts q.current q.role)) [
        | inr (x, n) ↦ absurd (ground arith)
        | inl (mounts, n) ↦ elim (Answer-cases started.1) [
          | inr (cause, b) ↦ absurd (ground arith)
          | inl (began, b) ↦
              let inside =
                invoke_draft a h write tree draw judge describe text_of q began started.0 e in
              let stored : (draft_reserved a h write tree draw judge describe text_of q s e).stored
                  ≡ inside.stored =
                ground arith in
              let failed : (draft_reserved a h write tree draw judge describe text_of q s e).failed
                  ≡ inside.failed =
                ground arith in
              let (answer, given, drafted) =
                invoke_draft-AnswerDrafted q began started.0 e (sym failed ∙ k) in
              (
                answer,
                began,
                b,
                given,
                subst (λ (u : Epic). AnswerDrafted q.role answer e u) (sym stored) drafted,
              )
        ]
      ]

  draft_within-HasDrafted :
      (q : PreparedDraft) (s : Rounds) (e : Epic)
      → (draft_within a h write tree draw judge describe text_of q s e).reserved ≡ true
      → (draft_within a h write tree draw judge describe text_of q s e).failed ≡ none
      → HasDrafted q s e (draft_within a h write tree draw judge describe text_of q s e).stored
  unfolding draft_within
  draft_within-HasDrafted q s e r k =
      elim (Bool-cases (ltb_ℤ (round_limit q.profile.max_rounds) (next_round q.runs))) [
        | inl over ↦ absurd (ground arith)
        | inr under ↦ elim (Result-cases a.reserve) [
          | inr (x, v) ↦ absurd (ground arith)
          | inl (b, v) ↦
              let inside = draft_reserved a h write tree draw judge describe text_of q s e in
              let same : draft_within a h write tree draw judge describe text_of q s e ≡ inside =
                ground arith in
              subst (λ (w : Handled). HasDrafted q s e w.stored) (sym same)
                (draft_reserved-HasDrafted q s e (sym (ap (λ (w : Handled). w.failed) same) ∙ k))
        ]
      ]

  moved_ok :
      (e : Epic)
      → (update_epic write (on_progress (State.apply EpicEvent.refine)) e).1 ≡ none
      → (update_epic write (on_progress (State.apply EpicEvent.refine)) e).0
        ≡ record e { progress = record e.progress { state = EpicState.refine } }
  moved_ok e h =
      let u = update_epic_ok write (on_progress (State.apply EpicEvent.refine)) e h in
      u.1 ∙ ap (λ (p : State.Progress). record e { progress = p }) (refined_state e.progress u.0)

  -- What the round starts from: the refiner's is in Refine.
  abbrev pub drafted_from : PreparedDraft → Epic → Epic
  drafted_from q e =
      if is_refiner q.role && not (epic_state_eq q.current.progress.state EpicState.refine)
      then record e { progress = record e.progress { state = EpicState.refine } }
      else e

  draft_refining-HasDrafted :
      (q : PreparedDraft) (s : Rounds) (e : Epic)
      → (draft_refining a h write tree draw judge describe text_of q s e).reserved ≡ true
      → (draft_refining a h write tree draw judge describe text_of q s e).failed ≡ none
      → HasDrafted q s
          (drafted_from q e)
          (draft_refining a h write tree draw judge describe text_of q s e).stored
  unfolding draft_refining
  draft_refining-HasDrafted q s e r k =
      let moved = update_epic write (on_progress (State.apply EpicEvent.refine)) e in
      elim (Bool-cases
        (is_refiner q.role && not (epic_state_eq q.current.progress.state EpicState.refine))) [
          | inr stays ↦
              let inside = draft_within a h write tree draw judge describe text_of q s e in
              let same : draft_refining a h write tree draw judge describe text_of q s e ≡ inside =
                ground arith in
              let from : e ≡ drafted_from q e = ground arith in
              subst (λ (w : Handled). HasDrafted q s (drafted_from q e) w.stored) (sym same)
                (subst (λ (u : Epic). HasDrafted q s u inside.stored) from
                  (draft_within-HasDrafted q s e (sym (ap (λ (w : Handled). w.reserved) same) ∙ r)
                    (sym (ap (λ (w : Handled). w.failed) same) ∙ k)))
          | inl moves ↦ elim (Option-cases moved.1) [
            | inr (x, m) ↦ absurd (ground arith)
            | inl m ↦
                let inside =
                  draft_within a h write tree draw judge describe text_of (refining q) s moved.0 in
                let same : draft_refining a h write tree draw judge describe text_of q s e
                    ≡ inside =
                  ground arith in
                let from : moved.0 ≡ drafted_from q e = ground (arith, moved_ok e m) in
                subst (λ (w : Handled). HasDrafted q s (drafted_from q e) w.stored) (sym same)
                  (subst (λ (u : Epic). HasDrafted q s u inside.stored) from
                    (draft_within-HasDrafted (refining q) s moved.0
                      (sym (ap (λ (w : Handled). w.reserved) same) ∙ r)
                      (sym (ap (λ (w : Handled). w.failed) same) ∙ k)))
          ]
        ]

  -- If the handler of an epic had a reservation and gives no error, then the epic that it read had a
  -- role, with a profile in the settings; the handler began a run, whose command the host ran without
  -- an error; and for the answer in the output of the command the stored epic is what the round of this
  -- role makes: the refined tree, which has planned work, in Review, or the epic with one drafting pass
  -- more, its verdict, and the answer as the last comment of its root issue. The answer of a reviewer
  -- is not empty. A refiner's round starts from the stored epic in Refine.
  pub handled_epic-IsDrafted :
      (s : Rounds) (e : Epic)
      → (handle_epic a h write tree draw judge describe text_of s e).reserved ≡ true
      → (handle_epic a h write tree draw judge describe text_of s e).failed ≡ none
      → (q : PreparedDraft) × IsFoundDraft a q
        × HasDrafted q
            (reaped_draft a (stall_live_runs a.save_stalled a.now q.runs).0 s)
            (drafted_from q e)
            (handle_epic a h write tree draw judge describe text_of s e).stored
  unfolding handle_epic
  handled_epic-IsDrafted s e r k = elim (Result-cases (prepare_draft a)) [
    | inr (x, p) ↦ absurd (ground arith)
    | inl (found, p) ↦ elim (Option-cases found) [
      | inl n ↦ absurd (ground arith)
      | inr (q, n) ↦
          let stalled = stall_live_runs a.save_stalled a.now q.runs in
          elim (Option-cases stalled.1) [
            | inr (x, u) ↦ absurd (ground arith)
            | inl u ↦
                let reaped = reaped_draft a stalled.0 s in
                let inside = draft_refining a h write tree draw judge describe text_of q reaped e in
                let same : handle_epic a h write tree draw judge describe text_of s e ≡ inside =
                  ground arith in
                (
                  q,
                  prepare_draft-IsFoundDraft a q (p ∙ ap ok n),
                  subst (λ (w : Handled). HasDrafted q reaped (drafted_from q e) w.stored)
                      (sym same)
                      (draft_refining-HasDrafted q reaped e
                        (sym (ap (λ (w : Handled). w.reserved) same) ∙ r)
                        (sym (ap (λ (w : Handled). w.failed) same) ∙ k)),
                )
          ]
    ]
  ]

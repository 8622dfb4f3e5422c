-- ===== src/Completion/Drafting.antt =====
-- internal/application/usecases/run_epic_agent.go: what a round on an epic records when the agent has
-- answered, and when its role has no rounds left. `tree` is what the store of issue trees reads back.
use mathlib.Core.Path.{subst}
use donsy.Prelude.{
  ◌≡◌, ◌≢◌, refl, sym, ap, ◌∙◌, Bool, true, false, ◌||◌, ◌&&◌, not, Option, none, some, List, [],
  ◌∷◌, ◌++◌, map, any, arith, inl, inr, Option-cases, Bool-cases, if◌then◌else◌,
}
use donsy.Prelude.Int.{ℤ, pos, inc, ltb_ℤ}
use donsy.Text.{Text, codes, text_eq, is_empty, trim_space}
use donsy.Errors.{
  Error, Result, ok, err, Outcome, success, failure, ◌and_then◌, Result-cases, no_planned_issues,
}
use donsy.Epic.State
use donsy.Epic.State.{EpicState, EpicEvent, record_drafting_pass}
use donsy.Epic.Issue
use donsy.Epic.Issue.{Issue, Comment, create_comment, set_comment_body, issue_state_eq}
use donsy.Epic.Issue.States.{issue_state_eq_iff}
use donsy.Epic.Aggregate.{Epic, on_progress, root_issue, on_issues, find_first}
use donsy.Agent
use donsy.Agent.{AgentRole}
use donsy.Workflow.{has_planned_work}
use donsy.Completion.{Draw, update_epic}

-- Adds a comment to each issue under an identifier, up to the first that refuses it.
unfoldable pub comment_all : Text → Comment → List Issue → Outcome (List Issue)
comment_all id c [] = success []
comment_all id c (i ∷ rest) =
    let (i', failed) = Issue.add_comment c i in
    let (rest', below) = comment_all id c rest in
    let here : Outcome (List Issue) = elim failed [
      | some e ↦ failure e (i' ∷ rest)
      | none ↦ (i' ∷ rest', below)
    ] in
    if text_eq i.id id then here else (i ∷ rest', below)

-- The change of `completeEpicRun` for the refiner, and for the reviewer of issues.
unfoldable pub refined_update : (Epic → Result Epic) → Epic → Outcome Epic
refined_update tree e = elim (tree e) [
  | err x ↦ failure x e
  | ok refined ↦
      if not (has_planned_work refined)
      then failure no_planned_issues e
      else on_progress (State.apply EpicEvent.review) refined
]

unfoldable pub reviewed_update : Draw → Bool → Text → Epic → Outcome Epic
reviewed_update draw approved answer e = elim (root_issue e) [
  | err x ↦ failure x e
  | ok root ↦ elim (create_comment draw.id draw.now (codes "issue-reviewer") answer) [
    | err x ↦ failure x e
    | ok critique ↦
        on_issues (comment_all root.id critique) e
        and_then on_progress (record_drafting_pass approved)
  ]
]

-- `completeEpicRun`; `judge` is `ReviewApproved` of the command builder.
unfoldable pub complete_epic_run :
    (Epic → Option Error)
    → (Epic → Result Epic)
    → (Text → Bool)
    → Draw
    → AgentRole
    → Text
    → Epic
    → Outcome Epic
complete_epic_run write tree judge draw Agent.refiner answer e =
    update_epic write (refined_update tree) e
complete_epic_run write tree judge draw _ answer e =
    update_epic write (reviewed_update draw (judge answer) answer) e

-- The loop of `failEpicForRoundLimit` stops at the first issue under the identifier.
unfoldable pub comment_first : Text → Comment → List Issue → Outcome (List Issue)
comment_first id c [] = success []
comment_first id c (i ∷ rest) =
    let (i', failed) = Issue.add_comment c i in
    let (rest', below) = comment_first id c rest in
    if text_eq i.id id then (i' ∷ rest, failed) else (i ∷ rest', below)

-- `failEpicForRoundLimit`; `said` names the role and its limit.
unfoldable pub failed_update : Draw → Text → Epic → Outcome Epic
failed_update draw said e = elim (create_comment draw.id draw.now (codes "go-merge") said) [
  | err x ↦ failure x e
  | ok comment ↦ elim (root_issue e) [
    | err x ↦ failure x e
    | ok root ↦
        on_issues (comment_first root.id comment) e
        and_then on_progress (State.apply EpicEvent.fail)
  ]
]

unfoldable pub fail_epic_for_round_limit : (Epic → Option Error) → Draw → Text → Epic → Outcome Epic
fail_epic_for_round_limit write draw said e = update_epic write (failed_update draw said) e

pub update_epic_ok :
    (write : Epic → Option Error) (change : Epic → Outcome Epic) (e : Epic)
    → (update_epic write change e).1 ≡ none
    → ((change e).1 ≡ none) × ((update_epic write change e).0 ≡ (change e).0)
unfolding update_epic
update_epic_ok write change e h = ground arith

-- An issue that is planned work: it is not a root, and not Closed.
abbrev pub IsPlanned : Issue → Type 0
IsPlanned i = (is_empty i.parent_id ≡ false) × (i.state ≢ Issue.closed)

abbrev pub in_review : Epic → Epic
in_review e = record e { progress = record e.progress { state = EpicState.review } }

-- What the refiner's round has recorded: the tree that was read, which has a planned issue, in Review.
abbrev pub IsRefined : (Epic → Result Epic) → Epic → Epic → Type 0
IsRefined tree e u =
    (refined : Epic) × (tree e ≡ ok refined)
    × ((before after : List Issue) × (i : Issue) × (refined.issues ≡ before ++ i ∷ after)
        × IsPlanned i)
    × (u ≡ in_review refined)

abbrev pub critique_of : Draw → Text → Comment
critique_of draw answer = record {
  id = draw.id;
  author = codes "issue-reviewer";
  created_at = draw.now;
  body = answer;
}

-- An issue under an identifier with a comment as its last, and any other issue as it is.
abbrev pub with_comment : Text → Comment → Issue → Issue
with_comment id c i = if text_eq i.id id then record i { comments = i.comments ++ c ∷ [] } else i

abbrev pub passes_of : Epic → ℤ
passes_of e = inc e.drafting_passes

-- Proposed if the reviewer approves or this is the third pass, else Changes Requested.
abbrev pub judged : Bool → ℤ → EpicState
judged approved passes =
    if approved || not (ltb_ℤ passes (pos 3))
    then EpicState.proposed
    else EpicState.changes_requested

-- What the reviewer's round has recorded: the critique as the last comment of the first issue without
-- a parent (of each issue under its identifier), and one drafting pass more with its verdict. Nothing else changes.
abbrev pub IsReviewed : Draw → Bool → Text → Epic → Epic → Type 0
IsReviewed draw approved answer e u =
    (root : Issue) × (find_first (λ (i : Issue). is_empty i.parent_id) e.issues ≡ some root)
    × (u ≡ record e {
      issues = map (with_comment root.id (critique_of draw answer)) e.issues;
      progress = record { state = judged approved (passes_of e); drafting_passes = passes_of e };
    })

abbrev pub IsDrafted : AgentRole → (Epic → Result Epic) → Draw → Bool → Text → Epic → Epic → Type 0
IsDrafted Agent.refiner tree draw approved answer e u = IsRefined tree e u
IsDrafted _ tree draw approved answer e u = IsReviewed draw approved answer e u

review_applied :
    (p : State.Progress)
    → (State.apply EpicEvent.review p).1 ≡ none
    → (State.apply EpicEvent.review p).0 ≡ record p { state = EpicState.review }
unfolding State.apply
review_applied p h = ground arith

any-IsPlanned :
    (is : List Issue)
    → any (λ i. not (is_empty i.parent_id) && not (issue_state_eq i.state Issue.closed)) is ≡ true
    → (before after : List Issue) × (i : Issue) × (is ≡ before ++ i ∷ after) × IsPlanned i
any-IsPlanned [] h = absurd (ground arith)
any-IsPlanned (i ∷ rest) h =
    elim (Bool-cases (not (is_empty i.parent_id) && not (issue_state_eq i.state Issue.closed))) [
      | inl b ↦ (
        [],
        rest,
        i,
        refl,
        (ground arith, λ k. ground (arith, issue_state_eq_iff i.state Issue.closed)),
      )
      | inr b ↦
          let (before, after, found, same, planned) = any-IsPlanned rest (ground arith) in
          (i ∷ before, after, found, ap (λ l. i ∷ l) same, planned)
    ]

refined_update-IsRefined :
    (tree : Epic → Result Epic) (e : Epic)
    → (refined_update tree e).1 ≡ none
    → IsRefined tree e (refined_update tree e).0
unfolding refined_update has_planned_work
refined_update-IsRefined tree e h = elim (Result-cases (tree e)) [
  | inr (x, t) ↦ absurd (ground arith)
  | inl (refined, t) ↦ (
    refined,
    t,
    any-IsPlanned refined.issues (ground arith),
    ground (arith, review_applied refined.progress),
  )
]

comment_all_ok :
    (id : Text) (c : Comment) (is : List Issue)
    → (comment_all id c is).1 ≡ none
    → (comment_all id c is).0 ≡ map (with_comment id c) is
unfolding comment_all Issue.add_comment
comment_all_ok id c [] h = refl
comment_all_ok id c (i ∷ rest) h = ground (arith, comment_all_ok id c rest)

critique_ok :
    (draw : Draw) (answer : Text) (c : Comment)
    → create_comment draw.id draw.now (codes "issue-reviewer") answer ≡ ok c
    → c ≡ critique_of draw answer
unfolding create_comment set_comment_body trim_space
critique_ok draw answer c h = ground arith

pass_ok :
    (approved : Bool) (p : State.Progress)
    → (record_drafting_pass approved p).1 ≡ none
    → (record_drafting_pass approved p).0 ≡ record {
      state = judged approved (inc p.drafting_passes);
      drafting_passes = inc p.drafting_passes;
    }
unfolding record_drafting_pass State.apply
pass_ok approved p h = ground arith

reviewed_update-IsReviewed :
    (draw : Draw) (approved : Bool) (answer : Text) (e : Epic)
    → (reviewed_update draw approved answer e).1 ≡ none
    → IsReviewed draw approved answer e (reviewed_update draw approved answer e).0
unfolding reviewed_update root_issue
reviewed_update-IsReviewed draw approved answer e h =
    elim (Option-cases (find_first (λ (i : Issue). is_empty i.parent_id) e.issues)) [
      | inl t ↦ absurd (ground arith)
      | inr (root, t) ↦
          elim (Result-cases (create_comment draw.id draw.now (codes "issue-reviewer") answer)) [
            | inr (x, k) ↦ absurd (ground arith)
            | inl (critique, k) ↦ (
              root,
              t,
              ground (
                arith,
                critique_ok draw answer critique k,
                comment_all_ok root.id critique e.issues,
                pass_ok approved e.progress,
              ),
            )
          ]
    ]

stored_review :
    (write : Epic → Option Error) (draw : Draw) (approved : Bool) (answer : Text) (e : Epic)
    → (update_epic write (reviewed_update draw approved answer) e).1 ≡ none
    → IsReviewed draw approved answer e
        (update_epic write (reviewed_update draw approved answer) e).0
stored_review write draw approved answer e h =
    let u = update_epic_ok write (reviewed_update draw approved answer) e h in
    subst (IsReviewed draw approved answer e) (sym u.1)
      (reviewed_update-IsReviewed draw approved answer e u.0)

-- If the update at the end of a round on an epic gives no error, then for the refiner the stored epic
-- is the tree that was read, in Review, and the tree has an issue that is not a root and not Closed.
-- For any other role the stored epic has the answer as the last comment of each issue under the
-- identifier of its first root, it counts one drafting pass more, it is Proposed if the reviewer
-- approves or three passes are reached, else in Changes Requested, and nothing else changes.
pub complete_epic_run-IsDrafted :
    (write : Epic → Option Error) (tree : Epic → Result Epic) (judge : Text → Bool) (draw : Draw)
    (role : AgentRole) (answer : Text) (e : Epic)
    → (complete_epic_run write tree judge draw role answer e).1 ≡ none
    → IsDrafted role tree draw
        (judge answer)
        answer
        e
        (complete_epic_run write tree judge draw role answer e).0
unfolding complete_epic_run
complete_epic_run-IsDrafted write tree judge draw Agent.refiner answer e h =
    let u = update_epic_ok write (refined_update tree) e h in
    subst (IsRefined tree e) (sym u.1) (refined_update-IsRefined tree e u.0)
complete_epic_run-IsDrafted write tree judge draw Agent.issue_reviewer answer e h =
    stored_review write draw (judge answer) answer e h
complete_epic_run-IsDrafted write tree judge draw Agent.coding answer e h =
    stored_review write draw (judge answer) answer e h
complete_epic_run-IsDrafted write tree judge draw Agent.pr_reviewer answer e h =
    stored_review write draw (judge answer) answer e h
complete_epic_run-IsDrafted write tree judge draw Agent.merge answer e h =
    stored_review write draw (judge answer) answer e h
complete_epic_run-IsDrafted write tree judge draw (AgentRole.unknown t) answer e h =
    stored_review write draw (judge answer) answer e h

fail_state :
    (p : State.Progress)
    → (State.apply EpicEvent.fail p).1 ≡ none
    → (State.apply EpicEvent.fail p).0.state ≡ EpicState.failed
unfolding State.apply
fail_state p h = ground arith

failed_state :
    (draw : Draw) (said : Text) (e : Epic)
    → (failed_update draw said e).1 ≡ none
    → (failed_update draw said e).0.state ≡ EpicState.failed
unfolding failed_update
failed_state draw said e h =
    elim (Result-cases (create_comment draw.id draw.now (codes "go-merge") said)) [
      | inr (x, k) ↦ absurd (ground arith)
      | inl (comment, k) ↦ elim (Result-cases (root_issue e)) [
        | inr (x, t) ↦ absurd (ground arith)
        | inl (root, t) ↦ ground (arith, fail_state e.progress)
      ]
    ]

-- An epic that is failed for its round limit is in Failed.
pub fail_epic-failed :
    (write : Epic → Option Error) (draw : Draw) (said : Text) (e : Epic)
    → (fail_epic_for_round_limit write draw said e).1 ≡ none
    → (fail_epic_for_round_limit write draw said e).0.state ≡ EpicState.failed
unfolding fail_epic_for_round_limit
fail_epic-failed write draw said e h =
    let u = update_epic_ok write (failed_update draw said) e h in
    ap (λ (x : Epic). x.state) u.1 ∙ failed_state draw said e u.0

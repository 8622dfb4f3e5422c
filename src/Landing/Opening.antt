-- ===== src/Landing/Opening.antt =====
-- open_pull_requests.go: the branches and the records of the issues that wait on nothing. Go ranges
-- over the map of `resyncBlocked` in an order of its own: `ranged` puts the entries in that order.
pub mod Ready
use donsy.Prelude.{
  ℕ, zero, suc, ◌+◌, Bool, true, false, ◌||◌, ◌&&◌, not, Option, none, some, List, [], ◌∷◌, ◌++◌,
  if◌then◌else◌, ltb, length,
}
use donsy.Text.{Text, codes, text_eq, is_empty}
use donsy.Errors.{Error, Result, ok, err, Outcome, success, failure, ◌and_then◌, no_code_workspace}
use donsy.Epic.Issue
use donsy.Epic.Issue.{Issue, issue_state_eq}
use donsy.Epic.State
use donsy.Epic.State.{epic_state_eq}
use donsy.Epic.PullRequest
use donsy.Epic.PullRequest.{PullRequest, status_eq, has_flag, set_flag}
use donsy.Epic.Rounds.{create_pull_request}
use donsy.Epic.Aggregate.{Epic, branch_name, add_pull_request}
use donsy.Epic.Work.{update_pull_request, blocked, open_pull_request_for}
use donsy.Completion.{Draw, update_epic}
use donsy.Landing.{
  CodeCheckout, CodeWorkspace, CodeCall, cuts, pushes, updates, Landing, ends_with, updating,
}

abbrev pub bool_eq : Bool → Bool → Bool
bool_eq true b = b
bool_eq false b = not b

-- `stale[id] = blocked`.
unfoldable pub put_flag : Text → Bool → List (Text × Bool) → List (Text × Bool)
put_flag id b [] = (id, b) ∷ []
put_flag id b ((k, c) ∷ rest) =
    let more = put_flag id b rest in if text_eq k id then (id, b) ∷ rest else (k, c) ∷ more

unfoldable pub stale_flags : Epic → List (Text × Bool) → List PullRequest → List (Text × Bool)
stale_flags current found [] = found
stale_flags current found (p ∷ rest) =
    let is_blocked = blocked p.issue_id current in
    stale_flags current
      (if status_eq p.status PullRequest.opened
          && not (bool_eq (has_flag PullRequest.blocked p) is_blocked)
        then put_flag p.id is_blocked found
        else found)
      rest

unfoldable pub set_flags : List (Text × Bool) → Epic → Outcome Epic
set_flags [] e = success e
set_flags ((id, b) ∷ rest) e =
    update_pull_request id (set_flag PullRequest.blocked b) e and_then set_flags rest

module _ (write : Epic → Option Error) (ranged : List (Text × Bool) → List (Text × Bool)) where
  unfoldable pub resync_blocked : Epic → Epic → Landing
  resync_blocked current e =
      let found = stale_flags current [] current.pull_requests in
      if ltb 0 (length found)
      then updating [] (update_epic write (set_flags (ranged found)) e)
      else ends_with none [] e

-- The update of `open`.
unfoldable pub opening_update : Draw → Issue → Text → Text → Epic → Outcome Epic
opening_update draw i branch base e =
    elim (create_pull_request draw.id draw.now i.id i.title i.repository branch base) [
      | err x ↦ failure x e
      | ok p ↦ add_pull_request i.id p e
    ]

abbrev pub issue_checkout : Epic → Issue → CodeCheckout
issue_checkout current i = record {
  epic_id = current.id;
  issue_id = i.id;
  repository = i.repository;
}

-- The issues that the loop of `Handle` passes over.
unfoldable pub is_passed_over : Epic → Issue → Bool
is_passed_over current i =
    is_empty i.parent_id
    || not (issue_state_eq i.state Issue.opened)
    || blocked i.id current
    || elim (open_pull_request_for i.id current) [ none ↦ false | some p ↦ true ]

-- What `Handle` answers: the number of records that it cut, beside what it leaves.
pub record Opened : Type 0 where
  pub opened : ℕ
  pub landing : Landing

module _ (write : Epic → Option Error) (code : CodeWorkspace) (draws : Text → Draw)
    (current : Epic) where
  -- `open`.
  unfoldable pub open_issue : Issue → Epic → Landing
  open_issue i e =
      let branch = branch_name i current in
      let c = issue_checkout current i in
      let recorded : Text → Landing = λ base.
        updating (cuts c branch ∷ pushes c branch ∷ [])
          (update_epic write (opening_update (draws i.id) i branch base) e) in
      let published : Text → Landing = λ base. elim (code.push c branch) [
        | some x ↦ ends_with (some x) (cuts c branch ∷ pushes c branch ∷ []) e
        | none ↦ recorded base
      ] in
      elim (code.default_branch i.repository) [
        | err x ↦ ends_with (some x) [] e
        | ok base ↦ elim (code.checkout c branch base) [
          | some x ↦ ends_with (some x) (cuts c branch ∷ []) e
          | none ↦ published base
        ]
      ]

  abbrev pub one_more : List CodeCall → Opened → Opened
  one_more calls o = record {
    opened = suc o.opened;
    landing = record o.landing { calls = calls ++ o.landing.calls };
  }

  -- The loop of `Handle`.
  unfoldable pub open_issues : List Issue → Epic → Opened
  open_issues [] e = record { opened = 0; landing = ends_with none [] e }
  open_issues (i ∷ rest) e =
      let here = open_issue i e in
      let skipped = open_issues rest e in
      let later = open_issues rest here.stored in
      let cut : Opened = elim here.failed [
        | some x ↦ record { opened = 0; landing = here }
        | none ↦ one_more here.calls later
      ] in
      if is_passed_over current i then skipped else cut

abbrev pub none_opened : Landing → Opened
none_opened l = record { opened = 0; landing = l }

abbrev pub after_landing : Landing → Opened → Opened
after_landing l o = record o { landing = record o.landing { calls = l.calls ++ o.landing.calls } }

module _ (write : Epic → Option Error) (ranged : List (Text × Bool) → List (Text × Bool))
    (draws : Text → Draw) where
  unfoldable pub open_ready : CodeWorkspace → Epic → Epic → Opened
  open_ready code current e =
      let synced = resync_blocked write ranged current e in
      let cut = open_issues write code draws current current.issues synced.stored in
      let ready : Opened = elim synced.failed [
        | some x ↦ none_opened synced
        | none ↦ after_landing synced cut
      ] in
      if not (epic_state_eq current.progress.state State.ready)
      then none_opened (ends_with none [] e)
      else ready

  unfoldable pub open_pull_requests : Option CodeWorkspace → Result Epic → Epic → Opened
  open_pull_requests none read e = none_opened (ends_with (some no_code_workspace) [] e)
  open_pull_requests (some code) (err x) e = none_opened (ends_with (some x) [] e)
  open_pull_requests (some code) (ok current) e = open_ready code current e

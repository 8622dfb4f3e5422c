-- ===== src/Epic/Closing/Total.antt =====
-- The walk returns, and closing an issue that is there succeeds, wherever the parents of the tree
-- lead nowhere in a circle: a rank that falls from each issue's parent to the issue says so, and
-- fuel above the rank of the start is enough.
use mathlib.Core.Path.{subst}
use mathlib.Core.List.{Memᴰ}
use donsy.Prelude.{
  ℕ, zero, suc, ◌<◌, ◌≡◌, ◌≢◌, refl, sym, ap, ◌∙◌, ◌⊎◌, inl, inr, true, false, none, some, List, [],
  ◌∷◌, arith, Bool-cases, Option-cases, if◌then◌else◌, All,
}
use donsy.Text.{Text, text_eq}
use donsy.Text.Equality.{text_eq_iff, text_eq_refl}
use donsy.Errors.{Outcome, success, failure, ◌and_then◌, issue_not_found}
use donsy.Epic.Issue
use donsy.Epic.Issue.{Issue, issue_state_eq, settled}
use donsy.Epic.Aggregate.{
  Epic, find_first, issue_has_id, transition_issue, on_pull_requests, mutate,
}
use donsy.Epic.Aggregate.Updates.{find_first-test, with_first-found, mutate_cases}
use donsy.Epic.Closing.{
  close_records, close_visit, walk_children, traverse_issues_down, close_issue,
}
use donsy.Epic.Closing.Steps.{
  Closes, Closes-refl, Closes-trans, close_visit-Closes, close_records-steps,
}
use donsy.Epic.Closing.Walk.{
  traverse-Closes, child-Closes, edges, edges-Pointwise, Below, SettledIn, same_id,
  find_first-Pointwise, closed_settled, below, traverse_found, traverse_missing, subtree_settled,
}

-- The issue under an identifier is there.
abbrev pub Present : Text → Epic → Type 0
Present x e = (i : Issue) × (find_first (issue_has_id x) e.issues ≡ some i)

-- The rank falls along every edge from parent to child.
abbrev pub Ranked : (Text → ℕ) → Epic → Type 0
Ranked rank e = All (λ (p : Text × Text). rank p.0 < rank p.1) (edges e.issues)

and_then_total :
    {S : Type 0} (o : Outcome S) (f : S → Outcome S)
    → o.1 ≡ none
    → (f o.0).1 ≡ none
    → (o and_then f).1 ≡ none
and_then_total (s, none) f h k = k
and_then_total (s, some e) f h k = cc

transition_closed_ok :
    (i : Issue)
    → issue_state_eq i.state Issue.merged ≡ false
    → (Issue.transition_to Issue.closed i).1 ≡ none
unfolding Issue.transition_to
transition_closed_ok i h = ground arith

close_visit_ok :
    (issue i : Issue) (e : Epic)
    → find_first (issue_has_id issue.id) e.issues ≡ some i
    → (close_visit issue e).1 ≡ none
unfolding close_visit
close_visit_ok issue i e f = elim (Bool-cases (issue_state_eq i.state Issue.merged)) [
  | inl m ↦ rw (f, close_visit) (rw m refl)
  | inr m ↦
      rw (f, close_visit)
        (rw m (
          and_then_total (transition_issue issue.id Issue.closed e)
            (on_pull_requests (close_records issue.id)) (transition_ok m)
            (close_records-steps issue.id
              (transition_issue issue.id Issue.closed e).0.pull_requests).1))
]
  where
    transition_ok :
        issue_state_eq i.state Issue.merged ≡ false
        → (transition_issue issue.id Issue.closed e).1 ≡ none
    transition_ok m =
        unfold transition_issue in
        (with_first-found (issue_has_id issue.id) issue_not_found (Issue.transition_to Issue.closed)
          e.issues i f
          (closed_settled issue.id i (find_first-test (issue_has_id issue.id) e.issues i f)).1).0
        ∙ transition_closed_ok i m

walk_children_total :
    (walk : Text → Epic → Outcome Epic)
    → ((id : Text) (e : Epic) → Closes e (walk id e).0)
    → (id : Text) (cs : List Issue) (e : Epic)
    → ((c : Issue) (e' : Epic)
        → Memᴰ c cs
        → text_eq c.parent_id id ≡ true
        → Closes e e'
        → (walk c.id e').1 ≡ none)
    → (walk_children walk id cs e).1 ≡ none
unfolding walk_children
walk_children_total walk closes id [] e each = refl
walk_children_total walk closes id (c ∷ cs) e each =
    and_then_total (if text_eq c.parent_id id then walk c.id e else success e)
      (walk_children walk id cs) (first (Bool-cases (text_eq c.parent_id id)))
      (walk_children_total walk closes id cs _ (λ d e' m t k.
        each d e' (Memᴰ.tail m) t (Closes-trans e _ e' (child-Closes walk closes id c e) k)))
  where
    first :
        (text_eq c.parent_id id ≡ true) ⊎ (text_eq c.parent_id id ≡ false)
        → (if text_eq c.parent_id id then walk c.id e else success e).1 ≡ none
    first (inl h) = rw h (each c e (Memᴰ.head refl) h (Closes-refl e))
    first (inr h) = rw h refl

present_of_mem :
    (c : Issue) (xs : List Issue)
    → Memᴰ c xs
    → (i : Issue) × (find_first (issue_has_id c.id) xs ≡ some i)
unfolding find_first
present_of_mem c [] m = elim m [ ]
present_of_mem c (x ∷ xs) (Memᴰ.head p) = (x, rw p (rw (text_eq_refl x.id) refl))
present_of_mem c (x ∷ xs) (Memᴰ.tail m) = elim (Bool-cases (text_eq x.id c.id)) [
  | inl h ↦ (x, rw h refl)
  | inr h ↦ let (i, f) = present_of_mem c xs m in (i, rw h f)
]

rank_of_mem :
    (rank : Text → ℕ) (c : Issue) (xs : List Issue)
    → All (λ (p : Text × Text). rank p.0 < rank p.1) (edges xs)
    → Memᴰ c xs
    → rank c.id < rank c.parent_id
rank_of_mem rank c [] a m = elim m [ ]
rank_of_mem rank c (x ∷ xs) a (Memᴰ.head p) = rw p (a.0)
rank_of_mem rank c (x ∷ xs) a (Memᴰ.tail m) = rank_of_mem rank c xs a.1 m

walk_total :
    (rank : Text → ℕ) (fuel : ℕ) (x : Text) (e : Epic)
    → Ranked rank e
    → Present x e
    → rank x < fuel
    → (traverse_issues_down close_visit fuel x e).1 ≡ none
walk_total rank zero x e ranked here h = absurd (omega arith)
walk_total rank (suc fuel) x e ranked (i, f) h = rw (traverse_found fuel x e i f) (
    and_then_total (close_visit i e) (below fuel x)
      (close_visit_ok i i e
        (subst (λ t. find_first (issue_has_id t) e.issues ≡ some i) (sym own) f))
      (walk_children_total (traverse_issues_down close_visit fuel) (traverse-Closes fuel) x
        e1.issues e1 (child (λ y e'. walk_total rank fuel y e'))))
  where
    own : i.id ≡ x
    own = same_id x i (find_first-test (issue_has_id x) e.issues i f)

    e1 : Epic
    e1 = (close_visit i e).0

    ranked_after : (e' : Epic) → Closes e e' → Ranked rank e'
    ranked_after e' k =
        subst (All (λ (p : Text × Text). rank p.0 < rank p.1))
          (sym (edges-Pointwise e.issues e'.issues k.issues)) ranked

    child :
        ((y : Text) (e' : Epic)
          → Ranked rank e'
          → Present y e'
          → rank y < fuel
          → (traverse_issues_down close_visit fuel y e').1 ≡ none)
        → (c : Issue) (e' : Epic) → Memᴰ c e1.issues
        → text_eq c.parent_id x ≡ true
        → Closes e1 e'
        → (traverse_issues_down close_visit fuel c.id e').1 ≡ none
    child ih c e' m t k =
        let (j, g) = present_of_mem c e1.issues m in
        let (j', g', step) = find_first-Pointwise c.id e1.issues e'.issues j k.issues g in
        let falls = rank_of_mem rank c e1.issues (ranked_after e1 (close_visit-Closes i e)) m in
        ih c.id e' (ranked_after e' (Closes-trans e e1 e' (close_visit-Closes i e) k)) (j', g')
          (omega (arith, falls, ap rank ((text_eq_iff c.parent_id x).0 t)))

mutate-Closes :
    (change : Epic → Outcome Epic) (e : Epic) → Closes e (change e).0 → Closes e (mutate change e).0
unfolding mutate
mutate-Closes change e k = elim (Option-cases (change e).1) [
  | inl h ↦ rw (h, mutate) (record { issues = k.issues; records = k.records; rest = refl })
  | inr (error, h) ↦ rw (h, mutate) (Closes-refl e)
]

-- Whatever `CloseIssue` returns, an issue stays as it was or, unless it was settled, is closed, a
-- pull request stays as it was or goes from open to closed, and nothing else of the epic changes;
-- if it returns an error, nothing changes at all.
pub close_issue-Closes :
    (fuel : ℕ) (x : Text) (e : Epic)
    → Closes e (close_issue fuel x e).0
      × ((close_issue fuel x e).1 ≢ none → (close_issue fuel x e).0 ≡ e)
unfolding close_issue
close_issue-Closes fuel x e =
    let walk = traverse_issues_down close_visit fuel x in
    let m = mutate_cases walk e in
    (mutate-Closes walk e (traverse-Closes fuel x e), λ h. m.3 (λ q. h (m.0 ∙ q)))

-- In a tree with a rank that falls from every parent to its child, closing an issue that is there,
-- with more fuel than its rank, succeeds, and every issue at or below it is then there and
-- settled.
pub close_issue_settles :
    (rank : Text → ℕ) (fuel : ℕ) (x : Text) (e : Epic)
    → Ranked rank e
    → Present x e
    → rank x < fuel
    → ((close_issue fuel x e).1 ≡ none)
      × ((y : Text) → Below (edges e.issues) y x → SettledIn y (close_issue fuel x e).0)
unfolding close_issue
close_issue_settles rank fuel x e ranked here h =
    let walk = traverse_issues_down close_visit fuel x in
    let m = mutate_cases walk e in
    let walked = walk_total rank fuel x e ranked here h in
    (
      m.0 ∙ walked,
      λ y b.
          let (i, found, done) = subtree_settled fuel x y e walked b in
          (i, ap (find_first (issue_has_id y)) (m.1 walked) ∙ found, done),
    )

-- An issue that is not there is refused, and nothing changes.
pub close_issue-missing :
    (fuel : ℕ) (x : Text) (e : Epic)
    → find_first (issue_has_id x) e.issues ≡ none
    → close_issue (suc fuel) x e ≡ failure issue_not_found e
unfolding close_issue mutate
close_issue-missing fuel x e h = rw (traverse_missing fuel x e h, mutate) refl

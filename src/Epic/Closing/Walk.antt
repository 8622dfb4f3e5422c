-- ===== src/Epic/Closing/Walk.antt =====
-- A successful walk settles every issue below its start.
use mathlib.Core.List.{Memᴰ}
use mathlib.Core.Path.{subst}
use donsy.Prelude.{
  ℕ, zero, suc, ◌≡◌, refl, sym, ap, ◌∙◌, inl, inr, true, none, some, List, [], ◌∷◌, map, arith,
  Bool-cases, Option-cases, if◌then◌else◌,
}
use donsy.Text.{Text, text_eq}
use donsy.Text.Equality.{text_eq_iff, text_eq_refl}
use donsy.Errors.{Outcome, success, failure, ◌and_then◌, issue_not_found}
use donsy.Epic.Issue
use donsy.Epic.Issue.{Issue, issue_state_eq, settled}
use donsy.Epic.Aggregate.{Epic, find_first, issue_has_id, transition_issue, on_pull_requests}
use donsy.Epic.Aggregate.Updates.{find_first-test, with_first-found, and_then_ok}
use donsy.Epic.Closing.{close_records, close_visit, walk_children, traverse_issues_down}
use donsy.Epic.Closing.Steps.{
  IssueStep, Pointwise, Closes, Closes-refl, Closes-trans, and_then-Closes, close_visit-Closes,
}

pub child-Closes :
    (walk : Text → Epic → Outcome Epic)
    → ((id : Text) (e : Epic) → Closes e (walk id e).0)
    → (id : Text) (c : Issue) (e : Epic)
    → Closes e (if text_eq c.parent_id id then walk c.id e else success e).0
child-Closes walk closes id c e = elim (Bool-cases (text_eq c.parent_id id)) [
  | inl h ↦ rw h (closes c.id e)
  | inr h ↦ rw h (Closes-refl e)
]

pub walk_children-Closes :
    (walk : Text → Epic → Outcome Epic)
    → ((id : Text) (e : Epic) → Closes e (walk id e).0)
    → (id : Text) (cs : List Issue) (e : Epic) → Closes e (walk_children walk id cs e).0
unfolding walk_children
walk_children-Closes walk closes id [] e = Closes-refl e
walk_children-Closes walk closes id (c ∷ cs) e =
    and_then-Closes e (if text_eq c.parent_id id then walk c.id e else success e)
      (walk_children walk id cs) (child-Closes walk closes id c e)
      (walk_children-Closes walk closes id cs)

pub traverse-Closes :
    (fuel : ℕ) (id : Text) (e : Epic) → Closes e (traverse_issues_down close_visit fuel id e).0
unfolding traverse_issues_down
traverse-Closes zero id e = Closes-refl e
traverse-Closes (suc fuel) id e = elim (Option-cases (find_first (issue_has_id id) e.issues)) [
  | inl h ↦ rw (h, traverse_issues_down) (Closes-refl e)
  | inr (i, h) ↦
      rw (h, traverse_issues_down)
        (and_then-Closes e (close_visit i e)
          (λ e'. walk_children (traverse_issues_down close_visit fuel) id e'.issues e')
          (close_visit-Closes i e)
          (λ e'. walk_children-Closes _ (traverse-Closes fuel) id e'.issues e'))
]

-- The edges of the tree: an identifier with its parent's.
abbrev pub edges : List Issue → List (Text × Text)
edges = map (λ i. (i.id, i.parent_id))

pub edges-Pointwise : (xs ys : List Issue) → Pointwise IssueStep xs ys → edges ys ≡ edges xs
edges-Pointwise [] [] p = refl
edges-Pointwise [] (y ∷ ys) p = elim p [ ]
edges-Pointwise (x ∷ xs) [] p = elim p [ ]
edges-Pointwise (x ∷ xs) (y ∷ ys) (s, p) = ground (arith, edges-Pointwise xs ys p)

-- `Below es y x`: the issue `y` is `x`, or stands somewhere under it.
pub data Below (es : List (Text × Text)) (y : Text) : Text → Type 0 where
  here : {x : Text} → x ≡ y → Below es y x
  down : {x c : Text} → Memᴰ (c, x) es → Below es y c → Below es y x

-- The issue under an identifier is there, and settled.
abbrev pub SettledIn : Text → Epic → Type 0
SettledIn x e = (i : Issue) × (find_first (issue_has_id x) e.issues ≡ some i) × (settled i ≡ true)

pub find_first-Pointwise :
    (x : Text) (xs ys : List Issue) (i : Issue)
    → Pointwise IssueStep xs ys
    → find_first (issue_has_id x) xs ≡ some i
    → (j : Issue) × (find_first (issue_has_id x) ys ≡ some j) × IssueStep i j
unfolding find_first
find_first-Pointwise x [] ys i p h = cc
find_first-Pointwise x (k ∷ xs) [] i p h = elim p [ ]
find_first-Pointwise x (k ∷ xs) (l ∷ ys) i p h = elim (Bool-cases (text_eq k.id x)) [
  | inl e ↦
      let same : k ≡ i = ground arith in (l, ground arith, subst (λ t. IssueStep t l) same p.0)
  | inr e ↦
      let (j, found, step) = find_first-Pointwise x xs ys i p.1 (ground arith) in
      (j, ground arith, step)
]

pub SettledIn-Closes : (x : Text) (e e' : Epic) → Closes e e' → SettledIn x e → SettledIn x e'
SettledIn-Closes x e e' c (i, h, s) =
    let (j, found, step) = find_first-Pointwise x e.issues e'.issues i c.issues h in
    (j, found, ground arith)

pub same_id : (x : Text) (i : Issue) → issue_has_id x i ≡ true → i.id ≡ x
same_id x i h = (text_eq_iff i.id x).0 h

pub closed_settled :
    (x : Text) (i : Issue)
    → issue_has_id x i ≡ true
    → (settled (Issue.transition_to Issue.closed i).0 ≡ true)
      × (issue_has_id x (Issue.transition_to Issue.closed i).0 ≡ true)
unfolding settled Issue.transition_to
closed_settled x i h = (ground arith, ground arith)

transition_settles :
    (x : Text) (e : Epic) (i : Issue)
    → find_first (issue_has_id x) e.issues ≡ some i
    → SettledIn x (transition_issue x Issue.closed e).0
unfolding transition_issue
transition_settles x e i h =
    let c = closed_settled x i (find_first-test (issue_has_id x) e.issues i h) in
    let f =
      with_first-found (issue_has_id x) issue_not_found (Issue.transition_to Issue.closed) e.issues
        i h c.1 in
    ((Issue.transition_to Issue.closed i).0, f.1, c.0)

visit_settles :
    (issue i : Issue) (e : Epic)
    → find_first (issue_has_id issue.id) e.issues ≡ some i
    → (close_visit issue e).1 ≡ none
    → SettledIn issue.id (close_visit issue e).0
unfolding close_visit
visit_settles issue i e f h = elim (Bool-cases (issue_state_eq i.state Issue.merged)) [
  | inl m ↦ rw (f, close_visit) (rw m (i, f, unfold settled in ground arith))
  | inr m ↦
      let q : close_visit issue e ≡ (
          transition_issue issue.id Issue.closed e
          and_then on_pull_requests (close_records issue.id)) =
        rw (f, close_visit) (rw m refl) in
      rw
        (q
          ∙ (and_then_ok (transition_issue issue.id Issue.closed e)
              (on_pull_requests (close_records issue.id)) (rw q at h)).1)
        (transition_settles issue.id e i f)
]

-- A walk over the children that succeeds has walked from each child.
child_walked :
    (walk : Text → Epic → Outcome Epic)
    → ((id : Text) (e : Epic) → Closes e (walk id e).0)
    → (id c : Text) (cs : List Issue) (e : Epic) → (walk_children walk id cs e).1 ≡ none
    → Memᴰ (c, id) (edges cs)
    → (e' : Epic) × Closes e e'
      × ((walk c e').1 ≡ none)
      × Closes (walk c e').0 (walk_children walk id cs e).0
unfolding walk_children
child_walked walk closes id c [] e h m = elim m [ ]
child_walked walk closes id c (d ∷ cs) e h (Memᴰ.head p) =
    let o : (if text_eq d.parent_id id then walk d.id e else success e) ≡ walk c e =
      rw (ap (λ (t : Text × Text). t.1) p, ap (λ (t : Text × Text). t.0) p)
        (rw (text_eq_refl d.parent_id) refl) in
    let r = and_then_ok (walk c e) (walk_children walk id cs) (rw o at h) in
    (e, Closes-refl e, r.0, rw (o) (rw (r.1) (walk_children-Closes walk closes id cs (walk c e).0)))
child_walked walk closes id c (d ∷ cs) e h (Memᴰ.tail m) =
    let o : Outcome Epic = if text_eq d.parent_id id then walk d.id e else success e in
    let r = and_then_ok o (walk_children walk id cs) h in
    let (e', before, walked, after) = child_walked walk closes id c cs o.0 (rw (r.1) at h) m in
    (e', Closes-trans e o.0 e' (child-Closes walk closes id d e) before, walked, rw (r.1) after)

-- The walk that is left at an issue, with one round of fuel spent.
abbrev pub below : ℕ → Text → Epic → Outcome Epic
below fuel x e = walk_children (traverse_issues_down close_visit fuel) x e.issues e

pub traverse_found :
    (fuel : ℕ) (x : Text) (e : Epic) (i : Issue)
    → find_first (issue_has_id x) e.issues ≡ some i
    → traverse_issues_down close_visit (suc fuel) x e ≡ (close_visit i e and_then below fuel x)
unfolding traverse_issues_down
traverse_found fuel x e i h = rw (h, traverse_issues_down) refl

pub traverse_missing :
    (fuel : ℕ) (x : Text) (e : Epic)
    → find_first (issue_has_id x) e.issues ≡ none
    → traverse_issues_down close_visit (suc fuel) x e ≡ failure issue_not_found e
unfolding traverse_issues_down
traverse_missing fuel x e h = rw (h, traverse_issues_down) refl

start_settled :
    (x : Text) (e : Epic) (i : Issue)
    → find_first (issue_has_id x) e.issues ≡ some i
    → (close_visit i e).1 ≡ none
    → SettledIn x (close_visit i e).0
start_settled x e i f h =
    let same : i.id ≡ x = same_id x i (find_first-test (issue_has_id x) e.issues i f) in
    subst (λ t. SettledIn t (close_visit i e).0) same
      (visit_settles i i e (subst (λ t. find_first (issue_has_id t) e.issues ≡ some i) (sym same) f)
        h)

-- The same under the start, from the same of each walk with less fuel.
under_settled :
    (fuel : ℕ) (x y : Text) (e e1 : Epic)
    → ((c : Text) (e' : Epic)
        → (traverse_issues_down close_visit fuel c e').1 ≡ none
        → Below (edges e'.issues) y c
        → SettledIn y (traverse_issues_down close_visit fuel c e').0)
    → Closes e e1
    → SettledIn x e1
    → (below fuel x e1).1 ≡ none
    → Below (edges e.issues) y x
    → SettledIn y (below fuel x e1).0
under_settled fuel x y e e1 ih closes start w (here p) =
    SettledIn-Closes y e1 (below fuel x e1).0
      (walk_children-Closes (traverse_issues_down close_visit fuel) (traverse-Closes fuel) x
        e1.issues e1)
      (subst (λ t. SettledIn t e1) p start)
under_settled fuel x y e e1 ih closes start w (down {c} m b) =
    let same = edges-Pointwise e.issues e1.issues closes.issues in
    let (e2, before, walked, after) =
      child_walked (traverse_issues_down close_visit fuel) (traverse-Closes fuel) x c e1.issues e1 w
        (subst (λ t. Memᴰ (c, x) t) (sym same) m) in
    let still = edges-Pointwise e1.issues e2.issues before.issues in
    SettledIn-Closes y (traverse_issues_down close_visit fuel c e2).0 (below fuel x e1).0 after
      (ih c e2 walked (subst (λ t. Below t y c) (sym (still ∙ same)) b))

-- After a walk that succeeds, every issue below its start is there and settled.
pub subtree_settled :
    (fuel : ℕ) (x y : Text) (e : Epic)
    → (traverse_issues_down close_visit fuel x e).1 ≡ none
    → Below (edges e.issues) y x
    → SettledIn y (traverse_issues_down close_visit fuel x e).0
subtree_settled zero x y e h b = absurd (unfold traverse_issues_down in cc)
subtree_settled (suc fuel) x y e h b = elim (Option-cases (find_first (issue_has_id x) e.issues)) [
  | inl n ↦ absurd (cc (h, ap (λ (t : Outcome Epic). t.1) (traverse_missing fuel x e n)))
  | inr (i, f) ↦
      let q = traverse_found fuel x e i f in
      let r = and_then_ok (close_visit i e) (below fuel x) (rw q at h) in
      rw (q ∙ r.1) (
        under_settled fuel x y e (close_visit i e).0 (λ c e'. subtree_settled fuel c y e')
          (close_visit-Closes i e) (start_settled x e i f r.0) (rw (q ∙ r.1) at h) b)
]

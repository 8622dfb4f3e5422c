-- ===== src/Landing/Grouping.antt =====
-- `groupByRemote` and `awaitingMerge` of review_approved_branches.go. The index that the loop keeps
-- beside the groups says where the group with a key stands.
use mathlib.Core.List.{append-nil, append_assoc}
use donsy.Prelude.{
  ◌≡◌, refl, sym, ap, ◌∙◌, inl, inr, Bool, true, false, ◌||◌, ◌&&◌, not, List, [], ◌∷◌, ◌++◌, any,
  map, arith, Bool-cases, if◌then◌else◌,
}
use donsy.Text.{Text, text_eq}
use donsy.Text.Equality.{text_eq_iff}
use donsy.Errors.{ok, err}
use donsy.Epic.Issue
use donsy.Epic.Issue.{issue_state_eq}
use donsy.Epic.PullRequest
use donsy.Epic.PullRequest.{PullRequest, status_eq}
use donsy.Epic.Aggregate.{Epic, find_issue}

pub record RemoteGroup : Type 0 where
  pub repository : Text
  pub base : Text
  pub records : List PullRequest

abbrev pub heads : RemoteGroup → List Text
heads g = map (λ (p : PullRequest). p.head) g.records

unfoldable pub awaiting_merge : Epic → PullRequest → Bool
awaiting_merge current p =
    status_eq p.status PullRequest.opened && p.approved && elim (find_issue p.issue_id current) [
      | err x ↦ false
      | ok i ↦ issue_state_eq i.state Issue.pr
    ]

-- The key: the repository, a NUL, and the base.
abbrev pub remote_key : Text → Text → Text
remote_key repository base = repository ++ 0 ∷ base

abbrev pub key_of : PullRequest → Text
key_of p = remote_key p.repository p.base

abbrev pub has_key : Text → RemoteGroup → Bool
has_key key g = text_eq (remote_key g.repository g.base) key

unfoldable pub add_to_group : PullRequest → List RemoteGroup → List RemoteGroup
add_to_group p [] = record { repository = p.repository; base = p.base; records = p ∷ [] } ∷ []
add_to_group p (g ∷ rest) =
    let more = add_to_group p rest in
    if has_key (key_of p) g then record g { records = g.records ++ p ∷ [] } ∷ rest else g ∷ more

unfoldable pub group_from :
    (PullRequest → Bool) → List RemoteGroup → List PullRequest → List RemoteGroup
group_from awaits groups [] = groups
group_from awaits groups (p ∷ rest) =
    group_from awaits (if awaits p then add_to_group p groups else groups) rest

unfoldable pub group_by_remote : Epic → List RemoteGroup
group_by_remote current = group_from (awaiting_merge current) [] current.pull_requests

-- The records of the groups under a key, and the pull requests that wait under it, in the order of
-- the epic.
unfoldable pub records_under : Text → List RemoteGroup → List PullRequest
records_under key [] = []
records_under key (g ∷ rest) =
    let more = records_under key rest in if has_key key g then g.records ++ more else more

unfoldable pub waiting_under : (PullRequest → Bool) → Text → List PullRequest → List PullRequest
waiting_under awaits key [] = []
waiting_under awaits key (p ∷ rest) =
    let more = waiting_under awaits key rest in
    if awaits p && text_eq (key_of p) key then p ∷ more else more

-- No two groups have one key.
unfoldable pub is_distinct : List RemoteGroup → Bool
is_distinct [] = true
is_distinct (g ∷ rest) =
    not (any (has_key (remote_key g.repository g.base)) rest) && is_distinct rest

text_eq_swap : (a b : Text) → text_eq a b ≡ text_eq b a
text_eq_swap a b = elim (Bool-cases (text_eq a b)) [
  | inl t ↦ t ∙ sym ((text_eq_iff b a).1 (sym ((text_eq_iff a b).0 t)))
  | inr f ↦ elim (Bool-cases (text_eq b a)) [
    | inl t ↦ absurd (cc (f, (text_eq_iff a b).1 (sym ((text_eq_iff b a).0 t))))
    | inr k ↦ f ∙ sym k
  ]
]

text_eq_chain : (a b c : Text) → text_eq a b ≡ true → text_eq a c ≡ text_eq b c
text_eq_chain a b c h = ap (λ x. text_eq x c) ((text_eq_iff a b).0 h)

any-add_to_group :
    (p : PullRequest) (key : Text) (gs : List RemoteGroup)
    → any (has_key key) (add_to_group p gs) ≡ (any (has_key key) gs || text_eq (key_of p) key)
unfolding add_to_group
any-add_to_group p key [] = ground arith
any-add_to_group p key (g ∷ rest) = ground (
  arith,
  any-add_to_group p key rest,
  text_eq_chain (remote_key g.repository g.base) (key_of p) key,
)

distinct-add_to_group :
    (p : PullRequest) (gs : List RemoteGroup)
    → is_distinct gs ≡ true
    → is_distinct (add_to_group p gs) ≡ true
unfolding add_to_group is_distinct
distinct-add_to_group p [] h = refl
distinct-add_to_group p (g ∷ rest) h = ground (
  arith,
  distinct-add_to_group p rest,
  any-add_to_group p (remote_key g.repository g.base) rest,
  text_eq_swap (key_of p) (remote_key g.repository g.base),
)

none_under :
    (key : Text) (gs : List RemoteGroup) → any (has_key key) gs ≡ false → records_under key gs ≡ []
unfolding records_under
none_under key [] h = refl
none_under key (g ∷ rest) h = ground (arith, none_under key rest)

abbrev if_key : Text → PullRequest → List PullRequest
if_key key p = if text_eq (key_of p) key then p ∷ [] else []

under-add_to_group :
    (p : PullRequest) (key : Text) (gs : List RemoteGroup)
    → is_distinct gs ≡ true
    → records_under key (add_to_group p gs) ≡ records_under key gs ++ if_key key p
unfolding add_to_group is_distinct records_under
under-add_to_group p key [] h = refl
under-add_to_group p key (g ∷ rest) h =
    let alone : any (has_key (remote_key g.repository g.base)) rest ≡ false = ground arith in
    let added = if_key key p in
    let under = records_under key rest in
    elim (Bool-cases (has_key (key_of p) g)) [
      | inl t ↦
          let absent : text_eq (key_of p) key ≡ true → records_under key rest ≡ [] = λ k.
            none_under key rest (
              ap (λ x. any (has_key x) rest)
                (sym ((text_eq_iff (key_of p) key).0 k)
                  ∙ sym ((text_eq_iff (remote_key g.repository g.base) (key_of p)).0 t))
              ∙ alone) in
          let same = text_eq_chain (remote_key g.repository g.base) (key_of p) key t in
          ground (
            arith,
            absent,
            same,
            append_assoc g.records under added,
            append-nil under,
            append-nil g.records,
            append-nil (g.records ++ under),
            append-nil (g.records ++ p ∷ []),
          )
      | inr t ↦ ground (
        arith,
        under-add_to_group p key rest,
        append_assoc g.records under added,
        append-nil under,
        append-nil (g.records ++ under),
      )
    ]

under-group_from :
    (awaits : PullRequest → Bool) (key : Text) (ps : List PullRequest) (gs : List RemoteGroup)
    → is_distinct gs ≡ true
    → (records_under key (group_from awaits gs ps)
        ≡ records_under key gs ++ waiting_under awaits key ps)
      × (is_distinct (group_from awaits gs ps) ≡ true)
unfolding group_from waiting_under
under-group_from awaits key [] gs h = (sym (append-nil (records_under key gs)), h)
under-group_from awaits key (p ∷ rest) gs h = elim (Bool-cases (awaits p)) [
  | inl w ↦
      let d = distinct-add_to_group p gs h in
      let more = under-group_from awaits key rest (add_to_group p gs) d in
      (
        ground (
          arith,
          more.0,
          under-add_to_group p key gs h,
          append_assoc (records_under key gs) (if_key key p) (waiting_under awaits key rest),
        ),
        ground (arith, more.1),
      )
  | inr w ↦
      let more = under-group_from awaits key rest gs h in
      (ground (arith, more.0), ground (arith, more.1))
]

-- No two groups of the sweep have one key, and under each key the groups hold exactly the pull
-- requests with that key that wait for a merge, in the order of the epic.
pub group_by_remote_exact :
    (current : Epic)
    → (is_distinct (group_by_remote current) ≡ true)
      × ((key : Text)
          → records_under key (group_by_remote current)
            ≡ waiting_under (awaiting_merge current) key current.pull_requests)
unfolding group_by_remote
group_by_remote_exact current = (
  (under-group_from (awaiting_merge current) [] current.pull_requests []
      (unfold is_distinct in refl)).1,
  λ key.
      unfold records_under in
      (under-group_from (awaiting_merge current) key current.pull_requests []
        (unfold is_distinct in refl)).0,
)

-- ===== src/Worker/Exclusion.antt =====
-- No subject has two rounds at once, and no more rounds hold a slot than there are.
use donsy.Prelude.{
  ℕ, ◌+◌, ◌≤◌, ◌<◌, ◌≡◌, refl, sym, ap, ◌∙◌, ◌⊎◌, inl, inr, Bool, true, false, none, List, [], ◌∷◌,
  ◌++◌, arith, length, length-append, if◌then◌else◌, Bool-cases, Option-cases, ◌||◌, not, ltb,
}
use mathlib.Core.Path.{subst}
use donsy.Text.{Text}
use donsy.Epic.Issue.{Time}
use donsy.Worker.{
  Worker, Round, RoundResult, dispatch, drain, finish, due_for_sweep, record_result, record_all,
  is_held, max_concurrent_rounds, new_epic_worker,
}
use donsy.Worker.Keys.{SubjectKey, key_eq, key_eq_iff, lookup, delete, put}
use donsy.Worker.Steps.{
  Step, dispatches, drains, receives, sweeps, recovers, ends, sends, gives_up, Reach, here, next,
  result_of,
}

abbrev one_if : Bool → ℕ
one_if true = 1
one_if false = 0

-- How often a subject is in flight, has a round that holds a slot, and has a result on its way.
pub marked : SubjectKey → List (SubjectKey × Text) → ℕ
marked key [] = 0
marked key ((k, epic) ∷ rest) = one_if (key_eq k key) + marked key rest

pub rounds_of : SubjectKey → List Round → ℕ
rounds_of key [] = 0
rounds_of key (r ∷ rest) = one_if (key_eq r.key key) + rounds_of key rest

pub results_for : SubjectKey → List RoundResult → ℕ
results_for key [] = 0
results_for key (r ∷ rest) = one_if (key_eq r.key key) + results_for key rest

rounds_of-append :
    (key : SubjectKey) (xs ys : List Round)
    → rounds_of key (xs ++ ys) ≡ rounds_of key xs + rounds_of key ys
unfolding rounds_of
rounds_of-append key [] ys = omega arith
rounds_of-append key (x ∷ xs) ys = omega (arith, rounds_of-append key xs ys)

results_for-append :
    (key : SubjectKey) (xs ys : List RoundResult)
    → results_for key (xs ++ ys) ≡ results_for key xs + results_for key ys
unfolding results_for
results_for-append key [] ys = omega arith
results_for-append key (x ∷ xs) ys = omega (arith, results_for-append key xs ys)

results_for-cons :
    (key : SubjectKey) (r : RoundResult) (rs : List RoundResult)
    → results_for key (r ∷ rs) ≡ one_if (key_eq r.key key) + results_for key rs
unfolding results_for
results_for-cons key r rs = refl

results_for-nil : (key : SubjectKey) → results_for key [] ≡ 0
unfolding results_for
results_for-nil key = refl

rounds_of-cons :
    (key : SubjectKey) (r : Round) (rs : List Round)
    → rounds_of key (r ∷ rs) ≡ one_if (key_eq r.key key) + rounds_of key rs
unfolding rounds_of
rounds_of-cons key r rs = refl

pub rounds_of-snoc :
    (key : SubjectKey) (rs : List Round) (r : Round)
    → rounds_of key (rs ++ r ∷ []) ≡ one_if (key_eq r.key key) + rounds_of key rs
unfolding rounds_of
rounds_of-snoc key rs r = omega (arith, rounds_of-append key rs (r ∷ []))

marked-delete :
    (k key : SubjectKey) (m : List (SubjectKey × Text))
    → marked key (delete k m) ≡ (if key_eq k key then 0 else marked key m)
unfolding marked delete
marked-delete k key [] = ground arith
marked-delete k key ((j, epic) ∷ m) =
    ground (arith, marked-delete k key m, key_eq_iff j k, key_eq_iff j key, key_eq_iff k key)

marked-put :
    (k key : SubjectKey) (epic : Text) (m : List (SubjectKey × Text))
    → marked key (put k epic m) ≡ (if key_eq k key then 1 else marked key m)
unfolding marked put
marked-put k key epic m = ground (arith, marked-delete k key m)

marked_absent :
    (key : SubjectKey) (m : List (SubjectKey × Text)) → lookup key m ≡ none → marked key m ≡ 0
unfolding marked lookup
marked_absent key [] h = refl
marked_absent key ((j, epic) ∷ m) h = ground (arith, marked_absent key m)

-- All rounds of a subject, wherever they are: those that hold a slot, those that wait to send, and
-- the results that are not recorded yet.
abbrev pub rounds_under_way : SubjectKey → Worker → ℕ
rounds_under_way key w =
    rounds_of key w.active + results_for key w.finished + results_for key w.results

pub record IsExclusive (w : Worker) : Type 0 where
  pub owned : (key : SubjectKey) → rounds_under_way key w ≤ marked key w.inflight
  pub single : (key : SubjectKey) → marked key w.inflight ≤ 1
  pub within : length w.active ≤ max_concurrent_rounds
  pub buffered : length w.results ≤ max_concurrent_rounds

pub new_epic_worker-IsExclusive : IsExclusive new_epic_worker
unfolding marked rounds_of results_for
new_epic_worker-IsExclusive = record {
  owned = λ k. omega arith;
  single = λ k. omega arith;
  within = omega arith;
  buffered = omega arith;
}

-- What recording a result does to the four lists.
record_result_parts :
    (now : Time) (r : RoundResult) (w : Worker)
    → ((record_result now r w).inflight ≡ delete r.key w.inflight)
      × ((record_result now r w).active ≡ w.active)
      × ((record_result now r w).finished ≡ w.finished)
      × ((record_result now r w).results ≡ w.results)
unfolding record_result
record_result_parts now r w = (ground arith, ground arith, ground arith, ground arith)

-- A result that is taken out of the channel and recorded.
taken :
    (now : Time) (r : RoundResult) (w : Worker)
    → IsExclusive (record w { results = r ∷ w.results })
    → IsExclusive (record_result now r w)
taken now r w h =
    let p = record_result_parts now r w in
    record {
      owned = λ key. ground (
        arith,
        p,
        marked-delete r.key key w.inflight,
        h.owned key,
        h.single key,
        results_for-cons key r w.results,
      );
      single = λ key. ground (arith, p, marked-delete r.key key w.inflight, h.single key);
      within = ground (arith, p, h.within);
      buffered = ground (arith, p, h.buffered);
    }

pub held_back-or-dispatched :
    (now : Time) (key : SubjectKey) (epic : Text) (w : Worker)
    → (dispatch now key epic w ≡ w)
      ⊎ ((lookup key w.inflight ≡ none)
          × (length w.active < max_concurrent_rounds)
          × (dispatch now key epic w ≡ record w {
            inflight = put key epic w.inflight;
            active = w.active ++ record { key = key; epic_id = epic } ∷ [];
          }))
unfolding dispatch
held_back-or-dispatched now key epic w = elim (Option-cases (lookup key w.inflight)) [
  | inr (e, h) ↦ inl (ground arith)
  | inl h ↦
      elim (Bool-cases (is_held now key w || not (ltb (length w.active) max_concurrent_rounds))) [
        | inl k ↦ inl (ground arith)
        | inr k ↦ inr (h, ground arith, ground arith)
      ]
]

dispatch-IsExclusive :
    (now : Time) (key : SubjectKey) (epic : Text) (w : Worker)
    → IsExclusive w
    → IsExclusive (dispatch now key epic w)
dispatch-IsExclusive now key epic w h = elim (held_back-or-dispatched now key epic w) [
  | inl e ↦ subst IsExclusive (sym e) h
  | inr (free, room, e) ↦ subst IsExclusive (sym e) (record {
    owned = λ k. ground (
      arith,
      rounds_of-snoc k w.active (record { key = key; epic_id = epic }),
      marked-put key k epic w.inflight,
      marked_absent key w.inflight free,
      key_eq_iff key k,
      h.owned k,
    );
    single = λ k. ground (arith, marked-put key k epic w.inflight, h.single k);
    within = ground (arith, length-append w.active (record { key = key; epic_id = epic } ∷ []));
    buffered = h.buffered;
  })
]

-- A state with the same four lists.
same_lists :
    (w u : Worker)
    → u.inflight ≡ w.inflight
    → u.active ≡ w.active
    → u.finished ≡ w.finished
    → u.results ≡ w.results
    → IsExclusive w
    → IsExclusive u
same_lists w u a b c d h = record {
  owned = λ k. ground (arith, h.owned k);
  single = λ k. ground (arith, h.single k);
  within = ground arith;
  buffered = ground arith;
}

finish-IsExclusive :
    (tripped : Text → Text) (now : Time) (r : RoundResult) (w : Worker)
    → IsExclusive (record w { results = r ∷ w.results })
    → IsExclusive (finish tripped now r w).0
finish-IsExclusive tripped now r w h =
    same_lists (record_result now r w) (finish tripped now r w).0 (unfold finish in ground arith)
      (unfold finish in ground arith) (unfold finish in ground arith)
      (unfold finish in ground arith) (taken now r w h)

record_result-results :
    (now : Time) (r : RoundResult) (rs : List RoundResult) (w : Worker)
    → record_result now r (record w { results = rs })
      ≡ record (record_result now r w) { results = rs }
unfolding record_result
record_result-results now r rs w = ground arith

-- The results that `drain` has taken and not recorded yet count as on their way.
record_all-IsExclusive :
    (now : Time) (rs : List RoundResult) (w : Worker)
    → w.results ≡ []
    → IsExclusive (record w { results = rs })
    → IsExclusive (record_all now rs w)
unfolding record_all
record_all-IsExclusive now [] w e h = same_lists (record w { results = [] }) w refl refl refl e h
record_all-IsExclusive now (r ∷ rs) w e h =
    record_all-IsExclusive now rs (record_result now r w) ((record_result_parts now r w).3 ∙ e) (
      subst IsExclusive (record_result-results now r rs w)
        (taken now r (record w { results = rs }) h))

moved-IsExclusive :
    (w u : Worker)
    → IsExclusive w
    → u.inflight ≡ w.inflight
    → ((key : SubjectKey) → rounds_under_way key u ≤ rounds_under_way key w)
    → length u.active ≤ length w.active
    → length u.results ≤ max_concurrent_rounds
    → IsExclusive u
moved-IsExclusive w u h e fewer shorter room = record {
  owned = λ key. ground (arith, h.owned key, fewer key);
  single = λ key. ground (arith, h.single key);
  within = omega (arith, h.within);
  buffered = room;
}

-- Every step keeps the rounds exclusive.
pub Step-IsExclusive : (w u : Worker) → Step w u → IsExclusive w → IsExclusive u
Step-IsExclusive w u (dispatches now key epic e) h =
    subst IsExclusive (sym e) (dispatch-IsExclusive now key epic w h)
Step-IsExclusive w u (drains now e) h =
    subst IsExclusive (sym e)
      (unfold drain in record_all-IsExclusive now w.results (record w { results = [] }) refl h)
Step-IsExclusive w u (receives tripped now r rest q e) h = subst IsExclusive (sym e) (
    finish-IsExclusive tripped now r (record w { results = rest })
      (same_lists w (record w { results = r ∷ rest }) refl refl refl (sym q) h))
Step-IsExclusive w u (sweeps now e) h = subst IsExclusive (sym e) (
    same_lists w (due_for_sweep now w).0 (unfold due_for_sweep in ground arith)
      (unfold due_for_sweep in ground arith) (unfold due_for_sweep in ground arith)
      (unfold due_for_sweep in ground arith) h)
Step-IsExclusive w u (recovers e) h =
    subst IsExclusive (sym e) (same_lists w (record w { recovered = true }) refl refl refl refl h)
Step-IsExclusive w u (ends before r after failed q e) h =
    moved-IsExclusive w u h (ground arith)
      (λ key. ground (
        arith,
        ap (rounds_of key) q,
        rounds_of-append key before (r ∷ after),
        rounds_of-append key before after,
        rounds_of-cons key r after,
        results_for-cons key (result_of r failed) w.finished,
      ))
      (ground (arith, ap length q, length-append before (r ∷ after), length-append before after))
      (ground (arith, h.buffered))
Step-IsExclusive w u (sends before r after q room e) h =
    moved-IsExclusive w u h (ground arith)
      (λ key. ground (
        arith,
        ap (results_for key) q,
        results_for-append key before (r ∷ after),
        results_for-append key before after,
        results_for-append key w.results (r ∷ []),
        results_for-cons key r after,
        results_for-cons key r [],
        results_for-nil key,
      ))
      (ground arith) (ground (arith, length-append w.results (r ∷ [])))
Step-IsExclusive w u (gives_up before r after q e) h =
    moved-IsExclusive w u h (ground arith)
      (λ key. ground (
        arith,
        ap (results_for key) q,
        results_for-append key before (r ∷ after),
        results_for-append key before after,
        results_for-cons key r after,
      ))
      (ground arith) (ground (arith, h.buffered))

pub Reach-IsExclusive : (w : Worker) → Reach new_epic_worker w → IsExclusive w
Reach-IsExclusive w here = new_epic_worker-IsExclusive
Reach-IsExclusive w (next {u} r s) = Step-IsExclusive u w s (Reach-IsExclusive u r)

-- Whatever the scheduler and the rounds do, and in whatever order, no subject ever has more than one
-- round that runs, waits to send its result or has it unrecorded; a subject that has one is in
-- flight; and no more than eight rounds hold a slot.
pub rounds_exclude :
    (w : Worker) (key : SubjectKey)
    → Reach new_epic_worker w
    → (rounds_under_way key w ≤ 1)
      × (lookup key w.inflight ≡ none → rounds_under_way key w ≡ 0)
      × (length w.active ≤ max_concurrent_rounds)
rounds_exclude w key r =
    let v = Reach-IsExclusive w r in
    (
      omega (arith, v.owned key, v.single key),
      λ n. omega (arith, v.owned key, marked_absent key w.inflight n),
      v.within,
    )

-- ===== src/Worker/Steps.antt =====
-- The steps of the scheduler and of the rounds beside it, in any order: what the goroutine of `Run`
-- does, and what a round does when it ends. A round may panic, and then fails; it gives its slot
-- back before it sends its result, and at shutdown it may give up sending.
use donsy.Prelude.{◌<◌, ◌≡◌, true, Option, List, [], ◌∷◌, ◌++◌, length}
use donsy.Text.{Text}
use donsy.Epic.Issue.{Time}
use donsy.Worker.{
  Worker, Round, RoundResult, Failure, dispatch, drain, finish, due_for_sweep,
  max_concurrent_rounds,
}
use donsy.Worker.Keys.{SubjectKey}

abbrev pub result_of : Round → Option Failure → RoundResult
result_of r failed = record { key = r.key; epic_id = r.epic_id; failed = failed }

pub data Step (w u : Worker) : Type 0 where
  dispatches :
      (now : Time) (key : SubjectKey) (epic : Text) → u ≡ dispatch now key epic w → Step w u
  drains : (now : Time) → u ≡ drain now w → Step w u
  receives :
      (tripped : Text → Text) (now : Time) (result : RoundResult) (rest : List RoundResult)
      → w.results ≡ result ∷ rest
      → u ≡ (finish tripped now result (record w { results = rest })).0
      → Step w u
  sweeps : (now : Time) → u ≡ (due_for_sweep now w).0 → Step w u
  recovers : u ≡ record w { recovered = true } → Step w u
  ends :
      (before : List Round) (r : Round) (after : List Round) (failed : Option Failure)
      → w.active ≡ before ++ r ∷ after
      → u ≡ record w { active = before ++ after; finished = result_of r failed ∷ w.finished }
      → Step w u
  sends :
      (before : List RoundResult) (result : RoundResult) (after : List RoundResult)
      → w.finished ≡ before ++ result ∷ after
      → length w.results < max_concurrent_rounds
      → u ≡ record w { finished = before ++ after; results = w.results ++ result ∷ [] }
      → Step w u
  gives_up :
      (before : List RoundResult) (result : RoundResult) (after : List RoundResult)
      → w.finished ≡ before ++ result ∷ after
      → u ≡ record w { finished = before ++ after }
      → Step w u

pub data Reach (w : Worker) : Worker → Type 0 where
  here : Reach w w
  next : {u v : Worker} → Reach w u → Step u v → Reach w v

pub Reach-trans : {w u v : Worker} → Reach w u → Reach u v → Reach w v
Reach-trans r here = r
Reach-trans r (next q s) = next (Reach-trans r q) s

-- ===== src/Worker/Examples.antt =====
-- A scheduler with a failed round behind it and one under way, and the theorems at it.
use donsy.Prelude.{◌≤◌, ◌≡◌, refl, true, none, some, [], ◌∷◌, any, arith, length}
use donsy.Text.{codes, text_eq}
use donsy.Errors.{ok}
use donsy.Epic.Sample.{sample_epic}
use donsy.Agent.{AgentSubject, AgentSubjectKind}
use donsy.Worker.{Worker, RoundResult, new_epic_worker, dispatch, max_concurrent_rounds}
use donsy.Worker.Keys.{SubjectKey, lookup, subject_eq}
use donsy.Worker.Retries.{History, record_history, expected, ledger_refines}
use donsy.Worker.Steps.{here, next, dispatches}
use donsy.Worker.Exclusion.{rounds_under_way, rounds_of, rounds_exclude}
use donsy.Worker.Tick.{Project, Answers, partially, left_alone, advance_project}
use donsy.Worker.Tick.Refinement.{advance_project_spares}

abbrev subject_A : AgentSubject
subject_A = record { kind = AgentSubjectKind.issue; id = codes "A" }

abbrev key_A : SubjectKey
key_A = record { project = 1; subject = subject_A }

abbrev host_failure : RoundResult
host_failure = record {
  key = key_A;
  epic_id = codes "E";
  failed = some (record { from_host = true; message = codes "no disk" });
}

abbrev two_failures : History
two_failures = (100, host_failure) ∷ (50, host_failure) ∷ []

ledger_refines_example :
    lookup key_A (record_history two_failures new_epic_worker).retries ≡ expected key_A two_failures
ledger_refines_example = ledger_refines two_failures new_epic_worker key_A refl (omega arith)

abbrev dispatched : Worker
dispatched = dispatch 7 key_A (codes "E") new_epic_worker

rounds_exclude_example :
    (rounds_under_way key_A dispatched ≤ 1)
    × (lookup key_A dispatched.inflight ≡ none → rounds_under_way key_A dispatched ≡ 0)
    × (length dispatched.active ≤ max_concurrent_rounds)
rounds_exclude_example =
    rounds_exclude dispatched key_A (next here (dispatches 7 key_A (codes "E") refl))

abbrev project_1 : Project
project_1 = record { id = 1; name = codes "donsy"; last_opened_at = 4 }

abbrev answers : Answers
answers = record {
  projects = ok (project_1 ∷ []);
  epics = λ p. ok (sample_epic ∷ []);
  reconcile = λ c. partially (subject_A ∷ []);
  has_purge = true;
  purge = λ c. true;
  issues_ready = true;
  open_pull_requests = λ p e. true;
  review_approved = λ p e. true;
  get_epic = λ p e. ok sample_epic;
  complete_epic = λ p e. true;
  dispatched_at = λ k. 9;
}

sample_is_left_alone : any (subject_eq subject_A) (subject_A ∷ []) ≡ true
unfolding subject_eq text_eq
sample_is_left_alone = refl

advance_project_spares_example :
    (rounds_of key_A (advance_project answers true true project_1 new_epic_worker).0.active
      ≡ rounds_of key_A new_epic_worker.active)
    × (lookup key_A (advance_project answers true true project_1 new_epic_worker).0.inflight
        ≡ lookup key_A new_epic_worker.inflight)
advance_project_spares_example =
    advance_project_spares answers true true project_1 (sample_epic ∷ []) new_epic_worker subject_A
      refl (unfold left_alone in sample_is_left_alone)

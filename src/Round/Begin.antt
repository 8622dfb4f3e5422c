-- ===== src/Round/Begin.antt =====
-- What `begin` leaves behind, on success and on failure, where the registry saves what it is given.
use donsy.Prelude.{
  ◌≡◌, refl, sym, ap, ◌∙◌, ◌⊎◌, inl, inr, Bool, true, false, Option, none, some, List, [], ◌∷◌,
  arith, Bool-cases, Option-cases, if◌then◌else◌,
}
use mathlib.Core.Path.{subst}
use donsy.Text.{Text, text_eq}
use donsy.Text.Equality.{text_eq_iff}
use donsy.Epic.Issue.{Time}
use donsy.Agent
use donsy.Agent.{
  AgentRun, AgentRunStatus, AgentRunEvent, Sandbox, SandboxStatus, SessionMode, apply_run,
  reconcile,
}
use donsy.Round.{
  Host, Rounds, RoundFailure, Answer, answered, host_failed, saved, move, save_run, end_run,
  ensure_sandbox, start_sandbox, save_sandbox_status, begin_run, boot, begin, finish, during_call,
  tracked, with_error, cancel_text,
}
use donsy.Round.Supervisor.{has_key, has_key-own, was_cancelled, forget}
use donsy.Round.Triples.{Ends, then-Ends, settle-Ends, during_call-saved}

abbrev pub newest {ℓ} : {A : Type ℓ} → List A → Option A
newest [] = none
newest (a ∷ rest) = some a

-- The status of the newest record, where it is one of this run.
abbrev pub last_status : Text → Rounds → Option AgentRunStatus
last_status id s = elim s.runs [
  | [] ↦ none
  | r ∷ older ↦ if text_eq id r.id then some r.status else none
]

abbrev pub HasEnded : Text → RoundFailure → Rounds → Type 0
HasEnded id e s =
    (last_status id s ≡ some Agent.host_failed) ⊎ (last_status id s ≡ some Agent.cancelled)

-- And the supervisor neither can cancel the run nor has someone wait for it.
abbrev pub IsReleased : Text → RoundFailure → Rounds → Type 0
IsReleased id e s =
    HasEnded id e s
    × (has_key id s.supervisor.cancels ≡ false)
    × (has_key id s.supervisor.done ≡ false)

-- The newest record is this run, in this status.
abbrev pub IsAt : Text → AgentRunStatus → AgentRun → Rounds → Type 0
IsAt id status r s = (newest s.runs ≡ some r) × (r.id ≡ id) × (r.status ≡ status)

abbrev pub HasBegun : Text → AgentRun × Sandbox → Rounds → Type 0
HasBegun id started s = IsAt id Agent.running started.0 s × (started.1.status ≡ Agent.running)

abbrev IsNewest : AgentRun → Unit {0} → Rounds → Type 0
IsNewest r _ s = newest s.runs ≡ some r

abbrev HasLanded : AgentRun → SandboxStatus → Sandbox → Rounds → Type 0
HasLanded r status b s = (newest s.runs ≡ some r) × (b.status ≡ status)

abbrev ended_as : Bool → AgentRunStatus
ended_as true = Agent.cancelled
ended_as false = Agent.host_failed

module _ (h : Host) (saves : (r : AgentRun) → h.save_agent_run r ≡ none)
    (keeps : (b : Sandbox) → h.save_sandbox b ≡ none) where
  save_run_lem :
      (r : AgentRun) (s : Rounds)
      → (newest (save_run h r s).0.runs ≡ some r) × ((save_run h r s).1 ≡ none)
  unfolding save_run
  save_run_lem r s = ground (arith, saves r)

  last_status-host_failed :
      (r : AgentRun) (text : Text) (s : Rounds)
      → r.status ≡ Agent.admitted
      → last_status r.id (host_failed h r text s).0
        ≡ some (ended_as (was_cancelled r.id s.supervisor))
  unfolding host_failed end_run apply_run
  last_status-host_failed r text s a = elim (Bool-cases (was_cancelled r.id s.supervisor)) [
    | inl c ↦ ground (
      arith,
      text_eq_iff r.id r.id,
      save_run_lem (apply_run Agent.cancel h.ended_at (with_error cancel_text r)).0
          (record s { supervisor = forget r.id s.supervisor }),
    )
    | inr c ↦ ground (
      arith,
      text_eq_iff r.id r.id,
      save_run_lem (apply_run Agent.host_fail h.ended_at (with_error text r)).0 s,
    )
  ]

  host_failed-HasEnded :
      (r : AgentRun) (text : Text) (s : Rounds)
      → r.status ≡ Agent.admitted
      → HasEnded r.id (host_failed h r text s).1 (host_failed h r text s).0
  host_failed-HasEnded r text s a =
      let e = last_status-host_failed r text s a in
      elim (Bool-cases (was_cancelled r.id s.supervisor)) [
        | inl c ↦ inr (e ∙ ap (λ b. some (ended_as b)) c)
        | inr c ↦ inl (e ∙ ap (λ b. some (ended_as b)) c)
      ]

  move-Ends :
      (event : AgentRunEvent) (from into : AgentRunStatus) (at : Time) (r : AgentRun) (s : Rounds)
      → Agent.agent_run_transition from event ≡ some into
      → r.status ≡ from
      → Ends (IsAt r.id into) (HasEnded r.id) (move h event at r s)
  unfolding move apply_run
  move-Ends event from into at r s t a = ground (arith, save_run_lem (apply_run event at r).0 s)

  -- A sandbox's status is saved, and the runs stay as they are.
  save_sandbox_status_lem :
      (status : SandboxStatus) (b : Sandbox) (s : Rounds)
      → Agent.is_sandbox_status status ≡ true
      → save_sandbox_status h status b s ≡ (
        record (during_call s) {
          sandboxes =
              record b { status = status; updated_at = h.sandbox_at } ∷ (during_call s).sandboxes;
        },
        answered (record b { status = status; updated_at = h.sandbox_at }),
      )
  unfolding save_sandbox_status reconcile
  save_sandbox_status_lem status b s v =
      ground (arith, keeps (record b { status = status; updated_at = h.sandbox_at }))

  ensure_sandbox-Ends :
      (b : Sandbox) (r : AgentRun) (s : Rounds)
      → newest s.runs ≡ some r
      → r.status ≡ Agent.admitted
      → Ends (IsAt r.id Agent.admitted) (HasEnded r.id) (ensure_sandbox h b r s)
  unfolding ensure_sandbox
  ensure_sandbox-Ends b r s n a = elim (Option-cases (h.ensure b).1) [
    | inr (text, f) ↦ ground (arith, host_failed-HasEnded r text (during_call s))
    | inl f ↦ ground (
      arith,
      during_call-saved s,
      save_run_lem (record r { session_mode = SessionMode.fresh }) (during_call s),
    )
  ]

  start_sandbox-Ends :
      (b : Sandbox) (r : AgentRun) (s : Rounds)
      → newest s.runs ≡ some r
      → r.status ≡ Agent.admitted
      → Ends (IsNewest r) (HasEnded r.id) (start_sandbox h b r s)
  unfolding start_sandbox
  start_sandbox-Ends b r s n a = elim (Option-cases (h.start b)) [
    | inr (text, f) ↦ ground (arith, host_failed-HasEnded r text (during_call s))
    | inl f ↦ ground (arith, during_call-saved s)
  ]

  -- A sandbox's status is saved while the newest record stays what it is.
  status_saved-Ends :
      (status : SandboxStatus) (b : Sandbox) (r : AgentRun) (E : RoundFailure → Rounds → Type 0)
      (s : Rounds)
      → Agent.is_sandbox_status status ≡ true
      → newest s.runs ≡ some r
      → Ends (HasLanded r status) E (save_sandbox_status h status b s)
  status_saved-Ends status b r E s v n =
      subst (Ends (HasLanded r status) E) (sym (save_sandbox_status_lem status b s v))
        (ground (arith, during_call-saved s))

  saved-Ends :
      (r : AgentRun) (s : Rounds) → Ends (IsNewest r) (HasEnded r.id) (saved (save_run h r s))
  saved-Ends r s = ground (arith, save_run_lem r s)

  boot-Ends :
      (b : Sandbox) (r : AgentRun) (s : Rounds)
      → newest s.runs ≡ some r
      → r.status ≡ Agent.admitted
      → Ends (HasBegun r.id) (HasEnded r.id) (boot h b r s)
  unfolding boot
  boot-Ends b r s n a =
      let E = HasEnded r.id in
      then-Ends (HasLanded r Agent.stopped) (HasBegun r.id) E
        (save_sandbox_status h Agent.stopped b s) _
        (status_saved-Ends Agent.stopped b r E s (unfold Agent.is_sandbox_status in refl) n)
        (λ stopped s4 p4.
          then-Ends (IsNewest r) (HasBegun r.id) E (start_sandbox h stopped r s4) _
            (start_sandbox-Ends stopped r s4 p4.0 a)
            (λ _ s5 p5.
              then-Ends (HasLanded r Agent.running) (HasBegun r.id) E
                (save_sandbox_status h Agent.running stopped s5) _
                (status_saved-Ends Agent.running stopped r E s5
                  (unfold Agent.is_sandbox_status in refl) p5)
                (λ running s6 p6.
                  then-Ends (IsAt r.id Agent.running) (HasBegun r.id) E
                    (move h Agent.start h.started_at r s6) _
                    (move-Ends Agent.start Agent.admitted Agent.running h.started_at r s6
                      (unfold Agent.agent_run_transition in refl) a)
                    (λ started s7 p7. (p7, p6.1)))))

  at_same_run :
      (id : Text) (r : AgentRun) (m : Rounds × Answer (AgentRun × Sandbox))
      → r.id ≡ id
      → Ends (HasBegun r.id) (HasEnded r.id) m
      → Ends (HasBegun id) (HasEnded id) m
  at_same_run id r m e p = subst (λ i. Ends (HasBegun i) (HasEnded i) m) e p

  begin_run-Ends :
      (b : Sandbox) (r : AgentRun) (s : Rounds)
      → r.status ≡ Agent.queued
      → Ends (HasBegun r.id) (HasEnded r.id) (begin_run h b r s)
  unfolding begin_run
  begin_run-Ends b r s q =
      let E = HasEnded r.id in
      then-Ends (IsAt r.id Agent.admitted) (HasBegun r.id) E _ _
        (then-Ends (IsAt r.id Agent.admitted) (IsAt r.id Agent.admitted) E _ _
          (then-Ends (IsNewest r) (IsAt r.id Agent.admitted) E (saved (save_run h r s)) _
            (saved-Ends r s)
            (λ _ s1 p1.
              move-Ends Agent.admit Agent.queued Agent.admitted r.created_at r s1
                (unfold Agent.agent_run_transition in refl) q))
          (λ admitted s2 p2.
            subst (λ i. Ends (IsAt i Agent.admitted) (HasEnded i) (ensure_sandbox h b admitted s2))
              p2.1 (ensure_sandbox-Ends b admitted s2 p2.0 p2.2)))
        (λ ensured s3 p3.
          at_same_run r.id ensured (boot h b ensured s3) p3.1 (boot-Ends b ensured s3 p3.0 p3.2))

  -- Where the registry saves what it is given, `begin` either gives a running run, saved as the newest,
  -- on a running sandbox; or it fails, and then it leaves no live run behind: the newest record is
  -- that run, failed by the host or cancelled, and the supervisor neither can cancel it nor waits for it.
  pub begin_settles :
      (b : Sandbox) (r : AgentRun) (s : Rounds)
      → r.status ≡ Agent.queued
      → Ends (HasBegun r.id) (IsReleased r.id) (begin h b r s)
  unfolding begin
  begin_settles b r s q =
      settle-Ends (HasBegun r.id) (HasEnded r.id) (IsReleased r.id) r.id
        (begin_run h b r (tracked r.id s)) (begin_run-Ends b r (tracked r.id s) q)
        (λ e u p.
          unfold finish in
          (p, has_key-own r.id u.supervisor.cancels, has_key-own r.id u.supervisor.done))

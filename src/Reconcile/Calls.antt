-- ===== src/Reconcile/Calls.antt =====
-- Why a pass makes each of its calls.
use donsy.Prelude.{
  ◌+◌, ◌≡◌, refl, ap, ◌∙◌, inl, inr, Bool, true, false, ◌||◌, ◌&&◌, not, List, [], ◌∷◌, map, all,
  all_append, ltb, leb, length, arith, Option-cases, Bool-cases,
}
use donsy.Text.{Text, text_eq}
use donsy.Text.Equality.{text_eq_iff}
use donsy.Errors.{ok, err, Result-cases}
use donsy.Epic.Issue.{Time}
use donsy.Agent
use donsy.Agent.{
  AgentRun, AgentSubject, Sandbox, SandboxStatus, SandboxEvent, apply_sandbox, reconcile,
}
use donsy.Workflow.{stall_live_runs}
use donsy.Reconcile.{
  SandboxCall, stops_now, deletes, discards, saves, stalls, Provider, sandbox_status_eq, is_named,
  save, delete_record, reclaim, retire, stop_unowned, Limits, settle_sandbox, visit_running, visit,
}

abbrev pub sandbox_of : SandboxCall → Sandbox
sandbox_of (stops_now b) = b
sandbox_of (deletes b) = b
sandbox_of (discards b) = b
sandbox_of (saves b) = b
sandbox_of (stalls b r) = b

module _ (h : Provider) (now : Time) (J : SandboxCall → Bool) where
  save_justified : (b : Sandbox) → J (saves b) ≡ true → all J (save h now b).0 ≡ true
  save_justified b k = ground arith

  delete_record_justified :
      (b : Sandbox)
      → ((c : Sandbox) → c.id ≡ b.id → J (saves c) ≡ true)
      → all J (delete_record h now b).0 ≡ true
  unfolding delete_record apply_sandbox
  delete_record_justified b k =
      let d = (apply_sandbox SandboxEvent.delete_done (apply_sandbox SandboxEvent.delete b).0).0 in
      ground
        (arith, k (record d { updated_at = now }), save_justified (record d { updated_at = now }))

  -- A deletion is justified for each record of the sandbox.
  abbrev Deletable : Text → Type 0
  Deletable id = (c : Sandbox) → c.id ≡ id → (J (deletes c) && J (discards c)) ≡ true

  abbrev Savable : Text → Type 0
  Savable id = (c : Sandbox) → c.id ≡ id → J (saves c) ≡ true

  reclaim_justified :
      (b : Sandbox) → Savable b.id → Deletable b.id → all J (reclaim h now b).0 ≡ true
  unfolding reclaim
  reclaim_justified b k d = ground (arith, d b refl, delete_record_justified b k)

  retire_justified : (b : Sandbox) → Savable b.id → Deletable b.id → all J (retire h now b).0 ≡ true
  unfolding retire
  retire_justified b k d =
      ground (arith, reclaim_justified b k d, k (record b { updated_at = now }) refl)

  module _ (limits : Limits) where
    settle_sandbox_justified :
        (b : Sandbox) (status recorded : SandboxStatus) (stopped finished : Bool)
        → Savable b.id
        → ((finished
                || sandbox_status_eq status Agent.broken
                || (ltb 0 limits.idle_after
                    && sandbox_status_eq status SandboxStatus.stopped
                    && leb (b.updated_at + limits.idle_after) now))
              ≡ true
            → Deletable b.id)
        → all J (settle_sandbox h now limits b status recorded stopped finished).calls ≡ true
    unfolding settle_sandbox reconcile
    settle_sandbox_justified b status recorded stopped finished k d =
        let agreed = record b { status = status } in
        let saved = k (record agreed { updated_at = now }) refl in
        elim (Bool-cases (
          finished
          || sandbox_status_eq status Agent.broken
          || (ltb 0 limits.idle_after
              && sandbox_status_eq status SandboxStatus.stopped
              && leb (b.updated_at + limits.idle_after) now))) [
                | inl due ↦ ground (
                  arith,
                  saved,
                  retire_justified agreed k (d due),
                  reclaim_justified agreed k (d due),
                )
                | inr due ↦ ground (arith, saved)
              ]

    stalls_justified :
        (b : Sandbox) (runs : List AgentRun)
        → ((r : AgentRun) → J (stalls b r) ≡ true)
        → all J (map (stalls b) runs) ≡ true
    stalls_justified b [] k = refl
    stalls_justified b (r ∷ rest) k = ground (arith, k r, stalls_justified b rest k)

    stop_unowned_justified :
        (b : Sandbox) (owners : List AgentRun) (finished : Bool)
        → ((not (ltb 0 (length owners))
                || (ltb 0 limits.max_runtime && leb (b.updated_at + limits.max_runtime) now)
                || finished)
              ≡ true
            → (J (stops_now b) ≡ true) × ((r : AgentRun) → J (stalls b r) ≡ true))
        → all J (stop_unowned h now limits.max_runtime b owners finished).0.0 ≡ true
    unfolding stop_unowned
    stop_unowned_justified b owners finished s =
        elim (Bool-cases (
          not (ltb 0 (length owners))
          || (ltb 0 limits.max_runtime && leb (b.updated_at + limits.max_runtime) now)
          || finished)) [
            | inl due ↦ ground (
              arith,
              (s due).0,
              stalls_justified b (stall_live_runs h.save_agent_run now owners).0 (s due).1,
            )
            | inr due ↦ ground arith
          ]

seen_running_is :
    (s : SandboxStatus)
    → sandbox_status_eq s SandboxStatus.running ≡ true
    → s ≡ SandboxStatus.running
unfolding sandbox_status_eq
seen_running_is s h = ground arith

module _ (h : Provider) (now : Time) (limits : Limits) (inflight terminal : List AgentSubject)
    (live : Text → List AgentRun) where
  -- What the provider says of a sandbox.
  abbrev pub is_inspected : SandboxStatus → Sandbox → Bool
  is_inspected status b = elim (h.inspect b) [ ok s ↦ sandbox_status_eq s status | err e ↦ false ]

  abbrev pub is_finished : Sandbox → Bool
  is_finished b = is_named b.subject terminal

  -- A running sandbox that nobody owns, that ran too long, or whose subject is finished.
  abbrev pub may_stop : Sandbox → Bool
  may_stop b =
      is_inspected SandboxStatus.running b
      && (not (ltb 0 (length (live b.id)))
          || (ltb 0 limits.max_runtime && leb (b.updated_at + limits.max_runtime) now)
          || is_finished b)

  -- A sandbox whose subject is finished, that is broken, or that was stopped for long enough before
  -- this pass.
  abbrev pub may_delete : Sandbox → Bool
  may_delete b =
      is_finished b
      || is_inspected Agent.broken b
      || (ltb 0 limits.idle_after
          && is_inspected SandboxStatus.stopped b
          && leb (b.updated_at + limits.idle_after) now)

  abbrev allows : Sandbox → SandboxCall → Bool
  allows b (stops_now c) = may_stop b
  allows b (stalls c r) = may_stop b
  allows b (deletes c) = may_delete b
  allows b (discards c) = may_delete b
  allows b (saves c) = true

  -- A call is justified by a listed sandbox.
  abbrev pub is_justified_by : Sandbox → SandboxCall → Bool
  is_justified_by b c =
      not (is_named b.subject inflight) && text_eq (sandbox_of c).id b.id && allows b c

  pub inspected :
      (b : Sandbox) (s t : SandboxStatus)
      → h.inspect b ≡ ok s
      → is_inspected t b ≡ sandbox_status_eq s t
  inspected b s t e =
      ap (λ r. elim r as (λ x. Bool) [ ok u ↦ sandbox_status_eq u t | err f ↦ false ]) e

  same_sandbox : (b c : Sandbox) → c.id ≡ b.id → text_eq c.id b.id ≡ true
  same_sandbox b c e = (text_eq_iff c.id b.id).1 e

  module _ (b : Sandbox) (free : is_named b.subject inflight ≡ false) where
    saves_justified : (c : Sandbox) → c.id ≡ b.id → is_justified_by b (saves c) ≡ true
    saves_justified c e = ground (arith, same_sandbox b c e)

    deletes_justified :
        may_delete b ≡ true
        → (c : Sandbox) → c.id ≡ b.id
        → (is_justified_by b (deletes c) && is_justified_by b (discards c)) ≡ true
    deletes_justified d c e = ground (arith, same_sandbox b c e)

    visit_running_justified :
        h.inspect b ≡ ok SandboxStatus.running
        → all (is_justified_by b) (visit_running h now limits b (live b.id) (is_finished b)).calls
          ≡ true
    unfolding visit_running sandbox_status_eq
    visit_running_justified i =
        let J = is_justified_by b in
        let seen = inspected b SandboxStatus.running SandboxStatus.running i in
        let f = is_finished b in
        let asked = stop_unowned_justified h now J limits b (live b.id) f (λ due. (
          ground (arith, seen, same_sandbox b b refl),
          λ r. ground (arith, seen, same_sandbox b b refl),
        )) in
        let after =
          settle_sandbox_justified h now J limits (record b { updated_at = now })
            SandboxStatus.stopped b.status true f saves_justified
            (λ due. deletes_justified (ground arith)) in
        let kept =
          settle_sandbox_justified h now J limits b SandboxStatus.running b.status false f
            saves_justified (λ due. deletes_justified (ground arith)) in
        let asks = stop_unowned h now limits.max_runtime b (live b.id) f in
        let settled =
          settle_sandbox h now limits (record b { updated_at = now }) SandboxStatus.stopped b.status
            true f in
        elim (Option-cases asks.0.1) [
          | inl n ↦ elim (Bool-cases asks.1) [
            | inl t ↦ ground (arith, asked, all_append J asks.0.0 settled.calls asked after)
            | inr u ↦ ground (arith, kept)
          ]
          | inr (e, p) ↦ ground (arith, asked)
        ]

    visit_free_justified :
        all (is_justified_by b) (visit h now limits inflight terminal live b).calls ≡ true
    unfolding visit
    visit_free_justified = elim (Result-cases (h.inspect b)) [
      | inl (s, e) ↦
          let kept =
            settle_sandbox_justified h now (is_justified_by b) limits b s b.status false
              (is_finished b) saves_justified
              (λ due. deletes_justified (
                ground
                  (arith, inspected b s Agent.broken e, inspected b s SandboxStatus.stopped e))) in
          elim (Bool-cases (sandbox_status_eq s SandboxStatus.running)) [
            | inl r ↦ ground (arith, visit_running_justified (e ∙ ap ok (seen_running_is s r)))
            | inr r ↦ ground (arith, kept)
          ]
      | inr (e, i) ↦ ground arith
    ]

  -- Every call that the visit of a sandbox makes is justified by it.
  pub visit_justified :
      (b : Sandbox)
      → all (is_justified_by b) (visit h now limits inflight terminal live b).calls ≡ true
  unfolding visit
  visit_justified b = elim (Bool-cases (is_named b.subject inflight)) [
    | inl busy ↦ ground arith
    | inr free ↦ visit_free_justified b free
  ]

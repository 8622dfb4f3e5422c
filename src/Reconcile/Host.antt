-- ===== src/Reconcile/Host.antt =====
-- `releaseHost`: when the machine of a project is stopped. HostRecord is the project's entry in
-- `lastBusy` and in `hostReleased`.
use donsy.Prelude.{
  ℕ, ◌+◌, ◌≤◌, ◌≡◌, refl, ◌⊎◌, inl, inr, Bool, true, false, ◌||◌, ◌&&◌, not, Option, none, some,
  List, [], ◌∷◌, leb, arith, Option-cases, if◌then◌else◌,
}
use donsy.Errors.{Error, Result, ok, err}
use donsy.Epic.Issue.{Time}

pub record HostRecord : Type 0 where
  pub last_busy : Option Time
  pub is_released : Bool

pub data HostCall : Type 0 where
  reaps stops_profile : HostCall

-- What the host answers: `reap` is `ReapExpiredContainers`, whose bounds in time are its own.
pub record ProjectHost : Type 0 where
  pub reap : Option Error
  pub stop_profile : Result Bool

pub record Released : Type 0 where
  pub host : HostRecord
  pub calls : List HostCall
  pub failed : Option Error

abbrev pub idle_host : HostRecord
idle_host = record { last_busy = none; is_released = false }

module _ (machine : ProjectHost) (host_idle_after : ℕ) where
  -- The two calls at the end.
  unfoldable pub stop_host : HostRecord → Released
  stop_host r =
      let stopped : Released = elim machine.stop_profile [
        | err e ↦ record { host = r; calls = reaps ∷ stops_profile ∷ []; failed = some e }
        | ok done ↦ record {
          host = if done then record r { is_released = true } else r;
          calls = reaps ∷ stops_profile ∷ [];
          failed = none;
        }
      ] in
      elim machine.reap [
        | some e ↦ record { host = r; calls = reaps ∷ []; failed = some e }
        | none ↦ stopped
      ]

  -- `active`: the pass found something running, in flight, or failed.
  unfoldable pub release_host : Bool → Time → HostRecord → Released
  release_host active now r =
      let unchanged : HostRecord → Released = λ s. record { host = s; calls = []; failed = none } in
      let stopped = stop_host r in
      let rested : Released = elim r.last_busy [
        | none ↦ unchanged (record r { last_busy = some now })
        | some quiet ↦ if leb (quiet + host_idle_after) now then stopped else unchanged r
      ] in
      if active
      then unchanged (record { last_busy = some now; is_released = false })
      else if r.is_released
      then unchanged r
      else rested

  -- The passes over a project, the newest first: when each was, and whether it was active.
  unfoldable pub after_passes : List (Time × Bool) → HostRecord
  after_passes [] = idle_host
  after_passes ((now, active) ∷ older) = (release_host active now (after_passes older)).host

  -- Every active pass lies at least that long before a time.
  unfoldable pub rested_since : Time → List (Time × Bool) → Bool
  rested_since now [] = true
  rested_since now ((at, active) ∷ older) =
      (not active || leb (at + host_idle_after) now) && rested_since now older

  -- The times of the passes do not fall.
  unfoldable pub is_ordered : Time → List (Time × Bool) → Bool
  is_ordered now [] = true
  is_ordered now ((at, active) ∷ older) = leb at now && is_ordered at older

  active_by : Time → List (Time × Bool) → Bool
  active_by q [] = true
  active_by q ((at, active) ∷ older) = (not active || leb at q) && active_by q older

  active_by_mono :
      (q r : Time) (l : List (Time × Bool)) → q ≤ r → active_by q l ≡ true → active_by r l ≡ true
  unfolding active_by
  active_by_mono q r [] h k = refl
  active_by_mono q r ((at, active) ∷ older) h k = ground (arith, active_by_mono q r older h)

  ordered-active_by :
      (now : Time) (l : List (Time × Bool)) → is_ordered now l ≡ true → active_by now l ≡ true
  unfolding active_by is_ordered
  ordered-active_by now [] h = refl
  ordered-active_by now ((at, active) ∷ older) h =
      ground (arith, ordered-active_by at older, active_by_mono at now older)

  rested_by :
      (q now : Time) (l : List (Time × Bool))
      → q + host_idle_after ≤ now
      → active_by q l ≡ true
      → rested_since now l ≡ true
  unfolding active_by rested_since
  rested_by q now [] h k = refl
  rested_by q now ((at, active) ∷ older) h k = ground (arith, rested_by q now older h)

  -- What one pass leaves in the record.
  stop_host-last_busy : (r : HostRecord) → (stop_host r).host.last_busy ≡ r.last_busy
  unfolding stop_host
  stop_host-last_busy r = ground arith

  release_host-last_busy :
      (active : Bool) (now : Time) (r : HostRecord)
      → ((release_host active now r).host.last_busy ≡ some now)
        ⊎ ((active ≡ false) × ((release_host active now r).host.last_busy ≡ r.last_busy))
  unfolding release_host
  release_host-last_busy active now r = ground (arith, stop_host-last_busy r)

  after_passes-active_by :
      (l : List (Time × Bool)) (now q : Time)
      → is_ordered now l ≡ true
      → (after_passes l).last_busy ≡ some q
      → active_by q l ≡ true
  unfolding after_passes active_by is_ordered
  after_passes-active_by [] now q h k = refl
  after_passes-active_by ((at, active) ∷ older) now q h k =
      elim (release_host-last_busy active at (after_passes older)) [
        | inl e ↦ ground (arith, ordered-active_by at older)
        | inr (f, e) ↦ ground (arith, after_passes-active_by older at q)
      ]

  calls_need_rest :
      (active : Bool) (now : Time) (r : HostRecord) (call : HostCall) (calls : List HostCall)
      → (release_host active now r).calls ≡ call ∷ calls
      → (active ≡ false)
        × (r.is_released ≡ false)
        × ((q : Time) × (r.last_busy ≡ some q) × (q + host_idle_after ≤ now))
  unfolding release_host
  calls_need_rest active now r call calls h = elim (Option-cases r.last_busy) [
    | inl n ↦ absurd (ground arith)
    | inr (q, e) ↦ (ground arith, ground arith, (q, e, ground arith))
  ]

  -- Over a history of passes whose times do not fall: if a pass makes a call on the machine of the
  -- project, then the pass is not active, and each active pass before it lies at least the idle
  -- time back.
  pub host_stops_rested :
      (history : List (Time × Bool)) (active : Bool) (now : Time) (call : HostCall)
      (calls : List HostCall)
      → is_ordered now history ≡ true
      → (release_host active now (after_passes history)).calls ≡ call ∷ calls
      → (active ≡ false) × (rested_since now history ≡ true)
  host_stops_rested history active now call calls h k =
      let (f, free, (q, e, room)) =
        calls_need_rest active now (after_passes history) call calls k in
      (f, rested_by q now history room (after_passes-active_by history now q h e))

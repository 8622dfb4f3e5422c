-- ===== src/Round/Blame.antt =====
-- What a failure of a round says of the host.
use donsy.Prelude.{◌≡◌, refl, false, Option, none, some, arith}
use donsy.Text.{Text}
use donsy.Epic.Issue.{Time}
use donsy.Agent
use donsy.Agent.{AgentRun, AgentRunStatus, AgentRunEvent, Sandbox, SandboxStatus, apply_run}
use donsy.Round.{
  Host, Rounds, RoundFailure, Cause, is_host_failed, host_failed, fail, saved, broken, move,
  save_run, ensure_sandbox, start_sandbox, save_sandbox_status, begin_run, boot, begin,
  stop_sandbox, invoke, tracked, during_call,
}
use donsy.Round.Triples.{Ends, then-Ends, settle-Ends}

abbrev IsBlameless : RoundFailure → Rounds → Type 0
IsBlameless e s = e.from_host ≡ false

abbrev Unended : AgentRun → Rounds → Type 0
Unended r s = is_host_failed r.status ≡ false

abbrev Started : AgentRun × Sandbox → Rounds → Type 0
Started started s = Unended started.0 s

abbrev Any {ℓ} : {A : Type ℓ} → A → Rounds → Type 0
Any a s = Unit

saved-Ends : (x : Rounds × Option Cause) → Ends Any IsBlameless (saved x)
saved-Ends (s, none) = tt
saved-Ends (s, some cause) = refl

broken-Ends :
    {A : Type 0} (P : A → Rounds → Type 0) (x : Rounds × RoundFailure)
    → x.1.from_host ≡ false
    → Ends P IsBlameless (broken x {A = A})
broken-Ends P (s, e) h = h

host_failed-blameless :
    (h : Host) (run : AgentRun) (text : Text) (s : Rounds)
    → is_host_failed run.status ≡ false
    → (host_failed h run text s).1.from_host ≡ false
unfolding host_failed
host_failed-blameless h run text s u = u

fail-blameless :
    (h : Host) (run : AgentRun) (text : Text) (s : Rounds) → (fail h run text s).1.from_host ≡ false
unfolding fail
fail-blameless h run text s = refl

module _ (h : Host) where
  admit-Ends :
      (at : Time) (run : AgentRun) (s : Rounds)
      → Ends Unended IsBlameless (move h Agent.admit at run s)
  unfolding move apply_run
  admit-Ends at run s = ground arith

  start-Ends :
      (at : Time) (run : AgentRun) (s : Rounds)
      → Ends Unended IsBlameless (move h Agent.start at run s)
  unfolding move apply_run
  start-Ends at run s = ground arith

  save_sandbox_status-Ends :
      (status : SandboxStatus) (sandbox : Sandbox) (s : Rounds)
      → Ends Any IsBlameless (save_sandbox_status h status sandbox s)
  unfolding save_sandbox_status
  save_sandbox_status-Ends status sandbox s = ground arith

  ensure_sandbox-Ends :
      (sandbox : Sandbox) (run : AgentRun) (s : Rounds)
      → Unended run s
      → Ends Unended IsBlameless (ensure_sandbox h sandbox run s)
  unfolding ensure_sandbox
  ensure_sandbox-Ends sandbox run s u = ground (arith, host_failed-blameless h run)

  start_sandbox-Ends :
      (sandbox : Sandbox) (run : AgentRun) (s : Rounds)
      → Unended run s
      → Ends Any IsBlameless (start_sandbox h sandbox run s)
  unfolding start_sandbox
  start_sandbox-Ends sandbox run s u = ground (arith, host_failed-blameless h run)

  boot-Ends :
      (sandbox : Sandbox) (run : AgentRun) (s : Rounds)
      → Unended run s
      → Ends Started IsBlameless (boot h sandbox run s)
  unfolding boot
  boot-Ends sandbox run s u =
      then-Ends Any Started IsBlameless _ _ (save_sandbox_status-Ends Agent.stopped sandbox s)
        (λ stopped s1 _.
          then-Ends Any Started IsBlameless _ _ (start_sandbox-Ends stopped run s1 u) (λ _ s2 _.
            then-Ends Any Started IsBlameless _ _
              (save_sandbox_status-Ends Agent.running stopped s2)
              (λ running s3 _.
                then-Ends Unended Started IsBlameless _ _ (start-Ends h.started_at run s3)
                  (λ started s4 v. v))))

  begin_run-Ends :
      (sandbox : Sandbox) (run : AgentRun) (s : Rounds)
      → Ends Started IsBlameless (begin_run h sandbox run s)
  unfolding begin_run
  begin_run-Ends sandbox run s =
      then-Ends Unended Started IsBlameless _ _
        (then-Ends Unended Unended IsBlameless _ _
          (then-Ends Any Unended IsBlameless _ _ (saved-Ends (save_run h run s))
            (λ _ s1 _. admit-Ends run.created_at run s1))
          (λ admitted s2 u. ensure_sandbox-Ends sandbox admitted s2 u))
        (λ ensured s3 u. boot-Ends sandbox ensured s3 u)

  stop_sandbox-Ends :
      (sandbox : Sandbox) (s : Rounds)
      → Ends Any IsBlameless ((stop_sandbox h sandbox s).0, (stop_sandbox h sandbox s).2)
  unfolding stop_sandbox
  stop_sandbox-Ends sandbox s = save_sandbox_status-Ends _ sandbox (during_call s)

  invoke-Ends :
      (sandbox : Sandbox) (run : AgentRun) (s : Rounds)
      → Unended run s
      → Ends Any IsBlameless (invoke h sandbox run s)
  unfolding invoke
  invoke-Ends sandbox run s u = ground (
    arith,
    host_failed-blameless h run,
    fail-blameless h run,
    stop_sandbox-Ends sandbox (during_call s),
  )

  -- No failure of a round, in `begin` or in `invoke`, wraps `ErrHostFailure`, not even where the host
  -- could not prepare, start, run or stop the sandbox: `hostFailed` reads the status of a record that
  -- `end` has not changed, since `end` works on a copy.
  pub rounds_blame_no_host :
      (sandbox : Sandbox) (run : AgentRun) (s : Rounds)
      → is_host_failed run.status ≡ false
      → Ends
          (λ started s'. is_host_failed started.0.status ≡ false)
          (λ e s'. e.from_host ≡ false)
          (begin h sandbox run s)
        × Ends (λ answer s'. Unit {0}) (λ e s'. e.from_host ≡ false) (invoke h sandbox run s)
  unfolding begin
  rounds_blame_no_host sandbox run s u = (
    settle-Ends Started IsBlameless IsBlameless run.id (begin_run h sandbox run (tracked run.id s))
        (begin_run-Ends sandbox run (tracked run.id s)) (λ e s' b. b),
    invoke-Ends sandbox run s u,
  )

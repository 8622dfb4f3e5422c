-- ===== src/Agent/Sandboxes.antt =====
-- The life of a sandbox, as sequences of `Apply` with their errors ignored.
use donsy.Prelude.{◌≡◌, Bool, true, false, List, [], ◌∷◌, arith, any}
use donsy.Errors.{ok}
use donsy.Agent.{
  Sandbox, SandboxStatus, absent, stopped, starting, running, broken, deleting, SandboxEvent,
  apply_sandbox, reconcile, validate_sandbox,
}

-- `Apply` and `Reconcile` keep a valid sandbox valid.
pub sandbox_stays_valid :
    (event : SandboxEvent) (observed : SandboxStatus) (v : Sandbox)
    → validate_sandbox v ≡ ok tt
    → (validate_sandbox (apply_sandbox event v).0 ≡ ok tt)
      × (validate_sandbox (reconcile observed v).0 ≡ ok tt)
unfolding apply_sandbox reconcile validate_sandbox
sandbox_stays_valid event observed v h = (ground arith, ground arith)

-- The sandbox after a sequence of events, and the statuses that it goes through, the first first.
unfoldable pub live : List SandboxEvent → Sandbox → Sandbox
live [] v = v
live (event ∷ rest) v = live rest (apply_sandbox event v).0

unfoldable pub passed : List SandboxEvent → Sandbox → List SandboxStatus
passed [] v = v.status ∷ []
passed (event ∷ rest) v = v.status ∷ passed rest (apply_sandbox event v).0

abbrev pub is_gone : SandboxStatus → Bool
is_gone absent = true
is_gone deleting = true
is_gone _ = false

abbrev pub is_down : SandboxStatus → Bool
is_down stopped = true
is_down broken = true
is_down _ = false

abbrev pub is_starting : SandboxStatus → Bool
is_starting starting = true
is_starting _ = false

abbrev pub is_running : SandboxStatus → Bool
is_running running = true
is_running _ = false

gone_step :
    (event : SandboxEvent) (v : Sandbox)
    → is_gone v.status ≡ false
    → is_gone (apply_sandbox event v).0.status ≡ true
    → is_down v.status ≡ true
unfolding apply_sandbox
gone_step event v h k = ground arith

running_step :
    (event : SandboxEvent) (v : Sandbox)
    → is_running v.status ≡ false
    → is_running (apply_sandbox event v).0.status ≡ true
    → is_starting v.status ≡ true
unfolding apply_sandbox
running_step event v h k = ground arith

-- If a sequence of events, the refused ones ignored, takes a sandbox that is not absent or
-- deleting to one of these, it was stopped or broken on the way.
pub deleted_was_down :
    (events : List SandboxEvent) (v : Sandbox)
    → is_gone v.status ≡ false
    → is_gone (live events v).status ≡ true
    → any is_down (passed events v) ≡ true
unfolding live passed
deleted_was_down [] v h k = ground arith
deleted_was_down (event ∷ rest) v h k =
    ground (arith, gone_step event v, deleted_was_down rest (apply_sandbox event v).0)

-- A sandbox that does not run and that a sequence of events brings to run was starting on the way.
pub running_was_starting :
    (events : List SandboxEvent) (v : Sandbox)
    → is_running v.status ≡ false
    → is_running (live events v).status ≡ true
    → any is_starting (passed events v) ≡ true
unfolding live passed
running_was_starting [] v h k = ground arith
running_was_starting (event ∷ rest) v h k =
    ground (arith, running_step event v, running_was_starting rest (apply_sandbox event v).0)

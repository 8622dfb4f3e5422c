-- ===== src/Disposal/Forgetting.antt =====
-- forget_project.go: the calls that take a project's sandboxes, its machine and its registration
-- away, in their order. A project's identifier is a natural number.
use donsy.Prelude.{
  ℕ, ◌≡◌, ◌⊎◌, refl, ap, ◌∙◌, inl, inr, Bool, true, false, ◌||◌, ◌&&◌, not, Option, none, some,
  List, [], ◌∷◌, ◌++◌, any, all, arith, Bool-cases, if◌then◌else◌, length, ltb,
}
use donsy.Text.{Text}
use donsy.Errors.{Error, Result, ok, err, Result-cases, project_required}
use donsy.Agent
use donsy.Agent.{Sandbox}
use donsy.Reconcile.{sandbox_status_eq}

pub data ForgetCall : Type 0 where
  deletes_sandbox discards_creds : Sandbox → ForgetCall
  deletes_machine deletes_runtime deletes_project : ForgetCall

-- The use cases that may be nil are there if `has_runtime`; the credentials and the machine have
-- their own.
pub record ProjectRuntime : Type 0 where
  pub has_runtime : Bool
  pub sandboxes : Result (List Sandbox)
  pub delete_sandbox : Sandbox → Option Error
  pub discard_creds : Option (Text → Option Error)
  pub delete_machine : Option (Option Error)
  pub delete_runtime : Option Error
  pub delete_project : Option Error

abbrev pub Forgotten : Type 0
Forgotten = List ForgetCall × List Error

abbrev pub errors_of : Option Error → List Error
errors_of none = []
errors_of (some x) = x ∷ []

abbrev pub then_forgotten : Forgotten → Forgotten → Forgotten
then_forgotten (calls, errors) (later, failures) = (calls ++ later, errors ++ failures)

module _ (r : ProjectRuntime) where
  -- The body of the loop, and the loop of `releaseSandboxes`.
  unfoldable pub release_sandbox : Sandbox → Forgotten
  release_sandbox b =
      let discarded : Forgotten = elim r.discard_creds [
        | none ↦ (deletes_sandbox b ∷ [], [])
        | some discard ↦ (deletes_sandbox b ∷ discards_creds b ∷ [], errors_of (discard b.name))
      ] in
      let deleted : Forgotten = elim (r.delete_sandbox b) [
        | some x ↦ (deletes_sandbox b ∷ [], x ∷ [])
        | none ↦ discarded
      ] in
      if sandbox_status_eq b.status Agent.absent then ([], []) else deleted

  unfoldable pub release_each : List Sandbox → Forgotten
  release_each [] = ([], [])
  release_each (b ∷ rest) = then_forgotten (release_sandbox b) (release_each rest)

  abbrev pub release_machine : Forgotten
  release_machine = elim r.delete_machine [
    | none ↦ ([], [])
    | some answer ↦ (deletes_machine ∷ [], errors_of answer)
  ]

  unfoldable pub release_sandboxes : Forgotten
  release_sandboxes =
      let released : Forgotten = elim r.sandboxes [
        | err x ↦ ([], x ∷ [])
        | ok listed ↦
            let (calls, errors) = then_forgotten (release_each listed) release_machine in
            if ltb 0 (length errors)
            then (calls, errors)
            else (calls ++ deletes_runtime ∷ [], errors_of r.delete_runtime)
      ] in
      if not r.has_runtime then ([], []) else released

  unfoldable pub forget_project : ℕ → Forgotten
  forget_project id =
      if ltb 0 id
      then then_forgotten release_sandboxes (deletes_project ∷ [], errors_of r.delete_project)
      else ([], project_required ∷ [])

-- What is gone: a sandbox that is absent, or whose deletion and whose credentials' gave no error.
abbrev pub no_error : Option Error → Bool
no_error none = true
no_error (some x) = false

abbrev pub is_released : ProjectRuntime → Sandbox → Bool
is_released r b =
    sandbox_status_eq b.status Agent.absent
    || (no_error (r.delete_sandbox b)
        && elim r.discard_creds [ none ↦ true | some discard ↦ no_error (discard b.name) ])

abbrev pub deletes_the_runtime : ForgetCall → Bool
deletes_the_runtime deletes_runtime = true
deletes_the_runtime _ = false

unfoldable pub last_call : List ForgetCall → Option ForgetCall
last_call [] = none
last_call (call ∷ []) = some call
last_call (call ∷ next ∷ rest) = last_call (next ∷ rest)

last-append :
    (calls : List ForgetCall) (call : ForgetCall) → last_call (calls ++ call ∷ []) ≡ some call
unfolding last_call
last-append [] call = refl
last-append (c ∷ []) call = refl
last-append (c ∷ d ∷ rest) call = last-append (d ∷ rest) call

any_append :
    (P : ForgetCall → Bool) (xs ys : List ForgetCall) → any P (xs ++ ys) ≡ (any P xs || any P ys)
any_append P [] ys = refl
any_append P (x ∷ xs) ys = ground (arith, any_append P xs ys)

pub no_errors : (xs ys : List Error) → ltb 0 (length (xs ++ ys)) ≡ false → (xs ≡ []) × (ys ≡ [])
no_errors [] [] h = (refl, refl)
no_errors [] (y ∷ ys) h = absurd (ground arith)
no_errors (x ∷ xs) ys h = absurd (ground arith)

module _ (r : ProjectRuntime) where
  pub released : (b : Sandbox) → (release_sandbox r b).1 ≡ [] → is_released r b ≡ true
  unfolding release_sandbox
  released b h = ground arith

  keeps_runtime : (b : Sandbox) → any deletes_the_runtime (release_sandbox r b).0 ≡ false
  unfolding release_sandbox
  keeps_runtime b = ground arith

  each_released :
      (bs : List Sandbox)
      → (any deletes_the_runtime (release_each r bs).0 ≡ false)
        × ((release_each r bs).1 ≡ [] → all (is_released r) bs ≡ true)
  unfolding release_each
  each_released [] = (refl, λ h. refl)
  each_released (b ∷ rest) =
      let more = each_released rest in
      (
        any_append deletes_the_runtime (release_sandbox r b).0 (release_each r rest).0
            ∙ ground (arith, keeps_runtime b, more.0),
        λ h.
            let (here, later) =
              no_errors (release_sandbox r b).1 (release_each r rest).1
                (ap (λ l. ltb 0 (length l)) h) in
            ground (arith, released b here, more.1 later),
      )

  -- Whether the deletion of the machine, if there is one, gave no error.
  abbrev pub machine_gone : Bool
  machine_gone = elim r.delete_machine [ none ↦ true | some answer ↦ no_error answer ]

  -- All that the runtime's records say of is gone.
  abbrev pub AllReleased : Type 0
  AllReleased =
      (listed : List Sandbox) × (r.sandboxes ≡ ok listed)
      × (all (is_released r) listed ≡ true)
      × (machine_gone ≡ true)

  machine_keeps : any deletes_the_runtime (release_machine r).0 ≡ false
  machine_keeps = ground arith

  runtime_kept_or_released : (any deletes_the_runtime (release_sandboxes r).0 ≡ false) ⊎ AllReleased
  unfolding release_sandboxes
  runtime_kept_or_released = elim (Result-cases r.sandboxes) [
    | inr (x, n) ↦ inl (ground arith)
    | inl (listed, n) ↦
        let each = each_released listed in
        let machine : Forgotten = release_machine r in
        elim (Bool-cases (ltb 0 (length ((release_each r listed).1 ++ machine.1)))) [
          | inl f ↦ inl (
              ground (
                arith,
                each.0,
                machine_keeps,
                any_append deletes_the_runtime (release_each r listed).0 machine.0,
              ))
          | inr f ↦
              let (here, there) = no_errors (release_each r listed).1 machine.1 f in
              inr (listed, n, each.1 here, ground arith)
        ]
  ]

  -- The last call of the use case for a project with an identifier deletes its registration. The
  -- records of the runtime are kept unless each listed sandbox is absent or was deleted with its
  -- credentials, with no error, and the deletion of the machine gave none.
  pub forgets_last :
      (id : ℕ)
      → ltb 0 id ≡ true
      → (last_call (forget_project r id).0 ≡ some deletes_project)
        × ((any deletes_the_runtime (forget_project r id).0 ≡ false) ⊎ AllReleased)
  unfolding forget_project
  forgets_last id h =
      let last = last-append (release_sandboxes r).0 deletes_project in
      let whole = any_append deletes_the_runtime (release_sandboxes r).0 (deletes_project ∷ []) in
      (
        ground (arith, last),
        elim runtime_kept_or_released [
          | inl k ↦ inl (ground (arith, k, whole))
          | inr gone ↦ inr gone
        ],
      )

-- ===== src/Errors.antt =====
-- Go's `error` results. One constructor stands for each place that makes an error, `outside` for all that is not modelled; the text of the
-- message is not modelled, but for what it wraps. A function that returns `(T, error)` gives a
-- `Result`. A method with a pointer receiver gives an `Outcome`: what the receiver holds when the
-- method returns, beside its error, since a write that comes before an error stays written.
use donsy.Prelude.{Option, none, some, Bool, true, false, ◌≡◌, refl, ◌⊎◌, inl, inr}

pub data Error : Type 0 where
  title_required assignee_required closed_title closed_body branches_cut : Error
  repository_required parent_not_found issue_not_found pull_request_not_found root_not_found : Error
  invalid_epic_state no_epic_event invalid_epic_transition : Error
  invalid_issue_state no_issue_transition issue_fields_required : Error
  invalid_status no_status_event no_status_transition bad_outcome : Error
  pull_request_fields_required invalid_flag unknown_flag : Error
  negative_rounds too_many_reviews too_many_coding_rounds : Error
  comment_id_required comment_author_required comment_time_required : Error
  id_required bad_scope duplicate_scope bad_prefix negative_passes no_issues : Error
  root_with_repository issue_repository_required out_of_scope duplicate_issue root_count : Error
  missing_parent parent_cycle self_blocked missing_blocker repeated_blocker : Error
  ancestor_blocker wait_cycle missing_issue : Error
  bad_subject_kind subject_id_required sandbox_fields_required bad_sandbox : Error
  no_sandbox_event bad_sandbox_status run_fields_required bad_run no_continuation : Error
  no_run_event bad_escape open_escape no_base rewritten protected_path : Error
  no_planned_issues outside sandbox_name_too_long mount_not_absolute unconfigured_role invalid_role
        agent_required negative_max_rounds :
      Error
  out_of_fuel no_code_workspace not_open coding_rounds_left merge_conflict : Error
  no_runtime reset_fields_required no_cancel project_required : Error

pub data Result {ℓ} (A : Type ℓ) : Type ℓ where
  ok : A → Result A
  err : Error → Result A

-- `err == nil`.
abbrev pub is_ok {ℓ} : {A : Type ℓ} → Result A → Bool
is_ok (ok a) = true
is_ok (err e) = false

infixl 5 ◌>>=◌
abbrev pub ◌>>=◌ {ℓ κ} : {A : Type ℓ} {B : Type κ} → Result A → (A → Result B) → Result B
ok a >>= f = f a
err e >>= f = err e

abbrev pub Outcome {ℓ} : Type ℓ → Type ℓ
Outcome S = S × Option Error

-- `if err := m; err != nil { return err }`, and the rest of the method.
infixl 5 ◌and_then◌
abbrev pub ◌and_then◌ {ℓ} : {S : Type ℓ} → Outcome S → (S → Outcome S) → Outcome S
(s, none) and_then f = f s
(s, some e) and_then f = (s, some e)

-- `return nil`, and `return e` with the receiver as it is.
abbrev pub success {ℓ} : {S : Type ℓ} → S → Outcome S
success s = (s, none)

abbrev pub failure {ℓ} : {S : Type ℓ} → Error → S → Outcome S
failure e s = (s, some e)

-- `err == nil` of a method.
abbrev pub succeeds {ℓ} : {S : Type ℓ} → Outcome S → Bool
succeeds (s, none) = true
succeeds (s, some e) = false

pub Result-cases {ℓ} :
    {A : Type ℓ} (m : Result A) → ((a : A) × (m ≡ ok a)) ⊎ ((e : Error) × (m ≡ err e))
Result-cases (ok a) = inl (a, refl)
Result-cases (err e) = inr (e, refl)

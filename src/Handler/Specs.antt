-- ===== src/Handler/Specs.antt =====
-- internal/application/agent_runtime/sandbox_spec.go, `Validate` of sandbox_mount.go, and the specs of
-- epic_sandbox.go. `is_absolute` is `filepath.IsAbs`; `shown`, `digest` and `lower` are those of
-- Identity.
use donsy.Prelude.{
  ℕ, ◌≡◌, ◌≤◌, refl, Bool, true, false, ◌||◌, ◌&&◌, not, List, [], ◌∷◌, all, length, ltb, arith,
  if◌then◌else◌,
}
use donsy.Text.{Text, is_empty}
use donsy.Errors.{Result, ok, err, ◌>>=◌, sandbox_name_too_long, mount_not_absolute}
use donsy.Epic.Issue.{Time}
use donsy.Agent.{
  AgentRole, AgentSubject, AgentSubjectKind, Sandbox, validate_sandbox, validate_subject,
  is_agent_role, is_sandbox_status,
}
use donsy.Identity.{
  max_sandbox_name_length, trim_left_hyphens, trim_right_hyphens, trim_hyphens, identity,
  subject_sandbox_name, sandbox_of_subject, epic_sandbox, issue_sandbox, requires_docker,
}
use donsy.Identity.Bounds.{subject_sandbox_name_le}
use donsy.Handler.Mounts.{SandboxMount}

-- `agent_runtime.SandboxSpec`.
pub record SandboxSpec : Type 0 where
  pub sandbox : Sandbox
  pub mounts : List SandboxMount
  pub install_docker : Bool
  pub setup_script : Text

module _ (is_absolute : Text → Bool) where
  -- `(m SandboxMount) Validate`.
  unfoldable pub validate_mount : SandboxMount → Result (Unit {0})
  validate_mount m =
      if not (is_absolute m.host_location) || not (is_absolute m.guest_location)
      then err mount_not_absolute
      else ok tt

  unfoldable pub validate_mounts : List SandboxMount → Result (Unit {0})
  validate_mounts [] = ok tt
  validate_mounts (m ∷ rest) = validate_mount m >>= λ _. validate_mounts rest

  -- `(s SandboxSpec) Validate`.
  unfoldable pub validate_spec : SandboxSpec → Result (Unit {0})
  validate_spec s = validate_sandbox s.sandbox >>= λ _.
      if ltb max_sandbox_name_length (length s.sandbox.name)
      then err sandbox_name_too_long
      else validate_mounts s.mounts

  abbrev pub is_absolute_mount : SandboxMount → Bool
  is_absolute_mount m = is_absolute m.host_location && is_absolute m.guest_location

  validate_mounts_ok :
      (ms : List SandboxMount) → all is_absolute_mount ms ≡ true → validate_mounts ms ≡ ok tt
  unfolding validate_mounts validate_mount
  validate_mounts_ok [] h = refl
  validate_mounts_ok (m ∷ ms) h = ground (arith, validate_mounts_ok ms (ground arith))

module _ (shown : ℕ → Text) (digest : Text → Text) (lower : ℕ → ℕ) where
  -- `EpicSandboxSpec` and `IssueSandboxSpec`.
  unfoldable pub epic_sandbox_spec : ℕ → Text → AgentRole → Time → SandboxSpec
  epic_sandbox_spec project epic role now = record {
    sandbox = epic_sandbox shown digest lower project epic role now;
    mounts = [];
    install_docker = requires_docker role;
    setup_script = [];
  }

  unfoldable pub issue_sandbox_spec : ℕ → Text → AgentRole → Time → SandboxSpec
  issue_sandbox_spec project issue role now = record {
    sandbox = issue_sandbox shown digest lower project issue role now;
    mounts = [];
    install_docker = requires_docker role;
    setup_script = [];
  }

-- The mounts and the setup script that a handler adds.
abbrev pub staged : List SandboxMount → Text → SandboxSpec → SandboxSpec
staged mounts script s = record s { mounts = mounts; setup_script = script }

module _ (shown : ℕ → Text) (digest : Text → Text) (lower : ℕ → ℕ) where
  name_is_kept :
      (project : ℕ) (subject : Text) (role : AgentRole)
      → is_empty (subject_sandbox_name shown digest lower project subject role) ≡ false
  unfolding subject_sandbox_name trim_hyphens trim_left_hyphens trim_right_hyphens
  name_is_kept project subject role = ground arith

  sandbox_ok :
      (is_absolute : Text → Bool) (project : ℕ) (subject : AgentSubject) (role : AgentRole)
      (now : Time) (docker : Bool) (mounts : List SandboxMount) (script : Text)
      → length (shown project) ≤ 20
      → length (digest (identity shown digest lower project subject.id role)) ≡ 8
      → is_agent_role role ≡ true
      → validate_subject subject ≡ ok tt
      → all (is_absolute_mount is_absolute) mounts ≡ true
      → validate_spec is_absolute (record {
        sandbox = sandbox_of_subject shown digest lower project subject role now;
        mounts = mounts;
        install_docker = docker;
        setup_script = script;
      })
        ≡ ok tt
  unfolding validate_spec validate_sandbox sandbox_of_subject is_sandbox_status
  sandbox_ok is_absolute project subject role now docker mounts script a b c v m = ground (
    arith,
    name_is_kept project subject.id role,
    subject_sandbox_name_le shown digest lower project subject.id role a b c,
    validate_mounts_ok is_absolute mounts m,
  )

  -- If the identifier of the project has at most twenty decimals, the digests have eight characters,
  -- the role is one of the five, and the subject has an identifier, then both specs validate, with
  -- any mounts of absolute locations and any setup script.
  pub specs_ok :
      (is_absolute : Text → Bool) (project : ℕ) (id : Text) (role : AgentRole) (now : Time)
      (mounts : List SandboxMount) (script : Text)
      → length (shown project) ≤ 20
      → length (digest (identity shown digest lower project id role)) ≡ 8
      → is_agent_role role ≡ true
      → is_empty id ≡ false
      → all (is_absolute_mount is_absolute) mounts ≡ true
      → (validate_spec is_absolute
            (staged mounts script (epic_sandbox_spec shown digest lower project id role now))
          ≡ ok tt)
        × (validate_spec is_absolute
              (staged mounts script (issue_sandbox_spec shown digest lower project id role now))
            ≡ ok tt)
  unfolding epic_sandbox_spec issue_sandbox_spec epic_sandbox issue_sandbox validate_subject
  specs_ok is_absolute project id role now mounts script a b c v m = (
    sandbox_ok is_absolute project (record { kind = AgentSubjectKind.epic; id = id }) role now
        (requires_docker role) mounts script a b c (ground arith) m,
    sandbox_ok is_absolute project (record { kind = AgentSubjectKind.issue; id = id }) role now
        (requires_docker role) mounts script a b c (ground arith) m,
  )

-- ===== src/Identity.antt =====
-- internal/application/usecases/epic_sandbox.go and agent_runtime/sandbox_spec.go: the identity of
-- the sandbox of a role. `shown` prints a project's identifier in decimals, `digest` gives the first
-- eight hexadecimal digits of the SHA-256 sum, and `lower` is the case folding of a character. A
-- slug is ASCII, so its bytes are its characters.
pub mod Bounds
mod Examples
use donsy.Prelude.{
  ℕ, ◌+◌, ◌-◌, Bool, true, false, ◌||◌, ◌&&◌, not, List, [], ◌∷◌, ◌++◌, map, leb, ltb, length,
  if◌then◌else◌, ◌==◌,
}
use donsy.Text.{Text, codes}
use donsy.Slug.{take, hyphen}
use donsy.Errors.{Error, Result, ok, err, ◌>>=◌, outside}
use donsy.Epic.Issue.{Time}
use donsy.Agent
use donsy.Agent.{
  AgentRole, AgentSubject, AgentSubjectKind, Sandbox, SandboxStatus, validate_sandbox,
}

-- `MaxSandboxNameLength` and `sandboxLayoutVersion`.
abbrev pub max_sandbox_name_length : ℕ
max_sandbox_name_length = 63

-- `string(role)`.
unfoldable pub role_text : AgentRole → Text
role_text Agent.refiner = codes "refiner"
role_text Agent.issue_reviewer = codes "issue-reviewer"
role_text Agent.coding = codes "coding"
role_text Agent.pr_reviewer = codes "pr-reviewer"
role_text Agent.merge = codes "merge"
role_text (AgentRole.unknown s) = s

-- `strings.Trim(s, "-")`.
unfoldable pub trim_left_hyphens : Text → Text
trim_left_hyphens [] = []
trim_left_hyphens (c ∷ rest) =
    let trimmed = trim_left_hyphens rest in if c == hyphen then trimmed else c ∷ rest

unfoldable pub trim_right_hyphens : Text → Text
trim_right_hyphens [] = []
trim_right_hyphens (c ∷ rest) = elim (trim_right_hyphens rest) [
  | [] ↦ if c == hyphen then [] else c ∷ []
  | ◌∷◌ d more ↦ c ∷ d ∷ more
]

unfoldable pub trim_hyphens : Text → Text
trim_hyphens s = trim_right_hyphens (trim_left_hyphens s)

abbrev pub name_character : ℕ → ℕ
name_character c = if (leb 97 c && leb c 122) || (leb 48 c && leb c 57) then c else hyphen

module _ (shown : ℕ → Text) (digest : Text → Text) (lower : ℕ → ℕ) where
  unfoldable pub sandbox_name_slug : Text → Text
  sandbox_name_slug value = trim_hyphens (map (λ c. name_character (lower c)) value)

  -- What the digest is of.
  unfoldable pub identity : ℕ → Text → AgentRole → Text
  identity project subject role =
      shown project ++ hyphen ∷ subject ++ hyphen ∷ role_text role ++ codes "-v5"

  abbrev pub name_head : ℕ → Text
  name_head project = codes "gm-" ++ shown project ++ hyphen ∷ []

  abbrev pub name_tail : ℕ → Text → AgentRole → Text
  name_tail project subject role =
      hyphen ∷ sandbox_name_slug (role_text role) ++ hyphen ∷ digest (identity project subject role)

  -- `subject[:max(0, budget)]`, if the budget is below the subject's length: on ℕ the budget stops at
  -- zero.
  unfoldable pub subject_sandbox_name : ℕ → Text → AgentRole → Text
  subject_sandbox_name project subject role =
      let head = name_head project in
      let tail = name_tail project subject role in
      let slug = sandbox_name_slug subject in
      let budget = max_sandbox_name_length - length head - length tail in
      trim_hyphens (head ++ (if ltb budget (length slug) then take budget slug else slug) ++ tail)

  -- The sandbox of `EpicSandboxSpec` and `IssueSandboxSpec`.
  unfoldable pub sandbox_of_subject : ℕ → AgentSubject → AgentRole → Time → Sandbox
  sandbox_of_subject project subject role now =
      let name = subject_sandbox_name project subject.id role in
      record {
        id = codes "sandbox-" ++ name;
        project_id = project;
        name = name;
        role = role;
        subject = subject;
        status = Agent.creating;
        created_at = now;
        updated_at = now;
      }

  unfoldable pub epic_sandbox : ℕ → Text → AgentRole → Time → Sandbox
  epic_sandbox project epic role now =
      sandbox_of_subject project (record { kind = AgentSubjectKind.epic; id = epic }) role now

  unfoldable pub issue_sandbox : ℕ → Text → AgentRole → Time → Sandbox
  issue_sandbox project issue role now =
      sandbox_of_subject project (record { kind = AgentSubjectKind.issue; id = issue }) role now

unfoldable pub requires_docker : AgentRole → Bool
requires_docker Agent.refiner = true
requires_docker Agent.issue_reviewer = true
requires_docker Agent.coding = true
requires_docker Agent.pr_reviewer = true
requires_docker _ = false

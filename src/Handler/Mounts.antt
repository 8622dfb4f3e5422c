-- ===== src/Handler/Mounts.antt =====
-- `mount` of run_issue_agent.go and the mounts of run_epic_agent.go. `join` is `filepath.Join`.
use donsy.Prelude.{
  ◌≡◌, refl, inl, inr, Bool, true, false, ◌||◌, not, List, [], ◌∷◌, ◌++◌, all, arith, if◌then◌else◌,
}
use donsy.Text.{Text, codes, text_eq}
use donsy.Text.Equality.{text_eq_iff}
use donsy.Errors.{Result, ok, ◌>>=◌, Result-cases}
use donsy.Epic.Aggregate.{Epic}
use donsy.Agent
use donsy.Agent.{AgentRole}
use donsy.RepositoryPath.{encode}

-- `agent_runtime.SandboxMount`.
pub record SandboxMount : Type 0 where
  pub host_location : Text
  pub guest_location : Text
  pub is_writable : Bool

-- `OpenCodeMount`, `Write` of the issue tree, and `Ensure` of a repository.
pub record MountHost : Type 0 where
  pub credentials : Result SandboxMount
  pub write_tree : Epic → Result Text
  pub ensure : Text → Result Text
  pub join : Text → Text → Text

abbrev pub mount_of : Text → Text → Bool → SandboxMount
mount_of host guest writable = record {
  host_location = host;
  guest_location = guest;
  is_writable = writable;
}

abbrev pub work_repo : Text
work_repo = codes "/work/repo"

abbrev pub work_issues : Text
work_issues = codes "/work/issues"

abbrev pub git : Text
git = codes ".git"

abbrev pub guest_path : Text → Text
guest_path repository = codes "/work/repos/" ++ encode repository

abbrev pub is_refiner : AgentRole → Bool
is_refiner Agent.refiner = true
is_refiner _ = false

module _ (h : MountHost) where
  -- A repository, and its `.git`, which is never writable.
  abbrev pub repository_mounts : Bool → Text → Text → List SandboxMount
  repository_mounts writable repository path =
      mount_of path (guest_path repository) writable
      ∷ mount_of (h.join path git) (guest_path repository ++ codes "/.git") false
      ∷ []

  -- The loops over the repositories of the epic, without those that are to be skipped.
  unfoldable pub reference_mounts : (Text → Bool) → Bool → List Text → Result (List SandboxMount)
  reference_mounts skipped writable [] = ok []
  reference_mounts skipped writable (repository ∷ rest) =
      let more = reference_mounts skipped writable rest in
      let mounted : Result (List SandboxMount) = h.ensure repository >>= λ path.
      more >>= λ mounts. ok (repository_mounts writable repository path ++ mounts) in
      if skipped repository then more else mounted

  -- The mounts of an issue's round: the active checkout is at its own path too.
  unfoldable pub issue_mounts : Epic → Text → Text → Result (List SandboxMount)
  issue_mounts current active path = h.credentials >>= λ credentials.
      h.write_tree current >>= λ tree.
      reference_mounts (λ r. text_eq r active) false current.repositories >>= λ references. ok (
        credentials
        ∷ mount_of tree work_issues false
        ∷ mount_of path work_repo true
        ∷ mount_of (h.join path git) (work_repo ++ codes "/.git") false
        ∷ mount_of path path false
        ∷ references)

  -- Those of an epic's: the refiner writes the tree.
  unfoldable pub epic_mounts : Epic → AgentRole → Result (List SandboxMount)
  epic_mounts current role = h.credentials >>= λ credentials. h.write_tree current >>= λ tree.
      reference_mounts (λ r. false) true current.repositories >>= λ references.
      ok (credentials ∷ mount_of tree work_issues (is_refiner role) ∷ references)

-- A mount that the guest cannot write, or the active checkout.
abbrev pub is_contained : SandboxMount → Bool
is_contained m = not m.is_writable || text_eq m.guest_location work_repo

module _ (h : MountHost) where
  reference_mounts_contained :
      (skipped : Text → Bool) (repositories : List Text) (ms : List SandboxMount)
      → reference_mounts h skipped false repositories ≡ ok ms
      → all is_contained ms ≡ true
  unfolding reference_mounts
  reference_mounts_contained skipped [] ms k = ground arith
  reference_mounts_contained skipped (r ∷ rest) ms k =
      elim (Result-cases (reference_mounts h skipped false rest)) [
        | inr (x, e) ↦ absurd (ground arith)
        | inl (more, e) ↦ ground (arith, reference_mounts_contained skipped rest more e)
      ]

  -- Behind the mount of the credentials, a round on an issue has no writable mount but that of the
  -- active checkout.
  pub issue_mounts_contained :
      (current : Epic) (active path : Text) (first : SandboxMount) (ms : List SandboxMount)
      → issue_mounts h current active path ≡ ok (first ∷ ms)
      → all is_contained ms ≡ true
  unfolding issue_mounts
  issue_mounts_contained current active path first ms k =
      elim (Result-cases (reference_mounts h (λ r. text_eq r active) false current.repositories)) [
        | inr (x, e) ↦ absurd (ground arith)
        | inl (references, e) ↦ ground (
          arith,
          reference_mounts_contained (λ r. text_eq r active) current.repositories references e,
          (text_eq_iff work_repo work_repo).1 refl,
        )
      ]

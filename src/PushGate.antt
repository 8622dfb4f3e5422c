-- ===== src/PushGate.antt =====
-- internal/application/usecases/push_gate.go: what of a round may be published. `lower` is Go's
-- `unicode.ToLower`, which `strings.ToLower` applies to each character.
pub mod Verdict
mod Examples
use donsy.Prelude.{ℕ, Bool, true, false, ◌&&◌, not, List, [], ◌∷◌, map, any, ◌==◌, if◌then◌else◌}
use donsy.Text.{Text, codes, is_empty, trim_space}
use donsy.Errors.{Error, Result, ok, err, ◌>>=◌, no_base, rewritten, protected_path}

pub record RunCommit : Type 0 where
  pub hash : Text
  pub descends_from_base : Bool
  pub paths : List Text

-- `strings.HasPrefix` and `strings.TrimPrefix`.
unfoldable pub has_prefix : Text → Text → Bool
has_prefix [] s = true
has_prefix (c ∷ p) [] = false
has_prefix (c ∷ p) (d ∷ s) = c == d && has_prefix p s

unfoldable pub drop : Text → Text → Text
drop [] s = s
drop (c ∷ p) [] = []
drop (c ∷ p) (d ∷ s) = drop p s

unfoldable pub trim_prefix : Text → Text → Text
unfolding has_prefix drop
trim_prefix p s = if has_prefix p s then drop p s else s

-- `protectedPrefixes`.
abbrev pub protected_prefixes : List Text
protected_prefixes = codes ".github/" ∷ []

module _ (lower : ℕ → ℕ) where
  unfoldable pub normalized : Text → Text
  unfolding trim_prefix trim_space
  normalized path = map lower (trim_prefix (codes "./") (trim_space path))

  unfoldable pub protected : Text → Bool
  unfolding normalized has_prefix
  protected path = any (λ prefix. has_prefix prefix (normalized path)) protected_prefixes

  -- The loop over the paths of a commit, and the loop over the commits.
  unfoldable pub check_paths : List Text → Result (Unit {0})
  check_paths [] = ok tt
  check_paths (path ∷ rest) =
      let below = check_paths rest in if protected path then err protected_path else below

  unfoldable pub check_commits : List RunCommit → Result (Unit {0})
  check_commits [] = ok tt
  check_commits (commit ∷ rest) =
      let below = check_paths commit.paths >>= λ _. check_commits rest in
      if not commit.descends_from_base then err rewritten else below

  unfoldable pub evaluate_push_gate : Text → List RunCommit → Result (Unit {0})
  unfolding check_commits trim_space
  evaluate_push_gate base commits =
      if is_empty (trim_space base) then err no_base else check_commits commits

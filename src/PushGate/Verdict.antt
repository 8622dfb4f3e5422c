-- ===== src/PushGate/Verdict.antt =====
-- When the push gate lets a round's work through.
use donsy.Prelude.{ℕ, ◌≡◌, ◌↔◌, Bool, true, false, ◌&&◌, not, List, [], ◌∷◌, any, all, arith}
use donsy.Text.{Text, is_empty, trim_space}
use donsy.Errors.{ok}
use donsy.PushGate.{RunCommit, protected, check_paths, check_commits, evaluate_push_gate}

module _ (lower : ℕ → ℕ) where
  -- A commit that may be published.
  abbrev pub is_publishable : RunCommit → Bool
  is_publishable commit = commit.descends_from_base && not (any (protected lower) commit.paths)

  check_paths_iff :
      (paths : List Text)
      → (check_paths lower paths ≡ ok tt) ↔ (any (protected lower) paths ≡ false)
  unfolding check_paths
  check_paths_iff [] = ground arith
  check_paths_iff (path ∷ rest) = ground (arith, check_paths_iff rest)

  check_commits_iff :
      (commits : List RunCommit)
      → (check_commits lower commits ≡ ok tt) ↔ (all is_publishable commits ≡ true)
  unfolding check_commits
  check_commits_iff [] = ground arith
  check_commits_iff (commit ∷ rest) =
      ground (arith, check_commits_iff rest, check_paths_iff commit.paths)

  -- The push gate passes exactly if a base was recorded, every commit of the round descends from it,
  -- and no commit changes a protected path.
  pub evaluate_push_gate_iff :
      (base : Text) (commits : List RunCommit)
      → (evaluate_push_gate lower base commits ≡ ok tt)
        ↔ ((not (is_empty (trim_space base)) && all is_publishable commits) ≡ true)
  unfolding evaluate_push_gate
  evaluate_push_gate_iff base commits = ground (arith, check_commits_iff commits)

-- ===== src/PushGate/Examples.antt =====
-- The push gate on a round that touches documentation and workflows.
use donsy.Prelude.{◌≡◌, refl, ◌↔◌, true, false, ◌&&◌, not, all, List, [], ◌∷◌}
use donsy.Text.{codes, is_empty, trim_space}
use donsy.Errors.{ok}
use donsy.Slug.{to_lower}
use donsy.PushGate.{
  RunCommit, evaluate_push_gate, protected, normalized, trim_prefix, has_prefix, drop,
}
use donsy.PushGate.Verdict.{is_publishable, evaluate_push_gate_iff}

nested_is_free : protected to_lower (codes "docs/.github/x.md") ≡ false
unfolding protected normalized trim_prefix has_prefix drop trim_space to_lower
nested_is_free = refl

folded_is_protected : protected to_lower (codes " ./.GitHub/workflows/ci.yml") ≡ true
unfolding protected normalized trim_prefix has_prefix drop trim_space to_lower
folded_is_protected = refl

abbrev commits : List RunCommit
commits =
    record {
      hash = codes "c0ffee";
      descends_from_base = true;
      paths = codes "docs/.github/x.md" ∷ [];
    }
    ∷ []

evaluate_push_gate_iff_example :
    (evaluate_push_gate to_lower (codes "b0") commits ≡ ok tt)
    ↔ ((not (is_empty (trim_space (codes "b0"))) && all (is_publishable to_lower) commits) ≡ true)
evaluate_push_gate_iff_example = evaluate_push_gate_iff to_lower (codes "b0") commits

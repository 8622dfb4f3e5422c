-- ===== src/Identity/Examples.antt =====
-- The sandbox of a reviewer, with a digest of eight characters.
use donsy.Prelude.{ℕ, ◌≡◌, refl}
use donsy.Text.{Text, codes}
use donsy.Slug.{to_lower}
use donsy.Agent
use donsy.Identity.{subject_sandbox_name}

abbrev shown : ℕ → Text
shown n = codes "7"

abbrev digest : Text → Text
digest s = codes "0123abcd"

name_run :
    subject_sandbox_name shown digest to_lower 7
      (codes "01JABCDEFGHJKMNPQRSTVWXYZ0-01JABCDEFGHJKMNPQRSTVWXYZ0")
      Agent.issue_reviewer
    ≡ codes "gm-7-01jabcdefghjkmnpqrstvwxyz0-01jabcd-issue-reviewer-0123abcd"
unfolding subject_sandbox_name donsy.Identity.trim_hyphens donsy.Identity.trim_right_hyphens
    donsy.Identity.trim_left_hyphens donsy.Identity.sandbox_name_slug donsy.Identity.role_text
    to_lower
name_run = refl

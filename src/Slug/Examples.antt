-- ===== src/Slug/Examples.antt =====
-- Slugs of texts.
use donsy.Prelude.{◌≡◌, refl}
use donsy.Text.{codes}
use donsy.Slug.{slug, cut_slug, slug_max}

slug_of_title : slug (codes "  Fix: the JIRA-123  bug!") ≡ codes "fix-the-jira-123-bug"
unfolding slug
slug_of_title = refl

cut_at_word : slug_max (codes "Fix the scheduler") 9 ≡ codes "fix-the"
unfolding slug_max slug cut_slug
cut_at_word = refl

cut_inside_word : slug_max (codes "Scheduler") 5 ≡ codes "sched"
unfolding slug_max slug cut_slug
cut_inside_word = refl

-- ===== src/Epic/PullRequest/Flags.antt =====
-- The flags of a pull request behave as a set.
use donsy.Prelude.{
  ◌≡◌, refl, ◌↔◌, Bool, true, false, ◌||◌, ◌&&◌, not, List, [], ◌∷◌, ◌++◌, any, arith,
  if◌then◌else◌,
}
use donsy.Text.Equality.{text_eq_iff}
use donsy.Errors.{succeeds}
use donsy.Epic.PullRequest.{
  PullRequestFlag, PullRequest, flag_eq, is_pull_request_flag, has_flag, add_flag, remaining_flags,
  remove_flag, set_flag,
}

pub flag_eq_iff : (a b : PullRequestFlag) → (flag_eq a b ≡ true) ↔ (a ≡ b)
unfolding flag_eq
flag_eq_iff (PullRequestFlag.unknown s) (PullRequestFlag.unknown t) =
    ground (arith, text_eq_iff s t)
flag_eq_iff _ _ = ground arith

abbrev holds : PullRequestFlag → List PullRequestFlag → Bool
holds flag = any (λ current. flag_eq current flag)

holds-remaining :
    (f g : PullRequestFlag) (flags : List PullRequestFlag)
    → holds g (remaining_flags f flags) ≡ (not (flag_eq f g) && holds g flags)
unfolding remaining_flags
holds-remaining f g [] = ground arith
holds-remaining f g (c ∷ rest) =
    ground (arith, holds-remaining f g rest, flag_eq_iff c f, flag_eq_iff c g, flag_eq_iff f g)

holds-append :
    (f g : PullRequestFlag) (flags : List PullRequestFlag)
    → holds g (flags ++ f ∷ []) ≡ (flag_eq f g || holds g flags)
holds-append f g [] = ground arith
holds-append f g (c ∷ rest) = ground (arith, holds-append f g rest)

pub has_flag-remove_flag :
    (f g : PullRequestFlag) (p : PullRequest)
    → has_flag g (remove_flag f p) ≡ (not (flag_eq f g) && has_flag g p)
unfolding has_flag remove_flag
has_flag-remove_flag f g p = holds-remaining f g p.flags

has_flag-add_flag :
    (f g : PullRequestFlag) (p : PullRequest)
    → is_pull_request_flag f ≡ true
    → has_flag g (add_flag f p).0 ≡ (flag_eq f g || has_flag g p)
unfolding add_flag
has_flag-add_flag f g p k = ground (arith, holds-append f g p.flags, flag_eq_iff f g)

-- After `SetFlag` of a known flag, that flag reads as it was set, and every other flag as before.
pub has_flag-set_flag :
    (f g : PullRequestFlag) (present : Bool) (p : PullRequest)
    → is_pull_request_flag f ≡ true
    → has_flag g (set_flag f present p).0 ≡ (if flag_eq f g then present else has_flag g p)
unfolding set_flag
has_flag-set_flag f g true p k = ground (arith, has_flag-add_flag f g p k)
has_flag-set_flag f g false p k = ground (arith, has_flag-remove_flag f g p)

-- No flag is twice in the list.
abbrev pub are_distinct : List PullRequestFlag → Bool
are_distinct [] = true
are_distinct (c ∷ rest) = not (holds c rest) && are_distinct rest

distinct-remaining :
    (f : PullRequestFlag) (flags : List PullRequestFlag)
    → are_distinct flags ≡ true
    → are_distinct (remaining_flags f flags) ≡ true
unfolding remaining_flags
distinct-remaining f [] h = refl
distinct-remaining f (c ∷ rest) h =
    ground (arith, distinct-remaining f rest, holds-remaining f c rest)

distinct-append :
    (f : PullRequestFlag) (flags : List PullRequestFlag)
    → are_distinct flags ≡ true
    → holds f flags ≡ false
    → are_distinct (flags ++ f ∷ []) ≡ true
distinct-append f [] h k = refl
distinct-append f (c ∷ rest) h k =
    ground (arith, distinct-append f rest, holds-append f c rest, flag_eq_iff f c, flag_eq_iff c f)

-- If no flag is twice in the list, none is after `SetFlag`, which fails exactly when it is to add
-- a flag that is not one of the five.
pub set_flag-are_distinct :
    (f : PullRequestFlag) (present : Bool) (p : PullRequest)
    → are_distinct p.flags ≡ true
    → (are_distinct (set_flag f present p).0.flags ≡ true)
      × (succeeds (set_flag f present p) ≡ (not present || is_pull_request_flag f))
unfolding set_flag
set_flag-are_distinct f true p h = ground (arith, distinct-append f p.flags)
set_flag-are_distinct f false p h = (distinct-remaining f p.flags h, refl)

-- ===== src/Admission/Counting.antt =====
-- Counting the profiles of a ledger that are not among those counted before.
use donsy.Prelude.{ℕ, suc, ◌≤◌, ◌≡◌, refl, ◌||◌, List, [], ◌∷◌, arith, if◌then◌else◌}
use donsy.Text.{Text, text_eq}
use donsy.Text.Equality.{text_eq_iff}
use donsy.Admission.{Ledger, is_member, added_profiles, release}

-- The number of different profiles that are not among those counted.
unfoldable pub pending : List Text → Ledger → ℕ
pending counted [] = 0
pending counted ((n, held) ∷ rest) =
    let known = pending counted rest in
    let new = suc (pending (held ∷ counted) rest) in if is_member held counted then known else new

is_member-cons :
    (x y : Text) (names : List Text) → is_member x (y ∷ names) ≡ (text_eq x y || is_member x names)
unfolding is_member
is_member-cons x y names = refl

pending_ext :
    (a b : List Text) (l : Ledger)
    → ((x : Text) → is_member x a ≡ is_member x b)
    → pending a l ≡ pending b l
unfolding pending
pending_ext a b [] h = refl
pending_ext a b ((n, held) ∷ rest) h = ground (
  arith,
  h held,
  pending_ext a b rest h,
  pending_ext (held ∷ a) (held ∷ b) rest
      (λ x. ground (arith, h x, is_member-cons x held a, is_member-cons x held b)),
)

pending-swap :
    (x y : Text) (c : List Text) (l : Ledger) → pending (x ∷ y ∷ c) l ≡ pending (y ∷ x ∷ c) l
pending-swap x y c l = pending_ext (x ∷ y ∷ c) (y ∷ x ∷ c) l (λ z. ground (
  arith,
  is_member-cons z x (y ∷ c),
  is_member-cons z y c,
  is_member-cons z y (x ∷ c),
  is_member-cons z x c,
))

-- The loop of `admitProfile` counts as if the profile itself were counted already.
pub added_profiles-eq-pending :
    (profile : Text) (counted : List Text) (l : Ledger)
    → added_profiles profile counted l ≡ pending (profile ∷ counted) l
unfolding pending added_profiles
added_profiles-eq-pending profile counted [] = refl
added_profiles-eq-pending profile counted ((n, held) ∷ rest) = ground (
  arith,
  is_member-cons held profile counted,
  added_profiles-eq-pending profile counted rest,
  added_profiles-eq-pending profile (held ∷ counted) rest,
  pending-swap profile held counted rest,
)

-- Counting one more profile before takes at most one off.
pending_le :
    (x : Text) (c : List Text) (l : Ledger)
    → (pending c l ≤ suc (pending (x ∷ c) l)) × (pending (x ∷ c) l ≤ pending c l)
unfolding pending
pending_le x c [] = ground arith
pending_le x c ((n, held) ∷ rest) = ground (
  arith,
  is_member-cons held x c,
  pending_le x c rest,
  pending_le x (held ∷ c) rest,
  pending-swap x held c rest,
  text_eq_iff held x,
)

pub pending-release_le :
    (name : Text) (c : List Text) (l : Ledger) → pending c (release name l) ≤ pending c l
unfolding pending release
pending-release_le name c [] = ground arith
pending-release_le name c ((n, held) ∷ rest) = ground (
  arith,
  pending-release_le name c rest,
  pending-release_le name (held ∷ c) rest,
  pending_le held c rest,
)

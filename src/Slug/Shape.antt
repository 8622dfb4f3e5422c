-- ===== src/Slug/Shape.antt =====
-- What a slug looks like: runs of kept characters with single hyphens between them.
use donsy.Prelude.{
  ℕ, ◌≡◌, refl, sym, ap, ◌∙◌, ◌↔◌, inl, inr, Bool, true, false, ◌&&◌, ◌||◌, not, [], ◌∷◌, ◌++◌,
  arith, Bool-cases, ◌==◌, if◌then◌else◌,
}
use mathlib.Core.List.{append_assoc, append-nil}
use donsy.Text.{Text, is_empty}
use donsy.Slug.{to_lower, is_kept, hyphen, write_kept, slug_loop, slug}

-- What the loop writes behind the builder's text; `started` says that this is not empty.
pub emit : Bool → Bool → Text → Text
emit separated started [] = []
emit separated started (c ∷ s) =
    let r = to_lower c in
    let rest = emit false true s in
    let skipped = emit true started s in
    if is_kept r then (if separated && started then hyphen ∷ r ∷ rest else r ∷ rest) else skipped

kept_first :
    (separated : Bool) (c : ℕ) (s : Text)
    → slug_loop (to_lower c ∷ []) false s ≡ to_lower c ∷ emit false true s
    → slug_loop (write_kept [] separated (to_lower c)) false s ≡ (
        if separated && false
        then hyphen ∷ to_lower c ∷ emit false true s
        else to_lower c ∷ emit false true s)
kept_first true c s h = h
kept_first false c s h = h

kept_later :
    (separated : Bool) (b : ℕ) (built : Text) (c : ℕ) (s : Text)
    → (let now = write_kept (b ∷ built) separated (to_lower c) in
        slug_loop now false s ≡ now ++ emit false (not (is_empty now)) s)
    → slug_loop (write_kept (b ∷ built) separated (to_lower c)) false s
      ≡ b
        ∷ (built
            ++ (if separated && true
                then hyphen ∷ to_lower c ∷ emit false true s
                else to_lower c ∷ emit false true s))
kept_later true b built c s h = h ∙ ap (λ (t : Text). b ∷ t) (simp append_assoc)
kept_later false b built c s h = h ∙ ap (λ (t : Text). b ∷ t) (simp append_assoc)

slug_loop-eq-emit :
    (built : Text) (separated : Bool) (s : Text)
    → slug_loop built separated s ≡ built ++ emit separated (not (is_empty built)) s
unfolding slug_loop emit
slug_loop-eq-emit built separated [] = sym (append-nil built)
slug_loop-eq-emit [] separated (c ∷ s) = elim (Bool-cases (is_kept (to_lower c))) [
  | inl k ↦ rw k (kept_first separated c s (slug_loop-eq-emit (to_lower c ∷ []) false s))
  | inr k ↦ rw k (slug_loop-eq-emit [] true s)
]
slug_loop-eq-emit (b ∷ built) separated (c ∷ s) = elim (Bool-cases (is_kept (to_lower c))) [
  | inl k ↦ rw k (
      kept_later separated b built c s
        (slug_loop-eq-emit (write_kept (b ∷ built) separated (to_lower c)) false s))
  | inr k ↦ rw k (slug_loop-eq-emit (b ∷ built) true s)
]

pub slug-eq-emit : (s : Text) → slug s ≡ emit false false s
unfolding slug
slug-eq-emit s = slug_loop-eq-emit [] false s

-- `closed` says that a hyphen must not stand here, nor the text end here.
unfoldable pub tail_ok : Bool → Text → Bool
tail_ok closed [] = not closed
tail_ok closed (c ∷ s) =
    let kept = tail_ok false s in
    let separator = tail_ok true s in
    if is_kept c then kept else (c == hyphen && not closed && separator)

-- Empty, or kept characters with single hyphens between them.
unfoldable pub is_slug : Text → Bool
unfolding tail_ok
is_slug s = is_empty s || tail_ok true s

hyphen_not_kept : is_kept hyphen ≡ false
unfolding is_kept
hyphen_not_kept = refl

emit-tail_ok :
    (separated : Bool) (s : Text)
    → (tail_ok false (emit separated true s) ≡ true)
      × ((is_empty (emit separated false s) || tail_ok true (emit separated false s)) ≡ true)
unfolding emit tail_ok
emit-tail_ok separated [] = (refl, refl)
emit-tail_ok separated (c ∷ s) =
    ground (arith, emit-tail_ok false s, emit-tail_ok true s, hyphen_not_kept)

to_lower_kept : (c : ℕ) → is_kept c ≡ true → to_lower c ≡ c
unfolding to_lower is_kept
to_lower_kept c h = ground arith

hyphen_stays : to_lower hyphen ≡ hyphen
unfolding to_lower
hyphen_stays = refl

-- A slug's tail passes through the loop unchanged, and so does a slug.
emit-eq_self :
    (s : Text)
    → (tail_ok true s ≡ true → emit true true s ≡ hyphen ∷ s)
      × (tail_ok false s ≡ true → emit false true s ≡ s)
      × (tail_ok true s ≡ true → emit false false s ≡ s)
unfolding emit tail_ok
emit-eq_self [] = (λ h. cc, λ h. refl, λ h. cc)
emit-eq_self (c ∷ s) = elim (Bool-cases (is_kept c)) [
  | inl k ↦ (
    λ h. ground (arith, to_lower_kept c k, emit-eq_self s, hyphen_stays),
    λ h. ground (arith, to_lower_kept c k, emit-eq_self s, hyphen_stays),
    λ h. ground (arith, to_lower_kept c k, emit-eq_self s, hyphen_stays),
  )
  | inr k ↦ (
    λ h. ground (arith, emit-eq_self s, hyphen_stays),
    λ h. ground (arith, emit-eq_self s, hyphen_stays, hyphen_not_kept),
    λ h. ground (arith, emit-eq_self s, hyphen_stays),
  )
]

-- Every result of `Slug` has a slug's shape, whatever the text.
pub slug-is_slug : (s : Text) → is_slug (slug s) ≡ true
unfolding is_slug
slug-is_slug s = rw slug-eq-emit (emit-tail_ok false s).1

-- `Slug` leaves a text as it is exactly if it has a slug's shape.
pub slug-eq_self_iff : (s : Text) → (slug s ≡ s) ↔ (is_slug s ≡ true)
slug-eq_self_iff s = (λ e. rw e at (slug-is_slug s), λ h. rw slug-eq-emit (self s h))
  where
    self : (s : Text) → is_slug s ≡ true → emit false false s ≡ s
    self [] h = unfold emit in refl
    self (c ∷ s) h = (emit-eq_self (c ∷ s)).2 (unfold is_slug in h)

pub slug_idem : (s : Text) → slug (slug s) ≡ slug s
slug_idem s = (slug-eq_self_iff (slug s)).1 (slug-is_slug s)

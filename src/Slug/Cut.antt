-- ===== src/Slug/Cut.antt =====
-- `SlugMax`: the cut of a slug is a slug, within the limit, and ends on a whole word.
use donsy.Prelude.{
  ℕ, zero, suc, ◌≤◌, ◌<◌, ◌≡◌, ◌≢◌, refl, ap, ◌⊎◌, inl, inr, Bool, true, false, [], ◌∷◌, arith,
  Option-cases, none, some, length,
}
use donsy.Text.{Text}
use donsy.Slug.{is_kept, hyphen, slug, cut_slug, take, char_at_is, last_index, slug_max}
use donsy.Slug.Shape.{tail_ok, is_slug, slug-is_slug}

length-take_le : (n : ℕ) (s : Text) → length (take n s) ≤ n
length-take_le zero s = omega arith
length-take_le (suc n) [] = omega arith
length-take_le (suc n) (c ∷ s) = omega (arith, length-take_le n s)

length-take-take : (m n : ℕ) (s : Text) → length (take m (take n s)) ≤ n
length-take-take zero n s = omega arith
length-take-take (suc m) zero s = omega arith
length-take-take (suc m) (suc n) [] = omega arith
length-take-take (suc m) (suc n) (c ∷ s) = omega (arith, length-take-take m n s)

-- A cut just before a hyphen.
take_at_hyphen :
    (closed : Bool) (n : ℕ) (s : Text)
    → tail_ok closed s ≡ true
    → char_at_is hyphen n s ≡ true
    → tail_ok closed (take n s) ≡ true
unfolding tail_ok is_kept
take_at_hyphen closed zero [] h k = cc
take_at_hyphen closed zero (c ∷ s) h k = ground arith
take_at_hyphen closed (suc n) [] h k = cc
take_at_hyphen closed (suc n) (c ∷ s) h k =
    ground (arith, take_at_hyphen false n s, take_at_hyphen true n s)

-- A cut with no hyphen in it, inside the first word.
take_no_hyphen :
    (closed : Bool) (n : ℕ) (s : Text)
    → tail_ok closed s ≡ true
    → last_index hyphen (take n s) ≡ none
    → (closed ≡ false) ⊎ (0 < n)
    → tail_ok closed (take n s) ≡ true
unfolding tail_ok last_index
take_no_hyphen closed zero s h k o = ground arith
take_no_hyphen closed (suc n) [] h k o = h
take_no_hyphen closed (suc n) (c ∷ s) h k o = ground (arith, take_no_hyphen false n s)

char_at_last_index : (c i : ℕ) (s : Text) → last_index c s ≡ some i → char_at_is c i s ≡ true
unfolding last_index
char_at_last_index c i [] h = cc
char_at_last_index c zero (d ∷ s) h = ground arith
char_at_last_index c (suc i) (d ∷ s) h = ground (arith, char_at_last_index c i s)

-- What is read inside a cut stands in the whole, and a second cut there is a cut of the whole.
inside_take :
    (c i n : ℕ) (s : Text)
    → char_at_is c i (take n s) ≡ true
    → (char_at_is c i s ≡ true) × (take i (take n s) ≡ take i s)
inside_take c i zero s h = cc
inside_take c i (suc n) [] h = cc
inside_take c zero (suc n) (d ∷ s) h = (h, refl)
inside_take c (suc i) (suc n) (d ∷ s) h =
    let r = inside_take c i n s h in (r.0, ap (λ (t : Text). d ∷ t) r.1)

-- The two ways in which a slug that is too long is cut.
at_hyphen :
    (max : ℕ) (s : Text)
    → tail_ok true s ≡ true
    → char_at_is hyphen max s ≡ true
    → is_slug (take max s) ≡ true
unfolding is_slug
at_hyphen max s h k = ground (arith, take_at_hyphen true max s h k)

at_boundary :
    (max b : ℕ) (s : Text)
    → tail_ok true s ≡ true
    → last_index hyphen (take max s) ≡ some b
    → is_slug (take b (take max s)) ≡ true
at_boundary max b s h k =
    let inside = inside_take hyphen b max s (char_at_last_index hyphen b (take max s) k) in
    rw (inside.1) (at_hyphen b s h inside.0)

in_first_word :
    (max : ℕ) (s : Text)
    → tail_ok true s ≡ true
    → last_index hyphen (take max s) ≡ none
    → 0 < max
    → is_slug (take max s) ≡ true
unfolding is_slug
in_first_word max s h k p = ground (arith, take_no_hyphen true max s h k (inr p))

-- A slug does not begin with a hyphen.
not_at_start :
    (max : ℕ) (s : Text) → tail_ok true s ≡ true → last_index hyphen (take max s) ≢ some 0
unfolding tail_ok is_kept
not_at_start max [] h k =
    cc ((inside_take hyphen 0 max [] (char_at_last_index hyphen 0 (take max []) k)).0)
not_at_start max (c ∷ s) h k =
    ground (
      arith,
      (inside_take hyphen 0 max (c ∷ s) (char_at_last_index hyphen 0 (take max (c ∷ s)) k)).0,
    )

cut-is_slug : (max : ℕ) (s : Text) → tail_ok true s ≡ true → is_slug (cut_slug max s) ≡ true
unfolding cut_slug
cut-is_slug max s h = elim (Option-cases (last_index hyphen (take max s))) [
  | inl k ↦ ground (arith, at_hyphen max s h, in_first_word max s h k, whole s h)
  | inr (b, k) ↦
      ground (arith, at_hyphen max s h, at_boundary max b s h k, not_at_start max s h, whole s h)
]
  where
    whole : (s : Text) → tail_ok true s ≡ true → is_slug s ≡ true
    whole s h = unfold is_slug in ground arith

-- The result of `SlugMax` has a slug's shape.
pub slug_max-is_slug : (text : Text) (max : ℕ) → is_slug (slug_max text max) ≡ true
unfolding slug_max
slug_max-is_slug text max = from (slug text) (slug-is_slug text)
  where
    from : (s : Text) → is_slug s ≡ true → is_slug (cut_slug max s) ≡ true
    from [] h = unfold is_slug cut_slug in ground arith
    from (c ∷ s) h = cut-is_slug max (c ∷ s) (unfold is_slug in h)

-- With a positive limit, the result of `SlugMax` is no longer than the limit.
pub length-slug_max_le : (text : Text) (max : ℕ) → 0 < max → length (slug_max text max) ≤ max
unfolding slug_max cut_slug
length-slug_max_le text max h = elim (Option-cases (last_index hyphen (take max (slug text)))) [
  | inl k ↦ ground (arith, length-take_le max (slug text))
  | inr (b, k) ↦ ground (arith, length-take_le max (slug text), length-take-take b max (slug text))
]

-- A text whose slug fits is not cut.
pub slug_max_fits :
    (text : Text) (max : ℕ) → length (slug text) ≤ max → slug_max text max ≡ slug text
unfolding slug_max cut_slug
slug_max_fits text max h = ground arith

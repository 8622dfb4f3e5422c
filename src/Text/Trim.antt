-- ===== src/Text/Trim.antt =====
-- `trim_space` leaves no space at either end.
use donsy.Prelude.{ℕ, ◌≡◌, refl, inl, inr, false, [], ◌∷◌, Bool-cases}
use donsy.Text.{Text, is_space, trim_left, trim_right, trim_space, cons_kept}

-- A text that does not begin with a space is left alone on the left.
abbrev pub NoLeadingSpace : Text → Type 0
NoLeadingSpace [] = Unit
NoLeadingSpace (c ∷ s) = is_space c ≡ false

pub trim_left_lem : (s : Text) → NoLeadingSpace (trim_left s)
unfolding trim_left
trim_left_lem [] = tt
trim_left_lem (c ∷ s) = elim (Bool-cases (is_space c)) [
  | inl e ↦ rw e (trim_left_lem s)
  | inr e ↦ rw e e
]

cons_kept-NoLeadingSpace : (c : ℕ) (s : Text) → is_space c ≡ false → NoLeadingSpace (cons_kept c s)
unfolding cons_kept
cons_kept-NoLeadingSpace c [] h = rw h h
cons_kept-NoLeadingSpace c (d ∷ s) h = h

trim_right-NoLeadingSpace : (s : Text) → NoLeadingSpace s → NoLeadingSpace (trim_right s)
unfolding trim_right
trim_right-NoLeadingSpace [] h = tt
trim_right-NoLeadingSpace (c ∷ s) h = cons_kept-NoLeadingSpace c (trim_right s) h

cons_kept-cons_kept :
    (c : ℕ) (s : Text) → trim_right s ≡ s → trim_right (cons_kept c s) ≡ cons_kept c s
unfolding trim_right cons_kept
cons_kept-cons_kept c [] h = elim (Bool-cases (is_space c)) [ inl e ↦ rw e | inr e ↦ rw e (rw e) ]
cons_kept-cons_kept c (d ∷ s) h = rw h

pub trim_right_idem : (s : Text) → trim_right (trim_right s) ≡ trim_right s
unfolding trim_right
trim_right_idem [] = refl
trim_right_idem (c ∷ s) = cons_kept-cons_kept c (trim_right s) (trim_right_idem s)

trim_left-eq_self : (s : Text) → NoLeadingSpace s → trim_left s ≡ s
unfolding trim_left
trim_left-eq_self [] h = refl
trim_left-eq_self (c ∷ s) h = rw h

-- Trimming twice is trimming once.
pub trim_space_idem : (s : Text) → trim_space (trim_space s) ≡ trim_space s
unfolding trim_space
trim_space_idem s =
    rw (trim_left-eq_self _ (trim_right-NoLeadingSpace _ (trim_left_lem s)))
      (trim_right_idem (trim_left s))

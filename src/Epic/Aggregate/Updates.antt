-- ===== src/Epic/Aggregate/Updates.antt =====
-- The loops that search a list and change the first element that they find.
use donsy.Prelude.{
  ◌≡◌, ◌≢◌, refl, ap, inl, inr, not, all, Bool-cases, Bool, true, false, none, some, List, [], ◌∷◌,
  ◌++◌, arith,
}
use donsy.Errors.{Error, Outcome, ◌and_then◌}
use donsy.Epic.Aggregate.{with_first, find_first, Epic, mutate}

module _ {A : Type 0} (test : A → Bool) where
  pub find_first-test : (xs : List A) (x : A) → find_first test xs ≡ some x → test x ≡ true
  unfolding find_first
  find_first-test [] x h = cc
  find_first-test (y ∷ ys) x h = ground (arith, find_first-test ys x)

module _ {A : Type 0} (test : A → Bool) (missing : Error) (change : A → Outcome A) where
  pub with_first-missing :
      (xs : List A)
      → find_first test xs ≡ none
      → with_first test missing change xs ≡ (xs, some missing)
  unfolding find_first with_first
  with_first-missing [] h = refl
  with_first-missing (x ∷ xs) h = ground (arith, with_first-missing xs)

  pub with_first-found :
      (xs : List A) (x : A)
      → find_first test xs ≡ some x
      → test (change x).0 ≡ true
      → ((with_first test missing change xs).1 ≡ (change x).1)
        × (find_first test (with_first test missing change xs).0 ≡ some (change x).0)
  unfolding find_first with_first
  with_first-found [] x h k = cc
  with_first-found (y ∷ ys) x h k = ground (arith, with_first-found ys x)

  -- A search by another test does not see the change.
  pub find_first-with_first_ne :
      (other : A → Bool)
      → ((x : A) → test x ≡ true → other x ≡ false)
      → ((x : A) → test x ≡ true → other (change x).0 ≡ false)
      → (xs : List A) → find_first other (with_first test missing change xs).0 ≡ find_first other xs
  unfolding find_first with_first
  find_first-with_first_ne other before after [] = refl
  find_first-with_first_ne other before after (x ∷ xs) =
      ground (arith, before x, after x, find_first-with_first_ne other before after xs)

-- A method whose first step failed has its error; one that succeeded went on from what it left.
pub and_then_ok :
    {S : Type 0} (o : Outcome S) (f : S → Outcome S)
    → (o and_then f).1 ≡ none
    → (o.1 ≡ none) × ((o and_then f) ≡ f o.0)
and_then_ok (s, none) f h = (refl, refl)
and_then_ok (s, some e) f h = cc

-- A change on copies that fails leaves the epic as it was, and one that succeeds is kept.
pub mutate_cases :
    (change : Epic → Outcome Epic) (e : Epic)
    → ((mutate change e).1 ≡ (change e).1)
      × ((change e).1 ≡ none → (mutate change e).0.issues ≡ (change e).0.issues)
      × ((change e).1 ≡ none → (mutate change e).0.pull_requests ≡ (change e).0.pull_requests)
      × ((change e).1 ≢ none → (mutate change e).0 ≡ e)
unfolding mutate
mutate_cases change e = (ground arith, λ h. ground arith, λ h. ground arith, λ h. ground arith)

-- A change that succeeds has changed the first element under the test, and no other.
pub with_first_split {ℓ} :
    {A : Type ℓ} (test : A → Bool) (missing : Error) (change : A → Outcome A) (xs : List A)
    → (with_first test missing change xs).1 ≡ none
    → (before after : List A) × (x : A) × (xs ≡ before ++ x ∷ after)
      × (all (λ y. not (test y)) before ≡ true)
      × (test x ≡ true)
      × ((change x).1 ≡ none)
      × ((with_first test missing change xs).0 ≡ before ++ (change x).0 ∷ after)
unfolding with_first
with_first_split test missing change [] h = absurd (ground arith)
with_first_split test missing change (x ∷ xs) h = elim (Bool-cases (test x)) [
  | inl b ↦ ([], xs, x, refl, refl, b, ground arith, ground arith)
  | inr b ↦
      let (before, after, y, same, others, found, kept, stored) =
        with_first_split test missing change xs (ground arith) in
      (
        x ∷ before,
        after,
        y,
        ap (λ l. x ∷ l) same,
        ground arith,
        found,
        kept,
        ground (arith, stored),
      )
]

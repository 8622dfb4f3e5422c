-- ===== src/Prelude/Lists.antt =====
-- Lists measured by native numbers, under the library's names, and predicates over lists.
use Prim.Native.Nat.{ℕ, suc, ◌+◌}
use mathlib.Core.Path.{◌≡◌, refl}
use mathlib.Core.Bool.{Bool, true, false, ◌&&◌, ◌||◌}
use mathlib.Core.List.{List, [], ◌∷◌, ◌++◌}
use native.Mathlib.Omega.{arith}

module _ {ℓ} {A : Type ℓ} where
  abbrev pub length : List A → ℕ
  length [] = 0
  length (x ∷ xs) = suc (length xs)

  pub length-append : (xs ys : List A) → length (xs ++ ys) ≡ length xs + length ys
  length-append [] ys = omega arith
  length-append (x ∷ xs) ys = omega (arith, length-append xs ys)

  -- The loop `for _, x := range xs { if p(x) { return true } }; return false`.
  abbrev pub any : (A → Bool) → List A → Bool
  any p [] = false
  any p (x ∷ xs) = p x || any p xs

  abbrev pub all : (A → Bool) → List A → Bool
  all p [] = true
  all p (x ∷ xs) = p x && all p xs

-- A predicate by recursion computes to tuples, which the tactics read and build.
abbrev pub All {ℓ κ} : {A : Type ℓ} → (A → Type κ) → List A → Type κ
All P [] = Unit
All P (x ∷ xs) = P x × All P xs

-- What holds of every element, on an appended list and for a weaker test.
module _ {ℓ} {A : Type ℓ} (P : A → Bool) where
  pub all_append : (xs ys : List A) → all P xs ≡ true → all P ys ≡ true → all P (xs ++ ys) ≡ true
  all_append [] ys h k = k
  all_append (x ∷ xs) ys h k = ground (arith, all_append xs ys)

  pub all_mono :
      (Q : A → Bool) (xs : List A)
      → ((x : A) → P x ≡ true → Q x ≡ true)
      → all P xs ≡ true
      → all Q xs ≡ true
  all_mono Q [] k h = refl
  all_mono Q (x ∷ xs) k h = ground (arith, k x, all_mono Q xs k)

-- ===== src/Round/Triples.antt =====
-- What holds of the value and the state that a part of a round ends with, or of its failure and the
-- state that it leaves.
use donsy.Prelude.{◌≡◌, arith}
use donsy.Round.{
  Rounds, RoundFailure, Answer, answered, broke_off, ◌then◌, settle, finish, during_call,
}
use donsy.Text.{Text}

abbrev pub Ends {ℓ} :
    {A : Type ℓ}
    → (A → Rounds → Type 0)
    → (RoundFailure → Rounds → Type 0)
    → Rounds × Answer A
    → Type 0
Ends P E (s, answered a) = P a s
Ends P E (s, broke_off e) = E e s

pub then-Ends {ℓ κ} :
    {A : Type ℓ} {B : Type κ} (P : A → Rounds → Type 0) (Q : B → Rounds → Type 0)
    (E : RoundFailure → Rounds → Type 0) (m : Rounds × Answer A)
    (f : A → Rounds → Rounds × Answer B)
    → Ends P E m
    → ((a : A) (s : Rounds) → P a s → Ends Q E (f a s))
    → Ends Q E (m then f)
then-Ends P Q E (s, answered a) f h k = k a s h
then-Ends P Q E (s, broke_off e) f h k = h

pub settle-Ends :
    {A : Type 0} (P : A → Rounds → Type 0) (E F : RoundFailure → Rounds → Type 0) (id : Text)
    (m : Rounds × Answer A)
    → Ends P E m
    → ((e : RoundFailure) (s : Rounds) → E e s → F e (finish id s))
    → Ends P F (settle id m)
settle-Ends P E F id (s, answered a) h k = h
settle-Ends P E F id (s, broke_off e) h k = k e s h

-- Cancellations leave what is saved as it is.
pub during_call-saved :
    (s : Rounds) → ((during_call s).runs ≡ s.runs) × ((during_call s).sandboxes ≡ s.sandboxes)
unfolding during_call
during_call-saved s = (ground arith, ground arith)

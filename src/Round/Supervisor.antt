-- ===== src/Round/Supervisor.antt =====
-- internal/application/usecases/run_supervisor.go: RunSupervisor that is there (a nil one tracks
-- nothing). The maps are the lists of their keys; a context that is cancelled and a channel that is
-- closed are a key that is gone.
use donsy.Prelude.{◌≡◌, Bool, true, false, ◌&&◌, not, List, [], ◌∷◌, any, if◌then◌else◌, arith}
use donsy.Text.{Text, text_eq}
use donsy.Text.Equality.{text_eq_iff}

pub record RunSupervisor : Type 0 where
  pub cancels : List Text
  pub cancelled : List Text
  pub done : List Text

unfoldable pub has_key : Text → List Text → Bool
unfolding text_eq
has_key id keys = any (text_eq id) keys

unfoldable pub drop_key : Text → List Text → List Text
unfolding text_eq
drop_key id [] = []
drop_key id (k ∷ rest) = let kept = drop_key id rest in if text_eq id k then kept else k ∷ kept

abbrev pub new_run_supervisor : RunSupervisor
new_run_supervisor = record { cancels = []; cancelled = []; done = [] }

-- `Begin`, and the release that it returns.
unfoldable pub begin : Text → RunSupervisor → RunSupervisor
begin id s = record s { cancels = id ∷ s.cancels; done = id ∷ s.done }

unfoldable pub release : Text → RunSupervisor → RunSupervisor
unfolding drop_key
release id s = record s { cancels = drop_key id s.cancels }

unfoldable pub complete : Text → RunSupervisor → RunSupervisor
unfolding drop_key
complete id s = record s { done = drop_key id s.done }

unfoldable pub cancel : Text → RunSupervisor → RunSupervisor × Bool
unfolding has_key
cancel id s =
    if has_key id s.cancels then (record s { cancelled = id ∷ s.cancelled }, true) else (s, false)

unfoldable pub was_cancelled : Text → RunSupervisor → Bool
unfolding has_key
was_cancelled id s = has_key id s.cancelled

unfoldable pub forget : Text → RunSupervisor → RunSupervisor
unfolding drop_key
forget id s = record s { cancelled = drop_key id s.cancelled }

pub has_key-drop_key :
    (id other : Text) (keys : List Text)
    → has_key id (drop_key other keys) ≡ (not (text_eq other id) && has_key id keys)
unfolding has_key drop_key
has_key-drop_key id other [] = ground arith
has_key-drop_key id other (k ∷ rest) = ground (
  arith,
  has_key-drop_key id other rest,
  text_eq_iff id k,
  text_eq_iff other k,
  text_eq_iff other id,
)

pub has_key-own : (id : Text) (keys : List Text) → has_key id (drop_key id keys) ≡ false
has_key-own id keys = ground (arith, has_key-drop_key id id keys, text_eq_iff id id)

-- ===== src/Epic/Work/Waiting.antt =====
-- What the tree of an epic says of the work: when the epic is delivered.
use donsy.Prelude.{◌≡◌, Bool, true, false, ◌||◌, ◌&&◌, not, List, [], ◌∷◌, any, all, arith}
use donsy.Text.{is_empty}
use donsy.Epic.Issue.{Issue, settled}
use donsy.Epic.Aggregate.{Epic}
use donsy.Epic.Work.{delivered_from, delivered}

abbrev pub is_root : Issue → Bool
is_root i = is_empty i.parent_id

delivered_from_lem :
    (d : Bool) (xs : List Issue)
    → delivered_from d xs
      ≡ ((d || any (λ i. not (is_root i)) xs) && all (λ i. is_root i || settled i) xs)
unfolding delivered_from
delivered_from_lem d [] = ground arith
delivered_from_lem d (i ∷ xs) = ground (
  arith,
  delivered_from_lem d xs,
  delivered_from_lem true xs,
  delivered_from_lem (d || not (is_empty i.parent_id)) xs,
)

-- `Delivered` holds of an epic exactly if some issue is not a root and every issue that is not a
-- root is settled.
pub delivered_lem :
    (e : Epic)
    → delivered e
      ≡ (any (λ i. not (is_root i)) e.issues && all (λ i. is_root i || settled i) e.issues)
unfolding delivered
delivered_lem e = delivered_from_lem false e.issues

-- ===== src/Worker/Keys.antt =====
-- `subjectKey`, and maps over it as lists of entries.
use donsy.Prelude.{
  ℕ, ◌≡◌, ◌↔◌, Bool, true, false, ◌&&◌, Option, none, some, List, [], ◌∷◌, arith, ◌==◌, ==_iff,
  if◌then◌else◌,
}
use donsy.Text.{text_eq}
use donsy.Text.Equality.{text_eq_iff}
use donsy.Agent.{AgentSubject, AgentSubjectKind}

pub record SubjectKey : Type 0 where
  pub project : ℕ
  pub subject : AgentSubject

-- `a == b` on kinds, on subjects and on keys.
unfoldable pub kind_eq : AgentSubjectKind → AgentSubjectKind → Bool
kind_eq AgentSubjectKind.epic AgentSubjectKind.epic = true
kind_eq AgentSubjectKind.issue AgentSubjectKind.issue = true
kind_eq (AgentSubjectKind.unknown s) (AgentSubjectKind.unknown t) = text_eq s t
kind_eq _ _ = false

unfoldable pub subject_eq : AgentSubject → AgentSubject → Bool
unfolding kind_eq
subject_eq a b = kind_eq a.kind b.kind && text_eq a.id b.id

unfoldable pub key_eq : SubjectKey → SubjectKey → Bool
unfolding subject_eq
key_eq a b = a.project == b.project && subject_eq a.subject b.subject

kind_eq_iff : (a b : AgentSubjectKind) → (kind_eq a b ≡ true) ↔ (a ≡ b)
unfolding kind_eq
kind_eq_iff (AgentSubjectKind.unknown s) (AgentSubjectKind.unknown t) =
    ground (arith, text_eq_iff s t)
kind_eq_iff _ _ = ground arith

pub subject_eq_iff : (a b : AgentSubject) → (subject_eq a b ≡ true) ↔ (a ≡ b)
unfolding subject_eq
subject_eq_iff a b = ground (arith, kind_eq_iff a.kind b.kind, text_eq_iff a.id b.id)

pub key_eq_iff : (a b : SubjectKey) → (key_eq a b ≡ true) ↔ (a ≡ b)
unfolding key_eq
key_eq_iff a b = ground (arith, ==_iff a.project b.project, subject_eq_iff a.subject b.subject)

module _ {ℓ} {V : Type ℓ} where
  unfoldable pub lookup : SubjectKey → List (SubjectKey × V) → Option V
  lookup k [] = none
  lookup k ((j, v) ∷ m) = if key_eq j k then some v else lookup k m

  -- `delete(m, k)`.
  unfoldable pub delete : SubjectKey → List (SubjectKey × V) → List (SubjectKey × V)
  delete k [] = []
  delete k ((j, v) ∷ m) = let rest = delete k m in if key_eq j k then rest else (j, v) ∷ rest

  -- `m[k] = v`.
  unfoldable pub put : SubjectKey → V → List (SubjectKey × V) → List (SubjectKey × V)
  unfolding delete
  put k v m = (k, v) ∷ delete k m

  pub lookup-delete :
      (k j : SubjectKey) (m : List (SubjectKey × V))
      → lookup j (delete k m) ≡ (if key_eq k j then none else lookup j m)
  unfolding lookup delete
  lookup-delete k j [] = ground arith
  lookup-delete k j ((i, w) ∷ m) =
      ground (arith, lookup-delete k j m, key_eq_iff i k, key_eq_iff i j, key_eq_iff k j)

  pub lookup-put :
      (k j : SubjectKey) (v : V) (m : List (SubjectKey × V))
      → lookup j (put k v m) ≡ (if key_eq k j then some v else lookup j m)
  unfolding lookup put
  lookup-put k j v m = ground (arith, lookup-delete k j m)

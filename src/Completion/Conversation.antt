-- ===== src/Completion/Conversation.antt =====
-- internal/application/usecases/run_issue_agent.go: what of a pull request's thread a round is shown.
use mathlib.Core.Path.{subst}
use donsy.Prelude.{
  ◌≡◌, refl, sym, ◌∙◌, Bool, true, not, Option, none, some, List, [], ◌∷◌, ◌++◌, all, arith,
  Option-cases, inl, inr, ◌⊎◌, ap, if◌then◌else◌,
}
use donsy.Text.{Text, codes, text_eq, trim_space}
use donsy.Epic.Issue.{Comment}
use donsy.Agent
use donsy.Agent.{SessionMode}

-- The comments behind the last one of the author, if there is one: the loop from the last index.
unfoldable pub after_last : Text → List Comment → Option (List Comment)
after_last author [] = none
after_last author (c ∷ rest) = elim (after_last author rest) [
  | some since ↦ some since
  | none ↦ if text_eq c.author author then some rest else none
]

unfoldable pub comments_since : Text → List Comment → List Comment
comments_since author comments = elim (after_last author comments) [
  | some since ↦ since
  | none ↦ comments
]

abbrev newline : Text
newline = 10 ∷ []

unfoldable pub write_comments : List Comment → Text
write_comments [] = []
write_comments (c ∷ rest) =
    newline
    ++ (codes "### "
        ++ (c.author
            ++ (newline ++ (newline ++ (trim_space c.body ++ (newline ++ write_comments rest))))))

unfoldable pub conversation_section : List Comment → Text → Text → Text
conversation_section [] heading empty = empty
conversation_section (c ∷ rest) heading empty = heading ++ (newline ++ write_comments (c ∷ rest))

unfoldable pub conversation_for : List Comment → Text → SessionMode → Text
conversation_for comments role mode =
    if not (Agent.continues mode)
    then conversation_section comments (codes "## Discussion so far")
        (codes "No discussion on this pull request yet.")
    else conversation_section (comments_since role comments) (codes "## Said since your last round")
        (codes "Nothing has been said on the pull request since your last round.")

-- Whether nobody of that name wrote any of the comments.
abbrev pub is_silent : Text → List Comment → Bool
is_silent author comments = all (λ c. not (text_eq c.author author)) comments

unheard :
    (author : Text) (comments : List Comment)
    → after_last author comments ≡ none
    → is_silent author comments ≡ true
unfolding after_last
unheard author [] h = refl
unheard author (c ∷ rest) h = ground (arith, unheard author rest)

-- The comments up to the last one of the author: what a resumed session holds already.
abbrev pub IsResumed : Text → List Comment → List Comment → Type 0
IsResumed author comments since =
    (earlier : List Comment) × (last : Comment) × (comments ≡ earlier ++ last ∷ since)
    × (text_eq last.author author ≡ true)
    × (is_silent author since ≡ true)

after_last-IsResumed :
    (author : Text) (comments since : List Comment)
    → after_last author comments ≡ some since
    → IsResumed author comments since
unfolding after_last
after_last-IsResumed author [] since h = cc
after_last-IsResumed author (c ∷ rest) since h = elim (Option-cases (after_last author rest)) [
  | inr (s, f) ↦
      let (earlier, last, split, own, silent) =
        after_last-IsResumed author rest since (ground arith) in
      (c ∷ earlier, last, ap (λ l. c ∷ l) split, own, silent)
  | inl n ↦ ([], c, ground arith, ground arith, ground (arith, unheard author rest n))
]

comments_since-found :
    (author : Text) (comments since : List Comment)
    → after_last author comments ≡ some since
    → comments_since author comments ≡ since
unfolding comments_since
comments_since-found author comments since f = rw (f, comments_since) refl

comments_since-unheard :
    (author : Text) (comments : List Comment)
    → after_last author comments ≡ none
    → comments_since author comments ≡ comments
unfolding comments_since
comments_since-unheard author comments f = rw (f, comments_since) refl

-- A resumed round is shown exactly what follows its role's own last comment, or the whole thread if
-- its role has not written: no comment of its role is shown, and nothing that came after is left out.
pub comments_since_lem :
    (author : Text) (comments : List Comment)
    → (is_silent author (comments_since author comments) ≡ true)
      × (IsResumed author comments (comments_since author comments)
          ⊎ (comments_since author comments ≡ comments))
comments_since_lem author comments = elim (Option-cases (after_last author comments)) [
  | inl n ↦
      let e = comments_since-unheard author comments n in
      (ap (is_silent author) e ∙ unheard author comments n, inr e)
  | inr (since, f) ↦
      let e = comments_since-found author comments since f in
      let r = after_last-IsResumed author comments since f in
      (ap (is_silent author) e ∙ r.4, inl (subst (IsResumed author comments) (sym e) r))
]

-- ===== src/RepositoryPath.antt =====
-- internal/repositorypath/repository_path.go: the names of repositories as path components. The
-- loop of `Decode` is over bytes; in UTF-8 no byte of a longer rune is one of the three characters
-- that it looks for, so here it is over runes.
pub mod RoundTrip
mod Examples
use donsy.Prelude.{ℕ, Bool, true, false, not, List, [], ◌∷◌, ◌==◌, if◌then◌else◌}
use donsy.Text.{Text, codes}
use donsy.Errors.{Result, ok, err, bad_escape, open_escape}

abbrev pub slash : ℕ
slash = 47

abbrev pub underscore : ℕ
underscore = 95

abbrev pub letter_u : ℕ
letter_u = 117

unfoldable pub encode : Text → Text
encode [] = []
encode (c ∷ rest) =
    let encoded = encode rest in
    if c == slash
    then underscore ∷ underscore ∷ encoded
    else if c == underscore
    then underscore ∷ letter_u ∷ encoded
    else c ∷ encoded

-- What the builder holds, one rune before the rest.
abbrev pub written : ℕ → Result Text → Result Text
written c (ok t) = ok (c ∷ t)
written c (err e) = err e

unfoldable pub decode : Text → Result Text
decode [] = ok []
decode (c ∷ []) = if not (c == underscore) then ok (c ∷ []) else err open_escape
decode (c ∷ d ∷ rest) =
    let plain = decode (d ∷ rest) in
    let escaped = decode rest in
    if not (c == underscore)
    then written c plain
    else if d == underscore
    then written slash escaped
    else if d == letter_u
    then written underscore escaped
    else err bad_escape

-- ===== src/Slug.antt =====
-- internal/domain/slug.go: free text cut down to the alphabet of branch names.
pub mod Shape
pub mod Cut
mod Examples
use donsy.Prelude.{
  ℕ, zero, suc, ◌+◌, ◌-◌, Bool, true, false, ◌&&◌, ◌||◌, not, List, [], ◌∷◌, ◌++◌, Option, none,
  some, length, leb, ltb, ◌==◌, if◌then◌else◌,
}
use donsy.Text.{Text, is_empty}

unfoldable pub to_lower : ℕ → ℕ
to_lower r = if leb b'A' r && leb r b'Z' then r + 32 else r

unfoldable pub is_kept : ℕ → Bool
is_kept r = (leb b'a' r && leb r b'z') || (leb b'0' r && leb r b'9')

abbrev pub hyphen : ℕ
hyphen = b'-'

-- What the builder holds after a kept character `r`.
abbrev write_kept : Text → Bool → ℕ → Text
write_kept built separated r =
    (if separated && not (is_empty built) then built ++ hyphen ∷ [] else built) ++ r ∷ []

-- The loop of `Slug`, over what the builder holds and the flag `separated`.
unfoldable pub slug_loop : Text → Bool → Text → Text
unfolding to_lower is_kept
slug_loop built separated [] = built
slug_loop built separated (c ∷ s) =
    let r = to_lower c in
    slug_loop (if is_kept r then write_kept built separated r else built) (not (is_kept r)) s

unfoldable pub slug : Text → Text
unfolding slug_loop
slug text = slug_loop [] false text

-- `slug[:max]`, and `slug[max] == '-'`; a slug is ASCII, so its bytes are its characters.
abbrev pub take : ℕ → Text → Text
take zero s = []
take (suc n) [] = []
take (suc n) (c ∷ s) = c ∷ take n s

abbrev pub char_at_is : ℕ → ℕ → Text → Bool
char_at_is c n [] = false
char_at_is c zero (d ∷ s) = d == c
char_at_is c (suc n) (d ∷ s) = char_at_is c n s

-- `strings.LastIndexByte`, with `none` for -1.
unfoldable pub last_index : ℕ → Text → Option ℕ
last_index c [] = none
last_index c (d ∷ s) = elim (last_index c s) [
  | some i ↦ some (suc i)
  | none ↦ if d == c then some 0 else none
]

-- `SlugMax` behind its first line. A limit that is not positive is no limit.
unfoldable pub cut_slug : ℕ → Text → Text
unfolding last_index
cut_slug max s =
    let cut = take max s in
    if max == 0 || leb (length s) max
    then s
    else if char_at_is hyphen max s
    then cut
    else elim (last_index hyphen cut) [
      | none ↦ cut
      | some boundary ↦ if ltb 0 boundary then take boundary cut else cut
    ]

unfoldable pub slug_max : Text → ℕ → Text
slug_max text max = cut_slug max (slug text)

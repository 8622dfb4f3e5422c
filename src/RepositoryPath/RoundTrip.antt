-- ===== src/RepositoryPath/RoundTrip.antt =====
-- Encoded names read back, and no two names are encoded alike.
use donsy.Prelude.{
  ◌≡◌, refl, sym, ap, ◌∙◌, ℕ, false, [], ◌∷◌, arith, ◌==◌, any, ◌++◌, Bool-cases, inl, inr,
}
use donsy.Text.{Text}
use donsy.Errors.{Result, ok, err}
use donsy.RepositoryPath.{encode, decode, written, slash, underscore, letter_u}

decode-plain :
    (c : ℕ) (t u : Text) → (c == underscore) ≡ false → decode t ≡ ok u → decode (c ∷ t) ≡ ok (c ∷ u)
unfolding decode
decode-plain c [] u h k = ground arith
decode-plain c (d ∷ t) u h k = ground arith

-- `Decode` gives back every name that `Encode` encodes.
pub decode-encode : (t : Text) → decode (encode t) ≡ ok t
unfolding encode decode
decode-encode [] = refl
decode-encode (c ∷ t) = ground (arith, decode-encode t, decode-plain c (encode t) t)

-- Two names that are encoded alike are the same.
pub encode-injective : (s t : Text) → encode s ≡ encode t → s ≡ t
encode-injective s t h = ground (arith, decode-encode s, decode-encode t)

abbrev Spells : Text → Result Text → Type 0
Spells e r = (t : Text) → r ≡ ok t → encode t ≡ e

written-Spells :
    (c : ℕ) (prefix e : Text) (r : Result Text)
    → ((t : Text) → encode (c ∷ t) ≡ prefix ++ encode t)
    → Spells e r
    → Spells (prefix ++ e) (written c r)
written-Spells c prefix e (ok u) step s t h =
    let q : c ∷ u ≡ t = ground arith in
    ap encode (sym q) ∙ step u ∙ ap (λ x. prefix ++ x) (s u refl)
written-Spells c prefix e (err x) step s t h = absurd (cc h)

encode-plain :
    (c : ℕ) (t : Text)
    → (c == slash) ≡ false
    → (c == underscore) ≡ false
    → encode (c ∷ t) ≡ c ∷ encode t
unfolding encode
encode-plain c t h k = ground arith

-- A path component without a slash that `Decode` accepts is the encoding of what it gives.
pub encode-decode : (e t : Text) → any (λ c. c == slash) e ≡ false → decode e ≡ ok t → encode t ≡ e
unfolding encode decode
encode-decode [] t h k = ground arith
encode-decode (c ∷ []) t h k = ground arith
encode-decode (c ∷ d ∷ e) t h k = elim (Bool-cases (c == underscore)) [
  | inr n ↦
      written-Spells c (c ∷ []) (d ∷ e) (decode (d ∷ e)) (λ x. encode-plain c x (ground arith) n)
        (λ x. encode-decode (d ∷ e) x (ground arith)) t (ground arith)
  | inl u ↦ elim (Bool-cases (d == underscore)) [
    | inl v ↦
        written-Spells slash (underscore ∷ underscore ∷ []) e (decode e) (λ x. refl)
          (λ x. encode-decode e x (ground arith)) t (ground arith)
        ∙ ground arith
    | inr w ↦ elim (Bool-cases (d == letter_u)) [
      | inl v ↦
          written-Spells underscore (underscore ∷ letter_u ∷ []) e (decode e) (λ x. refl)
            (λ x. encode-decode e x (ground arith)) t (ground arith)
          ∙ ground arith
      | inr v ↦ absurd (ground arith)
    ]
  ]
]

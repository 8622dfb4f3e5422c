-- ===== src/Agent/Sessions.antt =====
-- Which run `lastRoundSucceeded` looks at, and when a session goes on.
use donsy.Prelude.{
  ◌≡◌, refl, sym, ◌∙◌, ◌⊎◌, inl, inr, Bool, true, false, Option, none, some, List, [], ◌∷◌, arith,
  All, Bool-cases, Option-cases,
}
use donsy.Prelude.Int.{ℤ, ltb_ℤ}
use mathlib.Core.List.{Memᴰ}
use mathlib.Core.Path.{subst}
use donsy.Agent.{
  AgentRun, AgentRunStatus, has_succeeded, AgentRole, succeeded, role_eq, latest_round,
  last_round_succeeded,
}

not_below_trans : (a b c : ℤ) → ltb_ℤ a b ≡ false → ltb_ℤ b c ≡ false → ltb_ℤ a c ≡ false
not_below_trans a b c h k = ground arith

below_not_above : (a b : ℤ) → ltb_ℤ a b ≡ true → ltb_ℤ b a ≡ false
below_not_above a b h = ground arith

not_below_refl : (a : ℤ) → ltb_ℤ a a ≡ false
not_below_refl a = ground arith

-- A run is as late as every run of the role in a list.
abbrev pub IsLatest : AgentRole → AgentRun → List AgentRun → Type 0
IsLatest role r runs = All (λ x. role_eq x.role role ≡ true → ltb_ℤ r.round x.round ≡ false) runs

latest_round-other :
    (role : AgentRole) (held : Option AgentRun) (run : AgentRun) (rest : List AgentRun)
    → role_eq run.role role ≡ false
    → latest_round role held (run ∷ rest) ≡ latest_round role held rest
unfolding latest_round
latest_round-other role none run rest h = ground arith
latest_round-other role (some held) run rest h = ground arith

latest_round-newer :
    (role : AgentRole) (held run : AgentRun) (rest : List AgentRun)
    → role_eq run.role role ≡ true
    → ltb_ℤ held.round run.round ≡ true
    → latest_round role (some held) (run ∷ rest) ≡ latest_round role (some run) rest
unfolding latest_round
latest_round-newer role held run rest h k = ground arith

latest_round-older :
    (role : AgentRole) (held run : AgentRun) (rest : List AgentRun)
    → role_eq run.role role ≡ true
    → ltb_ℤ held.round run.round ≡ false
    → latest_round role (some held) (run ∷ rest) ≡ latest_round role (some held) rest
unfolding latest_round
latest_round-older role held run rest h k = ground arith

latest_round-first :
    (role : AgentRole) (run : AgentRun) (rest : List AgentRun)
    → role_eq run.role role ≡ true
    → latest_round role none (run ∷ rest) ≡ latest_round role (some run) rest
unfolding latest_round
latest_round-first role run rest h = ground arith

differs : (b c : Bool) {P : Type 0} → b ≡ false → b ≡ true → P
differs b c h k = absurd (cc (h, k))

abbrev From : AgentRole → AgentRun → List AgentRun → Type 0
From role r runs = Memᴰ r runs × (role_eq r.role role ≡ true)

later :
    (role : AgentRole) (r run : AgentRun) (rest : List AgentRun)
    → From role r rest
    → From role r (run ∷ rest)
later role r run rest m = (Memᴰ.tail m.0, m.1)

latest_round_held :
    (role : AgentRole) (held : AgentRun) (runs : List AgentRun) (r : AgentRun)
    → latest_round role (some held) runs ≡ some r
    → (ltb_ℤ r.round held.round ≡ false)
      × IsLatest role r runs
      × ((r ≡ held) ⊎ (Memᴰ r runs × (role_eq r.role role ≡ true)))
latest_round_held role held [] r h =
    let q : held ≡ r = unfold latest_round in ground arith in
    (
      subst (λ (x : AgentRun). ltb_ℤ x.round held.round ≡ false) q (not_below_refl held.round),
      tt,
      inl (sym q),
    )
latest_round_held role held (run ∷ rest) r h = elim (Bool-cases (role_eq run.role role)) [
  | inr other ↦
      let below =
        latest_round_held role held rest r
          (sym (latest_round-other role (some held) run rest other) ∙ h) in
      (
        below.0,
        (differs _ true other, below.1),
        elim below.2 [ inl e ↦ inl e | inr m ↦ inr (later role r run rest m) ],
      )
  | inl same ↦ elim (Bool-cases (ltb_ℤ held.round run.round)) [
    | inl newer ↦
        let below =
          latest_round_held role run rest r
            (sym (latest_round-newer role held run rest same newer) ∙ h) in
        (
          not_below_trans r.round run.round held.round below.0
              (below_not_above held.round run.round newer),
          (λ _. below.0, below.1),
          inr (elim below.2 [
            | inl e ↦
                (Memᴰ.head e, subst (λ (x : AgentRun). role_eq x.role role ≡ true) (sym e) same)
            | inr m ↦ later role r run rest m
          ]),
        )
    | inr older ↦
        let below =
          latest_round_held role held rest r
            (sym (latest_round-older role held run rest same older) ∙ h) in
        (
          below.0,
          (λ _. not_below_trans r.round held.round run.round below.0 older, below.1),
          elim below.2 [ inl e ↦ inl e | inr m ↦ inr (later role r run rest m) ],
        )
  ]
]

latest_round_lem :
    (role : AgentRole) (runs : List AgentRun) (r : AgentRun)
    → latest_round role none runs ≡ some r
    → From role r runs × IsLatest role r runs
latest_round_lem role [] r h = absurd (unfold latest_round in cc h)
latest_round_lem role (run ∷ rest) r h = elim (Bool-cases (role_eq run.role role)) [
  | inr other ↦
      let below =
        latest_round_lem role rest r (sym (latest_round-other role none run rest other) ∙ h) in
      (later role r run rest below.0, (differs _ true other, below.1))
  | inl same ↦
      let below =
        latest_round_held role run rest r (sym (latest_round-first role run rest same) ∙ h) in
      (
        elim below.2 [
          | inl e ↦ (Memᴰ.head e, subst (λ (x : AgentRun). role_eq x.role role ≡ true) (sym e) same)
          | inr m ↦ later role r run rest m
        ],
        (λ _. below.0, below.1),
      )
]

has_succeeded_sound : (s : AgentRunStatus) → has_succeeded s ≡ true → s ≡ succeeded
has_succeeded_sound s h = ground arith

outcome_of_latest :
    (role : AgentRole) (runs : List AgentRun) (r : AgentRun)
    → latest_round role none runs ≡ some r
    → last_round_succeeded role runs ≡ has_succeeded r.status
unfolding last_round_succeeded
outcome_of_latest role runs r f = rw (f, last_round_succeeded) refl

no_latest :
    (role : AgentRole) (runs : List AgentRun)
    → latest_round role none runs ≡ none
    → last_round_succeeded role runs ≡ false
unfolding last_round_succeeded
no_latest role runs n = rw (n, last_round_succeeded) refl

-- `lastRoundSucceeded` answers yes only if a run of the role is among the previous runs that
-- succeeded and than which no run of the role among them has a higher round.
pub last_round_succeeded_lem :
    (role : AgentRole) (previous : List AgentRun)
    → last_round_succeeded role previous ≡ true
    → (r : AgentRun) × Memᴰ r previous
      × (role_eq r.role role ≡ true)
      × (r.status ≡ succeeded)
      × IsLatest role r previous
last_round_succeeded_lem role previous h = elim (Option-cases (latest_round role none previous)) [
  | inl n ↦ differs (last_round_succeeded role previous) true (no_latest role previous n) h
  | inr (r, f) ↦
      let found = latest_round_lem role previous r f in
      (
        r,
        found.0.0,
        found.0.1,
        has_succeeded_sound r.status (sym (outcome_of_latest role previous r f) ∙ h),
        found.1,
      )
]

-- ===== src/Worker/Retries.antt =====
-- The ledger of retries: how long a failed subject is held, and what the ledger knows of its past.
use donsy.Prelude.{
  ℕ, zero, suc, ◌+◌, ◌-◌, ◌*◌, ◌^◌, ◌%◌, ◌≤◌, ◌<◌, ◌≡◌, refl, sym, ap, ◌∙◌, inl, inr, Bool, true,
  false, ◌&&◌, Option, none, some, List, [], ◌∷◌, arith, ltb, leb, ◌==◌, ==_iff, length,
  if◌then◌else◌, Bool-cases, Option-cases, ltb→lt,
}
use donsy.Prelude.Int.{pos, inc-pos, two63, two64}
use donsy.Worker.{
  Failure, RoundResult, Retry, Worker, retry_base, retry_cap, breaker_cooldown, retry_delay, booked,
  record_result, held_for,
}
use donsy.Worker.Keys.{
  SubjectKey, key_eq, lookup, lookup-put, lookup-delete, key_eq_iff, delete, put,
}
use donsy.Epic.Issue.{Time}

-- Fifteen seconds, doubled by each failure, and an hour from the ninth failure on.
abbrev pub doubled : ℕ → ℕ
doubled n = if ltb n 8 then retry_base * 2 ^ n else retry_cap

-- A test passes at each of `count` numbers from `first` on.
passes : (test : ℕ → Bool) (count first : ℕ) → Bool
passes test zero first = true
passes test (suc count) first = test first && passes test count (suc first)

at_each :
    (test : ℕ → Bool) (count first k : ℕ)
    → first ≤ k
    → k < first + count
    → passes test count first ≡ true
    → test k ≡ true
unfolding passes
at_each test zero first k from below all = absurd (omega arith)
at_each test (suc count) first k from below all = elim (Bool-cases (first == k)) [
  | inl e ↦ ground (arith, ==_iff first k)
  | inr e ↦ at_each test count (suc first) k (ground arith) (omega arith) (ground arith)
]

doubled_below : passes (λ n. retry_delay (pos (suc n)) == doubled n) 55 0 ≡ true
unfolding passes retry_delay
doubled_below = refl

-- From 55 doublings on, the product is a multiple of 2 ^ 64.
power_multiple : (n : ℕ) → retry_base * 2 ^ (55 + n) ≡ two64 * (29296875 * 2 ^ n)
power_multiple zero = refl
power_multiple (suc n) =
    let e : 55 + suc n ≡ suc (55 + n) = omega arith in rw e (omega (arith, power_multiple n))

shifted_out : (n : ℕ) → retry_base * 2 ^ (55 + n) % two64 ≡ 0
shifted_out n = omega (arith, power_multiple n)

doubled_beyond : (n : ℕ) → retry_delay (pos (suc (55 + n))) ≡ retry_cap
unfolding retry_delay
doubled_beyond n = let e : suc (55 + n) - 1 ≡ 55 + n = omega arith in rw (e, shifted_out n) refl

-- The delay after `n + 1` failures.
pub retry_delay-eq-doubled : (n : ℕ) → retry_delay (pos (suc n)) ≡ doubled n
retry_delay-eq-doubled n = elim (Bool-cases (ltb n 55)) [
  | inl h ↦ (==_iff _ _).0 (at_each _ 55 0 n (omega arith) (ltb→lt n 55 h) doubled_below)
  | inr h ↦
      let e : n ≡ 55 + (n - 55) = ground arith in rw e (doubled_beyond (n - 55) ∙ ground arith)
]

-- The rounds of all subjects that ended, each with the time of its record, the newest first.
abbrev pub History : Type 0
History = List (Time × RoundResult)

unfoldable pub record_history : History → Worker → Worker
record_history [] w = w
record_history ((now, r) ∷ older) w = record_result now r (record_history older w)

-- What the past of a subject says: how many of its last rounds in a row failed, how many of its
-- last rounds in a row the host failed, and until when the last failure holds it.
unfoldable pub failures_in_row : SubjectKey → History → ℕ
failures_in_row key [] = 0
failures_in_row key ((now, r) ∷ older) =
    let before = failures_in_row key older in
    if key_eq r.key key then (elim r.failed [ none ↦ 0 | some f ↦ suc before ]) else before

unfoldable pub host_failures_in_row : SubjectKey → History → ℕ
host_failures_in_row key [] = 0
host_failures_in_row key ((now, r) ∷ older) =
    let before = host_failures_in_row key older in
    if key_eq r.key key
    then (elim r.failed [ none ↦ 0 | some f ↦ if f.from_host then suc before else 0 ])
    else before

-- The hold after that many failures in a row: six hours from the fifth host failure in a row on.
abbrev pub hold : ℕ → ℕ → ℕ
hold failures host_failures =
    if leb 5 host_failures then breaker_cooldown else doubled (failures - 1)

unfoldable pub held_until : SubjectKey → History → Time
unfolding failures_in_row host_failures_in_row
held_until key [] = 0
held_until key ((now, r) ∷ older) =
    let before = held_until key older in
    if key_eq r.key key
    then now
      + hold (failures_in_row key ((now, r) ∷ older)) (host_failures_in_row key ((now, r) ∷ older))
    else before

-- The entry that the past of a subject calls for: none if it has no failure since its last success.
abbrev pub expected : SubjectKey → History → Option Retry
expected key history =
    if failures_in_row key history == 0
    then none
    else some (record {
      failures = pos (failures_in_row key history);
      until = held_until key history;
      host_failures = pos (host_failures_in_row key history);
    })

failures_in_row_le : (key : SubjectKey) (h : History) → failures_in_row key h ≤ length h
unfolding failures_in_row
failures_in_row_le key [] = omega arith
failures_in_row_le key ((now, r) ∷ h) = ground (arith, failures_in_row_le key h)

host_le_failures :
    (key : SubjectKey) (h : History) → host_failures_in_row key h ≤ failures_in_row key h
unfolding failures_in_row host_failures_in_row
host_le_failures key [] = omega arith
host_le_failures key ((now, r) ∷ h) = ground (arith, host_le_failures key h)

-- What one failure books, from the entry that the counts before it call for.
booked_lem :
    (now : Time) (f : Failure) (held : Retry) (n m : ℕ)
    → held.failures ≡ pos n
    → held.host_failures ≡ pos m
    → n + 1 < two63
    → m ≤ n
    → booked now f held ≡ record {
      failures = pos (suc n);
      until = now + hold (suc n) (if f.from_host then suc m else 0);
      host_failures = pos (if f.from_host then suc m else 0);
    }
unfolding booked
booked_lem now f held n m p q h k = ground (arith, inc-pos n, inc-pos m, retry_delay-eq-doubled n)

module _ (now : Time) (r : RoundResult) (w : Worker) where
  retries_success : r.failed ≡ none → (record_result now r w).retries ≡ delete r.key w.retries
  unfolding record_result
  retries_success h = ground arith

  retries_failure :
      (f : Failure)
      → r.failed ≡ some f
      → (record_result now r w).retries
        ≡ put r.key (booked now f (held_for r.key w.retries)) w.retries
  unfolding record_result
  retries_failure f h = ground arith

  record_result-other :
      (key : SubjectKey)
      → key_eq r.key key ≡ false
      → lookup key (record_result now r w).retries ≡ lookup key w.retries
  record_result-other key h = elim (Option-cases r.failed) [
    | inl n ↦ ground (arith, retries_success n, lookup-delete r.key key w.retries)
    | inr (f, n) ↦ ground (
      arith,
      retries_failure f n,
      lookup-put r.key key (booked now f (held_for r.key w.retries)) w.retries,
    )
  ]

  record_result-success :
      (key : SubjectKey)
      → key_eq r.key key ≡ true
      → r.failed ≡ none
      → lookup key (record_result now r w).retries ≡ none
  record_result-success key h n =
      ground (arith, retries_success n, lookup-delete r.key key w.retries)

  record_result-failure :
      (key : SubjectKey) (f : Failure)
      → key_eq r.key key ≡ true
      → r.failed ≡ some f
      → lookup key (record_result now r w).retries ≡ some (booked now f (held_for key w.retries))
  record_result-failure key f h n = ground (
    arith,
    retries_failure f n,
    key_eq_iff r.key key,
    lookup-put r.key key (booked now f (held_for r.key w.retries)) w.retries,
  )

-- The counts of the entry that the past calls for, or of the empty one.
held_as_expected :
    (key : SubjectKey) (h : History) (retries : List (SubjectKey × Retry))
    → lookup key retries ≡ expected key h
    → ((held_for key retries).failures ≡ pos (failures_in_row key h))
      × ((held_for key retries).host_failures ≡ pos (host_failures_in_row key h))
held_as_expected key h retries e = ground (arith, host_le_failures key h)

expected-other :
    (now : Time) (r : RoundResult) (key : SubjectKey) (h : History)
    → key_eq r.key key ≡ false
    → expected key ((now, r) ∷ h) ≡ expected key h
unfolding failures_in_row host_failures_in_row held_until
expected-other now r key h e = ground arith

expected-success :
    (now : Time) (r : RoundResult) (key : SubjectKey) (h : History)
    → key_eq r.key key ≡ true
    → r.failed ≡ none
    → expected key ((now, r) ∷ h) ≡ none
unfolding failures_in_row
expected-success now r key h e n = ground arith

expected-failure :
    (now : Time) (r : RoundResult) (key : SubjectKey) (h : History) (f : Failure)
    → key_eq r.key key ≡ true
    → r.failed ≡ some f
    → let n = suc (failures_in_row key h) in
      let m = if f.from_host then suc (host_failures_in_row key h) else 0 in
      expected key ((now, r) ∷ h)
      ≡ some (record { failures = pos n; until = now + hold n m; host_failures = pos m })
unfolding failures_in_row host_failures_in_row held_until
expected-failure now r key h f e n = ground arith

-- After any rounds recorded from an empty ledger, fewer than 2 ^ 63, the ledger holds for each
-- subject exactly the entry that its past calls for.
pub ledger_refines :
    (history : History) (w : Worker) (key : SubjectKey)
    → w.retries ≡ []
    → length history < two63
    → lookup key (record_history history w).retries ≡ expected key history
unfolding record_history
ledger_refines [] w key e h = rw e (unfold lookup failures_in_row in refl)
ledger_refines ((now, r) ∷ older) w key e h =
    let ih = ledger_refines older w key e (omega arith) in
    let w' = record_history older w in
    elim (Bool-cases (key_eq r.key key)) [
      | inr other ↦
          record_result-other now r w' key other ∙ ih ∙ sym (expected-other now r key older other)
      | inl own ↦ elim (Option-cases r.failed) [
        | inl n ↦
            record_result-success now r w' key own n ∙ sym (expected-success now r key older own n)
        | inr (f, n) ↦
            let held = held_as_expected key older w'.retries ih in
            record_result-failure now r w' key f own n
            ∙ ap some (
                booked_lem now f (held_for key w'.retries) (failures_in_row key older)
                  (host_failures_in_row key older) held.0 held.1
                  (omega (arith, failures_in_row_le key older)) (host_le_failures key older))
            ∙ sym (expected-failure now r key older f own n)
      ]
    ]

power_below : passes (λ n. leb retry_base (doubled n) && leb (doubled n) retry_cap) 8 0 ≡ true
unfolding passes
power_below = refl

doubled_bounds : (n : ℕ) → (retry_base ≤ doubled n) × (doubled n ≤ retry_cap)
doubled_bounds n = elim (Bool-cases (ltb n 8)) [
  | inl h ↦
      let p =
        at_each (λ k. leb retry_base (doubled k) && leb (doubled k) retry_cap) 8 0 n (omega arith)
          (ltb→lt n 8 h) power_below in
      ground arith
  | inr h ↦ rw h (omega arith)
]

-- Every hold lasts between fifteen seconds and six hours, and no more than an hour before the fifth
-- host failure in a row.
pub hold_bounds :
    (n m : ℕ)
    → (retry_base ≤ hold n m) × (hold n m ≤ breaker_cooldown) × (m < 5 → hold n m ≤ retry_cap)
hold_bounds n m = let b = doubled_bounds (n - 1) in (ground arith, ground arith, λ h. ground arith)

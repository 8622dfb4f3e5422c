-- ===== src/Admission/Budget.antt =====
-- The budget that reservations keep, in any order of reserving and releasing against what the host
-- showed.
use mathlib.Core.Path.{subst}
use donsy.Prelude.{
  ℕ, suc, ◌+◌, ◌*◌, ◌≤◌, ◌≡◌, refl, sym, ◌⊎◌, inl, inr, true, false, ◌||◌, not, List, [], ◌∷◌,
  arith, Bool-cases, if◌then◌else◌,
}
use donsy.Text.{Text, text_eq}
use donsy.Text.Equality.{text_eq_iff}
use donsy.Admission.{
  Ledger, ProfileInstance, profile_cpus, profile_memory, sandbox_budget_gib, is_member, is_reserved,
  reserved_memory_gib, admit_sandbox, running_names, running_cpus, running_memory, added_profiles,
  admit_profile, reserve, release,
}
use donsy.Admission.Counting.{pending, added_profiles-eq-pending, pending-release_le}

-- How many reservations a name holds.
pub holders : Text → Ledger → ℕ
holders name [] = 0
holders name ((n, held) ∷ rest) =
    let below = holders name rest in if text_eq n name then suc below else below

pub data Operation : Type 0 where
  reserves : (name profile : Text) → Operation
  releases : Text → Operation

holders_unreserved : (name : Text) (l : Ledger) → is_reserved name l ≡ false → holders name l ≡ 0
unfolding holders is_reserved
holders_unreserved name [] h = refl
holders_unreserved name ((n, held) ∷ rest) h = ground (arith, holders_unreserved name rest)

holders-release_le :
    (name other : Text) (l : Ledger) → holders name (release other l) ≤ holders name l
unfolding holders release
holders-release_le name other [] = ground arith
holders-release_le name other ((n, held) ∷ rest) =
    ground (arith, holders-release_le name other rest)

reserved_memory-release_le :
    (profile name : Text) (l : Ledger)
    → reserved_memory_gib profile (release name l) ≤ reserved_memory_gib profile l
unfolding reserved_memory_gib release
reserved_memory-release_le profile name [] = ground arith
reserved_memory-release_le profile name ((n, held) ∷ rest) =
    ground (arith, reserved_memory-release_le profile name rest)

module _ (instances : List ProfileInstance) (host_cpus host_memory : ℕ) where
  pub perform_all : List Operation → Ledger
  perform_all [] = []
  perform_all (reserves name profile ∷ older) =
      (reserve instances host_cpus host_memory name profile (perform_all older)).0
  perform_all (releases name ∷ older) = release name (perform_all older)

  -- The profiles that the ledger is to start, beside those that are up.
  abbrev pub starting : Ledger → ℕ
  starting l = pending (running_names instances) l

  pub record IsWithin (l : Ledger) : Type 0 where
    pub fits :
        (starting l ≡ 0)
        ⊎ ((running_cpus instances + starting l * profile_cpus ≤ host_cpus)
            × (running_memory instances + starting l * profile_memory ≤ host_memory))
    pub bounded : (profile : Text) → reserved_memory_gib profile l ≤ sandbox_budget_gib
    pub single : (name : Text) → holders name l ≤ 1

  starting_up :
      (name profile : Text) (l : Ledger)
      → is_member profile (running_names instances) ≡ true
      → starting ((name, profile) ∷ l) ≡ starting l
  unfolding pending
  starting_up name profile l h = ground arith

  starting_new :
      (name profile : Text) (l : Ledger)
      → is_member profile (running_names instances) ≡ false
      → starting ((name, profile) ∷ l) ≡ suc (added_profiles profile (running_names instances) l)
  unfolding pending
  starting_new name profile l h =
      ground (arith, added_profiles-eq-pending profile (running_names instances) l)

  admitted_fits :
      (name profile : Text) (l : Ledger)
      → admit_profile instances profile host_cpus host_memory l ≡ true
      → (starting l ≡ 0)
        ⊎ ((running_cpus instances + starting l * profile_cpus ≤ host_cpus)
            × (running_memory instances + starting l * profile_memory ≤ host_memory))
      → (starting ((name, profile) ∷ l) ≡ 0)
        ⊎ ((running_cpus instances + starting ((name, profile) ∷ l) * profile_cpus ≤ host_cpus)
            × (running_memory instances + starting ((name, profile) ∷ l) * profile_memory
                ≤ host_memory))
  unfolding admit_profile
  admitted_fits name profile l h f =
      elim (Bool-cases (is_member profile (running_names instances))) [
        | inl up ↦ ground (arith, starting_up name profile l up)
        | inr new ↦ inr (
          ground (arith, starting_new name profile l new),
          ground (arith, starting_new name profile l new),
        )
      ]

  memory-cons :
      (name profile other : Text) (l : Ledger)
      → reserved_memory_gib other ((name, profile) ∷ l) ≡ (
          if text_eq profile other
          then 2 + reserved_memory_gib other l
          else reserved_memory_gib other l)
  unfolding reserved_memory_gib
  memory-cons name profile other l = ground arith

  holders-cons :
      (name profile other : Text) (l : Ledger)
      → holders other ((name, profile) ∷ l)
        ≡ (if text_eq name other then suc (holders other l) else holders other l)
  unfolding holders
  holders-cons name profile other l = ground arith

  refused_or_admitted :
      (name profile : Text) (l : Ledger)
      → ((reserve instances host_cpus host_memory name profile l).0 ≡ l)
        ⊎ ((is_reserved name l ≡ false)
            × (admit_sandbox profile l ≡ true)
            × (admit_profile instances profile host_cpus host_memory l ≡ true)
            × ((reserve instances host_cpus host_memory name profile l).0 ≡ (name, profile) ∷ l))
  unfolding reserve
  refused_or_admitted name profile l =
      elim (Bool-cases (
        is_reserved name l
        || not (admit_sandbox profile l)
        || not (admit_profile instances profile host_cpus host_memory l))) [
          | inl r ↦ inl (ground arith)
          | inr r ↦ inr (ground arith, ground arith, ground arith, ground arith)
        ]

  reserve-IsWithin :
      (name profile : Text) (l : Ledger)
      → IsWithin l
      → IsWithin (reserve instances host_cpus host_memory name profile l).0
  unfolding admit_sandbox
  reserve-IsWithin name profile l h = elim (refused_or_admitted name profile l) [
    | inl e ↦ subst IsWithin (sym e) h
    | inr (free, room, up, e) ↦ subst IsWithin (sym e) (record {
      fits = admitted_fits name profile l up h.fits;
      bounded = λ other.
          ground
            (arith, memory-cons name profile other l, h.bounded other, text_eq_iff profile other);
      single = λ other. ground (
        arith,
        holders-cons name profile other l,
        h.single other,
        holders_unreserved name l free,
        text_eq_iff name other,
      );
    })
  ]

  release-IsWithin : (name : Text) (l : Ledger) → IsWithin l → IsWithin (release name l)
  release-IsWithin name l h = record {
    fits = ground (arith, h.fits, pending-release_le name (running_names instances) l);
    bounded = λ other. omega (arith, h.bounded other, reserved_memory-release_le other name l);
    single = λ other. omega (arith, h.single other, holders-release_le other name l);
  }

  -- Whatever rounds reserve and release, in any order, against the same profiles that are up: either
  -- no further profile is to start, or all of them, with those that are up, fit in the processors and
  -- the memory of the host's budget; the sandboxes of a profile hold no more than half its memory; and
  -- no sandbox has two rounds.
  pub reservations-IsWithin : (operations : List Operation) → IsWithin (perform_all operations)
  unfolding perform_all pending reserved_memory_gib holders
  reservations-IsWithin [] = record {
    fits = inl refl;
    bounded = λ p. omega arith;
    single = λ n. omega arith;
  }
  reservations-IsWithin (reserves name profile ∷ older) =
      reserve-IsWithin name profile (perform_all older) (reservations-IsWithin older)
  reservations-IsWithin (releases name ∷ older) =
      release-IsWithin name (perform_all older) (reservations-IsWithin older)

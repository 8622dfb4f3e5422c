-- ===== src/Admission.antt =====
-- internal/adapters/colima/capacity.go: the admission of rounds against what the host has. The
-- ledger of reservations is a list of names with their profiles, one for each name; processors and
-- bytes are natural numbers, whose sums are taken to fit in 64 bits. What `colima list` and the host
-- say are arguments.
pub mod Counting
pub mod Budget
mod Examples
use donsy.Prelude.{
  ℕ, zero, suc, ◌+◌, ◌*◌, ◌^◌, Bool, true, false, ◌||◌, ◌&&◌, not, List, [], ◌∷◌, any, leb,
  if◌then◌else◌,
}
use donsy.Text.{Text, text_eq}

-- A profile as `colima list` gives it.
pub record ProfileInstance : Type 0 where
  pub name : Text
  pub is_running : Bool
  pub cpus : ℕ
  pub memory : ℕ

-- `profileCPUs`, `profileMemoryGiB` in bytes, `sandboxMemoryGiB`, and half of `profileMemoryGiB`.
abbrev pub profile_cpus : ℕ
profile_cpus = 4

abbrev pub profile_memory : ℕ
profile_memory = 8 * 2 ^ 30

abbrev pub sandbox_memory_gib : ℕ
sandbox_memory_gib = 2

abbrev pub sandbox_budget_gib : ℕ
sandbox_budget_gib = 4

abbrev pub Ledger : Type 0
Ledger = List (Text × Text)

unfoldable pub is_member : Text → List Text → Bool
is_member x names = any (text_eq x) names

unfoldable pub is_reserved : Text → Ledger → Bool
is_reserved name [] = false
is_reserved name ((n, profile) ∷ rest) = text_eq n name || is_reserved name rest

-- The memory that the sandboxes of a profile hold.
unfoldable pub reserved_memory_gib : Text → Ledger → ℕ
reserved_memory_gib profile [] = 0
reserved_memory_gib profile ((n, held) ∷ rest) =
    let below = reserved_memory_gib profile rest in
    if text_eq held profile then sandbox_memory_gib + below else below

unfoldable pub admit_sandbox : Text → Ledger → Bool
admit_sandbox profile reserved =
    leb (reserved_memory_gib profile reserved + sandbox_memory_gib) sandbox_budget_gib

-- The profiles that are up, and what they take.
unfoldable pub running_names : List ProfileInstance → List Text
running_names [] = []
running_names (i ∷ rest) =
    let below = running_names rest in if i.is_running then i.name ∷ below else below

unfoldable pub running_cpus : List ProfileInstance → ℕ
running_cpus [] = 0
running_cpus (i ∷ rest) =
    let below = running_cpus rest in if i.is_running then i.cpus + below else below

unfoldable pub running_memory : List ProfileInstance → ℕ
running_memory [] = 0
running_memory (i ∷ rest) =
    let below = running_memory rest in if i.is_running then i.memory + below else below

-- How many profiles the ledger adds to those that are counted: the loop over the reservations.
unfoldable pub added_profiles : Text → List Text → Ledger → ℕ
added_profiles profile counted [] = 0
added_profiles profile counted ((n, held) ∷ rest) =
    let skipped = added_profiles profile counted rest in
    let added = suc (added_profiles profile (held ∷ counted) rest) in
    if is_member held counted || text_eq held profile then skipped else added

-- `admitProfile`; a profile that is up is admitted before anything is summed.
unfoldable pub admit_profile : List ProfileInstance → Text → ℕ → ℕ → Ledger → Bool
admit_profile instances profile host_cpus host_memory reserved =
    let added = added_profiles profile (running_names instances) reserved in
    if is_member profile (running_names instances)
    then true
    else leb (running_cpus instances + added * profile_cpus + profile_cpus) host_cpus
      && leb (running_memory instances + added * profile_memory + profile_memory) host_memory

-- `Reserve`, behind the two probes, and the release that it returns.
unfoldable pub reserve : List ProfileInstance → ℕ → ℕ → Text → Text → Ledger → Ledger × Bool
reserve instances host_cpus host_memory name profile reserved =
    if is_reserved name reserved
      || not (admit_sandbox profile reserved)
      || not (admit_profile instances profile host_cpus host_memory reserved)
    then (reserved, false)
    else ((name, profile) ∷ reserved, true)

unfoldable pub release : Text → Ledger → Ledger
release name [] = []
release name ((n, profile) ∷ rest) =
    let below = release name rest in if text_eq n name then below else (n, profile) ∷ below

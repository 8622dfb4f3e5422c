-- ===== src/Agent/Settings.antt =====
-- internal/domain/agent/agent_settings.go and repository_settings.go: the agents of the roles, and
-- what a repository sets over them. A map is the list of its entries, one for each role; `Validate`
-- visits them in some order, here the list's.
use donsy.Prelude.{
  ℕ, ◌+◌, ◌≡◌, refl, ◌↔◌, true, false, not, Option, none, some, List, [], ◌∷◌, arith, Option-cases,
  inl, inr, if◌then◌else◌,
}
use donsy.Prelude.Int.{ℤ, pos, ltb_ℤ}
use donsy.Text.{Text, is_empty}
use donsy.Text.Equality.{text_eq_iff}
use donsy.Errors.{
  Result, ok, err, unconfigured_role, invalid_role, agent_required, negative_max_rounds, is_ok,
}
use donsy.Agent.{AgentRole, role_eq, roles, is_agent_role}

pub record AgentProfile : Type 0 where
  pub agent : Text
  pub variant : Text
  pub max_rounds : ℤ

-- `AgentSettings` and `RepositorySettings`, which have the same fields.
pub record AgentSettings : Type 0 where
  pub setup_script : Text
  pub profiles : List (AgentRole × AgentProfile)

unfoldable pub find_profile : AgentRole → List (AgentRole × AgentProfile) → Option AgentProfile
find_profile role [] = none
find_profile role ((r, p) ∷ rest) =
    let below = find_profile role rest in if role_eq r role then some p else below

unfoldable pub drop_role :
    AgentRole → List (AgentRole × AgentProfile) → List (AgentRole × AgentProfile)
drop_role role [] = []
drop_role role ((r, p) ∷ rest) =
    let below = drop_role role rest in if role_eq r role then below else (r, p) ∷ below

-- The loop that writes the repository's roles over the merged ones.
unfoldable pub write_roles :
    List (AgentRole × AgentProfile)
    → List (AgentRole × AgentProfile)
    → List (AgentRole × AgentProfile)
write_roles merged [] = merged
write_roles merged ((r, p) ∷ rest) = (r, p) ∷ drop_role r (write_roles merged rest)

unfoldable pub override : AgentSettings → AgentSettings → AgentSettings
override s repo = record {
  setup_script = if is_empty repo.setup_script then s.setup_script else repo.setup_script;
  profiles = write_roles s.profiles repo.profiles;
}

unfoldable pub profile_of : Option AgentProfile → Result AgentProfile
profile_of none = err unconfigured_role
profile_of (some p) = if is_empty p.agent then err unconfigured_role else ok p

-- `Profile`.
unfoldable pub profile : AgentRole → AgentSettings → Result AgentProfile
profile role s = profile_of (find_profile role s.profiles)

unfoldable pub count_configured : List AgentRole → AgentSettings → ℕ
count_configured [] s = 0
count_configured (role ∷ rest) s =
    let below = count_configured rest s in if is_ok (profile role s) then 1 + below else below

unfoldable pub configured_roles : AgentSettings → ℕ
configured_roles s = count_configured roles s

-- `Validate` of both types.
unfoldable pub validate_profiles : List (AgentRole × AgentProfile) → Result (Unit {0})
validate_profiles [] = ok tt
validate_profiles ((role, p) ∷ rest) =
    let below = validate_profiles rest in
    if not (is_agent_role role)
    then err invalid_role
    else if is_empty p.agent
    then err agent_required
    else if ltb_ℤ p.max_rounds (pos 0)
    then err negative_max_rounds
    else below

pub role_eq_iff : (a b : AgentRole) → (role_eq a b ≡ true) ↔ (a ≡ b)
unfolding role_eq
role_eq_iff (AgentRole.unknown s) (AgentRole.unknown t) = ground (arith, text_eq_iff s t)
role_eq_iff _ _ = ground arith

find_profile-drop_role :
    (role other : AgentRole) (l : List (AgentRole × AgentProfile))
    → find_profile role (drop_role other l)
      ≡ (if role_eq other role then none else find_profile role l)
unfolding find_profile drop_role
find_profile-drop_role role other [] = ground arith
find_profile-drop_role role other ((r, p) ∷ rest) = ground (
  arith,
  find_profile-drop_role role other rest,
  role_eq_iff r role,
  role_eq_iff other role,
  role_eq_iff r other,
)

pub find_profile-write_roles :
    (role : AgentRole) (merged l : List (AgentRole × AgentProfile))
    → find_profile role (write_roles merged l)
      ≡ elim (find_profile role l) [ some p ↦ some p | none ↦ find_profile role merged ]
unfolding find_profile write_roles
find_profile-write_roles role merged [] = refl
find_profile-write_roles role merged ((r, p) ∷ rest) = ground (
  arith,
  find_profile-write_roles role merged rest,
  find_profile-drop_role role r (write_roles merged rest),
)

validate-drop_role :
    (role : AgentRole) (l : List (AgentRole × AgentProfile))
    → validate_profiles l ≡ ok tt
    → validate_profiles (drop_role role l) ≡ ok tt
unfolding validate_profiles drop_role
validate-drop_role role [] h = refl
validate-drop_role role ((r, p) ∷ rest) h = ground (arith, validate-drop_role role rest)

validate-write_roles :
    (merged l : List (AgentRole × AgentProfile))
    → validate_profiles merged ≡ ok tt
    → validate_profiles l ≡ ok tt
    → validate_profiles (write_roles merged l) ≡ ok tt
unfolding validate_profiles write_roles
validate-write_roles merged [] h k = h
validate-write_roles merged ((r, p) ∷ rest) h k =
    ground (arith, validate-write_roles merged rest, validate-drop_role r (write_roles merged rest))

found_is_runnable :
    (role : AgentRole) (l : List (AgentRole × AgentProfile)) (p : AgentProfile)
    → validate_profiles l ≡ ok tt
    → find_profile role l ≡ some p
    → is_empty p.agent ≡ false
unfolding validate_profiles find_profile
found_is_runnable role [] p h f = cc
found_is_runnable role ((r, q) ∷ rest) p h f = ground (arith, found_is_runnable role rest p)

-- Over valid settings of a project and of a repository, the overridden settings are valid, and give
-- each role the profile of the repository if it has one, and the project's otherwise.
pub profile-override :
    (role : AgentRole) (s repo : AgentSettings)
    → validate_profiles s.profiles ≡ ok tt
    → validate_profiles repo.profiles ≡ ok tt
    → (validate_profiles (override s repo).profiles ≡ ok tt)
      × (profile role (override s repo)
          ≡ elim (find_profile role repo.profiles) [ some p ↦ ok p | none ↦ profile role s ])
unfolding override profile profile_of
profile-override role s repo h k = (
  validate-write_roles s.profiles repo.profiles h k,
  elim (Option-cases (find_profile role repo.profiles)) [
    | inl n ↦ ground (arith, find_profile-write_roles role s.profiles repo.profiles)
    | inr (p, f) ↦ ground (
      arith,
      find_profile-write_roles role s.profiles repo.profiles,
      found_is_runnable role repo.profiles p k f,
    )
  ],
)

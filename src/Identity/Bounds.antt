-- ===== src/Identity/Bounds.antt =====
-- How long the name of a sandbox is.
use donsy.Prelude.{
  ℕ, zero, suc, ◌+◌, ◌-◌, ◌≤◌, ◌≡◌, refl, ap, ◌∙◌, true, [], ◌∷◌, ◌++◌, map, length, length-append,
  ltb, arith, if◌then◌else◌,
}
use donsy.Text.{Text}
use donsy.Slug.{take, hyphen}
use donsy.Agent
use donsy.Agent.{AgentRole, is_agent_role}
use donsy.Identity.{
  max_sandbox_name_length, role_text, trim_left_hyphens, trim_right_hyphens, trim_hyphens,
  name_character, sandbox_name_slug, identity, name_head, name_tail, subject_sandbox_name,
}

length-trim_left_hyphens : (s : Text) → length (trim_left_hyphens s) ≤ length s
unfolding trim_left_hyphens
length-trim_left_hyphens [] = omega arith
length-trim_left_hyphens (c ∷ s) = ground (arith, length-trim_left_hyphens s)

length-trim_right_hyphens : (s : Text) → length (trim_right_hyphens s) ≤ length s
unfolding trim_right_hyphens
length-trim_right_hyphens [] = omega arith
length-trim_right_hyphens (c ∷ s) = ground (arith, length-trim_right_hyphens s)

length-trim_hyphens : (s : Text) → length (trim_hyphens s) ≤ length s
unfolding trim_hyphens
length-trim_hyphens s =
    omega (arith, length-trim_right_hyphens (trim_left_hyphens s), length-trim_left_hyphens s)

length-map : (f : ℕ → ℕ) (s : Text) → length (map f s) ≡ length s
length-map f [] = refl
length-map f (c ∷ s) = ap suc (length-map f s)

length-take : (n : ℕ) (s : Text) → length (take n s) ≤ n
length-take zero s = omega arith
length-take (suc n) [] = omega arith
length-take (suc n) (c ∷ s) = omega (arith, length-take n s)

length-role_text : (role : AgentRole) → is_agent_role role ≡ true → length (role_text role) ≤ 14
unfolding role_text is_agent_role Agent.role_eq
length-role_text Agent.refiner h = omega arith
length-role_text Agent.issue_reviewer h = omega arith
length-role_text Agent.coding h = omega arith
length-role_text Agent.pr_reviewer h = omega arith
length-role_text Agent.merge h = omega arith
length-role_text (AgentRole.unknown s) h = absurd (ground arith)

le_trans : {a b c : ℕ} → a ≤ b → b ≤ c → a ≤ c
le_trans h k = omega (arith, h, k)

module _ (shown : ℕ → Text) (digest : Text → Text) (lower : ℕ → ℕ) where
  length-sandbox_name_slug : (s : Text) → length (sandbox_name_slug shown digest lower s) ≤ length s
  unfolding sandbox_name_slug
  length-sandbox_name_slug s = omega (
    arith,
    length-trim_hyphens (map (λ c. name_character (lower c)) s),
    length-map (λ c. name_character (lower c)) s,
  )

  cut_fits :
      (budget : ℕ) (s : Text) → length (if ltb budget (length s) then take budget s else s) ≤ budget
  cut_fits budget s = ground (arith, length-take budget s)

  length-name_head :
      (project : ℕ)
      → length (shown project) ≤ 20
      → length (name_head shown digest lower project) ≤ 24
  length-name_head project h = omega (arith, length-append (shown project) (hyphen ∷ []))

  length-name_tail :
      (project : ℕ) (subject : Text) (role : AgentRole)
      → length (digest (identity shown digest lower project subject role)) ≡ 8
      → is_agent_role role ≡ true
      → length (name_tail shown digest lower project subject role) ≤ 24
  length-name_tail project subject role b c = omega (
    arith,
    length-append (sandbox_name_slug shown digest lower (role_text role))
        (hyphen ∷ digest (identity shown digest lower project subject role)),
    length-sandbox_name_slug (role_text role),
    length-role_text role c,
  )

  joined_le :
      (n : ℕ) (head tail slug : Text)
      → length head + length tail ≤ n
      → length (
          head
          ++ (if ltb (n - length head - length tail) (length slug)
              then take (n - length head - length tail) slug
              else slug)
          ++ tail)
        ≤ n
  joined_le n head tail slug h =
      let budget = n - length head - length tail in
      let part : Text = if ltb budget (length slug) then take budget slug else slug in
      let whole : length (head ++ part ++ tail) ≡ length head + length part + length tail =
        length-append (head ++ part) tail ∙ ap (λ k. k + length tail) (length-append head part) in
      let fits : length part ≤ budget = cut_fits budget slug in
      let all_of : length head + length part + length tail ≤ n = omega (arith, fits) in
      omega (arith, whole, all_of)

  -- If the identifier of the project has at most twenty decimals, the digest has eight characters,
  -- and the role is one of the five, then the name of the sandbox has at most 63 characters.
  pub subject_sandbox_name_le :
      (project : ℕ) (subject : Text) (role : AgentRole)
      → length (shown project) ≤ 20
      → length (digest (identity shown digest lower project subject role)) ≡ 8
      → is_agent_role role ≡ true
      → length (subject_sandbox_name shown digest lower project subject role)
        ≤ max_sandbox_name_length
  unfolding subject_sandbox_name
  subject_sandbox_name_le project subject role a b c =
      let head = name_head shown digest lower project in
      let tail = name_tail shown digest lower project subject role in
      let slug = sandbox_name_slug shown digest lower subject in
      let part : Text =
        if ltb (max_sandbox_name_length - length head - length tail) (length slug)
        then take (max_sandbox_name_length - length head - length tail) slug
        else slug in
      let room : length head + length tail ≤ max_sandbox_name_length =
        omega (arith, length-name_head project a, length-name_tail project subject role b c) in
      le_trans (length-trim_hyphens (head ++ part ++ tail))
        (joined_le max_sandbox_name_length head tail slug room)

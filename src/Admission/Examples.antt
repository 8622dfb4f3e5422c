-- ===== src/Admission/Examples.antt =====
-- A host with room for two profiles, where three projects ask.
use donsy.Prelude.{◌≡◌, refl, true, false, List, [], ◌∷◌, ◌*◌, ◌^◌}
use donsy.Text.{codes, text_eq}
use donsy.Admission.{
  ProfileInstance, reserve, is_reserved, admit_sandbox, admit_profile, reserved_memory_gib,
  running_names, running_cpus, running_memory, added_profiles, is_member,
}
use donsy.Admission.Budget.{
  Operation, reserves, releases, perform_all, IsWithin, reservations-IsWithin,
}

abbrev instances : List ProfileInstance
instances = record { name = codes "other"; is_running = true; cpus = 2; memory = 2 ^ 30 } ∷ []

abbrev operations : List Operation
operations =
    reserves (codes "s4") (codes "p3")
    ∷ reserves (codes "s3") (codes "p2")
    ∷ releases (codes "s2")
    ∷ reserves (codes "s2") (codes "p1")
    ∷ reserves (codes "s1") (codes "p1")
    ∷ []

third_is_refused :
    (reserve instances 10
      (32 * 2 ^ 30)
      (codes "s4")
      (codes "p3")
      ((codes "s3", codes "p2") ∷ (codes "s1", codes "p1") ∷ [])).1
    ≡ false
unfolding reserve is_reserved admit_sandbox admit_profile reserved_memory_gib running_names
    running_cpus running_memory added_profiles is_member text_eq
third_is_refused = refl

reservations-IsWithin_example :
    IsWithin instances 10 (32 * 2 ^ 30) (perform_all instances 10 (32 * 2 ^ 30) operations)
reservations-IsWithin_example = reservations-IsWithin instances 10 (32 * 2 ^ 30) operations

-- ===== src/Agent/Examples.antt =====
-- Runs and sandboxes of one subject, and the theorems at them.
use donsy.Prelude.{ℕ, ◌≡◌, refl, none, List, [], ◌∷◌}
use donsy.Prelude.Int.{pos}
use donsy.Text.{codes}
use donsy.Epic.Issue.{Time}
use donsy.Agent.{
  coding, open_code, AgentSubjectKind, AgentRun, AgentRunStatus, AgentRunEvent, fresh, Sandbox,
  SandboxStatus, SandboxEvent, stop, delete, merge, is_agent_role,
}
use donsy.Errors.{ok}
use donsy.Agent.Settings.{AgentProfile, AgentSettings, validate_profiles}

abbrev run_with : AgentRunStatus → ℕ → AgentRun
run_with status round = record {
  id = codes "r1";
  project_id = 4;
  sandbox_id = codes "s1";
  role = coding;
  subject = record { kind = AgentSubjectKind.issue; id = codes "A" };
  engine = open_code;
  agent = codes "build";
  variant = [];
  session_mode = fresh;
  status = status;
  round = pos round;
  error = [];
  created_at = 1;
  started_at = none;
  finished_at = none;
}

abbrev one_life : List (AgentRunEvent × Time)
one_life =
    (AgentRunEvent.admit, 2)
    ∷ (AgentRunEvent.succeed, 3)
    ∷ (AgentRunEvent.start, 4)
    ∷ (AgentRunEvent.succeed, 5)
    ∷ (AgentRunEvent.stall, 6)
    ∷ []

abbrev up : Sandbox
up = record {
  id = codes "s1";
  project_id = 4;
  name = codes "donsy-4-coding-A";
  role = coding;
  subject = record { kind = AgentSubjectKind.issue; id = codes "A" };
  status = SandboxStatus.running;
  created_at = 1;
  updated_at = 1;
}

abbrev teardown : List SandboxEvent
teardown = delete ∷ stop ∷ SandboxEvent.stopped ∷ delete ∷ []

abbrev profile_with : ℕ → AgentProfile
profile_with n = record { agent = codes "openai/gpt"; variant = []; max_rounds = pos n }

abbrev project_settings : AgentSettings
project_settings = record {
  setup_script = [];
  profiles = (coding, profile_with 4) ∷ (merge, profile_with 2) ∷ [];
}

abbrev repository_settings : AgentSettings
repository_settings = record {
  setup_script = codes "setup.sh";
  profiles = (coding, profile_with 7) ∷ [];
}

project_settings_hold : validate_profiles project_settings.profiles ≡ ok tt
unfolding validate_profiles is_agent_role
project_settings_hold = refl

repository_settings_hold : validate_profiles repository_settings.profiles ≡ ok tt
unfolding validate_profiles is_agent_role
repository_settings_hold = refl

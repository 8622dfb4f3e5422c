-- ===== src/Epic/Validation/Examples.antt =====
-- Valid epics, and the theorems at them.
use donsy.Prelude.{◌≡◌, refl, All}
use donsy.Errors.{ok}
use donsy.Epic.Sample.{sample_epic}
use donsy.Epic.Validation.{validate_epic}
use donsy.Epic.Validation.Creation.{SoundIssue, SoundRecord, validate_epic_sound}

sample_epic_validates : validate_epic 4 sample_epic ≡ ok tt
unfolding validate_epic
sample_epic_validates = refl

validate_epic_sound_example :
    All (SoundIssue sample_epic.issues) sample_epic.issues
    × All (SoundRecord sample_epic.issues) sample_epic.pull_requests
validate_epic_sound_example = validate_epic_sound 4 sample_epic sample_epic_validates

-- ===== src/Epic.antt =====
-- internal/domain/epic: the epic aggregate, a module for each file or group of functions.
pub mod State
pub mod Issue
pub mod PullRequest
pub mod Rounds
pub mod Aggregate
pub mod Work
pub mod Closing
pub mod Sample
pub mod Validation

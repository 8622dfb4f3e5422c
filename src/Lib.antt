-- ===== src/Lib.antt =====
-- donsy drives agents through the life of an epic: an epic is drafted by a refiner and a reviewer,
-- turns into a tree of issues, and each issue into a pull request that is coded and reviewed in
-- rounds until a human merges it. This library models the domain of that program, the
-- scheduler that runs the rounds, and what a round does to its run, its sandbox and its epic.
--
-- The parts, and the files that model them:
--   * Epic.State: the state machine of an epic, the drafting passes and the moves that are offered
--     (internal/domain/epic/epic_state.go). `Apply`, `ForceState`, `TransitionTo` and
--     `RecordDraftingPass` work on the record Progress, the two fields of the epic that they use.
--   * Epic.Issue: issues, their states and comments (issue.go, issue_state.go and comment.go there).
--   * Epic.PullRequest: the record of a pull request, its status and its flags (pull_request.go,
--     pull_request_status.go, pull_request_state.go and pull_request_flag.go).
--   * Epic.Rounds: the counters of rounds, the limit on coding rounds, verdicts, `Validate` and
--     `CreatePullRequest` (pull_request.go).
--   * Epic.Aggregate: the epic with its issues and pull requests, and the operations on the epic and
--     its issues (epic.go).
--   * Epic.Work: outcomes, updates and comments of pull requests, and `Blocked` and `Delivered`
--     (epic.go and epic_progress.go).
--   * Epic.Closing: `CloseIssue` and `Close`, the walk down the tree (epic.go).
--   * Epic.Validation: `Epic.Validate`, `validateBlockedBy`, `waitsAcyclic` and `CreateEpic` (epic.go
--     and epic_progress.go).
--   * Slug: `Slug` and `SlugMax` (internal/domain/slug.go), which name branches.
--   * Agent: roles, sessions, sandboxes and runs (internal/domain/agent/agent.go), and in
--     Agent.Settings the settings of agents (agent_settings.go and repository_settings.go there).
--   * Workflow: `IssueRole`, `epicRole`, `eligibleSubjects`, `TerminalSubjects`, `nextRound` and
--     `stallLiveRuns` (internal/application/usecases).
--   * Round: a round of an agent from the record of its run to the stop of its sandbox
--     (internal/application/usecases/agent_round.go), and in Round.Supervisor the cancellation of
--     rounds (run_supervisor.go).
--   * PushGate: `EvaluatePushGate` (internal/application/usecases/push_gate.go).
--   * Completion: what a round on an issue publishes and records when the agent has answered
--     (internal/application/usecases/run_issue_agent.go, `complete` and what it calls), and in
--     Completion.Drafting what a round on an epic records (run_epic_agent.go, `completeEpicRun` and
--     `failEpicForRoundLimit`), and in Completion.Conversation what of a thread a round is shown.
--   * Admission: which rounds the host has room for (internal/adapters/colima/capacity.go).
--   * Worker: the scheduler of rounds (internal/application/usecases/epic_worker.go). Worker.Keys has
--     the maps by subject, Worker.Steps what the scheduler and the rounds beside it do in any order,
--     Worker.Tick one tick over the projects and their epics, and Worker.Tick.Turns the list of the
--     rounds that a tick asks for.
--   * Reconcile: a pass over the sandboxes of a project (reconcile_sandboxes.go there): one sandbox in
--     Reconcile, the machine in Reconcile.Host, the whole in Reconcile.Handle.
--   * Landing: the use cases that work on branches outside a round: `MergePullRequestUseCase` in
--     Landing, `ReviewApprovedBranchesUseCase` in Landing.Grouping and Landing.Sweep,
--     `OpenPullRequestsUseCase` in Landing.Opening, `GrantCodingRoundUseCase` and
--     `CompleteEpicUseCase` in Landing.Retrying.
--   * Disposal: what is removed when work is over: the branches of a close in Disposal, and the
--     handlers of purge_finished_work.go, forget_project.go, cancel_agent_run.go and reset_issue.go
--     there in Disposal.Purging, Disposal.Forgetting, Disposal.Cancelling and Disposal.Resetting.
--   * Identity: the sandbox of a role (epic_sandbox.go there), whose spec and its validation
--     are in Handler.Specs.
--   * Handler: the handlers of a round (run_issue_agent.go and run_epic_agent.go there) as a whole, in
--     Handler.Issue and Handler.Drafting, over Round and Completion, with the mounts of the sandbox in
--     Handler.Mounts and the reports of failures in Handler.
--   * RepositoryPath: `Encode` and `Decode` (internal/repositorypath/repository_path.go).
--   * Prelude, Text and Errors: numbers and lists, strings and Go's errors. Epic.Sample holds the
--     epic that the examples share.
--
-- How code is modelled. A Go string type with constants is a data type with one constructor for each
-- constant and `unknown` for any other text. A function that returns `(T, error)` gives a Result. A
-- method with a pointer receiver gives an Outcome: the receiver as the method leaves it, beside its
-- error, since what is written before an error stays written. An `int` is ℤ with 64-bit wrap-around
-- in each addition (Prelude.Int), and theorems say where they need room below the overflow. A string
-- is the list of its code points, and a valid UTF-8 text. Times are nanoseconds since the zero time.
-- Identifiers and times that the code draws from `MintULID` and the clock are arguments, and the
-- registry's save in `stallLiveRuns` is a function argument. A map from identifiers that the code
-- builds and only reads is a search in the list that it is built from; a map that is returned is the
-- list of the writes to it. A use case over the workspace of the code or over the sandboxes gives the
-- list of the calls that it makes, in their order, beside what it stores.
--
-- Fuel. `CloseIssue` walks the tree without a bound in the code; here the walk takes fuel, and an
-- error of its own stands for a walk that has none left. Where the tree has a rank that falls from
-- every parent to its child, fuel above the rank of the start is enough. The walks of `Validate` take
-- fuel in the same way: two steps are enough for the epic that `CreateEpic` makes, and the library
-- has no general bound for them; what is said of an epic that is accepted holds with any fuel.
--
-- What is not modelled: the rest of the adapters, for Colima, OpenCode, GitHub, git workspaces and the
-- file store, the HTTP interface, the prompts and the command, which are input and output or call
-- other programs; the use cases that load an epic, call one method of the domain and save it;
-- `TickAndWait`, and the watch for silence, whose verdict is an answer of the host; `Sort`, `RunUsage`
-- with its float, and the smaller aggregates of projects, repositories, owners and organisations.
pub mod Prelude
pub mod Text
pub mod Errors
pub mod Epic
pub mod Slug
pub mod Agent
pub mod Workflow
pub mod PushGate
pub mod Completion
pub mod Admission
pub mod Round
pub mod Disposal
pub mod Handler
pub mod Identity
pub mod Landing
pub mod Reconcile
pub mod Worker
pub mod RepositoryPath

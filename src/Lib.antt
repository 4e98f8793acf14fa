-- ===== src/Lib.antt =====
-- Verification of the core of ops_terminator: an agent proposes tool calls for a host, a policy
-- engine grades each call, a human decides the calls that need an approval, and what is left runs.
--
-- The parts, and the files that model them (Go paths from the repository's root):
--
-- Policy, of internal/policy/engine.go.
--   Policy/Segments  `splitShellSegments`; the loop over the bytes with its scan state.
--   Policy/Words     `splitShellWords`, `assignmentPattern` and `extractCommand`.
--   Policy/Redirect  `hasWriteRedirect`.
--   Policy/Commands  the tables of commands, `isReadOnlyCommand`, `isDestructiveCommand` and the
--     other tests on a command and its arguments.
--   Policy/Assess    `assessShellCommand`: each early return, each loop.
--   Policy/Rules     `DefaultRuleConfigs`, `normalizeRuleConfigs`, `sortRuleConfigs`.
--   Policy/Engine    `New`, `RuleConfigs`, `UpdateRules`, `Check`, `checkRunShell`, `newPolicyRule`.
--   A command is a list of bytes, as in Go. `strings.TrimSpace`, `ToLower`, `EqualFold`, `Contains`
--   and `HasPrefix` stand in Base/Text; `ToLower` and `EqualFold` know ASCII and the two other runes
--   that fold to ASCII letters, which is all that a comparison with an ASCII constant can tell.
--
-- Builtin, of internal/builtin/registry.go: `shellQuote`, which the tools put their arguments with;
--   the policy's scanners read what it writes. Builtin/Tools: the `Preview` of each tool,
--   with the decoding of JSON as a parameter, and `validateShellCommand`. Builtin/Registry: the tools
--   of `NewRegistry` and `Registry.Preview`.
--
-- Store, of internal/store/json_store.go: `saveObject`, `getObject`, `listObjects` and
--   `deleteObject`. A directory is a list of ids and values, in the order of the paths; which files
--   the operating system refuses is a parameter, `Disk`. The coding to JSON is not modelled: a file
--   holds the value that was written.
--
-- Approval, of internal/approval/manager.go.
--   Approval/State    the state: the stores, the events, the manager's map of pending batches and
--     how often the clock was read; `normalizeDecision`, `listBatchApprovals`,
--     `markBatchIfComplete`. A closed channel is a field.
--   Approval/Wait     `WaitBatch`, cut where other goroutines can run: up to the lock
--     (`open_batch`), under it (`register_batch`), and the two ends of the `select`.
--   Approval/Resolve  `Resolve`.
--   The clock is a function from the count of its readings; `Resolve` uses the store, and the
--   agent's loop waits for the batch.
--
-- Agent, of internal/agent/runtime.go and internal/agent/memory.go.
--   Agent/Plan      the planning of a response's tool calls in `Execute`: `Registry.Preview` is a
--     parameter, `Check` is the engine above, the approvals are what `WaitBatch` returns.
--   Agent/Truncate  `truncateMiddle` and `formatToolHistoryEntry`.
--   Agent/Memory    `selectRecentTurns` and `selectTurnsToCompact`.
--   Agent/Settings  `normalizeRuntimeSettings`; an `int` may be negative.
--   Agent/Stream    `boundedStreamSink`, its map of kinds explicit.
--
-- Events, of internal/events/hub.go: `Subscribe`, its cancel function and `Emit`. A channel is its
--   buffer of at most 128 events, and whether it is closed is whether it is still in the map.
--
-- Store/Log, of internal/store/json_store.go: `AppendEvent`, `ListEventsByRun` and `AppendAudit`;
--   what the line scanner takes is a parameter.
--
-- Gateway, of internal/gateway/service.go and internal/gateway/automation.go, with
--   internal/context/builder.go. An operation takes a state, the tables of the store and the hub,
--   and returns the state behind it with a result; the clock is read as in Approval.
--   Gateway/Service     the state, and the reads and writes that the handlers share; `RecordEvent`.
--   Gateway/Context     `Build` and `EnsureHostProfile`; skills, summaries and the probe are parameters.
--   Gateway/Runs        `CreateRun` and what it calls; the knowledge that is selected is a parameter.
--   Gateway/Process     `processRun`, cut where `Execute` runs: `Execute`, and what other handlers do
--     meanwhile, is a function on the state. Gateway/Capture: `captureKnowledgeCandidate`.
--   Gateway/Zero        the zero values of records.
--   Gateway/Config      the presets of the chat service: validation, update and view.
--   Gateway/Metrics     the metrics and conditions of automations; floating-point numbers are their bits,
--     and the operations on them parameters, as the executor of commands is.
--   Gateway/Automation  `runAutomationCycle`; Gateway/Rules the handlers of the rules.
--   Gateway/Hosts       hosts, the mode of a session and the operator's profile.
--   Gateway/Knowledge   `SaveKnowledge` and `SelectKnowledge`.
--
-- Models holds the records of internal/models/types.go that these use, and `NewID` of
-- internal/models/id.go; Base the shared names, tests, results, list predicates and texts.
--
-- All loops are structural recursion on bytes or lists, but for two: the sort of the rules runs one
-- round for each item, which its result covers, and the decimal digits of a number run on the number
-- plus one as fuel, which is more than it has digits.
--
-- Not modelled: the listings and views of internal/gateway and its HTTP handlers, the execution of
-- the builtin tools, internal/llm, internal/runner, internal/config, internal/skills, internal/web
-- and cmd/osagent, which are input and output around this core or are left for later; the
-- dashboard's cache; the locks, but for the order of operations that they give; and the rounds of
-- `Execute` with their messages.
pub mod Base
pub mod Models
pub mod Policy
pub mod Builtin
pub mod Store
pub mod Approval
pub mod Agent
pub mod Events
pub mod Gateway
mod Examples

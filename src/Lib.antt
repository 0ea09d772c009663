-- ===== src/Lib.antt =====
-- Models of the Go program falken-core: what it lets an agent do, and the state that it keeps of the
-- agent's work. Paths are from the repository's root.
--
-- Parts, and the files that model them:
-- - The policy engine, internal/policy/policy.go. Policy/Rules: its types. Policy/Match: how a rule
--   compares its target to a request (matchesFileRule, matchesShellRule, matchesNetworkRule and what
--   they call). Policy/Engine: Engine with NewEngine, EvaluateFile, EvaluateShell, EvaluateNetwork,
--   the apply functions and the persister. An evaluation is a verdict under the lock, a call of the
--   handler outside it, and a second critical section, `settle`. Policy/History: the critical sections
--   as events, `step` and `run` over their order. Policy/Permits, Policy/Failures and Policy/Project:
--   laws of the evaluations.
-- - The policy in front of the tools, internal/policy/runtime/runtime.go. Policy/Runtime: the evaluator,
--   which joins the engine with the detection of shell writes.
-- - The modes of the agent, internal/agent/mode.go. Agent/Mode: what each mode offers of the tools that
--   internal/extensions declares. Agent/Mode/State: EnterPlan and ExitPlan over the store of the plan.
-- - The detection of shell commands that write files, internal/policy/commands. Commands/Syntax: words
--   and nodes of a parsed command. Commands/Tee: types.go. Commands/Detect: shellwrite.go.
--   Commands/Writes: what it is that a command writes.
-- - The state of a conversation, internal/conversation with the types of internal/store.
--   Conversation/Todos: todos.go. Conversation/Evidence: command_evidence.go. Conversation/Memory:
--   memory.go. Conversation/Plan: plan_validation.go. Conversation/State: state.go, which calls the
--   others over the store's backends.
-- - The capture of command output. Output: outputCollector of internal/runtimeexec/output.go.
--   Output/Streams: the three collectors of a command, which the stream writers of executor.go feed.
-- - Files and their changes, internal/files. Files/Types: requests, results and statuses. Files/Lines:
--   splitLines of read.go and splitPatchTextLines of patch.go, one function. Files/Patch: patch.go, its
--   parser in Files/Patch/Tokens, Headers and Parse, and applyPatchHunks in Files/Patch/Hunks. Files/Edit:
--   applyExactEdit of edit.go with its close matches.
-- - The managed file service of internal/files over a system of files. Files/System: the record of the
--   calls of the operating system (managed_file_unix.go) and of the workspace's paths, on a state of the
--   disk, with the laws `IsReliable` of these calls and the turn that other processes take, `others`: one
--   before the token is checked again and one between that and the commit or the unlink. Files/Tokens:
--   tokens.go. Files/Secrets: secrets.go. Files/Service: service.go and backup.go. Files/Read,
--   Files/Write and Files/Delete: the operations of read.go, write.go and delete.go.
-- - Base: Go's strings and int64, and lemmas on them. Path: filepath.Clean, which the policy calls.
-- - Tests: the theorems at concrete inputs.
--
-- Conventions. A string is the list of the code points of valid UTF-8, and `byte_length` its length
-- in bytes. strings.ToLower is exact where the upper-case letters are ASCII. Names follow the source
-- in snake case. Errors are values with what their messages are made of; the text of an error that the
-- file service wraps is left out. A Go slice or map that is
-- copied before use is the value itself. int64 sums wrap around at 2^63.
--
-- Parameters: the approval handler and the persister of the engine are functions that the host
-- supplies; the parser with its walk and the printer of mvdan.cc/sh are functions of the text and of
-- the word; the operating system's calls of the output collector are functions of their arguments;
-- the backends of a conversation act on an abstract world; strconv.Unquote and the distance of
-- github.com/agnivade/levenshtein are functions of texts; the file system, with the hash of a content
-- and the resolution of paths, is a record of functions.
--
-- Bounds: nested shell commands are followed to the depth 4 of the source, counted down by the number
-- of rounds that are left, so the recursion is structural. Printing a number in decimals runs on the
-- number itself as fuel, which has at least as many units as digits. The parser of patches has a unit of
-- fuel for every line, and every round of its loops takes one. Every other loop is a recursion on its
-- list.
--
-- Not modelled: the rendering of todos and memory for prompts and the wording of messages, which no
-- operation reads back; JSON and files behind the store's backends; the contents of an artifact after
-- a failed write; the sink of a stream writer, which is the host's; processes, model calls, sessions,
-- tools and extensions, which are input and output or pass calls on; the plan, the commit and the
-- rollback of patches and of several edits, search, and workspace paths.
pub mod Agent
pub mod Base
pub mod Commands
pub mod Conversation
pub mod Files
pub mod Output
pub mod Path
pub mod Policy
pub mod Tests

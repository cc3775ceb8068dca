-- ===== src/Lib.antt =====
-- Verification of Symphony, a service that polls a Linear project and runs a coding agent on each
-- issue that is ready, in a workspace of its own.
--
-- The parts. The command cmd/symphony loads the workflow file (internal/workflow), builds a
-- configuration from it (internal/config) and starts the orchestrator (internal/orchestrator), a
-- single goroutine that owns all scheduling state and handles one event after the other: ticks,
-- messages and exits of workers, retry timers, reloads. Each worker is a runner (internal/agent),
-- which drives the agent backend (internal/agent/claude) turn by turn in a directory that the
-- workspace manager (internal/workspace) makes and removes. The tracker client
-- (internal/tracker/linear) lists and refreshes issues; the tool linear_graphql
-- (internal/tools/lineargql) gives the agent one operation at a time, as countOperations counts them.
--
-- Base holds the shared names: Boolean tests, lists, integers over the native numbers, results.
-- Go models the parts of Go and of its standard library that the program computes with: 64-bit
-- integers with their wrap-around (Int64), strings as lists of bytes and their runes (Utf8, with
-- the case tables of Unicode 15.0 in CaseRange, LowerTable and FoldTable), the packages strings,
-- strconv, path/filepath (for Unix), time (the RFC 3339 form) and the readers of package os (Strings,
-- Ascii, Strconv, Filepath, Time, Os),
-- maps as association lists (Maps), the stable sort (Sort) and the values of `any` (Value).
--
-- Domain is internal/domain: Issue, Workspace, LiveSession, RetryEntry, Totals, NormalizeState, with
-- WorkspaceKey in Domain/Keys and the snapshot types of snapshot.go in Domain/Snapshot.
-- Logging is the bound on logged values of internal/logging.
--
-- Config is internal/config/config.go: the records, ValidateDispatch and the lookups by state;
-- Config/Coerce is coerce.go, Config/Build is New with parseStateOverrides, readPromptFile and
-- resolveWorkspaceRoot. Config/Lookups, Config/Sections and Config/Valid hold proofs. A section of
-- the front matter is a list of fields, in the order in which a range over the Go map yields them.
--
-- Orchestrator is internal/orchestrator, one function to the state for each handler: State
-- (state.go, and the struct of orchestrator.go), Timers (scheduleTick, scheduleRetry, the
-- back-off), Eligible (isEligible and its parts), Order (sortForDispatch), Dispatch (dispatchIssue
-- and the loop of onTick), Reconcile (reconcile.go and the cleanup at startup), Update
-- (onAgentUpdate), Retry (onWorkerExit, onRetryTimer, onReload), Snapshots (snapshot.go) and Loop
-- (New, Run, handle, shutdown). Env is what a handler is answered: one reading of the clock, the
-- tracker, the workspace, the factories; a run of the loop is a list of events, each with its own
-- Env, so every order of events and every answer is covered. What a handler does to the world
-- (starting workers, cancelling them, timers, cleanups) is appended to a list of effects. Claims,
-- Starts, Slots, Shape and Boot, and the children of the handlers' modules, hold proofs. Lifecycle is
-- the life of one issue as a step relation, which the loop refines; Progress is what a tick leaves the
-- candidates with; Settings says that only a reload changes the configuration. Queue is the events
-- channel with `post` and observe.go, and in Queue/Delivery the loop and its channel as a relation of
-- reachable systems, with every interleaving of sends and receptions.
--
-- Prompt is internal/prompt: buildBindings and Render of prompt.go and the passes of strict.go, with
-- Prompt/Scan for its regular expressions, each a function that matches at the start of a text, and
-- Prompt/Roots for variableRoots and rootsInValue. Prompt/Document writes templates of text and
-- outputs, for Prompt/Printed; Checked and Strict hold proofs. The Liquid engine is an argument.
--
-- Server is internal/httpserver: the handlers of server.go and handleRoot, from a request and the
-- provider's answers to a reply; Server/Detail is detail.go. Server/Tracked compares the replies with
-- the state of the orchestrator.
--
-- Watcher is internal/watcher: reload, and the loop of Run over the signals of fsnotify and its timer.
-- Service is cmd/symphony/main.go: the factories, resolvePort and run up to the loop. Mcp is
-- cmd/symphony-lineargql-mcp/main.go. Watcher/Posts, Service/Ready and Mcp/Replies hold proofs.
--
-- Runner is internal/agent/runner.go: NewRunner, buildTurnPrompt, mergeState, and in Runner/Turns
-- the turn loop and Run. Each call of a collaborator is an entry of a history, and an answer is a
-- function of the history before it, so a collaborator may answer in any way that depends on the
-- past. The loop runs on fuel: max_turns rounds, for each round is a turn. Runner/Calls and
-- Runner/Attempt hold proofs.
--
-- Workflow is internal/workflow/workflow.go: Load, Parse, splitFrontMatter and normalizeValue, with
-- the YAML decoder as an argument; the scanner stops at a line that does not fit its 10 MB buffer.
--
-- Workspace is internal/workspace/workspace.go: PathFor, CreateForIssue, RunHook, Cleanup,
-- AssertLaunchCWD, assertContained, over an operating system that is a parameter: a type of worlds
-- and functions on it for os.Stat, os.Mkdir, os.MkdirAll, os.RemoveAll and the shell of a hook.
-- Workspace/Place and Workspace/Inside hold proofs, with Go/Cleaned on what Clean leaves of a path.
--
-- Claude is internal/agent/claude: Command (the session, buildCommand, shellSingleQuote), Describe and
-- Parse (parse.go: the usage, the summaries, handleEvent), Turns (consume, whose select is a list
-- of choices, so every interleaving of lines, timers and cancellation is covered), Tail (tail.go) and
-- Session (RunTurn, over a record of what its subprocess answers; Resumed has its reports). A line is
-- the decoded value of its JSON.
--
-- Linear is internal/tracker/linear: Linear/Normalize is normalize.go and Linear/Client is
-- linear.go: New, the three fetches, the pagination and the mapping of
-- an HTTP exchange to an error. The pagination runs on fuel, since only the server ends it;
-- Linear/Pages has the servers that do.
--
-- LinearGraphql is internal/tools/lineargql: Parse is parse.go, where an index into the document is
-- the rest of the document and the loops run on fuel, for which the length of the document is
-- enough (LinearGraphql/Strip, and LinearGraphql/Rounds with the runs of the loops as relations);
-- Tool is ParseInput and Execute of tool.go, with the HTTP exchange and the JSON decoder as answers.
-- LinearGraphql/Document writes documents down, for LinearGraphql/Printed.
--
-- Witnesses holds the theorems at concrete inputs.
--
-- What is abstracted. Log records are left out. An event reads the clock once, and instants are
-- nanoseconds; the running time is summed exactly, where the code adds float64 seconds. Ranges over
-- Go maps have the order of the association list. sort.Slice may leave any order among equals; the
-- dispatch order is compared down to the identifier and sorted by the stable sort. In asIntStrict a
-- float64 beyond the range of `int` is refused, as on amd64. Contexts and cancellation are effects.
--
-- What is not modelled: the process, the pipes and the timers behind internal/agent/claude, the Liquid
-- engine, the YAML and JSON decoders and the HTTP transport, which are third parties' or input and
-- output; the listener and the HTML page of internal/httpserver, the terminal page of internal/status,
-- and the signals and the log of the commands, which are input and output.
mod Base
pub mod Go
pub mod Domain
pub mod Logging
pub mod Config
pub mod Orchestrator
pub mod Claude
pub mod Linear
pub mod Prompt
pub mod Runner
pub mod Server
pub mod LinearGraphql
pub mod Mcp
pub mod Workspace
pub mod Workflow
pub mod Watcher
pub mod Service
mod Witnesses

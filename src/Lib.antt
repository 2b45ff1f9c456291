-- ===== src/Lib.antt =====
-- Pan Agent: the Python workspace agent harness (workspace_agent_harness/).
--
-- A run of the harness takes a task, resolves its limits and its authority, and lets a model
-- act through authorized tools in a loop, which leaves a trace. A second, evented loop leaves
-- a hash chained log of events. The development follows these parts:
--
-- Limits models `_validate_limits`, `_validate_runtime_config` and `_resolve_limits` of
--   workspace_agent_harness/__init__.py. Limits are integers that may be negative until they are
--   validated. Limits/Bounds has the proofs.
-- Paths models `_resource_allowed`, `_validate_relative_workspace_path`, `_workspace_path` and
--   `_paths_overlap` of the same file. A text is a list of code points, an absolute path the
--   list of its components, and `Path.resolve` a function that is a parameter, so that every
--   arrangement of symbolic links is covered. Paths/Scopes and Paths/Confinement have the
--   proofs.
-- Authority models `CapabilityGrant`, `CapabilityRequirement` and `_resolve_authority`. Sets
--   of texts are ascending lists (Authority/Sets). Authority/Ceiling and Authority/Granting have
--   the proofs.
-- Tools models `_AuthorizedTool.execute` in front of `LocalWorkspaceWriteTool.execute`. The
--   write that the tool asks for is a value. Tools/Guarded has the proofs.
-- Trace models `_TraceWriter` and `load_trace`. A line of the file is the JSON value that it
--   encodes, or none where it does not parse. Trace/Written has the proofs.
-- Loop models `AgentLoop.run` and `_parse_action` (Loop/Actions). The model, the tools and the
--   clock are functions of a state of the world that they change. The loop runs on fuel, one
--   more than `max_model_calls`, which is enough since every round but the last counts one call
--   of the model. Loop/Parsing, Loop/Accounting, Loop/Budget, Loop/Recording and Loop/Recorded
--   have the proofs.
-- EventLog models `JsonlRunEventLog.append` and `load_run_event_log` of
--   workspace_agent_harness/evented.py, on the events and their tests of EventLog/Drafts. Events
--   stand newest first in memory, and the file holds them oldest first, one event for each line.
--   `_sha256_json` is a parameter. EventLog/Journal is what the log promises, with no hashes,
--   numbers and clocks: a journal of drafts, and when it admits one more. EventLog/Conditions,
--   EventLog/Tested and EventLog/Entries set the tests of the code against it. EventLog/Refined,
--   EventLog/Accepted, EventLog/Loaded, EventLog/Made, EventLog/Sound, EventLog/Replay,
--   EventLog/Refused and EventLog/Chain have the proofs.
--
-- Evented models the `AgentLoop` of workspace_agent_harness/evented.py, over EventLog: a part
--   of `run` is a function of the run's state that goes on with a value, returns the result of
--   the run, or is left by an error. Evented/Types has what the loop exchanges, Evented/Machine
--   the state, Evented/Admission the tests on candidates, Evented/Turn and Evented/Exchange the
--   projection and the exchange with its one retry, Evented/Batch the calls of tools,
--   Evented/Taking what is done with an answer. A tool is a tree of calls of the observer, so
--   that every way to call it and to treat its errors is covered. The turns run on fuel, one
--   more than `max_model_calls`. Evented/Tame is what the loop relies on in its projector and its
--   tools. Evented/Admitted, Evented/Keeps, Evented/Parts, Evented/Calls, Evented/Rounds,
--   Evented/Recorded, Evented/Counted, Evented/Ending, Evented/Costs, Evented/PartCosts,
--   Evented/CallCosts, Evented/Fits, Evented/Budget and Evented/Answered have the proofs. The
--   lemmas on the events of a run against the tests of the log are in Evented/Ordinary,
--   Evented/Accepting, Evented/Serves, Evented/Steps, Evented/Emits, Evented/Serving,
--   Evented/Compacting, Evented/Planning, Evented/Asking, Evented/Hearing, Evented/Executing and
--   Evented/Served.
--
-- Snapshots models `_fixture_content_digest`, `LocalFixtureWorkspace` and `_freeze_workspace`
--   of workspace_agent_harness/__init__.py. A directory that is written to is the list of its
--   files, and the entries of a directory come in the order of their paths. Snapshots/Framing,
--   Snapshots/Frozen, Snapshots/Trees, Snapshots/Staged and Snapshots/Referenced have the
--   proofs.
-- Runtime models `GeneralAgentRuntime.create` and `run` around Limits, Authority, Tools, Loop
--   and Snapshots. What the runtime calls outside is a host over a world (Runtime/Hosting).
--   Runtime/Types has its records, Runtime/Checks the tests before a run, Runtime/Packs the
--   registration of packs, Runtime/Prepare the part of `run` before anything is written,
--   Runtime/Evaluator the messages between the evaluator's process and its parent,
--   Runtime/Termination the signals that end the process, Runtime/Judged the evaluation.
--   Runtime/Accepted, Runtime/Stopped, Runtime/Reported, Runtime/Lifecycle, Runtime/Passed and
--   Runtime/Attributed have the proofs.
-- Campaign models `EvaluationCampaign.create` and `run`: Campaign/Types has the records,
--   Campaign/Registry the registration of suites, Campaign/Selection the choice of cases,
--   Campaign/Attempts one attempt, Campaign/Summary and Campaign/Origins the summary and the
--   provenance of the report. Costs and durations are whole numbers, a quotient is kept as its
--   two numbers, and the artifacts are values under their names. Campaign/Planned,
--   Campaign/Records, Campaign/Enumerated, Campaign/Counting, Campaign/Observed,
--   Campaign/Accounted, Campaign/Provided, Campaign/Distinct, Campaign/Covered and
--   Campaign/Registered have the proofs.
--
-- Base has the shared names, tests, lists, signed integers, results, texts and JSON values.
-- Each Tests module holds runs at concrete inputs, some of them on the data of an Examples
-- module.
--
-- Not modelled: context projection, rendering, provider gateways, terminal interfaces,
-- experiments and scripts, and the Go and TypeScript programs. The identities that are read
-- from Python source by introspection are parameters. The text form of JSON and SHA-256 belong
-- to the language's library.
mod Base
pub mod Limits
pub mod Paths
pub mod Authority
pub mod Trace
pub mod Loop
pub mod Tools
pub mod EventLog
pub mod Evented
pub mod Campaign
pub mod Snapshots
pub mod Runtime

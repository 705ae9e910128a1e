-- ===== src/Lib.antt =====
-- agent-room: a room of model-driven roles (planner, developer, reviewer, verifier, supervisor
-- and delivery) that work on a task as nodes of a declared graph. The library models the graph's
-- state, its nodes and routers, the builder that makes a graph of a spec, and the parts around a
-- run: the budget, the guardrail, the context engine, the checks of the tools and the buffers of
-- the server.
--
-- How the parts interact. A spec (agent_room/spec.py, presets/*.yaml) is validated and built
-- into a state graph (agent_room/graph.py). In a superstep a node (agent_room/roles) reads the
-- state (agent_room/state.py) and returns an update, which the reducers merge; then the node's
-- wire leads to the next node, by a fixed edge, by a router (agent_room/routers.py) or by the
-- tool loop of a ReAct developer. The service (agent_room/service.py) makes the initial state,
-- derives a task's status from the state, and resumes a halted run. The server checks a request
-- (agent_room/server/api.py), records its session (sessions.py), reconciles the spec with the
-- tools that it registers (react_runtime.py), drives the run in the background and buffers its
-- frames (runs.py), which are the formatted events of the graph (agent_room/events.py). The
-- roles reach their models through the transport (agent_room/llm/transport.py), which charges
-- the budget.
--
-- Files:
--   Base: shared names, Boolean tests, lists over the native numbers, texts.
--   Schemas: agent_room/schemas.py, with the messages of a model and the data of the other
--     parts.
--   State, State.Reducers: agent_room/state.py; `reduce` and `merge` are the reducers,
--     `capped_append` the one that bounds the events.
--   Errors: the exceptions as values of `Result`.
--   Routers: agent_room/routers.py and `_materialize_status` of agent_room/service.py;
--     Routers.Agreement compares the two.
--   Texts: agent_room/roles/_message.py.
--   Prompt.Builder, Prompt.Developer: agent_room/prompt; Prompt.Grouping on
--     `_group_consecutive`.
--   Roles: one module for each file of agent_room/roles; Roles.Verifier.Seeding and
--     Roles.Verifier.Tamper on the oracle.
--   Tools.Safety, Tools.Policy, Tools.Approval: `_safety.py`, `policy.py` and `_approval.py` of
--     agent_room/tools.
--   Tools.Registry: `registry.py` of agent_room/tools, with `register_builtin_tools`;
--     Tools.Spill (with Store, Messages and Twice) `spill.py`; Tools.Files (with Frame, Reading
--     and Globbing) `fs.py`; Tools.Command (with Running) `shell.py`.
--   Guardrail: agent_room/guardrail.py, with Guardrail.Laws.
--   Spec, Spec.Presets, Spec.Validation: agent_room/spec.py and the bundled presets.
--   Graph: `build_uncompiled_from_spec` and its helpers; Graph.Runtime the supersteps of a built
--     graph; Graph.Nodes, Graph.Control and Graph.Steps what each node keeps; Graph.Workflow
--     (with Invariant and Bounds) the runs of the `full` preset, Graph.Goal (with Steps, Routes,
--     Rounds, Invariant and Bounds) those of the `goal` preset.
--   Service: agent_room/service.py; Service.Snapshot the result that is made of a snapshot;
--     Service.Resuming on `resume` and the routers.
--   Context.Tokens, Context.Engine: `tokens.py` and `engine.py` of agent_room/context;
--     Context.Alignment (with Head, Partition and Compress), Context.Window and Context.Pressure
--     on compression; Context.Summary (with Marker) `summary.py`.
--   Runs: agent_room/server/runs.py; Runs.Buffer and Runs.Eviction on the buffer and the
--     manager.
--   Budget: agent_room/budget.py, with Budget.Ceilings.
--   Config, Config.Models: agent_room/config.py, the settings and the models of the roles.
--   Llm.Structured (with Requests and Failures), Llm.Invoke (with Within and Task): the two
--     methods of `LangChainTransport` in agent_room/llm/transport.py, with `_retry.py`;
--     Llm.ContextWindow `context_window.py`.
--   Events, Events.Formatter (with Scrubbing and its Streams): agent_room/events.py.
--   Server.Envelope (with Consistency and Resolving): agent_room/server/react_runtime.py.
--   Server.Sessions (with Invariant, Steps, Ownership and Listing), Server.Tenancy (with
--     Pooling): `sessions.py` and `tenancy.py` of agent_room/server.
--   Server.Api (with Tenants and Requests), Server.Workspace (with Reading): the handlers of
--     agent_room/server/api.py; Server.Compat (with Missing and Listing) those of
--     `compat_v1.py`.
--   Eval.Task, Eval.Runner (with Cells), Eval.Report (with Rows), Eval.Coding (with Sandbox):
--     agent_room/eval.
--   Examples: concrete runs.
--
-- How the code is modelled. A node is a function from the state to a `Result` of an update: a
-- list of writes, one for each key of the dict that the code returns. A key that may be missing,
-- and a value that may be None, is an option; a plan or code that is None is printed as "None"
-- in the prompts, as in the service's runs. The transport's answers, the clock-free parts of the
-- workspace and the process that runs a command are functions given to the nodes; an exception
-- is an `err`. A node's time stamps are left out, a confidence is held in hundredths, and the
-- arguments that only word an error message are left out of it. The subscriber of a run polls a
-- buffer: a wait on the condition variable is a later poll. Every loop is a structural recursion
-- on its list, so no fuel is used but in the printing of a number, which has the number's
-- successor as its fuel, one more than its digits need.
--
-- Parameters, for code that is not the repository's. langgraph is the record `Runtime`: its
-- steps are supersteps of the model, each in surroundings of its own, so that what the models
-- answer may differ from step to step. `ToolNode` and `tools_condition` are functions of these
-- surroundings. pathlib, shlex, the regular expression engine, importlib, the tokenizer, the
-- string methods, the amounts of money, the chat models, the retries of langchain, the parser of
-- their answers, the scrubber of the memory, the digest and the JSON reader are parameters. The
-- disk that the file tools find is a function from resolved paths to what stands there; the
-- codec is a parameter. The workspace of the verifier has besides the path that each path leads
-- to, so that a link or a directory which the developer makes changes what is written, or
-- raises. The statements of the session store are modelled as SQL has them, with the primary
-- keys and the foreign key of the schema.
--
-- Not modelled: the memory providers, which are not among the repository's files, tracing, the
-- health and page routes of the server, the command line, the web front end and the scripts of
-- the evaluation. Of langgraph, checkpoints, parallel branches and the error for a node that is
-- added twice are not modelled; of the developer, the background transcript sync; of the server,
-- the event loop's tasks, the locks, and the making of its directories.
pub mod Base
pub mod Schemas
pub mod State
pub mod Routers
pub mod Errors
pub mod Guardrail
pub mod Texts
pub mod Prompt
pub mod Roles
pub mod Tools
pub mod Spec
pub mod Graph
pub mod Service
pub mod Context
pub mod Runs
pub mod Budget
mod Examples
pub mod Llm
pub mod Config
pub mod Server
pub mod Events
pub mod Eval

-- ===== src/Graph/Runtime.antt =====
-- How a built graph runs: one superstep runs one node, merges its update by the reducers of the state
-- and follows the node's wire. `langgraph` is a parameter: what its supersteps may do is the field
-- `superstep` of `Runtime`, and its `ToolNode` and `tools_condition` are functions of `Env`.
use goal_driven_agent_room.Base.{
  ℕ, zero, suc, Bool, String, Option, none, some, List, [], ◌∷◌, str_eq, if◌then◌else◌, ◌≡◌,
}
use goal_driven_agent_room.Schemas.{Message, Tool}
use goal_driven_agent_room.State.{TaskState, Write, Update, merge}
use goal_driven_agent_room.Texts.{TextLibrary}
use goal_driven_agent_room.Errors.{key_error, Result, ok, err, ◌>>=◌}
use goal_driven_agent_room.Tools.Safety.{Paths, Shell}
use goal_driven_agent_room.Tools.Files.{Bytes, Trees}
use goal_driven_agent_room.Roles.Transport.{Transport}
use goal_driven_agent_room.Roles.Planner.{planner_node}
use goal_driven_agent_room.Roles.PlannerGate.{planner_gate_node}
use goal_driven_agent_room.Roles.Developer.{developer_node}
use goal_driven_agent_room.Roles.DeveloperReact.{ReactBindings, developer_react_node}
use goal_driven_agent_room.Roles.Reviewer.{reviewer_node}
use goal_driven_agent_room.Roles.ReviewerTwoCall.{reviewer_two_call_node}
use goal_driven_agent_room.Roles.Supervisor.{supervisor_node}
use goal_driven_agent_room.Roles.Delivery.{delivery_node}
use goal_driven_agent_room.Roles.Verifier.{Workspace, Outcome, verifier_node}
use goal_driven_agent_room.Graph.{
  NodeImpl, planner_impl, gate_impl, developer_impl, react_impl, reviewer_impl, two_call_impl,
  delivery_impl, supervisor_impl, verifier_impl, tools_impl, Wire, go, choose, react, StateGraph,
}

unfoldable pub find_node : List (String × NodeImpl) → String → Result NodeImpl
find_node [] name = err (key_error name)
find_node ((n, impl) ∷ rest) name = if str_eq n name then ok impl else find_node rest name

-- The entry of a branch mapping; a signal that the mapping lacks is an error.
unfoldable pub find_branch : List (String × Option String) → String → Result (Option String)
find_branch [] signal = err (key_error signal)
find_branch ((on, to) ∷ rest) signal = if str_eq on signal then ok to else find_branch rest signal

module _ (paths : Paths) where
  open paths use {FilePath}

  abbrev pub Files : Type 0
  Files = Workspace FilePath

  -- What surrounds the nodes in one superstep. `run_tools` is `ToolNode` on the transcript: the
  -- messages that it appends, and the files that its tools leave. `wants_tools` is
  -- `tools_condition(...) == "tools"`.
  pub record Env : Type 0 where
    pub lib : TextLibrary TaskState
    pub tx : Transport
    pub bindings : ReactBindings
    pub shell : Shell
    pub trees : Trees paths
    pub encode : String → Bytes
    pub root : FilePath
    pub process : List String → Files → Outcome × Files
    pub allowlist : List String
    pub run_tools :
        List Tool → (approval_wrapped : Bool) → List Message → Files → Result (List Message × Files)
    pub wants_tools : List Message → Bool

  -- A place in the graph, `none` at its end, with the state and the workspace.
  pub record Config : Type 0 where
    pub at : Option String
    pub state : TaskState
    pub files : Files

  -- An update that leaves the workspace alone.
  unfoldable pub with_files : Files → Result Update → Result (Update × Files)
  with_files files (ok u) = ok (u, files)
  with_files files (err e) = err e

  unfoldable pub run_node : Env → NodeImpl → TaskState → Files → Result (Update × Files)
  unfolding with_files planner_node planner_gate_node developer_node developer_react_node
      reviewer_node reviewer_two_call_node delivery_node supervisor_node verifier_node
  run_node env (planner_impl c) s files = with_files files (planner_node env.lib env.tx c s)
  run_node env (gate_impl c) s files = with_files files (planner_gate_node env.lib env.tx c s)
  run_node env (developer_impl c) s files = with_files files (developer_node env.lib env.tx c s)
  run_node env (react_impl c tools rounds) s files =
      with_files files (developer_react_node env.lib env.tx c env.bindings tools rounds s)
  run_node env (reviewer_impl c) s files = with_files files (reviewer_node env.lib env.tx c s)
  run_node env (two_call_impl c) s files =
      with_files files (reviewer_two_call_node env.lib env.tx c s)
  run_node env (delivery_impl c) s files =
      with_files files (delivery_node env.lib env.tx c env.bindings.search env.bindings.mode s)
  run_node env (supervisor_impl c) s files = with_files files (supervisor_node env.tx c s)
  run_node env verifier_impl s files =
      verifier_node paths env.trees env.encode env.lib.strip env.shell env.root env.process
        env.allowlist s files
  run_node env (tools_impl tools wrapped) s files =
      env.run_tools tools wrapped s.dev_messages files >>= λ r.
      ok (Write.dev_messages r.0 ∷ [], r.1)

  -- Where a node's wire leads; a node without one is the last.
  unfoldable pub next_of : Env → List Wire → String → TaskState → Result (Option String)
  unfolding find_branch
  next_of env [] name s = ok none
  next_of env (go from to ∷ rest) name s =
      if str_eq from name then ok to else next_of env rest name s
  next_of env (choose from router mapping ∷ rest) name s =
      if str_eq from name then find_branch mapping (router s) else next_of env rest name s
  next_of env (react from tool_node on_end ∷ rest) name s =
      if str_eq from name
      then ok (if env.wants_tools s.dev_messages then tool_node else on_end)
      else next_of env rest name s

  -- One superstep at the node `name`.
  unfoldable pub advance : StateGraph → Env → String → Config → Result Config
  unfolding find_node run_node next_of merge
  advance g env name c = do
    impl ← find_node g.nodes name
    ran ← run_node env impl c.state c.files
    let s = merge c.state ran.0
    next ← next_of env g.wires name s
    ok (record { at = next; state = s; files = ran.1 })

  -- A superstep that raises nothing, in any surroundings that `Lawful` admits.
  pub record Superstep (Lawful : Env → Type 0) (g : StateGraph) (p q : Config) : Type 0 where
    pub env : Env
    pub lawful : Lawful env
    pub name : String
    pub at_name : p.at ≡ some name
    pub advanced : advance g env name p ≡ ok q

  -- What the theorems assume of langgraph: its steps are supersteps.
  pub record Runtime (Lawful : Env → Type 0) (g : StateGraph) : Type 1 where
    pub Step : Config → Config → Type 0
    pub superstep : (p q : Config) → Step p q → Superstep Lawful g p q

  -- A run of n supersteps.
  pub data Run {Lawful : Env → Type 0} {g : StateGraph} (rt : Runtime Lawful g) (p : Config)
      : ℕ → Config → Type 0 where
    here : Run rt p zero p
    next : {n : ℕ} {q r : Config} → Run rt p n q → rt.Step q r → Run rt p (suc n) r

  -- A property that every superstep keeps holds throughout a run.
  module _ {Lawful : Env → Type 0} {g : StateGraph} (rt : Runtime Lawful g) where
    pub Run-induction :
        (P : ℕ → Config → Type 0)
        → ((n : ℕ) (p q : Config) → Superstep Lawful g p q → P n p → P (suc n) q)
        → {c d : Config} {n : ℕ} → P zero c
        → Run rt c n d
        → P n d
    Run-induction P keep start here = start
    Run-induction P keep start (next {n} {q} {r} run step) =
        keep n q r (rt.superstep q r step) (Run-induction P keep start run)

-- ===== src/Graph.antt =====
-- agent_room/graph.py: the graph that a spec declares. `StateGraph` of langgraph is the record of
-- what the code adds to it; `none` is `END`.
pub mod Runtime
pub mod Nodes
pub mod Control
pub mod Steps
pub mod Workflow
pub mod Goal
use goal_driven_agent_room.Base.{
  ℕ, zero, suc, Bool, true, false, not, ◌&&◌, String, Option, none, some, List, [], ◌∷◌, ◌++◌, ◌⧺◌,
  map, mem_text, is_empty, is_none, get_default, str_eq, if◌then◌else◌,
}
use goal_driven_agent_room.Schemas.{
  Role, planner, developer, reviewer, delivery, verifier, supervisor, Tool,
}
use goal_driven_agent_room.Errors.{
  Error, value_error, key_error, not_implemented, Result, ok, err, ◌>>=◌,
}
use goal_driven_agent_room.Tools.Policy.{PermissionMode, approval, default_mode, apply_policy}
use goal_driven_agent_room.Spec.{
  NodeSpec, BranchSpec, EdgeSpec, GraphSpec, RouterFn, Attribute, resolve_router, is_developer,
  end_name,
}
use goal_driven_agent_room.Roles.Transport.{NodeConfig}

-- The node functions, by factory.
pub data NodeImpl : Type 0 where
  planner_impl : NodeConfig → NodeImpl
  gate_impl : NodeConfig → NodeImpl
  developer_impl : NodeConfig → NodeImpl
  react_impl : NodeConfig → List Tool → ℕ → NodeImpl
  reviewer_impl : NodeConfig → NodeImpl
  two_call_impl : NodeConfig → NodeImpl
  delivery_impl : NodeConfig → NodeImpl
  supervisor_impl : NodeConfig → NodeImpl
  verifier_impl : NodeImpl
  tools_impl : List Tool → (approval_wrapped : Bool) → NodeImpl

-- The registry: the tools by name.
abbrev pub Registry : Type 0
Registry = List (String × Tool)

unfoldable pub find_tool : Registry → String → Result Tool
find_tool [] name = err (key_error name)
find_tool ((n, t) ∷ rest) name = if str_eq n name then ok t else find_tool rest name

-- agent_room/tools/spec_resolver.py: `resolve_tool_names`
unfoldable pub resolve_tool_names : List String → Registry → Result (List Tool)
unfolding find_tool
resolve_tool_names [] registry = ok []
resolve_tool_names (name ∷ names) registry = do
  t ← find_tool registry name
  ts ← resolve_tool_names names registry
  ok (t ∷ ts)

-- `_resolve_tools_with_policy`: a policy that leaves no tool is an error.
unfoldable pub resolve_tools_with_policy : NodeSpec → Registry → Result (List Tool)
unfolding resolve_tool_names apply_policy
resolve_tools_with_policy spec registry = do
  raw ← resolve_tool_names spec.tools registry
  let filtered = apply_policy raw (get_default spec.tool_mode default_mode)
  if not (is_empty spec.tools) && is_empty filtered
      then err (value_error "tool_mode filtered out every listed tool")
      else ok filtered

abbrev pub config_of : NodeSpec → NodeConfig
config_of spec = record {
  prompt_override = spec.prompt_override;
  extra_context_keys = spec.extra_context_keys;
  model = spec.model;
}

-- `_is_react_node`
unfoldable pub is_react_node : NodeSpec → Bool
is_react_node spec = not (is_empty spec.tools) && (is_developer spec.role && is_none spec.variant)

-- `spec.max_dev_rounds or 6`
abbrev pub rounds_or_default : Option ℕ → ℕ
rounds_or_default none = 6
rounds_or_default (some zero) = 6
rounds_or_default (some (suc n)) = suc n

-- `_ROLE_FACTORIES`, with the verifier, which is made apart.
role_factory : Role → NodeConfig → NodeImpl
role_factory planner config = planner_impl config
role_factory developer config = developer_impl config
role_factory reviewer config = reviewer_impl config
role_factory delivery config = delivery_impl config
role_factory supervisor config = supervisor_impl config
role_factory verifier config = verifier_impl

-- `_VARIANT_FACTORIES`
variant_factory : Role → String → NodeConfig → Result NodeImpl
variant_factory planner variant config =
    if str_eq variant "gate" then ok (gate_impl config) else err (value_error "unknown variant")
variant_factory reviewer variant config =
    if str_eq variant "two_call"
    then ok (two_call_impl config)
    else err (value_error "unknown variant")
variant_factory _ variant config = err (value_error "unknown variant")

factory : Role → Option String → NodeConfig → Result NodeImpl
unfolding role_factory variant_factory
factory verifier variant config = ok verifier_impl
factory role none config = ok (role_factory role config)
factory role (some variant) config = variant_factory role variant config

-- `_instantiate_node`
unfoldable pub instantiate_node : NodeSpec → Registry → Result NodeImpl
unfolding resolve_tools_with_policy is_react_node factory
instantiate_node spec registry =
    if is_react_node spec
    then (do
      tools ← resolve_tools_with_policy spec registry
      ok (react_impl (config_of spec) tools (rounds_or_default spec.max_dev_rounds)))
    else if not (is_empty spec.tools) && not (is_developer spec.role)
    then err (value_error "tools are only wired for role='developer' in v0.3")
    else factory spec.role spec.variant (config_of spec)

-- An edge of the built graph: unconditional, conditional by a router and a mapping, or the branch on
-- tool calls with its exit.
pub data Wire : Type 0 where
  go : String → Option String → Wire
  choose : String → RouterFn → List (String × Option String) → Wire
  react : String → (tool_node on_end : Option String) → Wire

pub record StateGraph : Type 0 where
  pub entry : String
  pub nodes : List (String × NodeImpl)
  pub wires : List Wire

unfoldable pub tool_node_name : String → String
unfolding ◌⧺◌
tool_node_name name = name ⧺ "_tools"

abbrev is_approval : PermissionMode → Bool
is_approval approval = true
is_approval _ = false

-- The nodes that one node of the spec adds.
unfoldable pub add_node : String → NodeSpec → Registry → Result (List (String × NodeImpl))
unfolding instantiate_node is_react_node resolve_tools_with_policy
add_node name spec registry = do
  node ← instantiate_node spec registry
  if is_react_node spec
      then (do
        tools ← resolve_tools_with_policy spec registry
        let wrapped = is_approval (get_default spec.tool_mode default_mode)
        ok ((name, node) ∷ (tool_node_name name, tools_impl tools wrapped) ∷ []))
      else ok ((name, node) ∷ [])

-- The loop over `spec.nodes`.
unfoldable pub add_nodes : List (String × NodeSpec) → Registry → Result (List (String × NodeImpl))
unfolding add_node
add_nodes [] registry = ok []
add_nodes ((name, spec) ∷ rest) registry = do
  here ← add_node name spec registry
  later ← add_nodes rest registry
  ok (here ++ later)

-- `END if to == "__end__" else to`
unfoldable pub target_of : String → Option String
target_of to = if str_eq to end_name then none else some to

-- The names that `react_nodes` holds.
unfoldable pub react_names : List (String × NodeSpec) → List String
unfolding is_react_node
react_names [] = []
react_names ((name, spec) ∷ rest) =
    let later = react_names rest in if is_react_node spec then name ∷ later else later

-- The wires that an edge of the spec adds; `_add_react_branch` adds two.
unfoldable pub add_edge :
    (String → String → Attribute) → List String → EdgeSpec → Result (List Wire)
unfolding target_of resolve_router mem_text
add_edge import_attr react_nodes e = elim e.to [
  | some to ↦
      if mem_text e.from react_nodes
      then ok (
          react e.from (some (tool_node_name e.from)) (target_of to)
          ∷ go (tool_node_name e.from) (some e.from)
          ∷ [])
      else ok (go e.from (target_of to) ∷ [])
  | none ↦ resolve_router import_attr e.router >>= λ router_fn.
      if mem_text e.from react_nodes
      then err (
          not_implemented
            "conditional edges out of a tool-using developer node are not supported in v0.3")
      else ok (
          choose e.from router_fn (map (λ (b : BranchSpec). (b.on, target_of b.to)) e.branches)
          ∷ [])
]

-- The loop over `spec.edges`.
unfoldable pub add_edges :
    (String → String → Attribute) → List String → List EdgeSpec → Result (List Wire)
unfolding add_edge
add_edges import_attr react_nodes [] = ok []
add_edges import_attr react_nodes (e ∷ es) = do
  here ← add_edge import_attr react_nodes e
  later ← add_edges import_attr react_nodes es
  ok (here ++ later)

-- `build_uncompiled_from_spec`
unfoldable pub build : (String → String → Attribute) → Registry → GraphSpec → Result StateGraph
unfolding add_nodes add_edges react_names tool_node_name
build import_attr registry spec = do
  nodes ← add_nodes spec.nodes registry
  wires ← add_edges import_attr (react_names spec.nodes) spec.edges
  ok (record { entry = spec.entry; nodes = nodes; wires = wires })

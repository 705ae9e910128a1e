-- ===== src/Server/Envelope.antt =====
-- agent_room/server/react_runtime.py: the registry and the spec of the server's developer. Presets
-- are loaded by a function that is a parameter, and `memory` is whether the provider that the
-- registry gets can hold the developer's notes.
pub mod Consistency
pub mod Resolving
use goal_driven_agent_room.Base.{
  Bool, true, false, not, ◌&&◌, ◌||◌, String, Option, none, some, List, [], ◌∷◌, ◌++◌, mem_text,
  is_empty, map, str_eq, or_none, get_default, if◌then◌else◌,
}
use goal_driven_agent_room.Schemas.{Tool}
use goal_driven_agent_room.Errors.{value_error, Result, ok, err, ◌>>=◌}
use goal_driven_agent_room.Config.{Settings}
use goal_driven_agent_room.Tools.Policy.{PermissionMode, read_only, approval, unrestricted}
use goal_driven_agent_room.Tools.Registry.{ToolEntry, Entries, register, register_builtin_tools}
use goal_driven_agent_room.Spec.{NodeSpec, GraphSpec, is_developer, model_validate}

-- The loop that registers the MCP tools.
unfoldable pub register_mcp : List Tool → Entries → Result Entries
unfolding register
register_mcp [] entries = ok entries
register_mcp (t ∷ ts) entries =
    register (record { name = t.name; toolset = "mcp"; tool = t }) entries >>= register_mcp ts

-- `[t for t in node["tools"] if t in available]`
unfoldable pub keep_available : List String → List String → List String
keep_available available [] = []
keep_available available (t ∷ ts) =
    let rest = keep_available available ts in if mem_text t available then t ∷ rest else rest

-- `if name not in node["tools"]: node["tools"].append(name)`
unfoldable pub grant : String → List String → List String
grant name tools = if mem_text name tools then tools else tools ++ (name ∷ [])

unfoldable pub grant_all : List String → List String → List String
unfolding grant
grant_all [] tools = tools
grant_all (n ∷ ns) tools = grant_all ns (grant n tools)

-- A `PermissionMode`, where the text is one.
unfoldable pub permission_mode : String → Result (Option PermissionMode)
permission_mode mode =
    if str_eq mode "read_only"
    then ok (some read_only)
    else if str_eq mode "approval"
    then ok (some approval)
    else if str_eq mode "unrestricted"
    then ok (some unrestricted)
    else err (value_error "tool_mode")

-- The names under an allowlist and a memory, a set as a list.
abbrev pub names_for : List String → Bool → List String → List String
names_for shell_allowlist memory mcp_tool_names =
    "glob" ∷ "read_text" ∷ "write_text" ∷ (if is_empty shell_allowlist then [] else "shell" ∷ [])
    ++ (if memory then "memory" ∷ [] else [])
    ++ mcp_tool_names

-- The tools that are available, with the memory and the MCP tools.
unfoldable pub reconcile_for : List String → Bool → List String → List String → List String
unfolding keep_available grant grant_all
reconcile_for shell_allowlist memory mcp_tool_names tools =
    let kept = keep_available (names_for shell_allowlist memory mcp_tool_names) tools in
    grant_all mcp_tool_names (if memory then grant "memory" kept else kept)

module _ {Amount : Type 0} where
  -- `_available_tool_names`
  unfoldable pub available_tool_names : Settings Amount → List String → List String
  available_tool_names s mcp_tool_names =
      names_for s.shell_allowlist s.memory_enabled mcp_tool_names

  -- `build_server_registry`
  unfoldable pub build_server_registry :
      Settings Amount → (memory : Bool) → List Tool → Result Entries
  unfolding register_builtin_tools register_mcp
  build_server_registry s memory mcp_tools =
      register_builtin_tools s.shell_allowlist memory [] >>= register_mcp mcp_tools

  -- The tools of a developer that lists some.
  unfoldable pub reconcile_tools : Settings Amount → List String → List String → List String
  unfolding reconcile_for
  reconcile_tools s mcp_tool_names tools =
      reconcile_for s.shell_allowlist s.memory_enabled mcp_tool_names tools

  -- The body of the loop over the nodes; what validates the mode is `model_validate`.
  unfoldable pub reconcile_node : Settings Amount → List String → NodeSpec → Result NodeSpec
  unfolding reconcile_tools permission_mode
  reconcile_node s mcp_tool_names n =
      let tools = reconcile_tools s mcp_tool_names n.tools in
      if not (is_developer n.role) || is_empty n.tools
      then ok n
      else if is_empty tools
      then ok (record n { tools = []; tool_mode = none })
      else (permission_mode s.tool_mode >>= λ mode.
          ok (record n { tools = tools; tool_mode = mode }))

  unfoldable pub reconcile_nodes :
      Settings Amount → List String → List (String × NodeSpec) → Result (List (String × NodeSpec))
  unfolding reconcile_node
  reconcile_nodes s mcp_tool_names [] = ok []
  reconcile_nodes s mcp_tool_names ((name, n) ∷ rest) = do
    n' ← reconcile_node s mcp_tool_names n
    later ← reconcile_nodes s mcp_tool_names rest
    ok ((name, n') ∷ later)

  -- `build_server_spec`
  unfoldable pub build_server_spec :
      (String → Result GraphSpec) → Settings Amount → Option String → List String → Result GraphSpec
  unfolding reconcile_nodes model_validate
  build_server_spec load_preset s graph_preset mcp_tool_names = do
    spec ← load_preset (get_default (or_none graph_preset) s.graph_preset)
    nodes ← reconcile_nodes s mcp_tool_names spec.nodes
    model_validate (record spec { nodes = nodes })

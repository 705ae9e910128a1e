-- ===== src/Spec.antt =====
-- agent_room/spec.py: the declarative graph and its validation. A dict is the list of its items in
-- order. `importlib` is a parameter of `resolve_router`.
pub mod Presets
pub mod Validation
use goal_driven_agent_room.Base.{
  ℕ, zero, suc, ◌+◌, Bool, true, false, not, ◌&&◌, ◌||◌, String, Option, none, some, List, [], ◌∷◌,
  ◌++◌, map, mem_text, is_empty, is_none, blank, truthy, get_default, str_eq, if◌then◌else◌, ltb,
}
use Prim.Native.Char.{Char}
use goal_driven_agent_room.Schemas.{
  Role, planner, developer, reviewer, delivery, verifier, supervisor,
}
use goal_driven_agent_room.State.{TaskState}
use goal_driven_agent_room.Routers.{
  Signal, to_developer, to_delivery, to_reviewer, to_supervisor, to_planner, halt, review_router,
}
use goal_driven_agent_room.Errors.{
  Error, value_error, attribute_error, type_error, Result, ok, err, ◌>>=◌, ◌>>◌, require,
}
use goal_driven_agent_room.Tools.Policy.{PermissionMode}

-- `max_dev_rounds` is an int of which only those that are at least 1 are let through; a negative
-- one is rejected as 0 is.
pub record NodeSpec : Type 0 where
  pub role : Role
  pub variant : Option String
  pub model : Option String
  pub prompt_override : Option String
  pub extra_context_keys : List String
  pub tools : List String
  pub tool_mode : Option PermissionMode
  pub max_dev_rounds : Option ℕ

pub record BranchSpec : Type 0 where
  pub on : String
  pub to : String

pub record EdgeSpec : Type 0 where
  pub from : String
  pub to : Option String
  pub branches : List BranchSpec
  pub router : Option String

pub record GraphSpec : Type 0 where
  pub name : String
  pub entry : String
  pub nodes : List (String × NodeSpec)
  pub edges : List EdgeSpec
  pub state_class : Option String

abbrev pub is_developer : Role → Bool
is_developer developer = true
is_developer _ = false

-- `_max_dev_rounds_only_for_developer` and `_tool_mode_requires_tools`
unfoldable pub validate_node : NodeSpec → Result (Unit {0})
validate_node n = do
  require (is_none n.max_dev_rounds || is_developer n.role)
      (value_error "max_dev_rounds is only valid on role='developer'")
  require (ltb 0 (get_default n.max_dev_rounds 1)) (value_error "max_dev_rounds must be >= 1")
  require (is_none n.tool_mode || not (is_empty n.tools)) (value_error "tool_mode set but tools=[]")

abbrev pub xor : Bool → Bool → Bool
xor true true = false
xor true false = true
xor false true = true
xor false false = false

-- `_exactly_one_path`; a missing `branches` is the empty list.
unfoldable pub validate_edge : EdgeSpec → Result (Unit {0})
validate_edge e = do
  require (xor (not (is_none e.to)) (not (is_empty e.branches)))
      (value_error "EdgeSpec needs exactly one of `to` or `branches`")
  require (not (truthy e.router && is_empty e.branches))
      (value_error "EdgeSpec sets `router` but has no `branches`")

unfoldable pub node_names : List (String × NodeSpec) → List String
node_names [] = []
node_names ((name, n) ∷ rest) = name ∷ node_names rest

abbrev pub end_name : String
end_name = "__end__"

-- The targets of an edge: its `to`, or those of its branches.
unfoldable pub targets : EdgeSpec → List String
targets e = elim e.to [ some t ↦ t ∷ [] | none ↦ map (λ (b : BranchSpec). b.to) e.branches ]

unfoldable pub check_targets : List String → List String → Result (Unit {0})
check_targets valid [] = ok tt
check_targets valid (t ∷ ts) =
    require (mem_text t valid) (value_error "edge target is not a node and not '__end__'")
    >> check_targets valid ts

unfoldable pub check_edges : List String → List EdgeSpec → Result (Unit {0})
unfolding targets check_targets
check_edges names [] = ok tt
check_edges names (e ∷ es) = do
  require (mem_text e.from names) (value_error "edge.from is not a node")
  check_targets (end_name ∷ names) (targets e)
  check_edges names es

-- `_references_resolve`
unfoldable pub references_resolve : GraphSpec → Result GraphSpec
unfolding check_edges node_names
references_resolve g = do
  require (mem_text g.entry (node_names g.nodes)) (value_error "entry is not in nodes")
  check_edges (node_names g.nodes) g.edges
  require (is_none g.state_class)
      (value_error "state_class is reserved for v0.3 — leave unset for v0.2")
  ok g

unfoldable pub validate_nodes : List (String × NodeSpec) → Result (Unit {0})
unfolding validate_node
validate_nodes [] = ok tt
validate_nodes ((name, n) ∷ rest) = validate_node n >> validate_nodes rest

unfoldable pub validate_edges : List EdgeSpec → Result (Unit {0})
unfolding validate_edge
validate_edges [] = ok tt
validate_edges (e ∷ es) = validate_edge e >> validate_edges es

-- `GraphSpec.model_validate` of parsed fields: the parts first, then the references.
unfoldable pub model_validate : GraphSpec → Result GraphSpec
unfolding validate_nodes validate_edges references_resolve
model_validate g = do validate_nodes g.nodes; validate_edges g.edges; references_resolve g

-- The label of a signal, as `branches` name it.
abbrev pub label : Signal → String
label to_developer = "developer"
label to_delivery = "delivery"
label to_reviewer = "reviewer"
label to_supervisor = "supervisor"
label to_planner = "planner"
label halt = "halt"

abbrev pub RouterFn : Type 0
RouterFn = TaskState → String

-- `importlib.import_module(module)` and `getattr(module, attr, None)`.
pub data Attribute : Type 0 where
  no_module : Error → Attribute
  no_attribute : Attribute
  not_callable : Attribute
  callable : RouterFn → Attribute

abbrev is_colon : Char → Bool
is_colon c = str_eq (String.◌∷◌ c "") ":"

prefix_by : Char → Option (String × String) → Option (String × String)
prefix_by c none = none
prefix_by c (some (module_path, attr)) = some (String.◌∷◌ c module_path, attr)

-- `dotted.split(":", 1)`, or `none` where no colon stands in it.
unfoldable pub split_colon : String → Option (String × String)
unfolding prefix_by
split_colon String.[] = none
split_colon (String.◌∷◌ c rest) =
    let later = prefix_by c (split_colon rest) in if is_colon c then some ("", rest) else later

router_of : Attribute → Result RouterFn
router_of (no_module e) = err e
router_of no_attribute = err (attribute_error "router not found")
router_of not_callable = err (type_error "router resolved to non-callable")
router_of (callable fn) = ok fn

-- `resolve_router`: no silent fallback.
unfoldable pub resolve_router : (String → String → Attribute) → Option String → Result RouterFn
unfolding router_of split_colon review_router
resolve_router import_attr none = ok (λ s. label (review_router s))
resolve_router import_attr (some dotted) = elim (split_colon dotted) [
  | none ↦ err (value_error "router must be a dotted path of the form 'pkg.module:fn'")
  | some p ↦ router_of (import_attr p.0 p.1)
]

-- ===== src/Spec/Validation.antt =====
-- What the validators of agent_room/spec.py let through.
use goal_driven_agent_room.Base.{
  true, not, String, List, [], ◌∷◌, mem_text, is_empty, is_none, ◌≡◌, ◌↔◌, refl, arith, get_default,
  ltb, truthy, ◌&&◌, ◌||◌,
}
use goal_driven_agent_room.Errors.{Result, ok, err, ◌>>◌, require, require-ok}
use goal_driven_agent_room.Spec.{
  NodeSpec, EdgeSpec, GraphSpec, validate_node, validate_edge, node_names, end_name, targets,
  check_targets, check_edges, references_resolve, validate_nodes, validate_edges, model_validate,
  is_developer, xor,
}

abbrev pub AllIn : List String → List String → Type 0
AllIn names [] = Unit
AllIn names (t ∷ ts) = (mem_text t names ≡ true) × AllIn names ts

-- A node with a round budget is a developer, with at least one round; a node with a permission mode
-- lists tools.
pub record IsSoundNode (n : NodeSpec) : Type 0 where
  pub rounds_developer : (is_none n.max_dev_rounds || is_developer n.role) ≡ true
  pub rounds_positive : ltb 0 (get_default n.max_dev_rounds 1) ≡ true
  pub mode_tools : (is_none n.tool_mode || not (is_empty n.tools)) ≡ true

-- An edge has a target or branches and not both, and a router only with branches.
pub record IsSoundEdge (e : EdgeSpec) : Type 0 where
  pub one_path : xor (not (is_none e.to)) (not (is_empty e.branches)) ≡ true
  pub router_branches : not (truthy e.router && is_empty e.branches) ≡ true

abbrev pub AllNodes : List (String × NodeSpec) → Type 0
AllNodes [] = Unit
AllNodes ((name, n) ∷ rest) = IsSoundNode n × AllNodes rest

abbrev pub AllEdges : List EdgeSpec → Type 0
AllEdges [] = Unit
AllEdges (e ∷ es) = IsSoundEdge e × AllEdges es

-- Every edge leads from a node to nodes or to the end.
abbrev pub AllResolve : List String → List EdgeSpec → Type 0
AllResolve names [] = Unit
AllResolve names (e ∷ es) =
    (mem_text e.from names ≡ true) × AllIn (end_name ∷ names) (targets e) × AllResolve names es

pub record IsSoundSpec (g : GraphSpec) : Type 0 where
  pub sound_nodes : AllNodes g.nodes
  pub sound_edges : AllEdges g.edges
  pub entry_node : mem_text g.entry (node_names g.nodes) ≡ true
  pub resolves : AllResolve (node_names g.nodes) g.edges
  pub no_state_class : is_none g.state_class ≡ true

validate_node_iff : (n : NodeSpec) → (validate_node n ≡ ok tt) ↔ IsSoundNode n
unfolding validate_node
validate_node_iff n = ground arith

validate_edge_iff : (e : EdgeSpec) → (validate_edge e ≡ ok tt) ↔ IsSoundEdge e
unfolding validate_edge
validate_edge_iff e = ground arith

-- A step that returns nothing.
then-ok :
    {A : Type 0} (m : Result (Unit {0})) (k : Result A) {a : A}
    → (m >> k) ≡ ok a
    → (m ≡ ok tt) × (k ≡ ok a)
then-ok (ok tt) k h = (refl, h)
then-ok (err e) k h = cc

validate_nodes_iff : (ns : List (String × NodeSpec)) → (validate_nodes ns ≡ ok tt) ↔ AllNodes ns
unfolding validate_nodes
validate_nodes_iff [] = (λ h. tt, λ h. refl)
validate_nodes_iff ((name, n) ∷ rest) = (
  λ h.
      let (here, later) = then-ok (validate_node n) (validate_nodes rest) h in
      ((validate_node_iff n).0 here, (validate_nodes_iff rest).0 later),
  λ h. rw ((validate_node_iff n).1 (h.0)) ((validate_nodes_iff rest).1 (h.1)),
)

validate_edges_iff : (es : List EdgeSpec) → (validate_edges es ≡ ok tt) ↔ AllEdges es
unfolding validate_edges
validate_edges_iff [] = (λ h. tt, λ h. refl)
validate_edges_iff (e ∷ es) = (
  λ h.
      let (here, later) = then-ok (validate_edge e) (validate_edges es) h in
      ((validate_edge_iff e).0 here, (validate_edges_iff es).0 later),
  λ h. rw ((validate_edge_iff e).1 (h.0)) ((validate_edges_iff es).1 (h.1)),
)

check_targets_iff : (valid ts : List String) → (check_targets valid ts ≡ ok tt) ↔ AllIn valid ts
unfolding check_targets
check_targets_iff valid [] = (λ h. tt, λ h. refl)
check_targets_iff valid (t ∷ ts) = (
  λ h.
      let (here, later) = then-ok (require (mem_text t valid) _) (check_targets valid ts) h in
      (require-ok _ _ here, (check_targets_iff valid ts).0 later),
  λ h. rw (h.0) ((check_targets_iff valid ts).1 (h.1)),
)

check_edges_iff :
    (names : List String) (es : List EdgeSpec)
    → (check_edges names es ≡ ok tt) ↔ AllResolve names es
unfolding check_edges
check_edges_iff names [] = (λ h. tt, λ h. refl)
check_edges_iff names (e ∷ es) = (
  λ h.
      let (source, later) = then-ok (require (mem_text e.from names) _) _ h in
      let (ends, rest) = then-ok (check_targets (end_name ∷ names) (targets e)) _ later in
      (require-ok _ _ source, (check_targets_iff _ _).0 ends, (check_edges_iff names es).0 rest),
  λ h.
      rw (h.0, (check_targets_iff (end_name ∷ names) (targets e)).1 (h.1))
        ((check_edges_iff names es).1 (h.2)),
)

-- A spec is let through, unchanged, exactly when it is sound: sound nodes and edges, an entry that
-- is a node, edges that lead from nodes to nodes or to the end, and no `state_class`.
pub model_validate_iff :
    (g g' : GraphSpec) → (model_validate g ≡ ok g') ↔ (IsSoundSpec g × (g ≡ g'))
unfolding model_validate references_resolve
model_validate_iff g g' = (
  λ h.
      let (nodes, h₁) = then-ok (validate_nodes g.nodes) _ h in
      let (edges, h₂) = then-ok (validate_edges g.edges) _ h₁ in
      let (entry, h₃) = then-ok (require (mem_text g.entry (node_names g.nodes)) _) _ h₂ in
      let (resolved, h₄) = then-ok (check_edges (node_names g.nodes) g.edges) _ h₃ in
      let (unset, same) = then-ok (require (is_none g.state_class) _) _ h₄ in
      (
        record {
          sound_nodes = (validate_nodes_iff g.nodes).0 nodes;
          sound_edges = (validate_edges_iff g.edges).0 edges;
          entry_node = require-ok _ _ entry;
          resolves = (check_edges_iff _ _).0 resolved;
          no_state_class = require-ok _ _ unset;
        },
        cc same,
      ),
  λ h.
      let sound = h.0 in
      rw
        (
          (validate_nodes_iff g.nodes).1 sound.sound_nodes,
          (validate_edges_iff g.edges).1 sound.sound_edges,
          sound.entry_node,
          (check_edges_iff (node_names g.nodes) g.edges).1 sound.resolves,
          sound.no_state_class,
        )
        (cc (h.1)),
)

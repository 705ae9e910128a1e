-- ===== src/Graph/Steps.antt =====
-- Supersteps by the kind of their node: what changed, and the wire that was followed.
use mathlib.Core.Path.{subst}
use goal_driven_agent_room.Base.{String, ◌≡◌, sym}
use goal_driven_agent_room.Schemas.{ReviewerDecision}
use goal_driven_agent_room.State.{Update, merge}
use goal_driven_agent_room.Errors.{Result, ok, err}
use goal_driven_agent_room.Tools.Safety.{Paths}
use goal_driven_agent_room.Roles.Transport.{NodeConfig}
use goal_driven_agent_room.Roles.Verifier.{Workspace}
use goal_driven_agent_room.Graph.{
  NodeImpl, planner_impl, developer_impl, reviewer_impl, delivery_impl, StateGraph,
}
use goal_driven_agent_room.Graph.Nodes.{SameControl, IsReviewed, IsDelivered}
use goal_driven_agent_room.Graph.Control.{
  advance-Advanced, planner_node-control, developer_node-control, reviewer_node-IsReviewed,
  delivery_node-IsDelivered,
}
use goal_driven_agent_room.Graph.Runtime.{
  Env, Config, with_files, run_node, find_node, next_of, advance,
}

pub with_files-ok :
    (paths : Paths) (files left : Workspace paths.FilePath) (r : Result Update) (u : Update)
    → with_files paths files r ≡ ok (u, left)
    → r ≡ ok u
unfolding with_files
with_files-ok paths files left (ok v) u h = cc h
with_files-ok paths files left (err e) u h = cc h

module _ (paths : Paths) (g : StateGraph) (env : Env paths) (name : String) (p q : Config paths)
    (h : advance paths g env name p ≡ ok q) where
  -- The wire that a superstep follows.
  pub advance-next_of : next_of paths env g.wires name q.state ≡ ok q.at
  advance-next_of =
      let a = advance-Advanced paths g env name p q h in
      subst (λ s. next_of paths env g.wires name s ≡ ok q.at) (sym a.merged) a.routed

  -- The update of the node that a superstep ran.
  pub advance-run :
      (impl : NodeImpl)
      → find_node g.nodes name ≡ ok impl
      → (u : Update) × (left : Workspace paths.FilePath) × (run_node paths env impl p.state p.files
          ≡ ok (u, left))
        × (q.state ≡ merge p.state u)
  advance-run impl found =
      let a = advance-Advanced paths g env name p q h in
      let same : a.impl ≡ impl = cc (a.found, found) in
      (
        a.update,
        a.files,
        subst (λ i. run_node paths env i p.state p.files ≡ ok (a.update, a.files)) same a.ran,
        a.merged,
      )

  pub planner-step :
      (c : NodeConfig) → find_node g.nodes name ≡ ok (planner_impl c) → SameControl p.state q.state
  unfolding run_node
  planner-step c found =
      let (u, left, ran, merged) = advance-run (planner_impl c) found in
      subst (SameControl p.state) (sym merged)
        (planner_node-control env.lib env.tx c p.state u (with_files-ok paths _ left _ u ran))

  pub developer-step :
      (c : NodeConfig)
      → find_node g.nodes name ≡ ok (developer_impl c)
      → SameControl p.state q.state
  unfolding run_node
  developer-step c found =
      let (u, left, ran, merged) = advance-run (developer_impl c) found in
      subst (SameControl p.state) (sym merged)
        (developer_node-control env.lib env.tx c p.state u (with_files-ok paths _ left _ u ran))

  pub reviewer-step :
      (c : NodeConfig)
      → find_node g.nodes name ≡ ok (reviewer_impl c)
      → (d : ReviewerDecision) × IsReviewed p.state d q.state
  unfolding run_node
  reviewer-step c found =
      let (u, left, ran, merged) = advance-run (reviewer_impl c) found in
      let (d, reviewed) =
        reviewer_node-IsReviewed env.lib env.tx c p.state u (with_files-ok paths _ left _ u ran) in
      (d, subst (IsReviewed p.state d) (sym merged) reviewed)

  pub delivery-step :
      (c : NodeConfig)
      → find_node g.nodes name ≡ ok (delivery_impl c)
      → (content : String) × IsDelivered p.state content q.state
  unfolding run_node
  delivery-step c found =
      let (u, left, ran, merged) = advance-run (delivery_impl c) found in
      let (content, delivered) =
        delivery_node-IsDelivered env.lib env.tx c p.state u env.bindings.search env.bindings.mode
          (with_files-ok paths _ left _ u ran) in
      (content, subst (IsDelivered p.state content) (sym merged) delivered)
